-- ===== src/System/Data.antt =====
-- The READY data that a client's task reads from the shard.
use gateway_proxy.Prelude.{
  ℕ, ◌+◌, ◌≡◌, sym, ◌∙◌, subst, some, [], ◌∷◌, inl, inr, Option-cases, if-elim, ltb, length,
  get_elem?,
}
use gateway_proxy.Text.{Text}
use gateway_proxy.Text.Words.{text_eq}
use gateway_proxy.Model.{string, array, values, JsonObject, get, insert, get-insert}
use gateway_proxy.Cache.Records.{InMemoryCache}
use gateway_proxy.State.{BroadcastMessage}
use gateway_proxy.State.Readiness.{Ready, is_ready}
use gateway_proxy.State.Waiting as Waiting
use gateway_proxy.State.Waiting.{advance_at, testing, subscribing, reading, parked, returned}
use gateway_proxy.Dispatch as Dispatch
use gateway_proxy.Dispatch.{guilds_key, resume_url_key, Task}
use gateway_proxy.Dispatch.Rounds.{next-Holds, return-Holds}
use gateway_proxy.Dispatch.Session.{IsBlank, Stored, events-Stored}
use gateway_proxy.Server.Client.{ForwardTask}
use gateway_proxy.Server.Forward.{Env, renumber, session_id_key, new_ready}
use gateway_proxy.Cache.{ready_guilds, get_ready_payload}
use gateway_proxy.System.Sharing.{forward_at-Same}
use gateway_proxy.System.{
  Place, waiting, preparing, introducing, unsubscribed, crashed, receiving, System, wait,
  send_ready, send_guilds, send_resumed, subscribe, deliver, receive, forward_at, Reachable, begins,
  dispatches, ends, commands, forwards, with_sender,
}

-- What the task returns, it has found in the shard.
abbrev Found : (JsonObject → Type 0) → Waiting.Place → Type 0
Found P (returned payload) = P payload
Found P _ = Unit {0}

advance_at-Found :
    (P : JsonObject → Type 0) (r : Ready) (place : Waiting.Place)
    → ((payload : JsonObject) → r.inner ≡ some payload → P payload)
    → Found P place
    → Found P (advance_at r place)
unfolding advance_at
advance_at-Found P r testing stored h = if-elim (Found P) (is_ready r) (λ _. tt) (λ _. tt)
advance_at-Found P r subscribing stored h = tt
advance_at-Found P r (parked seen) stored h =
    if-elim (Found P) (ltb seen r.changed) (λ _. tt) (λ _. tt)
advance_at-Found P r reading stored h = elim (Option-cases r.inner) [
  | inl e ↦ rw e tt
  | inr (payload, e) ↦ rw e (stored payload e)
]
advance_at-Found P r (returned payload) stored h = h
advance_at-Found P r Waiting.panicked stored h = tt

-- The READY of a client has the URL of the data that it is made from.
new_ready-url_is :
    (env : Env) (url : Text) (session_id : Text) (seq : ℕ)
    → IsBlank url env.ready_payload
    → get (new_ready env session_id seq).0.d resume_url_key ≡ some (string url)
unfolding new_ready get_ready_payload text_eq
new_ready-url_is env url session_id seq blank =
    let guilds = array (values (ready_guilds env.ready_cache)) in
    get-insert (insert env.ready_payload guilds_key guilds) session_id_key resume_url_key
      (string session_id)
    ∙ get-insert env.ready_payload guilds_key resume_url_key guilds
    ∙ blank.url_is

module _ (client : ForwardTask) (capacity : ℕ) (url : Text) where
  abbrev BlankAt : System → Place → Type 0
  BlankAt s (waiting place) = Found (IsBlank url) place
  BlankAt s place = IsBlank url s.env.ready_payload

  abbrev Blank : System → Type 0
  Blank s = BlankAt s s.place

  wait-Blank :
      (s : System) (place : Waiting.Place) → Found (IsBlank url) place → Blank (wait s place)
  unfolding wait
  wait-Blank s (returned payload) h = h
  wait-Blank s testing h = h
  wait-Blank s subscribing h = h
  wait-Blank s reading h = h
  wait-Blank s (parked seen) h = h
  wait-Blank s Waiting.panicked h = h

  deliver-Blank :
      (s : System) (position : ℕ) (m : BroadcastMessage)
      → IsBlank url s.env.ready_payload
      → Blank (deliver client capacity s position m (renumber m s.seq))
  unfolding deliver
  deliver-Blank s position m h = elim (Option-cases (renumber m s.seq)) [
    | inl e ↦ rw (e, deliver) h
    | inr (_, e) ↦ rw (e, deliver) h
  ]

  receive-Blank :
      (s : System) (position : ℕ)
      → Blank s
      → IsBlank url s.env.ready_payload
      → Blank (receive client capacity s position)
  unfolding receive
  receive-Blank s position kept h =
      if-elim Blank (ltb (position + capacity) (length s.task.shard.events)) (λ _. h)
        (λ _. elim (Option-cases (get_elem? s.task.shard.events position)) [
          | inl e ↦ rw e kept
          | inr (m, e) ↦ rw e (deliver-Blank s position m h)
        ])

  forward_at-Blank :
      (s : System) (place : Place)
      → ((payload : JsonObject) → s.task.shard.ready.inner ≡ some payload → IsBlank url payload)
      → Blank s
      → BlankAt s place
      → Blank (forward_at client capacity s place)
  unfolding forward_at send_ready send_guilds send_resumed subscribe
  forward_at-Blank s (waiting place) stored kept h =
      wait-Blank s (advance_at s.task.shard.ready place)
        (advance_at-Found (IsBlank url) s.task.shard.ready place stored h)
  forward_at-Blank s preparing stored kept h = if-elim Blank client.send_guilds (λ _. h) (λ _. h)
  forward_at-Blank s introducing stored kept h = h
  forward_at-Blank s unsubscribed stored kept h = h
  forward_at-Blank s (receiving position) stored kept h = receive-Blank s position kept h
  forward_at-Blank s crashed stored kept h = kept

module _ (client : ForwardTask) (capacity : ℕ) {Event : Type 0}
    (dispatch_env : Dispatch.Env InMemoryCache Event) (begin_task : Task InMemoryCache)
    (begin_env : Env) where
  abbrev Read : System → Type 0
  Read s =
      Stored dispatch_env s.task × Blank client capacity dispatch_env.externally_accessible_url s

  BlankAt-task :
      (s : System) (t : Task InMemoryCache) (place : Place)
      → BlankAt client capacity dispatch_env.externally_accessible_url s place
      → BlankAt client capacity dispatch_env.externally_accessible_url (record s { task = t }) place
  BlankAt-task s t (waiting place) h = h
  BlankAt-task s t preparing h = h
  BlankAt-task s t introducing h = h
  BlankAt-task s t unsubscribed h = h
  BlankAt-task s t crashed h = h
  BlankAt-task s t (receiving position) h = h

  Reachable-Read :
      (s : System)
      → Stored dispatch_env begin_task
      → Reachable client capacity dispatch_env begin_task begin_env s
      → Read s
  Reachable-Read _ h begins = (h, tt)
  Reachable-Read _ h (dispatches s m t _ e reached) =
      let (stored, blank) = Reachable-Read s h reached in
      (
        next-Holds (Stored dispatch_env) dispatch_env s.task m t e
            (events-Stored dispatch_env s.task (m ∷ []) stored),
        BlankAt-task s t s.place blank,
      )
  Reachable-Read _ h (ends s m t _ e reached) =
      let (stored, blank) = Reachable-Read s h reached in
      (
        return-Holds (Stored dispatch_env) dispatch_env s.task m t e
            (events-Stored dispatch_env s.task (m ∷ []) stored),
        BlankAt-task s t s.place blank,
      )
  Reachable-Read _ h (commands s texts reached) =
      let (stored, blank) = Reachable-Read s h reached in
      (stored, BlankAt-task s (with_sender s.task texts) s.place blank)
  Reachable-Read _ h (forwards s reached) =
      let (stored, blank) = Reachable-Read s h reached in
      (
        subst (Stored dispatch_env) (sym (forward_at-Same client capacity s s.place).0) stored,
        forward_at-Blank client capacity dispatch_env.externally_accessible_url s s.place stored
            blank blank,
      )

  -- The READY of a client that receives has the URL of the proxy.
  pub Reachable-url_is :
      (s : System) (position : ℕ) (session_id : Text) (seq : ℕ)
      → Stored dispatch_env begin_task
      → Reachable client capacity dispatch_env begin_task begin_env s
      → s.place ≡ receiving position
      → get (new_ready s.env session_id seq).0.d resume_url_key
        ≡ some (string dispatch_env.externally_accessible_url)
  Reachable-url_is s position session_id seq h reached at =
      new_ready-url_is s.env dispatch_env.externally_accessible_url session_id seq (
        subst (BlankAt client capacity dispatch_env.externally_accessible_url s) at
          (Reachable-Read s h reached).1)
