-- ===== src/Dispatch/Session.antt =====
-- The READY state that the task keeps for the clients.
use gateway_proxy.Prelude.{
  ◌≡◌, ◌≢◌, refl, Bool, true, false, Option, none, some, List, [], ◌∷◌, arith, inl, inr,
  Option-cases, subst,
}
use mathlib.Core.Option
use gateway_proxy.Text.{Text}
use gateway_proxy.Text.Words.{text_eq, text_eq_refl}
use gateway_proxy.Deserializer.{GatewayEvent, EventTypeInfo, into_parts, from_json}
use gateway_proxy.Model.{Value, Values, string, array, no_values, JsonObject, get, get-insert}
use gateway_proxy.State.{BroadcastMessage}
use gateway_proxy.State.Readiness.{set_ready, set_not_ready}
use gateway_proxy.Dispatch.{
  Incoming, text, TwilightEvent, dispatch, invalidate_session, other, Env, Task, guilds_key,
  resume_url_key, clear_array, clear_guilds, blank_ready, ready_name, resumed_name, relay, react,
  broadcast, handle_text, round, events,
}
use gateway_proxy.Dispatch.Rounds.{
  Holds, HoldsIn, relay-Holds, relay-Holds_parts, finish-Holds, round-Holds, events-Holds,
  Keeps-all, Keeps,
}

-- READY data with the URL of the proxy, in which guilds that are an array are empty.
pub record IsBlank (url : Text) (d : JsonObject) : Type 0 where
  pub url_is : get d resume_url_key ≡ some (string url)
  pub no_guilds : (vs : Values) → get d guilds_key ≡ some (array vs) → vs ≡ no_values

get-clear_guilds :
    (d : JsonObject) (key : Text)
    → text_eq guilds_key key ≡ false
    → get (clear_guilds d) key ≡ get d key
unfolding clear_guilds
get-clear_guilds d key differs = elim (Option-cases (get d guilds_key)) [
  | inl e ↦ rw (e, clear_guilds) refl
  | inr (guilds, e) ↦
      rw (e, clear_guilds) (rw (get-insert d guilds_key key (clear_array guilds), differs) refl)
]

clear_array-no_values : (v : Value) (vs : Values) → clear_array v ≡ array vs → vs ≡ no_values
unfolding clear_array
clear_array-no_values (array ws) vs h = ground arith
clear_array-no_values _ vs h = absurd cc

get-clear_guilds_self :
    (d : JsonObject) (vs : Values)
    → get (clear_guilds d) guilds_key ≡ some (array vs)
    → vs ≡ no_values
unfolding clear_guilds
get-clear_guilds_self d vs h = elim (Option-cases (get d guilds_key)) [
  | inl e ↦ absurd (ground arith)
  | inr (guilds, e) ↦ clear_array-no_values guilds vs (
      ground
        (arith, get-insert d guilds_key guilds_key (clear_array guilds), text_eq_refl guilds_key))
]

keys_differ : text_eq resume_url_key guilds_key ≡ false
unfolding text_eq
keys_differ = refl

-- The stored READY data is what Discord sent, but for the guilds and the URL.
pub blank_ready-IsBlank :
    (url : Text) (d : JsonObject)
    → IsBlank url (blank_ready url d)
      × ((key : Text)
          → text_eq guilds_key key ≡ false
          → text_eq resume_url_key key ≡ false
          → get (blank_ready url d) key ≡ get d key)
unfolding blank_ready
blank_ready-IsBlank url d = (
  record {
    url_is =
        rw
          (
            get-insert (clear_guilds d) resume_url_key resume_url_key (string url),
            text_eq_refl resume_url_key,
          )
          refl;
    no_guilds = λ vs h. get-clear_guilds_self d vs (
        ground
          (arith, get-insert (clear_guilds d) resume_url_key guilds_key (string url), keys_differ));
  },
  λ key not_guilds not_url.
      rw (get-insert (clear_guilds d) resume_url_key key (string url), not_url)
        (get-clear_guilds d key not_guilds),
)

module _ {Cache Event : Type 0} (env : Env Cache Event) where
  -- The READY data of the shard, if it is there, is blank.
  abbrev pub Stored : Task Cache → Type 0
  Stored t =
      (d : JsonObject) → t.shard.ready.inner ≡ some d → IsBlank env.externally_accessible_url d

  react-Stored :
      (t : Task Cache) (r : Option (TwilightEvent Event)) → Stored t → Stored (react env t r)
  unfolding react set_not_ready
  react-Stored t none h = h
  react-Stored t (some (dispatch event)) h = h
  react-Stored t (some (invalidate_session true)) h = h
  react-Stored t (some (invalidate_session false)) h = λ d e. absurd cc
  react-Stored t (some other) h = h

  -- Whatever Discord sends, the READY data that clients find for the shard has the URL of the proxy in
  -- place of Discord's, and its guilds, where they are an array, are empty.
  pub events-Stored :
      (t : Task Cache) (ms : List Incoming) → Stored t → Holds Stored (events env t ms)
  unfolding broadcast set_ready
  events-Stored t ms h =
      events-Holds Stored env t ms
        (Keeps-all Stored env
          (λ t m h. round-Holds Stored env t m h λ payload event _ parsed.
            finish-Holds Stored env Stored (relay env t payload (into_parts event)) payload
              (relay-Holds_parts Stored env t payload event h λ info named.
                relay-Holds Stored env t payload event.op event.sequence info
                  (λ ready _ _ d e.
                    subst (IsBlank env.externally_accessible_url) (Option.some_inj.0 e)
                      (blank_ready-IsBlank env.externally_accessible_url ready.d).0)
                  (λ _. h) (λ _ _ _ _. h) (λ _ _ _. h))
              (λ t' h'. react-Stored t' (env.parse payload) h'))
          ms)
        h

  always : (t : Task Cache) (payload : Text) (r : Option (Task Cache)) → HoldsIn (λ _. Unit {0}) r
  always t payload none = tt
  always t payload (some t') = tt

  -- An invalidation of the session stops the relaying, whatever else the payload holds, and one that
  -- cannot be resumed takes the READY data away.
  pub round-invalidate_session :
      (t : Task Cache) (payload : Text) (event : GatewayEvent) (resumable : Bool)
      → from_json payload ≡ some event
      → env.parse payload ≡ some (invalidate_session resumable)
      → Holds
          (λ t'. (t'.is_ready ≡ false) × (resumable ≡ false → t'.shard.ready.inner ≡ none))
          (round env t (text payload))
  unfolding round handle_text react set_not_ready
  round-invalidate_session t payload event resumable parsed invalid =
      rw (parsed, handle_text)
        (finish-Holds _ env (λ _. Unit {0}) (relay env t payload (into_parts event)) payload
          (always t payload (relay env t payload (into_parts event)))
          (λ t' _. rw (invalid, react) (refl, λ lost. rw lost refl)))

  -- No text message of the list is a READY or a RESUMED.
  abbrev pub NoStart : List Incoming → Type 0
  NoStart [] = Unit {0}
  NoStart (m ∷ ms) =
      ((payload : Text) (event : GatewayEvent) (info : EventTypeInfo)
        → m ≡ text payload
        → from_json payload ≡ some event
        → event.event_type ≡ some info
        → (info.name ≢ ready_name) × (info.name ≢ resumed_name))
      × NoStart ms

  abbrev Suspended : List BroadcastMessage → Task Cache → Type 0
  Suspended sent t = (t.is_ready ≡ false) × (t.shard.events ≡ sent)

  react-Suspended :
      (sent : List BroadcastMessage) (t : Task Cache) (r : Option (TwilightEvent Event))
      → Suspended sent t
      → Suspended sent (react env t r)
  unfolding react
  react-Suspended sent t none h = h
  react-Suspended sent t (some (dispatch event)) h = h
  react-Suspended sent t (some (invalidate_session true)) h = (refl, h.1)
  react-Suspended sent t (some (invalidate_session false)) h = (refl, h.1)
  react-Suspended sent t (some other) h = h

  NoStart-Keeps :
      (sent : List BroadcastMessage) (ms : List Incoming)
      → NoStart ms
      → Keeps (Suspended sent) env ms
  unfolding broadcast
  NoStart-Keeps sent [] n = tt
  NoStart-Keeps sent (m ∷ ms) n = (
    λ t h. round-Holds (Suspended sent) env t m h λ payload event is_text parsed.
        finish-Holds (Suspended sent) env (Suspended sent) (relay env t payload (into_parts event))
          payload
          (relay-Holds_parts (Suspended sent) env t payload event h λ info named.
            relay-Holds (Suspended sent) env t payload event.op event.sequence info
              (λ ready _ starts. absurd ((n.0 payload event info is_text parsed named).0 starts))
              (λ starts. absurd ((n.0 payload event info is_text parsed named).1 starts))
              (λ _ _ _ live. absurd cc) (λ _ _ _. h))
          (λ t' h'. react-Suspended sent t' (env.parse payload) h'),
    NoStart-Keeps sent ms n.1,
  )

  -- A task that is not READY broadcasts nothing before the next READY or RESUMED.
  pub events-Suspended :
      (t : Task Cache) (ms : List Incoming)
      → t.is_ready ≡ false
      → NoStart ms
      → Holds (λ t'. (t'.is_ready ≡ false) × (t'.shard.events ≡ t.shard.events)) (events env t ms)
  events-Suspended t ms h n =
      events-Holds (Suspended t.shard.events) env t ms (NoStart-Keeps t.shard.events ms n) (h, refl)
