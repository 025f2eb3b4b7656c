-- ===== src/Proxy/Soundness.antt =====
-- Every client of the proxy is that of a connection.
use gateway_proxy.Prelude.{
  ℕ, ◌≡◌, refl, sym, ap, ◌∙◌, subst, Bool, true, false, some, List, [], ◌∷◌, ◌++◌, inl, inr,
  get_elem?, All, All-get_elem?,
}
use gateway_proxy.Cache.Records.{InMemoryCache}
use gateway_proxy.State.{Inner, Shard}
use gateway_proxy.Dispatch as Dispatch
use gateway_proxy.Dispatch.Rounds as Rounds
use gateway_proxy.Dispatch.{Incoming, Task, next, return, round, events}
use gateway_proxy.Server.Client as Client
use gateway_proxy.Server.Client.{World, Message, Outcome, handle_message}
use gateway_proxy.Server.Client.Outcomes.{Holds}
use gateway_proxy.Server.Forward.{Env}
use gateway_proxy.Connection.{take_steps}
use gateway_proxy.Connection.Feeding.{IsFed, events-IsFed, set_sender-IsFed, handle_message-All}
use gateway_proxy.Proxy.{
  Local, Seat, Proxy, set, seated, task_of, told_seat, Reaches, starts, accepts, tells, leaves,
  hangs_up, rounds, ends, forwards, ran,
}
use gateway_proxy.Proxy.Lists.{get_elem?-set_cases, get_elem?-append_cases, All-set}
use gateway_proxy.Proxy.Senders.{OnlySenders, OnlySenders-refl, handle_message-OnlySenders}
use gateway_proxy.Proxy.Views.{Seen, Goes, Goes-Seen, senders-Goes}
use gateway_proxy.Proxy.Rounds.{outcome, round-Goes}
use gateway_proxy.Proxy.Told.{told-Goes}
use gateway_proxy.Proxy.Forwards.{forwards-Goes}

module _ {Event' : Type 0} (client_env : Client.Env) (env : Env)
    (dispatch_env : Dispatch.Env InMemoryCache Event') (capacity : ℕ) (begin : Inner InMemoryCache)
    (locals : ℕ → Local)
    (begin_fed : All (IsFed client_env env dispatch_env capacity) begin.shards) where
  abbrev Fed : Proxy → Type 0
  Fed p = All (IsFed client_env env dispatch_env capacity) p.state.shards

  round-IsFed :
      (t : Task InMemoryCache) (m : Incoming) (r : Bool) (t' : Task InMemoryCache)
      → round dispatch_env t m ≡ outcome r t'
      → IsFed client_env env dispatch_env capacity t.shard
      → IsFed client_env env dispatch_env capacity t'.shard
  unfolding events
  round-IsFed t m true t' ran h =
      let alone : events dispatch_env t (m ∷ []) ≡ next t' = rw (ran, events) refl in
      subst (Rounds.Holds λ t''. IsFed client_env env dispatch_env capacity t''.shard) alone
        (events-IsFed client_env env dispatch_env capacity t (m ∷ []) h)
  round-IsFed t m false t' ran h =
      let alone : events dispatch_env t (m ∷ []) ≡ return t' = rw (ran, events) refl in
      subst (Rounds.Holds λ t''. IsFed client_env env dispatch_env capacity t''.shard) alone
        (events-IsFed client_env env dispatch_env capacity t (m ∷ []) h)

  message-Fed :
      (p : Proxy) (seat : Seat) (sample : ℕ → ℕ) (msg : Message) (o : Outcome (World InMemoryCache))
      → handle_message client_env sample (p.state, seat.client) msg ≡ o
      → Fed p
      → Holds (λ w. All (IsFed client_env env dispatch_env capacity) w.0.shards) o
  message-Fed p seat sample msg o ran fed =
      subst (Holds λ w. All (IsFed client_env env dispatch_env capacity) w.0.shards) ran (
        handle_message-All (IsFed client_env env dispatch_env capacity)
          (set_sender-IsFed client_env env dispatch_env capacity) client_env sample
          (p.state, seat.client) msg fed)

  message-OnlySenders :
      (p : Proxy) (seat : Seat) (sample : ℕ → ℕ) (msg : Message) (o : Outcome (World InMemoryCache))
      → handle_message client_env sample (p.state, seat.client) msg ≡ o
      → Holds (λ w. OnlySenders p.state.shards w.0.shards) o
  message-OnlySenders p seat sample msg o ran =
      subst (Holds λ w. OnlySenders p.state.shards w.0.shards) ran
        (handle_message-OnlySenders client_env sample (p.state, seat.client) msg)

  ran-Fed :
      (p : Proxy) (j : ℕ) (shard : Shard InMemoryCache) (m : Incoming) (r : Bool)
      (t : Task InMemoryCache)
      → get_elem? p.state.shards j ≡ some shard
      → round dispatch_env (task_of (p.locals j) shard) m ≡ outcome r t
      → Fed p
      → Fed (ran p j t r)
  ran-Fed p j shard m r t at went fed =
      All-set (IsFed client_env env dispatch_env capacity) p.state.shards j t.shard
        (round-IsFed (task_of (p.locals j) shard) m r t went (
          All-get_elem? (IsFed client_env env dispatch_env capacity) p.state.shards j shard fed at))
        fed

  Reaches-Fed : (p : Proxy) → Reaches client_env env dispatch_env capacity begin locals p → Fed p
  Reaches-Fed _ starts = begin_fed
  Reaches-Fed _ (accepts p reached) = Reaches-Fed p reached
  Reaches-Fed _ (tells p i seat sample msg w at is_open went reached) =
      message-Fed p seat sample msg (Client.next w) went (Reaches-Fed p reached)
  Reaches-Fed _ (leaves p i seat sample msg w at is_open went reached) =
      message-Fed p seat sample msg (Client.disconnect w) went (Reaches-Fed p reached)
  Reaches-Fed _ (hangs_up p i seat at reached) = Reaches-Fed p reached
  Reaches-Fed _ (rounds p j shard m t at runs went reached) =
      ran-Fed p j shard m true t at went (Reaches-Fed p reached)
  Reaches-Fed _ (ends p j shard m t at runs went reached) =
      ran-Fed p j shard m false t at went (Reaches-Fed p reached)
  Reaches-Fed _ (forwards p i seat task f shard at is_open e there alive reached) =
      Reaches-Fed p reached

  -- Every open client is seen so.
  abbrev AllSeen : Proxy → Type 0
  AllSeen p =
      (k : ℕ) (seat : Seat)
      → get_elem? p.seats k ≡ some seat
      → seat.is_open ≡ true
      → Seen client_env env dispatch_env capacity begin p seat

  -- One client has changed, and the others see what changed with it.
  changed-AllSeen :
      (p : Proxy) (p' : Proxy) (i : ℕ) (seat' : Seat)
      → p'.seats ≡ set p.seats i seat'
      → ((seat : Seat) → Goes client_env env dispatch_env capacity p seat p' seat)
      → (seat'.is_open ≡ true → Seen client_env env dispatch_env capacity begin p' seat')
      → AllSeen p
      → AllSeen p'
  changed-AllSeen p p' i seat' e others own all k seat at is_open =
      elim (get_elem?-set_cases p.seats i k seat' seat (sym (ap (λ l. get_elem? l k) e) ∙ at)) [
        | inl (_, same) ↦
            subst (Seen client_env env dispatch_env capacity begin p') (sym same)
              (own (sym (ap (λ (s : Seat). s.is_open) same) ∙ is_open))
        | inr there ↦
            Goes-Seen client_env env dispatch_env capacity begin p p' seat seat (others seat)
              (all k seat there is_open)
      ]

  -- The state is as it was, or only senders have got more.
  unmoved-Goes :
      (p : Proxy) (seats : List Seat) (seat : Seat)
      → Goes client_env env dispatch_env capacity p seat (record p { seats = seats }) seat
  unmoved-Goes p seats seat =
      senders-Goes client_env env dispatch_env capacity p (record p { seats = seats }) refl
        (OnlySenders-refl p.state.shards) seat

  accepts-AllSeen :
      (p : Proxy) → AllSeen p → AllSeen (record p { seats = p.seats ++ (seated ∷ []) })
  unfolding take_steps
  accepts-AllSeen p all k seat at is_open = elim (get_elem?-append_cases p.seats seated seat k at) [
    | inl there ↦
        Goes-Seen client_env env dispatch_env capacity begin p
          (record p { seats = p.seats ++ (seated ∷ []) }) seat seat
          (unmoved-Goes p (p.seats ++ (seated ∷ [])) seat) (all k seat there is_open)
    | inr new ↦
        subst
          (Seen client_env env dispatch_env capacity begin
            (record p { seats = p.seats ++ (seated ∷ []) }))
          (sym new)
          ([], tt, record { client = refl; queue = refl; is_open = refl; forwarding = refl })
  ]

  pub Reaches-Seen :
      (p : Proxy) → Reaches client_env env dispatch_env capacity begin locals p → AllSeen p
  Reaches-Seen _ starts = λ k seat at is_open. absurd cc
  Reaches-Seen _ (accepts p reached) = accepts-AllSeen p (Reaches-Seen p reached)
  Reaches-Seen _ (tells p i seat sample msg w at is_open went reached) =
      let p' = record p { state = w.0; seats = set p.seats i (told_seat env seat w) } in
      let only = message-OnlySenders p seat sample msg (Client.next w) went in
      changed-AllSeen p p' i (told_seat env seat w) refl
        (senders-Goes client_env env dispatch_env capacity p p' refl only)
        (λ _.
          Goes-Seen client_env env dispatch_env capacity begin p p' seat (told_seat env seat w)
            (told-Goes client_env env dispatch_env capacity p p' seat sample msg w refl refl went
              only (Reaches-Fed p reached))
            (Reaches-Seen p reached i seat at is_open))
        (Reaches-Seen p reached)
  Reaches-Seen _ (leaves p i seat sample msg w at is_open went reached) =
      let p' = record p { state = w.0; seats = set p.seats i (record seat { is_open = false }) } in
      changed-AllSeen p p' i (record seat { is_open = false }) refl
        (senders-Goes client_env env dispatch_env capacity p p' refl
          (message-OnlySenders p seat sample msg (Client.disconnect w) went))
        (λ e. absurd cc) (Reaches-Seen p reached)
  Reaches-Seen _ (hangs_up p i seat at reached) =
      changed-AllSeen p _ i (record seat { is_open = false }) refl (unmoved-Goes p _)
        (λ e. absurd cc) (Reaches-Seen p reached)
  Reaches-Seen _ (rounds p j shard m t at runs went reached) = λ k seat there is_open.
      Goes-Seen client_env env dispatch_env capacity begin p (ran p j t true) seat seat
        (round-Goes client_env env dispatch_env capacity p j shard m true t at runs went seat)
        (Reaches-Seen p reached k seat there is_open)
  Reaches-Seen _ (ends p j shard m t at runs went reached) = λ k seat there is_open.
      Goes-Seen client_env env dispatch_env capacity begin p (ran p j t false) seat seat
        (round-Goes client_env env dispatch_env capacity p j shard m false t at runs went seat)
        (Reaches-Seen p reached k seat there is_open)
  Reaches-Seen _ (forwards p i seat task f shard at is_open e there alive reached) =
      changed-AllSeen p _ i _ refl (unmoved-Goes p _)
        (λ _.
          Goes-Seen client_env env dispatch_env capacity begin p _ seat _
            (forwards-Goes client_env env dispatch_env capacity p _ seat task f shard e there alive)
            (Reaches-Seen p reached i seat at is_open))
        (Reaches-Seen p reached)
