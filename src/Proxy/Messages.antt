-- ===== src/Proxy/Messages.antt =====
-- Any message of any client of the running proxy.
use gateway_proxy.Prelude.{
  ℕ, ◌<◌, ◌≤◌, ◌≡◌, ◌≢◌, refl, ◌∙◌, subst, Bool, true, false, some, map, get_elem?,
}
use gateway_proxy.Cache.Records.{InMemoryCache}
use gateway_proxy.Model.{get}
use gateway_proxy.State.{Inner, Shard}
use gateway_proxy.Dispatch as Dispatch
use gateway_proxy.Dispatch.Rounds as Rounds
use gateway_proxy.Dispatch.{Incoming, Task, next, return, round}
use gateway_proxy.Launch.{Config, shard_start_of, shard_end_of, shard_count_of, create_state}
use gateway_proxy.Launch.Shards.{create_state-shards}
use gateway_proxy.Server.Client as Client
use gateway_proxy.Server.Client.{Client, World, Message, Outcome, panic, handle_message}
use gateway_proxy.Server.Client.Outcomes.{Holds}
use gateway_proxy.Server.Forward.{Env}
use gateway_proxy.Proxy.{
  Local, Seat, Proxy, task_of, Reaches, starts, accepts, tells, leaves, hangs_up, rounds, ends,
  forwards, ran,
}
use gateway_proxy.Proxy.Ids.{round-id}
use gateway_proxy.Proxy.Lists.{map-set}
use gateway_proxy.Proxy.Rounds.{outcome}
use gateway_proxy.Proxy.Safety.{handle_message-no_panic}
use gateway_proxy.Proxy.Sessions.{IsSane, handle_message-IsSane}

module _ {Event' : Type 0} (client_env : Client.Env) (env : Env)
    (dispatch_env : Dispatch.Env InMemoryCache Event') (capacity : ℕ) (cache : InMemoryCache)
    (config : Config) (recommended : ℕ) (locals : ℕ → Local) where
  abbrev begin : Inner InMemoryCache
  begin = create_state cache config recommended

  -- The shards are those that were created.
  abbrev Sane : Inner InMemoryCache → Type 0
  Sane = IsSane (map (λ s. s.id) begin.shards) (shard_count_of config recommended)

  begin-Sane : Sane begin
  unfolding create_state get
  begin-Sane = record { ids_are = refl; count_is = refl; in_range = λ id session e. absurd cc }

  message-Sane :
      (p : Proxy) (seat : Seat) (sample : ℕ → ℕ) (msg : Message) (o : Outcome (World InMemoryCache))
      → handle_message client_env sample (p.state, seat.client) msg ≡ o
      → Sane p.state
      → Holds (λ w. Sane w.0) o
  message-Sane p seat sample msg o ran sane = subst (Holds λ w. Sane w.0) ran (
      handle_message-IsSane (map (λ s. s.id) begin.shards) (shard_count_of config recommended)
        client_env sample (p.state, seat.client) msg sane)

  outcome-id :
      (t : Task InMemoryCache) (m : Incoming) (r : Bool) (t' : Task InMemoryCache)
      → round dispatch_env t m ≡ outcome r t'
      → t'.shard.id ≡ t.shard.id
  outcome-id t m true t' went =
      subst (Rounds.Holds λ t'. t'.shard.id ≡ t.shard.id) went (round-id dispatch_env t m)
  outcome-id t m false t' went =
      subst (Rounds.Holds λ t'. t'.shard.id ≡ t.shard.id) went (round-id dispatch_env t m)

  ran-Sane :
      (p : Proxy) (j : ℕ) (shard : Shard InMemoryCache) (m : Incoming) (r : Bool)
      (t : Task InMemoryCache)
      → get_elem? p.state.shards j ≡ some shard
      → round dispatch_env (task_of (p.locals j) shard) m ≡ outcome r t
      → Sane p.state
      → Sane (ran p j t r).state
  ran-Sane p j shard m r t at went sane = record {
    ids_are =
        map-set (λ s. s.id) p.state.shards j t.shard shard at
          (outcome-id (task_of (p.locals j) shard) m r t went)
        ∙ sane.ids_are;
    count_is = sane.count_is;
    in_range = sane.in_range;
  }

  Reaches-Sane :
      (p : Proxy) → Reaches client_env env dispatch_env capacity begin locals p → Sane p.state
  Reaches-Sane _ starts = begin-Sane
  Reaches-Sane _ (accepts p reached) = Reaches-Sane p reached
  Reaches-Sane _ (tells p i seat sample msg w at is_open went reached) =
      message-Sane p seat sample msg (Client.next w) went (Reaches-Sane p reached)
  Reaches-Sane _ (leaves p i seat sample msg w at is_open went reached) =
      message-Sane p seat sample msg (Client.disconnect w) went (Reaches-Sane p reached)
  Reaches-Sane _ (hangs_up p i seat at reached) = Reaches-Sane p reached
  Reaches-Sane _ (rounds p j shard m t at runs went reached) =
      ran-Sane p j shard m true t at went (Reaches-Sane p reached)
  Reaches-Sane _ (ends p j shard m t at runs went reached) =
      ran-Sane p j shard m false t at went (Reaches-Sane p reached)
  Reaches-Sane _ (forwards p i seat task f shard at is_open e there alive reached) =
      Reaches-Sane p reached

  -- Where the proxy runs all shards from 0 on, as it does by default, at any time of any run
  -- without a panic or undefined behaviour so far, whatever the clients and Discord have sent: no
  -- message makes handle_client panic, so that every IDENTIFY that passes the checks and every
  -- RESUME of a session that is known find their shard; and the shard at each index below the
  -- number that clients are told has that index as its ID.
  pub Reaches-handle_message :
      (p : Proxy)
      → shard_start_of config ≡ 0
      → shard_count_of config recommended ≤ shard_end_of config recommended
      → Reaches client_env env dispatch_env capacity begin locals p
      → ((sample : ℕ → ℕ) (c : Client) (msg : Message)
          → handle_message client_env sample (p.state, c) msg ≢ panic)
        × ((i : ℕ)
            → i < p.state.shard_count
            → (shard : Shard InMemoryCache) × (get_elem? p.state.shards i ≡ some shard)
              × (shard.id ≡ i))
  Reaches-handle_message p from_zero all reached =
      let sane = Reaches-Sane p reached in
      let shard_at = λ (i : ℕ).
        create_state-shards cache config recommended p.state.shards i from_zero all sane.ids_are in
      (
        λ sample c msg.
            handle_message-no_panic (map (λ s. s.id) begin.shards)
              (shard_count_of config recommended) client_env sample p.state c
              (λ i below. let (shard, at, _) = shard_at i below in (shard, at)) sane msg,
        λ i below. shard_at i (subst (λ n. i < n) sane.count_is below),
      )
