-- ===== src/Proxy/Spawning.antt =====
-- When a message spawns `forward_shard`, in the proxy and in a connection.
use gateway_proxy.Prelude.{
  ◌≡◌, refl, Bool, none, some, List, ◌⊎◌, inl, inr, Option-cases, get_elem?,
}
use gateway_proxy.Text.{Text}
use gateway_proxy.Cache.Records.{InMemoryCache}
use gateway_proxy.State.{Shard}
use gateway_proxy.Server.Client.{ForwardTask, World}
use gateway_proxy.Server.Forward.{Env}
use gateway_proxy.System.{spawned}
use gateway_proxy.Connection.{start_forwarding}
use gateway_proxy.Proxy.{begin_forwarder, start_forwarder}

-- A message spawns the task on both sides, or on neither.
pub start-cases :
    (env : Env) (w : World InMemoryCache)
    → ((start_forwarder env w none ≡ none)
        × ((is_ready : Bool) (counted : List Text)
            → start_forwarding env is_ready counted w none ≡ none))
      ⊎ ((task : ForwardTask) × (shard : Shard InMemoryCache) × (get_elem? w.0.shards task.shard
            ≡ some shard)
          × (start_forwarder env w none ≡ some (task, begin_forwarder env task))
          × ((is_ready : Bool) (counted : List Text)
              → start_forwarding env is_ready counted w none
                ≡ some (
                  task,
                  spawned
                      (record { is_ready = is_ready; shard = shard; counted = counted })
                      env
                      task,
                )))
unfolding start_forwarder start_forwarding
start-cases env (state, c) = elim (Option-cases c.shard_forward_task) [
  | inl e ↦ inl (rw (e, start_forwarder) refl, λ _ _. rw (e, start_forwarding) refl)
  | inr (task, e) ↦ elim (Option-cases (get_elem? state.shards task.shard)) [
    | inl e' ↦ inl (rw (e, start_forwarder, e') refl, λ _ _. rw (e, start_forwarding, e') refl)
    | inr (shard, e') ↦ inr (
      task,
      shard,
      e',
      rw (e, start_forwarder, e') refl,
      λ _ _. rw (e, start_forwarding, e') refl,
    )
  ]
]
