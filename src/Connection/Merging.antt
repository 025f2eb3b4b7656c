-- ===== src/Connection/Merging.antt =====
-- What holds of every connection: its queue, its tasks and its sink.
use gateway_proxy.Prelude.{
  ℕ, ◌≤◌, ◌≡◌, refl, sym, subst, Bool, true, Option, none, some, List, [], inl, inr, Option-cases,
  length, length-append, get_elem?, arith,
}
use gateway_proxy.Text.{Text}
use gateway_proxy.Cache.Records.{InMemoryCache}
use gateway_proxy.Dispatch as Dispatch
use gateway_proxy.Dispatch.{Task}
use gateway_proxy.Server.Client as Client
use gateway_proxy.Server.Client.{ForwardTask, World, Message, Outcome, connected, handle_message}
use gateway_proxy.Server.Client.Once.{Phase, waiting, forwarding, Started}
use gateway_proxy.Server.Forward.{Env}
use gateway_proxy.System.{Reachable, begins}
use gateway_proxy.Connection.{Connection, Forwarding, enqueue, added, start_forwarding}
use gateway_proxy.Connection.Messages.{Continues}
use gateway_proxy.Connection.Steps.{told, left}
use gateway_proxy.Connection.Logs.{Interleaves, added-Interleaves_left}

-- What `forward_shard` has sent.
abbrev pub sent_by : Option Forwarding → List Text
sent_by none = []
sent_by (some (task, s)) = s.queue

module _ {Event' : Type 0} (client_env : Client.Env) (env : Env)
    (dispatch_env : Dispatch.Env InMemoryCache Event') (capacity : ℕ) where
  -- The task is the one that the client was given, and is in a state that it can come to.
  abbrev pub Runs : Option Forwarding → Client.Client → Type 0
  Runs none c = Unit {0}
  Runs (some (task, s)) c =
      ((compress : Option Bool) × Started task compress c)
      × ((begin_task : Task InMemoryCache) × Reachable task capacity dispatch_env begin_task env s)

  pub record IsSound (x : Connection) : Type 0 where
    pub phase : Phase x.world.1
    pub merged : Interleaves x.world.1.outbox (sent_by x.forwarding) x.queue
    pub runs : Runs x.forwarding x.world.1
    pub held : x.world.1.compress_tx ≡ true → x.taken ≡ 0
    pub within : x.taken ≤ length x.queue

  Runs-Continues :
      (f : Option Forwarding) (c c' : Client.Client) → Continues c c' → Runs f c → Runs f c'
  Runs-Continues none c c' h runs = tt
  Runs-Continues (some (task, s)) c c' h ((compress, started), reached) =
      ((compress, h.same task compress started), reached)

  Phase-Started :
      (c : Client.Client) (task : ForwardTask)
      → c.shard_forward_task ≡ some task
      → Phase c
      → (compress : Option Bool) × Started task compress c
  Phase-Started c task e (waiting _ f _) = absurd cc
  Phase-Started c task e (forwarding t b closed_tx f chosen) = (b, (closed_tx, e, chosen))

  start_forwarding-Runs :
      (f : Option Forwarding) (is_ready : Bool) (counted : List Text) (w : World InMemoryCache)
      → Phase w.1
      → Runs f w.1
      → Runs (start_forwarding env is_ready counted w f) w.1
        × (sent_by (start_forwarding env is_ready counted w f) ≡ sent_by f)
  unfolding start_forwarding
  start_forwarding-Runs (some (task, s)) is_ready counted w phase runs = (runs, refl)
  start_forwarding-Runs none is_ready counted (state, c) phase runs =
      elim (Option-cases c.shard_forward_task) [
        | inl e ↦ rw (e, start_forwarding) (tt, refl)
        | inr (task, e) ↦ elim (Option-cases (get_elem? state.shards task.shard)) [
          | inl e' ↦ rw (e, start_forwarding, e') (tt, refl)
          | inr (shard, e') ↦
              let (compress, started) = Phase-Started c task e phase in
              rw (e, start_forwarding, e')
                (((compress, (started.0, refl, started.2)), (_, begins)), refl)
        ]
      ]

  pub told-IsSound :
      (x : Connection) (w : World InMemoryCache) (is_ready : Bool) (counted : List Text)
      → IsSound x
      → Continues x.world.1 w.1
      → IsSound (told env is_ready counted x w) × IsSound (left x w)
  told-IsSound x w is_ready counted h c =
      let (runs, same) =
        start_forwarding-Runs x.forwarding is_ready counted w c.phase
          (Runs-Continues x.forwarding x.world.1 w.1 c h.runs) in
      let merged =
        added-Interleaves_left x.world.1.outbox w.1.outbox (sent_by x.forwarding) x.queue c.outbox
          h.merged in
      let held = λ (e : w.1.compress_tx ≡ true). h.held (c.pending e) in
      let within : x.taken ≤ length (enqueue x x.world.1.outbox w.1.outbox) =
        omega (arith, h.within, length-append x.queue (added x.world.1.outbox w.1.outbox)) in
      (
        record {
          phase = c.phase;
          merged =
              subst (λ sent. Interleaves w.1.outbox sent (enqueue x x.world.1.outbox w.1.outbox))
                (sym same) merged;
          runs = runs;
          held = held;
          within = within;
        },
        record {
          phase = c.phase;
          merged = merged;
          runs = Runs-Continues x.forwarding x.world.1 w.1 c h.runs;
          held = held;
          within = within;
        },
      )
