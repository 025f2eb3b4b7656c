-- ===== src/Proxy/Told.antt =====
-- What a client sees of its own messages.
use gateway_proxy.Prelude.{
  ℕ, ◌≡◌, refl, sym, ap, ◌∙◌, subst, Bool, true, false, Option, none, some, List, [], ◌++◌, inl,
  inr, Bool-cases, get_elem?, All,
}
use gateway_proxy.Text.{Text}
use gateway_proxy.Cache.Records.{InMemoryCache}
use gateway_proxy.State.{Inner, Shard}
use gateway_proxy.Dispatch as Dispatch
use gateway_proxy.Dispatch.{closed, round}
use gateway_proxy.Server.Client as Client
use gateway_proxy.Server.Client.{ForwardTask, World, Message, Arrival, handle_message}
use gateway_proxy.Server.Forward.{Env}
use gateway_proxy.System.{System, spawned}
use gateway_proxy.Connection.{
  Connection, client_sends, discord_sends, added, start_forwarding, settle, client_step,
  discord_step, open_step, take_steps,
}
use gateway_proxy.Connection.Steps.{told}
use gateway_proxy.Connection.Feeding.{IsFed}
use gateway_proxy.Proxy.{
  Local, Forwarder, Seat, Proxy, system_of, task_of, begin_forwarder, start_forwarder, told_seat,
}
use gateway_proxy.Proxy.Rounds.{discord_step-outcome}
use gateway_proxy.Proxy.Senders.{OnlySenders}
use gateway_proxy.Proxy.Spawning.{start-cases}
use gateway_proxy.Proxy.Views.{View, Shows, Comes, Goes, by_event, senders-Goes}

module _ {Event' : Type 0} (client_env : Client.Env) (env : Env)
    (dispatch_env : Dispatch.Env InMemoryCache Event') (capacity : ℕ) (p : Proxy) (p' : Proxy)
    (seat : Seat) (sample : ℕ → ℕ) (msg : Message) (w : World InMemoryCache)
    (same : p'.locals ≡ p.locals) (state : p'.state ≡ w.0)
    (ran : handle_message client_env sample (p.state, seat.client) msg ≡ Client.next w)
    (only : OnlySenders p.state.shards p'.state.shards)
    (fed : All (IsFed client_env env dispatch_env capacity) p.state.shards) where
  abbrev arrival : Arrival InMemoryCache
  arrival = record { others = λ _. p.state; msg = some msg; sample = sample }

  told_step :
      (x : Connection) (is_ready : Bool) (counted : List Text)
      → x.world.1 ≡ seat.client
      → open_step client_env env dispatch_env capacity x (client_sends arrival is_ready counted)
        ≡ told env is_ready counted x w
  unfolding open_step client_step settle
  told_step x is_ready counted client =
      ap (λ c. settle env is_ready counted x (handle_message client_env sample (p.state, c) msg))
        client
      ∙ ap (settle env is_ready counted x) ran

  told-queue :
      (x : Connection)
      → Shows p seat x
      → x.queue ++ added x.world.1.outbox w.1.outbox ≡ (told_seat env seat w).queue
  told-queue x shows =
      ap (λ q. q ++ added x.world.1.outbox w.1.outbox) shows.queue
      ∙ ap (λ c. seat.queue ++ added c.outbox w.1.outbox) shows.client

  -- The message as an event, after which the connection may still have to follow the proxy.
  told-Comes :
      (x : Connection) (is_ready : Bool) (counted : List Text)
      → Shows p seat x
      → Comes client_env env dispatch_env capacity p'
          (told_seat env seat w)
          (told env is_ready counted x w)
      → Comes client_env env dispatch_env capacity p' (told_seat env seat w) x
  told-Comes x is_ready counted shows comes =
      by_event client_env env dispatch_env capacity p' (told_seat env seat w) x
        (client_sends arrival is_ready counted) shows.is_open (λ _ _. fed)
        (subst (Comes client_env env dispatch_env capacity p' (told_seat env seat w))
          (sym (told_step x is_ready counted shows.client)) comes)

  -- `forward_shard` was spawned: when the task of the shard has ended, it has ended there too.
  spawned-Comes :
      (y : Connection) (task : ForwardTask) (shard : Shard InMemoryCache)
      → y.world.1 ≡ w.1
      → y.queue ≡ (told_seat env seat w).queue
      → y.is_open ≡ true
      → (told_seat env seat w).forwarder ≡ some (task, begin_forwarder env task)
      → get_elem? p'.state.shards task.shard ≡ some shard
      → y.forwarding ≡ some (task, spawned (task_of (p.locals task.shard) shard) env task)
      → Comes client_env env dispatch_env capacity p' (told_seat env seat w) y
  unfolding open_step round take_steps
  spawned-Comes y task shard client queue is_open began at runs =
      elim (Bool-cases (p.locals task.shard).running) [
        | inl running ↦ (
          [],
          tt,
          record {
            client = client;
            queue = queue;
            is_open = is_open;
            forwarding = there y.forwarding true running runs;
          },
        )
        | inr ended ↦
            by_event client_env env dispatch_env capacity p' (told_seat env seat w) y
              (discord_sends closed) is_open tt
              (subst (Comes client_env env dispatch_env capacity p' (told_seat env seat w))
                (sym (
                  ap (λ g. discord_step client_env env dispatch_env capacity y g closed) runs
                  ∙ discord_step-outcome client_env env dispatch_env capacity y task
                      (spawned (task_of (p.locals task.shard) shard) env task) closed false
                      (task_of (p.locals task.shard) shard) refl refl))
                (
                  [],
                  tt,
                  record {
                    client = client;
                    queue = queue;
                    is_open = is_open;
                    forwarding = there _ false ended refl;
                  },
                ))
      ]
    where
      there :
          (g : Option (ForwardTask × System)) (b : Bool)
          → (p.locals task.shard).running ≡ b
          → g
            ≡ some (
              task,
              record (spawned (task_of (p.locals task.shard) shard) env task) { running = b },
            )
          → View p' (told_seat env seat w).forwarder g
      there g b running e =
          subst (λ o. View p' o g) (sym began)
            (
              shard,
              at,
              e
                  ∙ ap
                      (λ b'. some (
                        task,
                        record (spawned (task_of (p.locals task.shard) shard) env task) {
                          running = b';
                        },
                      ))
                      (sym running)
                  ∙ sym (
                      ap
                        (λ (l : ℕ → Local).
                          some (task, system_of (l task.shard) shard (begin_forwarder env task)))
                        same),
            )

  -- A client that has a `forward_shard` already keeps it.
  kept-Comes :
      (x : Connection) (task : ForwardTask) (f : Forwarder)
      → seat.forwarder ≡ some (task, f)
      → Shows p seat x
      → View p (some (task, f)) x.forwarding
      → Comes client_env env dispatch_env capacity p' (told_seat env seat w) x
  unfolding start_forwarder start_forwarding
  kept-Comes x task f e shows (shard, at, view) = told-Comes x false [] shows (
      senders-Goes client_env env dispatch_env capacity p p' same only (told_seat env seat w)
        (told env false [] x w)
        (record {
          client = refl;
          queue = told-queue x shows;
          is_open = shows.is_open;
          forwarding =
              subst (λ o. View p o (start_forwarding env false [] w x.forwarding))
                (sym (ap (start_forwarder env w) e))
                (shard, at, ap (start_forwarding env false [] w) view);
        }))

  -- A client that has none gets one with this message, or none.
  first-Comes :
      (x : Connection)
      → seat.forwarder ≡ none
      → Shows p seat x
      → x.forwarding ≡ none
      → Comes client_env env dispatch_env capacity p' (told_seat env seat w) x
  unfolding take_steps
  first-Comes x e shows idle = elim (start-cases env w) [
    | inl (no_task, no_system) ↦ told-Comes x false [] shows (
      [],
      tt,
      record {
        client = refl;
        queue = told-queue x shows;
        is_open = shows.is_open;
        forwarding =
            subst (λ o. View p' o (start_forwarding env false [] w x.forwarding))
              (sym (ap (start_forwarder env w) e ∙ no_task))
              (ap (start_forwarding env false [] w) idle ∙ no_system false []);
      },
    )
    | inr (task, shard, at, a_task, a_system) ↦
        let l = p.locals task.shard in
        told-Comes x l.is_ready l.counted shows (
          spawned-Comes (told env l.is_ready l.counted x w) task shard refl (told-queue x shows)
            shows.is_open (ap (start_forwarder env w) e ∙ a_task)
            (ap (λ (i : Inner InMemoryCache). get_elem? i.shards task.shard) state ∙ at)
            (ap (start_forwarding env l.is_ready l.counted w) idle ∙ a_system l.is_ready l.counted))
  ]

  pub told-Goes : Goes client_env env dispatch_env capacity p seat p' (told_seat env seat w)
  told-Goes x shows = go seat.forwarder refl shows.forwarding
    where
      go :
          (o : Option (ForwardTask × Forwarder))
          → seat.forwarder ≡ o
          → View p o x.forwarding
          → Comes client_env env dispatch_env capacity p' (told_seat env seat w) x
      go none e view = first-Comes x e shows view
      go (some (task, f)) e view = kept-Comes x task f e shows view
