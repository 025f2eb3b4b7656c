-- ===== src/Proxy/Clients.antt =====
-- What a client of the running proxy has in its queue, and what it has received.
use gateway_proxy.Prelude.{
  ℕ, ◌+◌, ◌<◌, ◌≤◌, ◌^◌, ◌≡◌, subst, true, false, some, List, ◌∷◌, ◌++◌, map, length, get_elem?,
}
use gateway_proxy.Text.{Text}
use gateway_proxy.Cache.Records.{InMemoryCache}
use gateway_proxy.Cache.{guild_payload}
use gateway_proxy.Cache.Payloads.{numbered}
use gateway_proxy.Model.{string, get}
use gateway_proxy.State.{Shard}
use gateway_proxy.Dispatch as Dispatch
use gateway_proxy.Dispatch.{resume_url_key}
use gateway_proxy.Launch.{Config, create_state}
use gateway_proxy.Server.Client as Client
use gateway_proxy.Server.Client.{ForwardTask}
use gateway_proxy.Server.Forward.{Env, forward_shard, resumed, session_id_key, new_ready}
use gateway_proxy.Server.Forward.Numbering.{Sends, numbers, consecutive}
use gateway_proxy.System.{receiving}
use gateway_proxy.System.Replays.{Replays, position_after}
use gateway_proxy.System.Positions.{Reachable-Replays}
use gateway_proxy.Connection.{Connection}
use gateway_proxy.Connection.Logs.{Interleaves}
use gateway_proxy.Connection.Merging.{Runs}
use gateway_proxy.Connection.Soundness.{take_steps-IsSound}
use gateway_proxy.Connection.Queue.{connect, take_steps-forward_shard}
use gateway_proxy.Connection.Delivery.{take_steps-identified, take_steps-resumed}
use gateway_proxy.Proxy.{Local, Forwarder, Seat, Proxy, Reaches, system_of}
use gateway_proxy.Proxy.Begun.{create_state-IsFed}
use gateway_proxy.Proxy.Views.{View, Seen}
use gateway_proxy.Proxy.Soundness.{Reaches-Seen}

module _ {Event' : Type 0} (client_env : Client.Env) (env : Env)
    (dispatch_env : Dispatch.Env InMemoryCache Event') (capacity : ℕ) (cache : InMemoryCache)
    (config : Config) (recommended : ℕ) (locals : ℕ → Local) (p : Proxy) (k : ℕ) (seat : Seat)
    (task : ForwardTask) (f : Forwarder) (position : ℕ)
    (reached : Reaches client_env env dispatch_env capacity
      (create_state cache config recommended)
      locals
      p)
    (at : get_elem? p.seats k ≡ some seat) (is_open : seat.is_open ≡ true)
    (runs : seat.forwarder ≡ some (task, f)) (there : f.place ≡ receiving position) where
  seen : Seen client_env env dispatch_env capacity (create_state cache config recommended) p seat
  seen =
      Reaches-Seen client_env env dispatch_env capacity (create_state cache config recommended)
        locals (create_state-IsFed client_env env dispatch_env capacity cache config recommended) p
        reached k seat at is_open

  -- The connection that shows the client, and its `forward_shard` there.
  abbrev shown : Connection
  shown =
      connect client_env env dispatch_env capacity (create_state cache config recommended) seen.0

  viewed : View p (some (task, f)) shown.forwarding
  viewed = subst (λ o. View p o shown.forwarding) runs seen.2.forwarding

  shares :
      (shard : Shard InMemoryCache) × (get_elem? p.state.shards task.shard ≡ some shard)
      × Replays shard.events f.subscribed f.received
      × (position_after f.subscribed f.received ≡ position)
      × (position ≤ length shard.events)
  shares =
      let (shard, at_shard, view) = viewed in
      let sound =
        take_steps-IsSound client_env env dispatch_env capacity
          (create_state cache config recommended) seen.0 in
      let (started, (begin_task, reachable)) =
        subst (λ g. Runs client_env env dispatch_env capacity g shown.world.1) view sound.runs in
      let (replays, after, below) =
        Reachable-Replays task capacity dispatch_env begin_task env
          (system_of (p.locals task.shard) shard f) position reachable there in
      (shard, at_shard, replays, after, below)

  queued :
      (sent : List Text)
      → Interleaves shown.world.1.outbox sent shown.queue
      → Interleaves seat.client.outbox sent seat.queue
  queued sent merged =
      subst (λ c. Interleaves c.outbox sent seat.queue) seen.2.client
        (subst (Interleaves shown.world.1.outbox sent) seen.2.queue merged)

  -- From the start of the proxy on, with any number of clients, and whatever they and Discord send
  -- and however all tasks interleave without a panic or undefined behaviour: once the forward_shard
  -- of a client that is connected receives, the queue of the client holds, each in its order and
  -- nothing else, the answers of its handle_client and exactly what forward_shard sends with the
  -- arguments that the client was given, for the data that it has read and for what it has
  -- received; and that is what was broadcast in the shard that all tasks share, from where it has
  -- subscribed up to where it is, without what a lag skips.
  pub Reaches-forward_shard :
      (seat.client.shard_forward_task ≡ some task)
      × ((sent : List Text) × Interleaves seat.client.outbox sent seat.queue
          × (forward_shard f.env task f.received ≡ some (sent, f.seq)))
      × (shard : Shard InMemoryCache) × (get_elem? p.state.shards task.shard ≡ some shard)
      × Replays shard.events f.subscribed f.received
      × (position_after f.subscribed f.received ≡ position)
      × (position ≤ length shard.events)
  Reaches-forward_shard =
      let (shard, at_shard, view) = viewed in
      let (spawned, sent, merged, ran) =
        take_steps-forward_shard client_env env dispatch_env capacity
          (create_state cache config recommended) seen.0 task
          (system_of (p.locals task.shard) shard f) position view there in
      let (one, at_one, replays, after, below) = shares in
      (
        subst (λ c. c.shard_forward_task ≡ some task) seen.2.client spawned,
        (sent, queued sent merged, ran),
        one,
        at_one,
        replays,
        after,
        below,
      )

  -- From the start of the proxy on, with any number of clients, and whatever they and Discord send
  -- and however all tasks interleave without a panic or undefined behaviour, while the numbers stay
  -- below 2 ^ 64 and the READY can be serialized: a client that is connected and has identified has
  -- in its queue, once its forward_shard receives, among the answers to what it has sent, a READY
  -- with the session ID of its task and the URL of the proxy, then one payload for each guild, then
  -- what forward_shard has received, in order and with consecutive numbers, and nothing else.
  pub Reaches-identified :
      (serialized : Text)
      → task.send_guilds ≡ true
      → f.env.ready_to_string (new_ready f.env task.session_id task.seq).0 ≡ some serialized
      → task.seq + 1 + length f.env.guild_cache.guilds + length f.received < 2 ^ 64
      → let ready = (new_ready f.env task.session_id task.seq).0 in
        (seat.client.shard_forward_task ≡ some task)
        × (ready.s ≡ task.seq + 1)
        × (get ready.d session_id_key ≡ some (string task.session_id))
        × (get ready.d resume_url_key ≡ some (string dispatch_env.externally_accessible_url))
        × (sent : List Text) × (n : ℕ) × Interleaves seat.client.outbox
            (serialized
                ∷ map
                    (λ g. f.env.guild_to_string (guild_payload f.env.guild_cache g.0 g.1))
                    (numbered f.env.guild_cache.guilds (task.seq + 1 + 1))
              ++ sent)
            seat.queue
        × Sends f.received (task.seq + 1 + length f.env.guild_cache.guilds) sent
        × (numbers sent ≡ consecutive (task.seq + 1 + length f.env.guild_cache.guilds + 1) n)
  Reaches-identified serialized with_guilds written below =
      let (shard, at_shard, view) = viewed in
      let (spawned, number, id, url, sent, n, merged, sends, read) =
        take_steps-identified client_env env dispatch_env capacity
          (create_state cache config recommended) seen.0
          (create_state-IsFed client_env env dispatch_env capacity cache config recommended) seen.1
          task (system_of (p.locals task.shard) shard f) position view there serialized with_guilds
          written below in
      (
        subst (λ c. c.shard_forward_task ≡ some task) seen.2.client spawned,
        number,
        id,
        url,
        sent,
        n,
        queued _ merged,
        sends,
        read,
      )

  -- From the start of the proxy on, with any number of clients, and whatever they and Discord send
  -- and however all tasks interleave without a panic or undefined behaviour, while the numbers stay
  -- below 2 ^ 64: a client that is connected and has resumed has in its queue, once its
  -- forward_shard receives, among the answers to what it has sent, a RESUMED, then what
  -- forward_shard has received, numbered from the client's own sequence number on, and nothing
  -- else.
  pub Reaches-resumed :
      task.send_guilds ≡ false
      → task.seq + length f.received < 2 ^ 64
      → (seat.client.shard_forward_task ≡ some task)
        × (sent : List Text) × (n : ℕ) × Interleaves seat.client.outbox (resumed ∷ sent) seat.queue
        × Sends f.received task.seq sent
        × (numbers sent ≡ consecutive (task.seq + 1) n)
  Reaches-resumed no_guilds below =
      let (shard, at_shard, view) = viewed in
      let (spawned, sent, n, merged, sends, read) =
        take_steps-resumed client_env env dispatch_env capacity
          (create_state cache config recommended) seen.0
          (create_state-IsFed client_env env dispatch_env capacity cache config recommended) seen.1
          task (system_of (p.locals task.shard) shard f) position view there no_guilds below in
      (
        subst (λ c. c.shard_forward_task ≡ some task) seen.2.client spawned,
        sent,
        n,
        queued _ merged,
        sends,
        read,
      )
