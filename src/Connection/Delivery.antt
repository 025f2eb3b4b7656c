-- ===== src/Connection/Delivery.antt =====
-- What a client is sent, among the answers to what it sends.
use gateway_proxy.Prelude.{
  ℕ, ◌+◌, ◌<◌, ◌^◌, ◌≡◌, subst, true, false, some, List, ◌∷◌, ◌++◌, map, length, All,
}
use gateway_proxy.Text.{Text}
use gateway_proxy.Cache.Records.{InMemoryCache}
use gateway_proxy.Cache.{guild_payload}
use gateway_proxy.Cache.Payloads.{numbered}
use gateway_proxy.Model.{string, get}
use gateway_proxy.State.{Inner}
use gateway_proxy.Dispatch as Dispatch
use gateway_proxy.Dispatch.{resume_url_key}
use gateway_proxy.Server.Client as Client
use gateway_proxy.Server.Client.{ForwardTask}
use gateway_proxy.Server.Forward.{Env, resumed, session_id_key, new_ready}
use gateway_proxy.Server.Forward.Numbering.{Sends, numbers, consecutive}
use gateway_proxy.System.{System, receiving}
use gateway_proxy.System.Delivery.{Reachable-identified, Reachable-resumed}
use gateway_proxy.Connection.{Event}
use gateway_proxy.Connection.Logs.{Interleaves}
use gateway_proxy.Connection.Steps.{Admits}
use gateway_proxy.Connection.Merging.{sent_by, Runs}
use gateway_proxy.Connection.Soundness.{take_steps-IsSound}
use gateway_proxy.Connection.Queue.{connect}
use gateway_proxy.Connection.Feeding.{IsFed, Feeds, Begun, take_steps-Begun}

module _ {Event' : Type 0} (client_env : Client.Env) (env : Env)
    (dispatch_env : Dispatch.Env InMemoryCache Event') (capacity : ℕ) (state : Inner InMemoryCache)
    (es : List Event) (fed : All (IsFed client_env env dispatch_env capacity) state.shards)
    (feeds : All (Admits (Feeds client_env env dispatch_env capacity)) es) (task : ForwardTask)
    (s : System) (position : ℕ)
    (runs : (connect client_env env dispatch_env capacity state es).forwarding ≡ some (task, s))
    (at : s.place ≡ receiving position) where
  begun : Begun client_env env dispatch_env capacity (some (task, s))
  begun =
      subst (Begun client_env env dispatch_env capacity) runs
        (take_steps-Begun client_env env dispatch_env capacity state es fed feeds)

  -- The queue holds the answers and what the task has sent, which was spawned for this client.
  abbrev Queued : List Text → Type 0
  Queued sent =
      let x = connect client_env env dispatch_env capacity state es in
      (x.world.1.shard_forward_task ≡ some task) × Interleaves x.world.1.outbox sent x.queue

  queued : Queued s.queue
  queued =
      let x = connect client_env env dispatch_env capacity state es in
      let sound = take_steps-IsSound client_env env dispatch_env capacity state es in
      let ((compress, started), reached) =
        subst (λ f. Runs client_env env dispatch_env capacity f x.world.1) runs sound.runs in
      (started.1, subst (λ f. Interleaves x.world.1.outbox (sent_by f) x.queue) runs sound.merged)

  -- Where every shard has, at first and after what other tasks do, broadcast dispatch events only, with
  -- the number found in them, and READY data as the task stores it, and while the numbers stay below
  -- 2 ^ 64 and the READY can be serialized: a client that has identified has in its queue, once
  -- forward_shard receives, among the answers to what it has sent, a READY with the session ID of its
  -- task and the URL of the proxy, then one payload for each guild, then what forward_shard has received,
  -- in order and with consecutive numbers, and nothing else, whatever it and Discord send and however the
  -- tasks interleave.
  pub take_steps-identified :
      (serialized : Text)
      → task.send_guilds ≡ true
      → s.env.ready_to_string (new_ready s.env task.session_id task.seq).0 ≡ some serialized
      → task.seq + 1 + length s.env.guild_cache.guilds + length s.received < 2 ^ 64
      → let x = connect client_env env dispatch_env capacity state es in
        let ready = (new_ready s.env task.session_id task.seq).0 in
        (x.world.1.shard_forward_task ≡ some task)
        × (ready.s ≡ task.seq + 1)
        × (get ready.d session_id_key ≡ some (string task.session_id))
        × (get ready.d resume_url_key ≡ some (string dispatch_env.externally_accessible_url))
        × (sent : List Text) × (n : ℕ) × Interleaves x.world.1.outbox
            (serialized
                ∷ map
                    (λ g. s.env.guild_to_string (guild_payload s.env.guild_cache g.0 g.1))
                    (numbered s.env.guild_cache.guilds (task.seq + 1 + 1))
              ++ sent)
            x.queue
        × Sends s.received (task.seq + 1 + length s.env.guild_cache.guilds) sent
        × (numbers sent ≡ consecutive (task.seq + 1 + length s.env.guild_cache.guilds + 1) n)
  take_steps-identified serialized with_guilds written below =
      let x = connect client_env env dispatch_env capacity state es in
      let (begin_task, is_fed, reached) = begun in
      let (number, id, url, sent, n, ran, sends, read) =
        Reachable-identified task capacity dispatch_env begin_task env s position serialized
          is_fed.relayable is_fed.stored reached at with_guilds written below in
      let (started, merged) = queued in
      (
        started,
        number,
        id,
        url,
        sent,
        n,
        subst (λ l. Interleaves x.world.1.outbox l x.queue) ran merged,
        sends,
        read,
      )

  -- Where every shard has, at first and after what other tasks do, broadcast dispatch events only, with
  -- the number found in them, and READY data as the task stores it, and while the numbers stay below
  -- 2 ^ 64: a client that has resumed has in its queue, once forward_shard receives, among the answers to
  -- what it has sent, a RESUMED, then what forward_shard has received, numbered from the client's own
  -- sequence number on, and nothing else, whatever it and Discord send and however the tasks interleave.
  pub take_steps-resumed :
      task.send_guilds ≡ false
      → task.seq + length s.received < 2 ^ 64
      → let x = connect client_env env dispatch_env capacity state es in
        (x.world.1.shard_forward_task ≡ some task)
        × (sent : List Text) × (n : ℕ) × Interleaves x.world.1.outbox (resumed ∷ sent) x.queue
        × Sends s.received task.seq sent
        × (numbers sent ≡ consecutive (task.seq + 1) n)
  take_steps-resumed no_guilds below =
      let x = connect client_env env dispatch_env capacity state es in
      let (begin_task, is_fed, reached) = begun in
      let (sent, n, ran, numbered_to, sends, read) =
        Reachable-resumed task capacity dispatch_env begin_task env s position is_fed.relayable
          reached at no_guilds below in
      let (started, merged) = queued in
      (
        started,
        sent,
        n,
        subst (λ l. Interleaves x.world.1.outbox l x.queue) ran merged,
        sends,
        read,
      )
