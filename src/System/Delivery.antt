-- ===== src/System/Delivery.antt =====
-- What the queue of the client's sink holds.
use gateway_proxy.Prelude.{
  ℕ, ◌+◌, ◌<◌, ◌^◌, ◌≡◌, sym, ◌∙◌, ap, true, false, some, List, [], ◌∷◌, ◌++◌, map, length, All,
  All-get_elem?,
}
use mathlib.Core.Option
use gateway_proxy.Text.{Text}
use gateway_proxy.Cache.Records.{InMemoryCache}
use gateway_proxy.Cache.{guild_payload}
use gateway_proxy.Cache.Payloads.{numbered}
use gateway_proxy.Model.{string, get}
use gateway_proxy.State.{BroadcastMessage}
use gateway_proxy.Dispatch as Dispatch
use gateway_proxy.Dispatch.{resume_url_key, Task}
use gateway_proxy.Dispatch.Session.{Stored}
use gateway_proxy.Dispatch.Relay.{Relayable}
use gateway_proxy.Server.Client.{ForwardTask}
use gateway_proxy.Server.Forward.{
  Received, ok, lagged, closed, Env, resumed, session_id_key, new_ready,
}
use gateway_proxy.Server.Forward.Numbering.{Found, Sends, numbers, consecutive}
use gateway_proxy.Server.Forward.Shard.{forward_shard-identified, forward_shard-resumed}
use gateway_proxy.System.{receiving, System, Reachable}
use gateway_proxy.System.Refinement.{Reachable-forward_shard}
use gateway_proxy.System.Replays.{Replays}
use gateway_proxy.System.Positions.{Reachable-Replays}
use gateway_proxy.System.Safety.{Reachable-Safe}
use gateway_proxy.System.Data.{Reachable-url_is}

Replays-Found :
    (events : List BroadcastMessage) (position : ℕ) (received : List Received)
    → All Relayable events
    → Replays events position received
    → All Found received
Replays-Found events position [] h replays = tt
Replays-Found events position (ok m ∷ received) h replays = (
  (All-get_elem? Relayable events position m h replays.0).1,
  Replays-Found events (position + 1) received h replays.1,
)
Replays-Found events position (lagged amt ∷ received) h replays =
    (tt, Replays-Found events (position + amt) received h replays.1)
Replays-Found events position (closed ∷ received) h replays = absurd replays

module _ (client : ForwardTask) (capacity : ℕ) {Event : Type 0}
    (dispatch_env : Dispatch.Env InMemoryCache Event) (begin_task : Task InMemoryCache)
    (begin_env : Env) where
  Reachable-Found :
      (s : System) (position : ℕ)
      → All Relayable begin_task.shard.events
      → Reachable client capacity dispatch_env begin_task begin_env s
      → s.place ≡ receiving position
      → All Found s.received
  Reachable-Found s position h reached at =
      Replays-Found s.task.shard.events s.subscribed s.received
        (Reachable-Safe client capacity dispatch_env begin_task begin_env s h reached).0
        (Reachable-Replays client capacity dispatch_env begin_task begin_env s position reached
          at).0

  -- Where the messages that were broadcast before the client began are dispatch events with the number
  -- found in them and its shard's READY data, if there is any, is as the task stores it, and while the
  -- numbers stay below 2 ^ 64 and the READY can be serialized, a client that has identified, once it
  -- receives, has been sent a READY with its own session ID, the URL of the proxy and the number after
  -- the task's, then one payload for each guild, then what it has received, in order and with consecutive
  -- numbers, whatever Discord sends and however the two tasks interleave.
  pub Reachable-identified :
      (s : System) (position : ℕ) (serialized : Text)
      → All Relayable begin_task.shard.events
      → Stored dispatch_env begin_task
      → Reachable client capacity dispatch_env begin_task begin_env s
      → s.place ≡ receiving position
      → client.send_guilds ≡ true
      → s.env.ready_to_string (new_ready s.env client.session_id client.seq).0 ≡ some serialized
      → client.seq + 1 + length s.env.guild_cache.guilds + length s.received < 2 ^ 64
      → ((new_ready s.env client.session_id client.seq).0.s ≡ client.seq + 1)
        × (get (new_ready s.env client.session_id client.seq).0.d session_id_key
            ≡ some (string client.session_id))
        × (get (new_ready s.env client.session_id client.seq).0.d resume_url_key
            ≡ some (string dispatch_env.externally_accessible_url))
        × (sent : List Text) × (n : ℕ) × (s.queue
            ≡ serialized
                ∷ map
                    (λ g. s.env.guild_to_string (guild_payload s.env.guild_cache g.0 g.1))
                    (numbered s.env.guild_cache.guilds (client.seq + 1 + 1))
              ++ sent)
        × Sends s.received (client.seq + 1 + length s.env.guild_cache.guilds) sent
        × (numbers sent ≡ consecutive (client.seq + 1 + length s.env.guild_cache.guilds + 1) n)
  Reachable-identified s position serialized h stored reached at with_guilds written below =
      let (number, id, sent, n, ran, sends, read) =
        forward_shard-identified s.env client s.received serialized with_guilds written
          (Reachable-Found s position h reached at) below in
      let same = Option.some_inj.0 (
        sym (
          Reachable-forward_shard client capacity dispatch_env begin_task begin_env s position
            reached at)
        ∙ ran) in
      let url =
        Reachable-url_is client capacity dispatch_env begin_task begin_env s position
          client.session_id client.seq stored reached at in
      (number, id, url, sent, n, ap (λ r. r.0) same, sends, read)

  -- Where the messages that were broadcast before the client began are dispatch events with the number
  -- found in them, and while the numbers stay below 2 ^ 64, a client that has resumed, once it receives,
  -- has been sent a RESUMED, then what it has received, numbered from its own sequence number on,
  -- whatever Discord sends and however the two tasks interleave.
  pub Reachable-resumed :
      (s : System) (position : ℕ)
      → All Relayable begin_task.shard.events
      → Reachable client capacity dispatch_env begin_task begin_env s
      → s.place ≡ receiving position
      → client.send_guilds ≡ false
      → client.seq + length s.received < 2 ^ 64
      → (sent : List Text) × (n : ℕ) × (s.queue ≡ resumed ∷ sent)
        × (s.seq ≡ client.seq + n)
        × Sends s.received client.seq sent
        × (numbers sent ≡ consecutive (client.seq + 1) n)
  Reachable-resumed s position h reached at no_guilds below =
      let (sent, n, ran, sends, read) =
        forward_shard-resumed s.env client s.received no_guilds
          (Reachable-Found s position h reached at) below in
      let same = Option.some_inj.0 (
        sym (
          Reachable-forward_shard client capacity dispatch_env begin_task begin_env s position
            reached at)
        ∙ ran) in
      (sent, n, ap (λ r. r.0) same, ap (λ r. r.1) same, sends, read)
