-- ===== src/Server/Forward/Shard.antt =====
-- The whole task, for a client that has identified and for one that has resumed.
use gateway_proxy.Prelude.{
  ℕ, ◌+◌, ◌^◌, ◌<◌, ◌≡◌, refl, true, false, some, List, ◌∷◌, ◌++◌, map, arith, length, All,
}
use gateway_proxy.Text.{Text}
use gateway_proxy.Text.Words.{text_eq_refl}
use gateway_proxy.Model.{string, get, get-insert}
use gateway_proxy.Cache.{get_ready_payload, guild_payload}
use gateway_proxy.Cache.Payloads.{numbered, next_sequence-below, get_guild_payloads-numbered}
use gateway_proxy.Server.Client.{ForwardTask}
use gateway_proxy.Server.Forward.{
  Received, Env, resumed, session_id_key, new_ready, greeting, forward_shard,
}
use gateway_proxy.Server.Forward.Numbering.{Found, Sends, numbers, consecutive, forward-Sends}

module _ (env : Env) (task : ForwardTask) where
  new_ready-seq :
      task.seq + 1 < 2 ^ 64
      → ((new_ready env task.session_id task.seq).0.s ≡ task.seq + 1)
        × ((new_ready env task.session_id task.seq).1 ≡ task.seq + 1)
  unfolding new_ready get_ready_payload
  new_ready-seq h = (next_sequence-below task.seq h, next_sequence-below task.seq h)

  pub new_ready-session_id :
      get (new_ready env task.session_id task.seq).0.d session_id_key
      ≡ some (string task.session_id)
  unfolding new_ready
  new_ready-session_id =
      rw
        (
          get-insert (get_ready_payload env.ready_cache env.ready_payload task.seq).0.d
              session_id_key session_id_key (string task.session_id),
          text_eq_refl session_id_key,
        )
        refl

  -- While the numbers stay below 2 ^ 64 and the READY can be serialized, a client that has identified
  -- gets a READY with its own session ID and the number after the task's, then one payload for each
  -- guild of the cache, then the events, and all of these have consecutive numbers.
  pub forward_shard-identified :
      (received : List Received) (serialized : Text)
      → task.send_guilds ≡ true
      → env.ready_to_string (new_ready env task.session_id task.seq).0 ≡ some serialized
      → All Found received
      → task.seq + 1 + length env.guild_cache.guilds + length received < 2 ^ 64
      → ((new_ready env task.session_id task.seq).0.s ≡ task.seq + 1)
        × (get (new_ready env task.session_id task.seq).0.d session_id_key
            ≡ some (string task.session_id))
        × (sent : List Text) × (n : ℕ) × (forward_shard env task received
            ≡ some (
              serialized
                    ∷ map
                        (λ g. env.guild_to_string (guild_payload env.guild_cache g.0 g.1))
                        (numbered env.guild_cache.guilds (task.seq + 1 + 1))
                  ++ sent,
              task.seq + 1 + length env.guild_cache.guilds + n,
            ))
        × Sends received (task.seq + 1 + length env.guild_cache.guilds) sent
        × (numbers sent ≡ consecutive (task.seq + 1 + length env.guild_cache.guilds + 1) n)
  unfolding forward_shard greeting
  forward_shard-identified received serialized with_guilds written found h =
      let (sent, n, ran, sends, read) =
        forward-Sends received (task.seq + 1 + length env.guild_cache.guilds) found h in
      let (number, after) = new_ready-seq (omega (arith, h)) in
      (
        number,
        new_ready-session_id,
        sent,
        n,
        rw (with_guilds, written, after)
            (rw
              (get_guild_payloads-numbered env.guild_cache env.guild_to_string (task.seq + 1)
                (omega (arith, h)))
              (rw ran refl)),
        sends,
        read,
      )

  -- While the numbers stay below 2 ^ 64, a client that has resumed gets a RESUMED, then the events,
  -- numbered from its own sequence number on.
  pub forward_shard-resumed :
      (received : List Received)
      → task.send_guilds ≡ false
      → All Found received
      → task.seq + length received < 2 ^ 64
      → (sent : List Text) × (n : ℕ) × (forward_shard env task received
          ≡ some (resumed ∷ sent, task.seq + n))
        × Sends received task.seq sent
        × (numbers sent ≡ consecutive (task.seq + 1) n)
  unfolding forward_shard greeting
  forward_shard-resumed received no_guilds found h =
      let (sent, n, ran, sends, read) = forward-Sends received task.seq found h in
      (sent, n, rw no_guilds (rw ran refl), sends, read)
