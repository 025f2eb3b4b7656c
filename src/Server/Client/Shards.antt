-- ===== src/Server/Client/Shards.antt =====
-- The shard that an IDENTIFY leads to, where `shards` holds those from `start` on, as `run` of
-- src/main.rs fills it.
use gateway_proxy.Prelude.{
  ℕ, ◌+◌, ◌≤◌, ◌≡◌, ◌↔◌, inl, inr, true, some, List, arith, get_elem?, length, Option-cases,
  get_elem?-eq-none_iff,
}
use gateway_proxy.Text.{Text}
use gateway_proxy.Model.{Identify}
use gateway_proxy.State.{Inner, Shard, create_session, take_samples}
use gateway_proxy.Server.Client.{
  Client, Env, ForwardTask, next, panic, spawn_forward, attach, handle_identify,
}
use gateway_proxy.Server.Client.Cases.{Accepted}

module _ {Cache : Type 0} where
  abbrev pub Layout : ℕ → List (Shard Cache) → Type 0
  Layout start shards = (i : ℕ) (s : Shard Cache) → get_elem? shards i ≡ some s → s.id ≡ start + i

  -- An IDENTIFY that passes all checks makes the proxy panic exactly if the shard that it asks for is
  -- no index of `shards`.
  pub handle_identify-panic_iff :
      (env : Env) (sample : ℕ → ℕ) (state : Inner Cache) (c : Client) (payload : Text)
      (identify : Identify)
      → Accepted env state payload identify
      → (handle_identify env sample (state, c) payload ≡ panic)
        ↔ (length state.shards ≤ identify.d.shard.0)
  unfolding handle_identify attach create_session
  handle_identify-panic_iff env sample state c payload identify ok =
      let missing = get_elem?-eq-none_iff state.shards identify.d.shard.0 in
      elim (Option-cases (get_elem? state.shards identify.d.shard.0)) [
        | inl e ↦ (λ h. missing.0 e, λ h. ground arith)
        | inr (shard, e) ↦ (λ h. absurd (ground arith), λ h. absurd (ground (arith, missing.1 h)))
      ]

  -- A client whose first IDENTIFY asks for shard `i` gets the events of the shard whose ID is
  -- `start + i`, where the IDs in `shards` begin at `start`: the shard that it asked for exactly if the
  -- proxy runs the shards from 0 on.
  pub handle_identify-shard :
      (env : Env) (sample : ℕ → ℕ) (state state' : Inner Cache) (c c' : Client) (payload : Text)
      (identify : Identify) (start : ℕ)
      → Layout start state.shards
      → c.compress_tx ≡ true
      → env.identify_from_str payload ≡ some identify
      → handle_identify env sample (state, c) payload ≡ next (state', c')
      → (task : ForwardTask) × (shard : Shard Cache) × (c'.shard_forward_task ≡ some task)
        × (get_elem? state'.shards task.shard ≡ some shard)
        × (shard.id ≡ start + identify.d.shard.0)
        × ((shard.id ≡ identify.d.shard.0) ↔ (start ≡ 0))
  unfolding handle_identify attach create_session spawn_forward
  handle_identify-shard env sample state state' c c' payload identify start layout first parsed
        done =
      elim (Option-cases (get_elem? state.shards identify.d.shard.0)) [
        | inl e ↦ absurd (ground arith)
        | inr (shard, e) ↦
            let is : shard.id ≡ start + identify.d.shard.0 = layout identify.d.shard.0 shard e in
            (
              record {
                session_id = take_samples sample 32;
                shard = identify.d.shard.0;
                send_guilds = true;
                seq = 0;
              },
              shard,
              ground arith,
              ground arith,
              is,
              (λ h. omega arith, λ h. omega arith),
            )
      ]
