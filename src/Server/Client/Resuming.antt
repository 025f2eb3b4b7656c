-- ===== src/Server/Client/Resuming.antt =====
-- A session that an IDENTIFY has created, resumed.
use gateway_proxy.Prelude.{
  ℕ, ◌≡◌, ◌≢◌, inl, inr, true, false, none, some, arith, get_elem?, Option-cases,
}
use gateway_proxy.Text.{Text}
use gateway_proxy.Text.Words.{text_eq_refl}
use gateway_proxy.Model.{Identify, Resume}
use gateway_proxy.State.{Inner, Session, create_session, get_session, take_samples}
use gateway_proxy.State.Sessions.{get_session-create_session}
use gateway_proxy.Server.Client.{
  Client, Env, next, spawn_forward, attach, handle_identify, resume_session, handle_resume,
}
use gateway_proxy.Server.Client.Cases.{Admitted}

module _ {Cache : Type 0} where
  created :
      (env : Env) (sample : ℕ → ℕ) (state state' : Inner Cache) (c c' : Client) (payload : Text)
      (identify : Identify)
      → env.identify_from_str payload ≡ some identify
      → handle_identify env sample (state, c) payload ≡ next (state', c')
      → (state'
          ≡ (create_session sample state
              (record { shard_id = identify.d.shard.0; compress = identify.d.compress })).0)
        × (get_elem? state.shards identify.d.shard.0 ≢ none)
  unfolding handle_identify attach create_session
  created env sample state state' c c' payload identify parsed done = ground arith

  -- After an IDENTIFY that was accepted, any client that has not started to get events, and resumes the
  -- new session with a token that passes, gets the events of the same shard, with the same choice of
  -- compression, from the sequence number that it names on: while the session is in the table and the
  -- shards are those of before.
  pub handle_resume-handle_identify :
      (env : Env) (sample : ℕ → ℕ) (state state' later : Inner Cache) (a a' b : Client)
      (payload payload' : Text) (identify : Identify) (resume : Resume)
      → env.identify_from_str payload ≡ some identify
      → handle_identify env sample (state, a) payload ≡ next (state', a')
      → later.shards ≡ state.shards
      → get_session later (take_samples sample 32) ≡ get_session state' (take_samples sample 32)
      → b.compress_tx ≡ true
      → Admitted env payload' resume
      → resume.d.session_id ≡ take_samples sample 32
      → handle_resume env (later, b) payload'
        ≡ next (
          later,
          spawn_forward b
              (record {
                session_id = take_samples sample 32;
                shard = identify.d.shard.0;
                send_guilds = false;
                seq = resume.d.seq;
              })
              identify.d.compress,
        )
  unfolding handle_resume resume_session create_session
  handle_resume-handle_identify env sample state state' later a a' b payload payload' identify
        resume parsed done shards known free ok id =
      let (state'_is, there) = created env sample state state' a a' payload identify parsed done in
      let session : Session = record {
        shard_id = identify.d.shard.0;
        compress = identify.d.compress;
      } in
      let found = (get_session-create_session sample state session (take_samples sample 32)).1 in
      elim (Option-cases (get_elem? state.shards identify.d.shard.0)) [
        | inl e ↦ absurd (there e)
        | inr (shard, e) ↦ ground (arith, found, text_eq_refl (take_samples sample 32))
      ]
