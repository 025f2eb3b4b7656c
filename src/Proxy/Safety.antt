-- ===== src/Proxy/Safety.antt =====
-- No message makes `handle_client` panic where the shards are those that it is asked for.
use gateway_proxy.Prelude.{
  ℕ, ◌<◌, ◌≡◌, ◌≢◌, not, some, List, inl, inr, Option-cases, if-elim, arith, get_elem?, ◌==◌, leb,
}
use gateway_proxy.Text.{Text}
use gateway_proxy.Model.{Identify, Resume}
use gateway_proxy.State.{Inner, Shard, get_session, create_session}
use gateway_proxy.Server.Client.{
  Client, Env, Message, panic, refuses, attach, handle_identify, resume_session, handle_resume,
  handle_message,
}
use gateway_proxy.Server.Client.Panics.{IsSafe, IsSafe-no_panic, handle_message-IsSafe}
use gateway_proxy.Proxy.Sessions.{IsSane}

module _ {Cache : Type 0} (ids : List ℕ) (count : ℕ) (env : Env) (sample : ℕ → ℕ)
    (state : Inner Cache) (c : Client)
    (there : (i : ℕ) → i < count → (shard : Shard Cache) × (get_elem? state.shards i ≡ some shard))
    (sane : IsSane ids count state) where
  attach-IsSafe :
      (identify : Identify)
      → identify.d.shard.0 < count
      → IsSafe (attach sample (state, c) identify)
  unfolding attach create_session
  attach-IsSafe identify below =
      let (shard, e) = there identify.d.shard.0 below in rw (e, attach) tt

  handle_identify-IsSafe : (payload : Text) → IsSafe (handle_identify env sample (state, c) payload)
  unfolding handle_identify
  handle_identify-IsSafe payload = elim (Option-cases (env.identify_from_str payload)) [
    | inl e ↦ rw (e, handle_identify) tt
    | inr (identify, e) ↦
        rw (e, handle_identify)
          (if-elim IsSafe (not (identify.d.shard.1 == state.shard_count)) (λ _. tt)
            (λ same.
              if-elim IsSafe (leb identify.d.shard.1 identify.d.shard.0) (λ _. tt)
                (λ inside.
                  if-elim IsSafe (refuses env identify.d.token) (λ _. tt)
                    (λ _. attach-IsSafe identify (ground (arith, sane.count_is))))))
  ]

  resume_session-IsSafe : (resume : Resume) → IsSafe (resume_session (state, c) resume)
  unfolding resume_session get_session
  resume_session-IsSafe resume = elim (Option-cases (get_session state resume.d.session_id)) [
    | inl e ↦ rw (e, resume_session) tt
    | inr (session, e) ↦
        let (shard, at) = there session.shard_id (sane.in_range resume.d.session_id session e) in
        rw (e, resume_session, at) tt
  ]

  handle_resume-IsSafe : (payload : Text) → IsSafe (handle_resume env (state, c) payload)
  unfolding handle_resume
  handle_resume-IsSafe payload = elim (Option-cases (env.resume_from_str payload)) [
    | inl e ↦ rw (e, handle_resume) tt
    | inr (resume, e) ↦
        rw (e, handle_resume)
          (if-elim IsSafe (refuses env resume.d.token) (λ _. tt)
            (λ _. resume_session-IsSafe resume))
  ]

  pub handle_message-no_panic : (msg : Message) → handle_message env sample (state, c) msg ≢ panic
  handle_message-no_panic msg = IsSafe-no_panic _ (
      handle_message-IsSafe env sample (state, c) msg
        (λ payload e. (handle_identify-IsSafe payload, handle_resume-IsSafe payload)))
