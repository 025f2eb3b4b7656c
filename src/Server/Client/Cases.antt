-- ===== src/Server/Client/Cases.antt =====
-- The cases of each handler, for a property of the world that is left.
use gateway_proxy.Prelude.{
  ℕ, ◌<◌, ◌≡◌, ◌≢◌, inl, inr, true, false, some, Option-cases, Bool-cases, if-elim, arith,
  if◌then◌else◌, ◌==◌, leb, get_elem?,
}
use gateway_proxy.Text.{Text}
use gateway_proxy.Model.{Identify, Resume}
use gateway_proxy.State.{Inner, Shard, Session, get_session, create_session}
use gateway_proxy.Server.Client.{
  Client, Env, World, write, heartbeat_ack, invalid_session, refuses, spawn_forward, attach,
  handle_identify, resume_session, handle_resume, handle_command, handle_op,
}
use gateway_proxy.Server.Client.Outcomes.{Holds}

-- An IDENTIFY that passes all checks.
pub record Accepted {Cache : Type 0} (env : Env) (state : Inner Cache) (payload : Text)
    (identify : Identify) : Type 0 where
  pub parsed : env.identify_from_str payload ≡ some identify
  pub count_matches : identify.d.shard.1 ≡ state.shard_count
  pub in_range : identify.d.shard.0 < identify.d.shard.1
  pub allowed : refuses env identify.d.token ≡ false

-- A RESUME that passes the token check.
pub record Admitted (env : Env) (payload : Text) (resume : Resume) : Type 0 where
  pub parsed : env.resume_from_str payload ≡ some resume
  pub allowed : refuses env resume.d.token ≡ false

module _ {ℓ} {Cache : Type 0} (P : World Cache → Type ℓ) (env : Env) (sample : ℕ → ℕ)
    (state : Inner Cache) (c : Client) where
  pub attach-Holds :
      (identify : Identify)
      → ((shard : Shard Cache)
          → get_elem? state.shards identify.d.shard.0 ≡ some shard
          → let (state', session_id) =
              create_session sample state
                (record { shard_id = identify.d.shard.0; compress = identify.d.compress }) in
            let c' = record c { shard_sender = some identify.d.shard.0 } in
            P (
              state',
              if c.compress_tx
                  then spawn_forward c'
                      (record {
                        session_id = session_id;
                        shard = identify.d.shard.0;
                        send_guilds = true;
                        seq = 0;
                      })
                      identify.d.compress
                  else c',
            ))
      → Holds P (attach sample (state, c) identify)
  unfolding attach create_session
  attach-Holds identify found = elim (Option-cases (get_elem? state.shards identify.d.shard.0)) [
    | inl e ↦ rw (e, attach) tt
    | inr (shard, e) ↦ rw (e, attach) (found shard e)
  ]

  pub handle_identify-Holds :
      (payload : Text)
      → P (state, c)
      → ((identify : Identify)
          → Accepted env state payload identify
          → Holds P (attach sample (state, c) identify))
      → Holds P (handle_identify env sample (state, c) payload)
  unfolding handle_identify
  handle_identify-Holds payload h accepted = elim (Option-cases (env.identify_from_str payload)) [
    | inl e ↦ rw (e, handle_identify) h
    | inr (identify, e) ↦ elim (Bool-cases (identify.d.shard.1 == state.shard_count)) [
      | inr other ↦ rw (e, handle_identify, other) h
      | inl same ↦ elim (Bool-cases (leb identify.d.shard.1 identify.d.shard.0)) [
        | inl out ↦ rw (e, handle_identify, same, out) h
        | inr inside ↦ elim (Bool-cases (refuses env identify.d.token)) [
          | inl refused ↦ rw (e, handle_identify, same, inside, refused) h
          | inr allowed ↦
              rw (e, handle_identify, same, inside, allowed)
                (accepted identify (record {
                  parsed = e;
                  count_matches = ground arith;
                  in_range = ground arith;
                  allowed = allowed;
                }))
        ]
      ]
    ]
  ]

  pub resume_session-Holds :
      (resume : Resume)
      → P (state, write c invalid_session)
      → ((session : Session) (shard : Shard Cache)
          → get_session state resume.d.session_id ≡ some session
          → get_elem? state.shards session.shard_id ≡ some shard
          → c.compress_tx ≡ true
          → P (
            state,
            spawn_forward c
                (record {
                  session_id = resume.d.session_id;
                  shard = session.shard_id;
                  send_guilds = false;
                  seq = resume.d.seq;
                })
                session.compress,
          ))
      → Holds P (resume_session (state, c) resume)
  unfolding resume_session
  resume_session-Holds resume invalid found =
      elim (Option-cases (get_session state resume.d.session_id)) [
        | inl e ↦ rw (e, resume_session) invalid
        | inr (session, e) ↦ elim (Option-cases (get_elem? state.shards session.shard_id)) [
          | inl none_there ↦ rw (e, resume_session, none_there) tt
          | inr (shard, there) ↦
              rw (e, resume_session, there)
                (if-elim (λ c'. P (state, c')) c.compress_tx (found session shard e there)
                  (λ _. invalid))
        ]
      ]

  pub handle_resume-Holds :
      (payload : Text)
      → P (state, c)
      → ((resume : Resume)
          → Admitted env payload resume
          → Holds P (resume_session (state, c) resume))
      → Holds P (handle_resume env (state, c) payload)
  unfolding handle_resume
  handle_resume-Holds payload h admitted = elim (Option-cases (env.resume_from_str payload)) [
    | inl e ↦ rw (e, handle_resume) h
    | inr (resume, e) ↦ elim (Bool-cases (refuses env resume.d.token)) [
      | inl refused ↦ rw (e, handle_resume, refused) h
      | inr allowed ↦
          rw (e, handle_resume, allowed)
            (admitted resume (record { parsed = e; allowed = allowed }))
    ]
  ]

  pub handle_op-Holds :
      (op : ℕ) (payload : Text)
      → (op ≡ 1 → P (state, write c heartbeat_ack))
      → (op ≡ 2 → Holds P (handle_identify env sample (state, c) payload))
      → (op ≡ 6 → Holds P (handle_resume env (state, c) payload))
      → (op ≢ 1 → op ≢ 2 → op ≢ 6 → P (handle_command (state, c) payload))
      → Holds P (handle_op env sample op (state, c) payload)
  unfolding handle_op
  handle_op-Holds op payload beat identify resume command = elim (Bool-cases (op == 1)) [
    | inl one ↦ rw one (beat (ground arith))
    | inr not_one ↦ elim (Bool-cases (op == 2)) [
      | inl two ↦ rw (not_one, two) (identify (ground arith))
      | inr not_two ↦ elim (Bool-cases (op == 6)) [
        | inl six ↦ rw (not_one, not_two, six) (resume (ground arith))
        | inr not_six ↦
            rw (not_one, not_two, not_six)
              (command (λ e. ground arith) (λ e. ground arith) (λ e. ground arith))
      ]
    ]
  ]
