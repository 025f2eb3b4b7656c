-- ===== src/Server/Forward/Resuming.antt =====
-- From the IDENTIFY of a client over the READY that it gets to its RESUME (src/server.rs).
use gateway_proxy.Prelude.{ℕ, ◌≡◌, sym, ap, ◌∙◌, true, false, some, arith}
use mathlib.Core.Option
use gateway_proxy.Text.{Text}
use gateway_proxy.Model.{Identify, Resume, string, get}
use gateway_proxy.State.{Inner, create_session, get_session, take_samples}
use gateway_proxy.Server.Client as Client
use gateway_proxy.Server.Client.{
  Client, ForwardTask, next, spawn_forward, attach, handle_identify, handle_resume,
}
use gateway_proxy.Server.Client.Cases.{Admitted}
use gateway_proxy.Server.Client.Resuming.{handle_resume-handle_identify}
use gateway_proxy.Server.Forward.{Env, session_id_key, new_ready}
use gateway_proxy.Server.Forward.Shard.{new_ready-session_id}

-- The task that an IDENTIFY spawns.
abbrev pub identified_task : (ℕ → ℕ) → Identify → ForwardTask
identified_task sample identify = record {
  session_id = take_samples sample 32;
  shard = identify.d.shard.0;
  send_guilds = true;
  seq = 0;
}

string_injective : (s t : Text) → string s ≡ string t → s ≡ t
string_injective s t h = cc

module _ {Cache : Type 0} where
  handle_identify-task :
      (env : Client.Env) (sample : ℕ → ℕ) (state state' : Inner Cache) (c c' : Client)
      (payload : Text) (identify : Identify)
      → env.identify_from_str payload ≡ some identify
      → handle_identify env sample (state, c) payload ≡ next (state', c')
      → c.compress_tx ≡ true
      → c'.shard_forward_task ≡ some (identified_task sample identify)
  unfolding handle_identify attach create_session spawn_forward
  handle_identify-task env sample state state' c c' payload identify parsed done free = ground arith

  -- Any client that has not started to get events and resumes with a token that passes and the session ID
  -- that stands in a READY of the task that the first accepted IDENTIFY of a client has spawned, gets the
  -- events of the same shard, with the same choice of compression, from the sequence number
  -- that it names on: while the session is in the table and the shards are those of before.
  pub handle_resume-new_ready :
      (env : Client.Env) (sample : ℕ → ℕ) (state state' later : Inner Cache) (a a' b : Client)
      (payload payload' : Text) (identify : Identify) (resume : Resume) (forward_env : Env)
      (task : ForwardTask)
      → env.identify_from_str payload ≡ some identify
      → handle_identify env sample (state, a) payload ≡ next (state', a')
      → a.compress_tx ≡ true
      → later.shards ≡ state.shards
      → get_session later (take_samples sample 32) ≡ get_session state' (take_samples sample 32)
      → b.compress_tx ≡ true
      → Admitted env payload' resume
      → a'.shard_forward_task ≡ some task
      → get (new_ready forward_env task.session_id task.seq).0.d session_id_key
        ≡ some (string resume.d.session_id)
      → handle_resume env (later, b) payload'
        ≡ next (
          later,
          spawn_forward b
              (record task { send_guilds = false; seq = resume.d.seq })
              identify.d.compress,
        )
  handle_resume-new_ready env sample state state' later a a' b payload payload' identify resume
        forward_env task parsed done first shards known free ok spawned read =
      let same = Option.some_inj.0 (
        sym (handle_identify-task env sample state state' a a' payload identify parsed done first)
        ∙ spawned) in
      let named = Option.some_inj.0 (sym read ∙ new_ready-session_id forward_env task) in
      let id =
        string_injective resume.d.session_id task.session_id named
        ∙ ap (λ t. t.session_id) (sym same) in
      handle_resume-handle_identify env sample state state' later a a' b payload payload' identify
        resume parsed done shards known free ok id
      ∙ ap
          (λ t. next (
            later,
            spawn_forward b (record t { send_guilds = false; seq = resume.d.seq })
                identify.d.compress,
          ))
          same
