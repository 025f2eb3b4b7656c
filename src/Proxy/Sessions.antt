-- ===== src/Proxy/Sessions.antt =====
-- What the clients keep of the shared state: its shards, and sessions of shards that there are.
use gateway_proxy.Prelude.{
  ℕ, ◌<◌, ◌≡◌, sym, ap, ◌∙◌, subst, some, List, map, inl, inr, Option-cases, Bool-cases, arith,
  if◌then◌else◌,
}
use mathlib.Core.Option
use gateway_proxy.Text.{Text}
use gateway_proxy.Text.Words.{text_eq}
use gateway_proxy.Model.{get, get-insert}
use gateway_proxy.State.{Inner, Session, create_session, take_samples}
use gateway_proxy.Server.Client.{Env, World, Message, handle_command, handle_message}
use gateway_proxy.Server.Client.Outcomes.{Holds, handle_message-Holds}
use gateway_proxy.Server.Client.Cases.{
  attach-Holds, handle_identify-Holds, resume_session-Holds, handle_resume-Holds, handle_op-Holds,
}
use gateway_proxy.Proxy.Senders.{send_to-OnlySenders}
use gateway_proxy.Proxy.Ids.{ids-OnlySenders}

-- The shards have these IDs, there are said to be `count` of them, and every session has one of those.
pub record IsSane {Cache : Type 0} (ids : List ℕ) (count : ℕ) (state : Inner Cache) : Type 0 where
  pub ids_are : map (λ s. s.id) state.shards ≡ ids
  pub count_is : state.shard_count ≡ count
  pub in_range :
      (id : Text) (session : Session)
      → get state.sessions id ≡ some session
      → session.shard_id < count

module _ {Cache : Type 0} (ids : List ℕ) (count : ℕ) (env : Env) where
  create_session-IsSane :
      (sample : ℕ → ℕ) (state : Inner Cache) (session : Session)
      → session.shard_id < count
      → IsSane ids count state
      → IsSane ids count (create_session sample state session).0
  unfolding create_session
  create_session-IsSane sample state session below sane = record {
    ids_are = sane.ids_are;
    count_is = sane.count_is;
    in_range = λ id found e.
        let key = take_samples sample 32 in
        let looked = sym (get-insert state.sessions key id session) ∙ e in
        elim (Bool-cases (text_eq key id)) [
          | inl same ↦
              subst (λ (s : Session). s.shard_id < count)
                (Option.some_inj.0
                  (sym (ap (λ b. if b then some session else get state.sessions id) same) ∙ looked))
                below
          | inr apart ↦
              sane.in_range id found
                (sym (ap (λ b. if b then some session else get state.sessions id) apart) ∙ looked)
        ];
  }

  handle_command-IsSane :
      (w : World Cache) (payload : Text)
      → IsSane ids count w.0
      → IsSane ids count (handle_command w payload).0
  unfolding handle_command
  handle_command-IsSane (state, c) payload sane = elim (Option-cases c.shard_sender) [
    | inl e ↦ rw (e, handle_command) sane
    | inr (i, e) ↦
        rw (e, handle_command)
          (record {
            ids_are =
                ids-OnlySenders state.shards _ (send_to-OnlySenders state.shards i payload)
                ∙ sane.ids_are;
            count_is = sane.count_is;
            in_range = sane.in_range;
          })
  ]

  pub handle_message-IsSane :
      (sample : ℕ → ℕ) (w : World Cache) (msg : Message)
      → IsSane ids count w.0
      → Holds (λ w'. IsSane ids count w'.0) (handle_message env sample w msg)
  handle_message-IsSane sample (state, c) msg sane =
      let P : World Cache → Type 0 = λ w'. IsSane ids count w'.0 in
      handle_message-Holds P env sample (state, c) msg sane
        λ payload event _ _.
          handle_op-Holds P env sample state c _ payload (λ _. sane)
            (λ _. handle_identify-Holds P env sample state c payload sane λ identify ok.
              attach-Holds P env sample state c identify λ shard there.
                create_session-IsSane sample state
                  (record { shard_id = identify.d.shard.0; compress = identify.d.compress })
                  (omega (arith, ok.count_matches, ok.in_range, sane.count_is)) sane)
            (λ _. handle_resume-Holds P env sample state c payload sane λ resume ok.
              resume_session-Holds P env sample state c resume sane
                λ session shard known there first. sane)
            (λ _ _ _. handle_command-IsSane (state, c) payload sane)
