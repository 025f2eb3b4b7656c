-- ===== src/Connection/Unheard.antt =====
-- A client for which `forward_shard` was not spawned yet.
use gateway_proxy.Prelude.{
  ℕ, ◌≡◌, refl, sym, subst, ap, ◌∙◌, Bool, true, false, not, ◌&&◌, some, none, List, [], ◌∷◌, ◌++◌,
  All, if◌then◌else◌,
}
use gateway_proxy.Text.{Text}
use gateway_proxy.Model.{Resume}
use gateway_proxy.Deserializer.{GatewayEvent, from_json, op_of}
use gateway_proxy.Cache.Records.{InMemoryCache}
use gateway_proxy.State.{Inner, get_session}
use gateway_proxy.Dispatch as Dispatch
use gateway_proxy.Server.Client as Client
use gateway_proxy.Server.Client.{
  Client, Message, World, Arrival, write, invalid_session, refuses, handle_message, handle_payload,
  handle_op, handle_resume, resume_session,
}
use gateway_proxy.Server.Client.Cases.{Admitted}
use gateway_proxy.Server.Forward.{Env}
use gateway_proxy.Connection.{
  Connection, Event, client_sends, opened, settle, client_step, open_step, take_step, take_steps,
}
use gateway_proxy.Connection.Messages.{added-append}
use gateway_proxy.Connection.Steps.{told}
use gateway_proxy.Connection.Merging.{IsSound}
use gateway_proxy.Connection.Soundness.{take_steps-IsSound}
use gateway_proxy.Connection.Queue.{connect}
use gateway_proxy.Connection.Unmoved.{Quiet, take_steps-append, take_steps-Unmoved, idle-forwarding}

-- A RESUME that passes the token check, of a session that the proxy does not know.
pub record Unknown (env : Client.Env) (state : Inner InMemoryCache) (msg : Message)
    (resume : Resume) : Type 0 where
  pub payload : Text
  pub event : GatewayEvent
  pub readable : not msg.is_text && not msg.is_binary ≡ false
  pub is_text : msg.as_text ≡ some payload
  pub parsed : from_json payload ≡ some event
  pub is_resume : op_of event ≡ 6
  pub admitted : Admitted env payload resume
  pub unknown : get_session state resume.d.session_id ≡ none

-- The proxy answers it.
handle_message-Unknown :
    (env : Client.Env) (sample : ℕ → ℕ) (state : Inner InMemoryCache) (c : Client) (msg : Message)
    (resume : Resume)
    → Unknown env state msg resume
    → handle_message env sample (state, c) msg ≡ Client.next (state, write c invalid_session)
unfolding handle_message handle_payload handle_op handle_resume resume_session
handle_message-Unknown env sample state c msg resume u =
    rw
      (
        u.readable, u.is_text, handle_message, u.parsed, handle_payload, u.is_resume,
        u.admitted.parsed, handle_resume, u.admitted.allowed, u.unknown, resume_session,
      )
      refl

module _ {Event' : Type 0} (client_env : Client.Env) (env : Env)
    (dispatch_env : Dispatch.Env InMemoryCache Event') (capacity : ℕ) where
  refused :
      (x : Connection) (a : Arrival InMemoryCache) (is_ready : Bool) (counted : List Text)
      (msg : Message) (resume : Resume)
      → x.is_open ≡ true
      → a.msg ≡ some msg
      → Unknown client_env (a.others x.world.0) msg resume
      → take_step client_env env dispatch_env capacity x (client_sends a is_ready counted)
        ≡ told env is_ready counted x (a.others x.world.0, write x.world.1 invalid_session)
  unfolding take_step open_step client_step settle
  refused x a is_ready counted msg resume is_open at unknown =
      ap
        (λ b.
          if b
          then client_step client_env env dispatch_env capacity x a is_ready counted a.msg
          else x)
        is_open
      ∙ ap (client_step client_env env dispatch_env capacity x a is_ready counted) at
      ∙ ap (settle env is_ready counted x) (
          handle_message-Unknown client_env a.sample (a.others x.world.0) x.world.1 msg resume
            unknown)

  -- Where a client that gets no events yet resumes with a token that passes and a session that the proxy
  -- does not know, the proxy puts the answer into the queue and keeps the connection open, but sends
  -- nothing of the queue, also not that answer, whatever Discord sends and however long the tasks run,
  -- until the client sends something else.
  pub take_steps-Unknown :
      (state : Inner InMemoryCache) (es quiet : List Event) (a : Arrival InMemoryCache)
      (is_ready : Bool) (counted : List Text) (msg : Message) (resume : Resume)
      → (connect client_env env dispatch_env capacity state es).is_open ≡ true
      → (connect client_env env dispatch_env capacity state es).world.1.compress_tx ≡ true
      → a.msg ≡ some msg
      → Unknown client_env
          (a.others (connect client_env env dispatch_env capacity state es).world.0)
          msg
          resume
      → All Quiet quiet
      → let x = connect client_env env dispatch_env capacity state es in
        let y =
          connect client_env env dispatch_env capacity state
            (es ++ (client_sends a is_ready counted ∷ quiet)) in
        (y.queue ≡ x.queue ++ (invalid_session ∷ [])) × (y.taken ≡ 0) × (y.is_open ≡ true)
  unfolding take_steps
  take_steps-Unknown state es quiet a is_ready counted msg resume is_open pending at unknown
        silent =
      let x = connect client_env env dispatch_env capacity state es in
      let e = client_sends a is_ready counted in
      let z = take_step client_env env dispatch_env capacity x e in
      let z_is = refused x a is_ready counted msg resume is_open at unknown in
      let sound =
        subst (IsSound client_env env dispatch_env capacity)
          (take_steps-append client_env env dispatch_env capacity (opened state) es (e ∷ []))
          (take_steps-IsSound client_env env dispatch_env capacity state (es ++ (e ∷ []))) in
      let still = ap (λ z. z.world.1.compress_tx) z_is ∙ pending in
      let unmoved =
        take_steps-Unmoved client_env env dispatch_env capacity z quiet
          (idle-forwarding client_env env dispatch_env capacity z.forwarding z.world.1 sound.runs
            still)
          still silent in
      subst
        (λ y. (y.queue ≡ x.queue ++ (invalid_session ∷ [])) × (y.taken ≡ 0) × (y.is_open ≡ true))
        (sym (take_steps-append client_env env dispatch_env capacity (opened state) es (e ∷ quiet)))
        (
          unmoved.queue
              ∙ ap (λ z. z.queue) z_is
              ∙ ap (λ l. x.queue ++ l) (added-append x.world.1.outbox (invalid_session ∷ [])),
          unmoved.taken ∙ sound.held still,
          unmoved.is_open ∙ ap (λ z. z.is_open) z_is ∙ is_open,
        )
