-- ===== src/Server/Client/Once.antt =====
-- One client gets events from one `forward_shard`, whatever it sends.
use gateway_proxy.Prelude.{
  ℕ, ◌≡◌, refl, Bool, true, false, Option, none, some, List, arith, if-elim,
}
use gateway_proxy.Text.{Text}
use gateway_proxy.State.{Inner}
use gateway_proxy.Server.Client.{
  Client, Env, World, Message, Arrival, ForwardTask, connected, write, spawn_forward,
  handle_command, handle_message, handle_client,
}
use gateway_proxy.Server.Client.Outcomes.{Holds, handle_message-Holds, handle_client-Holds_client}
use gateway_proxy.Server.Client.Cases.{
  attach-Holds, handle_identify-Holds, resume_session-Holds, handle_resume-Holds, handle_op-Holds,
}

-- Nothing is started, or a task is, and the choice of compression was sent.
pub data Phase (c : Client) : Type 0 where
  waiting : c.compress_tx ≡ true → c.shard_forward_task ≡ none → c.compress_rx ≡ none → Phase c
  forwarding :
      (task : ForwardTask) (compress : Option Bool)
      → c.compress_tx ≡ false
      → c.shard_forward_task ≡ some task
      → c.compress_rx ≡ some compress
      → Phase c

-- A property of the client that holds on of the fields above only, and of a client that has just
-- started to get events, is kept by every message.
module _ {ℓ} {Cache : Type 0} (P : Client → Type ℓ) (env : Env)
    (write-P : (c : Client) (text : Text) → P c → P (write c text))
    (sender-P : (c : Client) (i : ℕ) → P c → P (record c { shard_sender = some i }))
    (spawn-P : (c : Client) (task : ForwardTask) (compress : Option Bool)
      → c.compress_tx ≡ true
      → P c
      → P (spawn_forward c task compress)) where
  command-P : (w : World Cache) (payload : Text) → P w.1 → P (handle_command w payload).1
  unfolding handle_command
  command-P (state, c) payload h = ground arith

  pub handle_message-keeps :
      (sample : ℕ → ℕ) (w : World Cache) (msg : Message)
      → P w.1
      → Holds (λ w. P w.1) (handle_message env sample w msg)
  handle_message-keeps sample (state, c) msg h =
      let Q = λ (w : World Cache). P w.1 in
      handle_message-Holds Q env sample (state, c) msg h
        λ payload event _ _.
          handle_op-Holds Q env sample state c _ payload (λ _. write-P c _ h)
            (λ _. handle_identify-Holds Q env sample state c payload h λ identify ok.
              attach-Holds Q env sample state c identify λ shard there.
                if-elim P c.compress_tx
                  (λ first.
                    spawn-P (record c { shard_sender = some identify.d.shard.0 }) _ _ first
                      (sender-P c _ h))
                  (λ again. sender-P c _ h))
            (λ _. handle_resume-Holds Q env sample state c payload h λ resume ok.
              resume_session-Holds Q env sample state c resume (write-P c _ h)
                λ session shard known there first. spawn-P c _ _ first h)
            (λ _ _ _. command-P (state, c) payload h)

spawn_forward-Phase :
    (c : Client) (task : ForwardTask) (compress : Option Bool)
    → Phase (spawn_forward c task compress)
unfolding spawn_forward
spawn_forward-Phase c task compress = forwarding task compress refl refl refl

write-Phase : (c : Client) (text : Text) → Phase c → Phase (write c text)
write-Phase c text (waiting e f g) = waiting e f g
write-Phase c text (forwarding t b e f g) = forwarding t b e f g

sender-Phase : (c : Client) (i : ℕ) → Phase c → Phase (record c { shard_sender = some i })
sender-Phase c i (waiting e f g) = waiting e f g
sender-Phase c i (forwarding t b e f g) = forwarding t b e f g

-- Whatever a client sends, and whatever the other tasks do: the choice of compression has been sent
-- to the task of the sink exactly if `forward_shard` was started, and `compress_tx` is gone exactly
-- then.
pub handle_client-Phase :
    {Cache : Type 0} (env : Env) (state : Inner Cache) (arrivals : List (Arrival Cache))
    → Holds (λ w. Phase w.1) (handle_client env (state, connected) arrivals)
handle_client-Phase env state arrivals =
    handle_client-Holds_client Phase env state connected arrivals
      (handle_message-keeps Phase env write-Phase sender-Phase
        (λ c task compress _ _. spawn_forward-Phase c task compress))
      (waiting refl refl refl)

-- `forward_shard` runs with these arguments, and this choice of compression was sent.
abbrev pub Started : ForwardTask → Option Bool → Client → Type 0
Started task compress c =
    (c.compress_tx ≡ false) × (c.shard_forward_task ≡ some task) × (c.compress_rx ≡ some compress)

-- Once `forward_shard` was started for a client, it is never started again for it: the session, the
-- shard, the first sequence number and the choice of compression are those of the first start, for
-- all messages that follow.
pub handle_client-forwards_once :
    {Cache : Type 0} (env : Env) (state : Inner Cache) (c : Client) (task : ForwardTask)
    (compress : Option Bool) (arrivals : List (Arrival Cache))
    → Started task compress c
    → Holds (λ w. Started task compress w.1) (handle_client env (state, c) arrivals)
handle_client-forwards_once env state c task compress arrivals started =
    handle_client-Holds_client (Started task compress) env state c arrivals
      (handle_message-keeps (Started task compress) env (λ c text h. h) (λ c i h. h)
        (λ c t b first h. absurd cc))
      started
