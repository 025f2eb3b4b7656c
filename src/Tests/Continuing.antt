-- ===== src/Tests/Continuing.antt =====
-- src/dispatch.rs and src/server.rs together: a client that resumes before one message and receives it.
use gateway_proxy.Prelude.{
  ℕ, ◌+◌, ◌<◌, ◌^◌, ◌≡◌, refl, sym, subst, true, false, List, ◌∷◌, length, arith,
}
use gateway_proxy.Text.{
  Text, find, get_from, get_to, get_range, starts_with, byte_len, is_whitespace, as_bytes, utf8,
  replace_range, len_utf8,
}
use gateway_proxy.Text.Number.{from_str, format}
use gateway_proxy.Deserializer.{find_sequence, find_integer}
use gateway_proxy.State.Readiness.{new, set_ready, is_ready}
use gateway_proxy.State.Waiting.{advance_at}
use gateway_proxy.Cache.{next_sequence}
use gateway_proxy.Dispatch.{text, next, round}
use gateway_proxy.Server.Client.{ForwardTask}
use gateway_proxy.Server.Forward.{resumed, renumber}
use gateway_proxy.Server.Forward.Numbering.{Sends, numbers, consecutive}
use gateway_proxy.System.{
  receiving, System, spawned, wait, send_resumed, subscribe, deliver, receive, forward_at,
  forward_step, Reachable, begins, dispatches, forwards,
}
use gateway_proxy.System.Delivery.{Reachable-resumed}
use gateway_proxy.Tests.Dispatching.{message_text}
use gateway_proxy.Tests.Forwarding as Forwarding
use gateway_proxy.Tests.Interleaving.{env, live, relayed, message_relayed, begin_Relayable}

abbrev resuming : ForwardTask
resuming = Forwarding.task false

abbrev resumes : System → System
resumes s = forward_step resuming 2 s

abbrev attached : System
attached = resumes (resumes (resumes (resumes (spawned live Forwarding.env resuming))))

attached_live : attached.task ≡ live
unfolding forward_at advance_at is_ready wait send_resumed subscribe set_ready new
attached_live = refl

attached_running : attached.running ≡ true
unfolding forward_at advance_at is_ready wait send_resumed subscribe set_ready new
attached_running = refl

abbrev continued : System
continued = resumes (record attached { task = relayed })

continued-IsReachable : Reachable resuming 2 env live Forwarding.env continued
continued-IsReachable = forwards _ (
    dispatches attached (text message_text) relayed attached_running
      (subst (λ t. round env t (text message_text) ≡ next relayed) (sym attached_live)
        message_relayed)
      (forwards _ (forwards _ (forwards _ (forwards _ begins)))))

continued_place : continued.place ≡ receiving 1
unfolding forward_at advance_at is_ready wait send_resumed subscribe set_ready new receive deliver
    renumber find_sequence find_integer from_str find get_from get_to get_range starts_with byte_len
    is_whitespace as_bytes utf8 replace_range format len_utf8 next_sequence
continued_place = refl

few_continued : 0 + length continued.received < 2 ^ 64
unfolding forward_at advance_at is_ready wait send_resumed subscribe set_ready new receive deliver
    renumber find_sequence find_integer from_str find get_from get_to get_range starts_with byte_len
    is_whitespace as_bytes utf8 replace_range format len_utf8 next_sequence
few_continued = omega arith

Reachable-resumed_example :
    (sent : List Text) × (n : ℕ) × (continued.queue ≡ resumed ∷ sent)
    × (continued.seq ≡ 0 + n)
    × Sends continued.received 0 sent
    × (numbers sent ≡ consecutive 1 n)
Reachable-resumed_example =
    Reachable-resumed resuming 2 env live Forwarding.env continued 1 begin_Relayable
      continued-IsReachable continued_place refl few_continued
