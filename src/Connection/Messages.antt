-- ===== src/Connection/Messages.antt =====
-- What one message does to the client's own part of a connection.
use gateway_proxy.Prelude.{
  ℕ, ◌≡◌, refl, sym, ap, ◌∙◌, Bool, Option, true, some, List, [], ◌∷◌, ◌++◌, append-nil,
  append_assoc,
}
use gateway_proxy.Text.{Text}
use gateway_proxy.Cache.Records.{InMemoryCache}
use gateway_proxy.Server.Client.{
  Client, Env, World, Message, ForwardTask, write, spawn_forward, handle_message,
}
use gateway_proxy.Server.Client.Outcomes.{Holds}
use gateway_proxy.Server.Client.Once.{Phase, waiting, forwarding, Started, handle_message-keeps}
use gateway_proxy.Connection.{added}

-- A log that has only grown.
abbrev pub Extends : List Text → List Text → Type 0
Extends before after = (new : List Text) × (after ≡ before ++ new)

pub added-append : (before new : List Text) → added before (before ++ new) ≡ new
unfolding added
added-append [] new = refl
added-append (x ∷ before) new = added-append before new

pub Extends-append :
    (before after texts : List Text) → Extends before after → Extends before (after ++ texts)
Extends-append before after texts (new, e) =
    (new ++ texts, ap (λ l. l ++ texts) e ∙ append_assoc before new texts)

pub Extends-refl : (texts : List Text) → Extends texts texts
Extends-refl texts = ([], sym (append-nil texts))

-- The client has only sent more; if it gets events it gets the same ones, and what it has not asked for
-- it has not asked for before.
pub record Continues (c c' : Client) : Type 0 where
  pub phase : Phase c'
  pub outbox : Extends c.outbox c'.outbox
  pub pending : c'.compress_tx ≡ true → c.compress_tx ≡ true
  pub same :
      (task : ForwardTask) (compress : Option Bool)
      → Started task compress c
      → Started task compress c'

spawn-Continues :
    (c c' : Client) (task : ForwardTask) (compress : Option Bool)
    → c'.compress_tx ≡ true
    → Continues c c'
    → Continues c (spawn_forward c' task compress)
unfolding spawn_forward
spawn-Continues c c' task compress first h = record {
  phase = forwarding task compress refl refl refl;
  outbox = h.outbox;
  pending = λ e. absurd cc;
  same = λ t b started. absurd (cc ((h.same t b started).0));
}

write-Continues : (c c' : Client) (text : Text) → Continues c c' → Continues c (write c' text)
write-Continues c c' text h = record {
  phase = go h.phase;
  outbox = Extends-append c.outbox c'.outbox (text ∷ []) h.outbox;
  pending = h.pending;
  same = h.same;
}
  where
    go : Phase c' → Phase (write c' text)
    go (waiting e f g) = waiting e f g
    go (forwarding t b e f g) = forwarding t b e f g

sender-Continues :
    (c c' : Client) (i : ℕ) → Continues c c' → Continues c (record c' { shard_sender = some i })
sender-Continues c c' i h = record {
  phase = go h.phase;
  outbox = h.outbox;
  pending = h.pending;
  same = h.same;
}
  where
    go : Phase c' → Phase (record c' { shard_sender = some i })
    go (waiting e f g) = waiting e f g
    go (forwarding t b e f g) = forwarding t b e f g

pub handle_message-Continues :
    (env : Env) (sample : ℕ → ℕ) (w : World InMemoryCache) (msg : Message)
    → Phase w.1
    → Holds (λ w'. Continues w.1 w'.1) (handle_message env sample w msg)
handle_message-Continues env sample (state, c) msg phase =
    handle_message-keeps (Continues c) env (write-Continues c) (sender-Continues c)
      (spawn-Continues c) sample (state, c) msg
      (record {
        phase = phase;
        outbox = Extends-refl c.outbox;
        pending = λ e. e;
        same = λ t b h. h;
      })
