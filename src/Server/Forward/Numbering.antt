-- ===== src/Server/Forward/Numbering.antt =====
-- The sequence numbers that one client sees.
use gateway_proxy.Prelude.{
  ℕ, zero, suc, ◌+◌, ◌^◌, ◌<◌, ◌≡◌, refl, sym, ◌∙◌, ap, Option, none, some, List, [], ◌∷◌, ◌++◌,
  arith, length, All, filter_map, filter_map-drop, filter_map-keep,
}
use gateway_proxy.Text.{Text}
use gateway_proxy.Text.Number.{format}
use gateway_proxy.Deserializer.{SequenceInfo, find_sequence}
use gateway_proxy.Deserializer.Rewrite.{rewrite_sequence}
use gateway_proxy.Cache.Payloads.{next_sequence-below}
use gateway_proxy.Server.Forward.{Received, ok, lagged, closed, renumber, forward}

-- A broadcast message comes with the sequence number that is found in it.
abbrev pub Found : Received → Type 0
Found (ok m) = m.1 ≡ find_sequence m.0
Found (lagged amt) = Unit
Found closed = Unit

abbrev pub seq_of : Option SequenceInfo → Option ℕ
seq_of none = none
seq_of (some info) = some info.seq

-- The sequence numbers in the payloads that have one.
abbrev pub numbers : List Text → List ℕ
numbers payloads = filter_map (λ payload. seq_of (find_sequence payload)) payloads

abbrev pub consecutive : ℕ → ℕ → List ℕ
consecutive first zero = []
consecutive first (suc n) = first ∷ consecutive (first + 1) n

-- `sent` is the payload, but for its sequence number, which is `seq` in `sent`.
pub record IsRenumbered (payload : Text) (info : SequenceInfo) (seq : ℕ) (sent : Text)
    : Type 0 where
  pub before : Text
  pub old : Text
  pub after : Text
  pub payload_is : payload ≡ before ++ (old ++ after)
  pub sent_is : sent ≡ before ++ (format seq ++ after)
  pub read : seq_of (find_sequence sent) ≡ some seq

-- Behind the number `seq`, the payloads are sent in order: those without a number as they are, the
-- others with the next number.
abbrev pub Sends : List Received → ℕ → List Text → Type 0
Sends [] seq sent = sent ≡ []
Sends (ok (payload, none) ∷ received) seq sent =
    (rest : List Text) × (sent ≡ payload ∷ rest) × Sends received seq rest
Sends (ok (payload, some info) ∷ received) seq sent =
    (new : Text) × (rest : List Text) × (sent ≡ new ∷ rest)
    × IsRenumbered payload info (seq + 1) new
    × Sends received (seq + 1) rest
Sends (lagged amt ∷ received) seq sent = Sends received seq sent
Sends (closed ∷ received) seq sent = Sends received seq sent

renumber-IsRenumbered :
    (payload : Text) (info : SequenceInfo) (seq : ℕ)
    → some info ≡ find_sequence payload
    → seq + 1 < 2 ^ 64
    → (new : Text) × (renumber (payload, some info) seq ≡ some (new, seq + 1))
      × IsRenumbered payload info (seq + 1) new
unfolding renumber
renumber-IsRenumbered payload info seq found h =
    let (before, old, after, split, _, _, replaced, read) =
      rewrite_sequence payload info (seq + 1) (sym found) h in
    (
      before ++ (format (seq + 1) ++ after),
      rw (next_sequence-below seq h, replaced) refl,
      record {
        before = before;
        old = old;
        after = after;
        payload_is = split;
        sent_is = refl;
        read = rw read refl;
      },
    )

-- While the numbers stay below 2 ^ 64, no message that comes with the number found in it makes the
-- task panic; each is sent once, in order, changed in its number only, and the numbers that the client
-- reads are consecutive, whatever numbers the shard had for them.
pub forward-Sends :
    (received : List Received) (seq : ℕ)
    → All Found received
    → seq + length received < 2 ^ 64
    → (sent : List Text) × (n : ℕ) × (forward received seq ≡ some (sent, seq + n))
      × Sends received seq sent
      × (numbers sent ≡ consecutive (seq + 1) n)
unfolding forward renumber
forward-Sends [] seq found h = ([], 0, ground arith, refl, unfold filter_map in refl)
forward-Sends (ok (payload, none) ∷ received) seq found h =
    let (sent, n, ran, sends, read) = forward-Sends received seq found.1 (omega (arith, h)) in
    (
      payload ∷ sent,
      n,
      rw ran refl,
      (sent, refl, sends),
      filter_map-drop (λ p. seq_of (find_sequence p)) sent (ap seq_of (sym found.0)) ∙ read,
    )
forward-Sends (ok (payload, some info) ∷ received) seq found h =
    let (new, renumbered, changed) =
      renumber-IsRenumbered payload info seq found.0 (omega (arith, h)) in
    let (sent, n, ran, sends, read) = forward-Sends received (seq + 1) found.1 (omega (arith, h)) in
    (
      new ∷ sent,
      suc n,
      rw renumbered (rw ran (ground arith)),
      (new, sent, refl, changed, sends),
      filter_map-keep (λ p. seq_of (find_sequence p)) sent changed.read
          ∙ ap (λ ns. (seq + 1) ∷ ns) read,
    )
forward-Sends (lagged amt ∷ received) seq found h =
    forward-Sends received seq found.1 (omega (arith, h))
forward-Sends (closed ∷ received) seq found h =
    forward-Sends received seq found.1 (omega (arith, h))
