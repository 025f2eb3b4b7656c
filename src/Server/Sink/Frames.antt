-- ===== src/Server/Sink/Frames.antt =====
-- What a client is sent by `sink_from_queue`.
use gateway_proxy.Prelude.{ℕ, zero, suc, ◌<◌, ◌≡◌, ◌++◌, length, Bool, true, false, List, [], ◌∷◌}
use gateway_proxy.Server.Sink.{trailer, ends_with, Frame, text, binary, into_payload, hello}

-- The frames that are sent for the messages where the client gets them compressed, after `sent` for what
-- was `meant`: for each message one binary frame that ends with the trailer, such that all that was sent
-- so far inflates to all that was meant so far.
abbrev pub Deflated : (List ℕ → List ℕ) → List ℕ → List ℕ → List Frame → List Frame → Type 0
Deflated inflate sent meant [] frames = frames ≡ []
Deflated inflate sent meant (msg ∷ msgs) frames =
    (bytes : List ℕ) × (rest : List Frame) × (frames ≡ binary bytes ∷ rest)
    × (ends_with trailer bytes ≡ true)
    × (inflate (sent ++ bytes) ≡ meant ++ into_payload msg)
    × Deflated inflate (sent ++ bytes) (meant ++ into_payload msg) msgs rest

-- The frames that are sent for the HELLO and the messages: the HELLO compressed if the query asks for it;
-- the messages themselves, or compressed if the query or the IDENTIFY does.
abbrev pub Delivered : (List ℕ → List ℕ) → Bool → Bool → List Frame → List Frame → Type 0
Delivered inflate true requested msgs frames = Deflated inflate [] [] (text hello ∷ msgs) frames
Delivered inflate false true msgs frames =
    (rest : List Frame) × (frames ≡ text hello ∷ rest) × Deflated inflate [] [] msgs rest
Delivered inflate false false msgs frames = frames ≡ text hello ∷ msgs

-- A message with a payload.
abbrev pub HasPayload : Frame → Type 0
HasPayload msg = 0 < length (into_payload msg)

abbrev with_first : ℕ × ℕ → (ℕ → ℕ × ℕ) → ℕ → ℕ × ℕ
with_first fuel fuels zero = fuel
with_first fuel fuels (suc i) = fuels i
