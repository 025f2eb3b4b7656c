-- ===== src/Server/Sink.antt =====
-- `sink_from_queue` and `compress_full` of src/server.rs: what a client is sent, and how it is
-- compressed.
pub mod Deflate
pub mod Reading
pub mod Compressing
pub mod Frames
use gateway_proxy.Prelude.{
  ℕ, zero, suc, ◌+◌, ◌-◌, ◌*◌, ◌<◌, ◌≤◌, ◌≡◌, ◌⊎◌, Bool, true, false, not, Option, none, some, List,
  [], ◌∷◌, ◌++◌, if◌then◌else◌, length, ltb, ◌==◌, ◌&&◌,
}
use gateway_proxy.Text.{Text, codes, as_bytes}

-- A `Vec<u8>` with its capacity.
pub record Buffer : Type 0 where
  pub bytes : List ℕ
  pub capacity : ℕ

-- `Vec::reserve`, with the least capacity that it promises.
unfoldable pub reserve : Buffer → ℕ → Buffer
reserve b n = record b {
  capacity = if ltb b.capacity (length b.bytes + n) then length b.bytes + n else b.capacity;
}

pub data Flush : Type 0 where
  without sync : Flush

pub data Status : Type 0 where
  ok buf_error stream_end : Status

-- The compressor of the library; `none` is a `CompressError`.
pub record Compress : Type 1 where
  pub State : Type 0
  pub start : State
  pub total_in : State → ℕ
  pub compress_vec : State → List ℕ → Buffer → Flush → Option (Status × State × Buffer)

abbrev pub trailer : List ℕ
trailer = 0 ∷ 0 ∷ 255 ∷ 255 ∷ []

abbrev pub bytes_eq : List ℕ → List ℕ → Bool
bytes_eq [] [] = true
bytes_eq [] (y ∷ ys) = false
bytes_eq (x ∷ xs) [] = false
bytes_eq (x ∷ xs) (y ∷ ys) = x == y && bytes_eq xs ys

-- `slice::ends_with`.
unfoldable pub ends_with : List ℕ → List ℕ → Bool
ends_with suffix [] = bytes_eq [] suffix
ends_with suffix (x ∷ xs) =
    let later = ends_with suffix xs in if bytes_eq (x ∷ xs) suffix then true else later

-- `&input[n..]`.
abbrev pub drop : ℕ → List ℕ → List ℕ
drop zero xs = xs
drop (suc n) [] = []
drop (suc n) (x ∷ xs) = drop n xs

-- A loop that has ended, a panic of `unwrap`, or a loop that needs more fuel.
pub data Run (A : Type 0) : Type 0 where
  finished : A → Run A
  panic more : Run A

module _ (z : Compress) where
  -- The loop over the input; `before_in` is what was read before.
  unfoldable pub feed : ℕ → ℕ → List ℕ → z.State × Buffer → Run (z.State × Buffer)
  feed zero before_in input w = more
  feed (suc fuel) before_in input (s, b) =
      let offset = z.total_in s - before_in in
      if ltb offset (length input)
      then elim (z.compress_vec s (drop offset input) b without) [
        | none ↦ panic
        | some (status, s', b') ↦ elim status [
          | ok ↦ feed fuel before_in input (s', b')
          | buf_error ↦ feed fuel before_in input (s', reserve b' 4096)
          | stream_end ↦ finished (s', b')
        ]
      ]
      else finished (s, b)

  -- The loop that flushes.
  unfoldable pub flush : ℕ → z.State × Buffer → Run (z.State × Buffer)
  flush zero w = more
  flush (suc fuel) (s, b) =
      if not (ends_with trailer b.bytes)
      then elim (z.compress_vec s [] (reserve b 5) sync) [
        | none ↦ panic
        | some (status, s', b') ↦ elim status [
          | ok ↦ flush fuel (s', b')
          | buf_error ↦ flush fuel (s', b')
          | stream_end ↦ finished (s', b')
        ]
      ]
      else finished (s, b)

  -- `fuel_in` and `fuel_out` are the fuel of the two loops.
  unfoldable pub compress_full : ℕ → ℕ → z.State × Buffer → List ℕ → Run (z.State × Buffer)
  compress_full fuel_in fuel_out (s, b) input = elim (feed fuel_in (z.total_in s) input (s, b)) [
    | finished w ↦ flush fuel_out w
    | panic ↦ panic
    | more ↦ more
  ]

-- A message of the websocket.
pub data Frame : Type 0 where
  text binary : List ℕ → Frame

abbrev pub into_payload : Frame → List ℕ
into_payload (text bytes) = bytes
into_payload (binary bytes) = bytes

abbrev pub hello : List ℕ
hello = as_bytes (codes "{\"t\":null,\"s\":null,\"op\":10,\"d\":{\"heartbeat_interval\":41250}}")

-- `sink.send(frame).await?`, then `rest`; `accepted` says whether the sink takes the frame.
unfoldable pub send : Bool → Frame → Run (List Frame) → Run (List Frame)
send false frame rest = finished []
send true frame (finished frames) = finished (frame ∷ frames)
send true frame panic = panic
send true frame more = more

abbrev pub compression_buffer : Buffer
compression_buffer = record { bytes = []; capacity = 32 * 1024 }

-- `compress_rx.await == Ok(Some(true))`; `none` is the error.
abbrev pub is_requested : Option (Option Bool) → Bool
is_requested (some (some true)) = true
is_requested _ = false

module _ (z : Compress) where
  -- The loop over the queue, until the queue is closed. `accepts` says which frames the sink takes, and
  -- `fuels` has the fuel of each compression.
  unfoldable pub send_queue :
      (ℕ → Bool) → (ℕ → ℕ × ℕ) → Bool → z.State × Buffer → List Frame → Run (List Frame)
  send_queue accepts fuels use_zlib w [] = finished []
  send_queue accepts fuels false w (msg ∷ msgs) =
      send (accepts 0) msg (send_queue (λ i. accepts (suc i)) fuels false w msgs)
  send_queue accepts fuels true (s, b) (msg ∷ msgs) =
      elim (compress_full z (fuels 0).0 (fuels 0).1 (s, record b { bytes = [] })
        (into_payload msg)) [
          | finished (s', b') ↦
              send (accepts 0) (binary b'.bytes)
                (send_queue (λ i. accepts (suc i)) (λ i. fuels (suc i)) true (s', b') msgs)
          | panic ↦ panic
          | more ↦ more
        ]

  -- Everything that a client is sent.
  unfoldable pub sink_from_queue :
      (ℕ → Bool) → (ℕ → ℕ × ℕ) → Bool → Option (Option Bool) → List Frame → Run (List Frame)
  sink_from_queue accepts fuels false compress_rx msgs = send (accepts 0) (text hello) (
      send_queue (λ i. accepts (suc i)) fuels (is_requested compress_rx)
        (z.start, compression_buffer) msgs)
  sink_from_queue accepts fuels true compress_rx msgs =
      elim (compress_full z (fuels 0).0 (fuels 0).1 (z.start, compression_buffer) hello) [
        | finished (s, b) ↦
            send (accepts 0) (binary b.bytes)
              (send_queue (λ i. accepts (suc i)) (λ i. fuels (suc i)) true (s, b) msgs)
        | panic ↦ panic
        | more ↦ more
      ]
