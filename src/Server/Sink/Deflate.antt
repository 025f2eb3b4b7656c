-- ===== src/Server/Sink/Deflate.antt =====
-- What the compressor of the library does, after zlib's documentation (src/server.rs, `compress_full`).
use gateway_proxy.Prelude.{
  ℕ, zero, suc, ◌+◌, ◌-◌, ◌<◌, ◌≤◌, ◌≡◌, ◌⊎◌, Bool, true, false, some, List, [], ◌∷◌, ◌++◌, length,
}
use gateway_proxy.Server.Sink.{
  Buffer, Flush, without, sync, ok, buf_error, Compress, trailer, ends_with,
}

-- `&input[..n]`.
abbrev pub take : ℕ → List ℕ → List ℕ
take zero xs = []
take (suc n) [] = []
take (suc n) (x ∷ xs) = x ∷ take n xs

-- The call has done what the flush asks for.
abbrev pub IsDone : Flush → List ℕ → ℕ → List ℕ → Type 0
IsDone without input read bytes = read ≡ length input
IsDone sync input read bytes = ends_with trailer bytes ≡ true

-- What can be said of the state of the compressor: the most that is still to be written, of what was read
-- and so many bytes more; whether a sync flush is complete and nothing was read since; and all that was
-- read and written so far.
pub record Stream (z : Compress) : Type 0 where
  pub bound : z.State → ℕ → ℕ
  pub idle : z.State → Bool
  pub read : z.State → List ℕ
  pub written : z.State → List ℕ

-- A call with space in the buffer: it writes `out` and reads a part of the input, until it is done or the
-- buffer is full. A sync flush is complete where it has left space.
pub record Step (z : Compress) (stream : Stream z) (s : z.State) (input : List ℕ) (b : Buffer)
    (f : Flush) : Type 0 where
  pub next : z.State
  pub out : List ℕ
  pub taken : ℕ
  pub call : z.compress_vec s input b f ≡ some (ok, next, record b { bytes = b.bytes ++ out })
  pub fits : length b.bytes + length out ≤ b.capacity
  pub taken_at_most : taken ≤ length input
  pub counts : z.total_in next ≡ z.total_in s + taken
  pub reads : stream.read next ≡ stream.read s ++ take taken input
  pub writes : stream.written next ≡ stream.written s ++ out
  pub settles : f ≡ sync → length b.bytes + length out < b.capacity → stream.idle next ≡ true
  pub stays : f ≡ without → stream.idle next ≡ false
  pub goes_on :
      IsDone f input taken (b.bytes ++ out)
      ⊎ ((length b.bytes + length out ≡ b.capacity)
          × (stream.idle next ≡ false)
          × (length out + stream.bound next (length input - taken) ≤ stream.bound s (length input)))

-- What zlib documents of a stream that is never finished: a call without space makes no progress, and so
-- does a sync flush that repeats a complete one without input between them.
pub record IsDeflate (z : Compress) : Type 0 where
  pub stream : Stream z
  pub starts : (stream.read z.start ≡ []) × (stream.written z.start ≡ [])
  pub full :
      (s : z.State) (input : List ℕ) (b : Buffer)
      → length b.bytes ≡ b.capacity
      → z.compress_vec s input b without ≡ some (buf_error, s, b)
  pub feeds :
      (s : z.State) (input : List ℕ) (b : Buffer)
      → 0 < length input
      → length b.bytes < b.capacity
      → Step z stream s input b without
  pub flushes :
      (s : z.State) (b : Buffer)
      → stream.idle s ≡ false
      → length b.bytes + 5 ≤ b.capacity
      → Step z stream s [] b sync
  pub repeats :
      (s : z.State) (b : Buffer)
      → stream.idle s ≡ true
      → length b.bytes + 5 ≤ b.capacity
      → z.compress_vec s [] b sync ≡ some (buf_error, s, b)
