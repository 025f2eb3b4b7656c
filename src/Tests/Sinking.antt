-- ===== src/Tests/Sinking.antt =====
-- src/server.rs, `sink_from_queue`: runs over a compressor that adds 256 to each byte.
use gateway_proxy.Prelude.{
  ℕ, zero, suc, ◌+◌, ◌-◌, ◌≤◌, ◌<◌, ◌≡◌, refl, ap, ◌∙◌, Bool, true, false, some, List, [], ◌∷◌,
  ◌++◌, map, length, ltb, lt→ltb, le→ltb, arith, if◌then◌else◌, inl, inr, append-nil, length-append,
  Bool-cases,
}
use gateway_proxy.Server.Sink.{
  Buffer, reserve, without, sync, ok, buf_error, Compress, finished, trailer, ends_with, feed,
  flush, compress_full, Frame, text, binary, hello, send, send_queue, sink_from_queue,
}
use gateway_proxy.Server.Sink.Deflate.{take, Stream, Step, IsDeflate}

-- All that was written, and whether a sync flush is complete and nothing was read since.
record State : Type 0 where
  written : List ℕ
  idle : Bool

abbrev shift : List ℕ → List ℕ
shift bytes = map (λ x. x + 256) bytes

-- It skips the trailers.
abbrev inflate : List ℕ → List ℕ
inflate [] = []
inflate (x ∷ xs) = let rest = inflate xs in if ltb x 256 then rest else (x - 256) ∷ rest

-- As much of the input as fits.
abbrev amount : List ℕ → Buffer → ℕ
amount input b =
    let space = b.capacity - length b.bytes in
    if ltb (length input) space then length input else space

abbrev fed : State → List ℕ → Buffer → State
fed s input b = record { written = s.written ++ shift (take (amount input b) input); idle = false }

abbrev flushed : State → Buffer → State
flushed s b = record { written = s.written ++ trailer; idle = ltb (length b.bytes + 4) b.capacity }

abbrev shifting : Compress
shifting = record {
  State = State;
  start = record { written = []; idle = false };
  total_in = λ s. length (inflate s.written);
  compress_vec = λ s input b f. elim f [
    | without ↦
        if ltb (length b.bytes) b.capacity
        then some
            (ok, fed s input b, record b { bytes = b.bytes ++ shift (take (amount input b) input) })
        else some (buf_error, s, b)
    | sync ↦
        if s.idle
        then some (buf_error, s, b)
        else some (ok, flushed s b, record b { bytes = b.bytes ++ trailer })
  ];
}

inflate-append : (xs ys : List ℕ) → inflate (xs ++ ys) ≡ inflate xs ++ inflate ys
inflate-append [] ys = refl
inflate-append (x ∷ xs) ys = elim (Bool-cases (ltb x 256)) [
  | inl low ↦ rw low (inflate-append xs ys)
  | inr high ↦ rw high (ap (λ l. (x - 256) ∷ l) (inflate-append xs ys))
]

inflate-shift : (xs : List ℕ) → inflate (shift xs) ≡ xs
inflate-shift [] = refl
inflate-shift (x ∷ xs) =
    let high = le→ltb (x + 256) 256 (omega arith) in
    let same : x + 256 - 256 ≡ x = omega arith in rw (high, same, inflate-shift xs) refl

length-shift : (n : ℕ) (xs : List ℕ) → n ≤ length xs → length (shift (take n xs)) ≡ n
length-shift zero xs h = refl
length-shift (suc n) [] h = absurd (omega (arith, h))
length-shift (suc n) (x ∷ xs) h = omega (arith, length-shift n xs (omega (arith, h)))

length-take : (n : ℕ) (xs : List ℕ) → n ≤ length xs → length (take n xs) ≡ n
length-take zero xs h = refl
length-take (suc n) [] h = absurd (omega (arith, h))
length-take (suc n) (x ∷ xs) h = omega (arith, length-take n xs (omega (arith, h)))

none_more : (xs : List ℕ) → length xs ≡ length xs + 0
none_more xs = omega arith

ends_with-append :
    (suffix xs : List ℕ) → ends_with suffix suffix ≡ true → ends_with suffix (xs ++ suffix) ≡ true
unfolding ends_with
ends_with-append suffix [] h = h
ends_with-append suffix (x ∷ xs) h = ground (arith, ends_with-append suffix xs h)

trailer_itself : ends_with trailer trailer ≡ true
unfolding ends_with
trailer_itself = refl

abbrev stream : Stream shifting
stream = record {
  bound = λ s n. n;
  idle = λ s. s.idle;
  read = λ s. inflate s.written;
  written = λ s. s.written;
}

shifting-feeds :
    (s : State) (input : List ℕ) (b : Buffer)
    → 0 < length input
    → length b.bytes < b.capacity
    → Step shifting stream s input b without
shifting-feeds s input b some_input space =
    let n = amount input b in
    let n_is : (n ≤ length input) × (n ≤ b.capacity - length b.bytes) =
      (ground arith, ground arith) in
    let len = length-shift n input n_is.0 in
    let read : inflate (s.written ++ shift (take n input)) ≡ inflate s.written ++ take n input =
      inflate-append s.written (shift (take n input))
      ∙ ap (λ l. inflate s.written ++ l) (inflate-shift (take n input)) in
    record {
      next = fed s input b;
      out = shift (take n input);
      taken = n;
      call = rw (lt→ltb (length b.bytes) b.capacity space) refl;
      fits = omega (arith, len, n_is.1, space);
      taken_at_most = n_is.0;
      counts =
          ap length read
          ∙ length-append (inflate s.written) (take n input)
          ∙ ap (λ k. length (inflate s.written) + k) (length-take n input n_is.0);
      reads = read;
      writes = refl;
      settles = λ e _. absurd cc;
      stays = λ _. refl;
      goes_on = elim (Bool-cases (ltb (length input) (b.capacity - length b.bytes))) [
        | inl all ↦ inl (rw all refl)
        | inr part ↦
            let all_space : n ≡ b.capacity - length b.bytes = ground arith in
            inr (omega (arith, len, all_space, space), refl, omega (arith, len, n_is.0))
      ];
    }

shifting-flushes :
    (s : State) (b : Buffer)
    → s.idle ≡ false
    → length b.bytes + 5 ≤ b.capacity
    → Step shifting stream s [] b sync
shifting-flushes s b fresh space = record {
  next = flushed s b;
  out = trailer;
  taken = 0;
  call = rw fresh refl;
  fits = omega (arith, space);
  taken_at_most = omega arith;
  counts =
      ap length (inflate-append s.written trailer)
      ∙ ap length (append-nil (inflate s.written))
      ∙ none_more (inflate s.written);
  reads = inflate-append s.written trailer;
  writes = refl;
  settles = λ _ below. lt→ltb (length b.bytes + 4) b.capacity (omega (arith, space));
  stays = λ e. absurd cc;
  goes_on = inl (ends_with-append trailer b.bytes trailer_itself);
}

abbrev shifting_deflate : IsDeflate shifting
shifting_deflate = record {
  stream = stream;
  starts = (refl, refl);
  full = λ s input b filled. rw (le→ltb (length b.bytes) b.capacity (omega (arith, filled))) refl;
  feeds = shifting-feeds;
  flushes = shifting-flushes;
  repeats = λ s b idle space. rw idle refl;
}

abbrev messages : List Frame
messages = text (1 ∷ 2 ∷ []) ∷ text (3 ∷ []) ∷ []

-- A client that asks for compression in its IDENTIFY gets a HELLO in the clear.
sink_from_queue-identify :
    sink_from_queue shifting (λ i. true) (λ i. (5, 5)) false (some (some true)) messages
    ≡ finished (text hello ∷ binary (257 ∷ 258 ∷ trailer) ∷ binary (259 ∷ trailer) ∷ [])
unfolding sink_from_queue send_queue send compress_full feed flush ends_with reserve
sink_from_queue-identify = refl
