-- ===== src/Server/Sink/Reading.antt =====
-- The loop of `compress_full` of src/server.rs that reads the input.
use gateway_proxy.Prelude.{
  ℕ, zero, suc, ◌+◌, ◌-◌, ◌<◌, ◌≤◌, ◌≡◌, inl, inr, refl, sym, ap, subst, ◌∙◌, true, false, some,
  List, [], ◌∷◌, ◌++◌, length, length-append, append_assoc, append-nil, ltb, lt→ltb, ltb→lt, arith,
  Bool-cases,
}
use gateway_proxy.Server.Sink.{
  Buffer, reserve, Flush, without, ok, buf_error, Compress, trailer, ends_with, drop, finished,
  feed,
}
use gateway_proxy.Server.Sink.Deflate.{take, Stream, Step, IsDeflate}

length-drop : (n : ℕ) (xs : List ℕ) → length (drop n xs) ≡ length xs - n
length-drop zero xs = omega arith
length-drop (suc n) [] = omega arith
length-drop (suc n) (x ∷ xs) = omega (arith, length-drop n xs)

take-all : (xs : List ℕ) → take (length xs) xs ≡ xs
take-all [] = refl
take-all (x ∷ xs) = ap (λ ys. x ∷ ys) (take-all xs)

pub take-nil : (n : ℕ) → take n [] ≡ []
take-nil zero = refl
take-nil (suc n) = refl

take-drop : (m n : ℕ) (xs : List ℕ) → take m xs ++ take n (drop m xs) ≡ take (m + n) xs
take-drop zero n xs = let e : n ≡ 0 + n = omega arith in ap (λ k. take k xs) e
take-drop (suc m) n [] = take-nil n ∙ sym (take-nil (suc m + n))
take-drop (suc m) n (x ∷ xs) =
    let e : suc (m + n) ≡ suc m + n = omega arith in
    ap (λ ys. x ∷ ys) (take-drop m n xs) ∙ ap (λ k. take k (x ∷ xs)) e

pub reserve-space :
    (b : Buffer) (n : ℕ)
    → ((reserve b n).bytes ≡ b.bytes) × (length b.bytes + n ≤ (reserve b n).capacity)
unfolding reserve
reserve-space b n = (refl, ground arith)

-- `Good` is what is known of a state once the buffer ends with the trailer.
module _ (z : Compress) (deflate : IsDeflate z) (Good : z.State → Type 0)
    (marks : (s : z.State) (input : List ℕ) (b : Buffer) (f : Flush)
        (st : Step z deflate.stream s input b f)
      → ends_with trailer (b.bytes ++ st.out) ≡ true
      → Good st.next) where
  abbrev stream : Stream z
  stream = deflate.stream

  -- From `before` on, `off` bytes of the input were read, and from `already` on these.
  pub record At (before : ℕ) (already input : List ℕ) (off : ℕ) (s : z.State) (b : Buffer)
      : Type 0 where
    pub counted : z.total_in s ≡ before + off
    pub read_so_far : stream.read s ≡ already ++ take off input
    pub within : off ≤ length input
    pub is_vec : length b.bytes ≤ b.capacity
    pub fresh : off ≡ length input → stream.idle s ≡ false
    pub good : off ≡ length input → ends_with trailer b.bytes ≡ true → Good s

  -- With some fuel, the loop ends with the whole input read.
  pub record Fed (before : ℕ) (already input : List ℕ) (s : z.State) (b : Buffer) : Type 0 where
    pub fuel : ℕ
    pub next : z.State
    pub buffer : Buffer
    pub out : List ℕ
    pub ran : feed z fuel before input (s, b) ≡ finished (next, buffer)
    pub counted : z.total_in next ≡ before + length input
    pub reads : stream.read next ≡ already ++ input
    pub grown : buffer.bytes ≡ b.bytes ++ out
    pub writes : stream.written next ≡ stream.written s ++ out
    pub is_vec : length buffer.bytes ≤ buffer.capacity
    pub fresh : stream.idle next ≡ false
    pub good : ends_with trailer buffer.bytes ≡ true → Good next

  abbrev pub FeedEnds : ℕ → List ℕ → List ℕ → ℕ → Type 0
  FeedEnds before already input k =
      (off : ℕ) (s : z.State) (b : Buffer)
      → At before already input off s b
      → stream.bound s (length input - off) ≤ k
      → Fed before already input s b

  feed-all :
      (before : ℕ) (already input : List ℕ) (s : z.State) (b : Buffer)
      → At before already input (length input) s b
      → Fed before already input s b
  unfolding feed
  feed-all before already input s b at = record {
    fuel = 1;
    next = s;
    buffer = b;
    out = [];
    ran = ground (arith, at.counted);
    counted = at.counted;
    reads = at.read_so_far ∙ ap (λ l. already ++ l) (take-all input);
    grown = sym (append-nil b.bytes);
    writes = sym (append-nil (stream.written s));
    is_vec = at.is_vec;
    fresh = at.fresh refl;
    good = at.good refl;
  }

  feed-ok :
      (fuel before : ℕ) (input : List ℕ) (off : ℕ) (s s' : z.State) (b b' : Buffer)
      → z.total_in s ≡ before + off
      → off < length input
      → z.compress_vec s (drop off input) b without ≡ some (ok, s', b')
      → feed z (suc fuel) before input (s, b) ≡ feed z fuel before input (s', b')
  unfolding feed
  feed-ok fuel before input off s s' b b' counted below call =
      let offset : z.total_in s - before ≡ off = omega (arith, counted) in
      rw (offset, lt→ltb off (length input) below) (rw call refl)

  feed-buf_error :
      (fuel before : ℕ) (input : List ℕ) (off : ℕ) (s s' : z.State) (b b' : Buffer)
      → z.total_in s ≡ before + off
      → off < length input
      → z.compress_vec s (drop off input) b without ≡ some (buf_error, s', b')
      → feed z (suc fuel) before input (s, b) ≡ feed z fuel before input (s', reserve b' 4096)
  unfolding feed
  feed-buf_error fuel before input off s s' b b' counted below call =
      let offset : z.total_in s - before ≡ off = omega (arith, counted) in
      rw (offset, lt→ltb off (length input) below) (rw call refl)

  -- One turn before a loop that ends.
  Fed-turn :
      (before : ℕ) (already input : List ℕ) (s s' : z.State) (b b' : Buffer) (out : List ℕ)
      → ((fuel : ℕ) → feed z (suc fuel) before input (s, b) ≡ feed z fuel before input (s', b'))
      → b'.bytes ≡ b.bytes ++ out
      → stream.written s' ≡ stream.written s ++ out
      → Fed before already input s' b'
      → Fed before already input s b
  Fed-turn before already input s s' b b' out turn grown wrote fed = record {
    fuel = suc fed.fuel;
    next = fed.next;
    buffer = fed.buffer;
    counted = fed.counted;
    reads = fed.reads;
    is_vec = fed.is_vec;
    fresh = fed.fresh;
    good = fed.good;
    out = out ++ fed.out;
    ran = turn fed.fuel ∙ fed.ran;
    grown = fed.grown ∙ ap (λ l. l ++ fed.out) grown ∙ append_assoc b.bytes out fed.out;
    writes =
        fed.writes ∙ ap (λ l. l ++ fed.out) wrote ∙ append_assoc (stream.written s) out fed.out;
  }

  feed-space :
      (before : ℕ) (already input : List ℕ) (k off : ℕ) (s : z.State) (b : Buffer)
      → ((j : ℕ) → suc j ≡ k → FeedEnds before already input j)
      → At before already input off s b
      → off < length input
      → length b.bytes < b.capacity
      → stream.bound s (length input - off) ≤ k
      → Fed before already input s b
  feed-space before already input k off s b rec at below space bounded =
      let len = length-drop off input in
      let st = deflate.feeds s (drop off input) b (omega (arith, len, below)) space in
      let b' : Buffer = record b { bytes = b.bytes ++ st.out } in
      let there : (off' : ℕ) → off' ≡ off + st.taken → At before already input off' st.next b' =
        λ off' is. record {
          counted = omega (arith, st.counts, at.counted, is);
          read_so_far =
              st.reads
              ∙ ap (λ l. l ++ take st.taken (drop off input)) at.read_so_far
              ∙ append_assoc already (take off input) (take st.taken (drop off input))
              ∙ ap (λ l. already ++ l) (take-drop off st.taken input)
              ∙ ap (λ n. already ++ take n input) (sym is);
          within = omega (arith, st.taken_at_most, len, below, is);
          is_vec = omega (arith, st.fits, length-append b.bytes st.out);
          fresh = λ _. st.stays refl;
          good = λ _ ended. marks s (drop off input) b without st ended;
        } in
      Fed-turn before already input s st.next b b' st.out
        (λ fuel. feed-ok fuel before input off s st.next b b' at.counted below st.call) refl
        st.writes
        (elim st.goes_on [
          | inl done ↦
              feed-all before already input st.next b'
                (there (length input) (omega (arith, done, len, below)))
          | inr (filled, _, less) ↦
              let same : stream.bound s (length (drop off input))
                  ≡ stream.bound s (length input - off) =
                ap (stream.bound s) len in
              let left : stream.bound st.next (length input - (off + st.taken))
                  ≡ stream.bound st.next (length (drop off input) - st.taken) =
                ap (stream.bound st.next) (omega (arith, len)) in
              rec (k - 1) (omega (arith, filled, less, bounded, same, space)) (off + st.taken)
                st.next b' (there (off + st.taken) refl)
                (omega (arith, left, less, bounded, same, filled, space))
        ])

  feed-any :
      (before : ℕ) (already input : List ℕ) (k : ℕ)
      → ((j : ℕ) → suc j ≡ k → FeedEnds before already input j)
      → FeedEnds before already input k
  feed-any before already input k rec off s b at bounded =
      elim (Bool-cases (ltb off (length input))) [
        | inr end ↦
            let all : off ≡ length input = ground (arith, at.within, lt→ltb off (length input)) in
            feed-all before already input s b (subst (λ o. At before already input o s b) all at)
        | inl below ↦ elim (Bool-cases (ltb (length b.bytes) b.capacity)) [
          | inl space ↦
              feed-space before already input k off s b rec at (ltb→lt off (length input) below)
                (ltb→lt (length b.bytes) b.capacity space) bounded
          | inr no_space ↦
              let filled : length b.bytes ≡ b.capacity =
                ground (arith, at.is_vec, lt→ltb (length b.bytes) b.capacity) in
              let room = reserve-space b 4096 in
              let inside = ltb→lt off (length input) below in
              Fed-turn before already input s s b (reserve b 4096) []
                (λ fuel.
                  feed-buf_error fuel before input off s s b b at.counted inside
                    (deflate.full s (drop off input) b filled))
                (room.0 ∙ sym (append-nil b.bytes)) (sym (append-nil (stream.written s)))
                (feed-space before already input k off s (reserve b 4096) rec
                  (record {
                    counted = at.counted;
                    read_so_far = at.read_so_far;
                    within = at.within;
                    is_vec = omega (arith, room.1, ap length room.0);
                    fresh = at.fresh;
                    good = λ end. absurd (omega (arith, end, inside));
                  })
                  inside (omega (arith, room.1, ap length room.0)) bounded)
        ]
      ]

  pub feed-ends : (before : ℕ) (already input : List ℕ) (k : ℕ) → FeedEnds before already input k
  feed-ends before already input zero =
      feed-any before already input zero (λ j e. absurd (omega (arith, e)))
  feed-ends before already input (suc k) =
      let rec = feed-ends before already input k in
      feed-any before already input (suc k)
        (λ j e. subst (FeedEnds before already input) (omega (arith, e)) rec)
