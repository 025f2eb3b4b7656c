-- ===== src/Server/Sink/Compressing.antt =====
-- Where `compress_full` ends, with the trailer at the end of the buffer, and where it does not.
use gateway_proxy.Prelude.{
  ℕ, zero, suc, ◌+◌, ◌-◌, ◌<◌, ◌≤◌, ◌≡◌, inl, inr, refl, sym, ap, ◌∙◌, true, false, some, List, [],
  ◌++◌, length, append_assoc, append-nil, arith, Bool-cases,
}
use gateway_proxy.Server.Sink.{
  Buffer, reserve, Flush, sync, ok, Compress, trailer, ends_with, finished, flush, compress_full,
}
use gateway_proxy.Server.Sink.Deflate.{Stream, Step, IsDeflate}
use gateway_proxy.Server.Sink.Reading.{feed-ends, reserve-space, take-nil}

module _ (z : Compress) (deflate : IsDeflate z) (Good : z.State → Type 0)
    (marks : (s : z.State) (input : List ℕ) (b : Buffer) (f : Flush)
        (st : Step z deflate.stream s input b f)
      → ends_with trailer (b.bytes ++ st.out) ≡ true
      → Good st.next) where
  abbrev stream : Stream z
  stream = deflate.stream

  -- With some fuel, the loop that flushes ends with the trailer at the end of the buffer.
  record Flushed (s : z.State) (b : Buffer) : Type 0 where
    pub fuel : ℕ
    pub next : z.State
    pub buffer : Buffer
    pub out : List ℕ
    pub ran : flush z fuel (s, b) ≡ finished (next, buffer)
    pub counted : z.total_in next ≡ z.total_in s
    pub reads : stream.read next ≡ stream.read s
    pub grown : buffer.bytes ≡ b.bytes ++ out
    pub writes : stream.written next ≡ stream.written s ++ out
    pub ended : ends_with trailer buffer.bytes ≡ true
    pub good : Good next

  flush-done : (s : z.State) (b : Buffer) → ends_with trailer b.bytes ≡ true → Good s → Flushed s b
  unfolding flush
  flush-done s b h good = record {
    fuel = 1;
    next = s;
    buffer = b;
    out = [];
    ran = rw h refl;
    counted = refl;
    reads = refl;
    grown = sym (append-nil b.bytes);
    writes = sym (append-nil (stream.written s));
    ended = h;
    good = good;
  }

  flush-turn :
      (fuel : ℕ) (s s' : z.State) (b b' : Buffer)
      → ends_with trailer b.bytes ≡ false
      → z.compress_vec s [] (reserve b 5) sync ≡ some (ok, s', b')
      → flush z (suc fuel) (s, b) ≡ flush z fuel (s', b')
  unfolding flush
  flush-turn fuel s s' b b' h call = rw h (rw call refl)

  Flushed-turn :
      (s s' : z.State) (b b' : Buffer) (out : List ℕ)
      → ((fuel : ℕ) → flush z (suc fuel) (s, b) ≡ flush z fuel (s', b'))
      → z.total_in s' ≡ z.total_in s
      → stream.read s' ≡ stream.read s
      → b'.bytes ≡ b.bytes ++ out
      → stream.written s' ≡ stream.written s ++ out
      → Flushed s' b'
      → Flushed s b
  Flushed-turn s s' b b' out turn counted reads grown wrote rest = record {
    fuel = suc rest.fuel;
    next = rest.next;
    buffer = rest.buffer;
    out = out ++ rest.out;
    ran = turn rest.fuel ∙ rest.ran;
    counted = rest.counted ∙ counted;
    reads = rest.reads ∙ reads;
    grown = rest.grown ∙ ap (λ l. l ++ rest.out) grown ∙ append_assoc b.bytes out rest.out;
    writes =
        rest.writes ∙ ap (λ l. l ++ rest.out) wrote ∙ append_assoc (stream.written s) out rest.out;
    ended = rest.ended;
    good = rest.good;
  }

  abbrev FlushEnds : ℕ → Type 0
  FlushEnds k =
      (s : z.State) (b : Buffer)
      → stream.idle s ≡ false
      → (ends_with trailer b.bytes ≡ true → Good s)
      → stream.bound s 0 ≤ k
      → Flushed s b

  flush-any : (k : ℕ) → ((j : ℕ) → suc j ≡ k → FlushEnds j) → FlushEnds k
  unfolding reserve
  flush-any k rec s b fresh good bounded = elim (Bool-cases (ends_with trailer b.bytes)) [
    | inl h ↦ flush-done s b h (good h)
    | inr h ↦
        let enough = reserve-space b 5 in
        let st = deflate.flushes s (reserve b 5) fresh (omega (arith, enough.1)) in
        let b' : Buffer = record (reserve b 5) { bytes = b.bytes ++ st.out } in
        let none_taken : st.taken ≡ 0 = omega (arith, st.taken_at_most) in
        Flushed-turn s st.next b b' st.out (λ fuel. flush-turn fuel s st.next b b' h st.call)
          (omega (arith, st.counts, none_taken))
          (st.reads ∙ ap (λ l. stream.read s ++ l) (take-nil st.taken) ∙ append-nil (stream.read s))
          refl st.writes
          (elim st.goes_on [
            | inl done ↦ flush-done st.next b' done (marks s [] (reserve b 5) sync st done)
            | inr (filled, fresh', less) ↦
                let same : stream.bound st.next 0 ≡ stream.bound st.next (0 - st.taken) =
                  ap (stream.bound st.next) (omega arith) in
                rec (k - 1) (omega (arith, filled, less, bounded, same, enough.1)) st.next b' fresh'
                  (marks s [] (reserve b 5) sync st)
                  (omega (arith, filled, less, bounded, same, enough.1))
          ])
  ]

  flush-ends : (k : ℕ) → FlushEnds k
  flush-ends zero = flush-any zero (λ j e. absurd (omega (arith, e)))
  flush-ends (suc k) =
      flush-any (suc k)
        (λ j e s' b' fresh good h. flush-ends k s' b' fresh good (omega (arith, e, h)))

  pub record Compressed (s : z.State) (b : Buffer) (input : List ℕ) : Type 0 where
    pub fuel_in : ℕ
    pub fuel_out : ℕ
    pub next : z.State
    pub buffer : Buffer
    pub out : List ℕ
    pub ran : compress_full z fuel_in fuel_out (s, b) input ≡ finished (next, buffer)
    pub counted : z.total_in next ≡ z.total_in s + length input
    pub reads : stream.read next ≡ stream.read s ++ input
    pub grown : buffer.bytes ≡ b.bytes ++ out
    pub writes : stream.written next ≡ stream.written s ++ out
    pub ended : ends_with trailer buffer.bytes ≡ true
    pub good : Good next

  pub compress_full-Compressed :
      (s : z.State) (b : Buffer) (input : List ℕ)
      → 0 < length input
      → length b.bytes ≤ b.capacity
      → Compressed s b input
  unfolding compress_full
  compress_full-Compressed s b input some_input is_vec =
      let fed =
        feed-ends z deflate Good marks (z.total_in s) (stream.read s) input
          (stream.bound s (length input - 0)) 0 s b
          (record {
            counted = omega arith;
            read_so_far = sym (append-nil (stream.read s));
            within = omega arith;
            is_vec = is_vec;
            fresh = λ end. absurd (omega (arith, end, some_input));
            good = λ end. absurd (omega (arith, end, some_input));
          })
          (omega arith) in
      let flushed =
        flush-ends (stream.bound fed.next 0) fed.next fed.buffer fed.fresh fed.good (omega arith) in
      record {
        fuel_in = fed.fuel;
        fuel_out = flushed.fuel;
        next = flushed.next;
        buffer = flushed.buffer;
        out = fed.out ++ flushed.out;
        ran = rw (fed.ran, compress_full) flushed.ran;
        counted = flushed.counted ∙ fed.counted;
        reads = flushed.reads ∙ fed.reads;
        grown =
            flushed.grown
            ∙ ap (λ l. l ++ flushed.out) fed.grown
            ∙ append_assoc b.bytes fed.out flushed.out;
        writes =
            flushed.writes
            ∙ ap (λ l. l ++ flushed.out) fed.writes
            ∙ append_assoc (stream.written s) fed.out flushed.out;
        ended = flushed.ended;
        good = flushed.good;
      }
