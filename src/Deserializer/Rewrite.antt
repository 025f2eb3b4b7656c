-- ===== src/Deserializer/Rewrite.antt =====
-- What `forward_shard` of src/server.rs does to a payload: the number in the range that
-- `find_sequence` has found is replaced.
use gateway_proxy.Prelude.{
  ℕ, ◌+◌, ◌≤◌, ◌<◌, ◌^◌, ◌≡◌, refl, some, [], ◌∷◌, ◌++◌, arith, length, length-append, append_assoc,
}
use gateway_proxy.Text.{Text, byte_len, starts_with, at_char, replace_range}
use gateway_proxy.Text.Split.{Misses, replace_range-append, byte_len-append}
use gateway_proxy.Text.Number.{format, Digits, is_digit, format-Digits, from_str-format}
use gateway_proxy.Deserializer.{Range, SequenceInfo, is_terminator, find_sequence, sequence_key}
use gateway_proxy.Deserializer.Integer.{IntegerAt, find_integer_sound, find_integer_complete}

-- A prefix test reads no further than the prefix.
starts_with-prefix :
    (k u x y : Text) → length k ≤ length u → starts_with k (u ++ x) ≡ starts_with k (u ++ y)
unfolding starts_with
starts_with-prefix [] u x y h = refl
starts_with-prefix (p ∷ k) [] x y h = absurd (omega arith)
starts_with-prefix (p ∷ k) (c ∷ u) x y h = rw (starts_with-prefix k u x y (omega arith))

-- So what stands behind the first occurrence of the key does not move it.
Misses-key :
    (key before x y : Text)
    → Misses (starts_with key) before (key ++ x)
    → Misses (starts_with key) before (key ++ y)
Misses-key key [] x y m = tt
Misses-key key (c ∷ before) x y m = (
  ground (
    arith,
    append_assoc (c ∷ before) key x,
    append_assoc (c ∷ before) key y,
    starts_with-prefix key ((c ∷ before) ++ key) x y,
    length-append (c ∷ before) key,
  ),
  Misses-key key before x y m.1,
)

Digits-Misses : (s rest : Text) → Digits s → Misses (at_char is_terminator) s rest
Digits-Misses [] rest d = tt
Digits-Misses (c ∷ s) rest d = (unfold is_digit in ground arith, Digits-Misses s rest d.1)

-- The text of the number is replaced by that of `m`: the new text has `m` at the same place, and is
-- otherwise the old one.
pub replace-IntegerAt :
    {w n m : ℕ} {input key : Text} {r : Range}
    → (a : IntegerAt w input key n r) → m < 2 ^ w
    → (replace_range input r.start r.end (format m)
        ≡ some (a.before ++ (key ++ (format m ++ a.rest))))
      × IntegerAt w
          (a.before ++ (key ++ (format m ++ a.rest)))
          key
          m
          (record { start = r.start; end = r.start + byte_len (format m) })
replace-IntegerAt {w} {n} {m} {input} {key} {r} a h = (
  ground (
    arith,
    replace_range-append (a.before ++ key) a.clean a.rest (format m),
    append_assoc a.before key (a.clean ++ a.rest),
    append_assoc a.before key (format m ++ a.rest),
    byte_len-append a.before key,
  ),
  record {
    before = a.before;
    clean = format m;
    rest = a.rest;
    splits = refl;
    first = Misses-key key a.before (a.clean ++ a.rest) (format m ++ a.rest) a.first;
    terminated = a.terminated;
    unbroken = Digits-Misses (format m) a.rest (format-Digits m);
    value = from_str-format w m h;
    start_is = a.start_is;
    end_is = refl;
  },
)

find_sequence-IntegerAt :
    (input : Text) (info : SequenceInfo)
    → find_sequence input ≡ some info
    → IntegerAt 64 input sequence_key info.seq info.range
unfolding find_sequence
find_sequence-IntegerAt input info h = find_integer_sound 64 input sequence_key (ground arith)

-- Where `find_sequence` finds a number, the replacement of its range by the decimal digits of any
-- `m < 2 ^ 64` does not panic, leaves all of the payload outside the range as it was, and
-- `find_sequence` reads `m` from the new payload, at the same place.
pub rewrite_sequence :
    (input : Text) (info : SequenceInfo) (m : ℕ)
    → find_sequence input ≡ some info
    → m < 2 ^ 64
    → (before old rest : Text) × (input ≡ before ++ (old ++ rest))
      × (byte_len before ≡ info.range.start)
      × (byte_len old + info.range.start ≡ info.range.end)
      × (replace_range input info.range.start info.range.end (format m)
          ≡ some (before ++ (format m ++ rest)))
      × (find_sequence (before ++ (format m ++ rest))
          ≡ some (record {
            seq = m;
            range = record {
              start = info.range.start;
              end = info.range.start + byte_len (format m);
            };
          }))
rewrite_sequence input info m h bound =
    let a = find_sequence-IntegerAt input info h in
    let (replaced, b) = replace-IntegerAt {m = m} a bound in
    (
      a.before ++ sequence_key,
      a.clean,
      a.rest,
      ground (arith, append_assoc a.before sequence_key (a.clean ++ a.rest)),
      ground (arith, byte_len-append a.before sequence_key),
      ground arith,
      ground (arith, append_assoc a.before sequence_key (format m ++ a.rest)),
      rw (append_assoc a.before sequence_key (format m ++ a.rest))
          (unfold find_sequence in ground (arith, find_integer_complete b)),
    )
