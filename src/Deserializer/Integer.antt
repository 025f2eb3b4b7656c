-- ===== src/Deserializer/Integer.antt =====
-- `find_integer` against an independent description of the number that it reads.
use gateway_proxy.Prelude.{
  ℕ, ◌+◌, ◌≡◌, ◌↔◌, ap, subst, ◌∙◌, true, some, ◌++◌, arith, append_assoc, >>=-elim,
}
use gateway_proxy.Text.{Text, byte_len, starts_with, at_char, find, get_from, get_range}
use gateway_proxy.Text.Split.{
  Misses, find-append, find-split, starts_with-append, starts_with-split, get_from-append,
  get_range-append, byte_len-append,
}
use gateway_proxy.Text.Number.{from_str}
use gateway_proxy.Deserializer.{Range, is_terminator, find_integer}

-- In `input` the first occurrence of `key` is followed by the text of the number `n` of `w` bits, up
-- to the first terminator behind the key; the range is that of the number's text.
pub record IntegerAt (w : ℕ) (input key : Text) (n : ℕ) (r : Range) : Type 0 where
  pub before : Text
  pub clean : Text
  pub rest : Text
  pub splits : input ≡ before ++ (key ++ (clean ++ rest))
  pub first : Misses (starts_with key) before (key ++ (clean ++ rest))
  pub terminated : at_char is_terminator rest ≡ true
  pub unbroken : Misses (at_char is_terminator) clean rest
  pub value : from_str w clean ≡ some n
  pub start_is : r.start ≡ byte_len before + byte_len key
  pub end_is : r.end ≡ r.start + byte_len clean

pub find_integer_complete :
    {w n : ℕ} {input key : Text} {r : Range}
    → IntegerAt w input key n r
    → find_integer w input key ≡ some (n, r)
unfolding find_integer
find_integer_complete {w} {n} {input} {key} {r} a = ground (
  arith,
  find-append (starts_with key) a.before (key ++ (a.clean ++ a.rest)) a.first,
  starts_with-append key (a.clean ++ a.rest),
  get_from-append (a.before ++ key) (a.clean ++ a.rest),
  append_assoc a.before key (a.clean ++ a.rest),
  byte_len-append a.before key,
  find-append (at_char is_terminator) a.clean a.rest a.unbroken,
  get_range-append (a.before ++ key) a.clean a.rest,
)

-- The parts of a successful `find_integer`, put together again.
assemble :
    (w : ℕ) (input key : Text) (n : ℕ) (r : Range) (at_key to : ℕ) (tail clean : Text)
    → find (starts_with key) input ≡ some at_key
    → get_from input (at_key + byte_len key) ≡ some tail
    → find (at_char is_terminator) tail ≡ some to
    → get_range input (at_key + byte_len key) (at_key + byte_len key + to) ≡ some clean
    → from_str w clean ≡ some n
    → r.start ≡ at_key + byte_len key
    → r.end ≡ at_key + byte_len key + to
    → IntegerAt w input key n r
assemble w input key n r at_key to tail clean found behind ended cut parsed rs re =
    let (before, at, e, l, hit, first) = find-split (starts_with key) input found in
    let (behind_key, e') = starts_with-split key at hit in
    let here : input ≡ before ++ (key ++ behind_key) = e ∙ ap (◌++◌ before) e' in
    let tail_is : behind_key ≡ tail = ground (
      arith,
      get_from-append (before ++ key) behind_key,
      append_assoc before key behind_key,
      byte_len-append before key,
    ) in
    let (c, rest, e'', l', stop, unbroken) = find-split (at_char is_terminator) tail ended in
    let clean_is : clean ≡ c = ground (
      arith,
      get_range-append (before ++ key) c rest,
      append_assoc before key (c ++ rest),
      byte_len-append before key,
    ) in
    record {
      before = before;
      clean = c;
      rest = rest;
      splits = ground arith;
      first = subst (Misses (starts_with key) before) (e' ∙ ap (◌++◌ key) (tail_is ∙ e'')) first;
      terminated = stop;
      unbroken = unbroken;
      value = ground arith;
      start_is = ground arith;
      end_is = ground arith;
    }

pub find_integer_sound :
    (w : ℕ) (input key : Text) {n : ℕ} {r : Range}
    → find_integer w input key ≡ some (n, r)
    → IntegerAt w input key n r
unfolding find_integer
find_integer_sound w input key {n} {r} h =
    >>=-elim (find (starts_with key) input) _ h λ at_key e1 h1.
      >>=-elim (get_from input (at_key + byte_len key)) _ h1 λ tail e2 h2.
        >>=-elim (find (at_char is_terminator) tail) _ h2 λ to e3 h3.
          >>=-elim (get_range input (at_key + byte_len key) (at_key + byte_len key + to)) _ h3
            λ clean e4 h4. >>=-elim (from_str w clean) _ h4 λ int e5 h5.
              assemble w input key n r at_key to tail clean e1 e2 e3 e4 (ground arith)
                (ground arith) (ground arith)

-- `find_integer` returns a number with a range exactly if they are those of the text behind the first
-- occurrence of the key, up to the first terminator.
pub find_integer_iff :
    (w : ℕ) (input key : Text) (n : ℕ) (r : Range)
    → (find_integer w input key ≡ some (n, r)) ↔ IntegerAt w input key n r
find_integer_iff w input key n r = (find_integer_sound w input key, find_integer_complete)
