-- ===== src/Deserializer/Blanks.antt =====
-- A blank between a key and its number.
use gateway_proxy.Prelude.{
  ℕ, ◌≡◌, true, none, some, [], ◌∷◌, ◌++◌, arith, inl, inr, append_assoc, Option-cases,
}
use gateway_proxy.Text.{Text, byte_len, starts_with, is_whitespace}
use gateway_proxy.Text.Split.{
  Misses, find-append, starts_with-append, get_from-append, byte_len-append,
}
use gateway_proxy.Text.Number.{from_str, from_digits, push_digit}
use gateway_proxy.Deserializer.{Range, find_integer}
use gateway_proxy.Deserializer.Integer.{IntegerAt, find_integer_sound}

-- The text behind the first occurrence of the key is the one that is read.
pub IntegerAt-behind :
    {w n : ℕ} {r : Range} (before key x : Text)
    → (a : IntegerAt w (before ++ (key ++ x)) key n r) → Misses (starts_with key) before (key ++ x)
    → a.clean ++ a.rest ≡ x
IntegerAt-behind before key x a m =
    let same_place : byte_len a.before ≡ byte_len before = ground (
      arith,
      find-append (starts_with key) before (key ++ x) m,
      find-append (starts_with key) a.before (key ++ (a.clean ++ a.rest)) a.first,
      starts_with-append key x,
      starts_with-append key (a.clean ++ a.rest),
    ) in
    ground (
      arith,
      get_from-append (before ++ key) x,
      get_from-append (a.before ++ key) (a.clean ++ a.rest),
      append_assoc before key x,
      append_assoc a.before key (a.clean ++ a.rest),
      byte_len-append before key,
      byte_len-append a.before key,
    )

from_str-blank : (w c : ℕ) (s : Text) → is_whitespace c ≡ true → from_str w (c ∷ s) ≡ none
unfolding is_whitespace from_str from_digits push_digit
from_str-blank w c [] h = ground arith
from_str-blank w c (d ∷ s) h = ground arith

-- No number is read where a blank stands between the first occurrence of the key and what follows.
pub find_integer-blank :
    (w : ℕ) (before key : Text) (c : ℕ) (x : Text)
    → Misses (starts_with key) before (key ++ (c ∷ x))
    → is_whitespace c ≡ true
    → find_integer w (before ++ (key ++ (c ∷ x))) key ≡ none
find_integer-blank w before key c x m blank =
    elim (Option-cases (find_integer w (before ++ (key ++ (c ∷ x))) key)) [
      | inl e ↦ e
      | inr ((n, r), e) ↦
          let a = find_integer_sound w _ key e in
          absurd (refuse a.clean a.rest (IntegerAt-behind before key (c ∷ x) a m) a.value)
    ]
  where
    refuse : {n : ℕ} (clean rest : Text) → clean ++ rest ≡ c ∷ x → from_str w clean ≡ some n → ⊥
    refuse [] rest e v = unfold from_str in cc
    refuse (d ∷ clean) rest e v = ground (arith, from_str-blank w c clean)
