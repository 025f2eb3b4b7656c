-- ===== src/Text/Number.antt =====
-- Numbers as text: `FromStr` of the unsigned integers, and `itoa::Buffer::format`.
use gateway_proxy.Prelude.{
  ℕ, zero, suc, ◌+◌, ◌-◌, ◌*◌, ◌/◌, ◌%◌, ◌^◌, ◌<◌, ◌≡◌, refl, ◌∙◌, Bool, true, ◌&&◌, Option, none,
  some, [], ◌∷◌, ◌++◌, leb, ltb, ◌==◌, if◌then◌else◌, arith, inl, inr, Bool-cases, ◌>>=◌, ◌≢◌,
}
use gateway_proxy.Text.{Text}
use mathlib.Core.List.{concat-ne-nil}

unfoldable pub is_digit : ℕ → Bool
is_digit c = leb b'0' c && leb c b'9'

-- One more digit, with the overflow check of a number of `w` bits.
unfoldable pub push_digit : ℕ → ℕ → ℕ → Option ℕ
unfolding is_digit
push_digit w acc c =
    if is_digit c && ltb (acc * 10 + (c - b'0')) (2 ^ w) then some (acc * 10 + (c - b'0')) else none

unfoldable pub from_digits : ℕ → ℕ → Text → Option ℕ
from_digits w acc [] = some acc
from_digits w acc (c ∷ s) = do n ← push_digit w acc c; from_digits w n s

-- `uN::from_str` for N = `w`: an optional `+`, then digits, at least one.
unfoldable pub from_str : ℕ → Text → Option ℕ
unfolding from_digits push_digit
from_str w [] = none
from_str w (c ∷ []) = if c == b'+' then none else from_digits w 0 (c ∷ [])
from_str w (c ∷ d ∷ s) = if c == b'+' then from_digits w 0 (d ∷ s) else from_digits w 0 (c ∷ d ∷ s)

-- The decimal digits of a number; a fuel above the number is enough.
unfoldable pub format_digits : ℕ → ℕ → Text
format_digits zero n = []
format_digits (suc f) n =
    let front = format_digits f (n / 10) in
    if ltb n 10 then (b'0' + n) ∷ [] else front ++ ((b'0' + n % 10) ∷ [])

unfoldable pub format : ℕ → Text
unfolding format_digits
format n = format_digits (suc n) n

from_digits-append :
    (w acc : ℕ) (s t : Text)
    → from_digits w acc (s ++ t) ≡ (from_digits w acc s >>= λ n. from_digits w n t)
unfolding from_digits
from_digits-append w acc [] t = refl
from_digits-append w acc (c ∷ s) t =
    elim (push_digit w acc c)
      as (λ m.
        (m >>= λ n. from_digits w n (s ++ t))
        ≡ ((m >>= λ n. from_digits w n s) >>= λ n. from_digits w n t)) [
          | none ↦ refl
          | some n ↦ from_digits-append w n s t
        ]

push_digit-digit :
    (w acc d : ℕ)
    → d < 10
    → acc * 10 + d < 2 ^ w
    → push_digit w acc (b'0' + d) ≡ some (acc * 10 + d)
unfolding push_digit
push_digit-digit w acc d h b = ground arith

from_digits-format_digits :
    (w f n : ℕ) → n < f → n < 2 ^ w → from_digits w 0 (format_digits f n) ≡ some n
unfolding from_digits format_digits
from_digits-format_digits w zero n h b = elim h [ ]
from_digits-format_digits w (suc f) n h b = elim (Bool-cases (ltb n 10)) [
  | inl one ↦ rw one (ground (arith, push_digit-digit w 0 n))
  | inr more ↦
      rw
        (
          more,
          from_digits-append w 0 (format_digits f (n / 10)) ((b'0' + n % 10) ∷ []),
          from_digits-format_digits w f (n / 10) (ground arith) (omega arith),
        )
        (ground (arith, push_digit-digit w (n / 10) (n % 10)))
]

-- The text holds digits only.
abbrev pub Digits : Text → Type 0
Digits [] = Unit {0}
Digits (c ∷ s) = (is_digit c ≡ true) × Digits s

pub Digits-append : (s t : Text) → Digits s → Digits t → Digits (s ++ t)
Digits-append [] t ds dt = dt
Digits-append (c ∷ s) t ds dt = (ds.0, Digits-append s t ds.1 dt)

format_digits-Digits : (f n : ℕ) → Digits (format_digits f n)
unfolding format_digits is_digit
format_digits-Digits zero n = tt
format_digits-Digits (suc f) n = elim (Bool-cases (ltb n 10)) [
  | inl one ↦ rw one (ground arith, tt)
  | inr more ↦ rw more (Digits-append _ _ (format_digits-Digits f (n / 10)) (ground arith, tt))
]

pub format-Digits : (n : ℕ) → Digits (format n)
unfolding format
format-Digits n = format_digits-Digits (suc n) n

-- On digits alone the sign is not looked at.
from_str-Digits : (w : ℕ) (s : Text) → Digits s → s ≢ [] → from_str w s ≡ from_digits w 0 s
unfolding from_str is_digit
from_str-Digits w [] d ne = absurd (ne refl)
from_str-Digits w (c ∷ []) d ne = ground arith
from_str-Digits w (c ∷ e ∷ s) d ne = ground arith

pub format-ne-nil : (n : ℕ) → format n ≢ []
unfolding format format_digits
format-ne-nil n = elim (Bool-cases (ltb n 10)) [
  | inl one ↦ rw one (λ e. cc)
  | inr more ↦ rw more (concat-ne-nil (b'0' + n % 10) (format_digits n (n / 10)))
]

pub from_str-format : (w n : ℕ) → n < 2 ^ w → from_str w (format n) ≡ some n
unfolding format
from_str-format w n b =
    from_str-Digits w (format n) (format-Digits n) (format-ne-nil n)
    ∙ from_digits-format_digits w (suc n) n (omega arith) b
