-- ===== src/Text/Words.antt =====
-- Equality of texts, and the last word of a text.
use gateway_proxy.Prelude.{
  ◌≡◌, refl, ◌↔◌, Bool, true, false, ◌&&◌, Option, none, some, [], ◌∷◌, ◌++◌, ◌==◌, if◌then◌else◌,
  arith,
}
use gateway_proxy.Text.{Text, is_whitespace}

unfoldable pub text_eq : Text → Text → Bool
text_eq [] [] = true
text_eq (c ∷ s) (d ∷ t) = c == d && text_eq s t
text_eq _ _ = false

pub text_eq_iff : (s t : Text) → (text_eq s t ≡ true) ↔ (s ≡ t)
unfolding text_eq
text_eq_iff (c ∷ s) (d ∷ t) = ground (arith, text_eq_iff s t)
text_eq_iff _ _ = ground arith

pub text_eq_refl : (s : Text) → text_eq s s ≡ true
text_eq_refl s = (text_eq_iff s s).1 refl

-- The word that is being read goes before the words that are done.
abbrev end_word : Text → Option Text → Option Text
end_word [] last = last
end_word (c ∷ w) last = some (c ∷ w)

last_word_from : Text → Option Text → Text → Option Text
unfolding is_whitespace
last_word_from word last [] = end_word word last
last_word_from word last (c ∷ s) =
    last_word_from (if is_whitespace c then [] else word ++ (c ∷ []))
      (if is_whitespace c then end_word word last else last) s

-- `str::split_whitespace().last()`.
unfoldable pub last_word : Text → Option Text
unfolding last_word_from
last_word = last_word_from [] none

-- The text has no blank.
abbrev pub Unbroken : Text → Type 0
Unbroken [] = Unit {0}
Unbroken (c ∷ s) = (is_whitespace c ≡ false) × Unbroken s
