-- ===== src/Text/Bytes.antt =====
-- The bytes of a text, and the quote among them.
use gateway_proxy.Prelude.{
  ℕ, ◌+◌, ◌/◌, ◌%◌, ltb, List, ◌≡◌, refl, sym, ap, ◌∙◌, some, [], ◌∷◌, ◌++◌, arith, inl, inr,
  append_assoc, Bool-cases, ◌==◌, get_elem?, length, length-append, get_elem?-append_length,
}
use mathlib.Core.Option
use gateway_proxy.Text.{Text, len_utf8, utf8, byte_len, as_bytes}

length-utf8 : (c : ℕ) → length (utf8 c) ≡ len_utf8 c
unfolding utf8 len_utf8
length-utf8 c = ground arith

length-as_bytes : (s : Text) → length (as_bytes s) ≡ byte_len s
unfolding as_bytes byte_len
length-as_bytes [] = refl
length-as_bytes (c ∷ s) =
    omega (arith, length-append (utf8 c) (as_bytes s), length-utf8 c, length-as_bytes s)

as_bytes-append : (s t : Text) → as_bytes (s ++ t) ≡ as_bytes s ++ as_bytes t
unfolding as_bytes
as_bytes-append [] t = refl
as_bytes-append (c ∷ s) t =
    rw (as_bytes-append s t, append_assoc (utf8 c) (as_bytes s) (as_bytes t))

-- The first byte of a character is the quote exactly if the character is.
utf8-lead : (c : ℕ) → (b : ℕ) × (t : List ℕ) × (utf8 c ≡ b ∷ t) × (b == b'"' ≡ c == b'"')
unfolding utf8
utf8-lead c = elim (Bool-cases (ltb c 0x80)) [
  | inl one ↦ (c, [], ground arith, refl)
  | inr more ↦ elim (Bool-cases (ltb c 0x800)) [
    | inl two ↦ (0xC0 + c / 64, (0x80 + c % 64) ∷ [], ground arith, ground arith)
    | inr more' ↦ elim (Bool-cases (ltb c 0x10000)) [
      | inl three ↦
          (0xE0 + c / 4096, (0x80 + c / 64 % 64) ∷ (0x80 + c % 64) ∷ [], ground arith, ground arith)
      | inr four ↦ (
        0xF0 + c / 262144,
        (0x80 + c / 4096 % 64) ∷ (0x80 + c / 64 % 64) ∷ (0x80 + c % 64) ∷ [],
        ground arith,
        ground arith,
      )
    ]
  ]
]

-- So is the byte behind `p`.
pub byte-quote :
    (p : Text) (c : ℕ) (q : Text) {b : ℕ}
    → get_elem? (as_bytes (p ++ (c ∷ q))) (byte_len p) ≡ some b
    → b == b'"' ≡ c == b'"'
byte-quote p c q {b} h =
    let (lead, trail, e, same) = utf8-lead c in
    let bytes : as_bytes (p ++ (c ∷ q)) ≡ as_bytes p ++ (lead ∷ (trail ++ as_bytes q)) =
      as_bytes-append p (c ∷ q) ∙ ap (◌++◌ (as_bytes p)) (unfold as_bytes in rw e) in
    let there : some b ≡ some lead =
      sym h
      ∙ rw (bytes, ← length-as_bytes p)
          (get_elem?-append_length (as_bytes p) lead (trail ++ as_bytes q)) in
    rw (Option.some_inj.0 there) same

pub quote-byte : (p q : Text) → get_elem? (as_bytes (p ++ (b'"' ∷ q))) (byte_len p) ≡ some b'"'
unfolding as_bytes utf8
quote-byte p q =
    rw (as_bytes-append p (b'"' ∷ q), ← length-as_bytes p)
      (get_elem?-append_length (as_bytes p) b'"' (as_bytes q))
