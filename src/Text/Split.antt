-- ===== src/Text/Split.antt =====
-- Byte offsets as splits of a text: what `find`, `get` and `replace_range` do at a place `p ++ q`.
use gateway_proxy.Prelude.{
  ℕ, ◌+◌, ◌-◌, ◌<◌, ◌≡◌, refl, ap, ◌∙◌, Bool, true, false, some, [], ◌∷◌, ◌++◌, leb, ◌==◌, arith,
  inl, inr, Bool-cases, >>=-eq-some, append_assoc, Option-cases,
}
use gateway_proxy.Text.{
  Text, len_utf8, byte_len, starts_with, find, get_from, get_to, get_range, replace_range,
}

pub len_utf8-pos : (c : ℕ) → 0 < len_utf8 c
unfolding len_utf8
len_utf8-pos c = ground arith

pub byte_len-append : (p q : Text) → byte_len (p ++ q) ≡ byte_len p + byte_len q
unfolding byte_len
byte_len-append [] q = omega arith
byte_len-append (c ∷ p) q = omega (arith, byte_len-append p q)

get_from-zero : (q : Text) → get_from q 0 ≡ some q
unfolding get_from
get_from-zero [] = refl
get_from-zero (c ∷ q) = refl

pub get_from-append : (p q : Text) → get_from (p ++ q) (byte_len p) ≡ some q
unfolding byte_len get_from
get_from-append [] q = get_from-zero q
get_from-append (c ∷ p) q = ground (arith, len_utf8-pos c, get_from-append p q)

pub get_from-split :
    (s : Text) (n : ℕ) {t : Text}
    → get_from s n ≡ some t
    → (p : Text) × (s ≡ p ++ t) × (byte_len p ≡ n)
unfolding get_from byte_len
get_from-split [] n h = ([], ground arith, ground arith)
get_from-split (c ∷ s) n {t} h = elim (Bool-cases (n == 0)) [
  | inl here ↦ ([], ground arith, ground arith)
  | inr later ↦ elim (Bool-cases (leb (len_utf8 c) n)) [
    | inr short ↦ absurd (ground arith)
    | inl long ↦
        let (p, e, l) = get_from-split s (n - len_utf8 c) {t = t} (ground arith) in
        (c ∷ p, ap (◌∷◌ c) e, ground arith)
  ]
]

get_to-zero : (q : Text) → get_to q 0 ≡ some []
unfolding get_to
get_to-zero [] = refl
get_to-zero (c ∷ q) = refl

pub get_to-append : (p q : Text) → get_to (p ++ q) (byte_len p) ≡ some p
unfolding byte_len get_to
get_to-append [] q = get_to-zero q
get_to-append (c ∷ p) q = ground (arith, len_utf8-pos c, get_to-append p q)

pub get_to-split :
    (s : Text) (n : ℕ) {p : Text}
    → get_to s n ≡ some p
    → (q : Text) × (s ≡ p ++ q) × (byte_len p ≡ n)
unfolding get_to byte_len
get_to-split [] n h = ([], ground arith, ground arith)
get_to-split (c ∷ s) n {p} h = elim (Bool-cases (n == 0)) [
  | inl here ↦ (c ∷ s, ground arith, ground arith)
  | inr later ↦ elim (Bool-cases (leb (len_utf8 c) n)) [
    | inr short ↦ absurd (ground arith)
    | inl long ↦ elim (Option-cases (get_to s (n - len_utf8 c))) [
      | inl none_left ↦ absurd (ground arith)
      | inr (p', f) ↦
          let (q, e, l) = get_to-split s (n - len_utf8 c) {p = p'} f in
          (q, ground arith, ground arith)
    ]
  ]
]

-- The test fails at every suffix of `p ++ q` that is longer than `q`.
abbrev pub Misses : (Text → Bool) → Text → Text → Type 0
Misses test [] q = Unit {0}
Misses test (c ∷ p) q = (test (c ∷ p ++ q) ≡ false) × Misses test p q

pub find-append :
    (test : Text → Bool) (p q : Text)
    → Misses test p q
    → test q ≡ true
    → find test (p ++ q) ≡ some (byte_len p)
unfolding find byte_len
find-append test [] [] m h = rw h
find-append test [] (c ∷ q) m h = rw h
find-append test (c ∷ p) q m h = ground (arith, find-append test p q m.1 h)

pub find-split :
    (test : Text → Bool) (s : Text) {o : ℕ}
    → find test s ≡ some o
    → (p q : Text) × (s ≡ p ++ q) × (byte_len p ≡ o) × (test q ≡ true) × Misses test p q
unfolding find byte_len
find-split test [] h = ([], [], refl, ground arith, ground arith, tt)
find-split test (c ∷ s) h = elim (Bool-cases (test (c ∷ s))) [
  | inl here ↦ ([], c ∷ s, refl, ground arith, here, tt)
  | inr later ↦ elim (Option-cases (find test s)) [
    | inl lost ↦ absurd (ground arith)
    | inr (o', f) ↦
        let (p, q, e, l, t, m) = find-split test s f in
        (c ∷ p, q, ap (◌∷◌ c) e, ground arith, t, (rw e at later, m))
  ]
]

pub starts_with-append : (k s : Text) → starts_with k (k ++ s) ≡ true
unfolding starts_with
starts_with-append [] s = refl
starts_with-append (c ∷ k) s = ground (arith, starts_with-append k s)

pub starts_with-split : (k s : Text) → starts_with k s ≡ true → (r : Text) × (s ≡ k ++ r)
unfolding starts_with
starts_with-split [] s h = (s, refl)
starts_with-split (p ∷ k) [] h = absurd (ground arith)
starts_with-split (p ∷ k) (c ∷ s) h =
    let (r, e) = starts_with-split k s (ground arith) in (r, ground arith)

pub get_range-append :
    (p m q : Text) → get_range (p ++ (m ++ q)) (byte_len p) (byte_len p + byte_len m) ≡ some m
unfolding get_range
get_range-append p m q =
    ground (arith, get_from-append p (m ++ q), get_to-append m q, append_assoc p m q)

pub get_range-split :
    (s : Text) (a b : ℕ) {m : Text}
    → get_range s a b ≡ some m
    → (p q : Text) × (s ≡ p ++ (m ++ q)) × (byte_len p ≡ a) × (byte_len p + byte_len m ≡ b)
unfolding get_range
get_range-split s a b {m} h = elim (Bool-cases (leb a b)) [
  | inr backwards ↦ absurd (ground arith)
  | inl forwards ↦
      let (t, e, f) = >>=-eq-some (get_from s a) (λ t. get_to t (b - a)) (rw forwards at h) in
      let (p, s_split, la) = get_from-split s a e in
      let (q, t_split, lm) = get_to-split t (b - a) f in
      (p, q, s_split ∙ ap (◌++◌ p) t_split, la, ground arith)
]

pub replace_range-append :
    (p m q new : Text)
    → replace_range (p ++ (m ++ q)) (byte_len p) (byte_len p + byte_len m) new
      ≡ some (p ++ (new ++ q))
unfolding replace_range
replace_range-append p m q new = ground (
  arith,
  get_to-append p (m ++ q),
  get_from-append (p ++ m) q,
  append_assoc p m q,
  byte_len-append p m,
)
