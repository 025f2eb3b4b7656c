-- ===== src/Prelude/Lists.antt =====
-- Lists measured and indexed by native numbers.
use Prim.Native.Nat.{ℕ, zero, suc, ◌+◌, ◌≤◌}
use mathlib.Core.Logic.{◌↔◌, ◌⊎◌, inl, inr}
use mathlib.Core.Path.{◌≡◌, refl, sym, ap, subst}
use mathlib.Core.List.{List, [], ◌∷◌, ◌++◌, map}
use mathlib.Core.Option
use mathlib.Core.Option.{Option, none, some}
use gateway_proxy.Prelude.Options.{Option-cases}
use native.Mathlib.Omega.{arith}

module _ {ℓ} {A : Type ℓ} where
  abbrev pub length : List A → ℕ
  length [] = 0
  length (x ∷ xs) = suc (length xs)

  abbrev pub get_elem? : List A → ℕ → Option A
  get_elem? [] i = none
  get_elem? (x ∷ xs) zero = some x
  get_elem? (x ∷ xs) (suc i) = get_elem? xs i

  pub length-append : (xs ys : List A) → length (xs ++ ys) ≡ length xs + length ys
  length-append [] ys = omega arith
  length-append (x ∷ xs) ys = omega (arith, length-append xs ys)

  pub get_elem?-append_length :
      (xs : List A) (y : A) (ys : List A) → get_elem? (xs ++ (y ∷ ys)) (length xs) ≡ some y
  get_elem?-append_length [] y ys = refl
  get_elem?-append_length (x ∷ xs) y ys = get_elem?-append_length xs y ys

  pub get_elem?-append :
      (xs ys : List A) (i : ℕ) (x : A) → get_elem? xs i ≡ some x → get_elem? (xs ++ ys) i ≡ some x
  get_elem?-append [] ys i x h = absurd cc
  get_elem?-append (x' ∷ xs) ys zero x h = h
  get_elem?-append (x' ∷ xs) ys (suc i) x h = get_elem?-append xs ys i x h

  pub get_elem?-below : (xs : List A) (i : ℕ) (x : A) → get_elem? xs i ≡ some x → i + 1 ≤ length xs
  get_elem?-below [] i x h = absurd cc
  get_elem?-below (x' ∷ xs) zero x h = omega arith
  get_elem?-below (x' ∷ xs) (suc i) x h = omega (arith, get_elem?-below xs i x h)

  pub get_elem?-eq-none_iff : (xs : List A) (i : ℕ) → (get_elem? xs i ≡ none) ↔ (length xs ≤ i)
  get_elem?-eq-none_iff [] i = (λ _. omega arith, λ _. refl)
  get_elem?-eq-none_iff (x ∷ xs) zero = (λ h. absurd cc, λ h. absurd (omega arith))
  get_elem?-eq-none_iff (x ∷ xs) (suc i) =
      let (out, long) = get_elem?-eq-none_iff xs i in
      (λ h. omega (arith, out h), λ h. long (omega arith))

pub get_elem?-map {ℓ κ} :
    {A : Type ℓ} {B : Type κ} (f : A → B) (xs : List A) (i : ℕ) (y : B)
    → get_elem? (map f xs) i ≡ some y
    → (x : A) × (get_elem? xs i ≡ some x) × (f x ≡ y)
get_elem?-map f [] i y h = absurd cc
get_elem?-map f (x ∷ xs) zero y h = (x, refl, Option.some_inj.0 h)
get_elem?-map f (x ∷ xs) (suc i) y h = get_elem?-map f xs i y h

pub map-get_elem? {ℓ κ} :
    {A : Type ℓ} {B : Type κ} (f : A → B) (xs : List A) (i : ℕ) (x : A)
    → get_elem? xs i ≡ some x
    → get_elem? (map f xs) i ≡ some (f x)
map-get_elem? f [] i x h = absurd cc
map-get_elem? f (x' ∷ xs) zero x h = ap (λ o. Option.map f o) h
map-get_elem? f (x' ∷ xs) (suc i) x h = map-get_elem? f xs i x h

-- `Iterator::filter_map`.
module _ {ℓ κ} {A : Type ℓ} {B : Type κ} (f : A → Option B) where
  unfoldable pub filter_map : List A → List B
  filter_map [] = []
  filter_map (x ∷ xs) = elim (f x) [ none ↦ filter_map xs | some y ↦ y ∷ filter_map xs ]

  pub filter_map-drop : {x : A} (xs : List A) → f x ≡ none → filter_map (x ∷ xs) ≡ filter_map xs
  unfolding filter_map
  filter_map-drop {x} xs e = rw (e, filter_map) refl

  pub filter_map-keep :
      {x : A} {y : B} (xs : List A) → f x ≡ some y → filter_map (x ∷ xs) ≡ y ∷ filter_map xs
  unfolding filter_map
  filter_map-keep {x} {y} xs e = rw (e, filter_map) refl

-- `x` occurs in the list.
abbrev pub Occurs : {A : Type 0} → A → List A → Type 0
Occurs x [] = ⊥
Occurs x (y ∷ ys) = (x ≡ y) ⊎ Occurs x ys

abbrev pub All : {A : Type 0} → (A → Type 0) → List A → Type 0
All P [] = Unit
All P (x ∷ xs) = P x × All P xs

pub All-get_elem? :
    {A : Type 0} (P : A → Type 0) (xs : List A) (i : ℕ) (x : A)
    → All P xs
    → get_elem? xs i ≡ some x
    → P x
All-get_elem? P [] i x h e = absurd cc
All-get_elem? P (x' ∷ xs) zero x h e = subst P (Option.some_inj.0 e) h.0
All-get_elem? P (x' ∷ xs) (suc i) x h e = All-get_elem? P xs i x h.1 e

module _ {A B : Type 0} (f : A → Option B) where
  pub All-filter_map :
      (P : B → Type 0) (xs : List A)
      → ((x : A) (y : B) → Occurs x xs → f x ≡ some y → P y)
      → All P (filter_map f xs)
  unfolding filter_map
  All-filter_map P [] h = tt
  All-filter_map P (x ∷ xs) h = elim (Option-cases (f x)) [
    | inl e ↦
        subst (All P) (sym (filter_map-drop f xs e))
          (All-filter_map P xs (λ x' y o. h x' y (inr o)))
    | inr (y, e) ↦
        subst (All P) (sym (filter_map-keep f xs e))
          (h x y (inl refl) e, All-filter_map P xs (λ x' y o. h x' y (inr o)))
  ]

  pub Occurs-filter_map :
      (xs : List A) (x : A) (y : B) → Occurs x xs → f x ≡ some y → Occurs y (filter_map f xs)
  Occurs-filter_map [] x y o e = absurd o
  Occurs-filter_map (x' ∷ xs) x y (inl same) e =
      subst (Occurs y) (sym (filter_map-keep f xs (subst (λ z. f z ≡ some y) same e))) (inl refl)
  Occurs-filter_map (x' ∷ xs) x y (inr o) e = elim (Option-cases (f x')) [
    | inl e' ↦ subst (Occurs y) (sym (filter_map-drop f xs e')) (Occurs-filter_map xs x y o e)
    | inr (y', e') ↦
        subst (Occurs y) (sym (filter_map-keep f xs e')) (inr (Occurs-filter_map xs x y o e))
  ]
