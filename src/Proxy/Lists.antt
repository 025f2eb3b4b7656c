-- ===== src/Proxy/Lists.antt =====
-- Lists that are written through an index.
use gateway_proxy.Prelude.{
  ℕ, zero, suc, ◌≡◌, refl, sym, ap, ◌⊎◌, inl, inr, some, List, [], ◌∷◌, ◌++◌, get_elem?, All, map,
  ◌∙◌,
}
use mathlib.Core.Option
use gateway_proxy.Proxy.{set}

module _ {A : Type 0} where
  pub get_elem?-set :
      (xs : List A) (i : ℕ) (x y : A) → get_elem? xs i ≡ some y → get_elem? (set xs i x) i ≡ some x
  unfolding set
  get_elem?-set [] i x y at = absurd cc
  get_elem?-set (x' ∷ xs) zero x y at = refl
  get_elem?-set (x' ∷ xs) (suc i) x y at = get_elem?-set xs i x y at

  pub get_elem?-set_cases :
      (xs : List A) (i k : ℕ) (x y : A)
      → get_elem? (set xs i x) k ≡ some y
      → ((k ≡ i) × (y ≡ x)) ⊎ (get_elem? xs k ≡ some y)
  unfolding set
  get_elem?-set_cases [] i k x y at = inr at
  get_elem?-set_cases (x' ∷ xs) zero zero x y at = inl (refl, sym (Option.some_inj.0 at))
  get_elem?-set_cases (x' ∷ xs) zero (suc k) x y at = inr at
  get_elem?-set_cases (x' ∷ xs) (suc i) zero x y at = inr at
  get_elem?-set_cases (x' ∷ xs) (suc i) (suc k) x y at = elim (get_elem?-set_cases xs i k x y at) [
    | inl (e, e') ↦ inl (ap suc e, e')
    | inr at' ↦ inr at'
  ]

  pub get_elem?-set_other :
      (xs : List A) (i k : ℕ) (x : A) → ¬ (i ≡ k) → get_elem? (set xs i x) k ≡ get_elem? xs k
  unfolding set
  get_elem?-set_other [] i k x apart = refl
  get_elem?-set_other (x' ∷ xs) zero zero x apart = absurd (apart refl)
  get_elem?-set_other (x' ∷ xs) zero (suc k) x apart = refl
  get_elem?-set_other (x' ∷ xs) (suc i) zero x apart = refl
  get_elem?-set_other (x' ∷ xs) (suc i) (suc k) x apart =
      get_elem?-set_other xs i k x (λ e. apart (ap suc e))

  pub get_elem?-append_cases :
      (xs : List A) (z y : A) (k : ℕ)
      → get_elem? (xs ++ (z ∷ [])) k ≡ some y
      → (get_elem? xs k ≡ some y) ⊎ (y ≡ z)
  get_elem?-append_cases [] z y zero at = inr (sym (Option.some_inj.0 at))
  get_elem?-append_cases [] z y (suc k) at = absurd cc
  get_elem?-append_cases (x ∷ xs) z y zero at = inl at
  get_elem?-append_cases (x ∷ xs) z y (suc k) at = get_elem?-append_cases xs z y k at

  pub All-set : (P : A → Type 0) (xs : List A) (i : ℕ) (x : A) → P x → All P xs → All P (set xs i x)
  unfolding set
  All-set P [] i x h hs = tt
  All-set P (x' ∷ xs) zero x h hs = (h, hs.1)
  All-set P (x' ∷ xs) (suc i) x h hs = (hs.0, All-set P xs i x h hs.1)

pub map-set :
    {A B : Type 0} (f : A → B) (xs : List A) (i : ℕ) (x y : A)
    → get_elem? xs i ≡ some y
    → f x ≡ f y
    → map f (set xs i x) ≡ map f xs
unfolding set
map-set f [] i x y at e = refl
map-set f (x' ∷ xs) zero x y at e = ap (λ z. z ∷ map f xs) (e ∙ sym (ap f (Option.some_inj.0 at)))
map-set f (x' ∷ xs) (suc i) x y at e = ap (λ zs. f x' ∷ zs) (map-set f xs i x y at e)
