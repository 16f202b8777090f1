-- ===== src/Lab2/Interleaved/Lists.antt =====
-- Lists of threads under a map and under an update.
use os_class.Common.{
  ℕ, zero, suc, ◌≡◌, ◌≢◌, refl, sym, ap, ◌∙◌, some, List, [], ◌∷◌, map, get_elem?, set, replicate,
  arith, ℕ_discrete, inl, inr, ◌⊎◌,
}

module _ {ℓ} {A : Type ℓ} where
  pub get_elem?-set_self :
      (xs : List A) (i : ℕ) {x : A} (y : A)
      → get_elem? xs i ≡ some x
      → get_elem? (set xs i y) i ≡ some y
  get_elem?-set_self [] i y h = absurd (cc h)
  get_elem?-set_self (x ∷ xs) zero y h = refl
  get_elem?-set_self (x ∷ xs) (suc i) y h = get_elem?-set_self xs i y h

  pub get_elem?-set_ne :
      (xs : List A) (i j : ℕ) (y : A) → i ≢ j → get_elem? (set xs i y) j ≡ get_elem? xs j
  get_elem?-set_ne [] i j y h = refl
  get_elem?-set_ne (x ∷ xs) zero zero y h = absurd (h refl)
  get_elem?-set_ne (x ∷ xs) zero (suc j) y h = refl
  get_elem?-set_ne (x ∷ xs) (suc i) zero y h = refl
  get_elem?-set_ne (x ∷ xs) (suc i) (suc j) y h = get_elem?-set_ne xs i j y (λ e. h (ap suc e))

  pub set_same : (xs : List A) (i : ℕ) {x : A} → get_elem? xs i ≡ some x → set xs i x ≡ xs
  set_same [] i h = refl
  set_same (y ∷ xs) zero h = ground arith
  set_same (y ∷ xs) (suc i) h = ap (λ l. y ∷ l) (set_same xs i h)

  -- What is found after an update: the new value, or what was there.
  pub set_cases :
      (xs : List A) (i j : ℕ) {x y u : A}
      → get_elem? xs i ≡ some x
      → get_elem? (set xs i y) j ≡ some u
      → ((i ≡ j) × (y ≡ u)) ⊎ ((i ≢ j) × (get_elem? xs j ≡ some u))
  set_cases xs i j {x} {y} here h = elim (ℕ_discrete i j) [
    | yes e ↦ inl (e, cc (get_elem?-set_self xs i y here, h, e))
    | no d ↦ inr (d, sym (get_elem?-set_ne xs i j y d) ∙ h)
  ]

  pub get_elem?-replicate : (n i : ℕ) (x : A) {y : A} → get_elem? (replicate n x) i ≡ some y → x ≡ y
  get_elem?-replicate zero i x h = absurd (cc h)
  get_elem?-replicate (suc n) zero x h = cc h
  get_elem?-replicate (suc n) (suc i) x h = get_elem?-replicate n i x h

module _ {ℓ κ} {A : Type ℓ} {B : Type κ} (f : A → B) where
  pub map-set : (xs : List A) (i : ℕ) (y : A) → map f (set xs i y) ≡ set (map f xs) i (f y)
  map-set [] i y = refl
  map-set (x ∷ xs) zero y = refl
  map-set (x ∷ xs) (suc i) y = ap (λ l. f x ∷ l) (map-set xs i y)

  pub map-replicate : (n : ℕ) (x : A) → map f (replicate n x) ≡ replicate n (f x)
  map-replicate zero x = refl
  map-replicate (suc n) x = ap (λ l. f x ∷ l) (map-replicate n x)

  pub get_elem?-map :
      (xs : List A) (i : ℕ) {x : A} → get_elem? xs i ≡ some x → get_elem? (map f xs) i ≡ some (f x)
  get_elem?-map [] i h = absurd (cc h)
  get_elem?-map (x ∷ xs) zero h = cc h
  get_elem?-map (x ∷ xs) (suc i) h = get_elem?-map xs i h
