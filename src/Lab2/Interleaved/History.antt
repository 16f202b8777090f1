-- ===== src/Lab2/Interleaved/History.antt =====
-- What the handlers of lab2/KboardModule.c complete, and when a queue could have given the same.
use os_class.Common.{
  ℕ, zero, suc, get_elem?, arith, length, ◌≤◌, ◌<◌, Bool-cases, ◌⊎◌, Bool, true, false, ◌||◌, ◌≡◌,
  refl, ap, ◌∙◌, Option, none, some, List, [], ◌∷◌, ◌++◌, ℤ, eqb_ℤ, inl, inr, if◌then◌else◌,
  Option-cases,
}
use os_class.Ring.{init_value, ring_size}
use os_class.Fifo

-- A number added, or refused; a clip removed, or none found; a slot looked at.
pub data Event : Type 0 where
  added refused : ℤ → Event
  removed : Option ℤ → Event
  looked : ℤ → Event

abbrev pub contains : ℤ → List ℤ → Bool
contains x [] = false
contains x (y ∷ q) = eqb_ℤ x y || contains x q

-- The queue after an event, `none` if the queue could not have given it.
abbrev pub apply : Event → List ℤ → Option (List ℤ)
apply (added x) q = Fifo.offer x q
apply (refused x) q = elim (Fifo.offer x q) [ none ↦ some q | some q' ↦ none ]
apply (removed none) q = elim (Fifo.poll q) [ none ↦ some q | some y ↦ none ]
apply (removed (some x)) q = elim (Fifo.poll q) [
  | none ↦ none
  | some (y, q') ↦ if eqb_ℤ x y then some q' else none
]
apply (looked x) q = if eqb_ℤ x init_value || contains x q then some q else none

-- The queue after a history, the latest event first.
abbrev pub replay : List Event → List ℤ → Option (List ℤ)
replay [] q = some q
replay (e ∷ h) q = elim (replay h q) [ none ↦ none | some q' ↦ apply e q' ]

pub replay-append :
    (es h : List Event) (q : List ℤ) {q' q'' : List ℤ}
    → replay h q ≡ some q'
    → replay es q' ≡ some q''
    → replay (es ++ h) q ≡ some q''
replay-append [] h q e e' = rw e e'
replay-append (ev ∷ es) h q {q'} e e' = elim (Option-cases (replay es q')) [
  | inl none_left ↦ absurd (cc (rw none_left at e'))
  | inr (m, now) ↦ rw (replay-append es h q e now) (rw now at e')
]

eqb_ℤ-same : (x : ℤ) → eqb_ℤ x x ≡ true
eqb_ℤ-same x = ground arith

pub contains_lem : (q : List ℤ) (k : ℕ) (x : ℤ) → get_elem? q k ≡ some x → contains x q ≡ true
contains_lem [] k x h = absurd (cc h)
contains_lem (y ∷ q) zero x h =
    ap (λ z. eqb_ℤ x z || contains x q) {y = x} (cc h) ∙ rw (eqb_ℤ-same x)
contains_lem (y ∷ q) (suc k) x h = rw (contains_lem q k x h) (ground arith)

-- The queue gives each of the events, when it is in the state for it.
module _ (x : ℤ) (q : List ℤ) where
  pub apply-added : length q < ring_size → apply (added x) q ≡ some (q ++ (x ∷ []))
  unfolding Fifo.offer
  apply-added room = ground arith

  pub apply-refused : ring_size ≤ length q → apply (refused x) q ≡ some q
  unfolding Fifo.offer
  apply-refused full = ground arith

  pub apply-removed : apply (removed (some x)) (x ∷ q) ≡ some q
  unfolding Fifo.poll
  apply-removed = rw (eqb_ℤ-same x)

pub apply-removed_none : (q : List ℤ) → length q ≡ 0 → apply (removed none) q ≡ some q
unfolding Fifo.poll
apply-removed_none [] h = refl
apply-removed_none (x ∷ q) h = absurd (omega (arith, h))

pub apply-looked :
    (x : ℤ) (q : List ℤ)
    → (x ≡ init_value) ⊎ ((k : ℕ) × (get_elem? q k ≡ some x))
    → apply (looked x) q ≡ some q
apply-looked x q (inl e) = rw e
apply-looked x q (inr (k, e)) = elim (Bool-cases (eqb_ℤ x init_value)) [
  | inl h ↦ rw h
  | inr h ↦ rw (h, contains_lem q k x e)
]
