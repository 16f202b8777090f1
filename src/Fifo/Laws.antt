-- ===== src/Fifo/Laws.antt =====
-- The cases of the queue's operations, as equations.
use os_class.Common.{
  ◌⊎◌, inl, inr, Bool-cases, Option-cases, ap, ℕ, ◌<◌, ◌≤◌, ◌≡◌, refl, Bool, true, false, none,
  some, List, [], ◌∷◌, ◌++◌, arith, ℤ, pos, negsuc, length, ltb_ℤ, All-append,
}
use os_class.Ring.{ring_size, IsNonnegative, AllNonnegative}
use os_class.Fifo.{offer, poll, enqueue, dequeue}

pub enqueue_negative : (x : ℤ) (q : List ℤ) → ltb_ℤ x (pos 0) ≡ true → enqueue x q ≡ (negsuc 1, q)
unfolding enqueue
enqueue_negative x q h = rw h

pub enqueue_full :
    (x : ℤ) (q : List ℤ)
    → ltb_ℤ x (pos 0) ≡ false
    → length q ≡ ring_size
    → enqueue x q ≡ (negsuc 0, q)
unfolding enqueue offer
enqueue_full x q h e = rw (h, e)

pub enqueue_room :
    (x : ℤ) (q : List ℤ)
    → ltb_ℤ x (pos 0) ≡ false
    → length q < ring_size
    → enqueue x q ≡ (pos 0, q ++ (x ∷ []))
unfolding enqueue offer
enqueue_room x q h e = rw h (ground arith)

pub nonnegative : (x : ℤ) → ltb_ℤ x (pos 0) ≡ false → IsNonnegative x
nonnegative x h = ground arith

-- An insertion keeps the clips nonnegative and at most five.
pub enqueue-AllNonnegative :
    (x : ℤ) (q : List ℤ) → AllNonnegative q → AllNonnegative (enqueue x q).1
unfolding enqueue offer
enqueue-AllNonnegative x q h = ground (arith, nonnegative x, All-append IsNonnegative q (x ∷ []) h)

pub dequeue_empty :
    (deliver : ℤ → Bool) (q : List ℤ) → q ≡ [] → dequeue deliver q ≡ (negsuc 0, none, [])
unfolding dequeue poll
dequeue_empty deliver q e = rw e

pub dequeue-some :
    (deliver : ℤ → Bool) (x : ℤ) (q : List ℤ)
    → deliver x ≡ true
    → dequeue deliver (x ∷ q) ≡ (pos 0, some x, q)
unfolding dequeue poll
dequeue-some deliver x q e = rw e

pub dequeue_undelivered :
    (deliver : ℤ → Bool) (x : ℤ) (q : List ℤ)
    → deliver x ≡ false
    → dequeue deliver (x ∷ q) ≡ (negsuc 1, none, x ∷ q)
unfolding dequeue poll
dequeue_undelivered deliver x q e = rw e

pub offer_room : (x : ℤ) (q : List ℤ) → length q < ring_size → offer x q ≡ some (q ++ (x ∷ []))
unfolding offer
offer_room x q h = ground arith

pub offer_full : (x : ℤ) (q : List ℤ) → length q ≡ ring_size → offer x q ≡ none
unfolding offer
offer_full x q e = rw e

pub offer-some : (x : ℤ) (q : List ℤ) {q' : List ℤ} → offer x q ≡ some q' → q' ≡ q ++ (x ∷ [])
unfolding offer
offer-some x q h = ground arith

-- An insertion appends, or returns a small negative number and changes nothing.
pub enqueue_cases :
    (x : ℤ) (q : List ℤ)
    → ((enqueue x q ≡ (pos 0, q ++ (x ∷ []))) × IsNonnegative x)
      ⊎ ((r : ℕ) × (enqueue x q ≡ (negsuc r, q)) × (r ≤ 1))
unfolding enqueue
enqueue_cases x q = elim (Bool-cases (ltb_ℤ x (pos 0))) [
  | inl minus ↦ inr (1, rw minus, omega arith)
  | inr plus ↦ elim (Option-cases (offer x q)) [
    | inl full ↦ inr (0, rw (plus, full), omega arith)
    | inr (q', room) ↦
        inl (rw (plus, room) (ap (λ l. (pos 0, l)) (offer-some x q room)), nonnegative x plus)
  ]
]

-- A removal hands over the first clip, or returns a small negative number and changes nothing.
pub dequeue_cases :
    (deliver : ℤ → Bool) (q : List ℤ)
    → ((x : ℤ) × (rest : List ℤ) × (q ≡ x ∷ rest) × (dequeue deliver q ≡ (pos 0, some x, rest)))
      ⊎ ((r : ℕ) × (dequeue deliver q ≡ (negsuc r, none, q)) × (r ≤ 1))
dequeue_cases deliver [] = inr (0, dequeue_empty deliver [] refl, omega arith)
dequeue_cases deliver (x ∷ q) = elim (Bool-cases (deliver x)) [
  | inl e ↦ inl (x, q, refl, dequeue-some deliver x q e)
  | inr e ↦ inr (1, dequeue_undelivered deliver x q e, omega arith)
]
