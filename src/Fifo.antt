-- ===== src/Fifo.antt =====
-- The contract of the clipboard of both versions (lab1/kernel/os_kboard.c, lab2/KboardModule.c):
-- a first-in first-out queue of at most five clips.
pub mod Laws
use os_class.Common.{
  ltb_ℤ, pos, negsuc, Bool, Option, none, some, List, [], ◌∷◌, ◌++◌, ℤ, length, leb, if◌then◌else◌,
}
use os_class.Ring.{ring_size}

-- `none`: the queue is full, and stays as it is.
unfoldable pub offer : ℤ → List ℤ → Option (List ℤ)
offer x q = if leb ring_size (length q) then none else some (q ++ (x ∷ []))

-- `none`: the queue is empty.
unfoldable pub poll : List ℤ → Option (ℤ × List ℤ)
poll [] = none
poll (x ∷ q) = some (x, q)

-- The value that an insertion returns: -2 for a negative clip, -1 if the queue is full, and 0.
unfoldable pub enqueue : ℤ → List ℤ → ℤ × List ℤ
enqueue x q =
    if ltb_ℤ x (pos 0)
    then (negsuc 1, q)
    else elim (offer x q) [ none ↦ (negsuc 0, q) | some q' ↦ (pos 0, q') ]

-- The value that a removal returns, the clip that is handed over, and the queue. A removal whose
-- clip cannot be delivered returns -2 and keeps the clip.
unfoldable pub dequeue : (ℤ → Bool) → List ℤ → ℤ × Option ℤ × List ℤ
dequeue deliver q = elim (poll q) [
  | none ↦ (negsuc 0, none, q)
  | some (x, q') ↦ if deliver x then (pos 0, some x, q') else (negsuc 1, none, q)
]
