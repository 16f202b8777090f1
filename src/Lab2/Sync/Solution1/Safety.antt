-- ===== src/Lab2/Sync/Solution1/Safety.antt =====
-- Solution 1: the threads in the critical section, and the count of readers.
use os_class.Common.{
  ℕ, ◌+◌, ◌<◌, ◌^◌, ◌≡◌, Bool, true, false, some, List, pos, get_elem?, le-total, add-le-total,
  ℕ_discrete, arith,
}
use os_class.Lab2.Sync.Semaphores.{Semaphores}
use os_class.Lab2.Sync.System.{System, Reach}
use os_class.Lab2.Sync.Switch.{is_settled, counted}
use os_class.Lab2.Sync.Solution1.{Shared, Place, writing, reading, protocol}
use os_class.Lab2.Sync.Solution1.Inv.{reader_stage, is_writing, Inv}
use os_class.Lab2.Sync.Solution1.Always.{Reach-Inv}

-- In the critical section, as a reader or a writer.
abbrev pub inside : Place → Bool
inside writing = true
inside reading = true
inside _ = false

module _ (sem : Semaphores) where
  open sem use {Semaphore, down, value, down-none}

  alone :
      {l : Shared Semaphore} (ps : List Place) (i j : ℕ) (q : Place)
      → Inv sem l ps
      → get_elem? ps i ≡ some writing
      → get_elem? ps j ≡ some q
      → inside q ≡ true
      → i ≡ j
  alone ps i j writing inv hi hj h = elim (ℕ_discrete i j) [
    | yes e ↦ e
    | no d ↦ absurd (omega (arith, inv.switch, add-le-total is_writing ps i j d hi hj))
  ]
  alone ps i j reading inv hi hj h = absurd (
      omega (
        arith,
        inv.switch,
        le-total is_writing ps i hi,
        le-total (λ p. is_settled (reader_stage p)) ps j hj,
      ))
  alone ps i j _ inv hi hj h = absurd (cc h)

  -- Mutual exclusion: in every state that `n` threads (fewer than 2^31 - 1) can reach, a thread that
  -- is in the critical section beside a writer is that writer.
  pub mutual_exclusion :
      {n : ℕ} {s : System (Shared Semaphore) Place}
      → n + 1 < 2 ^ 31
      → Reach (protocol sem) n s
      → (i j : ℕ) {q : Place} → get_elem? s.threads i ≡ some writing
      → get_elem? s.threads j ≡ some q
      → inside q ≡ true
      → i ≡ j
  mutual_exclusion {s} h r i j {q} hi hj hq = alone s.threads i j q (Reach-Inv sem h r) hi hj hq

  -- In every state that `n` threads (fewer than 2^31 - 1) can reach, `ReaderCount` is the number of
  -- readers that have counted themselves and not yet discounted themselves.
  pub reader_count-counted :
      {n : ℕ} {s : System (Shared Semaphore) Place}
      → n + 1 < 2 ^ 31
      → Reach (protocol sem) n s
      → s.shared.reader_count ≡ pos (counted reader_stage s.threads)
  reader_count-counted h r = (Reach-Inv sem h r).count
