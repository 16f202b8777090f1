-- ===== src/Lab2/Sync/Solution3/Waking.antt =====
-- Solution 3: the loop in which a leaving writer wakes the readers.
use os_class.Common.{
  ℕ, zero, suc, ◌+◌, ◌<◌, ◌^◌, ◌≡◌, refl, ap, ◌∙◌, Bool, true, false, some, ℤ, pos, inc32,
  inc32-pos, ltb_ℤ, done, arith,
}
use os_class.Lab2.Sync.Semaphores.{Semaphores}
use os_class.Lab2.Sync.Alone.{walk, walk-run}
use os_class.Lab2.Sync.Solution3.{Shared, Place, writer_wake_readers, writer_left, step, protocol}

abbrev pub at_left : Place → Bool
at_left writer_left = true
at_left _ = false

module _ (sem : Semaphores) where
  open sem use {Semaphore, up, value, value-up}

  -- What the loop did in `k` more rounds: `k` tasks more may pass `SemaphoreReader`, and nothing else
  -- changed.
  abbrev pub Woke : Shared Semaphore → ℕ → ℤ → ℕ → Type 0
  Woke l fuel index k =
      (s : Semaphore) × (walk (protocol sem) at_left fuel l (writer_wake_readers index)
        ≡ done (record l { semaphore_reader = s }))
      × (value s ≡ value l.semaphore_reader + k)

  -- One test of the loop.
  ends :
      (l : Shared Semaphore) (i : ℕ)
      → l.reader_waiting_count ≡ pos i
      → step sem l (writer_wake_readers (pos i)) ≡ some (l, writer_left)
  unfolding step
  ends l i e = rw none_left
    where
      none_left : ltb_ℤ (pos i) l.reader_waiting_count ≡ false
      none_left = rw e (ground arith)

  goes_on :
      (l : Shared Semaphore) (i k : ℕ)
      → l.reader_waiting_count ≡ pos (i + suc k)
      → step sem l (writer_wake_readers (pos i))
        ≡ some (
          record l { semaphore_reader = up l.semaphore_reader },
          writer_wake_readers (inc32 (pos i)),
        )
  unfolding step
  goes_on l i k e = rw one_left
    where
      one_left : ltb_ℤ (pos i) l.reader_waiting_count ≡ true
      one_left = rw e (ground arith)

  at_end : (l : Shared Semaphore) → walk (protocol sem) at_left 1 l writer_left ≡ done l
  unfolding walk
  at_end l = refl

  wakes :
      (k i : ℕ) (l : Shared Semaphore)
      → l.reader_waiting_count ≡ pos (i + k)
      → i + k < 2 ^ 31
      → Woke l (suc (suc k)) (pos i) k
  wakes zero i l e small = (
    l.semaphore_reader,
    walk-run (protocol sem) at_left 1 l (writer_wake_readers (pos i)) l writer_left refl
          (ends l i (e ∙ ap pos (omega arith)))
        ∙ at_end l,
    omega arith,
  )
  wakes (suc k) i l e small =
      let l₁ = record l { semaphore_reader = up l.semaphore_reader } in
      let (s, run, more) = wakes k (i + 1) l₁ (e ∙ ap pos (omega arith)) (omega arith) in
      (
        s,
        walk-run (protocol sem) at_left (suc (suc k)) l (writer_wake_readers (pos i)) l₁
              (writer_wake_readers (inc32 (pos i))) refl (goes_on l i k e)
            ∙ ap (λ index. walk (protocol sem) at_left (suc (suc k)) l₁ (writer_wake_readers index))
                (inc32-pos i (omega arith))
            ∙ run,
        omega (arith, more, value-up l.semaphore_reader),
      )

  -- A writer that leaves while `n` readers wait, `n` below 2^31, runs its loop to the end in `n` rounds,
  -- and wakes exactly `n`: so many tasks more may pass `SemaphoreReader`, and nothing else changes.
  pub wakes_all :
      (n : ℕ) (l : Shared Semaphore)
      → l.reader_waiting_count ≡ pos n
      → n < 2 ^ 31
      → Woke l (suc (suc n)) (pos 0) n
  wakes_all n l e small = wakes n 0 l (e ∙ ap pos (omega arith)) (omega arith)
