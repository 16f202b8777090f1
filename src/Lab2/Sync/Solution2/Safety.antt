-- ===== src/Lab2/Sync/Solution2/Safety.antt =====
-- Solution 2: the threads in the critical section, the order of writers and readers, and the counts.
use os_class.Common.{
  ℕ, ◌+◌, ◌<◌, ◌^◌, ◌≡◌, inl, inr, Bool, true, false, none, some, List, pos, get_elem?, le-total,
  add-le-total, ℕ_discrete, arith, Option-cases,
}
use os_class.Lab2.Sync.Semaphores.{Semaphores}
use os_class.Lab2.Sync.System.{System, Reach}
use os_class.Lab2.Sync.Switch.{is_passing, is_settled, is_draining, is_last, counted}
use os_class.Lab2.Sync.Solution2.{
  Shared, Place, writer_counted, writer_down_writer, writing, writer_leaving, writer_decrement,
  writer_test_last, writer_up_reader, enter_reader, reading, step, protocol,
}
use os_class.Lab2.Sync.Solution2.Inv.{writer_stage, reader_stage, is_writing, Inv}
use os_class.Lab2.Sync.Solution2.Always.{Reach-Inv}

-- In the critical section, as a reader or a writer.
abbrev pub inside : Place → Bool
inside writing = true
inside reading = true
inside _ = false

-- A writer that has made its test of `WriterCount`, and its `down(&SemaphoreReader)` if the test asks
-- for it, until it has made its last test and the `up(&SemaphoreReader)` that may follow.
abbrev pub has_priority : Place → Bool
has_priority writer_counted = true
has_priority writer_down_writer = true
has_priority writing = true
has_priority writer_leaving = true
has_priority writer_decrement = true
has_priority writer_test_last = true
has_priority writer_up_reader = true
has_priority _ = false

module _ (sem : Semaphores) where
  open sem use {Semaphore, down, value, value-down}

  alone :
      {l : Shared Semaphore} (ps : List Place) (i j : ℕ) (q : Place)
      → Inv sem l ps
      → get_elem? ps i ≡ some writing
      → get_elem? ps j ≡ some q
      → inside q ≡ true
      → i ≡ j
  alone ps i j writing inv hi hj h = elim (ℕ_discrete i j) [
    | yes e ↦ e
    | no d ↦ absurd (omega (arith, inv.readers, add-le-total is_writing ps i j d hi hj))
  ]
  alone ps i j reading inv hi hj h = absurd (
      omega (
        arith,
        inv.readers,
        le-total is_writing ps i hi,
        le-total (λ p. is_settled (reader_stage p)) ps j hj,
      ))
  alone ps i j _ inv hi hj h = absurd (cc h)

  -- Mutual exclusion: in every state that `n` threads (fewer than 2^31 - 1) can reach, a thread that
  -- is in the critical section beside a writer is that writer.
  pub writer_excludes :
      {n : ℕ} {s : System (Shared Semaphore) Place}
      → n + 1 < 2 ^ 31
      → Reach (protocol sem) n s
      → (i j : ℕ) {q : Place} → get_elem? s.threads i ≡ some writing
      → get_elem? s.threads j ≡ some q
      → inside q ≡ true
      → i ≡ j
  writer_excludes {s} h r i j {q} hi hj hq = alone s.threads i j q (Reach-Inv sem h r) hi hj hq

  prior :
      (p : Place)
      → has_priority p ≡ true
      → 0
        < is_passing (writer_stage p)
          + is_settled (writer_stage p)
          + is_draining (writer_stage p)
          + is_last (writer_stage p)
  prior writer_counted h = omega arith
  prior writer_down_writer h = omega arith
  prior writing h = omega arith
  prior writer_leaving h = omega arith
  prior writer_decrement h = omega arith
  prior writer_test_last h = omega arith
  prior writer_up_reader h = omega arith
  prior _ h = absurd (cc h)

  refused : (s : Semaphore) → value s ≡ 0 → down s ≡ none
  refused s h = elim (Option-cases (down s)) [
    | inl e ↦ e
    | inr t ↦ absurd (omega (arith, value-down s t.1))
  ]

  -- Writers come first: in every state that `n` threads (fewer than 2^31 - 1) can reach, a reader that
  -- arrives sleeps at its first statement, `down(&SemaphoreReader)`, while some writer is in the part of
  -- its way from the end of its test of `WriterCount`, and of the `down(&SemaphoreReader)` behind it, to
  -- the end of its last test of `WriterCount`, and of the `up(&SemaphoreReader)` behind it: a writer
  -- that waits at `down(&SemaphoreWriter)`, writes or leaves. A writer that is still before that
  -- `down(&SemaphoreReader)` is not meant.
  pub writers_first :
      {n : ℕ} {s : System (Shared Semaphore) Place}
      → n + 1 < 2 ^ 31
      → Reach (protocol sem) n s
      → (i : ℕ) {p : Place} → get_elem? s.threads i ≡ some p
      → has_priority p ≡ true
      → step sem s.shared enter_reader ≡ none
  unfolding step
  writers_first {s} h r i {p} hi hp = rw (
      refused s.shared.semaphore_reader (
        omega (
          arith,
          (Reach-Inv sem h r).writers,
          prior p hp,
          le-total (λ q. is_passing (writer_stage q)) s.threads i hi,
          le-total (λ q. is_settled (writer_stage q)) s.threads i hi,
          le-total (λ q. is_draining (writer_stage q)) s.threads i hi,
          le-total (λ q. is_last (writer_stage q)) s.threads i hi,
        )))

  -- In every state that `n` threads (fewer than 2^31 - 1) can reach, `WriterCount` and `ReaderCount`
  -- are the numbers of writers and of readers that have counted themselves and not yet discounted
  -- themselves.
  pub both_counted :
      {n : ℕ} {s : System (Shared Semaphore) Place}
      → n + 1 < 2 ^ 31
      → Reach (protocol sem) n s
      → (s.shared.writer_count ≡ pos (counted writer_stage s.threads))
        × (s.shared.reader_count ≡ pos (counted reader_stage s.threads))
  both_counted h r = ((Reach-Inv sem h r).writers_counted, (Reach-Inv sem h r).readers_counted)
