-- ===== src/Lab2/Sync/Solution2/Progress.antt =====
-- Solution 2: which threads can take a step, in each state of the semaphores.
use os_class.Common.{ℕ, ◌+◌, ◌<◌, ◌^◌, ◌≡◌, ◌≢◌, refl, some, List, get_elem?, dec_lt, arith}
use os_class.Lab2.Sync.Semaphores.{Semaphores}
use os_class.Lab2.Sync.System.{System, Reach}
use os_class.Lab2.Sync.Switch.{
  Stage, number, is_other, is_passing, is_settled, is_testing, is_first, is_draining, is_last,
}
use os_class.Lab2.Sync.Living.{
  CanStep, Lives, weighs-Lives, someone, passes, mutex_taken, resource_taken,
}
use os_class.Lab2.Sync.Solution2.{
  Shared, Place, outside, enter_writer, writer_down_reader, writer_down_writer, writing,
  writer_leaving, enter_reader, reader_down_mutex, reader_down_writer, reading, step, protocol,
}
use os_class.Lab2.Sync.Solution2.Inv.{writer_stage, reader_stage, is_writing, is_at_gate, Inv}
use os_class.Lab2.Sync.Solution2.Always.{Reach-Inv}
use os_class.Lab2.Sync.Solution2.Ready.{
  writing-CanStep, gate-CanStep, reader_other-CanStep, reader_passing-CanStep,
  reader_testing-CanStep, reader_draining-CanStep, reader_last-CanStep, writer_other-CanStep,
  writer_passing-CanStep, writer_testing-CanStep, writer_draining-CanStep, writer_last-CanStep,
  reader_first-CanStep, reader_settled-CanStep, writer_first-CanStep,
}

module _ (sem : Semaphores) where
  open sem use {Semaphore, value}

  module _ (l : Shared Semaphore) (ps : List Place) (inv : Inv sem l ps) where
    abbrev Alive : Type 0
    Alive = Lives (protocol sem) l ps

    reader_alive :
        (w : Stage → ℕ)
        → ((q : Place) → 0 < w (reader_stage q) → CanStep (protocol sem) l q)
        → 0 < number reader_stage w ps
        → Alive
    reader_alive w = someone (protocol sem) l ps (λ q. w (reader_stage q))

    writer_alive :
        (w : Stage → ℕ)
        → ((q : Place) → 0 < w (writer_stage q) → CanStep (protocol sem) l q)
        → 0 < number writer_stage w ps
        → Alive
    writer_alive w = someone (protocol sem) l ps (λ q. w (writer_stage q))

    -- `SemaphoreReaderMutex` is taken.
    reader_mutex_taken : value l.semaphore_reader_mutex ≡ 0 → Alive
    reader_mutex_taken =
        mutex_taken inv.readers (reader_alive is_other (reader_other-CanStep sem l))
          (reader_alive is_passing (reader_passing-CanStep sem l))
          (reader_alive is_testing (reader_testing-CanStep sem l))
          (reader_alive is_draining (reader_draining-CanStep sem l))
          (reader_alive is_last (reader_last-CanStep sem l))
          (someone (protocol sem) l ps is_writing (writing-CanStep sem l))
          (λ free. reader_alive is_first (reader_first-CanStep sem l free))

    reading_alive : 0 < number reader_stage is_settled ps → Alive
    reading_alive h = elim (dec_lt 0 (value l.semaphore_reader_mutex)) [
      | no taken ↦ reader_mutex_taken (omega arith)
      | yes free ↦ reader_alive is_settled (reader_settled-CanStep sem l free) h
    ]

    -- `SemaphoreWriter` is taken.
    semaphore_writer_taken : value l.semaphore_writer ≡ 0 → Alive
    semaphore_writer_taken =
        resource_taken inv.readers (reader_alive is_other (reader_other-CanStep sem l))
          (reader_alive is_passing (reader_passing-CanStep sem l))
          (reader_alive is_testing (reader_testing-CanStep sem l))
          (reader_alive is_draining (reader_draining-CanStep sem l))
          (reader_alive is_last (reader_last-CanStep sem l))
          (someone (protocol sem) l ps is_writing (writing-CanStep sem l)) reading_alive

    -- `SemaphoreWriterMutex` is taken.
    writer_mutex_taken : value l.semaphore_writer_mutex ≡ 0 → Alive
    writer_mutex_taken =
        mutex_taken inv.writers (writer_alive is_other (writer_other-CanStep sem l))
          (writer_alive is_passing (writer_passing-CanStep sem l))
          (writer_alive is_testing (writer_testing-CanStep sem l))
          (writer_alive is_draining (writer_draining-CanStep sem l))
          (writer_alive is_last (writer_last-CanStep sem l))
          (someone (protocol sem) l ps is_at_gate (gate-CanStep sem l))
          (λ free. writer_alive is_first (writer_first-CanStep sem l free))

    -- A thread that waits for one semaphore.
    at_writer_mutex :
        (i : ℕ) (p : Place)
        → get_elem? ps i ≡ some p
        → (0 < value l.semaphore_writer_mutex → CanStep (protocol sem) l p)
        → Alive
    at_writer_mutex i p e goes = elim (dec_lt 0 (value l.semaphore_writer_mutex)) [
      | yes v ↦ (i, p, e, goes v)
      | no v ↦ writer_mutex_taken (omega arith)
    ]

    at_semaphore_writer :
        (i : ℕ) (p : Place)
        → get_elem? ps i ≡ some p
        → (0 < value l.semaphore_writer → CanStep (protocol sem) l p)
        → Alive
    at_semaphore_writer i p e goes = elim (dec_lt 0 (value l.semaphore_writer)) [
      | yes v ↦ (i, p, e, goes v)
      | no v ↦ semaphore_writer_taken (omega arith)
    ]

    at_reader_mutex :
        (i : ℕ) (p : Place)
        → get_elem? ps i ≡ some p
        → (0 < value l.semaphore_reader_mutex → CanStep (protocol sem) l p)
        → Alive
    at_reader_mutex i p e goes = elim (dec_lt 0 (value l.semaphore_reader_mutex)) [
      | yes v ↦ (i, p, e, goes v)
      | no v ↦ reader_mutex_taken (omega arith)
    ]

    -- A writer that has gone through the first part and not yet begun the second.
    settled_writer :
        (i : ℕ) (q : Place) → get_elem? ps i ≡ some q → 0 < is_settled (writer_stage q) → Alive
    unfolding step
    settled_writer i writer_down_writer e h =
        at_semaphore_writer i writer_down_writer e (passes sem _ l.semaphore_writer)
    settled_writer i writing e h = (i, writing, e, (_, refl))
    settled_writer i writer_leaving e h =
        at_writer_mutex i writer_leaving e (passes sem _ l.semaphore_writer_mutex)
    settled_writer i _ e h = absurd (omega arith)

    -- `SemaphoreReader` is taken.
    semaphore_reader_taken : value l.semaphore_reader ≡ 0 → Alive
    semaphore_reader_taken =
        resource_taken inv.writers (writer_alive is_other (writer_other-CanStep sem l))
          (writer_alive is_passing (writer_passing-CanStep sem l))
          (writer_alive is_testing (writer_testing-CanStep sem l))
          (writer_alive is_draining (writer_draining-CanStep sem l))
          (writer_alive is_last (writer_last-CanStep sem l))
          (someone (protocol sem) l ps is_at_gate (gate-CanStep sem l))
          (weighs-Lives (protocol sem) l ps (λ q. is_settled (writer_stage q)) settled_writer)

    at_semaphore_reader :
        (i : ℕ) (p : Place)
        → get_elem? ps i ≡ some p
        → (0 < value l.semaphore_reader → CanStep (protocol sem) l p)
        → Alive
    at_semaphore_reader i p e goes = elim (dec_lt 0 (value l.semaphore_reader)) [
      | yes v ↦ (i, p, e, goes v)
      | no v ↦ semaphore_reader_taken (omega arith)
    ]

    lives : (i : ℕ) (p : Place) → get_elem? ps i ≡ some p → p ≢ outside → Alive
    unfolding step
    lives i outside e h = absurd (h refl)
    lives i enter_writer e h =
        at_writer_mutex i enter_writer e (passes sem _ l.semaphore_writer_mutex)
    lives i writer_down_reader e h =
        at_semaphore_reader i writer_down_reader e (passes sem _ l.semaphore_reader)
    lives i writer_down_writer e h =
        at_semaphore_writer i writer_down_writer e (passes sem _ l.semaphore_writer)
    lives i writer_leaving e h =
        at_writer_mutex i writer_leaving e (passes sem _ l.semaphore_writer_mutex)
    lives i enter_reader e h =
        at_semaphore_reader i enter_reader e (passes sem _ l.semaphore_reader)
    lives i reader_down_mutex e h =
        at_reader_mutex i reader_down_mutex e (passes sem _ l.semaphore_reader_mutex)
    lives i reader_down_writer e h =
        at_semaphore_writer i reader_down_writer e (passes sem _ l.semaphore_writer)
    lives i reading e h = at_reader_mutex i reading e (passes sem _ l.semaphore_reader_mutex)
    lives i _ e h = (i, _, e, (_, refl))

  -- No deadlock: in every state that `n` threads (fewer than 2^31 - 1) can reach, if some thread is in
  -- a call of one of the four functions or in the critical section, some thread can take its next
  -- step.
  pub never_stuck :
      {n : ℕ} {s : System (Shared Semaphore) Place}
      → n + 1 < 2 ^ 31
      → Reach (protocol sem) n s
      → (i : ℕ) {p : Place} → get_elem? s.threads i ≡ some p
      → p ≢ outside
      → Lives (protocol sem) s.shared s.threads
  never_stuck {s} h r i {p} e out = lives s.shared s.threads (Reach-Inv sem h r) i p e out
