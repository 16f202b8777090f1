-- ===== src/Lab2/Sync/Solution1/Progress.antt =====
-- Solution 1: which threads can take a step, in each state of the semaphores.
use os_class.Common.{
  ℕ, ◌+◌, ◌<◌, ◌^◌, ◌≡◌, ◌≢◌, refl, inl, inr, true, some, List, get_elem?, total, le-total, dec_lt,
  arith, eqb_ℤ, Bool-cases, pos,
}
use os_class.Lab2.Sync.Semaphores.{Semaphores}
use os_class.Lab2.Sync.System.{System, Reach}
use os_class.Lab2.Sync.Switch.{
  Stage, number, counted, is_other, is_passing, is_settled, is_testing, is_first, is_draining,
  is_last,
}
use os_class.Lab2.Sync.Living.{CanStep, Lives, someone, passes, mutex_taken, resource_taken}
use os_class.Lab2.Sync.Solution1.{
  Shared, Place, outside, enter_writer, writing, enter_reader, reader_increment, reader_test_first,
  reader_down_writer, reader_entered, reading, reader_decrement, reader_test_last, reader_up_writer,
  reader_left, step, protocol,
}
use os_class.Lab2.Sync.Solution1.Inv.{reader_stage, is_writing, Inv}
use os_class.Lab2.Sync.Solution1.Always.{Reach-Inv}

module _ (sem : Semaphores) where
  open sem use {Semaphore, down, value, down-none}

  module _ (l : Shared Semaphore) where
    writing-CanStep : (q : Place) → 0 < is_writing q → CanStep (protocol sem) l q
    unfolding step
    writing-CanStep writing h = (_, refl)
    writing-CanStep _ h = absurd (omega arith)

    other-CanStep : (q : Place) → 0 < is_other (reader_stage q) → CanStep (protocol sem) l q
    unfolding step
    other-CanStep reader_increment h = (_, refl)
    other-CanStep reader_left h = (_, refl)
    other-CanStep _ h = absurd (omega arith)

    passing-CanStep : (q : Place) → 0 < is_passing (reader_stage q) → CanStep (protocol sem) l q
    unfolding step
    passing-CanStep reader_entered h = (_, refl)
    passing-CanStep reader_decrement h = (_, refl)
    passing-CanStep _ h = absurd (omega arith)

    testing-CanStep : (q : Place) → 0 < is_testing (reader_stage q) → CanStep (protocol sem) l q
    unfolding step
    testing-CanStep reader_test_first h = (_, refl)
    testing-CanStep _ h = absurd (omega arith)

    draining-CanStep : (q : Place) → 0 < is_draining (reader_stage q) → CanStep (protocol sem) l q
    unfolding step
    draining-CanStep reader_test_last h = (_, refl)
    draining-CanStep _ h = absurd (omega arith)

    last-CanStep : (q : Place) → 0 < is_last (reader_stage q) → CanStep (protocol sem) l q
    unfolding step
    last-CanStep reader_up_writer h = (_, refl)
    last-CanStep _ h = absurd (omega arith)

    first-CanStep :
        0 < value l.semaphore_writer
        → (q : Place) → 0 < is_first (reader_stage q)
        → CanStep (protocol sem) l q
    unfolding step
    first-CanStep v reader_down_writer h = passes sem _ l.semaphore_writer v
    first-CanStep v _ h = absurd (omega arith)

    settled-CanStep :
        0 < value l.semaphore_mutex
        → (q : Place) → 0 < is_settled (reader_stage q)
        → CanStep (protocol sem) l q
    unfolding step
    settled-CanStep v reading h = passes sem _ l.semaphore_mutex v
    settled-CanStep v _ h = absurd (omega arith)

  module _ (l : Shared Semaphore) (ps : List Place) (inv : Inv sem l ps) where
    abbrev Alive : Type 0
    Alive = Lives (protocol sem) l ps

    stage_alive :
        (w : Stage → ℕ)
        → ((q : Place) → 0 < w (reader_stage q) → CanStep (protocol sem) l q)
        → 0 < number reader_stage w ps
        → Alive
    stage_alive w = someone (protocol sem) l ps (λ q. w (reader_stage q))

    writers_alive : 0 < total is_writing ps → Alive
    writers_alive = someone (protocol sem) l ps is_writing (writing-CanStep l)

    -- The holder of the mutex can step, or waits for a writer, who can.
    mutex_alive : value l.semaphore_mutex ≡ 0 → Alive
    mutex_alive =
        mutex_taken inv.switch (stage_alive is_other (other-CanStep l))
          (stage_alive is_passing (passing-CanStep l)) (stage_alive is_testing (testing-CanStep l))
          (stage_alive is_draining (draining-CanStep l)) (stage_alive is_last (last-CanStep l))
          writers_alive (λ free. stage_alive is_first (first-CanStep l free))

    settled_alive : 0 < number reader_stage is_settled ps → Alive
    settled_alive h = elim (dec_lt 0 (value l.semaphore_mutex)) [
      | no taken ↦ mutex_alive (omega arith)
      | yes free ↦ stage_alive is_settled (settled-CanStep l free) h
    ]

    -- A reader inside, or a writer, holds the writers' semaphore.
    writer_alive : value l.semaphore_writer ≡ 0 → Alive
    writer_alive =
        resource_taken inv.switch (stage_alive is_other (other-CanStep l))
          (stage_alive is_passing (passing-CanStep l)) (stage_alive is_testing (testing-CanStep l))
          (stage_alive is_draining (draining-CanStep l)) (stage_alive is_last (last-CanStep l))
          writers_alive settled_alive

    lives : (i : ℕ) (p : Place) → get_elem? ps i ≡ some p → p ≢ outside → Alive
    unfolding step
    lives i outside e h = absurd (h refl)
    lives i enter_writer e h = elim (dec_lt 0 (value l.semaphore_writer)) [
      | yes v ↦ (i, enter_writer, e, passes sem _ l.semaphore_writer v)
      | no v ↦ writer_alive (omega arith)
    ]
    lives i reader_down_writer e h = elim (dec_lt 0 (value l.semaphore_writer)) [
      | yes v ↦ (i, reader_down_writer, e, passes sem _ l.semaphore_writer v)
      | no v ↦ writer_alive (omega arith)
    ]
    lives i enter_reader e h = elim (dec_lt 0 (value l.semaphore_mutex)) [
      | yes v ↦ (i, enter_reader, e, passes sem _ l.semaphore_mutex v)
      | no v ↦ mutex_alive (omega arith)
    ]
    lives i reading e h = elim (dec_lt 0 (value l.semaphore_mutex)) [
      | yes v ↦ (i, reading, e, passes sem _ l.semaphore_mutex v)
      | no v ↦ mutex_alive (omega arith)
    ]
    lives i _ e h = (i, _, e, (_, refl))

  -- No deadlock: in every state that `n` threads (fewer than 2^31 - 1) can reach, if some thread is in
  -- a call of one of the four functions, some thread can take its next step.
  pub no_deadlock :
      {n : ℕ} {s : System (Shared Semaphore) Place}
      → n + 1 < 2 ^ 31
      → Reach (protocol sem) n s
      → (i : ℕ) {p : Place} → get_elem? s.threads i ≡ some p
      → p ≢ outside
      → Lives (protocol sem) s.shared s.threads
  no_deadlock {s} h r i {p} e out = lives s.shared s.threads (Reach-Inv sem h r) i p e out

  -- Readers come first: while a thread is reading, a reader that has counted itself goes on to the
  -- critical section without a `down` of the writers' semaphore, whatever writers wait.
  pub readers_share :
      {n : ℕ} {s : System (Shared Semaphore) Place}
      → n + 1 < 2 ^ 31
      → Reach (protocol sem) n s
      → (i j : ℕ) → get_elem? s.threads i ≡ some reading
      → get_elem? s.threads j ≡ some reader_test_first
      → step sem s.shared reader_test_first ≡ some (s.shared, reader_entered)
  unfolding step
  readers_share {s} h r i j hi hj = elim (Bool-cases (eqb_ℤ s.shared.reader_count (pos 1))) [
    | inr more ↦ rw more
    | inl one ↦ absurd (
        omega (
          arith,
          counted_one one,
          le-total (λ p. is_settled (reader_stage p)) s.threads i hi,
          le-total (λ p. is_testing (reader_stage p)) s.threads j hj,
        ))
  ]
    where
      counted_one : eqb_ℤ s.shared.reader_count (pos 1) ≡ true → counted reader_stage s.threads ≡ 1
      counted_one h' = ground (arith, (Reach-Inv sem h r).count)
