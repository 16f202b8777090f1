-- ===== src/Lab2/Sync/Solution2/Ready.antt =====
-- Solution 2: the places at which a thread can step, alone or when the semaphore that it wants is free.
use os_class.Common.{◌<◌, refl, arith}
use os_class.Lab2.Sync.Semaphores.{Semaphores}
use os_class.Lab2.Sync.Switch.{
  is_other, is_passing, is_settled, is_testing, is_first, is_draining, is_last,
}
use os_class.Lab2.Sync.Living.{CanStep, passes}
use os_class.Lab2.Sync.Solution2.{
  Shared, Place, writer_increment, writer_test_first, writer_down_reader, writer_counted, writing,
  writer_decrement, writer_test_last, writer_up_reader, writer_left, reader_passing,
  reader_increment, reader_test_first, reader_down_writer, reader_entered, reading,
  reader_decrement, reader_test_last, reader_up_writer, reader_left, step, protocol,
}
use os_class.Lab2.Sync.Solution2.Inv.{writer_stage, reader_stage, is_writing, is_at_gate}

module _ (sem : Semaphores) where
  open sem use {Semaphore, value}

  module _ (l : Shared Semaphore) where
    pub writing-CanStep : (q : Place) → 0 < is_writing q → CanStep (protocol sem) l q
    unfolding step
    writing-CanStep writing h = (_, refl)
    writing-CanStep _ h = absurd (omega arith)

    pub gate-CanStep : (q : Place) → 0 < is_at_gate q → CanStep (protocol sem) l q
    unfolding step
    gate-CanStep reader_passing h = (_, refl)
    gate-CanStep _ h = absurd (omega arith)

    pub reader_other-CanStep :
        (q : Place) → 0 < is_other (reader_stage q) → CanStep (protocol sem) l q
    unfolding step
    reader_other-CanStep reader_increment h = (_, refl)
    reader_other-CanStep reader_left h = (_, refl)
    reader_other-CanStep _ h = absurd (omega arith)

    pub reader_passing-CanStep :
        (q : Place) → 0 < is_passing (reader_stage q) → CanStep (protocol sem) l q
    unfolding step
    reader_passing-CanStep reader_entered h = (_, refl)
    reader_passing-CanStep reader_decrement h = (_, refl)
    reader_passing-CanStep _ h = absurd (omega arith)

    pub reader_testing-CanStep :
        (q : Place) → 0 < is_testing (reader_stage q) → CanStep (protocol sem) l q
    unfolding step
    reader_testing-CanStep reader_test_first h = (_, refl)
    reader_testing-CanStep _ h = absurd (omega arith)

    pub reader_draining-CanStep :
        (q : Place) → 0 < is_draining (reader_stage q) → CanStep (protocol sem) l q
    unfolding step
    reader_draining-CanStep reader_test_last h = (_, refl)
    reader_draining-CanStep _ h = absurd (omega arith)

    pub reader_last-CanStep :
        (q : Place) → 0 < is_last (reader_stage q) → CanStep (protocol sem) l q
    unfolding step
    reader_last-CanStep reader_up_writer h = (_, refl)
    reader_last-CanStep _ h = absurd (omega arith)

    pub writer_other-CanStep :
        (q : Place) → 0 < is_other (writer_stage q) → CanStep (protocol sem) l q
    unfolding step
    writer_other-CanStep writer_increment h = (_, refl)
    writer_other-CanStep writer_left h = (_, refl)
    writer_other-CanStep _ h = absurd (omega arith)

    pub writer_passing-CanStep :
        (q : Place) → 0 < is_passing (writer_stage q) → CanStep (protocol sem) l q
    unfolding step
    writer_passing-CanStep writer_counted h = (_, refl)
    writer_passing-CanStep writer_decrement h = (_, refl)
    writer_passing-CanStep _ h = absurd (omega arith)

    pub writer_testing-CanStep :
        (q : Place) → 0 < is_testing (writer_stage q) → CanStep (protocol sem) l q
    unfolding step
    writer_testing-CanStep writer_test_first h = (_, refl)
    writer_testing-CanStep _ h = absurd (omega arith)

    pub writer_draining-CanStep :
        (q : Place) → 0 < is_draining (writer_stage q) → CanStep (protocol sem) l q
    unfolding step
    writer_draining-CanStep writer_test_last h = (_, refl)
    writer_draining-CanStep _ h = absurd (omega arith)

    pub writer_last-CanStep :
        (q : Place) → 0 < is_last (writer_stage q) → CanStep (protocol sem) l q
    unfolding step
    writer_last-CanStep writer_up_reader h = (_, refl)
    writer_last-CanStep _ h = absurd (omega arith)

    pub reader_first-CanStep :
        0 < value l.semaphore_writer
        → (q : Place) → 0 < is_first (reader_stage q)
        → CanStep (protocol sem) l q
    unfolding step
    reader_first-CanStep v reader_down_writer h = passes sem _ l.semaphore_writer v
    reader_first-CanStep v _ h = absurd (omega arith)

    pub reader_settled-CanStep :
        0 < value l.semaphore_reader_mutex
        → (q : Place) → 0 < is_settled (reader_stage q)
        → CanStep (protocol sem) l q
    unfolding step
    reader_settled-CanStep v reading h = passes sem _ l.semaphore_reader_mutex v
    reader_settled-CanStep v _ h = absurd (omega arith)

    pub writer_first-CanStep :
        0 < value l.semaphore_reader
        → (q : Place) → 0 < is_first (writer_stage q)
        → CanStep (protocol sem) l q
    unfolding step
    writer_first-CanStep v writer_down_reader h = passes sem _ l.semaphore_reader v
    writer_first-CanStep v _ h = absurd (omega arith)
