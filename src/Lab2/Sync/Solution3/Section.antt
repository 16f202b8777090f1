-- ===== src/Lab2/Sync/Solution3/Section.antt =====
-- Solution 3 as the critical section of the handlers: its four functions, for a thread that finds
-- nobody inside.
use mathlib.Core.Path.{subst}
use os_class.Common.{ℕ, ◌≡◌, refl, sym, Bool, true, false, pos, add32, Outcome, done, arith}
use os_class.Lab2.Sync.Semaphores.{Semaphores}
use os_class.Lab2.Sync.Alone.{acquires, walk, walk-run, rounds}
use os_class.Lab2.Sync.Solution3.{
  Shared, Place, outside, enter_writer, writer_check, writing, writer_decrement, enter_reader,
  reader_check, reading, reader_decrement, step, protocol, initial,
}
use os_class.Lab2.Kboard.Api.{CriticalSection}

abbrev pub at_writing : Place → Bool
at_writing writing = true
at_writing _ = false

abbrev pub at_reading : Place → Bool
at_reading reading = true
at_reading _ = false

abbrev pub at_outside : Place → Bool
at_outside outside = true
at_outside _ = false

module _ (sem : Semaphores) where
  open sem use {Semaphore, value, down, up, value-up, value-initializer}

  -- Nobody is inside, waiting or on the way.
  pub record IsQuiet (l : Shared Semaphore) : Type 0 where
    pub mutex_free : value l.semaphore_mutex ≡ 1
    pub no_writer : l.writer_count ≡ pos 0
    pub no_reader : l.reader_count ≡ pos 0
    pub no_waiting_writer : l.writer_waiting_count ≡ pos 0
    pub no_waiting_reader : l.reader_waiting_count ≡ pos 0

  abbrev pub enter_writer_alone : Shared Semaphore → Outcome (Shared Semaphore)
  enter_writer_alone l = walk (protocol sem) at_writing rounds l enter_writer

  abbrev pub leave_writer_alone : Shared Semaphore → Outcome (Shared Semaphore)
  leave_writer_alone l = walk (protocol sem) at_outside rounds l writing

  abbrev pub enter_reader_alone : Shared Semaphore → Outcome (Shared Semaphore)
  enter_reader_alone l = walk (protocol sem) at_reading rounds l enter_reader

  abbrev pub leave_reader_alone : Shared Semaphore → Outcome (Shared Semaphore)
  leave_reader_alone l = walk (protocol sem) at_outside rounds l reading

  -- In and out again, as the interface of the handlers states it.
  abbrev pub Passes :
      (Shared Semaphore → Outcome (Shared Semaphore))
      → (Shared Semaphore → Outcome (Shared Semaphore))
      → Shared Semaphore
      → Type 0
  Passes enter leave l =
      (inside : Shared Semaphore) × (enter l ≡ done inside)
      × (out : Shared Semaphore) × (leave inside ≡ done out)
      × IsQuiet out

  abbrev state : Semaphore → Semaphore → Semaphore → ℕ → ℕ → Shared Semaphore
  state m w r writers readers = record {
    semaphore_mutex = m;
    semaphore_writer = w;
    semaphore_reader = r;
    writer_count = pos writers;
    reader_count = pos readers;
    writer_waiting_count = pos 0;
    reader_waiting_count = pos 0;
  }

  module _ (m w r : Semaphore) (hm : value m ≡ 1) where
    writer-Passes_zero : Passes enter_writer_alone leave_writer_alone (state m w r 0 0)
    unfolding walk step add32
    writer-Passes_zero =
        let (m₁, got, empty) = acquires sem m hm in
        let (m₂, again, empty₂) = acquires sem (up m₁) (omega (arith, value-up m₁, empty)) in
        (
          state (up m₁) w r 1 0,
          walk-run (protocol sem) at_writing 15 (state m w r 0 0) enter_writer (state m₁ w r 0 0)
              writer_check refl (rw got),
          state (up m₂) w r 0 0,
          walk-run (protocol sem) at_outside 15 (state (up m₁) w r 1 0) writing (state m₂ w r 1 0)
              writer_decrement refl (rw again),
          record {
            mutex_free = omega (arith, value-up m₂, empty₂);
            no_writer = refl;
            no_reader = refl;
            no_waiting_writer = refl;
            no_waiting_reader = refl;
          },
        )

    reader-Passes_zero : Passes enter_reader_alone leave_reader_alone (state m w r 0 0)
    unfolding walk step add32
    reader-Passes_zero =
        let (m₁, got, empty) = acquires sem m hm in
        let (m₂, again, empty₂) = acquires sem (up m₁) (omega (arith, value-up m₁, empty)) in
        (
          state (up m₁) w r 0 1,
          walk-run (protocol sem) at_reading 15 (state m w r 0 0) enter_reader (state m₁ w r 0 0)
              reader_check refl (rw got),
          state (up m₂) w r 0 0,
          walk-run (protocol sem) at_outside 15 (state (up m₁) w r 0 1) reading (state m₂ w r 0 1)
              reader_decrement refl (rw again),
          record {
            mutex_free = omega (arith, value-up m₂, empty₂);
            no_writer = refl;
            no_reader = refl;
            no_waiting_writer = refl;
            no_waiting_reader = refl;
          },
        )

  -- The counts of a quiet section are 0.
  at_zero :
      (P : Shared Semaphore → Type 0) (l : Shared Semaphore)
      → IsQuiet l
      → P (state l.semaphore_mutex l.semaphore_writer l.semaphore_reader 0 0)
      → P l
  at_zero P l q h =
      subst (λ c. P (record l { writer_count = c })) (sym q.no_writer)
        (subst (λ c. P (record l { writer_count = pos 0; reader_count = c })) (sym q.no_reader)
          (subst
            (λ c.
              P (record l { writer_count = pos 0; reader_count = pos 0; writer_waiting_count = c }))
            (sym q.no_waiting_writer)
            (subst
              (λ c. P (record l {
                writer_count = pos 0;
                reader_count = pos 0;
                writer_waiting_count = pos 0;
                reader_waiting_count = c;
              }))
              (sym q.no_waiting_reader) h)))

  pub writer-Passes :
      (l : Shared Semaphore) → IsQuiet l → Passes enter_writer_alone leave_writer_alone l
  writer-Passes l q =
      at_zero (Passes enter_writer_alone leave_writer_alone) l q
        (writer-Passes_zero l.semaphore_mutex l.semaphore_writer l.semaphore_reader q.mutex_free)

  pub reader-Passes :
      (l : Shared Semaphore) → IsQuiet l → Passes enter_reader_alone leave_reader_alone l
  reader-Passes l q =
      at_zero (Passes enter_reader_alone leave_reader_alone) l q
        (reader-Passes_zero l.semaphore_mutex l.semaphore_writer l.semaphore_reader q.mutex_free)

  -- `InitializeSyncSolution` leaves the section quiet.
  pub initial-IsQuiet : IsQuiet (initial sem)
  initial-IsQuiet = record {
    mutex_free = value-initializer 1;
    no_writer = refl;
    no_reader = refl;
    no_waiting_writer = refl;
    no_waiting_reader = refl;
  }

  -- The implementation of the handlers' interface.
  abbrev pub critical_section : CriticalSection
  critical_section = record {
    Lock = Shared Semaphore;
    IsQuiet = IsQuiet;
    initial_lock = initial sem;
    initial_lock-IsQuiet = initial-IsQuiet;
    enter_writer = enter_writer_alone;
    leave_writer = leave_writer_alone;
    enter_reader = enter_reader_alone;
    leave_reader = leave_reader_alone;
    writer_section = writer-Passes;
    reader_section = reader-Passes;
  }
