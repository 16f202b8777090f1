-- ===== src/Lab2/Sync/Solution1/Section.antt =====
-- Solution 1 as the critical section of the handlers: its four functions, for a thread that finds
-- nobody inside.
use mathlib.Core.Path.{subst}
use os_class.Common.{ℕ, ◌∙◌, ◌≡◌, refl, sym, Bool, true, false, pos, add32, Outcome, done, arith}
use os_class.Lab2.Sync.Semaphores.{Semaphores}
use os_class.Lab2.Sync.Alone.{acquires, walk, walk-run, rounds}
use os_class.Lab2.Sync.Solution1.{
  Shared, Place, outside, enter_writer, writing, enter_reader, reading, reader_increment,
  reader_decrement, reader_down_writer, reader_entered, step, protocol, initial,
}
use os_class.Lab2.Kboard.Api.{CriticalSection}

abbrev pub at_writing : Place → Bool
at_writing writing = true
at_writing _ = false

abbrev pub at_reading : Place → Bool
at_reading reading = true
at_reading _ = false

abbrev pub at_outside : Place → Bool
at_outside outside = true
at_outside _ = false

module _ (sem : Semaphores) where
  open sem use {Semaphore, value, down, up, value-up, value-initializer}

  -- Nobody is inside or on the way.
  pub record IsQuiet (l : Shared Semaphore) : Type 0 where
    pub mutex_free : value l.semaphore_mutex ≡ 1
    pub writer_free : value l.semaphore_writer ≡ 1
    pub no_reader : l.reader_count ≡ pos 0

  abbrev pub enter_writer_alone : Shared Semaphore → Outcome (Shared Semaphore)
  enter_writer_alone l = walk (protocol sem) at_writing rounds l enter_writer

  abbrev pub leave_writer_alone : Shared Semaphore → Outcome (Shared Semaphore)
  leave_writer_alone l = walk (protocol sem) at_outside rounds l writing

  abbrev pub enter_reader_alone : Shared Semaphore → Outcome (Shared Semaphore)
  enter_reader_alone l = walk (protocol sem) at_reading rounds l enter_reader

  abbrev pub leave_reader_alone : Shared Semaphore → Outcome (Shared Semaphore)
  leave_reader_alone l = walk (protocol sem) at_outside rounds l reading

  -- In and out again, as the interface of the handlers states it.
  abbrev pub Passes :
      (Shared Semaphore → Outcome (Shared Semaphore))
      → (Shared Semaphore → Outcome (Shared Semaphore))
      → Shared Semaphore
      → Type 0
  Passes enter leave l =
      (inside : Shared Semaphore) × (enter l ≡ done inside)
      × (out : Shared Semaphore) × (leave inside ≡ done out)
      × IsQuiet out

  pub writer-Passes :
      (l : Shared Semaphore) → IsQuiet l → Passes enter_writer_alone leave_writer_alone l
  unfolding walk step
  writer-Passes l q =
      let (s, got, empty) = acquires sem l.semaphore_writer q.writer_free in
      let l₁ = record l { semaphore_writer = s } in
      (
        l₁,
        walk-run (protocol sem) at_writing 15 l enter_writer l₁ writing refl (rw got),
        record l { semaphore_writer = up s },
        refl,
        record {
          mutex_free = q.mutex_free;
          writer_free = omega (arith, value-up s, empty);
          no_reader = q.no_reader;
        },
      )

  abbrev state : Semaphore → Semaphore → ℕ → Shared Semaphore
  state m w n = record { semaphore_mutex = m; semaphore_writer = w; reader_count = pos n }

  -- With `ReaderCount` at 0.
  reader-Passes_zero :
      (m w : Semaphore)
      → value m ≡ 1
      → value w ≡ 1
      → Passes enter_reader_alone leave_reader_alone (state m w 0)
  unfolding walk step add32
  reader-Passes_zero m w hm hw =
      let (m₁, got_m, empty_m) = acquires sem m hm in
      let (w₁, got_w, empty_w) = acquires sem w hw in
      let (m₂, again, empty₂) = acquires sem (up m₁) (omega (arith, value-up m₁, empty_m)) in
      (
        state (up m₁) w₁ 1,
        walk-run (protocol sem) at_reading 15 (state m w 0) enter_reader (state m₁ w 0)
              reader_increment refl (rw got_m)
            ∙ walk-run (protocol sem) at_reading 12 (state m₁ w 1) reader_down_writer
                (state m₁ w₁ 1) reader_entered refl (rw got_w),
        state (up m₂) (up w₁) 0,
        walk-run (protocol sem) at_outside 15 (state (up m₁) w₁ 1) reading (state m₂ w₁ 1)
            reader_decrement refl (rw again),
        record {
          mutex_free = omega (arith, value-up m₂, empty₂);
          writer_free = omega (arith, value-up w₁, empty_w);
          no_reader = refl;
        },
      )

  pub reader-Passes :
      (l : Shared Semaphore) → IsQuiet l → Passes enter_reader_alone leave_reader_alone l
  reader-Passes l q =
      subst (λ c. Passes enter_reader_alone leave_reader_alone (record l { reader_count = c }))
        (sym q.no_reader)
        (reader-Passes_zero l.semaphore_mutex l.semaphore_writer q.mutex_free q.writer_free)

  -- `InitializeSyncSolution` leaves the section quiet.
  pub initial-IsQuiet : IsQuiet (initial sem)
  initial-IsQuiet = record {
    mutex_free = value-initializer 1;
    writer_free = value-initializer 1;
    no_reader = refl;
  }

  -- The implementation of the handlers' interface.
  abbrev pub critical_section : CriticalSection
  critical_section = record {
    Lock = Shared Semaphore;
    IsQuiet = IsQuiet;
    initial_lock = initial sem;
    initial_lock-IsQuiet = initial-IsQuiet;
    enter_writer = enter_writer_alone;
    leave_writer = leave_writer_alone;
    enter_reader = enter_reader_alone;
    leave_reader = leave_reader_alone;
    writer_section = writer-Passes;
    reader_section = reader-Passes;
  }
