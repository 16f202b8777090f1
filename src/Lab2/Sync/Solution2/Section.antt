-- ===== src/Lab2/Sync/Solution2/Section.antt =====
-- Solution 2 as the critical section of the handlers: its four functions, for a thread that finds
-- nobody inside.
use mathlib.Core.Path.{subst}
use os_class.Common.{ℕ, ◌∙◌, ◌≡◌, refl, sym, Bool, true, false, pos, add32, Outcome, done, arith}
use os_class.Lab2.Sync.Semaphores.{Semaphores}
use os_class.Lab2.Sync.Alone.{acquires, walk, walk-run, rounds}
use os_class.Lab2.Sync.Solution2.{
  Shared, Place, outside, enter_writer, writer_increment, writer_down_reader, writer_counted,
  writer_down_writer, writing, writer_leaving, writer_decrement, enter_reader, reader_passing,
  reader_down_mutex, reader_increment, reader_down_writer, reader_entered, reading,
  reader_decrement, step, protocol, initial,
}
use os_class.Lab2.Kboard.Api.{CriticalSection}

abbrev pub at_writing : Place → Bool
at_writing writing = true
at_writing _ = false

abbrev pub at_reading : Place → Bool
at_reading reading = true
at_reading _ = false

abbrev pub at_outside : Place → Bool
at_outside outside = true
at_outside _ = false

module _ (sem : Semaphores) where
  open sem use {Semaphore, value, down, up, value-up, value-initializer}

  -- Nobody is inside or on the way.
  pub record IsQuiet (l : Shared Semaphore) : Type 0 where
    pub writer_mutex_free : value l.semaphore_writer_mutex ≡ 1
    pub reader_mutex_free : value l.semaphore_reader_mutex ≡ 1
    pub writer_free : value l.semaphore_writer ≡ 1
    pub reader_free : value l.semaphore_reader ≡ 1
    pub no_writer : l.writer_count ≡ pos 0
    pub no_reader : l.reader_count ≡ pos 0

  abbrev pub enter_writer_alone : Shared Semaphore → Outcome (Shared Semaphore)
  enter_writer_alone l = walk (protocol sem) at_writing rounds l enter_writer

  abbrev pub leave_writer_alone : Shared Semaphore → Outcome (Shared Semaphore)
  leave_writer_alone l = walk (protocol sem) at_outside rounds l writing

  abbrev pub enter_reader_alone : Shared Semaphore → Outcome (Shared Semaphore)
  enter_reader_alone l = walk (protocol sem) at_reading rounds l enter_reader

  abbrev pub leave_reader_alone : Shared Semaphore → Outcome (Shared Semaphore)
  leave_reader_alone l = walk (protocol sem) at_outside rounds l reading

  -- In and out again, as the interface of the handlers states it.
  abbrev pub Passes :
      (Shared Semaphore → Outcome (Shared Semaphore))
      → (Shared Semaphore → Outcome (Shared Semaphore))
      → Shared Semaphore
      → Type 0
  Passes enter leave l =
      (inside : Shared Semaphore) × (enter l ≡ done inside)
      × (out : Shared Semaphore) × (leave inside ≡ done out)
      × IsQuiet out

  abbrev state : Semaphore → Semaphore → Semaphore → Semaphore → ℕ → ℕ → Shared Semaphore
  state wm rm w r writers readers = record {
    semaphore_writer_mutex = wm;
    semaphore_reader_mutex = rm;
    semaphore_writer = w;
    semaphore_reader = r;
    writer_count = pos writers;
    reader_count = pos readers;
  }

  module _ (wm rm w r : Semaphore) (hwm : value wm ≡ 1) (hrm : value rm ≡ 1) (hw : value w ≡ 1)
      (hr : value r ≡ 1) where
    writer-Passes_zero : Passes enter_writer_alone leave_writer_alone (state wm rm w r 0 0)
    unfolding walk step add32
    writer-Passes_zero =
        let (m₁, got_m, empty_m) = acquires sem wm hwm in
        let (r₁, got_r, empty_r) = acquires sem r hr in
        let (w₁, got_w, empty_w) = acquires sem w hw in
        let (m₂, again, empty₂) = acquires sem (up m₁) (omega (arith, value-up m₁, empty_m)) in
        (
          state (up m₁) rm w₁ r₁ 1 0,
          walk-run (protocol sem) at_writing 15 (state wm rm w r 0 0) enter_writer
                (state m₁ rm w r 0 0) writer_increment refl (rw got_m)
              ∙ walk-run (protocol sem) at_writing 12 (state m₁ rm w r 1 0) writer_down_reader
                  (state m₁ rm w r₁ 1 0) writer_counted refl (rw got_r)
              ∙ walk-run (protocol sem) at_writing 10 (state (up m₁) rm w r₁ 1 0) writer_down_writer
                  (state (up m₁) rm w₁ r₁ 1 0) writing refl (rw got_w),
          state (up m₂) rm (up w₁) (up r₁) 0 0,
          walk-run (protocol sem) at_outside 14 (state (up m₁) rm (up w₁) r₁ 1 0) writer_leaving
              (state m₂ rm (up w₁) r₁ 1 0) writer_decrement refl (rw again),
          record {
            writer_mutex_free = omega (arith, value-up m₂, empty₂);
            reader_mutex_free = hrm;
            writer_free = omega (arith, value-up w₁, empty_w);
            reader_free = omega (arith, value-up r₁, empty_r);
            no_writer = refl;
            no_reader = refl;
          },
        )

    reader-Passes_zero : Passes enter_reader_alone leave_reader_alone (state wm rm w r 0 0)
    unfolding walk step add32
    reader-Passes_zero =
        let (r₁, got_r, empty_r) = acquires sem r hr in
        let (m₁, got_m, empty_m) = acquires sem rm hrm in
        let (w₁, got_w, empty_w) = acquires sem w hw in
        let (m₂, again, empty₂) = acquires sem (up m₁) (omega (arith, value-up m₁, empty_m)) in
        (
          state wm (up m₁) w₁ (up r₁) 0 1,
          walk-run (protocol sem) at_reading 15 (state wm rm w r 0 0) enter_reader
                (state wm rm w r₁ 0 0) reader_passing refl (rw got_r)
              ∙ walk-run (protocol sem) at_reading 13 (state wm rm w (up r₁) 0 0) reader_down_mutex
                  (state wm m₁ w (up r₁) 0 0) reader_increment refl (rw got_m)
              ∙ walk-run (protocol sem) at_reading 10 (state wm m₁ w (up r₁) 0 1) reader_down_writer
                  (state wm m₁ w₁ (up r₁) 0 1) reader_entered refl (rw got_w),
          state wm (up m₂) (up w₁) (up r₁) 0 0,
          walk-run (protocol sem) at_outside 15 (state wm (up m₁) w₁ (up r₁) 0 1) reading
              (state wm m₂ w₁ (up r₁) 0 1) reader_decrement refl (rw again),
          record {
            writer_mutex_free = hwm;
            reader_mutex_free = omega (arith, value-up m₂, empty₂);
            writer_free = omega (arith, value-up w₁, empty_w);
            reader_free = omega (arith, value-up r₁, empty_r);
            no_writer = refl;
            no_reader = refl;
          },
        )

  -- The counts of a quiet section are 0.
  at_zero :
      (P : Shared Semaphore → Type 0) (l : Shared Semaphore)
      → IsQuiet l
      → P (
          state l.semaphore_writer_mutex l.semaphore_reader_mutex l.semaphore_writer
            l.semaphore_reader 0 0)
      → P l
  at_zero P l q h =
      subst (λ c. P (record l { reader_count = c })) (sym q.no_reader)
        (subst (λ c. P (record l { writer_count = c; reader_count = pos 0 })) (sym q.no_writer) h)

  pub writer-Passes :
      (l : Shared Semaphore) → IsQuiet l → Passes enter_writer_alone leave_writer_alone l
  writer-Passes l q = at_zero (Passes enter_writer_alone leave_writer_alone) l q (
      writer-Passes_zero l.semaphore_writer_mutex l.semaphore_reader_mutex l.semaphore_writer
        l.semaphore_reader q.writer_mutex_free q.reader_mutex_free q.writer_free q.reader_free)

  pub reader-Passes :
      (l : Shared Semaphore) → IsQuiet l → Passes enter_reader_alone leave_reader_alone l
  reader-Passes l q = at_zero (Passes enter_reader_alone leave_reader_alone) l q (
      reader-Passes_zero l.semaphore_writer_mutex l.semaphore_reader_mutex l.semaphore_writer
        l.semaphore_reader q.writer_mutex_free q.reader_mutex_free q.writer_free q.reader_free)

  -- `InitializeSyncSolution` leaves the section quiet.
  pub initial-IsQuiet : IsQuiet (initial sem)
  initial-IsQuiet = record {
    writer_mutex_free = value-initializer 1;
    reader_mutex_free = value-initializer 1;
    writer_free = value-initializer 1;
    reader_free = value-initializer 1;
    no_writer = refl;
    no_reader = refl;
  }

  -- The implementation of the handlers' interface.
  abbrev pub critical_section : CriticalSection
  critical_section = record {
    Lock = Shared Semaphore;
    IsQuiet = IsQuiet;
    initial_lock = initial sem;
    initial_lock-IsQuiet = initial-IsQuiet;
    enter_writer = enter_writer_alone;
    leave_writer = leave_writer_alone;
    enter_reader = enter_reader_alone;
    leave_reader = leave_reader_alone;
    writer_section = writer-Passes;
    reader_section = reader-Passes;
  }
