-- ===== src/Lab2/Sync/Solution3/LeaveReader.antt =====
-- Solution 3: `LeaveCriticalSection_Reader` leaves everybody who waits to somebody who wakes.
use os_class.Common.{
  ◌⊎◌, zero, suc, ℕ, ◌+◌, ◌<◌, ◌≡◌, refl, inl, inr, false, some, List, pos, get_elem?, set, total,
  total-set, Bool-cases, eqb_ℤ, arith, ◌&&◌,
}
use os_class.Lab2.Sync.Semaphores.{Semaphores}
use os_class.Lab2.Sync.System.{carry, carry_map}
use os_class.Lab2.Sync.Solution3.{
  Shared, Place, is_positive, leave_reader_step, reading, reader_decrement, reader_check_last,
  reader_wake_writer, reader_left, outside,
}
use os_class.Lab2.Sync.Solution3.Inv.{is_reader, is_waiting_writer, Inv}
use os_class.Lab2.Sync.Solution3.Related.{Moves, related, moves, Supplied}
use os_class.Lab2.Sync.Solution3.Calm.{Serves, calm, alone, few_wait}

module _ (sem : Semaphores) {l : Shared sem.Semaphore} {ps : List Place} (inv : Inv sem l ps)
    (sup : Supplied (sem.value l.semaphore_writer) (sem.value l.semaphore_reader) ps) (i : ℕ) where
  open sem use {Semaphore, value, value-down, value-up}

  last_of : (a b : ℕ) → (eqb_ℤ (pos a) (pos 0) && is_positive (pos b)) ≡ false → (0 < a) ⊎ (b ≡ 0)
  last_of zero b h = inr (ground arith)
  last_of (suc a) b h = inl (omega arith)

  -- A reader is still counted, or no writer waits.
  wakes_nobody :
      get_elem? ps i ≡ some reader_check_last
      → (eqb_ℤ l.reader_count (pos 0) && is_positive l.writer_waiting_count) ≡ false
      → Serves sem inv sup i (l, reader_left)
  wakes_nobody e h = record {
    readers_served = omega (arith, sup.readers_served, m);
    writers_served = omega (
      arith,
      sup.writers_served,
      m,
      rest,
      related (set ps i reader_left),
      related ps,
      alone sem inv sup i e refl,
      counted_same,
      few_wait sem inv sup i reader_left,
    );
    writers_served_by_readers = omega (
      arith,
      sup.writers_served_by_readers,
      m,
      rest,
      related (set ps i reader_left),
      related ps,
      alone sem inv sup i e refl,
      counted_same,
      few_wait sem inv sup i reader_left,
    );
    loop_done = omega (arith, sup.loop_done, m);
    no_sign = omega (arith, sup.no_sign, m);
    loop_needed = omega (arith, sup.loop_needed, m);
  }
    where
      m : Moves ps i reader_check_last reader_left
      m = moves ps i reader_left e

      counted_same : total is_reader (set ps i reader_left) + 0 ≡ total is_reader ps + 0
      counted_same = total-set is_reader ps i reader_left e

      rest : (0 < total is_reader ps) ⊎ (total is_waiting_writer ps ≡ 0)
      rest =
          last_of (total is_reader ps) (total is_waiting_writer ps)
            (rw (inv.counts.readers, inv.counts.waiting_writers) at h)

  -- A writer is woken.
  wakes_writer :
      get_elem? ps i ≡ some reader_wake_writer
      → Serves sem inv sup i
          (record l { semaphore_writer = sem.up l.semaphore_writer }, reader_left)
  wakes_writer e = record {
    readers_served = omega (arith, sup.readers_served, m);
    writers_served = omega (arith, m, v, few_wait sem inv sup i reader_left);
    writers_served_by_readers = omega (arith, m, v, few_wait sem inv sup i reader_left);
    loop_done = omega (arith, sup.loop_done, m);
    no_sign = omega (arith, sup.no_sign, m);
    loop_needed = omega (arith, sup.loop_needed, m);
  }
    where
      m : Moves ps i reader_wake_writer reader_left
      m = moves ps i reader_left e

      v : value (sem.up l.semaphore_writer) ≡ suc (value l.semaphore_writer)
      v = value-up l.semaphore_writer

  pub Serves-leave_reader :
      (p : Place) {y : Shared Semaphore × Place}
      → get_elem? ps i ≡ some p
      → leave_reader_step sem l p ≡ some y
      → Serves sem inv sup i y
  unfolding leave_reader_step
  Serves-leave_reader reading e s = carry_map (Serves sem inv sup i) _ _ s (λ t d.
      calm sem inv sup i reader_decrement
        (omega (arith, moves ps i reader_decrement e, sup.loop_needed)))
  Serves-leave_reader reader_decrement e s = carry (Serves sem inv sup i) s (
      calm sem inv sup i reader_check_last
        (omega (arith, moves ps i reader_check_last e, sup.loop_needed)))
  Serves-leave_reader reader_check_last e s =
      elim (Bool-cases (eqb_ℤ l.reader_count (pos 0) && is_positive l.writer_waiting_count)) [
        | inl h ↦ carry (Serves sem inv sup i) (rw h at s) (
            calm sem inv sup i reader_wake_writer
              (omega (arith, moves ps i reader_wake_writer e, sup.loop_needed)))
        | inr h ↦ carry (Serves sem inv sup i) (rw h at s) (wakes_nobody e h)
      ]
  Serves-leave_reader reader_wake_writer e s = carry (Serves sem inv sup i) s (wakes_writer e)
  Serves-leave_reader reader_left e s =
      carry (Serves sem inv sup i) s
        (calm sem inv sup i outside (omega (arith, moves ps i outside e, sup.loop_needed)))
  Serves-leave_reader _ e s = absurd (ground arith)
