-- ===== src/Lab2/Sync/Solution3/LeaveWriter.antt =====
-- Solution 3: `LeaveCriticalSection_Writer` leaves everybody who waits to somebody who wakes.
use mathlib.Core.Path.{subst}
use os_class.Common.{
  sym, suc, negsuc, ℕ, ◌+◌, ◌<◌, ◌^◌, ◌≤◌, ◌≡◌, inl, inr, true, false, some, List, pos, get_elem?,
  set, total, total-le-length, le-total, Bool-cases, ltb_ℤ, inc32-pos, arith,
}
use os_class.Lab2.Sync.Semaphores.{Semaphores}
use os_class.Lab2.Sync.System.{carry, carry_map}
use os_class.Lab2.Sync.Solution3.{
  Shared, Place, is_positive, leave_writer_step, writing, writer_decrement, writer_choose,
  writer_wake_readers, writer_wake_writer, writer_left, outside,
}
use os_class.Lab2.Sync.Solution3.Inv.{is_waiting_reader, Inv}
use os_class.Lab2.Sync.Solution3.Moves.{waiting_reader_small}
use os_class.Lab2.Sync.Solution3.Supply.{goes_to_wait_read, in_loop, index_of, index_below}
use os_class.Lab2.Sync.Solution3.Related.{Moves, related, moves, Supplied}
use os_class.Lab2.Sync.Solution3.Calm.{Serves, calm, few_wait}
use os_class.Lab2.Sync.Solution3.Choosing.{starts_loop, chooses_writer, chooses_nobody}

module _ (sem : Semaphores) {l : Shared sem.Semaphore} {ps : List Place} (inv : Inv sem l ps)
    (sup : Supplied (sem.value l.semaphore_writer) (sem.value l.semaphore_reader) ps) (i : ℕ) where
  open sem use {Semaphore, value, value-down, value-up}

  zero_below : (n a : ℕ) → ltb_ℤ (pos n) (pos a) ≡ false → a ≤ n
  zero_below n a h = ground arith

  below_of : (n a : ℕ) → ltb_ℤ (pos n) (pos a) ≡ true → n < a
  below_of n a h = ground arith

  -- The loop wakes a reader,
  loops :
      (n : ℕ)
      → get_elem? ps i ≡ some (writer_wake_readers (pos n))
      → Serves sem inv sup i (
        record l { semaphore_reader = sem.up l.semaphore_reader },
        writer_wake_readers (pos (n + 1)),
      )
  loops n e = record {
    readers_served = omega (arith, sup.readers_served, m, v);
    writers_served = omega (arith, sup.writers_served, m, v);
    writers_served_by_readers = omega (arith, sup.writers_served_by_readers, m);
    loop_done = omega (arith, sup.loop_done, m, v);
    no_sign = omega (arith, sup.no_sign, m);
    loop_needed = omega (arith, sup.loop_needed, m);
  }
    where
      m : Moves ps i (writer_wake_readers (pos n)) (writer_wake_readers (pos (n + 1)))
      m = moves ps i (writer_wake_readers (pos (n + 1))) e

      v : value (sem.up l.semaphore_reader) ≡ suc (value l.semaphore_reader)
      v = value-up l.semaphore_reader

  -- or ends, when every reader that waits has been woken.
  ends_loop :
      (n : ℕ)
      → get_elem? ps i ≡ some (writer_wake_readers (pos n))
      → ltb_ℤ (pos n) l.reader_waiting_count ≡ false
      → Serves sem inv sup i (l, writer_left)
  ends_loop n e h = record {
    readers_served = omega (arith, m, all_woken);
    writers_served = omega (
      arith,
      sup.writers_served,
      m,
      all_woken,
      some_wait,
      related (set ps i writer_left),
      few_wait sem inv sup i writer_left,
    );
    writers_served_by_readers = omega (
      arith,
      sup,
      m,
      all_woken,
      some_wait,
      related (set ps i writer_left),
      few_wait sem inv sup i writer_left,
    );
    loop_done = omega (arith, sup.loop_done, m);
    no_sign = omega (arith, sup.no_sign, m);
    loop_needed = omega (arith, sup.loop_needed, m);
  }
    where
      m : Moves ps i (writer_wake_readers (pos n)) writer_left
      m = moves ps i writer_left e

      reached : total is_waiting_reader ps ≤ n
      reached = zero_below n (total is_waiting_reader ps) (rw inv.counts.waiting_readers at h)

      some_wait : 0 < total is_waiting_reader ps
      some_wait = omega (arith, sup.loop_needed, le-total in_loop ps i e)

      all_woken : total goes_to_wait_read ps ≤ value l.semaphore_reader
      all_woken = omega (
        arith,
        reached,
        sup.loop_done,
        le-total index_of ps i e,
        related ps,
        inv.mutex,
        le-total in_loop ps i e,
      )

  -- A writer is woken.
  wakes_writer :
      get_elem? ps i ≡ some writer_wake_writer
      → Serves sem inv sup i
          (record l { semaphore_writer = sem.up l.semaphore_writer }, writer_left)
  wakes_writer e = record {
    readers_served = omega (arith, sup.readers_served, m);
    writers_served = omega (arith, m, v, few_wait sem inv sup i writer_left);
    writers_served_by_readers = omega (arith, m, v, few_wait sem inv sup i writer_left);
    loop_done = omega (arith, sup.loop_done, m);
    no_sign = omega (arith, sup.no_sign, m);
    loop_needed = omega (arith, sup.loop_needed, m);
  }
    where
      m : Moves ps i writer_wake_writer writer_left
      m = moves ps i writer_left e

      v : value (sem.up l.semaphore_writer) ≡ suc (value l.semaphore_writer)
      v = value-up l.semaphore_writer

  small : (n : ℕ) → ltb_ℤ (pos n) l.reader_waiting_count ≡ true → n + 1 < 2 ^ 31
  small n h = omega (
    arith,
    below_of n (total is_waiting_reader ps) (rw inv.counts.waiting_readers at h),
    total-le-length is_waiting_reader waiting_reader_small ps,
    inv.few,
  )

  pub Serves-leave_writer :
      (p : Place) {y : Shared Semaphore × Place}
      → get_elem? ps i ≡ some p
      → leave_writer_step sem l p ≡ some y
      → Serves sem inv sup i y
  unfolding leave_writer_step
  Serves-leave_writer writing e s = carry_map (Serves sem inv sup i) _ _ s (λ t d.
      calm sem inv sup i writer_decrement
        (omega (arith, moves ps i writer_decrement e, sup.loop_needed)))
  Serves-leave_writer writer_decrement e s = carry (Serves sem inv sup i) s (
      calm sem inv sup i writer_choose (omega (arith, moves ps i writer_choose e, sup.loop_needed)))
  Serves-leave_writer writer_choose e s = elim (Bool-cases (is_positive l.reader_waiting_count)) [
    | inl h ↦ carry (Serves sem inv sup i) (rw h at s) (starts_loop sem inv sup i e h)
    | inr h ↦ elim (Bool-cases (is_positive l.writer_waiting_count)) [
      | inl g ↦ carry (Serves sem inv sup i) (rw (h, g) at s) (chooses_writer sem inv sup i e h)
      | inr g ↦ carry (Serves sem inv sup i) (rw (h, g) at s) (chooses_nobody sem inv sup i e h g)
    ]
  ]
  Serves-leave_writer (writer_wake_readers (negsuc n)) e s =
      absurd (omega (arith, sup.no_sign, le-total index_below ps i e))
  Serves-leave_writer (writer_wake_readers (pos n)) e s =
      elim (Bool-cases (ltb_ℤ (pos n) l.reader_waiting_count)) [
        | inl h ↦ carry (Serves sem inv sup i) (rw h at s) (
            subst
              (λ v.
                Serves sem inv sup i (
                  record l { semaphore_reader = sem.up l.semaphore_reader },
                  writer_wake_readers v,
                ))
              (sym (inc32-pos n (small n h))) (loops n e))
        | inr h ↦ carry (Serves sem inv sup i) (rw h at s) (ends_loop n e h)
      ]
  Serves-leave_writer writer_wake_writer e s = carry (Serves sem inv sup i) s (wakes_writer e)
  Serves-leave_writer writer_left e s =
      carry (Serves sem inv sup i) s
        (calm sem inv sup i outside (omega (arith, moves ps i outside e, sup.loop_needed)))
  Serves-leave_writer _ e s = absurd (ground arith)
