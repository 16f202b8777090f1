-- ===== src/Lab2/Sync/Solution3/EnterWriter.antt =====
-- Solution 3: `EnterCriticalSection_Writer` leaves everybody who waits to somebody who wakes.
use os_class.Common.{
  ℕ, ◌+◌, ◌<◌, ◌≡◌, inl, inr, true, some, List, pos, get_elem?, total, Bool-cases, arith, ◌||◌,
}
use os_class.Lab2.Sync.Semaphores.{Semaphores}
use os_class.Lab2.Sync.System.{carry, carry_map}
use os_class.Lab2.Sync.Solution3.{
  Shared, Place, is_positive, enter_writer_step, writer_check, writer_wait_increment,
  writer_wait_release, writer_wait, writer_woken, writer_wait_decrement, writer_increment,
  writer_entered, writing, enter_writer,
}
use os_class.Lab2.Sync.Solution3.Inv.{
  is_writer, is_reader, is_waiting_writer, is_waiting_reader, Inv,
}
use os_class.Lab2.Sync.Solution3.Related.{Related, Moves, related, moves, Supplied}
use os_class.Lab2.Sync.Solution3.Calm.{Serves, calm, few_wait}

module _ (sem : Semaphores) {l : Shared sem.Semaphore} {ps : List Place} (inv : Inv sem l ps)
    (sup : Supplied (sem.value l.semaphore_writer) (sem.value l.semaphore_reader) ps) (i : ℕ) where
  open sem use {Semaphore, value, value-down, value-up}

  any_positive :
      (a b c d : ℕ)
      → (is_positive (pos a) || is_positive (pos b) || is_positive (pos c) || is_positive (pos d))
        ≡ true
      → 0 < a + b + c + d
  any_positive a b c d h = ground arith

  -- A writer waits only if somebody is counted, who is active or waits.
  will_wait :
      get_elem? ps i ≡ some writer_check
      → (is_positive l.writer_count
          || is_positive l.reader_count
          || is_positive l.writer_waiting_count
          || is_positive l.reader_waiting_count)
        ≡ true
      → Serves sem inv sup i (l, writer_wait_increment)
  will_wait e h = record {
    readers_served = omega (arith, sup.readers_served, m);
    writers_served =
        omega (arith, sup, r, m, few_wait sem inv sup i writer_wait_increment, somebody);
    writers_served_by_readers =
        omega (arith, sup, r, m, few_wait sem inv sup i writer_wait_increment, somebody);
    loop_done = omega (arith, sup.loop_done, m);
    no_sign = omega (arith, sup.no_sign, m);
    loop_needed = omega (arith, sup.loop_needed, m);
  }
    where
      m : Moves ps i writer_check writer_wait_increment
      m = moves ps i writer_wait_increment e

      r : Related ps
      r = related ps

      somebody :
          0
          < total is_writer ps
            + total is_reader ps
            + total is_waiting_writer ps
            + total is_waiting_reader ps
      somebody =
          any_positive (total is_writer ps) (total is_reader ps) (total is_waiting_writer ps)
            (total is_waiting_reader ps)
            (rw
              (
                inv.counts.writers, inv.counts.readers, inv.counts.waiting_writers,
                inv.counts.waiting_readers,
              )
              at h)

  -- A writer that passes `SemaphoreWriter` is active.
  passes_writer :
      (t : Semaphore)
      → get_elem? ps i ≡ some writer_wait
      → Serves sem inv sup i (record l { semaphore_writer = t }, writer_woken)
  passes_writer t e = record {
    readers_served = omega (arith, sup.readers_served, m);
    writers_served = omega (arith, m, few_wait sem inv sup i writer_woken);
    writers_served_by_readers = omega (arith, m, few_wait sem inv sup i writer_woken);
    loop_done = omega (arith, sup.loop_done, m);
    no_sign = omega (arith, sup.no_sign, m);
    loop_needed = omega (arith, sup.loop_needed, m);
  }
    where
      m : Moves ps i writer_wait writer_woken
      m = moves ps i writer_woken e

  pub Serves-enter_writer :
      (p : Place) {y : Shared Semaphore × Place}
      → get_elem? ps i ≡ some p
      → enter_writer_step sem l p ≡ some y
      → Serves sem inv sup i y
  unfolding enter_writer_step
  Serves-enter_writer enter_writer e s = carry_map (Serves sem inv sup i) _ _ s (λ t d.
      calm sem inv sup i writer_check (omega (arith, moves ps i writer_check e, sup.loop_needed)))
  Serves-enter_writer writer_check e s =
      elim (Bool-cases (
        is_positive l.writer_count
        || is_positive l.reader_count
        || is_positive l.writer_waiting_count
        || is_positive l.reader_waiting_count)) [
          | inl h ↦ carry (Serves sem inv sup i) (rw h at s) (will_wait e h)
          | inr h ↦ carry (Serves sem inv sup i) (rw h at s) (
              calm sem inv sup i writer_increment
                (omega (arith, moves ps i writer_increment e, sup.loop_needed)))
        ]
  Serves-enter_writer writer_wait_increment e s = carry (Serves sem inv sup i) s (
      calm sem inv sup i writer_wait_release
        (omega (arith, moves ps i writer_wait_release e, sup.loop_needed)))
  Serves-enter_writer writer_wait_release e s =
      carry (Serves sem inv sup i) s
        (calm sem inv sup i writer_wait (omega (arith, moves ps i writer_wait e, sup.loop_needed)))
  Serves-enter_writer writer_wait e s =
      carry_map (Serves sem inv sup i) _ _ s (λ t d. passes_writer t e)
  Serves-enter_writer writer_woken e s = carry_map (Serves sem inv sup i) _ _ s (λ t d.
      calm sem inv sup i writer_wait_decrement
        (omega (arith, moves ps i writer_wait_decrement e, sup.loop_needed)))
  Serves-enter_writer writer_wait_decrement e s = carry (Serves sem inv sup i) s (
      calm sem inv sup i writer_increment
        (omega (arith, moves ps i writer_increment e, sup.loop_needed)))
  Serves-enter_writer writer_increment e s = carry (Serves sem inv sup i) s (
      calm sem inv sup i writer_entered
        (omega (arith, moves ps i writer_entered e, sup.loop_needed)))
  Serves-enter_writer writer_entered e s =
      carry (Serves sem inv sup i) s
        (calm sem inv sup i writing (omega (arith, moves ps i writing e, sup.loop_needed)))
  Serves-enter_writer _ e s = absurd (ground arith)
