-- ===== src/Lab2/Sync/Solution3/EnterReader.antt =====
-- Solution 3: `EnterCriticalSection_Reader` leaves everybody who waits to somebody who wakes.
use os_class.Common.{
  suc, ℕ, ◌+◌, ◌<◌, ◌≡◌, refl, inl, inr, true, some, List, pos, get_elem?, total, Bool-cases, arith,
  ◌||◌,
}
use os_class.Lab2.Sync.Semaphores.{Semaphores}
use os_class.Lab2.Sync.System.{carry, carry_map}
use os_class.Lab2.Sync.Solution3.{
  Shared, Place, is_positive, enter_reader_step, enter_reader, reader_check, reader_wait_increment,
  reader_wait_release, reader_wait, reader_woken, reader_wait_decrement, reader_increment,
  reader_entered, reading,
}
use os_class.Lab2.Sync.Solution3.Inv.{is_writer, is_waiting_writer, Inv}
use os_class.Lab2.Sync.Solution3.Supply.{in_loop}
use os_class.Lab2.Sync.Solution3.Related.{Moves, related, moves, Supplied, idle_loop}
use os_class.Lab2.Sync.Solution3.Calm.{Serves, calm, alone, few_wait}

module _ (sem : Semaphores) {l : Shared sem.Semaphore} {ps : List Place} (inv : Inv sem l ps)
    (sup : Supplied (sem.value l.semaphore_writer) (sem.value l.semaphore_reader) ps) (i : ℕ) where
  open sem use {Semaphore, value, value-down, value-up}

  positive_of : (a b : ℕ) → (is_positive (pos a) || is_positive (pos b)) ≡ true → 0 < a + b
  positive_of a b h = ground arith

  -- A reader waits only if some writer is counted, who will wake it.
  will_wait :
      get_elem? ps i ≡ some reader_check
      → (is_positive l.writer_waiting_count || is_positive l.writer_count) ≡ true
      → Serves sem inv sup i (l, reader_wait_increment)
  will_wait e h = record {
    readers_served =
        omega (arith, m, related ps, few_wait sem inv sup i reader_wait_increment, somebody);
    writers_served = omega (arith, sup.writers_served, m);
    writers_served_by_readers = omega (arith, sup.writers_served_by_readers, m);
    loop_done = omega (arith, sup.loop_done, m);
    no_sign = omega (arith, sup.no_sign, m);
    loop_needed = omega (arith, sup.loop_needed, m);
  }
    where
      m : Moves ps i reader_check reader_wait_increment
      m = moves ps i reader_wait_increment e

      somebody : 0 < total is_waiting_writer ps + total is_writer ps
      somebody =
          positive_of (total is_waiting_writer ps) (total is_writer ps)
            (rw (inv.counts.writers, inv.counts.waiting_writers) at h)

  -- A reader that passes `SemaphoreReader` is active.
  passes_reader :
      (t : Semaphore)
      → get_elem? ps i ≡ some reader_wait
      → value l.semaphore_reader ≡ suc (value t)
      → Serves sem inv sup i (record l { semaphore_reader = t }, reader_woken)
  passes_reader t e v = record {
    readers_served = omega (arith, sup.readers_served, m, v);
    writers_served = omega (arith, m, few_wait sem inv sup i reader_woken);
    writers_served_by_readers = omega (arith, m, few_wait sem inv sup i reader_woken);
    loop_done = omega (arith, sup.loop_done, m, v);
    no_sign = omega (arith, sup.no_sign, m);
    loop_needed = omega (arith, sup.loop_needed, m);
  }
    where
      m : Moves ps i reader_wait reader_woken
      m = moves ps i reader_woken e

  -- It takes the mutex, so that nobody is in the loop.
  takes_mutex :
      (t : Semaphore)
      → get_elem? ps i ≡ some reader_woken
      → value l.semaphore_mutex ≡ suc (value t)
      → Serves sem inv sup i (record l { semaphore_mutex = t }, reader_wait_decrement)
  takes_mutex t e v = record {
    readers_served = omega (arith, sup.readers_served, m);
    writers_served = omega (arith, sup.writers_served, m);
    writers_served_by_readers = omega (arith, sup.writers_served_by_readers, m);
    loop_done = omega (arith, idle_loop ps nobody, m);
    no_sign = omega (arith, sup.no_sign, m);
    loop_needed = omega (arith, sup.loop_needed, m);
  }
    where
      m : Moves ps i reader_woken reader_wait_decrement
      m = moves ps i reader_wait_decrement e

      nobody : total in_loop ps ≡ 0
      nobody = omega (arith, inv.mutex, (related ps).holder, v)

  pub Serves-enter_reader :
      (p : Place) {y : Shared Semaphore × Place}
      → get_elem? ps i ≡ some p
      → enter_reader_step sem l p ≡ some y
      → Serves sem inv sup i y
  unfolding enter_reader_step
  Serves-enter_reader enter_reader e s = carry_map (Serves sem inv sup i) _ _ s (λ t d.
      calm sem inv sup i reader_check (omega (arith, moves ps i reader_check e, sup.loop_needed)))
  Serves-enter_reader reader_check e s =
      elim (Bool-cases (is_positive l.writer_waiting_count || is_positive l.writer_count)) [
        | inl h ↦ carry (Serves sem inv sup i) (rw h at s) (will_wait e h)
        | inr h ↦ carry (Serves sem inv sup i) (rw h at s) (
            calm sem inv sup i reader_increment
              (omega (arith, moves ps i reader_increment e, sup.loop_needed)))
      ]
  Serves-enter_reader reader_wait_increment e s = carry (Serves sem inv sup i) s (
      calm sem inv sup i reader_wait_release
        (omega (arith, moves ps i reader_wait_release e, sup.loop_needed)))
  Serves-enter_reader reader_wait_release e s =
      carry (Serves sem inv sup i) s
        (calm sem inv sup i reader_wait (omega (arith, moves ps i reader_wait e, sup.loop_needed)))
  Serves-enter_reader reader_wait e s =
      carry_map (Serves sem inv sup i) _ _ s
        (λ t d. passes_reader t e (value-down l.semaphore_reader d))
  Serves-enter_reader reader_woken e s =
      carry_map (Serves sem inv sup i) _ _ s
        (λ t d. takes_mutex t e (value-down l.semaphore_mutex d))
  Serves-enter_reader reader_wait_decrement e s = carry (Serves sem inv sup i) s (
      calm sem inv sup i reader_increment
        (omega (arith, moves ps i reader_increment e, alone sem inv sup i e refl)))
  Serves-enter_reader reader_increment e s = carry (Serves sem inv sup i) s (
      calm sem inv sup i reader_entered
        (omega (arith, moves ps i reader_entered e, sup.loop_needed)))
  Serves-enter_reader reader_entered e s =
      carry (Serves sem inv sup i) s
        (calm sem inv sup i reading (omega (arith, moves ps i reading e, sup.loop_needed)))
  Serves-enter_reader _ e s = absurd (ground arith)
