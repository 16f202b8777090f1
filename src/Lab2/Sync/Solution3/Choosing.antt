-- ===== src/Lab2/Sync/Solution3/Choosing.antt =====
-- Solution 3: a writer that leaves chooses whom to wake, and forgets nobody.
use os_class.Common.{ℕ, ◌<◌, ◌≡◌, refl, true, false, some, List, pos, get_elem?, total, arith}
use os_class.Lab2.Sync.Semaphores.{Semaphores}
use os_class.Lab2.Sync.Solution3.{
  Shared, Place, is_positive, writer_choose, writer_wake_readers, writer_wake_writer, writer_left,
}
use os_class.Lab2.Sync.Solution3.Inv.{is_waiting_writer, is_waiting_reader, Inv}
use os_class.Lab2.Sync.Solution3.Supply.{goes_to_wait, goes_to_wait_read}
use os_class.Lab2.Sync.Solution3.Related.{Moves, related, moves, Supplied}
use os_class.Lab2.Sync.Solution3.Calm.{Serves, alone}

module _ (sem : Semaphores) {l : Shared sem.Semaphore} {ps : List Place} (inv : Inv sem l ps)
    (sup : Supplied (sem.value l.semaphore_writer) (sem.value l.semaphore_reader) ps) (i : ℕ) where
  open sem use {Semaphore, value, value-down, value-up}

  positive_of : (a : ℕ) → is_positive (pos a) ≡ true → 0 < a
  positive_of a h = ground arith

  zero_of : (a : ℕ) → is_positive (pos a) ≡ false → a ≡ 0
  zero_of a h = ground arith

  -- The readers that wait are to be woken.
  pub starts_loop :
      get_elem? ps i ≡ some writer_choose
      → is_positive l.reader_waiting_count ≡ true
      → Serves sem inv sup i (l, writer_wake_readers (pos 0))
  starts_loop e h = record {
    readers_served = omega (arith, sup.readers_served, m);
    writers_served = omega (arith, sup.writers_served, m);
    writers_served_by_readers = omega (arith, sup.writers_served_by_readers, m);
    loop_done = omega (arith, sup.loop_done, m);
    no_sign = omega (arith, sup.no_sign, m);
    loop_needed = omega (arith, alone sem inv sup i e refl, m, some_wait);
  }
    where
      m : Moves ps i writer_choose (writer_wake_readers (pos 0))
      m = moves ps i (writer_wake_readers (pos 0)) e

      some_wait : 0 < total is_waiting_reader ps
      some_wait = positive_of (total is_waiting_reader ps) (rw inv.counts.waiting_readers at h)

  no_readers :
      get_elem? ps i ≡ some writer_choose
      → is_positive l.reader_waiting_count ≡ false
      → total goes_to_wait_read ps ≡ 0
  no_readers e h = omega (
    arith,
    zero_of (total is_waiting_reader ps) (rw inv.counts.waiting_readers at h),
    (related ps).waiting_read_counted,
    alone sem inv sup i e refl,
  )

  -- No reader waits, and a writer is to be woken.
  pub chooses_writer :
      get_elem? ps i ≡ some writer_choose
      → is_positive l.reader_waiting_count ≡ false
      → Serves sem inv sup i (l, writer_wake_writer)
  chooses_writer e h = record {
    readers_served = omega (arith, no_readers e h, m);
    writers_served = omega (arith, sup.writers_served, m);
    writers_served_by_readers = omega (arith, sup.writers_served_by_readers, m);
    loop_done = omega (arith, sup.loop_done, m);
    no_sign = omega (arith, sup.no_sign, m);
    loop_needed = omega (arith, sup.loop_needed, m);
  }
    where
      m : Moves ps i writer_choose writer_wake_writer
      m = moves ps i writer_wake_writer e

  -- Nobody waits.
  pub chooses_nobody :
      get_elem? ps i ≡ some writer_choose
      → is_positive l.reader_waiting_count ≡ false
      → is_positive l.writer_waiting_count ≡ false
      → Serves sem inv sup i (l, writer_left)
  chooses_nobody e h g = record {
    readers_served = omega (arith, no_readers e h, m);
    writers_served = omega (arith, no_writers, m);
    writers_served_by_readers = omega (arith, no_writers, m);
    loop_done = omega (arith, sup.loop_done, m);
    no_sign = omega (arith, sup.no_sign, m);
    loop_needed = omega (arith, sup.loop_needed, m);
  }
    where
      m : Moves ps i writer_choose writer_left
      m = moves ps i writer_left e

      no_writers : total goes_to_wait ps ≡ 0
      no_writers = omega (
        arith,
        zero_of (total is_waiting_writer ps) (rw inv.counts.waiting_writers at g),
        (related ps).waiting_counted,
        alone sem inv sup i e refl,
      )
