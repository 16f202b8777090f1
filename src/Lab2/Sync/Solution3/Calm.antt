-- ===== src/Lab2/Sync/Solution3/Calm.antt =====
-- Solution 3: the steps that leave those who wait and those who wake them as they are, and what the
-- holder of the mutex may rely on.
use os_class.Common.{
  ℕ, ◌<◌, ◌^◌, ◌≤◌, ◌≡◌, some, List, get_elem?, set, length-set, total, le-total, arith,
}
use os_class.Lab2.Sync.Semaphores.{Semaphores}
use os_class.Lab2.Sync.Solution3.{Shared, Place}
use os_class.Lab2.Sync.Solution3.Inv.{is_waiting_reader, Inv}
use os_class.Lab2.Sync.Solution3.Supply.{
  goes_to_wait, goes_to_wait_read, is_active, will_wake, is_entering, in_loop, holds_elsewhere,
  index_of, index_below, is_woken_reader,
}
use os_class.Lab2.Sync.Solution3.Related.{related, Supplied}

module _ (sem : Semaphores) {l : Shared sem.Semaphore} {ps : List Place} (inv : Inv sem l ps)
    (sup : Supplied (sem.value l.semaphore_writer) (sem.value l.semaphore_reader) ps) (i : ℕ) where
  open sem use {Semaphore, value}

  -- The inequalities after a step of thread `i` with the outcome given.
  abbrev pub Serves : Shared Semaphore × Place → Type 0
  Serves (l', q) = Supplied (value l'.semaphore_writer) (value l'.semaphore_reader) (set ps i q)

  pub calm :
      (q : Place)
      → (total goes_to_wait (set ps i q) ≡ total goes_to_wait ps)
        × (total goes_to_wait_read (set ps i q) ≡ total goes_to_wait_read ps)
        × (total is_active ps ≤ total is_active (set ps i q))
        × (total will_wake ps ≤ total will_wake (set ps i q))
        × (total index_of (set ps i q) ≡ total index_of ps)
        × (total index_below (set ps i q) ≡ total index_below ps)
        × (total is_woken_reader (set ps i q) ≡ total is_woken_reader ps)
        × (total in_loop (set ps i q) ≤ total is_waiting_reader (set ps i q))
      → Supplied (value l.semaphore_writer) (value l.semaphore_reader) (set ps i q)
  calm q (a, b, c, d, e, f, g, h) = record {
    readers_served = omega (arith, sup.readers_served, b, d);
    writers_served = omega (arith, sup.writers_served, a, c);
    writers_served_by_readers = omega (arith, sup.writers_served_by_readers, a, b, c);
    loop_done = omega (arith, sup.loop_done, e, g);
    no_sign = omega (arith, sup.no_sign, f);
    loop_needed = h;
  }

  -- A thread that holds the mutex, and neither counts itself nor runs the loop, is alone with it.
  pub alone :
      {p : Place}
      → get_elem? ps i ≡ some p
      → holds_elsewhere p ≡ 1
      → (total is_entering ps ≡ 0) × (total in_loop ps ≡ 0)
  alone e h = omega (arith, inv.mutex, (related ps).holder, le-total holds_elsewhere ps i e, h)

  -- Fewer than 2^31 threads wait, also after the step.
  pub few_wait :
      (q : Place)
      → (total goes_to_wait (set ps i q) < 2 ^ 31) × (total goes_to_wait_read (set ps i q) < 2 ^ 31)
  few_wait q = omega (arith, related (set ps i q), inv.few, length-set ps i q)
