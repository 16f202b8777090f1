-- ===== src/Lab2/Sync/Solution3/Related.antt =====
-- Solution 3: how the numbers of threads at its places are related, how a step moves them, and that
-- whoever waits will be woken.
use os_class.Common.{
  refl, ℕ, ◌+◌, ◌*◌, ◌^◌, ◌≤◌, ◌≡◌, some, List, [], ◌∷◌, get_elem?, set, length, total, total-set,
  arith,
}
use os_class.Lab2.Sync.Solution3.{writer_wake_readers, Place, writing}
use os_class.Lab2.Sync.Solution3.Inv.{
  has_mutex, is_writer, is_reader, is_waiting_writer, is_waiting_reader,
}
use os_class.Lab2.Sync.Solution3.Supply.{
  goes_to_wait, goes_to_wait_read, is_active, will_wake, is_entering, in_loop, holds_elsewhere,
  index_of, index_below, is_woken_reader,
}

-- How the numbers are related, whatever the threads do.
pub record Related (ps : List Place) : Type 0 where
  pub inside : total is_writer ps + total is_reader ps ≤ total is_active ps
  pub counted_writers : total is_waiting_writer ps ≤ total goes_to_wait ps + total is_active ps
  pub counted_readers : total is_waiting_reader ps ≤ total goes_to_wait_read ps + total is_active ps
  pub wakers : total will_wake ps ≤ total goes_to_wait ps + total is_active ps
  pub counted_wakers : total is_waiting_writer ps + total is_writer ps ≤ total will_wake ps
  pub waiting_counted : total goes_to_wait ps ≤ total is_waiting_writer ps + total is_entering ps
  pub waiting_read_counted :
      total goes_to_wait_read ps + total is_woken_reader ps
      ≤ total is_waiting_reader ps + total is_entering ps
  pub holder :
      total is_entering ps + total in_loop ps + total holds_elsewhere ps ≡ total has_mutex ps
  pub few_writers : total goes_to_wait ps ≤ length ps
  pub few_readers : total goes_to_wait_read ps ≤ length ps

abbrev Pointwise : Place → Type 0
Pointwise p =
    (is_writer p + is_reader p ≤ is_active p)
    × (is_waiting_writer p ≤ goes_to_wait p + is_active p)
    × (is_waiting_reader p ≤ goes_to_wait_read p + is_active p)
    × (will_wake p ≤ goes_to_wait p + is_active p)
    × (is_waiting_writer p + is_writer p ≤ will_wake p)
    × (goes_to_wait p ≤ is_waiting_writer p + is_entering p)
    × (goes_to_wait_read p + is_woken_reader p ≤ is_waiting_reader p + is_entering p)
    × (is_entering p + in_loop p + holds_elsewhere p ≡ has_mutex p)
    × (goes_to_wait p ≤ 1)
    × (goes_to_wait_read p ≤ 1)

pointwise : (p : Place) → Pointwise p
pointwise writing = omega arith
pointwise _ = omega arith

pub related : (ps : List Place) → Related ps
unfolding total
related [] = record {
  inside = omega arith;
  counted_writers = omega arith;
  counted_readers = omega arith;
  wakers = omega arith;
  counted_wakers = omega arith;
  waiting_counted = omega arith;
  waiting_read_counted = omega arith;
  holder = omega arith;
  few_writers = omega arith;
  few_readers = omega arith;
}
related (p ∷ ps) =
    let r = related ps in
    let (a, b, c, d, e, f, g, h, i, j) = pointwise p in
    record {
      inside = omega (arith, r.inside, a);
      counted_writers = omega (arith, r.counted_writers, b);
      counted_readers = omega (arith, r.counted_readers, c);
      wakers = omega (arith, r.wakers, d);
      counted_wakers = omega (arith, r.counted_wakers, e);
      waiting_counted = omega (arith, r.waiting_counted, f);
      waiting_read_counted = omega (arith, r.waiting_read_counted, g);
      holder = omega (arith, r.holder, h);
      few_writers = omega (arith, r.few_writers, i);
      few_readers = omega (arith, r.few_readers, j);
    }

-- The numbers when thread `i` goes from `p` to `q`.
pub record Moves (ps : List Place) (i : ℕ) (p q : Place) : Type 0 where
  pub to_wait :
      total goes_to_wait (set ps i q) + goes_to_wait p ≡ total goes_to_wait ps + goes_to_wait q
  pub to_wait_read :
      total goes_to_wait_read (set ps i q) + goes_to_wait_read p
      ≡ total goes_to_wait_read ps + goes_to_wait_read q
  pub active : total is_active (set ps i q) + is_active p ≡ total is_active ps + is_active q
  pub waking : total will_wake (set ps i q) + will_wake p ≡ total will_wake ps + will_wake q
  pub looping : total in_loop (set ps i q) + in_loop p ≡ total in_loop ps + in_loop q
  pub index : total index_of (set ps i q) + index_of p ≡ total index_of ps + index_of q
  pub below : total index_below (set ps i q) + index_below p ≡ total index_below ps + index_below q
  pub woken :
      total is_woken_reader (set ps i q) + is_woken_reader p
      ≡ total is_woken_reader ps + is_woken_reader q
  pub to_read :
      total is_waiting_reader (set ps i q) + is_waiting_reader p
      ≡ total is_waiting_reader ps + is_waiting_reader q

pub moves :
    (ps : List Place) (i : ℕ) {p : Place} (q : Place) → get_elem? ps i ≡ some p → Moves ps i p q
moves ps i q e = record {
  to_wait = total-set goes_to_wait ps i q e;
  to_wait_read = total-set goes_to_wait_read ps i q e;
  active = total-set is_active ps i q e;
  waking = total-set will_wake ps i q e;
  looping = total-set in_loop ps i q e;
  index = total-set index_of ps i q e;
  below = total-set index_below ps i q e;
  woken = total-set is_woken_reader ps i q e;
  to_read = total-set is_waiting_reader ps i q e;
}

-- Whoever waits will be woken: a reader by a writer that is still to leave or by what it has already
-- put into `SemaphoreReader`; a writer by an active thread, by `SemaphoreWriter`, or by a reader that
-- still passes `SemaphoreReader`. The loop has put as much into `SemaphoreReader` as its index says.
pub record Supplied (semaphore_writer semaphore_reader : ℕ) (ps : List Place) : Type 0 where
  pub readers_served : total goes_to_wait_read ps ≤ semaphore_reader + 2 ^ 31 * total will_wake ps
  pub writers_served :
      total goes_to_wait ps ≤ 2 ^ 31 * (total is_active ps + semaphore_writer + semaphore_reader)
  pub writers_served_by_readers :
      total goes_to_wait ps
      ≤ 2 ^ 31 * (total is_active ps + semaphore_writer + total goes_to_wait_read ps)
  pub loop_done : total index_of ps ≤ semaphore_reader + total is_woken_reader ps
  pub no_sign : total index_below ps ≡ 0
  pub loop_needed : total in_loop ps ≤ total is_waiting_reader ps

no_index : (p : Place) → in_loop p ≡ 0 → index_of p ≡ 0
no_index (writer_wake_readers index) h = absurd (omega arith)
no_index _ h = refl

-- With nobody in the loop there is no index.
pub idle_loop : (ps : List Place) → total in_loop ps ≡ 0 → total index_of ps ≡ 0
unfolding total
idle_loop [] h = refl
idle_loop (p ∷ ps) h = omega (arith, no_index p (omega (arith, h)), idle_loop ps (omega (arith, h)))
