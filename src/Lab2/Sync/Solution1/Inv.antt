-- ===== src/Lab2/Sync/Solution1/Inv.antt =====
-- Solution 1: the numbers behind the two semaphores and `ReaderCount`, kept by every step.
use os_class.Common.{
  ◌≢◌, ℕ, ◌+◌, ◌<◌, ◌^◌, ◌≡◌, true, false, some, List, pos, get_elem?, set, length, total,
  total-set, eqb_ℤ, arith,
}
use os_class.Lab2.Sync.Semaphores.{Semaphores}
use os_class.Lab2.Sync.Switch.{
  Stage, away, counting, testing, first, leaving_in, settled, discounting, draining, last,
  leaving_out, Switch, Moved, moved, counted,
}
use os_class.Lab2.Sync.Solution1.{
  Shared, Place, writing, reader_increment, reader_test_first, reader_down_writer, reader_entered,
  reading, reader_decrement, reader_test_last, reader_up_writer, reader_left,
}

abbrev pub reader_stage : Place → Stage
reader_stage reader_increment = counting
reader_stage reader_test_first = testing
reader_stage reader_down_writer = first
reader_stage reader_entered = leaving_in
reader_stage reading = settled
reader_stage reader_decrement = discounting
reader_stage reader_test_last = draining
reader_stage reader_up_writer = last
reader_stage reader_left = leaving_out
reader_stage _ = away

abbrev pub is_writing : Place → ℕ
is_writing writing = 1
is_writing _ = 0

module _ (sem : Semaphores) where
  open sem use {Semaphore, down, up, value, value-down, value-up, value-initializer}

  -- The readers' switch has the writers' semaphore for its resource and the writers for the others.
  pub record Inv (l : Shared Semaphore) (ps : List Place) : Type 0 where
    pub few : length ps + 1 < 2 ^ 31
    pub count : l.reader_count ≡ pos (counted reader_stage ps)
    pub switch :
        Switch reader_stage ps
          (value l.semaphore_mutex)
          (value l.semaphore_writer)
          (total is_writing ps)

  -- How a step of thread `i` changes the numbers.
  module _ {l : Shared Semaphore} {ps : List Place} (inv : Inv l ps) (i : ℕ) where
    -- The switch after the step.
    abbrev pub Keeps : Shared Semaphore × Place → Type 0
    Keeps (l', q) =
        Switch reader_stage (set ps i q) (value l'.semaphore_mutex) (value l'.semaphore_writer)
          (total is_writing (set ps i q))

    -- The numbers at the place that the thread reaches.
    abbrev pub Goes : Place → Place → Type 0
    Goes p q =
        Moved reader_stage ps i p q
        × (total is_writing (set ps i q) + is_writing p ≡ total is_writing ps + is_writing q)

    pub goes : {p : Place} (q : Place) → get_elem? ps i ≡ some p → Goes p q
    goes q e = (moved reader_stage ps i q e, total-set is_writing ps i q e)

    -- What the tests of `ReaderCount` say.
    pub counted_one : eqb_ℤ l.reader_count (pos 1) ≡ true → counted reader_stage ps ≡ 1
    counted_one h = ground (arith, inv.count)

    pub counted_more : eqb_ℤ l.reader_count (pos 1) ≡ false → counted reader_stage ps ≢ 1
    counted_more h = ground (arith, inv.count)

    pub counted_none : eqb_ℤ l.reader_count (pos 0) ≡ true → counted reader_stage ps ≡ 0
    counted_none h = ground (arith, inv.count)

    pub counted_some : eqb_ℤ l.reader_count (pos 0) ≡ false → counted reader_stage ps ≢ 0
    counted_some h = ground (arith, inv.count)
