-- ===== src/Lab2/Sync/Solution2/Inv.antt =====
-- Solution 2: the numbers behind the four semaphores and the two counts. Writers and readers each
-- have a light switch: the writers' has `SemaphoreReader` for its resource, which a reader only passes,
-- and the readers' has `SemaphoreWriter`, for which the writers compete one by one.
use os_class.Common.{
  ℕ, ◌+◌, ◌<◌, ◌^◌, ◌≡◌, ◌≢◌, true, false, some, List, pos, get_elem?, set, length, total,
  total-set, eqb_ℤ, arith,
}
use os_class.Lab2.Sync.Semaphores.{Semaphores}
use os_class.Lab2.Sync.Switch.{
  Stage, away, counting, testing, first, leaving_in, settled, discounting, draining, last,
  leaving_out, Switch, Moved, moved, counted,
}
use os_class.Lab2.Sync.Solution2.{
  Shared, Place, writer_increment, writer_test_first, writer_down_reader, writer_counted,
  writer_down_writer, writing, writer_leaving, writer_decrement, writer_test_last, writer_up_reader,
  writer_left, reader_passing, reader_increment, reader_test_first, reader_down_writer,
  reader_entered, reading, reader_decrement, reader_test_last, reader_up_writer, reader_left,
}

abbrev pub writer_stage : Place → Stage
writer_stage writer_increment = counting
writer_stage writer_test_first = testing
writer_stage writer_down_reader = first
writer_stage writer_counted = leaving_in
writer_stage writer_down_writer = settled
writer_stage writing = settled
writer_stage writer_leaving = settled
writer_stage writer_decrement = discounting
writer_stage writer_test_last = draining
writer_stage writer_up_reader = last
writer_stage writer_left = leaving_out
writer_stage _ = away

abbrev pub reader_stage : Place → Stage
reader_stage reader_increment = counting
reader_stage reader_test_first = testing
reader_stage reader_down_writer = first
reader_stage reader_entered = leaving_in
reader_stage reading = settled
reader_stage reader_decrement = discounting
reader_stage reader_test_last = draining
reader_stage reader_up_writer = last
reader_stage reader_left = leaving_out
reader_stage _ = away

abbrev pub is_writing : Place → ℕ
is_writing writing = 1
is_writing _ = 0

abbrev pub is_at_gate : Place → ℕ
is_at_gate reader_passing = 1
is_at_gate _ = 0

module _ (sem : Semaphores) where
  open sem use {Semaphore, value}

  pub record Inv (l : Shared Semaphore) (ps : List Place) : Type 0 where
    pub few : length ps + 1 < 2 ^ 31
    pub writers_counted : l.writer_count ≡ pos (counted writer_stage ps)
    pub readers_counted : l.reader_count ≡ pos (counted reader_stage ps)
    pub writers :
        Switch writer_stage ps
          (value l.semaphore_writer_mutex)
          (value l.semaphore_reader)
          (total is_at_gate ps)
    pub readers :
        Switch reader_stage ps
          (value l.semaphore_reader_mutex)
          (value l.semaphore_writer)
          (total is_writing ps)

  -- The numbers when thread `i` goes from `p` to `q`.
  abbrev pub Goes : List Place → ℕ → Place → Place → Type 0
  Goes ps i p q =
      Moved writer_stage ps i p q
      × Moved reader_stage ps i p q
      × (total is_writing (set ps i q) + is_writing p ≡ total is_writing ps + is_writing q)
      × (total is_at_gate (set ps i q) + is_at_gate p ≡ total is_at_gate ps + is_at_gate q)

  pub goes :
      (ps : List Place) (i : ℕ) {p : Place} (q : Place) → get_elem? ps i ≡ some p → Goes ps i p q
  goes ps i q e = (
    moved writer_stage ps i q e,
    moved reader_stage ps i q e,
    total-set is_writing ps i q e,
    total-set is_at_gate ps i q e,
  )

  -- What the tests of the counts say.
  module _ {l : Shared Semaphore} {ps : List Place} (inv : Inv l ps) where
    pub writers_one : eqb_ℤ l.writer_count (pos 1) ≡ true → counted writer_stage ps ≡ 1
    writers_one h = ground (arith, inv.writers_counted)

    pub writers_more : eqb_ℤ l.writer_count (pos 1) ≡ false → counted writer_stage ps ≢ 1
    writers_more h = ground (arith, inv.writers_counted)

    pub writers_none : eqb_ℤ l.writer_count (pos 0) ≡ true → counted writer_stage ps ≡ 0
    writers_none h = ground (arith, inv.writers_counted)

    pub writers_some : eqb_ℤ l.writer_count (pos 0) ≡ false → counted writer_stage ps ≢ 0
    writers_some h = ground (arith, inv.writers_counted)

    pub readers_one : eqb_ℤ l.reader_count (pos 1) ≡ true → counted reader_stage ps ≡ 1
    readers_one h = ground (arith, inv.readers_counted)

    pub readers_more : eqb_ℤ l.reader_count (pos 1) ≡ false → counted reader_stage ps ≢ 1
    readers_more h = ground (arith, inv.readers_counted)

    pub readers_none : eqb_ℤ l.reader_count (pos 0) ≡ true → counted reader_stage ps ≡ 0
    readers_none h = ground (arith, inv.readers_counted)

    pub readers_some : eqb_ℤ l.reader_count (pos 0) ≡ false → counted reader_stage ps ≢ 0
    readers_some h = ground (arith, inv.readers_counted)

  -- The switches, and the counts, after a step of thread `i` with the outcome given.
  abbrev pub Keeps : List Place → ℕ → Shared Semaphore × Place → Type 0
  Keeps ps i (l', q) =
      Switch writer_stage (set ps i q) (value l'.semaphore_writer_mutex) (value l'.semaphore_reader)
        (total is_at_gate (set ps i q))
      × Switch reader_stage (set ps i q) (value l'.semaphore_reader_mutex)
          (value l'.semaphore_writer) (total is_writing (set ps i q))

  abbrev pub Counts : List Place → ℕ → Shared Semaphore × Place → Type 0
  Counts ps i (l', q) =
      (l'.writer_count ≡ pos (counted writer_stage (set ps i q)))
      × (l'.reader_count ≡ pos (counted reader_stage (set ps i q)))
