-- ===== src/Lab2/Sync/Solution3/Inv.antt =====
-- Solution 3: one thread at a time is between `down` and `up` of the mutex, and the four counts are
-- the numbers of threads that write, read, wait to write and wait to read.
use os_class.Common.{
  ℕ, ◌+◌, ◌<◌, ◌^◌, ◌≡◌, some, List, ℤ, pos, get_elem?, set, length, total, total-set,
}
use os_class.Lab2.Sync.Semaphores.{Semaphores}
use os_class.Lab2.Sync.Solution3.{
  Shared, Place, writer_check, writer_wait_increment, writer_wait_release, writer_wait,
  writer_woken, writer_wait_decrement, writer_increment, writer_entered, writing, writer_decrement,
  writer_choose, writer_wake_readers, writer_wake_writer, writer_left, reader_check,
  reader_wait_increment, reader_wait_release, reader_wait, reader_woken, reader_wait_decrement,
  reader_increment, reader_entered, reading, reader_decrement, reader_check_last,
  reader_wake_writer, reader_left,
}

-- Between a `down` of the mutex and the `up` that follows it.
abbrev pub has_mutex : Place → ℕ
has_mutex writer_check = 1
has_mutex writer_wait_increment = 1
has_mutex writer_wait_release = 1
has_mutex writer_wait_decrement = 1
has_mutex writer_increment = 1
has_mutex writer_entered = 1
has_mutex writer_decrement = 1
has_mutex writer_choose = 1
has_mutex (writer_wake_readers index) = 1
has_mutex writer_wake_writer = 1
has_mutex writer_left = 1
has_mutex reader_check = 1
has_mutex reader_wait_increment = 1
has_mutex reader_wait_release = 1
has_mutex reader_wait_decrement = 1
has_mutex reader_increment = 1
has_mutex reader_entered = 1
has_mutex reader_decrement = 1
has_mutex reader_check_last = 1
has_mutex reader_wake_writer = 1
has_mutex reader_left = 1
has_mutex _ = 0

-- Counted by `WriterCount`.
abbrev pub is_writer : Place → ℕ
is_writer writer_entered = 1
is_writer writing = 1
is_writer writer_decrement = 1
is_writer _ = 0

-- Counted by `ReaderCount`.
abbrev pub is_reader : Place → ℕ
is_reader reader_entered = 1
is_reader reading = 1
is_reader reader_decrement = 1
is_reader _ = 0

-- Counted by `WriterWaitingCount`.
abbrev pub is_waiting_writer : Place → ℕ
is_waiting_writer writer_wait_release = 1
is_waiting_writer writer_wait = 1
is_waiting_writer writer_woken = 1
is_waiting_writer writer_wait_decrement = 1
is_waiting_writer _ = 0

-- Counted by `ReaderWaitingCount`.
abbrev pub is_waiting_reader : Place → ℕ
is_waiting_reader reader_wait_release = 1
is_waiting_reader reader_wait = 1
is_waiting_reader reader_woken = 1
is_waiting_reader reader_wait_decrement = 1
is_waiting_reader _ = 0

-- The four variables hold the numbers of the threads that they count.
pub record Counted (writer_count reader_count writer_waiting_count reader_waiting_count : ℤ)
    (ps : List Place) : Type 0 where
  pub writers : writer_count ≡ pos (total is_writer ps)
  pub readers : reader_count ≡ pos (total is_reader ps)
  pub waiting_writers : writer_waiting_count ≡ pos (total is_waiting_writer ps)
  pub waiting_readers : reader_waiting_count ≡ pos (total is_waiting_reader ps)

abbrev pub Counts : {S : Type 0} → Shared S → List Place → Type 0
Counts l ps = Counted l.writer_count l.reader_count l.writer_waiting_count l.reader_waiting_count ps

module _ (sem : Semaphores) where
  open sem use {Semaphore, value}

  pub record Inv (l : Shared Semaphore) (ps : List Place) : Type 0 where
    pub few : length ps + 1 < 2 ^ 31
    pub mutex : value l.semaphore_mutex + total has_mutex ps ≡ 1
    pub counts : Counts l ps

  -- The numbers when thread `i` goes from `p` to `q`.
  pub record Goes (ps : List Place) (i : ℕ) (p q : Place) : Type 0 where
    pub holders : total has_mutex (set ps i q) + has_mutex p ≡ total has_mutex ps + has_mutex q
    pub writing_now : total is_writer (set ps i q) + is_writer p ≡ total is_writer ps + is_writer q
    pub reading_now : total is_reader (set ps i q) + is_reader p ≡ total is_reader ps + is_reader q
    pub to_write :
        total is_waiting_writer (set ps i q) + is_waiting_writer p
        ≡ total is_waiting_writer ps + is_waiting_writer q
    pub to_read :
        total is_waiting_reader (set ps i q) + is_waiting_reader p
        ≡ total is_waiting_reader ps + is_waiting_reader q

  pub goes :
      (ps : List Place) (i : ℕ) {p : Place} (q : Place) → get_elem? ps i ≡ some p → Goes ps i p q
  goes ps i q e = record {
    holders = total-set has_mutex ps i q e;
    writing_now = total-set is_writer ps i q e;
    reading_now = total-set is_reader ps i q e;
    to_write = total-set is_waiting_writer ps i q e;
    to_read = total-set is_waiting_reader ps i q e;
  }

  -- The mutex and the counts after a step of thread `i` with the outcome given.
  abbrev pub Keeps : List Place → ℕ → Shared Semaphore × Place → Type 0
  Keeps ps i (l', q) =
      (value l'.semaphore_mutex + total has_mutex (set ps i q) ≡ 1) × Counts l' (set ps i q)
