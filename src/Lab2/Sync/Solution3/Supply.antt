-- ===== src/Lab2/Sync/Solution3/Supply.antt =====
-- Solution 3: who will wake the threads that wait, as inequalities between numbers of threads.
use os_class.Common.{ℕ, pos_part, neg_part}
use os_class.Lab2.Sync.Solution3.{
  Place, writer_wait_increment, writer_wait_release, writer_wait, writer_woken,
  writer_wait_decrement, writer_increment, writer_entered, writing, writer_decrement, writer_choose,
  writer_wake_readers, writer_wake_writer, reader_wait_increment, reader_wait_release, reader_wait,
  reader_woken, reader_wait_decrement, reader_increment, reader_entered, reading, reader_decrement,
  reader_check_last, reader_wake_writer,
}
use os_class.Lab2.Sync.Solution3.Inv.{has_mutex}

-- On the way to its `down` of `SemaphoreWriter`, or there.
abbrev pub goes_to_wait : Place → ℕ
goes_to_wait writer_wait_increment = 1
goes_to_wait writer_wait_release = 1
goes_to_wait writer_wait = 1
goes_to_wait _ = 0

-- On the way to its `down` of `SemaphoreReader`, or there.
abbrev pub goes_to_wait_read : Place → ℕ
goes_to_wait_read reader_wait_increment = 1
goes_to_wait_read reader_wait_release = 1
goes_to_wait_read reader_wait = 1
goes_to_wait_read _ = 0

-- On the way in after its wait, in the critical section, or leaving and still to wake.
abbrev pub is_active : Place → ℕ
is_active writer_woken = 1
is_active writer_wait_decrement = 1
is_active writer_increment = 1
is_active writer_entered = 1
is_active writing = 1
is_active writer_decrement = 1
is_active writer_choose = 1
is_active (writer_wake_readers index) = 1
is_active writer_wake_writer = 1
is_active reader_woken = 1
is_active reader_wait_decrement = 1
is_active reader_increment = 1
is_active reader_entered = 1
is_active reading = 1
is_active reader_decrement = 1
is_active reader_check_last = 1
is_active reader_wake_writer = 1
is_active _ = 0

-- A writer that has still to wake the readers that wait.
abbrev pub will_wake : Place → ℕ
will_wake writer_wait_release = 1
will_wake writer_wait = 1
will_wake writer_woken = 1
will_wake writer_wait_decrement = 1
will_wake writer_increment = 1
will_wake writer_entered = 1
will_wake writing = 1
will_wake writer_decrement = 1
will_wake writer_choose = 1
will_wake (writer_wake_readers index) = 1
will_wake _ = 0

-- The holder of the mutex: about to count itself as waiting, in the loop, or elsewhere.
abbrev pub is_entering : Place → ℕ
is_entering writer_wait_increment = 1
is_entering reader_wait_increment = 1
is_entering _ = 0

abbrev pub in_loop : Place → ℕ
in_loop (writer_wake_readers index) = 1
in_loop _ = 0

abbrev pub holds_elsewhere : Place → ℕ
holds_elsewhere writer_wait_increment = 0
holds_elsewhere reader_wait_increment = 0
holds_elsewhere (writer_wake_readers index) = 0
holds_elsewhere p = has_mutex p

-- The index of the loop, and what it is below 0.
abbrev pub index_of : Place → ℕ
index_of (writer_wake_readers index) = pos_part index
index_of _ = 0

abbrev pub index_below : Place → ℕ
index_below (writer_wake_readers index) = neg_part index
index_below _ = 0

abbrev pub is_woken_reader : Place → ℕ
is_woken_reader reader_woken = 1
is_woken_reader _ = 0
