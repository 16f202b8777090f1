-- ===== src/Lab2/Sync/Solution3/Moves.antt =====
-- Solution 3: what a step does to the counts, by the variable that it changes.
use os_class.Common.{
  ℕ, ◌+◌, ◌≤◌, ◌≡◌, List, ℤ, pos, set, total, total-le-length, inc32, dec32, count_same, count_more,
  count_fewer, arith,
}
use os_class.Lab2.Sync.Semaphores.{Semaphores}
use os_class.Lab2.Sync.Solution3.{Shared, Place, writer_wait, writing, reader_wait, reading}
use os_class.Lab2.Sync.Solution3.Inv.{
  is_writer, is_reader, is_waiting_writer, is_waiting_reader, Counts, Inv,
}

-- Each weight counts a thread at most once.
writer_small : (p : Place) → is_writer p ≤ 1
writer_small writing = omega arith
writer_small _ = omega arith

reader_small : (p : Place) → is_reader p ≤ 1
reader_small reading = omega arith
reader_small _ = omega arith

waiting_writer_small : (p : Place) → is_waiting_writer p ≤ 1
waiting_writer_small writer_wait = omega arith
waiting_writer_small _ = omega arith

pub waiting_reader_small : (p : Place) → is_waiting_reader p ≤ 1
waiting_reader_small reader_wait = omega arith
waiting_reader_small _ = omega arith

module _ (sem : Semaphores) {l : Shared sem.Semaphore} {ps : List Place} (inv : Inv sem l ps)
    (i : ℕ) where
  open sem use {Semaphore, value-down, value-up}
  open inv.counts use {writers, readers, waiting_writers, waiting_readers}

  -- A variable that counts the threads by a weight, after a step that changes their number.
  same_of :
      (w : Place → ℕ) {v : ℤ} (q : Place)
      → v ≡ pos (total w ps)
      → total w (set ps i q) ≡ total w ps
      → v ≡ pos (total w (set ps i q))
  same_of w q held h = count_same (total w ps) (total w (set ps i q)) held h

  more_of :
      (w : Place → ℕ)
      → ((p : Place) → w p ≤ 1)
      → {v : ℤ} (q : Place) → v ≡ pos (total w ps)
      → total w (set ps i q) ≡ total w ps + 1
      → inc32 v ≡ pos (total w (set ps i q))
  more_of w small q held h =
      count_more (total w ps) (total w (set ps i q)) held h
        (omega (arith, inv.few, total-le-length w small ps))

  fewer_of :
      (w : Place → ℕ)
      → ((p : Place) → w p ≤ 1)
      → {v : ℤ} (q : Place) → v ≡ pos (total w ps)
      → total w (set ps i q) + 1 ≡ total w ps
      → dec32 v ≡ pos (total w (set ps i q))
  fewer_of w small q held h =
      count_fewer (total w ps) (total w (set ps i q)) held h
        (omega (arith, inv.few, total-le-length w small ps))

  pub Counts-same :
      (q : Place)
      → (total is_writer (set ps i q) ≡ total is_writer ps)
        × (total is_reader (set ps i q) ≡ total is_reader ps)
        × (total is_waiting_writer (set ps i q) ≡ total is_waiting_writer ps)
        × (total is_waiting_reader (set ps i q) ≡ total is_waiting_reader ps)
      → Counts l (set ps i q)
  Counts-same q h = record {
    writers = same_of is_writer q writers h.0;
    readers = same_of is_reader q readers h.1;
    waiting_writers = same_of is_waiting_writer q waiting_writers h.2;
    waiting_readers = same_of is_waiting_reader q waiting_readers h.3;
  }

  pub Counts-more_writers :
      (q : Place)
      → (total is_writer (set ps i q) ≡ total is_writer ps + 1)
        × (total is_reader (set ps i q) ≡ total is_reader ps)
        × (total is_waiting_writer (set ps i q) ≡ total is_waiting_writer ps)
        × (total is_waiting_reader (set ps i q) ≡ total is_waiting_reader ps)
      → Counts (record l { writer_count = inc32 l.writer_count }) (set ps i q)
  Counts-more_writers q h = record {
    writers = more_of is_writer writer_small q writers h.0;
    readers = same_of is_reader q readers h.1;
    waiting_writers = same_of is_waiting_writer q waiting_writers h.2;
    waiting_readers = same_of is_waiting_reader q waiting_readers h.3;
  }

  pub Counts-fewer_writers :
      (q : Place)
      → (total is_writer (set ps i q) + 1 ≡ total is_writer ps)
        × (total is_reader (set ps i q) ≡ total is_reader ps)
        × (total is_waiting_writer (set ps i q) ≡ total is_waiting_writer ps)
        × (total is_waiting_reader (set ps i q) ≡ total is_waiting_reader ps)
      → Counts (record l { writer_count = dec32 l.writer_count }) (set ps i q)
  Counts-fewer_writers q h = record {
    writers = fewer_of is_writer writer_small q writers h.0;
    readers = same_of is_reader q readers h.1;
    waiting_writers = same_of is_waiting_writer q waiting_writers h.2;
    waiting_readers = same_of is_waiting_reader q waiting_readers h.3;
  }

  pub Counts-more_readers :
      (q : Place)
      → (total is_writer (set ps i q) ≡ total is_writer ps)
        × (total is_reader (set ps i q) ≡ total is_reader ps + 1)
        × (total is_waiting_writer (set ps i q) ≡ total is_waiting_writer ps)
        × (total is_waiting_reader (set ps i q) ≡ total is_waiting_reader ps)
      → Counts (record l { reader_count = inc32 l.reader_count }) (set ps i q)
  Counts-more_readers q h = record {
    writers = same_of is_writer q writers h.0;
    readers = more_of is_reader reader_small q readers h.1;
    waiting_writers = same_of is_waiting_writer q waiting_writers h.2;
    waiting_readers = same_of is_waiting_reader q waiting_readers h.3;
  }

  pub Counts-fewer_readers :
      (q : Place)
      → (total is_writer (set ps i q) ≡ total is_writer ps)
        × (total is_reader (set ps i q) + 1 ≡ total is_reader ps)
        × (total is_waiting_writer (set ps i q) ≡ total is_waiting_writer ps)
        × (total is_waiting_reader (set ps i q) ≡ total is_waiting_reader ps)
      → Counts (record l { reader_count = dec32 l.reader_count }) (set ps i q)
  Counts-fewer_readers q h = record {
    writers = same_of is_writer q writers h.0;
    readers = fewer_of is_reader reader_small q readers h.1;
    waiting_writers = same_of is_waiting_writer q waiting_writers h.2;
    waiting_readers = same_of is_waiting_reader q waiting_readers h.3;
  }

  pub Counts-more_waiting_writers :
      (q : Place)
      → (total is_writer (set ps i q) ≡ total is_writer ps)
        × (total is_reader (set ps i q) ≡ total is_reader ps)
        × (total is_waiting_writer (set ps i q) ≡ total is_waiting_writer ps + 1)
        × (total is_waiting_reader (set ps i q) ≡ total is_waiting_reader ps)
      → Counts (record l { writer_waiting_count = inc32 l.writer_waiting_count }) (set ps i q)
  Counts-more_waiting_writers q h = record {
    writers = same_of is_writer q writers h.0;
    readers = same_of is_reader q readers h.1;
    waiting_writers = more_of is_waiting_writer waiting_writer_small q waiting_writers h.2;
    waiting_readers = same_of is_waiting_reader q waiting_readers h.3;
  }

  pub Counts-fewer_waiting_writers :
      (q : Place)
      → (total is_writer (set ps i q) ≡ total is_writer ps)
        × (total is_reader (set ps i q) ≡ total is_reader ps)
        × (total is_waiting_writer (set ps i q) + 1 ≡ total is_waiting_writer ps)
        × (total is_waiting_reader (set ps i q) ≡ total is_waiting_reader ps)
      → Counts (record l { writer_waiting_count = dec32 l.writer_waiting_count }) (set ps i q)
  Counts-fewer_waiting_writers q h = record {
    writers = same_of is_writer q writers h.0;
    readers = same_of is_reader q readers h.1;
    waiting_writers = fewer_of is_waiting_writer waiting_writer_small q waiting_writers h.2;
    waiting_readers = same_of is_waiting_reader q waiting_readers h.3;
  }

  pub Counts-more_waiting_readers :
      (q : Place)
      → (total is_writer (set ps i q) ≡ total is_writer ps)
        × (total is_reader (set ps i q) ≡ total is_reader ps)
        × (total is_waiting_writer (set ps i q) ≡ total is_waiting_writer ps)
        × (total is_waiting_reader (set ps i q) ≡ total is_waiting_reader ps + 1)
      → Counts (record l { reader_waiting_count = inc32 l.reader_waiting_count }) (set ps i q)
  Counts-more_waiting_readers q h = record {
    writers = same_of is_writer q writers h.0;
    readers = same_of is_reader q readers h.1;
    waiting_writers = same_of is_waiting_writer q waiting_writers h.2;
    waiting_readers = more_of is_waiting_reader waiting_reader_small q waiting_readers h.3;
  }

  pub Counts-fewer_waiting_readers :
      (q : Place)
      → (total is_writer (set ps i q) ≡ total is_writer ps)
        × (total is_reader (set ps i q) ≡ total is_reader ps)
        × (total is_waiting_writer (set ps i q) ≡ total is_waiting_writer ps)
        × (total is_waiting_reader (set ps i q) + 1 ≡ total is_waiting_reader ps)
      → Counts (record l { reader_waiting_count = dec32 l.reader_waiting_count }) (set ps i q)
  Counts-fewer_waiting_readers q h = record {
    writers = same_of is_writer q writers h.0;
    readers = same_of is_reader q readers h.1;
    waiting_writers = same_of is_waiting_writer q waiting_writers h.2;
    waiting_readers = fewer_of is_waiting_reader waiting_reader_small q waiting_readers h.3;
  }
