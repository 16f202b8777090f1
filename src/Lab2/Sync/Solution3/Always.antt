-- ===== src/Lab2/Sync/Solution3/Always.antt =====
-- Solution 3: the invariant along the steps of all threads, from the initial state on.
use os_class.Common.{
  ℕ, ◌+◌, ◌<◌, ◌^◌, ◌≡◌, refl, sym, ap, some, List, pos, get_elem?, set, length-set, replicate,
  length-replicate, total-replicate, add-le-total, ℕ_discrete, arith,
}
use os_class.Lab2.Sync.Semaphores.{Semaphores}
use os_class.Lab2.Sync.System.{Role, System, Step, call, run, Reach, start, later}
use os_class.Lab2.Sync.Solution3.{
  Shared, Place, outside, enter_writer, writer_check, writer_wait_increment, writer_wait_release,
  writer_wait, writer_woken, writer_wait_decrement, writer_increment, writer_entered, writing,
  writer_decrement, writer_choose, writer_wake_readers, writer_wake_writer, writer_left,
  enter_reader, reader_check, reader_wait_increment, reader_wait_release, reader_wait, reader_woken,
  reader_wait_decrement, reader_increment, reader_entered, reading, reader_decrement,
  reader_check_last, reader_wake_writer, reader_left, begin, initial, step, protocol,
}
use os_class.Lab2.Sync.Solution3.Inv.{
  has_mutex, is_writer, is_reader, is_waiting_writer, is_waiting_reader, Counts, Inv, goes, Keeps,
}
use os_class.Lab2.Sync.Solution3.Moves.{Counts-same}
use os_class.Lab2.Sync.Solution3.WriterSteps.{Keeps-enter_writer, Keeps-leave_writer}
use os_class.Lab2.Sync.Solution3.ReaderSteps.{Keeps-enter_reader, Keeps-leave_reader}

module _ (sem : Semaphores) where
  open sem use {Semaphore, value, value-initializer}

  module _ {l : Shared Semaphore} {ps : List Place} (inv : Inv sem l ps) (i : ℕ) where
    keeps :
        (p : Place) {y : Shared Semaphore × Place}
        → get_elem? ps i ≡ some p
        → step sem l p ≡ some y
        → Keeps sem ps i y
    unfolding step
    keeps outside e s = absurd (ground arith)
    keeps enter_writer e s = Keeps-enter_writer sem inv i enter_writer e s
    keeps writer_check e s = Keeps-enter_writer sem inv i writer_check e s
    keeps writer_wait_increment e s = Keeps-enter_writer sem inv i writer_wait_increment e s
    keeps writer_wait_release e s = Keeps-enter_writer sem inv i writer_wait_release e s
    keeps writer_wait e s = Keeps-enter_writer sem inv i writer_wait e s
    keeps writer_woken e s = Keeps-enter_writer sem inv i writer_woken e s
    keeps writer_wait_decrement e s = Keeps-enter_writer sem inv i writer_wait_decrement e s
    keeps writer_increment e s = Keeps-enter_writer sem inv i writer_increment e s
    keeps writer_entered e s = Keeps-enter_writer sem inv i writer_entered e s
    keeps writing e s = Keeps-leave_writer sem inv i writing e s
    keeps writer_decrement e s = Keeps-leave_writer sem inv i writer_decrement e s
    keeps writer_choose e s = Keeps-leave_writer sem inv i writer_choose e s
    keeps (writer_wake_readers index) e s =
        Keeps-leave_writer sem inv i (writer_wake_readers index) e s
    keeps writer_wake_writer e s = Keeps-leave_writer sem inv i writer_wake_writer e s
    keeps writer_left e s = Keeps-leave_writer sem inv i writer_left e s
    keeps enter_reader e s = Keeps-enter_reader sem inv i enter_reader e s
    keeps reader_check e s = Keeps-enter_reader sem inv i reader_check e s
    keeps reader_wait_increment e s = Keeps-enter_reader sem inv i reader_wait_increment e s
    keeps reader_wait_release e s = Keeps-enter_reader sem inv i reader_wait_release e s
    keeps reader_wait e s = Keeps-enter_reader sem inv i reader_wait e s
    keeps reader_woken e s = Keeps-enter_reader sem inv i reader_woken e s
    keeps reader_wait_decrement e s = Keeps-enter_reader sem inv i reader_wait_decrement e s
    keeps reader_increment e s = Keeps-enter_reader sem inv i reader_increment e s
    keeps reader_entered e s = Keeps-enter_reader sem inv i reader_entered e s
    keeps reading e s = Keeps-leave_reader sem inv i reading e s
    keeps reader_decrement e s = Keeps-leave_reader sem inv i reader_decrement e s
    keeps reader_check_last e s = Keeps-leave_reader sem inv i reader_check_last e s
    keeps reader_wake_writer e s = Keeps-leave_reader sem inv i reader_wake_writer e s
    keeps reader_left e s = Keeps-leave_reader sem inv i reader_left e s

    run-Inv :
        {p q : Place} {l' : Shared Semaphore}
        → get_elem? ps i ≡ some p
        → step sem l p ≡ some (l', q)
        → Inv sem l' (set ps i q)
    run-Inv {p} e s = record {
      few = rw length-set inv.few;
      mutex = (keeps p e s).0;
      counts = (keeps p e s).1;
    }

    call-Inv : (role : Role) → get_elem? ps i ≡ some outside → Inv sem l (set ps i (begin role))
    call-Inv Role.writer e = record {
      few = rw length-set inv.few;
      mutex = omega (arith, inv.mutex, goes sem ps i enter_writer e);
      counts = Counts-same sem inv i enter_writer (omega (arith, goes sem ps i enter_writer e));
    }
    call-Inv Role.reader e = record {
      few = rw length-set inv.few;
      mutex = omega (arith, inv.mutex, goes sem ps i enter_reader e);
      counts = Counts-same sem inv i enter_reader (omega (arith, goes sem ps i enter_reader e));
    }

  Inv-init : (n : ℕ) → n + 1 < 2 ^ 31 → Inv sem (initial sem) (replicate n outside)
  Inv-init n h = record {
    few = rw length-replicate h;
    mutex = rw (value-initializer, total-replicate has_mutex n outside refl);
    counts = record {
      writers = ap pos (sym (total-replicate is_writer n outside refl));
      readers = ap pos (sym (total-replicate is_reader n outside refl));
      waiting_writers = ap pos (sym (total-replicate is_waiting_writer n outside refl));
      waiting_readers = ap pos (sym (total-replicate is_waiting_reader n outside refl));
    };
  }

  Step-Inv :
      {s t : System (Shared Semaphore) Place}
      → Step (protocol sem) s t
      → Inv sem s.shared s.threads
      → Inv sem t.shared t.threads
  Step-Inv (call i role e) inv = call-Inv inv i role e
  Step-Inv (run i e st) inv = run-Inv inv i e st

  pub Reach-Inv :
      {n : ℕ} {s : System (Shared Semaphore) Place}
      → n + 1 < 2 ^ 31
      → Reach (protocol sem) n s
      → Inv sem s.shared s.threads
  Reach-Inv {n} h start = Inv-init n h
  Reach-Inv h (later r st) = Step-Inv st (Reach-Inv h r)

  -- In every state that `n` threads (fewer than 2^31 - 1) can reach, `WriterCount`, `ReaderCount`,
  -- `WriterWaitingCount` and `ReaderWaitingCount` are the numbers of threads that have been counted as
  -- writers, readers, waiting writers and waiting readers and not yet discounted.
  pub Counts-exact :
      {n : ℕ} {s : System (Shared Semaphore) Place}
      → n + 1 < 2 ^ 31
      → Reach (protocol sem) n s
      → Counts s.shared s.threads
  Counts-exact h r = (Reach-Inv h r).counts

  -- In every such state at most one thread is between a `down` and the `up` of `SemaphoreMutex`.
  pub mutex_exclusive :
      {n : ℕ} {s : System (Shared Semaphore) Place}
      → n + 1 < 2 ^ 31
      → Reach (protocol sem) n s
      → (i j : ℕ) {p q : Place} → get_elem? s.threads i ≡ some p
      → get_elem? s.threads j ≡ some q
      → has_mutex p ≡ 1
      → has_mutex q ≡ 1
      → i ≡ j
  mutex_exclusive {s} h r i j hi hj hp hq = elim (ℕ_discrete i j) [
    | yes e ↦ e
    | no d ↦
        absurd (omega (arith, (Reach-Inv h r).mutex, add-le-total has_mutex s.threads i j d hi hj))
  ]
