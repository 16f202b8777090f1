-- ===== src/Lab2/Sync/Solution2/Always.antt =====
-- Solution 2: the invariant along the steps of all threads, from the initial state on.
use os_class.Common.{
  ℕ, ◌+◌, ◌<◌, ◌^◌, ◌≡◌, refl, sym, ap, some, List, pos, get_elem?, set, length-set, replicate,
  length-replicate, total-replicate, arith,
}
use os_class.Lab2.Sync.Semaphores.{Semaphores}
use os_class.Lab2.Sync.System.{Role, System, Step, call, run, Reach, start, later}
use os_class.Lab2.Sync.Switch.{Switch-init, counted-init}
use os_class.Lab2.Sync.Solution2.{
  Shared, Place, outside, enter_writer, writer_increment, writer_test_first, writer_down_reader,
  writer_counted, writer_down_writer, writing, writer_leaving, writer_decrement, writer_test_last,
  writer_up_reader, writer_left, enter_reader, reader_passing, reader_down_mutex, reader_increment,
  reader_test_first, reader_down_writer, reader_entered, reading, reader_decrement,
  reader_test_last, reader_up_writer, reader_left, begin, initial, step, protocol,
}
use os_class.Lab2.Sync.Solution2.Inv.{
  writer_stage, reader_stage, is_writing, is_at_gate, Inv, goes, Keeps, Counts,
}
use os_class.Lab2.Sync.Solution2.WriterSteps.{Keeps-enter_writer, Keeps-leave_writer}
use os_class.Lab2.Sync.Solution2.ReaderSteps.{Keeps-enter_reader, Keeps-leave_reader}
use os_class.Lab2.Sync.Solution2.Counts.{
  Counts-enter_writer, Counts-leave_writer, Counts-enter_reader, Counts-leave_reader, same,
}

module _ (sem : Semaphores) where
  open sem use {Semaphore, value, value-initializer}

  module _ {l : Shared Semaphore} {ps : List Place} (inv : Inv sem l ps) (i : ℕ) where
    keeps :
        (p : Place) {y : Shared Semaphore × Place}
        → get_elem? ps i ≡ some p
        → step sem l p ≡ some y
        → Keeps sem ps i y
    unfolding step
    keeps outside e s = absurd (ground arith)
    keeps enter_writer e s = Keeps-enter_writer sem inv i enter_writer e s
    keeps writer_increment e s = Keeps-enter_writer sem inv i writer_increment e s
    keeps writer_test_first e s = Keeps-enter_writer sem inv i writer_test_first e s
    keeps writer_down_reader e s = Keeps-enter_writer sem inv i writer_down_reader e s
    keeps writer_counted e s = Keeps-enter_writer sem inv i writer_counted e s
    keeps writer_down_writer e s = Keeps-enter_writer sem inv i writer_down_writer e s
    keeps writing e s = Keeps-leave_writer sem inv i writing e s
    keeps writer_leaving e s = Keeps-leave_writer sem inv i writer_leaving e s
    keeps writer_decrement e s = Keeps-leave_writer sem inv i writer_decrement e s
    keeps writer_test_last e s = Keeps-leave_writer sem inv i writer_test_last e s
    keeps writer_up_reader e s = Keeps-leave_writer sem inv i writer_up_reader e s
    keeps writer_left e s = Keeps-leave_writer sem inv i writer_left e s
    keeps enter_reader e s = Keeps-enter_reader sem inv i enter_reader e s
    keeps reader_passing e s = Keeps-enter_reader sem inv i reader_passing e s
    keeps reader_down_mutex e s = Keeps-enter_reader sem inv i reader_down_mutex e s
    keeps reader_increment e s = Keeps-enter_reader sem inv i reader_increment e s
    keeps reader_test_first e s = Keeps-enter_reader sem inv i reader_test_first e s
    keeps reader_down_writer e s = Keeps-enter_reader sem inv i reader_down_writer e s
    keeps reader_entered e s = Keeps-enter_reader sem inv i reader_entered e s
    keeps reading e s = Keeps-leave_reader sem inv i reading e s
    keeps reader_decrement e s = Keeps-leave_reader sem inv i reader_decrement e s
    keeps reader_test_last e s = Keeps-leave_reader sem inv i reader_test_last e s
    keeps reader_up_writer e s = Keeps-leave_reader sem inv i reader_up_writer e s
    keeps reader_left e s = Keeps-leave_reader sem inv i reader_left e s

    counts :
        (p : Place) {y : Shared Semaphore × Place}
        → get_elem? ps i ≡ some p
        → step sem l p ≡ some y
        → Counts sem ps i y
    unfolding step
    counts outside e s = absurd (ground arith)
    counts enter_writer e s = Counts-enter_writer sem inv i enter_writer e s
    counts writer_increment e s = Counts-enter_writer sem inv i writer_increment e s
    counts writer_test_first e s = Counts-enter_writer sem inv i writer_test_first e s
    counts writer_down_reader e s = Counts-enter_writer sem inv i writer_down_reader e s
    counts writer_counted e s = Counts-enter_writer sem inv i writer_counted e s
    counts writer_down_writer e s = Counts-enter_writer sem inv i writer_down_writer e s
    counts writing e s = Counts-leave_writer sem inv i writing e s
    counts writer_leaving e s = Counts-leave_writer sem inv i writer_leaving e s
    counts writer_decrement e s = Counts-leave_writer sem inv i writer_decrement e s
    counts writer_test_last e s = Counts-leave_writer sem inv i writer_test_last e s
    counts writer_up_reader e s = Counts-leave_writer sem inv i writer_up_reader e s
    counts writer_left e s = Counts-leave_writer sem inv i writer_left e s
    counts enter_reader e s = Counts-enter_reader sem inv i enter_reader e s
    counts reader_passing e s = Counts-enter_reader sem inv i reader_passing e s
    counts reader_down_mutex e s = Counts-enter_reader sem inv i reader_down_mutex e s
    counts reader_increment e s = Counts-enter_reader sem inv i reader_increment e s
    counts reader_test_first e s = Counts-enter_reader sem inv i reader_test_first e s
    counts reader_down_writer e s = Counts-enter_reader sem inv i reader_down_writer e s
    counts reader_entered e s = Counts-enter_reader sem inv i reader_entered e s
    counts reading e s = Counts-leave_reader sem inv i reading e s
    counts reader_decrement e s = Counts-leave_reader sem inv i reader_decrement e s
    counts reader_test_last e s = Counts-leave_reader sem inv i reader_test_last e s
    counts reader_up_writer e s = Counts-leave_reader sem inv i reader_up_writer e s
    counts reader_left e s = Counts-leave_reader sem inv i reader_left e s

    run-Inv :
        {p q : Place} {l' : Shared Semaphore}
        → get_elem? ps i ≡ some p
        → step sem l p ≡ some (l', q)
        → Inv sem l' (set ps i q)
    run-Inv {p} {q} e s = record {
      few = rw length-set inv.few;
      writers_counted = (counts p e s).0;
      readers_counted = (counts p e s).1;
      writers = (keeps p e s).0;
      readers = (keeps p e s).1;
    }

    -- A thread that goes to the start of a call.
    call_to :
        (q : Place)
        → get_elem? ps i ≡ some outside
        → Counts sem ps i (l, q)
        → Keeps sem ps i (l, q)
        → Inv sem l (set ps i q)
    call_to q e c k = record {
      few = rw length-set inv.few;
      writers_counted = c.0;
      readers_counted = c.1;
      writers = k.0;
      readers = k.1;
    }

    call-Inv : (role : Role) → get_elem? ps i ≡ some outside → Inv sem l (set ps i (begin role))
    call-Inv Role.writer e =
        call_to enter_writer e
          (same sem inv i enter_writer e (omega (arith, goes sem ps i enter_writer e)))
          (omega (arith, inv.writers, inv.readers, goes sem ps i enter_writer e))
    call-Inv Role.reader e =
        call_to enter_reader e
          (same sem inv i enter_reader e (omega (arith, goes sem ps i enter_reader e)))
          (omega (arith, inv.writers, inv.readers, goes sem ps i enter_reader e))

  Inv-init : (n : ℕ) → n + 1 < 2 ^ 31 → Inv sem (initial sem) (replicate n outside)
  Inv-init n h = record {
    few = rw length-replicate h;
    writers_counted = ap pos (sym (counted-init writer_stage n outside refl));
    readers_counted = ap pos (sym (counted-init reader_stage n outside refl));
    writers =
        rw (value-initializer, total-replicate is_at_gate n outside refl)
          (Switch-init writer_stage n outside refl);
    readers =
        rw (value-initializer, total-replicate is_writing n outside refl)
          (Switch-init reader_stage n outside refl);
  }

  pub Step-Inv :
      {s t : System (Shared Semaphore) Place}
      → Step (protocol sem) s t
      → Inv sem s.shared s.threads
      → Inv sem t.shared t.threads
  Step-Inv (call i role e) inv = call-Inv inv i role e
  Step-Inv (run i e st) inv = run-Inv inv i e st

  pub Reach-Inv :
      {n : ℕ} {s : System (Shared Semaphore) Place}
      → n + 1 < 2 ^ 31
      → Reach (protocol sem) n s
      → Inv sem s.shared s.threads
  Reach-Inv {n} h start = Inv-init n h
  Reach-Inv h (later r st) = Step-Inv st (Reach-Inv h r)
