-- ===== src/Lab2/Sync/Solution3/Served.antt =====
-- Solution 3: in every state that can be reached, whoever waits will be woken.
use os_class.Common.{
  ℕ, ◌+◌, ◌<◌, ◌^◌, ◌≡◌, refl, some, List, get_elem?, set, replicate, total, total-replicate, arith,
}
use os_class.Lab2.Sync.Semaphores.{Semaphores}
use os_class.Lab2.Sync.System.{Role, System, Step, call, run, Reach, start, later}
use os_class.Lab2.Sync.Solution3.{
  Shared, Place, outside, begin, initial, step, protocol, writer_check, writer_wait_increment,
  writer_wait_release, writer_wait, writer_woken, writer_wait_decrement, writer_increment,
  writer_entered, writing, writer_decrement, writer_choose, writer_wake_readers, writer_wake_writer,
  writer_left, enter_writer, enter_reader, reader_check, reader_wait_increment, reader_wait_release,
  reader_wait, reader_woken, reader_wait_decrement, reader_increment, reader_entered, reading,
  reader_decrement, reader_check_last, reader_wake_writer, reader_left,
}
use os_class.Lab2.Sync.Solution3.Inv.{Inv}
use os_class.Lab2.Sync.Solution3.Always.{Reach-Inv}
use os_class.Lab2.Sync.Solution3.Supply.{
  goes_to_wait, goes_to_wait_read, in_loop, index_of, index_below,
}
use os_class.Lab2.Sync.Solution3.Related.{Supplied, moves}
use os_class.Lab2.Sync.Solution3.Calm.{Serves, calm}
use os_class.Lab2.Sync.Solution3.EnterWriter.{Serves-enter_writer}
use os_class.Lab2.Sync.Solution3.EnterReader.{Serves-enter_reader}
use os_class.Lab2.Sync.Solution3.LeaveWriter.{Serves-leave_writer}
use os_class.Lab2.Sync.Solution3.LeaveReader.{Serves-leave_reader}

module _ (sem : Semaphores) where
  open sem use {Semaphore, value, value-initializer}

  -- The inequalities at a state.
  abbrev pub SuppliedAt : Shared Semaphore → List Place → Type 0
  SuppliedAt l ps = Supplied (value l.semaphore_writer) (value l.semaphore_reader) ps

  module _ {l : Shared Semaphore} {ps : List Place} (inv : Inv sem l ps) (sup : SuppliedAt l ps)
      (i : ℕ) where
    serves :
        (p : Place) {y : Shared Semaphore × Place}
        → get_elem? ps i ≡ some p
        → step sem l p ≡ some y
        → Serves sem inv sup i y
    unfolding step
    serves outside e s = absurd (cc s)
    serves writer_check e s = Serves-enter_writer sem inv sup i writer_check e s
    serves writer_wait_increment e s = Serves-enter_writer sem inv sup i writer_wait_increment e s
    serves writer_wait_release e s = Serves-enter_writer sem inv sup i writer_wait_release e s
    serves writer_wait e s = Serves-enter_writer sem inv sup i writer_wait e s
    serves writer_woken e s = Serves-enter_writer sem inv sup i writer_woken e s
    serves writer_wait_decrement e s = Serves-enter_writer sem inv sup i writer_wait_decrement e s
    serves writer_increment e s = Serves-enter_writer sem inv sup i writer_increment e s
    serves writer_entered e s = Serves-enter_writer sem inv sup i writer_entered e s
    serves writing e s = Serves-leave_writer sem inv sup i writing e s
    serves writer_decrement e s = Serves-leave_writer sem inv sup i writer_decrement e s
    serves writer_choose e s = Serves-leave_writer sem inv sup i writer_choose e s
    serves (writer_wake_readers index) e s =
        Serves-leave_writer sem inv sup i (writer_wake_readers index) e s
    serves writer_wake_writer e s = Serves-leave_writer sem inv sup i writer_wake_writer e s
    serves writer_left e s = Serves-leave_writer sem inv sup i writer_left e s
    serves enter_writer e s = Serves-enter_writer sem inv sup i enter_writer e s
    serves enter_reader e s = Serves-enter_reader sem inv sup i enter_reader e s
    serves reader_check e s = Serves-enter_reader sem inv sup i reader_check e s
    serves reader_wait_increment e s = Serves-enter_reader sem inv sup i reader_wait_increment e s
    serves reader_wait_release e s = Serves-enter_reader sem inv sup i reader_wait_release e s
    serves reader_wait e s = Serves-enter_reader sem inv sup i reader_wait e s
    serves reader_woken e s = Serves-enter_reader sem inv sup i reader_woken e s
    serves reader_wait_decrement e s = Serves-enter_reader sem inv sup i reader_wait_decrement e s
    serves reader_increment e s = Serves-enter_reader sem inv sup i reader_increment e s
    serves reader_entered e s = Serves-enter_reader sem inv sup i reader_entered e s
    serves reading e s = Serves-leave_reader sem inv sup i reading e s
    serves reader_decrement e s = Serves-leave_reader sem inv sup i reader_decrement e s
    serves reader_check_last e s = Serves-leave_reader sem inv sup i reader_check_last e s
    serves reader_wake_writer e s = Serves-leave_reader sem inv sup i reader_wake_writer e s
    serves reader_left e s = Serves-leave_reader sem inv sup i reader_left e s

    call-Supplied :
        (role : Role) → get_elem? ps i ≡ some outside → SuppliedAt l (set ps i (begin role))
    call-Supplied Role.writer e =
        calm sem inv sup i enter_writer (omega (arith, moves ps i enter_writer e, sup.loop_needed))
    call-Supplied Role.reader e =
        calm sem inv sup i enter_reader (omega (arith, moves ps i enter_reader e, sup.loop_needed))

  none_at_first : (w : Place → ℕ) (n : ℕ) → w outside ≡ 0 → total w (replicate n outside) ≡ 0
  none_at_first w n h = total-replicate w n outside h

  initial-Supplied : (n : ℕ) → SuppliedAt (initial sem) (replicate n outside)
  initial-Supplied n = record {
    readers_served = omega (arith, none_at_first goes_to_wait_read n refl);
    writers_served = omega (arith, none_at_first goes_to_wait n refl);
    writers_served_by_readers = omega (arith, none_at_first goes_to_wait n refl);
    loop_done = omega (arith, none_at_first index_of n refl);
    no_sign = none_at_first index_below n refl;
    loop_needed = omega (arith, none_at_first in_loop n refl);
  }

  Step-Supplied :
      {s t : System (Shared Semaphore) Place}
      → Step (protocol sem) s t
      → Inv sem s.shared s.threads
      → SuppliedAt s.shared s.threads
      → SuppliedAt t.shared t.threads
  Step-Supplied (call i role e) inv sup = call-Supplied inv sup i role e
  Step-Supplied (run i e st) inv sup = serves inv sup i _ e st

  pub Reach-Supplied :
      {n : ℕ} {s : System (Shared Semaphore) Place}
      → n + 1 < 2 ^ 31
      → Reach (protocol sem) n s
      → SuppliedAt s.shared s.threads
  Reach-Supplied {n} h start = initial-Supplied n
  Reach-Supplied h (later r st) = Step-Supplied st (Reach-Inv sem h r) (Reach-Supplied h r)
