-- ===== src/Lab2/Sync/Solution3/ReaderSteps.antt =====
-- Solution 3: the steps of a reader keep the mutex and the counts.
use os_class.Common.{
  ℕ, ◌≡◌, inl, inr, some, List, pos, get_elem?, Bool-cases, eqb_ℤ, arith, ◌||◌, ◌&&◌,
}
use os_class.Lab2.Sync.Semaphores.{Semaphores}
use os_class.Lab2.Sync.System.{carry, carry_map}
use os_class.Lab2.Sync.Solution3.{
  Shared, Place, outside, is_positive, enter_reader, reader_check, reader_wait_increment,
  reader_wait_release, reader_wait, reader_woken, reader_wait_decrement, reader_increment,
  reader_entered, reading, reader_decrement, reader_check_last, reader_wake_writer, reader_left,
  enter_reader_step, leave_reader_step,
}
use os_class.Lab2.Sync.Solution3.Inv.{Inv, goes, Keeps}
use os_class.Lab2.Sync.Solution3.Moves.{
  Counts-same, Counts-more_readers, Counts-fewer_readers, Counts-more_waiting_readers,
  Counts-fewer_waiting_readers,
}

module _ (sem : Semaphores) {l : Shared sem.Semaphore} {ps : List Place} (inv : Inv sem l ps)
    (i : ℕ) where
  open sem use {Semaphore, value-down, value-up}

  pub Keeps-enter_reader :
      (p : Place) {y : Shared Semaphore × Place}
      → get_elem? ps i ≡ some p
      → enter_reader_step sem l p ≡ some y
      → Keeps sem ps i y
  unfolding enter_reader_step
  Keeps-enter_reader enter_reader e s = carry_map (Keeps sem ps i) _ _ s λ t d. (
    omega (arith, inv.mutex, goes sem ps i reader_check e, value-down l.semaphore_mutex d),
    Counts-same sem inv i reader_check (omega (arith, goes sem ps i reader_check e)),
  )
  Keeps-enter_reader reader_check e s =
      elim (Bool-cases (is_positive l.writer_waiting_count || is_positive l.writer_count)) [
        | inl h ↦ carry (Keeps sem ps i) (rw h at s) (
          omega (arith, inv.mutex, goes sem ps i reader_wait_increment e),
          Counts-same sem inv i reader_wait_increment
              (omega (arith, goes sem ps i reader_wait_increment e)),
        )
        | inr h ↦ carry (Keeps sem ps i) (rw h at s) (
          omega (arith, inv.mutex, goes sem ps i reader_increment e),
          Counts-same sem inv i reader_increment (omega (arith, goes sem ps i reader_increment e)),
        )
      ]
  Keeps-enter_reader reader_wait_increment e s = carry (Keeps sem ps i) s (
    omega (arith, inv.mutex, goes sem ps i reader_wait_release e),
    Counts-more_waiting_readers sem inv i reader_wait_release
        (omega (arith, goes sem ps i reader_wait_release e)),
  )
  Keeps-enter_reader reader_wait_release e s = carry (Keeps sem ps i) s (
    omega (arith, inv.mutex, goes sem ps i reader_wait e, value-up l.semaphore_mutex),
    Counts-same sem inv i reader_wait (omega (arith, goes sem ps i reader_wait e)),
  )
  Keeps-enter_reader reader_wait e s = carry_map (Keeps sem ps i) _ _ s λ t d. (
    omega (arith, inv.mutex, goes sem ps i reader_woken e),
    Counts-same sem inv i reader_woken (omega (arith, goes sem ps i reader_woken e)),
  )
  Keeps-enter_reader reader_woken e s = carry_map (Keeps sem ps i) _ _ s λ t d. (
    omega (arith, inv.mutex, goes sem ps i reader_wait_decrement e, value-down l.semaphore_mutex d),
    Counts-same sem inv i reader_wait_decrement
        (omega (arith, goes sem ps i reader_wait_decrement e)),
  )
  Keeps-enter_reader reader_wait_decrement e s = carry (Keeps sem ps i) s (
    omega (arith, inv.mutex, goes sem ps i reader_increment e),
    Counts-fewer_waiting_readers sem inv i reader_increment
        (omega (arith, goes sem ps i reader_increment e)),
  )
  Keeps-enter_reader reader_increment e s = carry (Keeps sem ps i) s (
    omega (arith, inv.mutex, goes sem ps i reader_entered e),
    Counts-more_readers sem inv i reader_entered (omega (arith, goes sem ps i reader_entered e)),
  )
  Keeps-enter_reader reader_entered e s = carry (Keeps sem ps i) s (
    omega (arith, inv.mutex, goes sem ps i reading e, value-up l.semaphore_mutex),
    Counts-same sem inv i reading (omega (arith, goes sem ps i reading e)),
  )
  Keeps-enter_reader _ e s = absurd (ground arith)

  pub Keeps-leave_reader :
      (p : Place) {y : Shared Semaphore × Place}
      → get_elem? ps i ≡ some p
      → leave_reader_step sem l p ≡ some y
      → Keeps sem ps i y
  unfolding leave_reader_step
  Keeps-leave_reader reading e s = carry_map (Keeps sem ps i) _ _ s λ t d. (
    omega (arith, inv.mutex, goes sem ps i reader_decrement e, value-down l.semaphore_mutex d),
    Counts-same sem inv i reader_decrement (omega (arith, goes sem ps i reader_decrement e)),
  )
  Keeps-leave_reader reader_decrement e s = carry (Keeps sem ps i) s (
    omega (arith, inv.mutex, goes sem ps i reader_check_last e),
    Counts-fewer_readers sem inv i reader_check_last
        (omega (arith, goes sem ps i reader_check_last e)),
  )
  Keeps-leave_reader reader_check_last e s =
      elim (Bool-cases (eqb_ℤ l.reader_count (pos 0) && is_positive l.writer_waiting_count)) [
        | inl h ↦ carry (Keeps sem ps i) (rw h at s) (
          omega (arith, inv.mutex, goes sem ps i reader_wake_writer e),
          Counts-same sem inv i reader_wake_writer
              (omega (arith, goes sem ps i reader_wake_writer e)),
        )
        | inr h ↦ carry (Keeps sem ps i) (rw h at s) (
          omega (arith, inv.mutex, goes sem ps i reader_left e),
          Counts-same sem inv i reader_left (omega (arith, goes sem ps i reader_left e)),
        )
      ]
  Keeps-leave_reader reader_wake_writer e s = carry (Keeps sem ps i) s (
    omega (arith, inv.mutex, goes sem ps i reader_left e),
    Counts-same sem inv i reader_left (omega (arith, goes sem ps i reader_left e)),
  )
  Keeps-leave_reader reader_left e s = carry (Keeps sem ps i) s (
    omega (arith, inv.mutex, goes sem ps i outside e, value-up l.semaphore_mutex),
    Counts-same sem inv i outside (omega (arith, goes sem ps i outside e)),
  )
  Keeps-leave_reader _ e s = absurd (ground arith)
