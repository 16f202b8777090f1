-- ===== src/Lab2/Sync/Solution3/WriterSteps.antt =====
-- Solution 3: the steps of a writer keep the mutex and the counts.
use os_class.Common.{
  ℕ, ◌≡◌, inl, inr, some, List, pos, get_elem?, Bool-cases, ltb_ℤ, inc32, arith, ◌||◌,
}
use os_class.Lab2.Sync.Semaphores.{Semaphores}
use os_class.Lab2.Sync.System.{carry, carry_map}
use os_class.Lab2.Sync.Solution3.{
  Shared, Place, outside, is_positive, enter_writer, writer_check, writer_wait_increment,
  writer_wait_release, writer_wait, writer_woken, writer_wait_decrement, writer_increment,
  writer_entered, writing, writer_decrement, writer_choose, writer_wake_readers, writer_wake_writer,
  writer_left, enter_writer_step, leave_writer_step,
}
use os_class.Lab2.Sync.Solution3.Inv.{Inv, goes, Keeps}
use os_class.Lab2.Sync.Solution3.Moves.{
  Counts-same, Counts-more_writers, Counts-fewer_writers, Counts-more_waiting_writers,
  Counts-fewer_waiting_writers,
}

module _ (sem : Semaphores) {l : Shared sem.Semaphore} {ps : List Place} (inv : Inv sem l ps)
    (i : ℕ) where
  open sem use {Semaphore, value-down, value-up}

  pub Keeps-enter_writer :
      (p : Place) {y : Shared Semaphore × Place}
      → get_elem? ps i ≡ some p
      → enter_writer_step sem l p ≡ some y
      → Keeps sem ps i y
  unfolding enter_writer_step
  Keeps-enter_writer enter_writer e s = carry_map (Keeps sem ps i) _ _ s λ t d. (
    omega (arith, inv.mutex, goes sem ps i writer_check e, value-down l.semaphore_mutex d),
    Counts-same sem inv i writer_check (omega (arith, goes sem ps i writer_check e)),
  )
  Keeps-enter_writer writer_check e s =
      elim (Bool-cases (
        is_positive l.writer_count
        || is_positive l.reader_count
        || is_positive l.writer_waiting_count
        || is_positive l.reader_waiting_count)) [
          | inl h ↦ carry (Keeps sem ps i) (rw h at s) (
            omega (arith, inv.mutex, goes sem ps i writer_wait_increment e),
            Counts-same sem inv i writer_wait_increment
                (omega (arith, goes sem ps i writer_wait_increment e)),
          )
          | inr h ↦ carry (Keeps sem ps i) (rw h at s) (
            omega (arith, inv.mutex, goes sem ps i writer_increment e),
            Counts-same sem inv i writer_increment
                (omega (arith, goes sem ps i writer_increment e)),
          )
        ]
  Keeps-enter_writer writer_wait_increment e s = carry (Keeps sem ps i) s (
    omega (arith, inv.mutex, goes sem ps i writer_wait_release e),
    Counts-more_waiting_writers sem inv i writer_wait_release
        (omega (arith, goes sem ps i writer_wait_release e)),
  )
  Keeps-enter_writer writer_wait_release e s = carry (Keeps sem ps i) s (
    omega (arith, inv.mutex, goes sem ps i writer_wait e, value-up l.semaphore_mutex),
    Counts-same sem inv i writer_wait (omega (arith, goes sem ps i writer_wait e)),
  )
  Keeps-enter_writer writer_wait e s = carry_map (Keeps sem ps i) _ _ s λ t d. (
    omega (arith, inv.mutex, goes sem ps i writer_woken e),
    Counts-same sem inv i writer_woken (omega (arith, goes sem ps i writer_woken e)),
  )
  Keeps-enter_writer writer_woken e s = carry_map (Keeps sem ps i) _ _ s λ t d. (
    omega (arith, inv.mutex, goes sem ps i writer_wait_decrement e, value-down l.semaphore_mutex d),
    Counts-same sem inv i writer_wait_decrement
        (omega (arith, goes sem ps i writer_wait_decrement e)),
  )
  Keeps-enter_writer writer_wait_decrement e s = carry (Keeps sem ps i) s (
    omega (arith, inv.mutex, goes sem ps i writer_increment e),
    Counts-fewer_waiting_writers sem inv i writer_increment
        (omega (arith, goes sem ps i writer_increment e)),
  )
  Keeps-enter_writer writer_increment e s = carry (Keeps sem ps i) s (
    omega (arith, inv.mutex, goes sem ps i writer_entered e),
    Counts-more_writers sem inv i writer_entered (omega (arith, goes sem ps i writer_entered e)),
  )
  Keeps-enter_writer writer_entered e s = carry (Keeps sem ps i) s (
    omega (arith, inv.mutex, goes sem ps i writing e, value-up l.semaphore_mutex),
    Counts-same sem inv i writing (omega (arith, goes sem ps i writing e)),
  )
  Keeps-enter_writer _ e s = absurd (ground arith)

  pub Keeps-leave_writer :
      (p : Place) {y : Shared Semaphore × Place}
      → get_elem? ps i ≡ some p
      → leave_writer_step sem l p ≡ some y
      → Keeps sem ps i y
  unfolding leave_writer_step
  Keeps-leave_writer writing e s = carry_map (Keeps sem ps i) _ _ s λ t d. (
    omega (arith, inv.mutex, goes sem ps i writer_decrement e, value-down l.semaphore_mutex d),
    Counts-same sem inv i writer_decrement (omega (arith, goes sem ps i writer_decrement e)),
  )
  Keeps-leave_writer writer_decrement e s = carry (Keeps sem ps i) s (
    omega (arith, inv.mutex, goes sem ps i writer_choose e),
    Counts-fewer_writers sem inv i writer_choose (omega (arith, goes sem ps i writer_choose e)),
  )
  Keeps-leave_writer writer_choose e s = elim (Bool-cases (is_positive l.reader_waiting_count)) [
    | inl h ↦ carry (Keeps sem ps i) (rw h at s) (
      omega (arith, inv.mutex, goes sem ps i (writer_wake_readers (pos 0)) e),
      Counts-same sem inv i (writer_wake_readers (pos 0))
          (omega (arith, goes sem ps i (writer_wake_readers (pos 0)) e)),
    )
    | inr h ↦ elim (Bool-cases (is_positive l.writer_waiting_count)) [
      | inl k ↦ carry (Keeps sem ps i) (rw (h, k) at s) (
        omega (arith, inv.mutex, goes sem ps i writer_wake_writer e),
        Counts-same sem inv i writer_wake_writer
            (omega (arith, goes sem ps i writer_wake_writer e)),
      )
      | inr k ↦ carry (Keeps sem ps i) (rw (h, k) at s) (
        omega (arith, inv.mutex, goes sem ps i writer_left e),
        Counts-same sem inv i writer_left (omega (arith, goes sem ps i writer_left e)),
      )
    ]
  ]
  Keeps-leave_writer (writer_wake_readers index) e s =
      elim (Bool-cases (ltb_ℤ index l.reader_waiting_count)) [
        | inl h ↦ carry (Keeps sem ps i) (rw h at s) (
          omega (arith, inv.mutex, goes sem ps i (writer_wake_readers (inc32 index)) e),
          Counts-same sem inv i (writer_wake_readers (inc32 index))
              (omega (arith, goes sem ps i (writer_wake_readers (inc32 index)) e)),
        )
        | inr h ↦ carry (Keeps sem ps i) (rw h at s) (
          omega (arith, inv.mutex, goes sem ps i writer_left e),
          Counts-same sem inv i writer_left (omega (arith, goes sem ps i writer_left e)),
        )
      ]
  Keeps-leave_writer writer_wake_writer e s = carry (Keeps sem ps i) s (
    omega (arith, inv.mutex, goes sem ps i writer_left e),
    Counts-same sem inv i writer_left (omega (arith, goes sem ps i writer_left e)),
  )
  Keeps-leave_writer writer_left e s = carry (Keeps sem ps i) s (
    omega (arith, inv.mutex, goes sem ps i outside e, value-up l.semaphore_mutex),
    Counts-same sem inv i outside (omega (arith, goes sem ps i outside e)),
  )
  Keeps-leave_writer _ e s = absurd (ground arith)
