-- ===== src/Lab2/Sync/Solution2/WriterSteps.antt =====
-- Solution 2: the steps of a writer keep the two switches.
use os_class.Common.{ℕ, ◌≡◌, inl, inr, some, List, pos, get_elem?, Bool-cases, eqb_ℤ, arith}
use os_class.Lab2.Sync.Semaphores.{Semaphores}
use os_class.Lab2.Sync.System.{carry, carry_map}
use os_class.Lab2.Sync.Solution2.{
  Shared, Place, outside, enter_writer, writer_increment, writer_test_first, writer_down_reader,
  writer_counted, writer_down_writer, writing, writer_leaving, writer_decrement, writer_test_last,
  writer_up_reader, writer_left, enter_writer_step, leave_writer_step,
}
use os_class.Lab2.Sync.Solution2.Inv.{
  Inv, goes, Keeps, writers_one, writers_more, writers_none, writers_some,
}

module _ (sem : Semaphores) {l : Shared sem.Semaphore} {ps : List Place} (inv : Inv sem l ps)
    (i : ℕ) where
  open sem use {Semaphore, value-down, value-up}

  pub Keeps-enter_writer :
      (p : Place) {y : Shared Semaphore × Place}
      → get_elem? ps i ≡ some p
      → enter_writer_step sem l p ≡ some y
      → Keeps sem ps i y
  unfolding enter_writer_step
  Keeps-enter_writer enter_writer e s = carry_map (Keeps sem ps i) _ _ s λ t d. omega (
    arith,
    inv.writers,
    inv.readers,
    goes sem ps i writer_increment e,
    value-down l.semaphore_writer_mutex d,
  )
  Keeps-enter_writer writer_increment e s =
      carry (Keeps sem ps i) s
        (omega (arith, inv.writers, inv.readers, goes sem ps i writer_test_first e))
  Keeps-enter_writer writer_test_first e s = elim (Bool-cases (eqb_ℤ l.writer_count (pos 1))) [
    | inl h ↦ carry (Keeps sem ps i) (rw h at s) (
        omega (
          arith,
          inv.writers,
          inv.readers,
          goes sem ps i writer_down_reader e,
          writers_one sem inv h,
        ))
    | inr h ↦ carry (Keeps sem ps i) (rw h at s) (
        omega
          (arith, inv.writers, inv.readers, goes sem ps i writer_counted e, writers_more sem inv h))
  ]
  Keeps-enter_writer writer_down_reader e s = carry_map (Keeps sem ps i) _ _ s λ t d. omega (
    arith,
    inv.writers,
    inv.readers,
    goes sem ps i writer_counted e,
    value-down l.semaphore_reader d,
  )
  Keeps-enter_writer writer_counted e s = carry (Keeps sem ps i) s (
      omega (
        arith,
        inv.writers,
        inv.readers,
        goes sem ps i writer_down_writer e,
        value-up l.semaphore_writer_mutex,
      ))
  Keeps-enter_writer writer_down_writer e s = carry_map (Keeps sem ps i) _ _ s λ t d.
      omega
        (arith, inv.writers, inv.readers, goes sem ps i writing e, value-down l.semaphore_writer d)
  Keeps-enter_writer _ e s = absurd (ground arith)

  pub Keeps-leave_writer :
      (p : Place) {y : Shared Semaphore × Place}
      → get_elem? ps i ≡ some p
      → leave_writer_step sem l p ≡ some y
      → Keeps sem ps i y
  unfolding leave_writer_step
  Keeps-leave_writer writing e s = carry (Keeps sem ps i) s (
      omega (
        arith,
        inv.writers,
        inv.readers,
        goes sem ps i writer_leaving e,
        value-up l.semaphore_writer,
      ))
  Keeps-leave_writer writer_leaving e s = carry_map (Keeps sem ps i) _ _ s λ t d. omega (
    arith,
    inv.writers,
    inv.readers,
    goes sem ps i writer_decrement e,
    value-down l.semaphore_writer_mutex d,
  )
  Keeps-leave_writer writer_decrement e s =
      carry (Keeps sem ps i) s
        (omega (arith, inv.writers, inv.readers, goes sem ps i writer_test_last e))
  Keeps-leave_writer writer_test_last e s = elim (Bool-cases (eqb_ℤ l.writer_count (pos 0))) [
    | inl h ↦ carry (Keeps sem ps i) (rw h at s) (
        omega (
          arith,
          inv.writers,
          inv.readers,
          goes sem ps i writer_up_reader e,
          writers_none sem inv h,
        ))
    | inr h ↦ carry (Keeps sem ps i) (rw h at s) (
        omega
          (arith, inv.writers, inv.readers, goes sem ps i writer_left e, writers_some sem inv h))
  ]
  Keeps-leave_writer writer_up_reader e s = carry (Keeps sem ps i) s (
      omega
        (arith, inv.writers, inv.readers, goes sem ps i writer_left e, value-up l.semaphore_reader))
  Keeps-leave_writer writer_left e s = carry (Keeps sem ps i) s (
      omega (
        arith,
        inv.writers,
        inv.readers,
        goes sem ps i outside e,
        value-up l.semaphore_writer_mutex,
      ))
  Keeps-leave_writer _ e s = absurd (ground arith)
