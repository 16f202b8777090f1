-- ===== src/Lab2/Sync/Solution2/ReaderSteps.antt =====
-- Solution 2: the steps of a reader keep the two switches.
use os_class.Common.{ℕ, ◌≡◌, inl, inr, some, List, pos, get_elem?, Bool-cases, eqb_ℤ, arith}
use os_class.Lab2.Sync.Semaphores.{Semaphores}
use os_class.Lab2.Sync.System.{carry, carry_map}
use os_class.Lab2.Sync.Solution2.{
  Shared, Place, outside, enter_reader, reader_passing, reader_down_mutex, reader_increment,
  reader_test_first, reader_down_writer, reader_entered, reading, reader_decrement,
  reader_test_last, reader_up_writer, reader_left, enter_reader_step, leave_reader_step,
}
use os_class.Lab2.Sync.Solution2.Inv.{
  Inv, goes, Keeps, readers_one, readers_more, readers_none, readers_some,
}

module _ (sem : Semaphores) {l : Shared sem.Semaphore} {ps : List Place} (inv : Inv sem l ps)
    (i : ℕ) where
  open sem use {Semaphore, value-down, value-up}

  pub Keeps-enter_reader :
      (p : Place) {y : Shared Semaphore × Place}
      → get_elem? ps i ≡ some p
      → enter_reader_step sem l p ≡ some y
      → Keeps sem ps i y
  unfolding enter_reader_step
  Keeps-enter_reader enter_reader e s = carry_map (Keeps sem ps i) _ _ s λ t d. omega (
    arith,
    inv.writers,
    inv.readers,
    goes sem ps i reader_passing e,
    value-down l.semaphore_reader d,
  )
  Keeps-enter_reader reader_passing e s = carry (Keeps sem ps i) s (
      omega (
        arith,
        inv.writers,
        inv.readers,
        goes sem ps i reader_down_mutex e,
        value-up l.semaphore_reader,
      ))
  Keeps-enter_reader reader_down_mutex e s = carry_map (Keeps sem ps i) _ _ s λ t d. omega (
    arith,
    inv.writers,
    inv.readers,
    goes sem ps i reader_increment e,
    value-down l.semaphore_reader_mutex d,
  )
  Keeps-enter_reader reader_increment e s =
      carry (Keeps sem ps i) s
        (omega (arith, inv.writers, inv.readers, goes sem ps i reader_test_first e))
  Keeps-enter_reader reader_test_first e s = elim (Bool-cases (eqb_ℤ l.reader_count (pos 1))) [
    | inl h ↦ carry (Keeps sem ps i) (rw h at s) (
        omega (
          arith,
          inv.writers,
          inv.readers,
          goes sem ps i reader_down_writer e,
          readers_one sem inv h,
        ))
    | inr h ↦ carry (Keeps sem ps i) (rw h at s) (
        omega
          (arith, inv.writers, inv.readers, goes sem ps i reader_entered e, readers_more sem inv h))
  ]
  Keeps-enter_reader reader_down_writer e s = carry_map (Keeps sem ps i) _ _ s λ t d. omega (
    arith,
    inv.writers,
    inv.readers,
    goes sem ps i reader_entered e,
    value-down l.semaphore_writer d,
  )
  Keeps-enter_reader reader_entered e s = carry (Keeps sem ps i) s (
      omega (
        arith,
        inv.writers,
        inv.readers,
        goes sem ps i reading e,
        value-up l.semaphore_reader_mutex,
      ))
  Keeps-enter_reader _ e s = absurd (ground arith)

  pub Keeps-leave_reader :
      (p : Place) {y : Shared Semaphore × Place}
      → get_elem? ps i ≡ some p
      → leave_reader_step sem l p ≡ some y
      → Keeps sem ps i y
  unfolding leave_reader_step
  Keeps-leave_reader reading e s = carry_map (Keeps sem ps i) _ _ s λ t d. omega (
    arith,
    inv.writers,
    inv.readers,
    goes sem ps i reader_decrement e,
    value-down l.semaphore_reader_mutex d,
  )
  Keeps-leave_reader reader_decrement e s =
      carry (Keeps sem ps i) s
        (omega (arith, inv.writers, inv.readers, goes sem ps i reader_test_last e))
  Keeps-leave_reader reader_test_last e s = elim (Bool-cases (eqb_ℤ l.reader_count (pos 0))) [
    | inl h ↦ carry (Keeps sem ps i) (rw h at s) (
        omega (
          arith,
          inv.writers,
          inv.readers,
          goes sem ps i reader_up_writer e,
          readers_none sem inv h,
        ))
    | inr h ↦ carry (Keeps sem ps i) (rw h at s) (
        omega
          (arith, inv.writers, inv.readers, goes sem ps i reader_left e, readers_some sem inv h))
  ]
  Keeps-leave_reader reader_up_writer e s = carry (Keeps sem ps i) s (
      omega
        (arith, inv.writers, inv.readers, goes sem ps i reader_left e, value-up l.semaphore_writer))
  Keeps-leave_reader reader_left e s = carry (Keeps sem ps i) s (
      omega (
        arith,
        inv.writers,
        inv.readers,
        goes sem ps i outside e,
        value-up l.semaphore_reader_mutex,
      ))
  Keeps-leave_reader _ e s = absurd (ground arith)
