-- ===== src/Lab2/Sync/Solution1/Steps.antt =====
-- Solution 1: every step of a thread keeps the switch of the readers.
use os_class.Common.{ℕ, ◌≡◌, inl, inr, some, List, pos, get_elem?, Bool-cases, eqb_ℤ, arith}
use os_class.Lab2.Sync.Semaphores.{Semaphores}
use os_class.Lab2.Sync.System.{carry, carry_map}
use os_class.Lab2.Sync.Solution1.{
  Shared, Place, outside, enter_writer, writing, enter_reader, reader_increment, reader_test_first,
  reader_down_writer, reader_entered, reading, reader_decrement, reader_test_last, reader_up_writer,
  reader_left, step,
}
use os_class.Lab2.Sync.Solution1.Inv.{
  Inv, Keeps, goes, counted_one, counted_more, counted_none, counted_some,
}

module _ (sem : Semaphores) {l : Shared sem.Semaphore} {ps : List Place} (inv : Inv sem l ps)
    (i : ℕ) where
  open sem use {Semaphore, down, up, value, value-down, value-up}

  pub keeps :
      (p : Place) {y : Shared Semaphore × Place}
      → get_elem? ps i ≡ some p
      → step sem l p ≡ some y
      → Keeps sem inv i y
  unfolding step
  keeps outside e s = absurd (ground arith)
  keeps enter_writer e s =
      carry_map (Keeps sem inv i) _ _ s (λ t d.
        omega (arith, inv.switch, goes sem inv i writing e, value-down l.semaphore_writer d))
  keeps writing e s =
      carry (Keeps sem inv i) s
        (omega (arith, inv.switch, goes sem inv i outside e, value-up l.semaphore_writer))
  keeps enter_reader e s = carry_map (Keeps sem inv i) _ _ s λ t d.
      omega (arith, inv.switch, goes sem inv i reader_increment e, value-down l.semaphore_mutex d)
  keeps reader_increment e s =
      carry (Keeps sem inv i) s (omega (arith, inv.switch, goes sem inv i reader_test_first e))
  keeps reader_test_first e s = elim (Bool-cases (eqb_ℤ l.reader_count (pos 1))) [
    | inl one ↦
        carry (Keeps sem inv i) (rw one at s) (
          omega (arith, inv.switch, goes sem inv i reader_down_writer e, counted_one sem inv i one))
    | inr more ↦
        carry (Keeps sem inv i) (rw more at s)
          (omega (arith, inv.switch, goes sem inv i reader_entered e, counted_more sem inv i more))
  ]
  keeps reader_down_writer e s = carry_map (Keeps sem inv i) _ _ s λ t d.
      omega (arith, inv.switch, goes sem inv i reader_entered e, value-down l.semaphore_writer d)
  keeps reader_entered e s =
      carry (Keeps sem inv i) s
        (omega (arith, inv.switch, goes sem inv i reading e, value-up l.semaphore_mutex))
  keeps reading e s = carry_map (Keeps sem inv i) _ _ s λ t d.
      omega (arith, inv.switch, goes sem inv i reader_decrement e, value-down l.semaphore_mutex d)
  keeps reader_decrement e s =
      carry (Keeps sem inv i) s (omega (arith, inv.switch, goes sem inv i reader_test_last e))
  keeps reader_test_last e s = elim (Bool-cases (eqb_ℤ l.reader_count (pos 0))) [
    | inl none_left ↦ carry (Keeps sem inv i) (rw none_left at s) (
        omega
          (arith, inv.switch, goes sem inv i reader_up_writer e, counted_none sem inv i none_left))
    | inr more ↦
        carry (Keeps sem inv i) (rw more at s)
          (omega (arith, inv.switch, goes sem inv i reader_left e, counted_some sem inv i more))
  ]
  keeps reader_up_writer e s =
      carry (Keeps sem inv i) s
        (omega (arith, inv.switch, goes sem inv i reader_left e, value-up l.semaphore_writer))
  keeps reader_left e s =
      carry (Keeps sem inv i) s
        (omega (arith, inv.switch, goes sem inv i outside e, value-up l.semaphore_mutex))
