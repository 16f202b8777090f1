-- ===== src/Lab2/Sync/Solution1/Count.antt =====
-- Solution 1: every step of a thread keeps `ReaderCount` the number of the readers counted.
use os_class.Common.{
  ℕ, ◌≡◌, ap, ◌∙◌, inl, inr, some, List, pos, get_elem?, set, Bool-cases, eqb_ℤ, inc32-pos,
  dec32-pos, arith,
}
use os_class.Lab2.Sync.Semaphores.{Semaphores}
use os_class.Lab2.Sync.System.{carry, carry_map}
use os_class.Lab2.Sync.Switch.{counted-le-length, counted}
use os_class.Lab2.Sync.Solution1.{
  Shared, Place, outside, enter_writer, writing, enter_reader, reader_increment, reader_test_first,
  reader_down_writer, reader_entered, reading, reader_decrement, reader_test_last, reader_up_writer,
  reader_left, step,
}
use os_class.Lab2.Sync.Solution1.Inv.{reader_stage, Inv, goes}

module _ (sem : Semaphores) {l : Shared sem.Semaphore} {ps : List Place} (inv : Inv sem l ps)
    (i : ℕ) where
  open sem use {Semaphore, down, up, value, value-down, value-up}

  -- `ReaderCount` after the step.
  abbrev Counts : Shared Semaphore × Place → Type 0
  Counts (l', q) = l'.reader_count ≡ pos (counted reader_stage (set ps i q))

  -- A step that leaves the variable alone leaves the number alone.
  pub same :
      {p : Place} (q : Place)
      → get_elem? ps i ≡ some p
      → counted reader_stage (set ps i q) ≡ counted reader_stage ps
      → l.reader_count ≡ pos (counted reader_stage (set ps i q))
  same q e h = inv.count ∙ ap pos (omega (arith, h))

  pub counts :
      (p : Place) {y : Shared Semaphore × Place}
      → get_elem? ps i ≡ some p
      → step sem l p ≡ some y
      → Counts y
  unfolding step
  counts outside e s = absurd (ground arith)
  counts enter_writer e s =
      carry_map Counts _ _ s λ t d. same writing e (omega (arith, goes sem inv i writing e))
  counts writing e s = carry Counts s (same outside e (omega (arith, goes sem inv i outside e)))
  counts enter_reader e s =
      carry_map Counts _ _ s
        λ t d. same reader_increment e (omega (arith, goes sem inv i reader_increment e))
  counts reader_increment e s = carry Counts s (
      rw inv.count (
        inc32-pos (counted reader_stage ps)
          (omega (arith, inv.few, counted-le-length reader_stage ps))
        ∙ ap pos (omega (arith, goes sem inv i reader_test_first e))))
  counts reader_test_first e s = elim (Bool-cases (eqb_ℤ l.reader_count (pos 1))) [
    | inl one ↦
        carry Counts (rw one at s)
          (same reader_down_writer e (omega (arith, goes sem inv i reader_down_writer e)))
    | inr more ↦
        carry Counts (rw more at s)
          (same reader_entered e (omega (arith, goes sem inv i reader_entered e)))
  ]
  counts reader_down_writer e s =
      carry_map Counts _ _ s
        λ t d. same reader_entered e (omega (arith, goes sem inv i reader_entered e))
  counts reader_entered e s =
      carry Counts s (same reading e (omega (arith, goes sem inv i reading e)))
  counts reading e s =
      carry_map Counts _ _ s
        λ t d. same reader_decrement e (omega (arith, goes sem inv i reader_decrement e))
  counts reader_decrement e s = carry Counts s (
      rw inv.count (
        dec32-pos (counted reader_stage ps) (omega (arith, goes sem inv i reader_test_last e))
          (omega (arith, inv.few, counted-le-length reader_stage ps))
        ∙ ap pos (omega (arith, goes sem inv i reader_test_last e))))
  counts reader_test_last e s = elim (Bool-cases (eqb_ℤ l.reader_count (pos 0))) [
    | inl zero_left ↦
        carry Counts (rw zero_left at s)
          (same reader_up_writer e (omega (arith, goes sem inv i reader_up_writer e)))
    | inr more ↦
        carry Counts (rw more at s)
          (same reader_left e (omega (arith, goes sem inv i reader_left e)))
  ]
  counts reader_up_writer e s =
      carry Counts s (same reader_left e (omega (arith, goes sem inv i reader_left e)))
  counts reader_left e s = carry Counts s (same outside e (omega (arith, goes sem inv i outside e)))
