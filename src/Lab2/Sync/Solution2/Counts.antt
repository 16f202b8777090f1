-- ===== src/Lab2/Sync/Solution2/Counts.antt =====
-- Solution 2: `WriterCount` and `ReaderCount` through the steps of a thread.
use os_class.Common.{
  ℕ, ◌+◌, ◌≡◌, ap, ◌∙◌, inl, inr, some, List, pos, get_elem?, set, Bool-cases, eqb_ℤ, inc32, dec32,
  inc32-pos, dec32-pos, arith,
}
use os_class.Lab2.Sync.Semaphores.{Semaphores}
use os_class.Lab2.Sync.System.{carry, carry_map}
use os_class.Lab2.Sync.Switch.{counted, counted-le-length}
use os_class.Lab2.Sync.Solution2.{
  Shared, Place, outside, enter_writer, writer_increment, writer_test_first, writer_down_reader,
  writer_counted, writer_down_writer, writing, writer_leaving, writer_decrement, writer_test_last,
  writer_up_reader, writer_left, enter_reader, reader_passing, reader_down_mutex, reader_increment,
  reader_test_first, reader_down_writer, reader_entered, reading, reader_decrement,
  reader_test_last, reader_up_writer, reader_left, enter_writer_step, leave_writer_step,
  enter_reader_step, leave_reader_step,
}
use os_class.Lab2.Sync.Solution2.Inv.{writer_stage, reader_stage, Inv, goes, Counts}

module _ (sem : Semaphores) {l : Shared sem.Semaphore} {ps : List Place} (inv : Inv sem l ps)
    (i : ℕ) where
  open sem use {Semaphore, value-down, value-up}

  -- A step that leaves the variables alone, with the numbers unchanged.
  pub same :
      {p : Place} (q : Place)
      → get_elem? ps i ≡ some p
      → (counted writer_stage (set ps i q) ≡ counted writer_stage ps)
        × (counted reader_stage (set ps i q) ≡ counted reader_stage ps)
      → Counts sem ps i (l, q)
  same q e h = (
    inv.writers_counted ∙ ap pos (omega (arith, h)),
    inv.readers_counted ∙ ap pos (omega (arith, h)),
  )

  more_writers :
      {p : Place} (q : Place)
      → get_elem? ps i ≡ some p
      → (counted writer_stage (set ps i q) ≡ counted writer_stage ps + 1)
        × (counted reader_stage (set ps i q) ≡ counted reader_stage ps)
      → Counts sem ps i (record l { writer_count = inc32 l.writer_count }, q)
  more_writers q e h = (
    rw inv.writers_counted (
        inc32-pos (counted writer_stage ps)
          (omega (arith, inv.few, counted-le-length writer_stage ps))
        ∙ ap pos (omega (arith, h))),
    inv.readers_counted ∙ ap pos (omega (arith, h)),
  )

  fewer_writers :
      {p : Place} (q : Place)
      → get_elem? ps i ≡ some p
      → (counted writer_stage (set ps i q) + 1 ≡ counted writer_stage ps)
        × (counted reader_stage (set ps i q) ≡ counted reader_stage ps)
      → Counts sem ps i (record l { writer_count = dec32 l.writer_count }, q)
  fewer_writers q e h = (
    rw inv.writers_counted (
        dec32-pos (counted writer_stage ps) (omega (arith, h))
          (omega (arith, inv.few, counted-le-length writer_stage ps))
        ∙ ap pos (omega (arith, h))),
    inv.readers_counted ∙ ap pos (omega (arith, h)),
  )

  more_readers :
      {p : Place} (q : Place)
      → get_elem? ps i ≡ some p
      → (counted writer_stage (set ps i q) ≡ counted writer_stage ps)
        × (counted reader_stage (set ps i q) ≡ counted reader_stage ps + 1)
      → Counts sem ps i (record l { reader_count = inc32 l.reader_count }, q)
  more_readers q e h = (
    inv.writers_counted ∙ ap pos (omega (arith, h)),
    rw inv.readers_counted (
        inc32-pos (counted reader_stage ps)
          (omega (arith, inv.few, counted-le-length reader_stage ps))
        ∙ ap pos (omega (arith, h))),
  )

  fewer_readers :
      {p : Place} (q : Place)
      → get_elem? ps i ≡ some p
      → (counted writer_stage (set ps i q) ≡ counted writer_stage ps)
        × (counted reader_stage (set ps i q) + 1 ≡ counted reader_stage ps)
      → Counts sem ps i (record l { reader_count = dec32 l.reader_count }, q)
  fewer_readers q e h = (
    inv.writers_counted ∙ ap pos (omega (arith, h)),
    rw inv.readers_counted (
        dec32-pos (counted reader_stage ps) (omega (arith, h))
          (omega (arith, inv.few, counted-le-length reader_stage ps))
        ∙ ap pos (omega (arith, h))),
  )

  pub Counts-enter_writer :
      (p : Place) {y : Shared Semaphore × Place}
      → get_elem? ps i ≡ some p
      → enter_writer_step sem l p ≡ some y
      → Counts sem ps i y
  unfolding enter_writer_step
  Counts-enter_writer enter_writer e s =
      carry_map (Counts sem ps i) _ _ s
        λ t d. same writer_increment e (omega (arith, goes sem ps i writer_increment e))
  Counts-enter_writer writer_increment e s =
      carry (Counts sem ps i) s
        (more_writers writer_test_first e (omega (arith, goes sem ps i writer_test_first e)))
  Counts-enter_writer writer_test_first e s = elim (Bool-cases (eqb_ℤ l.writer_count (pos 1))) [
    | inl h ↦
        carry (Counts sem ps i) (rw h at s)
          (same writer_down_reader e (omega (arith, goes sem ps i writer_down_reader e)))
    | inr h ↦
        carry (Counts sem ps i) (rw h at s)
          (same writer_counted e (omega (arith, goes sem ps i writer_counted e)))
  ]
  Counts-enter_writer writer_down_reader e s =
      carry_map (Counts sem ps i) _ _ s
        λ t d. same writer_counted e (omega (arith, goes sem ps i writer_counted e))
  Counts-enter_writer writer_counted e s =
      carry (Counts sem ps i) s
        (same writer_down_writer e (omega (arith, goes sem ps i writer_down_writer e)))
  Counts-enter_writer writer_down_writer e s =
      carry_map (Counts sem ps i) _ _ s
        λ t d. same writing e (omega (arith, goes sem ps i writing e))
  Counts-enter_writer _ e s = absurd (ground arith)

  pub Counts-leave_writer :
      (p : Place) {y : Shared Semaphore × Place}
      → get_elem? ps i ≡ some p
      → leave_writer_step sem l p ≡ some y
      → Counts sem ps i y
  unfolding leave_writer_step
  Counts-leave_writer writing e s =
      carry (Counts sem ps i) s
        (same writer_leaving e (omega (arith, goes sem ps i writer_leaving e)))
  Counts-leave_writer writer_leaving e s =
      carry_map (Counts sem ps i) _ _ s
        λ t d. same writer_decrement e (omega (arith, goes sem ps i writer_decrement e))
  Counts-leave_writer writer_decrement e s =
      carry (Counts sem ps i) s
        (fewer_writers writer_test_last e (omega (arith, goes sem ps i writer_test_last e)))
  Counts-leave_writer writer_test_last e s = elim (Bool-cases (eqb_ℤ l.writer_count (pos 0))) [
    | inl h ↦
        carry (Counts sem ps i) (rw h at s)
          (same writer_up_reader e (omega (arith, goes sem ps i writer_up_reader e)))
    | inr h ↦
        carry (Counts sem ps i) (rw h at s)
          (same writer_left e (omega (arith, goes sem ps i writer_left e)))
  ]
  Counts-leave_writer writer_up_reader e s =
      carry (Counts sem ps i) s (same writer_left e (omega (arith, goes sem ps i writer_left e)))
  Counts-leave_writer writer_left e s =
      carry (Counts sem ps i) s (same outside e (omega (arith, goes sem ps i outside e)))
  Counts-leave_writer _ e s = absurd (ground arith)

  pub Counts-enter_reader :
      (p : Place) {y : Shared Semaphore × Place}
      → get_elem? ps i ≡ some p
      → enter_reader_step sem l p ≡ some y
      → Counts sem ps i y
  unfolding enter_reader_step
  Counts-enter_reader enter_reader e s =
      carry_map (Counts sem ps i) _ _ s
        λ t d. same reader_passing e (omega (arith, goes sem ps i reader_passing e))
  Counts-enter_reader reader_passing e s =
      carry (Counts sem ps i) s
        (same reader_down_mutex e (omega (arith, goes sem ps i reader_down_mutex e)))
  Counts-enter_reader reader_down_mutex e s =
      carry_map (Counts sem ps i) _ _ s
        λ t d. same reader_increment e (omega (arith, goes sem ps i reader_increment e))
  Counts-enter_reader reader_increment e s =
      carry (Counts sem ps i) s
        (more_readers reader_test_first e (omega (arith, goes sem ps i reader_test_first e)))
  Counts-enter_reader reader_test_first e s = elim (Bool-cases (eqb_ℤ l.reader_count (pos 1))) [
    | inl h ↦
        carry (Counts sem ps i) (rw h at s)
          (same reader_down_writer e (omega (arith, goes sem ps i reader_down_writer e)))
    | inr h ↦
        carry (Counts sem ps i) (rw h at s)
          (same reader_entered e (omega (arith, goes sem ps i reader_entered e)))
  ]
  Counts-enter_reader reader_down_writer e s =
      carry_map (Counts sem ps i) _ _ s
        λ t d. same reader_entered e (omega (arith, goes sem ps i reader_entered e))
  Counts-enter_reader reader_entered e s =
      carry (Counts sem ps i) s (same reading e (omega (arith, goes sem ps i reading e)))
  Counts-enter_reader _ e s = absurd (ground arith)

  pub Counts-leave_reader :
      (p : Place) {y : Shared Semaphore × Place}
      → get_elem? ps i ≡ some p
      → leave_reader_step sem l p ≡ some y
      → Counts sem ps i y
  unfolding leave_reader_step
  Counts-leave_reader reading e s =
      carry_map (Counts sem ps i) _ _ s
        λ t d. same reader_decrement e (omega (arith, goes sem ps i reader_decrement e))
  Counts-leave_reader reader_decrement e s =
      carry (Counts sem ps i) s
        (fewer_readers reader_test_last e (omega (arith, goes sem ps i reader_test_last e)))
  Counts-leave_reader reader_test_last e s = elim (Bool-cases (eqb_ℤ l.reader_count (pos 0))) [
    | inl h ↦
        carry (Counts sem ps i) (rw h at s)
          (same reader_up_writer e (omega (arith, goes sem ps i reader_up_writer e)))
    | inr h ↦
        carry (Counts sem ps i) (rw h at s)
          (same reader_left e (omega (arith, goes sem ps i reader_left e)))
  ]
  Counts-leave_reader reader_up_writer e s =
      carry (Counts sem ps i) s (same reader_left e (omega (arith, goes sem ps i reader_left e)))
  Counts-leave_reader reader_left e s =
      carry (Counts sem ps i) s (same outside e (omega (arith, goes sem ps i outside e)))
  Counts-leave_reader _ e s = absurd (ground arith)
