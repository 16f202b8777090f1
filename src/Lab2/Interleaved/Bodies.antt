-- ===== src/Lab2/Interleaved/Bodies.antt =====
-- The statements of the handlers of lab2/KboardModule.c within the critical section: what each finds
-- in the ring, and what it leaves there for the next one.
use mathlib.Core.Path.{subst}
use os_class.Common.{
  ℕ, ◌+◌, ◌%◌, ◌<◌, ◌≡◌, refl, ap, ◌∙◌, inl, inr, Bool, true, false, none, some, List, [], ◌∷◌,
  ◌++◌, ℤ, pos, pos_part, done, arith, leb_ℤ, get_or, set, Bool-cases, dec32, inc32, rem, ◌⊎◌,
  get_elem?, get_elem?-eq-get_or,
}
use os_class.Ring.{ring_size, init_value, contents}
use os_class.Ring.Slots
use os_class.Lab2.Kboard.{Board}
use os_class.Lab2.Sync.System.{Protocol}
use os_class.Lab2.Interleaved.{
  Sections, remove, insert, look, Task, idle, locking, remove_perform, remove_test, remove_item,
  remove_reset, remove_decrement, remove_advance, insert_perform, insert_test, insert_store,
  insert_increment, look_load, look_store, look_item, leaving, task_step,
}
use os_class.Lab2.Interleaved.Holding.{
  Holds, Taking, length-q, empty_lem, full_lem, taken_lem, stored_lem,
}
use os_class.Lab2.Interleaved.History.{
  Event, refused, removed, looked, replay, apply, apply-added, apply-refused, apply-removed,
  apply-removed_none, apply-looked,
}

-- What a thread finds in the ring before a statement.
abbrev pub Mid : {P : Type 0} → Task P → List ℤ → ℤ → ℤ → List ℤ → Type 0
Mid remove_item buf index count q = Holds buf index count q × (0 < pos_part count)
Mid (remove_reset x) buf index count q = Taking buf index count q x
Mid (remove_decrement x) buf index count q =
    (old : List ℤ) × Taking old index count q x × (buf ≡ set old (pos_part index) init_value)
Mid (remove_advance x) buf index count q =
    (old : List ℤ) × (n : ℤ) × Taking old index n q x
    × (buf ≡ set old (pos_part index) init_value)
    × (count ≡ dec32 n)
Mid (insert_store x) buf index count q = Holds buf index count q × (pos_part count < ring_size)
Mid (insert_increment x) buf index count q =
    (old : List ℤ) × Holds old index count q
    × (pos_part count < ring_size)
    × (buf ≡ set old ((pos_part index + pos_part count) % ring_size) x)
Mid _ buf index count q = Holds buf index count q

-- Within the critical section.
abbrev pub is_inside : {P : Type 0} → Task P → Bool
is_inside idle = false
is_inside (locking r q) = false
is_inside (leaving r) = false
is_inside _ = true

abbrev pub FoundOn : {P L : Type 0} → Board L → Task P → List ℤ → Type 0
FoundOn b t q = Mid t b.ring_buffer b.ring_buffer_current_index b.ring_buffer_count q

module _ (p : Protocol) (ss : Sections p) where
  open p use {Shared, Place}

  -- The statement completes, and the next one finds what it needs.
  abbrev pub Completes : Board Shared → Task Place → List ℤ → Type 0
  Completes b t q =
      (y : Board Shared × Task Place × List Event) × (q' : List ℤ) × (task_step p ss b t ≡ done y)
      × (replay y.2 q ≡ some q')
      × FoundOn y.0 y.1 q'

  -- The boards that the statements leave.
  abbrev with_ring : Board Shared → List ℤ → Board Shared
  with_ring b ring = record b { ring_buffer = ring }

  abbrev with_count : Board Shared → ℤ → Board Shared
  with_count b n = record b { ring_buffer_count = n }

  remove_test-Completes :
      (b : Board Shared) (q : List ℤ)
      → FoundOn {P = Place} b remove_test q
      → Completes b remove_test q
  unfolding task_step
  remove_test-Completes b q m = elim (Bool-cases (leb_ℤ b.ring_buffer_count (pos 0))) [
    | inl none_left ↦ (
      (b, leaving remove, removed none ∷ []),
      q,
      rw none_left,
      apply-removed_none q (empty_lem m none_left),
      m,
    )
    | inr some_left ↦ ((b, remove_item, []), q, rw some_left, refl, (m, ground arith))
  ]

  insert_test-Completes :
      (b : Board Shared) (x : ℤ) (q : List ℤ)
      → FoundOn {P = Place} b (insert_test x) q
      → Completes b (insert_test x) q
  unfolding task_step
  insert_test-Completes b x q m = elim (Bool-cases (leb_ℤ (pos ring_size) b.ring_buffer_count)) [
    | inl full ↦ (
      (b, leaving (insert x), refused x ∷ []),
      q,
      rw full,
      apply-refused x q (full_lem m full),
      m,
    )
    | inr room ↦ ((b, insert_store x, []), q, rw room, refl, (m, ground arith))
  ]

  remove_advance-Completes :
      (b : Board Shared) (x : ℤ) (q : List ℤ)
      → FoundOn {P = Place} b (remove_advance x) q
      → Completes b (remove_advance x) q
  unfolding task_step
  remove_advance-Completes b x q (old, n, m, e, down) = (
    _,
    contents b.ring_buffer (rem (inc32 b.ring_buffer_current_index) ring_size) b.ring_buffer_count,
    refl,
    ap (apply (removed (some x))) (taken_lem m e down).0 ∙ apply-removed x _,
    (taken_lem m e down).1,
  )

  insert_increment-Completes :
      (b : Board Shared) (x : ℤ) (q : List ℤ)
      → FoundOn {P = Place} b (insert_increment x) q
      → Completes b (insert_increment x) q
  unfolding task_step
  insert_increment-Completes b x q (old, m, room, e) =
      (_, q ++ (x ∷ []), refl, apply-added x q (omega (arith, length-q m)), stored_lem x m room e)

  look_item-Completes :
      (b : Board Shared) (k : ℕ) (q : List ℤ)
      → FoundOn {P = Place} b (look_item k) q
      → Completes b (look_item k) q
  unfolding task_step
  look_item-Completes b k q m = (
    (b, leaving (look k), looked (get_or b.ring_buffer (k % ring_size) (pos 0)) ∷ []),
    q,
    rw (get_elem?-eq-get_or b.ring_buffer (k % ring_size) (pos 0) (omega (arith, m.in_order.size))),
    apply-looked (get_or b.ring_buffer (k % ring_size) (pos 0)) q (
        subst
          (λ l.
            (get_or b.ring_buffer (k % ring_size) (pos 0) ≡ init_value)
            ⊎ ((i : ℕ) × (get_elem? l i ≡ some (get_or b.ring_buffer (k % ring_size) (pos 0)))))
          m.holds (Slots.slot_lem m.in_order m.clean (k % ring_size) (omega arith))),
    m,
  )

  pub body_step :
      (b : Board Shared) (t : Task Place) (q : List ℤ)
      → is_inside t ≡ true
      → FoundOn b t q
      → Completes b t q
  unfolding task_step
  body_step b remove_perform q i m = (_, q, refl, refl, m)
  body_step b remove_test q i m = remove_test-Completes b q m
  body_step b remove_item q i (m, h) = (
    (b, remove_reset (get_or b.ring_buffer (pos_part b.ring_buffer_current_index) (pos 0)), []),
    q,
    rw (Slots.head_read m.in_order h),
    refl,
    record { whole = m; some_clip = h; taken = refl },
  )
  body_step b (remove_reset x) q i m = (
    (
      with_ring b (set b.ring_buffer (pos_part b.ring_buffer_current_index) init_value),
      remove_decrement x,
      [],
    ),
    q,
    rw (Slots.head_write m.whole.in_order m.some_clip init_value),
    refl,
    (b.ring_buffer, m, refl),
  )
  body_step b (remove_decrement x) q i (old, m, e) =
      (_, q, refl, refl, (old, b.ring_buffer_count, m, e, refl))
  body_step b (remove_advance x) q i m = remove_advance-Completes b x q m
  body_step b (insert_perform x) q i m = (_, q, refl, refl, m)
  body_step b (insert_test x) q i m = insert_test-Completes b x q m
  body_step b (insert_store x) q i (m, room) = (
    (
      with_ring b (
          set b.ring_buffer
            ((pos_part b.ring_buffer_current_index + pos_part b.ring_buffer_count) % ring_size) x),
      insert_increment x,
      [],
    ),
    q,
    rw (Slots.tail_write m.in_order room x),
    refl,
    (b.ring_buffer, m, room, refl),
  )
  body_step b (insert_increment x) q i m = insert_increment-Completes b x q m
  body_step b (look_load k) q i m = (_, q, refl, refl, m)
  body_step b (look_store k v) q i m = (_, q, refl, refl, m)
  body_step b (look_item k) q i m = look_item-Completes b k q m
  body_step b _ q i m = absurd (cc i)
