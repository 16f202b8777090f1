-- ===== src/Lab2/Kboard/Lockless.antt =====
-- The handlers of lab2/KboardModule.c against themselves without any synchronisation.
use os_class.Common.{
  ℕ, ◌%◌, ◌≡◌, refl, inl, inr, Option, none, some, List, ◌++◌, ℤ, pos, zero, suc, Bool-cases,
  Option-cases, leb_ℤ, ltb_ℤ, ltb, ◌==◌, rem, read_at, write_at, inc32, add32, drop,
}
use os_class.Ring.{ring_size, init_value}
use os_class.Lab2.Kboard.{
  Board, Line, remove_inside, show_clip, insert_inside, accepted, writer_buffer_size, dump_slots,
  store, write_item, writer_write,
}
use os_class.Lab2.Kboard as Handlers
use os_class.Lab2.Kboard.Api.{CriticalSection, UserText}
use os_class.Lab2.Kboard.Bare.{no_section, bare, Both, Same, SameShown, Both-bind}

module _ (cs : CriticalSection) where
  open cs use {Lock, IsQuiet}

  -- The bodies of the handlers keep the lock.
  remove_inside-Both :
      (b : Board Lock)
      → Both (Same (λ l. l ≡ b.lock)) (remove_inside cs b) (remove_inside no_section (bare b))
  unfolding remove_inside
  remove_inside-Both b = elim (Bool-cases (leb_ℤ b.ring_buffer_count (pos 0))) [
    | inl none_left ↦ rw none_left (refl, refl, refl)
    | inr some_left ↦ elim (Option-cases (read_at b.ring_buffer b.ring_buffer_current_index)) [
      | inl outside ↦ rw (some_left, outside) tt
      | inr (item, here) ↦
          elim (Option-cases (write_at b.ring_buffer b.ring_buffer_current_index init_value)) [
            | inl outside ↦ rw (some_left, here, outside) tt
            | inr (ring, there) ↦ rw (some_left, here, there) (refl, refl, refl)
          ]
    ]
  ]

  insert_inside-Both :
      (item : ℤ) (b : Board Lock)
      → Both
          (Same (λ l. l ≡ b.lock))
          (insert_inside cs item b)
          (insert_inside no_section item (bare b))
  unfolding insert_inside
  insert_inside-Both item b = elim (Bool-cases (leb_ℤ (pos ring_size) b.ring_buffer_count)) [
    | inl full ↦ rw full (refl, refl, refl)
    | inr room ↦
        elim (Option-cases (
          write_at b.ring_buffer
            (rem (add32 b.ring_buffer_current_index b.ring_buffer_count) ring_size) item)) [
              | inl outside ↦ rw (room, outside) tt
              | inr (ring, there) ↦ rw (room, there) (refl, refl, refl)
            ]
  ]

  dump_slots-same :
      (rounds : ℕ) (index : ℤ) (ring : List ℤ)
      → dump_slots cs rounds index ring ≡ dump_slots no_section rounds index ring
  unfolding dump_slots
  dump_slots-same zero index ring = refl
  dump_slots-same (suc rounds) index ring = elim (Option-cases (read_at ring index)) [
    | inl outside ↦ rw outside
    | inr (value, here) ↦ rw (here, dump_slots-same rounds (inc32 index) ring)
  ]

  pub dumper_show-same :
      (sync_solution : ℕ) (b : Board Lock)
      → Handlers.dumper_show cs sync_solution b
        ≡ Handlers.dumper_show no_section sync_solution (bare b)
  unfolding Handlers.dumper_show
  dumper_show-same sync_solution b = rw (dump_slots-same ring_size (pos 0) b.ring_buffer)

  module _ (b : Board Lock) (quiet : IsQuiet b.lock) where
    pub writer_show-Both :
        Both
          (SameShown IsQuiet)
          (Handlers.writer_show cs b)
          (Handlers.writer_show no_section (bare b))
    unfolding Handlers.writer_show show_clip
    writer_show-Both =
        let (inside, entered, outside, left, still) = cs.writer_section b.lock quiet in
        rw entered (
          Both-bind (λ l. l ≡ inside) (SameShown IsQuiet) _ _ _ _
            (remove_inside-Both
              (record b { lock = inside; perform_writer = inc32 b.perform_writer }))
            (λ clip b' kept. rw (kept, left) (shown_alike outside still clip b')))
      where
        shown_alike :
            (outside : Lock)
            → IsQuiet outside
            → (clip : Option ℤ) (b' : Board Lock)
            → SameShown IsQuiet
                (show_clip cs clip (record b' { lock = outside }))
                (show_clip no_section clip (bare b'))
        shown_alike outside still none b' = (refl, refl, refl, still)
        shown_alike outside still (some item) b' = (refl, refl, refl, still)

    store-Both :
        (length : ℕ) (item : ℤ)
        → Both (Same IsQuiet) (store cs length item b) (store no_section length item (bare b))
    unfolding store accepted
    store-Both length item =
        let (inside, entered, outside, left, still) = cs.writer_section b.lock quiet in
        rw entered (
          Both-bind (λ l. l ≡ inside) (Same IsQuiet) _ _ _ _
            (insert_inside-Both item
              (record b { lock = inside; perform_writer = inc32 b.perform_writer }))
            (λ stored b' kept. rw (kept, left) (alike stored, refl, still)))
      where
        alike : (stored : Option ℤ) → accepted cs length stored ≡ accepted no_section length stored
        alike none = refl
        alike (some item') = refl

    write_item-Both :
        (length : ℕ) (item : Option ℤ)
        → Both
            (Same IsQuiet)
            (write_item cs length item b)
            (write_item no_section length item (bare b))
    unfolding write_item
    write_item-Both length none = (refl, refl, quiet)
    write_item-Both length (some item) = elim (Bool-cases (ltb_ℤ item (pos 0))) [
      | inl minus ↦ rw minus (refl, refl, quiet)
      | inr plus ↦ rw plus (store-Both length item)
    ]

    pub writer_write-Both :
        (t : UserText) (m : t.Mem) (user : t.Ptr) (n : ℕ) (stale : List ℕ)
        → Both
            (Same IsQuiet)
            (writer_write cs t m user n stale b)
            (writer_write no_section t m user n stale (bare b))
    unfolding writer_write
    writer_write-Both t m user n stale = elim (Bool-cases (ltb writer_buffer_size n)) [
      | inl long ↦ rw long (refl, refl, quiet)
      | inr short ↦ elim (Bool-cases ((t.copy_from_user m user n).0 == 0)) [
        | inl ok ↦
            rw (short, ok)
              (write_item-Both n (t.sscanf_int ((t.copy_from_user m user n).1 ++ drop n stale)))
        | inr failed ↦ rw (short, failed) (refl, refl, quiet)
      ]
    ]

    pub reader_show-Both :
        (random : ℕ)
        → Both
            (SameShown IsQuiet)
            (Handlers.reader_show cs random b)
            (Handlers.reader_show no_section random (bare b))
    unfolding Handlers.reader_show
    reader_show-Both random =
        let (inside, entered, outside, left, still) = cs.reader_section b.lock quiet in
        elim (Option-cases (read_at b.ring_buffer (pos (random % ring_size)))) [
          | inl nothing ↦ rw (entered, nothing) tt
          | inr (item, here) ↦ rw (entered, here, left) (refl, refl, refl, still)
        ]
