-- ===== src/Lab2/Kboard/Remove.antt =====
-- `KboardWriter_Show` against the removal of the queue.
use os_class.Common.{
  ◌<◌, ◌≡◌, refl, ap, true, false, Option, none, some, List, [], ◌∷◌, arith, ℤ, pos, pos_part, done,
  get_or, leb_ℤ, set, inc32, dec32, rem, dec_lt,
}
use os_class.Ring.{ring_size, init_value}
use os_class.Ring.Slots
use os_class.Ring.Window.{window}
use os_class.Fifo
use os_class.Lab2.Kboard.{Board, Line, paste, eperm, writer_show}
use os_class.Lab2.Kboard.Api.{CriticalSection}
use os_class.Lab2.Kboard.Valid.{clips, IsValid}

-- What a read of the writer's file gives: the value returned, the text, and the clips left.
abbrev pub removal : Option (ℤ × List ℤ) → List ℤ → ℤ × List Line × List ℤ
removal none q = (eperm, [], q)
removal (some (x, rest)) q = (pos 0, paste x ∷ [], rest)

module _ (cs : CriticalSection) where
  open cs use {Lock, IsQuiet}

  -- What `KboardWriter_Show` did.
  abbrev pub Removed : Board Lock → Type 0
  Removed b =
      let (value, text, rest) = removal (Fifo.poll (clips b)) (clips b) in
      (b' : Board Lock) × (writer_show cs b ≡ done (value, text, b'))
      × IsValid cs b'
      × (clips b' ≡ rest)
      × (b'.perform_writer ≡ inc32 b.perform_writer)
      × (b'.perform_reader ≡ b.perform_reader)

  module _ (b : Board Lock) (v : IsValid cs b) where
    open v use {in_order, clean}

    abbrev inside : Lock
    inside = (cs.writer_section b.lock v.quiet).0

    entered : cs.enter_writer b.lock ≡ done inside
    entered = (cs.writer_section b.lock v.quiet).1

    abbrev outside : Lock
    outside = (cs.writer_section b.lock v.quiet).2

    left : cs.leave_writer inside ≡ done outside
    left = (cs.writer_section b.lock v.quiet).3

    still : IsQuiet outside
    still = (cs.writer_section b.lock v.quiet).4

    remove_none : pos_part b.ring_buffer_count ≡ 0 → Removed b
    unfolding writer_show Fifo.poll
    remove_none e = (
      record b { lock = outside; perform_writer = inc32 b.perform_writer },
      rw (entered, is_empty, left, none_left),
      record { quiet = still; in_order = in_order; clean = clean; nonnegative = v.nonnegative },
      rw none_left,
      refl,
      refl,
    )
      where
        none_left : clips b ≡ []
        none_left = ap (window b.ring_buffer (pos_part b.ring_buffer_current_index)) e

        is_empty : leb_ℤ b.ring_buffer_count (pos 0) ≡ true
        is_empty = ground arith

    module _ (h : 0 < pos_part b.ring_buffer_count) where
      abbrev after : Board Lock
      after = record b {
        lock = outside;
        ring_buffer = set b.ring_buffer (pos_part b.ring_buffer_current_index) init_value;
        ring_buffer_count = dec32 b.ring_buffer_count;
        ring_buffer_current_index = rem (inc32 b.ring_buffer_current_index) ring_size;
        perform_writer = inc32 b.perform_writer;
      }

      abbrev first : ℤ
      first = get_or b.ring_buffer (pos_part b.ring_buffer_current_index) (pos 0)

      split : clips b ≡ first ∷ clips after
      split = Slots.contents-pop in_order h init_value

      not_empty : leb_ℤ b.ring_buffer_count (pos 0) ≡ false
      not_empty = ground arith

      remove_first : Removed b
      unfolding writer_show Fifo.poll
      remove_first = (
        after,
        rw (
          entered,
          not_empty,
          Slots.head_read in_order h,
          Slots.head_write in_order h init_value,
          left,
          split,
        ),
        record {
          quiet = still;
          in_order = Slots.IsRing-pop in_order h init_value;
          clean = Slots.IsClean-pop in_order h clean;
          nonnegative = (rw split at v.nonnegative).1;
        },
        rw split,
        refl,
        refl,
      )

    -- From a valid board a read of the writer's file returns: from an empty queue -EPERM and no text,
    -- else 0 and the line of the oldest clip, which is removed. The board is valid again, one writer
    -- more is counted, and no access was outside the array.
    pub remove_refines : Removed b
    remove_refines = elim (dec_lt 0 (pos_part b.ring_buffer_count)) [
      | yes h ↦ remove_first h
      | no e ↦ remove_none (omega arith)
    ]
