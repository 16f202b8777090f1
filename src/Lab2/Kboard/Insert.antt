-- ===== src/Lab2/Kboard/Insert.antt =====
-- `KboardWriter_Write` against the insertion of the queue.
use os_class.Common.{
  ℕ, ◌+◌, ◌<◌, ◌≡◌, refl, ◌%◌, inl, inr, Bool, true, false, Option, none, some, List, [], ◌∷◌,
  arith, ℤ, pos, pos_part, done, length, Bool-cases, ltb_ℤ, leb_ℤ, set, inc32, dec_lt, All-append,
  if◌then◌else◌,
}
use os_class.Ring.{ring_size, IsNonnegative}
use os_class.Ring.Slots
use os_class.Fifo
use os_class.Fifo.Laws
use os_class.Lab2.Kboard.{Board, eperm, einval, store, write_item}
use os_class.Lab2.Kboard.Api.{CriticalSection}
use os_class.Lab2.Kboard.Valid.{clips, IsValid}

-- What a write of `length` bytes with the number scanned gives: the value returned, the clips left,
-- and whether the critical section was entered.
abbrev pub insertion : ℕ → Option ℤ → List ℤ → ℤ × List ℤ × Bool
insertion length none q = (einval, q, false)
insertion length (some x) q =
    if ltb_ℤ x (pos 0)
    then (einval, q, false)
    else elim (Fifo.offer x q) [ none ↦ (eperm, q, true) | some q' ↦ (pos length, q', true) ]

module _ (cs : CriticalSection) where
  open cs use {Lock, IsQuiet}

  -- A call with outcome `o` gave what the queue gives.
  abbrev pub Agrees : (ℤ × Board Lock → Type 0) → ℤ × List ℤ × Bool → Board Lock → Type 0
  Agrees returns (value, q, counted) b =
      (b' : Board Lock) × returns (value, b')
      × IsValid cs b'
      × (clips b' ≡ q)
      × (b'.perform_writer ≡ (if counted then inc32 b.perform_writer else b.perform_writer))
      × (b'.perform_reader ≡ b.perform_reader)

  module _ (n : ℕ) (b : Board Lock) (v : IsValid cs b) where
    open v use {in_order, clean}

    abbrev inside : Lock
    inside = (cs.writer_section b.lock v.quiet).0

    entered : cs.enter_writer b.lock ≡ done inside
    entered = (cs.writer_section b.lock v.quiet).1

    abbrev outside : Lock
    outside = (cs.writer_section b.lock v.quiet).2

    left : cs.leave_writer inside ≡ done outside
    left = (cs.writer_section b.lock v.quiet).3

    still : IsQuiet outside
    still = (cs.writer_section b.lock v.quiet).4

    store_full :
        (x : ℤ)
        → pos_part b.ring_buffer_count ≡ ring_size
        → store cs n x b
          ≡ done (eperm, record b { lock = outside; perform_writer = inc32 b.perform_writer })
    unfolding store
    store_full x full = rw (entered, is_full, left)
      where
        is_full : leb_ℤ (pos ring_size) b.ring_buffer_count ≡ true
        is_full = rw in_order.count_sign (ground arith)

    abbrev after : ℤ → Board Lock
    after x = record b {
      lock = outside;
      ring_buffer =
          set b.ring_buffer
            ((pos_part b.ring_buffer_current_index + pos_part b.ring_buffer_count) % 5) x;
      ring_buffer_count = inc32 b.ring_buffer_count;
      perform_writer = inc32 b.perform_writer;
    }

    store_room :
        (x : ℤ) → pos_part b.ring_buffer_count < ring_size → store cs n x b ≡ done (pos n, after x)
    unfolding store
    store_room x room = rw (entered, not_full, Slots.tail_write in_order room x, left)
      where
        not_full : leb_ℤ (pos ring_size) b.ring_buffer_count ≡ false
        not_full = rw in_order.count_sign (ground arith)

    -- The part of the call after the scan.
    pub item_refines :
        (scanned : Option ℤ)
        → Agrees (λ r. write_item cs n scanned b ≡ done r) (insertion n scanned (clips b)) b
    unfolding write_item
    item_refines none = (b, refl, v, refl, refl, refl)
    item_refines (some x) = elim (Bool-cases (ltb_ℤ x (pos 0))) [
      | inl minus ↦ rw minus (b, refl, v, refl, refl, refl)
      | inr plus ↦ elim (dec_lt (pos_part b.ring_buffer_count) ring_size) [
        | yes room ↦
            rw (plus, Laws.offer_room x (clips b) (omega (arith, Slots.length-contents in_order)))
              (
                after x,
                store_room x room,
                record {
                  quiet = still;
                  in_order = Slots.IsRing-push in_order room x;
                  clean = Slots.IsClean-push in_order room x clean;
                  nonnegative = rw (Slots.contents-push in_order room x) (
                      All-append IsNonnegative (clips b) (x ∷ []) v.nonnegative
                        (Laws.nonnegative x plus, tt));
                },
                Slots.contents-push in_order room x,
                refl,
                refl,
              )
        | no full ↦
            rw
              (
                plus,
                Laws.offer_full x (clips b)
                    (omega (arith, Slots.length-contents in_order, in_order.count_in)),
              )
              (
                record b { lock = outside; perform_writer = inc32 b.perform_writer },
                store_full x (omega (arith, in_order.count_in)),
                record {
                  quiet = still;
                  in_order = in_order;
                  clean = clean;
                  nonnegative = v.nonnegative;
                },
                refl,
                refl,
                refl,
              )
      ]
    ]
