-- ===== src/Lab2/Kboard/Look.antt =====
-- `KboardReader_Show` and `KboardDumper_Show`: what the readers' files show of the queue.
use os_class.Common.{
  ℕ, suc, ◌≡◌, refl, ◌%◌, ◌⊎◌, some, List, [], ◌∷◌, ◌++◌, arith, ℤ, pos, done, length, get_elem?,
  get_or, get_elem?-eq-get_or, inc32, add32,
}
use os_class.Ring.{ring_size, init_value}
use os_class.Ring.Slots
use os_class.Lab2.Kboard.{
  Board, Line, random_value, status_title, ring_heading, status_end, slot, count, current_index,
  performed, solution, reader_show, dump_slots, dumper_show,
}
use os_class.Lab2.Kboard.Api.{CriticalSection}
use os_class.Lab2.Kboard.Valid.{clips, IsValid}

module _ (cs : CriticalSection) where
  open cs use {Lock}

  -- From a valid board, for any random number, a read of the reader's file returns 0 and the line with
  -- the random number modulo 5 and what the slot of that index holds, which is the initial value or one
  -- of the clips. The clips stay, one reader more is counted, the count of writers stays, and the board
  -- is valid again.
  pub reader_show_lem :
      (random : ℕ) (b : Board Lock)
      → IsValid cs b
      → (b' : Board Lock) × (item : ℤ) × (reader_show cs random b
          ≡ done (pos 0, random_value (random % ring_size) item ∷ [], b'))
        × ((item ≡ init_value) ⊎ ((k : ℕ) × (get_elem? (clips b) k ≡ some item)))
        × IsValid cs b'
        × (clips b' ≡ clips b)
        × (b'.perform_reader ≡ inc32 b.perform_reader)
        × (b'.perform_writer ≡ b.perform_writer)
        × (get_elem? b.ring_buffer (random % ring_size) ≡ some item)
  unfolding reader_show
  reader_show_lem random b v = (
    record b { lock = section.2; perform_reader = inc32 b.perform_reader },
    get_or b.ring_buffer (random % ring_size) (pos 0),
    rw (section.1, in_ring, section.3),
    Slots.slot_lem v.in_order v.clean (random % ring_size) (omega arith),
    record {
      quiet = section.4;
      in_order = v.in_order;
      clean = v.clean;
      nonnegative = v.nonnegative;
    },
    refl,
    refl,
    refl,
    in_ring,
  )
    where
      in_ring :
          get_elem? b.ring_buffer (random % ring_size)
          ≡ some (get_or b.ring_buffer (random % ring_size) (pos 0))
      in_ring =
          get_elem?-eq-get_or b.ring_buffer (random % ring_size) (pos 0)
            (omega (arith, v.in_order.size))

      section :
          (inside : Lock) × (cs.enter_reader b.lock ≡ done inside)
          × (outside : Lock) × (cs.leave_reader inside ≡ done outside)
          × cs.IsQuiet outside
      section = cs.reader_section b.lock v.quiet

  -- The lines of the slots from `index` on.
  abbrev pub slots_from : ℕ → List ℤ → List Line
  slots_from index [] = []
  slots_from index (x ∷ xs) = slot (pos index) x ∷ slots_from (suc index) xs

  dump_slots_lem :
      (ring : List ℤ)
      → length ring ≡ ring_size
      → dump_slots cs ring_size (pos 0) ring ≡ done (slots_from 0 ring)
  unfolding dump_slots add32
  dump_slots_lem (a ∷ b ∷ c ∷ d ∷ e ∷ []) h = refl
  dump_slots_lem [] h = absurd (omega arith)
  dump_slots_lem (a ∷ []) h = absurd (omega arith)
  dump_slots_lem (a ∷ b ∷ []) h = absurd (omega arith)
  dump_slots_lem (a ∷ b ∷ c ∷ []) h = absurd (omega arith)
  dump_slots_lem (a ∷ b ∷ c ∷ d ∷ []) h = absurd (omega arith)
  dump_slots_lem (a ∷ b ∷ c ∷ d ∷ e ∷ f ∷ r) h = absurd (omega arith)

  -- The lines of a dump.
  abbrev pub dump_lines : ℕ → List ℤ → ℤ → ℤ → ℤ → ℤ → List Line
  dump_lines n ring clips_held index writers readers =
      status_title
      ∷ ring_heading
      ∷ (slots_from 0 ring
          ++ (count clips_held
              ∷ current_index index
              ∷ performed writers readers
              ∷ solution n
              ∷ status_end
              ∷ []))

  -- The dump of an array of five slots is complete: each slot with its index, in order, then the
  -- count, the index, both counters and the solution.
  pub dumper_show_lem :
      (n : ℕ) (b : Board Lock)
      → length b.ring_buffer ≡ ring_size
      → dumper_show cs n b
        ≡ done (
          pos 0,
          dump_lines n b.ring_buffer b.ring_buffer_count b.ring_buffer_current_index
              b.perform_writer b.perform_reader,
        )
  unfolding dumper_show
  dumper_show_lem n b h = rw (dump_slots_lem b.ring_buffer h)
