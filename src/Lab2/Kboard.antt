-- ===== src/Lab2/Kboard.antt =====
-- lab2/KboardModule.c: the board, and the handlers of the four files under /proc/kboard.
pub mod Api
pub mod Valid
pub mod Remove
pub mod Insert
pub mod Write
pub mod Look
pub mod Bare
pub mod Lockless
use os_class.Common.{
  ℕ, zero, suc, ◌+◌, ◌%◌, ◌≡◌, Option, none, some, List, [], ◌∷◌, ◌++◌, ℤ, pos, negsuc, Outcome,
  done, ◌>>=◌, checked, leb_ℤ, ltb_ℤ, ltb, leb, ◌==◌, rem, read_at, write_at, inc32, dec32, add32,
  drop, if◌then◌else◌,
}
use os_class.Ring.{ring_size, init_value}
use Api.{CriticalSection, UserText}

-- `RingBuffer`, `RingBufferCount`, `RingBufferCurrentIndex`, `PerformWriter` and `PerformReader`, with
-- the variables of the synchronisation as `lock`.
pub record Board (Lock : Type 0) : Type 0 where
  pub lock : Lock
  pub ring_buffer : List ℤ
  pub ring_buffer_count : ℤ
  pub ring_buffer_current_index : ℤ
  pub perform_writer : ℤ
  pub perform_reader : ℤ

-- What a handler prints into the file that is read, a line each.
pub data Line : Type 0 where
  paste : ℤ → Line
  random_value : ℕ → ℤ → Line
  kboard_count : ℤ → Line
  status_title ring_heading status_end : Line
  slot : ℤ → ℤ → Line
  count : ℤ → Line
  current_index : ℤ → Line
  performed : ℤ → ℤ → Line
  solution : ℕ → Line

-- The constants of the error numbers, negated: EPERM, E2BIG, EFAULT, EINVAL.
abbrev pub eperm : ℤ
eperm = negsuc 0

abbrev pub e2big : ℤ
e2big = negsuc 6

abbrev pub efault : ℤ
efault = negsuc 13

abbrev pub einval : ℤ
einval = negsuc 21

-- `WRITER_BUFFER_SIZE`
abbrev pub writer_buffer_size : ℕ
writer_buffer_size = 20

-- `InitializeKboard`, its loop with the number of slots that it has still to write.
pub init_slots : ℕ → ℤ → List ℤ → Outcome (List ℤ)
init_slots zero index ring = done ring
init_slots (suc rounds) index ring =
    checked (write_at ring index init_value) >>= init_slots rounds (inc32 index)

module _ (cs : CriticalSection) where
  open cs use {Lock, enter_writer, leave_writer, enter_reader, leave_reader}

  unfoldable pub initialize_kboard : Board Lock → Outcome (Board Lock)
  unfolding init_slots
  initialize_kboard b = do
    ring ← init_slots ring_size (pos 0) b.ring_buffer
    done (record b {
      ring_buffer = ring;
      ring_buffer_count = pos 0;
      ring_buffer_current_index = pos 0;
      perform_writer = pos 0;
      perform_reader = pos 0;
    })

  -- `KboardWriter_Show` between Enter and Leave: the clip removed, `none` from an empty ring.
  pub remove_inside : Board Lock → Outcome (Option ℤ × Board Lock)
  remove_inside b = if leb_ℤ b.ring_buffer_count (pos 0) then done (none, b) else do
    item ← checked (read_at b.ring_buffer b.ring_buffer_current_index)
    ring ← checked (write_at b.ring_buffer b.ring_buffer_current_index init_value)
    done (
      some item,
      record b {
        ring_buffer = ring;
        ring_buffer_count = dec32 b.ring_buffer_count;
        ring_buffer_current_index = rem (inc32 b.ring_buffer_current_index) ring_size;
      },
    )

  -- The value returned and what is printed, once the section is left.
  pub show_clip : Option ℤ → Board Lock → ℤ × List Line × Board Lock
  show_clip none b = (eperm, [], b)
  show_clip (some item) b = (pos 0, paste item ∷ [], b)

  unfoldable pub writer_show : Board Lock → Outcome (ℤ × List Line × Board Lock)
  unfolding remove_inside show_clip
  writer_show b = do
    inside ← enter_writer b.lock
    (clip, b') ← remove_inside (record b { lock = inside; perform_writer = inc32 b.perform_writer })
    outside ← leave_writer b'.lock
    done (show_clip clip (record b' { lock = outside }))

  -- `KboardWriter_Write` between Enter and Leave: whether the clip was stored.
  pub insert_inside : ℤ → Board Lock → Outcome (Option ℤ × Board Lock)
  insert_inside item b = if leb_ℤ (pos ring_size) b.ring_buffer_count then done (none, b) else do
    ring ← checked (
        write_at b.ring_buffer
          (rem (add32 b.ring_buffer_current_index b.ring_buffer_count) ring_size) item)
    done (some item, record b { ring_buffer = ring; ring_buffer_count = inc32 b.ring_buffer_count })

  pub accepted : ℕ → Option ℤ → ℤ
  accepted length none = eperm
  accepted length (some item) = pos length

  -- `KboardWriter_Write` from its Enter on, with the item scanned.
  pub store : ℕ → ℤ → Board Lock → Outcome (ℤ × Board Lock)
  unfolding insert_inside accepted
  store length item b = do
    inside ← enter_writer b.lock
    (stored, b') ←
        insert_inside item (record b { lock = inside; perform_writer = inc32 b.perform_writer })
    outside ← leave_writer b'.lock
    done (accepted length stored, record b' { lock = outside })

  -- The tests of the item that was scanned, and the rest.
  pub write_item : ℕ → Option ℤ → Board Lock → Outcome (ℤ × Board Lock)
  unfolding store
  write_item length none b = done (einval, b)
  write_item length (some item) b =
      if ltb_ℤ item (pos 0) then done (einval, b) else store length item b

  -- `stale` is the memory of the stack from `buffer` on before the call; the copy overwrites its
  -- start, and `sscanf` reads the result.
  unfoldable pub writer_write :
      (t : UserText) → t.Mem → t.Ptr → ℕ → List ℕ → Board Lock → Outcome (ℤ × Board Lock)
  unfolding write_item
  writer_write t m user length stale b =
      if ltb writer_buffer_size length
      then done (e2big, b)
      else (if (t.copy_from_user m user length).0 == 0
          then write_item length
              (t.sscanf_int ((t.copy_from_user m user length).1 ++ drop length stale)) b
          else done (efault, b))

  -- `KboardReader_Show`, with the number that `get_random_bytes` gave.
  unfoldable pub reader_show : ℕ → Board Lock → Outcome (ℤ × List Line × Board Lock)
  reader_show random b = do
    inside ← enter_reader b.lock
    item ← checked (read_at b.ring_buffer (pos (random % ring_size)))
    outside ← leave_reader inside
    done (
      pos 0,
      random_value (random % ring_size) item ∷ [],
      record b { lock = outside; perform_reader = inc32 b.perform_reader },
    )

  -- `KboardCounter_Show`
  unfoldable pub counter_show : Board Lock → ℤ × List Line
  counter_show b = (pos 0, kboard_count b.ring_buffer_count ∷ [])

  -- The loop of `KboardDumper_Show`, with the number of slots that it has still to print.
  pub dump_slots : ℕ → ℤ → List ℤ → Outcome (List Line)
  dump_slots zero index ring = done []
  dump_slots (suc rounds) index ring = do
    value ← checked (read_at ring index)
    lines ← dump_slots rounds (inc32 index) ring
    done (slot index value ∷ lines)

  -- `KboardDumper_Show`, for the solution of a number.
  unfoldable pub dumper_show : ℕ → Board Lock → Outcome (ℤ × List Line)
  unfolding dump_slots
  dumper_show sync_solution b = do
    lines ← dump_slots ring_size (pos 0) b.ring_buffer
    done (
      pos 0,
      status_title
          ∷ ring_heading
          ∷ (lines
              ++ (count b.ring_buffer_count
                  ∷ current_index b.ring_buffer_current_index
                  ∷ performed b.perform_writer b.perform_reader
                  ∷ solution sync_solution
                  ∷ status_end
                  ∷ [])),
    )
