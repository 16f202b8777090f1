-- ===== src/Tests/Kboard.antt =====
-- The handlers of lab2/KboardModule.c on concrete inputs, with the first synchronisation solution
-- and a scan of decimal digits.
use os_class.Common.{
  ℕ, zero, suc, ◌+◌, ◌-◌, ◌*◌, ◌<◌, ◌≤◌, ◌≡◌, refl, ◌%◌, ◌⊎◌, Bool, true, false, Option, none, some,
  List, [], ◌∷◌, ◌++◌, ℤ, pos, negsuc, done, arith, replicate, get_elem?, get_or, inc32, leb, ◌&&◌,
}
use os_class.Ring.{IsRing, IsClean, ring_size, init_value}
use os_class.Lab2.Sync.Schedule.{counting}
use os_class.Lab2.Sync.Solution1.{Shared}
use os_class.Lab2.Sync.Solution1.Section.{critical_section, initial-IsQuiet}
use os_class.Lab2.Kboard.{
  Board, random_value, initialize_kboard, writer_write, reader_show, dumper_show,
}
use os_class.Lab2.Kboard.Api.{CriticalSection, UserText}
use os_class.Lab2.Kboard.Valid
use os_class.Lab2.Kboard.Valid.{clips, IsValid}
use os_class.Lab2.Kboard.Remove
use os_class.Lab2.Kboard.Insert.{Agrees}
use os_class.Lab2.Kboard.Write
use os_class.Lab2.Kboard.Look
use os_class.Lab2.SyncTest.{echoed}

-- A byte that is a decimal digit.
abbrev is_digit : ℕ → Bool
is_digit c = leb b'0' c && leb c b'9'

-- The number of the digits at the start of a text, if there is one.
scan_rest : ℕ → List ℕ → ℤ
scan_rest acc [] = pos acc
scan_rest acc (c ∷ s) = elim (is_digit c) [
  | true ↦ scan_rest (acc * 10 + (c - b'0')) s
  | false ↦ pos acc
]

pub scan : List ℕ → Option ℤ
unfolding scan_rest
scan [] = none
scan (c ∷ s) = elim (is_digit c) [ true ↦ some (scan_rest 0 (c ∷ s)) | false ↦ none ]

pub scan-echoed : (rest : List ℕ) → scan (echoed ++ rest) ≡ some (pos 777)
unfolding scan scan_rest
scan-echoed rest = refl

-- A process whose memory is one text; reads at the bad address copy nothing.
pub copy : List ℕ → Bool → ℕ → ℕ × List ℕ
copy m true n = (0, m)
copy m false n = (n, [])

pub copy-done :
    (m : List ℕ) (p : Bool) (n : ℕ)
    → (copy m p n).0 ≡ 0
    → (copy m p n).1 ≡ elim p [ true ↦ m | false ↦ [] ]
unfolding copy
copy-done m true n h = refl
copy-done m false n h = refl

abbrev pub process : UserText
process = record {
  Mem = List ℕ;
  Ptr = Bool;
  user_bytes = λ m p n. elim p [ true ↦ m | false ↦ [] ];
  copy_from_user = copy;
  copied = copy-done;
  sscanf_int = scan;
}

abbrev pub section : CriticalSection
section = critical_section counting

abbrev free_lock : Shared ℕ
free_lock = record { semaphore_mutex = 1; semaphore_writer = 1; reader_count = pos 0 }

-- Three clips, from the fourth slot around the end of the array.
abbrev pub three_clips : Board (Shared ℕ)
three_clips = record {
  lock = free_lock;
  ring_buffer = pos 9 ∷ negsuc 0 ∷ negsuc 0 ∷ pos 7 ∷ pos 8 ∷ [];
  ring_buffer_count = pos 3;
  ring_buffer_current_index = pos 3;
  perform_writer = pos 3;
  perform_reader = pos 2;
}

empty_slots :
    (k : ℕ) → 3 ≤ k → k < 5 → get_or three_clips.ring_buffer ((3 + k) % 5) (pos 0) ≡ init_value
empty_slots (suc (suc (suc zero))) lo hi = refl
empty_slots (suc (suc (suc (suc zero)))) lo hi = refl
empty_slots (suc (suc (suc (suc (suc k))))) lo hi = absurd (omega arith)
empty_slots (suc (suc zero)) lo hi = absurd (omega arith)
empty_slots (suc zero) lo hi = absurd (omega arith)
empty_slots zero lo hi = absurd (omega arith)

pub three_clips-IsValid : IsValid section three_clips
three_clips-IsValid = record {
  quiet = initial-IsQuiet counting;
  in_order = record {
    size = refl;
    index_sign = refl;
    index_in = omega arith;
    count_sign = refl;
    count_in = omega arith;
  };
  clean = empty_slots;
  nonnegative = (refl, (refl, (refl, tt)));
}

-- The text of the process for the concrete writes, and what the stack holds.
abbrev pub sixty : List ℕ
sixty = b'6' ∷ b'0' ∷ 10 ∷ []

abbrev pub stale : List ℕ
stale = b'1' ∷ b'2' ∷ b'3' ∷ b'4' ∷ b'5' ∷ []

remove_refines_example : Remove.Removed section three_clips
remove_refines_example = Remove.remove_refines section three_clips three_clips-IsValid

write_refines_example :
    Agrees section
      (λ r. writer_write section process sixty true 3 stale three_clips ≡ done r)
      (Write.written section process sixty true 3 stale (clips three_clips))
      three_clips
write_refines_example =
    Write.write_refines section process sixty true 3 stale three_clips three_clips-IsValid

-- The text has no newline and no NUL, so the last three digits on the stack are scanned with it.
stale_scanned :
    writer_write section process (b'6' ∷ b'0' ∷ []) true 2 stale three_clips
    ≡ writer_write section process (b'6' ∷ b'0' ∷ b'3' ∷ b'4' ∷ b'5' ∷ []) true 2 [] three_clips
unfolding writer_write scan scan_rest copy
stale_scanned = refl

reader_show_lem_example :
    (b' : Board (Shared ℕ)) × (item : ℤ) × (reader_show section 13 three_clips
      ≡ done (pos 0, random_value (13 % ring_size) item ∷ [], b'))
    × ((item ≡ init_value) ⊎ ((k : ℕ) × (get_elem? (clips three_clips) k ≡ some item)))
    × IsValid section b'
    × (clips b' ≡ clips three_clips)
    × (b'.perform_reader ≡ inc32 three_clips.perform_reader)
    × (b'.perform_writer ≡ three_clips.perform_writer)
    × (get_elem? three_clips.ring_buffer (13 % ring_size) ≡ some item)
reader_show_lem_example = Look.reader_show_lem section 13 three_clips three_clips-IsValid

dumper_show_lem_example :
    dumper_show section 1 three_clips
    ≡ done
        (pos 0, Look.dump_lines section 1 three_clips.ring_buffer (pos 3) (pos 3) (pos 3) (pos 2))
dumper_show_lem_example = Look.dumper_show_lem section 1 three_clips refl

initialize_kboard_lem_example :
    (b' : Board (Shared ℕ)) × (initialize_kboard section three_clips ≡ done b')
    × IsRing b'.ring_buffer b'.ring_buffer_current_index b'.ring_buffer_count
    × IsClean b'.ring_buffer b'.ring_buffer_current_index b'.ring_buffer_count
    × (clips b' ≡ [])
    × (b'.ring_buffer ≡ replicate ring_size init_value)
    × (b'.perform_writer ≡ pos 0)
    × (b'.perform_reader ≡ pos 0)
    × (b'.lock ≡ three_clips.lock)
initialize_kboard_lem_example = Valid.initialize_kboard_lem section three_clips refl
