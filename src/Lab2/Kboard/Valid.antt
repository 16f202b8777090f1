-- ===== src/Lab2/Kboard/Valid.antt =====
-- What holds of the board of KboardModule.c while nobody is in the critical section, and what
-- `InitializeKboard` makes of any array of five slots.
use os_class.Common.{◌≡◌, refl, List, [], ◌∷◌, ℤ, pos, done, length, replicate, arith, add32}
use os_class.Ring.{IsRing, IsClean, contents, AllNonnegative, ring_size, init_value}
use os_class.Ring.Fresh.{fresh, fresh-IsRing, fresh-IsClean}
use os_class.Lab2.Kboard.{Board, init_slots, initialize_kboard}
use os_class.Lab2.Kboard.Api.{CriticalSection}

abbrev pub clips : {L : Type 0} → Board L → List ℤ
clips b = contents b.ring_buffer b.ring_buffer_current_index b.ring_buffer_count

module _ (cs : CriticalSection) where
  open cs use {Lock, IsQuiet}

  pub record IsValid (b : Board Lock) : Type 0 where
    pub quiet : IsQuiet b.lock
    pub in_order : IsRing b.ring_buffer b.ring_buffer_current_index b.ring_buffer_count
    pub clean : IsClean b.ring_buffer b.ring_buffer_current_index b.ring_buffer_count
    pub nonnegative : AllNonnegative (clips b)

  init_slots_lem :
      (ring : List ℤ)
      → length ring ≡ ring_size
      → init_slots ring_size (pos 0) ring ≡ done (replicate ring_size init_value)
  unfolding init_slots add32
  init_slots_lem (a ∷ b ∷ c ∷ d ∷ e ∷ []) h = refl
  init_slots_lem [] h = absurd (omega arith)
  init_slots_lem (a ∷ []) h = absurd (omega arith)
  init_slots_lem (a ∷ b ∷ []) h = absurd (omega arith)
  init_slots_lem (a ∷ b ∷ c ∷ []) h = absurd (omega arith)
  init_slots_lem (a ∷ b ∷ c ∷ d ∷ []) h = absurd (omega arith)
  init_slots_lem (a ∷ b ∷ c ∷ d ∷ e ∷ f ∷ r) h = absurd (omega arith)

  abbrev pub fresh_board : Lock → Board Lock
  fresh_board lock = record {
    lock = lock;
    ring_buffer = fresh;
    ring_buffer_count = pos 0;
    ring_buffer_current_index = pos 0;
    perform_writer = pos 0;
    perform_reader = pos 0;
  }

  pub fresh_board-IsValid : (lock : Lock) → IsQuiet lock → IsValid (fresh_board lock)
  fresh_board-IsValid lock quiet = record {
    quiet = quiet;
    in_order = fresh-IsRing;
    clean = fresh-IsClean;
    nonnegative = tt;
  }

  pub initialize_kboard-fresh :
      (b : Board Lock)
      → length b.ring_buffer ≡ ring_size
      → initialize_kboard cs b ≡ done (fresh_board b.lock)
  unfolding initialize_kboard
  initialize_kboard-fresh b size = rw (init_slots_lem b.ring_buffer size)

  -- From an array of five slots, whatever the board holds and whatever its lock is, `InitializeKboard`
  -- makes a board with no clips, in order and clean, with all slots reset and both counters at 0, and
  -- leaves the lock as it is.
  pub initialize_kboard_lem :
      (b : Board Lock)
      → length b.ring_buffer ≡ ring_size
      → (b' : Board Lock) × (initialize_kboard cs b ≡ done b')
        × IsRing b'.ring_buffer b'.ring_buffer_current_index b'.ring_buffer_count
        × IsClean b'.ring_buffer b'.ring_buffer_current_index b'.ring_buffer_count
        × (clips b' ≡ [])
        × (b'.ring_buffer ≡ replicate ring_size init_value)
        × (b'.perform_writer ≡ pos 0)
        × (b'.perform_reader ≡ pos 0)
        × (b'.lock ≡ b.lock)
  initialize_kboard_lem b size = (
    fresh_board b.lock,
    initialize_kboard-fresh b size,
    fresh-IsRing,
    fresh-IsClean,
    refl,
    refl,
    refl,
    refl,
    refl,
  )
