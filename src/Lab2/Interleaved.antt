-- ===== src/Lab2/Interleaved.antt =====
-- lab2/KboardModule.c: the handlers of many threads on one board, statement by statement, within the
-- critical section of any of the solutions.
pub mod History
pub mod Lists
pub mod Project
pub mod Holding
pub mod Bodies
pub mod Excludes
pub mod Quiet
pub mod Current
pub mod Safety
pub mod Solutions
pub mod Schedule
pub mod Lost
use os_class.Common.{
  ℕ, ◌%◌, ◌≡◌, Bool, true, false, Option, none, some, List, [], ◌∷◌, ◌++◌, ℤ, pos, Outcome, done,
  blocked, ◌>>=◌, waiting, checked, leb_ℤ, ltb_ℤ, rem, read_at, write_at, inc32, dec32, add32,
  get_elem?, set, replicate, not, if◌then◌else◌,
}
use os_class.Ring.{ring_size, init_value}
use os_class.Lab2.Kboard.{Board}
use os_class.Lab2.Sync.System.{Role, Protocol}
use History.{Event, added, refused, removed, looked}

-- Where the critical sections of writers and readers lie in a solution, with tests for its places.
pub record Sections (p : Protocol) : Type 0 where
  pub section : Role → p.Place
  pub at_section : Role → p.Place → Bool
  pub is_outside : p.Place → Bool
  pub at_section_sound : (r : Role) (q : p.Place) → at_section r q ≡ true → q ≡ section r
  pub is_outside_sound : (q : p.Place) → is_outside q ≡ true → q ≡ p.outside

-- A read of the writer's file, a write of a number to it, and a read of the reader's file with the
-- number that it drew.
pub data Request : Type 0 where
  remove : Request
  insert : ℤ → Request
  look : ℕ → Request

abbrev pub role : Request → Role
role remove = Role.writer
role (insert x) = Role.writer
role (look k) = Role.reader

-- A negative number does not reach the critical section.
abbrev pub is_accepted : Request → Bool
is_accepted (insert x) = not (ltb_ℤ x (pos 0))
is_accepted _ = true

-- Before which statement of a handler a thread stands, with its local variables.
pub data Task (Place : Type 0) : Type 0 where
  idle : Task Place
  locking : Request → Place → Task Place  -- in one of the four functions of the solution
  remove_perform : Task Place  -- PerformWriter++
  remove_test : Task Place  -- if (RingBufferCount <= 0)
  remove_item : Task Place  -- item = RingBuffer[RingBufferCurrentIndex]
  remove_reset : ℤ → Task Place  -- RingBuffer[RingBufferCurrentIndex] = RING_BUFFER_INIT_VALUE
  remove_decrement : ℤ → Task Place  -- RingBufferCount--
  remove_advance : ℤ → Task Place  -- RingBufferCurrentIndex = …
  insert_perform : ℤ → Task Place  -- PerformWriter++
  insert_test : ℤ → Task Place  -- if (RingBufferCount >= RING_BUFFER_SIZE)
  insert_store : ℤ → Task Place  -- RingBuffer[…] = item
  insert_increment : ℤ → Task Place  -- RingBufferCount++
  look_load : ℕ → Task Place  -- PerformReader++, its load
  look_store : ℕ → ℤ → Task Place  -- PerformReader++, its store
  look_item : ℕ → Task Place  -- item = RingBuffer[randomIndex]
  leaving : Request → Task Place  -- LeaveCriticalSection_Writer(), LeaveCriticalSection_Reader()

abbrev pub first : {Place : Type 0} → Request → Task Place
first remove = remove_perform
first (insert x) = insert_perform x
first (look k) = look_load k

module _ (p : Protocol) (ss : Sections p) where
  open p use {Shared, Place, initial, outside, begin, step}
  open ss use {section, at_section, is_outside}

  -- The task of a thread that the code of the solution takes to a place.
  abbrev pub arrive : Request → Place → Task Place
  arrive r q =
      if at_section (role r) q then first r else (if is_outside q then idle else locking r q)

  abbrev pub Next : Type 0
  Next = Outcome (Board Shared × Task Place × List Event)

  -- A step of a thread in the code of the solution.
  unfoldable pub lock_step : Board Shared → Request → Place → Next
  lock_step b r q =
      waiting (step b.lock q) >>= λ y. done (record b { lock = y.0 }, arrive r y.1, [])

  -- One statement of a handler, with the event that it completes.
  unfoldable pub task_step : Board Shared → Task Place → Next
  task_step b idle = blocked
  task_step b (locking r q) = lock_step b r q
  task_step b remove_perform =
      done (record b { perform_writer = inc32 b.perform_writer }, remove_test, [])
  task_step b remove_test =
      if leb_ℤ b.ring_buffer_count (pos 0)
      then done (b, leaving remove, removed none ∷ [])
      else done (b, remove_item, [])
  task_step b remove_item = checked (read_at b.ring_buffer b.ring_buffer_current_index) >>= λ item.
      done (b, remove_reset item, [])
  task_step b (remove_reset item) =
      checked (write_at b.ring_buffer b.ring_buffer_current_index init_value) >>= λ ring.
      done (record b { ring_buffer = ring }, remove_decrement item, [])
  task_step b (remove_decrement item) =
      done (record b { ring_buffer_count = dec32 b.ring_buffer_count }, remove_advance item, [])
  task_step b (remove_advance item) = done (
    record b { ring_buffer_current_index = rem (inc32 b.ring_buffer_current_index) ring_size },
    leaving remove,
    removed (some item) ∷ [],
  )
  task_step b (insert_perform item) =
      done (record b { perform_writer = inc32 b.perform_writer }, insert_test item, [])
  task_step b (insert_test item) =
      if leb_ℤ (pos ring_size) b.ring_buffer_count
      then done (b, leaving (insert item), refused item ∷ [])
      else done (b, insert_store item, [])
  task_step b (insert_store item) =
      checked (
        write_at b.ring_buffer
          (rem (add32 b.ring_buffer_current_index b.ring_buffer_count) ring_size) item)
      >>= λ ring. done (record b { ring_buffer = ring }, insert_increment item, [])
  task_step b (insert_increment item) = done (
    record b { ring_buffer_count = inc32 b.ring_buffer_count },
    leaving (insert item),
    added item ∷ [],
  )
  task_step b (look_load k) = done (b, look_store k b.perform_reader, [])
  task_step b (look_store k v) = done (record b { perform_reader = inc32 v }, look_item k, [])
  task_step b (look_item k) = checked (read_at b.ring_buffer (pos (k % ring_size))) >>= λ item.
      done (b, leaving (look k), looked item ∷ [])
  task_step b (leaving r) = lock_step b r (section (role r))

  -- The board, the threads, and what they have completed, the latest first.
  pub record Module : Type 0 where
    pub board : Board Shared
    pub tasks : List (Task Place)
    pub history : List Event

  -- The board after `InitializeKboard` and `InitializeSyncSolution`.
  abbrev pub initial_board : Board Shared
  initial_board = record {
    lock = initial;
    ring_buffer = replicate ring_size init_value;
    ring_buffer_count = pos 0;
    ring_buffer_current_index = pos 0;
    perform_writer = pos 0;
    perform_reader = pos 0;
  }

  -- An idle thread calls a handler, or a thread executes its next statement.
  pub data Act (s : Module) : Module → Type 0 where
    asks :
        (i : ℕ) (r : Request)
        → get_elem? s.tasks i ≡ some idle
        → is_accepted r ≡ true
        → Act s (record s { tasks = set s.tasks i (locking r (begin (role r))) })
    runs :
        (i : ℕ) {t next : Task Place} {b : Board Shared} {events : List Event}
        → get_elem? s.tasks i ≡ some t
        → task_step s.board t ≡ done (b, next, events)
        → Act s (record { board = b; tasks = set s.tasks i next; history = events ++ s.history })

  -- The states that `n` threads can reach in any order of their statements.
  pub data Runs (n : ℕ) : Module → Type 0 where
    begins : Runs n (record { board = initial_board; tasks = replicate n idle; history = [] })
    acts : {s t : Module} → Runs n s → Act s t → Runs n t
