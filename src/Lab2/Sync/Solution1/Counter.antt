-- ===== src/Lab2/Sync/Solution1/Counter.antt =====
-- `PerformReader++` of `KboardReader_Show` in the critical section of Solution 1, as a load and a
-- store, for readers that run side by side.
use mathlib.Core.Option
use os_class.Common.{
  ℕ, zero, suc, add32, ◌≤◌, ◌≡◌, refl, Bool, true, false, Option, some, List, [], ◌∷◌, ◌++◌, ℤ, pos,
  inc32, get_elem?, replicate, arith,
}
use os_class.Lab2.Sync.Semaphores.{Semaphores}
use os_class.Lab2.Sync.System.{Role, Protocol, System, Reach, start}
use os_class.Lab2.Sync.Schedule.{counting, count_down, Turn, starts, steps, turns, play, play-Reach}
use os_class.Lab2.Sync.Solution1.{Shared, Place, outside, reading, begin, initial, step}

pub record Counting (Semaphore : Type 0) : Type 0 where
  pub locks : Shared Semaphore
  pub perform_reader : ℤ

-- The places of Solution 1, of which `reading` stands before the load, and two more: before the
-- store, with the value loaded, and before `LeaveCriticalSection_Reader`.
pub data ReaderPlace : Type 0 where
  protocol_at : Place → ReaderPlace
  reader_loaded : ℤ → ReaderPlace
  reader_counted : ReaderPlace

module _ (sem : Semaphores) where
  open sem use {Semaphore}

  -- A step of Solution 1 beside the counter.
  abbrev pub lock_step : Counting Semaphore → Place → Option (Counting Semaphore × ReaderPlace)
  lock_step c q = Option.map (λ r. (record c { locks = r.0 }, protocol_at r.1)) (step sem c.locks q)

  unfoldable pub count_step :
      Counting Semaphore → ReaderPlace → Option (Counting Semaphore × ReaderPlace)
  count_step c (protocol_at reading) = some (c, reader_loaded c.perform_reader)
  count_step c (protocol_at q) = lock_step c q
  count_step c (reader_loaded v) = some (record c { perform_reader = inc32 v }, reader_counted)
  count_step c reader_counted = lock_step c reading

  abbrev pub reader_protocol : Protocol
  reader_protocol = record {
    Shared = Counting Semaphore;
    Place = ReaderPlace;
    initial = record { locks = initial sem; perform_reader = pos 0 };
    outside = protocol_at outside;
    begin = λ role. protocol_at (begin role);
    step = count_step;
  }

is_outside : ReaderPlace → Bool
is_outside (protocol_at outside) = true
is_outside _ = false

outside_of : (q : ReaderPlace) → is_outside q ≡ true → q ≡ protocol_at outside
unfolding is_outside
outside_of (protocol_at outside) h = refl
outside_of _ h = absurd (cc h)

-- Readers 0 and 1 enter, both load, and both store.
abbrev schedule : List Turn
schedule =
    starts 0 Role.reader ∷ turns 0 5
    ++ (starts 1 Role.reader ∷ turns 1 4 ++ (steps 0 ∷ steps 1 ∷ steps 0 ∷ steps 1 ∷ []))

-- The state after the schedule, with `k` threads more than the two.
abbrev after_schedule : ℕ → System (Counting ℕ) ReaderPlace
after_schedule k = record {
  shared = record {
    locks = record { semaphore_mutex = 1; semaphore_writer = 0; reader_count = pos 2 };
    perform_reader = pos 1;
  };
  threads = reader_counted ∷ reader_counted ∷ replicate k (protocol_at outside);
}

plays :
    (k : ℕ)
    → play
        (reader_protocol counting)
        is_outside
        (record {
          shared = record { locks = initial counting; perform_reader = pos 0 };
          threads = replicate (suc (suc k)) (protocol_at outside);
        })
        schedule
      ≡ some (after_schedule k)
unfolding play count_step step is_outside count_down add32
plays k = refl

-- With any number of threads from two on, a state can be reached in which two readers have executed
-- `PerformReader++`, whose first value was 0, and it is 1.
pub count_lost :
    (n : ℕ)
    → 2 ≤ n
    → (s : System (Counting ℕ) ReaderPlace) × Reach (reader_protocol counting) n s
      × (get_elem? s.threads 0 ≡ some reader_counted)
      × (get_elem? s.threads 1 ≡ some reader_counted)
      × (s.shared.perform_reader ≡ pos 1)
count_lost zero h = absurd (omega arith)
count_lost (suc zero) h = absurd (omega arith)
count_lost (suc (suc k)) h = (
  after_schedule k,
  play-Reach (reader_protocol counting) is_outside outside_of schedule _ start (plays k),
  refl,
  refl,
  refl,
)
