-- ===== src/Lab2/Sync/Solution3/Failure.antt =====
-- Solution 3: a schedule with readers that were woken and have not yet entered, which `ReaderCount`
-- does not count.
use os_class.Common.{
  ℕ, zero, suc, add32, pos, ◌≤◌, ◌≡◌, refl, Bool, true, false, some, List, ◌∷◌, ◌++◌, get_elem?,
  arith, replicate,
}
use os_class.Lab2.Sync.System.{Role, System, Reach, start}
use os_class.Lab2.Sync.Schedule.{count_down, counting, Turn, starts, turns, play, play-Reach}
use os_class.Lab2.Sync.Solution3.{Shared, Place, outside, writing, reading, initial, step, protocol}

is_outside : Place → Bool
is_outside outside = true
is_outside _ = false

outside_of : (q : Place) → is_outside q ≡ true → q ≡ outside
unfolding is_outside
outside_of outside h = refl
outside_of _ h = absurd (cc h)

-- Writer 0 is in the critical section when readers 1 and 2 and writer 3 arrive and wait. It leaves and
-- wakes both readers; reader 1 reads and leaves, and wakes writer 3; reader 2 goes on.
abbrev schedule : List Turn
schedule =
    starts 0 Role.writer ∷ turns 0 4
    ++ (starts 1 Role.reader ∷ turns 1 4
        ++ (starts 2 Role.reader ∷ turns 2 4
            ++ (starts 3 Role.writer ∷ turns 3 4
                ++ (turns 0 7 ++ (turns 1 10 ++ (turns 3 5 ++ turns 2 5))))))

-- The state after the schedule, with `k` threads more than the four.
abbrev after_schedule : ℕ → System (Shared ℕ) Place
after_schedule k = record {
  shared = record {
    semaphore_mutex = 1;
    semaphore_writer = 0;
    semaphore_reader = 0;
    writer_count = pos 1;
    reader_count = pos 1;
    writer_waiting_count = pos 0;
    reader_waiting_count = pos 0;
  };
  threads = outside ∷ outside ∷ reading ∷ writing ∷ replicate k outside;
}

plays :
    (k : ℕ)
    → play
        (protocol counting)
        is_outside
        (record {
          shared = initial counting;
          threads = replicate (suc (suc (suc (suc k)))) outside;
        })
        schedule
      ≡ some (after_schedule k)
unfolding play step is_outside count_down add32
plays k = refl

-- With any number of threads from four on, a state can be reached in which a writer and a reader are
-- in the critical section together.
pub exclusion_fails :
    (n : ℕ)
    → 4 ≤ n
    → (s : System (Shared ℕ) Place) × Reach (protocol counting) n s
      × (get_elem? s.threads 2 ≡ some reading)
      × (get_elem? s.threads 3 ≡ some writing)
exclusion_fails zero h = absurd (omega arith)
exclusion_fails (suc zero) h = absurd (omega arith)
exclusion_fails (suc (suc zero)) h = absurd (omega arith)
exclusion_fails (suc (suc (suc zero))) h = absurd (omega arith)
exclusion_fails (suc (suc (suc (suc k)))) h = (
  after_schedule k,
  play-Reach (protocol counting) is_outside outside_of schedule _ start (plays k),
  refl,
  refl,
)
