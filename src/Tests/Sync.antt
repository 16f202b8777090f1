-- ===== src/Tests/Sync.antt =====
-- The three solutions of lab2/KboardModule.c under concrete schedules of four threads.
use mathlib.Core.Option
use os_class.Common.{
  ℕ, ◌≡◌, refl, Bool, true, false, none, some, [], ◌∷◌, ◌++◌, pos, get_elem?, arith, add32,
  replicate,
}
use os_class.Lab2.Sync.System.{Role, System, Reach, start}
use os_class.Lab2.Sync.Schedule.{counting, count_down, starts, steps, turns, play, play-Reach}
use os_class.Lab2.Sync.Living.{Lives}
use os_class.Lab2.Sync.Solution1 as First
use os_class.Lab2.Sync.Switch.{counted}
use os_class.Lab2.Sync.Solution1.Inv.{reader_stage}
use os_class.Lab2.Sync.Solution1.Safety
use os_class.Lab2.Sync.Solution1.Progress
use os_class.Lab2.Sync.Solution1.Counter
use os_class.Lab2.Sync.Solution2 as Second
use os_class.Lab2.Sync.Solution2.Inv as SecondInv
use os_class.Lab2.Sync.Solution2.Safety as SecondSafety
use os_class.Lab2.Sync.Solution2.Progress as SecondProgress
use os_class.Lab2.Sync.Solution2.Gate
use os_class.Lab2.Sync.Solution3 as Third
use os_class.Lab2.Sync.Solution3.Inv.{Counts}
use os_class.Lab2.Sync.Solution3.Always
use os_class.Lab2.Sync.Solution3.Failure
use os_class.Lab2.Sync.Solution3.Waking
use os_class.Lab2.Sync.Solution3.Progress as ThirdProgress

-- Solution 1.
is_outside1 : First.Place → Bool
is_outside1 First.outside = true
is_outside1 _ = false

outside1 : (q : First.Place) → is_outside1 q ≡ true → q ≡ First.outside
unfolding is_outside1
outside1 First.outside h = refl
outside1 _ h = absurd (cc h)

-- Writer 0 writes, writer 1 waits for it, and so does reader 2, which holds the mutex.
abbrev writing_state : System (First.Shared ℕ) First.Place
writing_state = record {
  shared = record { semaphore_mutex = 0; semaphore_writer = 0; reader_count = pos 1 };
  threads = First.writing ∷ First.enter_writer ∷ First.reader_down_writer ∷ First.outside ∷ [];
}

writing_plays :
    play
      (First.protocol counting)
      is_outside1
      (record { shared = First.initial counting; threads = replicate 4 First.outside })
      (starts 0 Role.writer ∷ steps 0 ∷ starts 1 Role.writer ∷ starts 2 Role.reader ∷ turns 2 3)
    ≡ some writing_state
unfolding play First.step is_outside1 count_down add32
writing_plays = refl

writing_reached : Reach (First.protocol counting) 4 writing_state
writing_reached = play-Reach (First.protocol counting) is_outside1 outside1 _ _ start writing_plays

mutual_exclusion_example : ◌≡◌ {A = ℕ} 0 0
mutual_exclusion_example =
    Safety.mutual_exclusion counting (omega arith) writing_reached 0 0 refl refl refl

no_deadlock_example : Lives (First.protocol counting) writing_state.shared writing_state.threads
no_deadlock_example =
    Progress.no_deadlock counting (omega arith) writing_reached 2 refl (λ e. absurd (cc e))

-- Reader 0 reads, writer 1 waits, and reader 2 has counted itself.
abbrev sharing_state : System (First.Shared ℕ) First.Place
sharing_state = record {
  shared = record { semaphore_mutex = 0; semaphore_writer = 0; reader_count = pos 2 };
  threads = First.reading ∷ First.enter_writer ∷ First.reader_test_first ∷ First.outside ∷ [];
}

sharing_plays :
    play
      (First.protocol counting)
      is_outside1
      (record { shared = First.initial counting; threads = replicate 4 First.outside })
      (starts 0 Role.reader ∷ turns 0 5
        ++ (starts 1 Role.writer ∷ starts 2 Role.reader ∷ turns 2 2))
    ≡ some sharing_state
unfolding play First.step is_outside1 count_down add32
sharing_plays = refl

sharing_reached : Reach (First.protocol counting) 4 sharing_state
sharing_reached = play-Reach (First.protocol counting) is_outside1 outside1 _ _ start sharing_plays

readers_share_example :
    First.step counting sharing_state.shared First.reader_test_first
    ≡ some (sharing_state.shared, First.reader_entered)
readers_share_example = Progress.readers_share counting (omega arith) sharing_reached 0 2 refl refl

reader_count-counted_example :
    sharing_state.shared.reader_count ≡ pos (counted reader_stage sharing_state.threads)
reader_count-counted_example = Safety.reader_count-counted counting (omega arith) sharing_reached

count_lost_example :
    (s : System (Counter.Counting ℕ) Counter.ReaderPlace) × Reach
      (Counter.reader_protocol counting)
      4
      s
    × (get_elem? s.threads 0 ≡ some Counter.reader_counted)
    × (get_elem? s.threads 1 ≡ some Counter.reader_counted)
    × (s.shared.perform_reader ≡ pos 1)
count_lost_example = Counter.count_lost 4 (omega arith)

-- Solution 2.
is_outside2 : Second.Place → Bool
is_outside2 Second.outside = true
is_outside2 _ = false

outside2 : (q : Second.Place) → is_outside2 q ≡ true → q ≡ Second.outside
unfolding is_outside2
outside2 Second.outside h = refl
outside2 _ h = absurd (cc h)

-- Writer 0 writes, writer 1 waits for it, and reader 2 is held up before its first statement.
abbrev priority_state : System (Second.Shared ℕ) Second.Place
priority_state = record {
  shared = record {
    semaphore_writer_mutex = 1;
    semaphore_reader_mutex = 1;
    semaphore_writer = 0;
    semaphore_reader = 0;
    writer_count = pos 2;
    reader_count = pos 0;
  };
  threads = Second.writing ∷ Second.writer_down_writer ∷ Second.enter_reader ∷ Second.outside ∷ [];
}

priority_plays :
    play
      (Second.protocol counting)
      is_outside2
      (record { shared = Second.initial counting; threads = replicate 4 Second.outside })
      (starts 0 Role.writer ∷ turns 0 6
        ++ (starts 1 Role.writer ∷ turns 1 4 ++ (starts 2 Role.reader ∷ [])))
    ≡ some priority_state
unfolding play Second.step is_outside2 count_down add32
priority_plays = refl

priority_reached : Reach (Second.protocol counting) 4 priority_state
priority_reached =
    play-Reach (Second.protocol counting) is_outside2 outside2 _ _ start priority_plays

writer_excludes_example : ◌≡◌ {A = ℕ} 0 0
writer_excludes_example =
    SecondSafety.writer_excludes counting (omega arith) priority_reached 0 0 refl refl refl

reader_sleeps : Second.step counting priority_state.shared Second.enter_reader ≡ none
unfolding Second.step count_down
reader_sleeps = refl

writers_first_example : Second.step counting priority_state.shared Second.enter_reader ≡ none
writers_first_example =
    SecondSafety.writers_first counting (omega arith) priority_reached 1 refl refl

held_up_example :
    (i : ℕ) × (p : Second.Place) × (get_elem? priority_state.threads i ≡ some p) × Gate.HoldsUp p
held_up_example = Gate.held_up counting (omega arith) priority_reached reader_sleeps

-- Writer 0 has counted itself and stands before `down(&SemaphoreReader)`; a reader still passes.
reader_passes_first :
    Option.map
      (λ s. Second.step counting s.shared Second.enter_reader)
      (play
        (Second.protocol counting)
        is_outside2
        (record { shared = Second.initial counting; threads = replicate 2 Second.outside })
        (starts 0 Role.writer ∷ turns 0 3))
    ≡ some (
        some (
          record {
            semaphore_writer_mutex = 0;
            semaphore_reader_mutex = 1;
            semaphore_writer = 1;
            semaphore_reader = 0;
            writer_count = pos 1;
            reader_count = pos 0;
          },
          Second.reader_passing,
        ))
unfolding play Second.step is_outside2 count_down add32
reader_passes_first = refl

never_stuck_example : Lives (Second.protocol counting) priority_state.shared priority_state.threads
never_stuck_example =
    SecondProgress.never_stuck counting (omega arith) priority_reached 2 refl (λ e. absurd (cc e))

both_counted_example :
    (priority_state.shared.writer_count
      ≡ pos (counted SecondInv.writer_stage priority_state.threads))
    × (priority_state.shared.reader_count
        ≡ pos (counted SecondInv.reader_stage priority_state.threads))
both_counted_example = SecondSafety.both_counted counting (omega arith) priority_reached

-- Solution 3.
is_outside3 : Third.Place → Bool
is_outside3 Third.outside = true
is_outside3 _ = false

outside3 : (q : Third.Place) → is_outside3 q ≡ true → q ≡ Third.outside
unfolding is_outside3
outside3 Third.outside h = refl
outside3 _ h = absurd (cc h)

-- Writer 0 writes, reader 1 waits for it, and writer 2 is about to wait.
abbrev waiting_state : System (Third.Shared ℕ) Third.Place
waiting_state = record {
  shared = record {
    semaphore_mutex = 0;
    semaphore_writer = 0;
    semaphore_reader = 0;
    writer_count = pos 1;
    reader_count = pos 0;
    writer_waiting_count = pos 0;
    reader_waiting_count = pos 1;
  };
  threads = Third.writing ∷ Third.reader_wait ∷ Third.writer_wait_increment ∷ Third.outside ∷ [];
}

waiting_plays :
    play
      (Third.protocol counting)
      is_outside3
      (record { shared = Third.initial counting; threads = replicate 4 Third.outside })
      (starts 0 Role.writer ∷ turns 0 4
        ++ (starts 1 Role.reader ∷ turns 1 4 ++ (starts 2 Role.writer ∷ turns 2 2)))
    ≡ some waiting_state
unfolding play Third.step is_outside3 count_down add32
waiting_plays = refl

waiting_reached : Reach (Third.protocol counting) 4 waiting_state
waiting_reached = play-Reach (Third.protocol counting) is_outside3 outside3 _ _ start waiting_plays

Counts-exact_example : Counts waiting_state.shared waiting_state.threads
Counts-exact_example = Always.Counts-exact counting (omega arith) waiting_reached

mutex_exclusive_example : ◌≡◌ {A = ℕ} 2 2
mutex_exclusive_example =
    Always.mutex_exclusive counting (omega arith) waiting_reached 2 2 refl refl refl refl

exclusion_fails_example :
    (s : System (Third.Shared ℕ) Third.Place) × Reach (Third.protocol counting) 4 s
    × (get_elem? s.threads 2 ≡ some Third.reading)
    × (get_elem? s.threads 3 ≡ some Third.writing)
exclusion_fails_example = Failure.exclusion_fails 4 (omega arith)

-- Three readers wait.
never_deadlocks_example : Lives (Third.protocol counting) waiting_state.shared waiting_state.threads
never_deadlocks_example =
    ThirdProgress.never_deadlocks counting (omega arith) waiting_reached 1 refl (λ e. absurd (cc e))

abbrev leaving : Third.Shared ℕ
leaving = record {
  semaphore_mutex = 0;
  semaphore_writer = 0;
  semaphore_reader = 0;
  writer_count = pos 0;
  reader_count = pos 0;
  writer_waiting_count = pos 1;
  reader_waiting_count = pos 3;
}

wakes_all_example : Waking.Woke counting leaving 5 (pos 0) 3
wakes_all_example = Waking.wakes_all counting 3 leaving refl (omega arith)
