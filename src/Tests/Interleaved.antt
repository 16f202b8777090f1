-- ===== src/Tests/Interleaved.antt =====
-- Handlers of lab2/KboardModule.c interleaved by concrete schedules.
use os_class.Common.{
  ℕ, zero, suc, blocked, ◌⊎◌, false, ◌≡◌, refl, some, List, [], ◌∷◌, ◌++◌, ℤ, pos, arith, add32,
  replicate, done,
}
use os_class.Ring.{init_value, IsRing, IsClean, contents}
use os_class.Lab2.Kboard.{Board}
use os_class.Lab2.Sync.Schedule.{counting, count_down}
use os_class.Lab2.Sync.Solution1.{Shared, Place, enter_reader, enter_writer, protocol, step}
use os_class.Lab2.Sync.Solution3 as Third
use os_class.Lab2.Sync.System.{carry}
use os_class.Lab2.Interleaved.{
  Task, insert, look, remove, idle, locking, leaving, remove_reset, task_step, lock_step, Module,
  Runs, begins, initial_board,
}
use os_class.Lab2.Interleaved.History.{Event, replay, added, looked}
use os_class.Lab2.Interleaved.Solutions.{first_sections, first-Excludes, third_sections}
use os_class.Lab2.Interleaved.Schedule.{Turn, calls, go_on, play, play-Runs}
use os_class.Lab2.Interleaved.Bodies.{is_inside}
use os_class.Lab2.Interleaved.Excludes.{is_busy}
use os_class.Lab2.Interleaved.Current.{IsFree}
use os_class.Lab2.Interleaved.Safety
use os_class.Lab2.Interleaved.Lost

-- Writer 0 adds the clip 7, reader 1 looks at the slot 1 while the removal 2 waits, and thread 0 is
-- about to look.
abbrev before : List Turn
before =
    calls 0 (insert (pos 7)) refl ∷ go_on 0 6
    ++ (calls 1 (look 6) refl ∷ go_on 1 6
        ++ (calls 2 remove refl ∷ calls 0 (look 0) refl ∷ go_on 1 2))

abbrev start_state : Module (protocol counting) (first_sections counting)
start_state = record {
  board = initial_board (protocol counting) (first_sections counting);
  tasks = replicate 3 idle;
  history = [];
}

abbrev shared_state : Module (protocol counting) (first_sections counting)
shared_state = record {
  board = record {
    lock = record { semaphore_mutex = 1; semaphore_writer = 0; reader_count = pos 1 };
    ring_buffer = pos 7 ∷ replicate 4 init_value;
    ring_buffer_count = pos 1;
    ring_buffer_current_index = pos 0;
    perform_writer = pos 1;
    perform_reader = pos 1;
  };
  tasks = locking (look 0) enter_reader ∷ leaving (look 6) ∷ locking remove enter_writer ∷ [];
  history = looked init_value ∷ added (pos 7) ∷ [];
}

shared_plays :
    play (protocol counting) (first_sections counting) start_state before ≡ some shared_state
unfolding play step count_down add32 task_step lock_step
shared_plays = refl

shared-Runs : Runs (protocol counting) (first_sections counting) 3 shared_state
shared-Runs = play-Runs (protocol counting) (first_sections counting) before _ begins shared_plays

history_legal_example : (q : List ℤ) × (replay shared_state.history [] ≡ some q)
history_legal_example =
    Safety.history_legal (protocol counting) (first_sections counting) (first-Excludes counting)
      (omega arith) shared-Runs

shared-IsFree : IsFree (protocol counting) (first_sections counting) shared_state.tasks
shared-IsFree zero t h = carry (λ u. is_busy u ≡ false) h refl
shared-IsFree (suc zero) t h = carry (λ u. is_busy u ≡ false) h refl
shared-IsFree (suc (suc zero)) t h = carry (λ u. is_busy u ≡ false) h refl
shared-IsFree (suc (suc (suc i))) t h = absurd (cc h)

board_current_example :
    IsRing (pos 7 ∷ replicate 4 init_value) (pos 0) (pos 1)
    × IsClean (pos 7 ∷ replicate 4 init_value) (pos 0) (pos 1)
    × (replay (looked init_value ∷ added (pos 7) ∷ []) [] ≡ some (pos 7 ∷ []))
board_current_example =
    Safety.board_current (protocol counting) (first_sections counting) (first-Excludes counting)
      (omega arith) shared-Runs shared-IsFree

-- The reader has left, and the removal has read its clip and not yet reset the slot.
abbrev removing_state : Module (protocol counting) (first_sections counting)
removing_state = record shared_state {
  board = record shared_state.board {
    lock = record { semaphore_mutex = 1; semaphore_writer = 0; reader_count = pos 0 };
    perform_writer = pos 2;
  };
  tasks = locking (look 0) enter_reader ∷ idle ∷ remove_reset (pos 7) ∷ [];
}

removing_plays :
    play (protocol counting) (first_sections counting) shared_state (go_on 1 5 ++ go_on 2 4)
    ≡ some removing_state
unfolding play step count_down add32 task_step lock_step
removing_plays = refl

removing-Runs : Runs (protocol counting) (first_sections counting) 3 removing_state
removing-Runs =
    play-Runs (protocol counting) (first_sections counting) (go_on 1 5 ++ go_on 2 4) _ shared-Runs
      removing_plays

statement_completes_example :
    ((y : Board (Shared ℕ) × Task Place × List Event) × (task_step
          (protocol counting)
          (first_sections counting)
          removing_state.board
          (remove_reset (pos 7))
        ≡ done y))
    ⊎ ((task_step
            (protocol counting)
            (first_sections counting)
            removing_state.board
            (remove_reset (pos 7))
          ≡ blocked)
        × (is_inside {P = Place} (remove_reset (pos 7)) ≡ false))
statement_completes_example =
    Safety.statement_completes (protocol counting) (first_sections counting)
      (first-Excludes counting) (omega arith) removing-Runs 2 refl

clip_lost_example :
    (s : Module (Third.protocol counting) (third_sections counting)) × Runs
      (Third.protocol counting)
      (third_sections counting)
      6
      s
    × (s.tasks ≡ replicate 6 idle)
    × (s.history
        ≡ added (pos 12) ∷ added (pos 11) ∷ looked (pos 10) ∷ looked (pos 10) ∷ added (pos 10) ∷ [])
    × (replay s.history [] ≡ some (pos 10 ∷ pos 11 ∷ pos 12 ∷ []))
    × (contents s.board.ring_buffer s.board.ring_buffer_current_index s.board.ring_buffer_count
        ≡ pos 10 ∷ pos 12 ∷ init_value ∷ [])
clip_lost_example = Lost.clip_lost 6 (omega arith) 10 11 12
