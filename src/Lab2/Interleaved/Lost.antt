-- ===== src/Lab2/Interleaved/Lost.antt =====
-- Solution 3 of lab2/KboardModule.c: a schedule of the handlers in which two writers store into the
-- same slot.
use os_class.Common.{
  ℕ, suc, add32, pos, ◌≤◌, ◌≡◌, refl, inr, true, some, List, [], ◌∷◌, ◌++◌, arith, replicate,
}
use os_class.Ring.{init_value, contents}
use os_class.Fifo
use os_class.Lab2.Sync.Schedule.{count_down, counting}
use os_class.Lab2.Sync.Solution3.{initial, step, protocol}
use os_class.Lab2.Interleaved.{
  insert, look, is_accepted, Module, initial_board, idle, task_step, lock_step, Runs, begins,
}
use os_class.Lab2.Interleaved.History.{apply, apply-looked, replay-append, replay, added, looked}
use os_class.Lab2.Interleaved.Solutions.{third_sections}
use os_class.Lab2.Interleaved.Schedule.{Turn, calls, go_on, play, play-Runs}

-- A number of ℕ is accepted.
pub is_accepted-pos : (a : ℕ) → is_accepted (insert (pos a)) ≡ true
is_accepted-pos a = ground arith

-- Writer 0 is in the critical section when readers 1 and 2 and writers 3 and 4 arrive and wait. It
-- leaves and wakes both readers; each of them looks, leaves and wakes a writer; the two writers store
-- before either of them counts.
abbrev schedule : ℕ → ℕ → ℕ → List Turn
schedule a b c =
    calls 0 (insert (pos a)) (is_accepted-pos a) ∷ go_on 0 4
    ++ (calls 1 (look 0) refl ∷ go_on 1 4
        ++ (calls 2 (look 0) refl ∷ go_on 2 4
            ++ (calls 3 (insert (pos b)) (is_accepted-pos b) ∷ go_on 3 4
                ++ (calls 4 (insert (pos c)) (is_accepted-pos c) ∷ go_on 4 4
                    ++ (go_on 0 11
                        ++ (go_on 1 13
                            ++ (go_on 2 13
                                ++ (go_on 3 5
                                    ++ (go_on 4 5
                                        ++ (go_on 3 3
                                            ++ (go_on 4 3 ++ (go_on 3 5 ++ go_on 4 5))))))))))))

abbrev start_state : ℕ → Module (protocol counting) (third_sections counting)
start_state n = record {
  board = initial_board (protocol counting) (third_sections counting);
  tasks = replicate n idle;
  history = [];
}

abbrev after_schedule : ℕ → ℕ → ℕ → ℕ → Module (protocol counting) (third_sections counting)
after_schedule k a b c = record {
  board = record {
    lock = initial counting;
    ring_buffer = pos a ∷ pos c ∷ replicate 3 init_value;
    ring_buffer_count = pos 3;
    ring_buffer_current_index = pos 0;
    perform_writer = pos 3;
    perform_reader = pos 2;
  };
  tasks = replicate (suc (suc (suc (suc (suc k))))) idle;
  history = added (pos c) ∷ added (pos b) ∷ looked (pos a) ∷ looked (pos a) ∷ added (pos a) ∷ [];
}

plays :
    (k a b c : ℕ)
    → play
        (protocol counting)
        (third_sections counting)
        (start_state (suc (suc (suc (suc (suc k))))))
        (schedule a b c)
      ≡ some (after_schedule k a b c)
unfolding play step count_down add32 task_step lock_step
plays k a b c = refl

replayed :
    (k a b c : ℕ) → replay (after_schedule k a b c).history [] ≡ some (pos a ∷ pos b ∷ pos c ∷ [])
unfolding Fifo.offer
replayed k a b c =
    replay-append (added (pos c) ∷ added (pos b) ∷ [])
      (looked (pos a) ∷ looked (pos a) ∷ added (pos a) ∷ []) []
      (replay-append (looked (pos a) ∷ looked (pos a) ∷ []) (added (pos a) ∷ []) [] refl
        (replay-append (looked (pos a) ∷ []) (looked (pos a) ∷ []) (pos a ∷ []) seen seen))
      refl
  where
    seen : apply (looked (pos a)) (pos a ∷ []) ≡ some (pos a ∷ [])
    seen = apply-looked (pos a) (pos a ∷ []) (inr (0, refl))

-- In Solution 3, with any number of threads from five on and any three clips of at least 0, a state
-- can be reached in which no thread is in a handler, the handlers have added the three clips in turn
-- and looked at the first one twice after it was added, and nothing else, so that a queue would hold
-- the three clips; but the ring holds the first, the third and the initial value.
pub clip_lost :
    (n : ℕ)
    → 5 ≤ n
    → (a b c : ℕ)
    → (s : Module (protocol counting) (third_sections counting)) × Runs
        (protocol counting)
        (third_sections counting)
        n
        s
      × (s.tasks ≡ replicate n idle)
      × (s.history
          ≡ added (pos c) ∷ added (pos b) ∷ looked (pos a) ∷ looked (pos a) ∷ added (pos a) ∷ [])
      × (replay s.history [] ≡ some (pos a ∷ pos b ∷ pos c ∷ []))
      × (contents s.board.ring_buffer s.board.ring_buffer_current_index s.board.ring_buffer_count
          ≡ pos a ∷ pos c ∷ init_value ∷ [])
clip_lost (suc (suc (suc (suc (suc k))))) h a b c = (
  after_schedule k a b c,
  play-Runs (protocol counting) (third_sections counting) (schedule a b c) _ begins (plays k a b c),
  refl,
  refl,
  replayed k a b c,
  refl,
)
clip_lost _ h a b c = absurd (omega arith)
