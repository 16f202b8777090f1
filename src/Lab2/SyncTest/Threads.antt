-- ===== src/Lab2/SyncTest/Threads.antt =====
-- How many threads SyncTest.c creates of each kind, and which ids it joins.
use Prim.Native.Nat.{◌/◌, ◌-◌}
use os_class.Common.{
  ℕ, zero, suc, ◌+◌, ◌<◌, ◌≤◌, ◌^◌, ◌≡◌, refl, sym, ◌∙◌, some, List, ℤ, pos, done, fault, length,
  length-set, get_or, set, get_elem?-eq-get_or, get_or-set_self, get_or-set_ne, inc32-pos, write_at,
  arith, ℕ_discrete,
}
use os_class.Common.Int.{sub32-pos}
use os_class.Lab1.User.Atoi.{atoi}
use os_class.Lab2.SyncTest.{
  Routine, writer_enqueue, writer_dequeue, reader, numbers, Pthreads, create_threads, join_threads,
  run_threads,
}

-- An `int` of at least 0 as the number of writers is split into the two kinds of writers, with at most
-- one more that dequeues.
pub numbers_lem :
    (writers readers : List ℕ) (n : ℕ)
    → atoi writers ≡ pos n
    → n < 2 ^ 31
    → (a : ℕ) × (b : ℕ) × ((numbers writers readers).writer_enqueue_number ≡ pos a)
      × ((numbers writers readers).writer_dequeue_number ≡ pos b)
      × (a + b ≡ n)
      × (a ≤ b)
      × (b ≤ a + 1)
numbers_lem writers readers n e small = (
  n / 2,
  n - n / 2,
  rw e,
  rw e (sub32-pos n (n / 2) (omega arith) small),
  omega arith,
  omega arith,
  omega arith,
)

module _ (threads : Pthreads) where
  open threads use {Process, pthread_create, pthread_join}

  -- The first `k` slots hold 0.
  abbrev AreZero : ℕ → List ℤ → Type 0
  AreZero k ids = (j : ℕ) → j < k → get_or ids j (pos 1) ≡ pos 0

  written :
      (ids : List ℤ) (i : ℕ) (v : ℤ) → i < length ids → write_at ids (pos i) v ≡ some (set ids i v)
  written ids i v h = ground arith

  long : (ids : List ℤ) (i : ℕ) (v w : ℤ) → length (set (set ids i v) i w) ≡ length ids
  long ids i v w = length-set (set ids i v) i w ∙ length-set ids i v

  zeros_after :
      (ids : List ℤ) (i : ℕ) (id : ℤ) {result : ℤ}
      → i < length ids
      → result ≡ pos 0
      → AreZero i ids
      → AreZero (i + 1) (set (set ids i id) i result)
  zeros_after ids i id {result} h e zeros j small = elim (ℕ_discrete i j) [
    | yes same ↦
        rw (sym same)
          (get_or-set_self (set ids i id) i result (pos 1) (omega (arith, length-set ids i id)) ∙ e)
    | no other ↦
        get_or-set_ne (set ids i id) result (pos 1) other
        ∙ get_or-set_ne ids id (pos 1) other
        ∙ zeros j (omega (arith, other))
  ]

  module _ (succeeds : (r : Routine) (p : Process) → (pthread_create r p).0 ≡ pos 0) where
    create_zero :
        (routine : Routine) (rounds i : ℕ) (ids : List ℤ) (p : Process)
        → length ids ≡ i + rounds
        → i + rounds < 2 ^ 31
        → AreZero i ids
        → (ids' : List ℤ) × (p' : Process) × (create_threads threads routine rounds (pos i) ids p
            ≡ done (ids', p'))
          × (length ids' ≡ length ids)
          × AreZero (i + rounds) ids'
    unfolding create_threads
    create_zero routine zero i ids p size few zeros =
        (ids, p, refl, refl, λ j h. zeros j (omega arith))
    create_zero routine (suc rounds) i ids p size few zeros =
        let (result, id, p') = pthread_create routine p in
        let stored = set ids i id in
        let assigned = set stored i result in
        let (ids', p'', runs, same, all) =
          create_zero routine rounds (i + 1) assigned p' (omega (arith, size, long ids i id result))
            (omega arith) (zeros_after ids i id (omega (arith, size)) (succeeds routine p) zeros) in
        (
          ids',
          p'',
          rw (
            written ids i id (omega (arith, size)),
            written stored i result (omega (arith, size, length-set ids i id)),
            inc32-pos i (omega arith),
            runs,
          ),
          same ∙ long ids i id result,
          λ j h. all j (omega arith),
        )

    -- If every creation succeeds, a creation loop returns, and leaves the result 0 in every slot, whatever
    -- ids the threads have.
    pub create_threads_lem :
        (routine : Routine) (n : ℕ) (ids : List ℤ) (p : Process)
        → length ids ≡ n
        → n < 2 ^ 31
        → (ids' : List ℤ) × (p' : Process) × (create_threads threads routine n (pos 0) ids p
            ≡ done (ids', p'))
          × (length ids' ≡ n)
          × AreZero n ids'
    create_threads_lem routine n ids p size few =
        let (ids', p', runs, same, all) =
          create_zero routine n 0 ids p (omega (arith, size)) (omega arith)
            (λ j h. absurd (omega arith)) in
        (ids', p', runs, same ∙ size, λ j h. all j (omega arith))

    join_zero_fails :
        (rounds : ℕ) (ids : List ℤ) (p : Process)
        → ((q : Process) → pthread_join (pos 0) q ≡ fault)
        → length ids ≡ suc rounds
        → AreZero (suc rounds) ids
        → join_threads threads (suc rounds) (pos 0) ids p ≡ fault
    unfolding join_threads
    join_zero_fails rounds ids p no_thread size zeros = rw (
      get_elem?-eq-get_or ids 0 (pos 1) (omega (arith, size)),
      zeros 0 (omega arith),
      no_thread p,
    )

    -- If every creation succeeds and a join of the id 0 is an error, the program makes that error, for
    -- any numbers of threads below 2^31 with at least one that enqueues.
    pub run_threads_fails :
        (a b c : ℕ) (enqueue_ids dequeue_ids reader_ids : List ℤ) (p : Process)
        → ((q : Process) → pthread_join (pos 0) q ≡ fault)
        → suc a < 2 ^ 31
        → b < 2 ^ 31
        → c < 2 ^ 31
        → length enqueue_ids ≡ suc a
        → length dequeue_ids ≡ b
        → length reader_ids ≡ c
        → run_threads threads
            (record {
              writer_enqueue_number = pos (suc a);
              writer_dequeue_number = pos b;
              reader_number = pos c;
            })
            enqueue_ids
            dequeue_ids
            reader_ids
            p
          ≡ fault
    unfolding run_threads
    run_threads_fails a b c enqueue_ids dequeue_ids reader_ids p no_thread ha hb hc la lb lc =
        let (e, p₁, made, length_e, zeros) =
          create_threads_lem writer_enqueue (suc a) enqueue_ids p la ha in
        let (d, p₂, made₂, _, _) = create_threads_lem writer_dequeue b dequeue_ids p₁ lb hb in
        let (r, p₃, made₃, _, _) = create_threads_lem reader c reader_ids p₂ lc hc in
        rw (made, made₂, made₃, join_zero_fails a e p₃ no_thread length_e zeros)
