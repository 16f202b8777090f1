-- ===== src/Lab2/SyncTest.antt =====
-- lab2/SyncTest.c: the program that loads the module with threads of three kinds.
pub mod Threads
pub mod Main
pub mod Clips
use os_class.Common.{
  ℕ, zero, suc, ◌+◌, List, [], ◌∷◌, ℤ, pos, negsuc, Bool, true, false, Option, none, some, Outcome,
  done, ◌>>=◌, checked, write_at, read_at, inc32, add32, pos_part,
}
use os_class.Common.Int.{neg_ℕ, quot, sub32, mul32}
use os_class.Lab1.User.Atoi.{atoi}
use os_class.Lab2.Kboard.Api.{CriticalSection, UserText}
use os_class.Lab2.Proc.{Show, writer_show, reader_show}
use os_class.Lab2.Requests.{Request, write, read}

-- The three thread functions; each makes one request after the other, without end.
pub data Routine : Type 0 where
  writer_enqueue writer_dequeue reader : Routine

-- The bytes that `echo 777` writes.
abbrev pub echoed : List ℕ
echoed = b'7' ∷ b'7' ∷ b'7' ∷ 10 ∷ []

-- The numbers of threads of each kind, from the texts of the first two arguments.
pub record Numbers : Type 0 where
  pub writer_enqueue_number : ℤ
  pub writer_dequeue_number : ℤ
  pub reader_number : ℤ

abbrev pub numbers : List ℕ → List ℕ → Numbers
numbers writers readers = record {
  writer_enqueue_number = quot (atoi writers) 2;
  writer_dequeue_number = sub32 (atoi writers) (quot (atoi writers) 2);
  reader_number = atoi readers;
}

-- What the program uses of the C library: a creation gives its result, 0 on success, and the id
-- of the thread; a join is asked for an id.
pub record Pthreads : Type 1 where
  pub Process : Type 0
  pub pthread_create : Routine → Process → ℤ × ℤ × Process
  pub pthread_join : ℤ → Process → Outcome Process
  -- The slots of `malloc(sizeof(pthread_t) * number)`, with what they hold; none for NULL.
  pub malloc_ids : ℤ → Process → List ℤ × Process
  pub usleep : ℤ → Process → Process

module _ (threads : Pthreads) where
  open threads use {Process, pthread_create, pthread_join, malloc_ids, usleep}

  -- A creation loop, with the number of rounds left: the call stores the id in the slot, and the
  -- assignment stores the result of the call.
  unfoldable pub create_threads : Routine → ℕ → ℤ → List ℤ → Process → Outcome (List ℤ × Process)
  create_threads routine zero index ids p = done (ids, p)
  create_threads routine (suc rounds) index ids p =
      let (result, id, p') = pthread_create routine p in
      checked (write_at ids index id) >>= λ stored.
      checked (write_at stored index result) >>= λ assigned.
      create_threads routine rounds (inc32 index) assigned p'

  -- A join loop, with the number of rounds left.
  unfoldable pub join_threads : ℕ → ℤ → List ℤ → Process → Outcome Process
  join_threads zero index ids p = done p
  join_threads (suc rounds) index ids p = do
    id ← checked (read_at ids index)
    p' ← pthread_join id p
    join_threads rounds (inc32 index) ids p'

  -- The creations and the joins of `main`, with what the three arrays hold, and the value that it
  -- returns after its last wait.
  unfoldable pub run_threads : Numbers → List ℤ → List ℤ → List ℤ → Process → Outcome (ℤ × Process)
  run_threads n enqueue_ids dequeue_ids reader_ids p = do
    (enqueue_ids', p₁) ←
        create_threads writer_enqueue (pos_part n.writer_enqueue_number) (pos 0) enqueue_ids p
    (dequeue_ids', p₂) ←
        create_threads writer_dequeue (pos_part n.writer_dequeue_number) (pos 0) dequeue_ids p₁
    (reader_ids', p₃) ← create_threads reader (pos_part n.reader_number) (pos 0) reader_ids p₂
    p₄ ← join_threads (pos_part n.writer_enqueue_number) (pos 0) enqueue_ids' p₃
    p₅ ← join_threads (pos_part n.writer_dequeue_number) (pos 0) dequeue_ids' p₄
    p₆ ← join_threads (pos_part n.reader_number) (pos 0) reader_ids' p₅
    done (pos 0, p₆)

  -- `main` after its arguments: the value that it returns, and no text. The arrays are freed at the end.
  pub allocate_and_run : Numbers → ℤ → Process → Outcome (ℤ × Bool × Process)
  allocate_and_run n duration p = do
    let (enqueue_ids, p₁) = malloc_ids n.writer_enqueue_number p
    let (dequeue_ids, p₂) = malloc_ids n.writer_dequeue_number p₁
    let (reader_ids, p₃) = malloc_ids n.reader_number p₂
    (value, p₄) ← run_threads n enqueue_ids dequeue_ids reader_ids p₃
    done (value, false, usleep (mul32 (mul32 duration 1000) 1000) p₄)

  -- The value that `main` returns, and whether it prints how to call it. `argv` starts with the name of
  -- the program.
  unfoldable pub main : List (List ℕ) → Process → Outcome (ℤ × Bool × Process)
  main (program ∷ writers ∷ readers ∷ duration ∷ rest) p =
      allocate_and_run (numbers writers readers) (atoi duration) p
  main _ p = done (negsuc 0, true, p)

module _ (cs : CriticalSection) (t : UserText) (sync_solution : ℕ) where
  -- The request of one round of a thread: the text that `echo` writes stands at `user`; a random
  -- number is drawn by a reader.
  abbrev pub request : t.Mem → t.Ptr → List ℕ → ℕ → Routine → Request t
  request m user stale random writer_enqueue = write m user 4 stale
  request m user stale random writer_dequeue = read writer_show random
  request m user stale random reader = read reader_show random
