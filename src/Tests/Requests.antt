-- ===== src/Tests/Requests.antt =====
-- Requests to the module of lab2 and the threads of lab2/SyncTest.c on concrete inputs.
use os_class.Common.{
  ℕ, ◌<◌, ◌^◌, length, replicate, length-replicate, pos_part, suc, ◌+◌, ◌≡◌, ◌≤◌, refl, List, [],
  ◌∷◌, ℤ, pos, negsuc, true, false, Outcome, done, blocked, fault, All, arith,
}
use os_class.Common.Int.{wrap32}
use os_class.Lab1.User.Atoi.{atoi}
use os_class.Lab2.Kboard.{Board}
use os_class.Lab2.Kboard.Valid.{clips, IsValid, fresh_board, fresh_board-IsValid}
use os_class.Lab2.Sync.Solution1.{Shared}
use os_class.Lab2.Proc.{writer_show, reader_show, counter_show, dumper_show}
use os_class.Lab2.Requests.{Reply, Request, write, read, respond_all, Trace}
use os_class.Lab2.Requests.Session
use os_class.Lab2.Requests.Alike
use os_class.Lab2.Kboard.Bare.{bare}
use os_class.Lab2.Sync.Schedule.{counting}
use os_class.Lab2.Sync.Solution3 as Third
use os_class.Lab2.Sync.Solution3.Section.{critical_section, initial-IsQuiet}
use os_class.Lab2.SyncTest.{writer_enqueue, writer_dequeue, reader, numbers, Pthreads, main, echoed}
use os_class.Lab2.SyncTest.Threads
use os_class.Lab2.SyncTest.Main
use os_class.Lab2.SyncTest.Clips
use os_class.Tests.Kboard.{
  section, process, three_clips, three_clips-IsValid, sixty, stale, scan-echoed,
}

abbrev some_requests : List (Request process)
some_requests =
    write sixty true 3 stale
    ∷ read counter_show 0
    ∷ read writer_show 0
    ∷ read reader_show 13
    ∷ write sixty false 3 stale
    ∷ read dumper_show 0
    ∷ []

session_refines_example :
    (replies : List Reply) × (b' : Board (Shared ℕ)) × (respond_all section process 1 some_requests
        three_clips
      ≡ done (replies, b'))
    × IsValid section b'
    × Trace section process 1 (clips three_clips) some_requests replies (clips b')
session_refines_example =
    Session.session_refines section process 1 some_requests three_clips three_clips-IsValid

-- The same clips under Solution 3.
abbrev fair_clips : Board (Third.Shared ℕ)
fair_clips = record {
  lock = Third.initial counting;
  ring_buffer = three_clips.ring_buffer;
  ring_buffer_count = three_clips.ring_buffer_count;
  ring_buffer_current_index = three_clips.ring_buffer_current_index;
  perform_writer = three_clips.perform_writer;
  perform_reader = three_clips.perform_reader;
}

solutions_alike_example :
    (replies : List Reply) × (b' : Board (Shared ℕ)) × (c' : Board (Third.Shared ℕ)) × (respond_all
        section process 1 some_requests three_clips
      ≡ done (replies, b'))
    × (respond_all (critical_section counting) process 1 some_requests fair_clips
        ≡ done (replies, c'))
    × (bare b' ≡ bare c')
solutions_alike_example =
    Alike.solutions_alike process 1 section (critical_section counting) some_requests three_clips
      fair_clips three_clips-IsValid (initial-IsQuiet counting) refl

-- Seven writers and two readers.
seven : atoi (b'7' ∷ []) ≡ pos 7
unfolding atoi wrap32
seven = refl

numbers_lem_example :
    (a : ℕ) × (b : ℕ) × ((numbers (b'7' ∷ []) (b'2' ∷ [])).writer_enqueue_number ≡ pos a)
    × ((numbers (b'7' ∷ []) (b'2' ∷ [])).writer_dequeue_number ≡ pos b)
    × (a + b ≡ 7)
    × (a ≤ b)
    × (b ≤ a + 1)
numbers_lem_example = Threads.numbers_lem (b'7' ∷ []) (b'2' ∷ []) 7 seven (omega arith)

two : atoi (b'2' ∷ []) ≡ pos 2
unfolding atoi wrap32
two = refl

-- Threads are numbered from 1 on and never end, so that a join of one waits for ever.
join : ℤ → ℕ → Outcome ℕ
join (pos (suc n)) p = blocked
join _ p = fault

abbrev thread_library : Pthreads
thread_library = record {
  Process = ℕ;
  pthread_create = λ r p. (pos 0, pos (suc p), suc p);
  pthread_join = join;
  malloc_ids = λ number p. (replicate (pos_part number) (pos 0), p);
  usleep = λ duration p. p;
}

join_zero : (p : ℕ) → join (pos 0) p ≡ fault
unfolding join
join_zero p = refl

allocated : (k : ℕ) (p : ℕ) → k < 2 ^ 31 → length (replicate k (pos 0)) ≡ k
allocated k p small = length-replicate k (pos 0)

-- `SyncTest 7 2 9`
main_fails_example :
    main thread_library ((b'S' ∷ []) ∷ (b'7' ∷ []) ∷ (b'2' ∷ []) ∷ (b'9' ∷ []) ∷ []) 0 ≡ fault
main_fails_example =
    Main.main_fails thread_library (b'S' ∷ []) (b'7' ∷ []) (b'2' ∷ []) (b'9' ∷ []) [] 7 2 0
      (λ r p. refl) join_zero allocated seven two (omega arith) (omega arith) (omega arith)

-- Without a duration the program prints how to call it.
usage :
    main thread_library ((b'S' ∷ []) ∷ (b'7' ∷ []) ∷ (b'2' ∷ []) ∷ []) 0 ≡ done (negsuc 0, true, 0)
unfolding main
usage = refl

abbrev empty : Board (Shared ℕ)
empty = fresh_board section section.initial_lock

abbrev rounds : List Clips.Round
rounds =
    record { stale = stale; random = 3; routine = writer_enqueue }
    ∷ record { stale = []; random = 4; routine = reader }
    ∷ record { stale = []; random = 0; routine = writer_dequeue }
    ∷ []

sync_test-AllSeven_example :
    (replies : List Reply) × (b' : Board (Shared ℕ)) × (respond_all section process 1
        (Clips.requests section process 1 echoed true rounds)
        empty
      ≡ done (replies, b'))
    × IsValid section b'
    × Clips.AllSeven (clips b')
    × All Clips.IsSeven replies
sync_test-AllSeven_example =
    Clips.sync_test-AllSeven section process 1 echoed true refl scan-echoed rounds empty
      (fresh_board-IsValid section section.initial_lock section.initial_lock-IsQuiet) tt
