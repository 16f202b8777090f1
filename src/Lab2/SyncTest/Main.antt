-- ===== src/Lab2/SyncTest/Main.antt =====
-- The whole of SyncTest.c, from its arguments on.
use os_class.Common.{
  ℕ, suc, ◌-◌, ◌<◌, ◌≤◌, ◌^◌, ◌≡◌, ap, ap₂, ◌∙◌, List, ◌∷◌, ℤ, pos, fault, length, arith,
}
use os_class.Lab1.User.Atoi.{atoi}
use os_class.Lab2.SyncTest.{Routine, numbers, Pthreads, allocate_and_run, main}
use os_class.Lab2.SyncTest.Threads.{numbers_lem, run_threads_fails}

-- The numbers that `main` computes.
numbers-eq :
    (writers readers : List ℕ) (a b c : ℕ)
    → (numbers writers readers).writer_enqueue_number ≡ pos a
    → (numbers writers readers).writer_dequeue_number ≡ pos b
    → atoi readers ≡ pos c
    → numbers writers readers ≡ record {
      writer_enqueue_number = pos a;
      writer_dequeue_number = pos b;
      reader_number = pos c;
    }
numbers-eq writers readers a b c ea eb ec =
    ap₂
      (λ u v. record {
        writer_enqueue_number = u;
        writer_dequeue_number = v;
        reader_number = atoi readers;
      })
      ea eb
    ∙ ap
        (λ w. record {
          writer_enqueue_number = pos a;
          writer_dequeue_number = pos b;
          reader_number = w;
        })
        ec

module _ (threads : Pthreads) where
  open threads use {Process, pthread_create, pthread_join, malloc_ids}

  allocate_and_run-fails :
      (a b c : ℕ) (duration : ℤ) (p : Process)
      → ((r : Routine) (q : Process) → (pthread_create r q).0 ≡ pos 0)
      → ((q : Process) → pthread_join (pos 0) q ≡ fault)
      → ((k : ℕ) (q : Process) → k < 2 ^ 31 → length (malloc_ids (pos k) q).0 ≡ k)
      → suc a < 2 ^ 31
      → b < 2 ^ 31
      → c < 2 ^ 31
      → allocate_and_run threads
          (record {
            writer_enqueue_number = pos (suc a);
            writer_dequeue_number = pos b;
            reader_number = pos c;
          })
          duration
          p
        ≡ fault
  unfolding allocate_and_run
  allocate_and_run-fails a b c duration p succeeds no_thread allocates ha hb hc =
      let (first, p₁) = malloc_ids (pos (suc a)) p in
      let (second, p₂) = malloc_ids (pos b) p₁ in
      let (third, p₃) = malloc_ids (pos c) p₂ in
      rw (
        run_threads_fails threads succeeds a b c first second third p₃ no_thread ha hb hc
          (allocates (suc a) p ha) (allocates b p₁ hb) (allocates c p₂ hc))

  -- If every creation of a thread and every allocation succeed and a join of the id 0 is an error,
  -- SyncTest.c, called with a number of writers of at least 2 and below 2^31 and a number of
  -- readers of at least 0 and below 2^31, makes that error.
  pub main_fails :
      (program writers readers duration : List ℕ) (rest : List (List ℕ)) (n c : ℕ) (p : Process)
      → ((r : Routine) (q : Process) → (pthread_create r q).0 ≡ pos 0)
      → ((q : Process) → pthread_join (pos 0) q ≡ fault)
      → ((k : ℕ) (q : Process) → k < 2 ^ 31 → length (malloc_ids (pos k) q).0 ≡ k)
      → atoi writers ≡ pos n
      → atoi readers ≡ pos c
      → 2 ≤ n
      → n < 2 ^ 31
      → c < 2 ^ 31
      → main threads (program ∷ writers ∷ readers ∷ duration ∷ rest) p ≡ fault
  unfolding main
  main_fails program writers readers duration rest n c p succeeds no_thread allocates en ec two hn
        hc =
      let (a, b, ea, eb, all, less, more) = numbers_lem writers readers n en hn in
      let e =
        numbers-eq writers readers (suc (a - 1)) b c
          (ea ∙ ap pos (omega (arith, all, less, more, two))) eb ec in
      ap (λ m. allocate_and_run threads m (atoi duration) p) e
      ∙ allocate_and_run-fails (a - 1) b c (atoi duration) p succeeds no_thread allocates
          (omega (arith, all, less, more, two, hn)) (omega (arith, all, less, more, two, hn)) hc
