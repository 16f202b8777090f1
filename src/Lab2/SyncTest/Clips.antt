-- ===== src/Lab2/SyncTest/Clips.antt =====
-- What the module shows while only the threads of SyncTest.c use it.
use os_class.Common.{
  ℕ, zero, suc, ◌≡◌, refl, ap, ◌∙◌, ◌⊎◌, inl, inr, Option, some, List, [], ◌∷◌, ◌++◌, ℤ, pos, done,
  All, All-append, drop, get_elem?, ◌==◌, Bool-cases, arith, leb, length,
}
use os_class.Ring.{init_value, ring_size}
use os_class.Fifo
use os_class.Lab2.Kboard.{Board, Line, paste, random_value}
use os_class.Lab2.Kboard.Api.{CriticalSection, UserText}
use os_class.Lab2.Kboard.Valid.{clips, IsValid}
use os_class.Lab2.Kboard.Insert.{insertion}
use os_class.Lab2.Kboard.Write.{written}
use os_class.Lab2.Requests.{
  Reply, wrote, shown, Request, respond_all, Answers, Trace, nothing, answers,
}
use os_class.Lab2.Requests.Session.{session_refines}
use os_class.Lab2.SyncTest.{Routine, writer_enqueue, writer_dequeue, reader, request, echoed}

abbrev pub AllSeven : List ℤ → Type 0
AllSeven = All (λ x. x ≡ pos 777)

-- A value in a line of a clip is 777, or the initial value in a line of a random slot.
abbrev pub IsSevenLine : Line → Type 0
IsSevenLine (paste x) = x ≡ pos 777
IsSevenLine (random_value index x) = (x ≡ init_value) ⊎ (x ≡ pos 777)
IsSevenLine _ = Unit

abbrev pub IsSeven : Reply → Type 0
IsSeven (wrote v) = Unit
IsSeven (shown v lines) = All IsSevenLine lines

-- One round of a thread: what the stack holds and the random number, beside the thread's function.
pub record Round : Type 0 where
  pub stale : List ℕ
  pub random : ℕ
  pub routine : Routine

AllSeven-get : (q : List ℤ) (k : ℕ) {x : ℤ} → AllSeven q → get_elem? q k ≡ some x → x ≡ pos 777
AllSeven-get [] k a h = absurd (cc h)
AllSeven-get (y ∷ q) zero (e, a) h = ground arith
AllSeven-get (y ∷ q) (suc k) (e, a) h = AllSeven-get q k a h

insertion-AllSeven :
    (n : ℕ) (scanned : Option ℤ) (q : List ℤ)
    → scanned ≡ some (pos 777)
    → AllSeven q
    → AllSeven (insertion n scanned q).1
unfolding Fifo.offer
insertion-AllSeven n scanned q e a = elim (Bool-cases (leb ring_size (length q))) [
  | inl full ↦ rw (e, full) a
  | inr room ↦ rw (e, room) (All-append (λ x. x ≡ pos 777) q (pos 777 ∷ []) a (refl, tt))
]

module _ (cs : CriticalSection) (t : UserText) (sync_solution : ℕ) (m : t.Mem) (user : t.Ptr) where
  open cs use {Lock}
  open t use {user_bytes, copy_from_user, sscanf_int}

  -- The requests of some rounds, in their order.
  abbrev pub requests : List Round → List (Request t)
  requests [] = []
  requests (r ∷ rs) = request cs t sync_solution m user r.stale r.random r.routine ∷ requests rs

  abbrev Keeps : Request t → Type 0
  Keeps r =
      (q : List ℤ) (reply : Reply) (q' : List ℤ)
      → Answers cs t sync_solution r q reply q'
      → AllSeven q
      → AllSeven q' × IsSeven reply

  Trace-Keeps :
      {q q' : List ℤ} {rs : List (Request t)} {replies : List Reply}
      → Trace cs t sync_solution q rs replies q'
      → All Keeps rs
      → AllSeven q
      → AllSeven q' × All IsSeven replies
  Trace-Keeps nothing k a = (a, tt)
  Trace-Keeps (answers {reply} {q} {q'} x trace) (k, ks) a =
      let (a₁, shows) = k q reply q' x a in
      let (a₂, others) = Trace-Keeps trace ks a₁ in (a₂, (shows, others))

  module _ (holds : user_bytes m user 4 ≡ echoed)
      (scans : (rest : List ℕ) → sscanf_int (echoed ++ rest) ≡ some (pos 777)) where
    written-AllSeven :
        (stale : List ℕ) (q : List ℤ) → AllSeven q → AllSeven (written cs t m user 4 stale q).1
    written-AllSeven stale q a = elim (Bool-cases ((copy_from_user m user 4).0 == 0)) [
      | inl ok ↦ rw ok (
          insertion-AllSeven 4 _ q
            (ap (λ l. sscanf_int (l ++ drop 4 stale)) holds ∙ scans (drop 4 stale)) a)
      | inr failed ↦ rw failed a
    ]

    request-Keeps :
        (stale : List ℕ) (random : ℕ) (routine : Routine)
        → Keeps (request cs t sync_solution m user stale random routine)
    unfolding Fifo.poll
    request-Keeps stale random writer_enqueue q reply q' (e, rest) a =
        (rw rest (written-AllSeven stale q a), rw e tt)
    request-Keeps stale random writer_dequeue [] reply q' (e, rest) a = (rw rest tt, rw e tt)
    request-Keeps stale random writer_dequeue (x ∷ q) reply q' (e, rest) (h, a) =
        (rw rest a, rw e (h, tt))
    request-Keeps stale random reader q reply q' (item, e, inl init, rest) a =
        (rw rest a, rw e (inl init, tt))
    request-Keeps stale random reader q reply q' (item, e, inr (k, found), rest) a =
        (rw rest a, rw e (inr (AllSeven-get q k a found), tt))

    All-keep : (rounds : List Round) → All Keeps (requests rounds)
    All-keep [] = tt
    All-keep (r ∷ rs) = (request-Keeps r.stale r.random r.routine, All-keep rs)

    -- While the clips on a valid board are all 777, any rounds of the threads in any order are
    -- answered, and every clip that is pasted is 777, every random slot that is shown is 777 or empty,
    -- and all clips are 777 again; given that the bytes of `echo 777` are scanned as 777.
    pub sync_test-AllSeven :
        (rounds : List Round) (b : Board Lock)
        → IsValid cs b
        → AllSeven (clips b)
        → (replies : List Reply) × (b' : Board Lock) × (respond_all cs t sync_solution
              (requests rounds)
              b
            ≡ done (replies, b'))
          × IsValid cs b'
          × AllSeven (clips b')
          × All IsSeven replies
    sync_test-AllSeven rounds b v a =
        let (replies, b', e, v', trace) =
          session_refines cs t sync_solution (requests rounds) b v in
        let (a', shows) = Trace-Keeps trace (All-keep rounds) a in (replies, b', e, v', a', shows)
