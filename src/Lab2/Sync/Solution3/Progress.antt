-- ===== src/Lab2/Sync/Solution3/Progress.antt =====
-- Solution 3: which threads can take a step, in each state of the semaphores.
use os_class.Common.{
  ℕ, ◌+◌, ◌<◌, ◌≤◌, ◌^◌, ◌≡◌, ◌≢◌, refl, some, List, [], ◌∷◌, get_elem?, total, le-total, dec_lt,
  arith, ltb_ℤ, Bool, true, false, if◌then◌else◌,
}
use os_class.Lab2.Sync.Semaphores.{Semaphores}
use os_class.Lab2.Sync.System.{System, Reach}
use os_class.Lab2.Sync.Living.{CanStep, Lives, someone, passes}
use os_class.Lab2.Sync.Solution3.{
  Shared, Place, outside, step, protocol, writer_wait_increment, writer_wait_release, writer_wait,
  writer_woken, writing, writer_wake_readers, enter_writer, enter_reader, reader_wait_increment,
  reader_wait_release, reader_wait, reader_woken, reading,
}
use os_class.Lab2.Sync.Solution3.Inv.{has_mutex, Inv}
use os_class.Lab2.Sync.Solution3.Always.{Reach-Inv}
use os_class.Lab2.Sync.Solution3.Supply.{goes_to_wait, goes_to_wait_read, is_active}
use os_class.Lab2.Sync.Solution3.Related.{related}
use os_class.Lab2.Sync.Solution3.Served.{SuppliedAt, Reach-Supplied}

-- Before a `down` of the mutex.
abbrev takes_mutex : Place → ℕ
takes_mutex enter_writer = 1
takes_mutex writer_woken = 1
takes_mutex writing = 1
takes_mutex enter_reader = 1
takes_mutex reader_woken = 1
takes_mutex reading = 1
takes_mutex _ = 0

active_place : (p : Place) → is_active p ≤ has_mutex p + takes_mutex p
active_place writing = omega arith
active_place _ = omega arith

active_places : (ps : List Place) → total is_active ps ≤ total has_mutex ps + total takes_mutex ps
unfolding total
active_places [] = omega arith
active_places (p ∷ ps) = omega (arith, active_place p, active_places ps)

-- A test that goes on either way goes on.
either : {A : Type 0} (b : Bool) (x y : A) → (z : A) × ((if b then some x else some y) ≡ some z)
either true x y = (x, refl)
either false x y = (y, refl)

module _ (sem : Semaphores) where
  open sem use {Semaphore, value}

  module _ (l : Shared Semaphore) where
    holder-CanStep : (q : Place) → 0 < has_mutex q → CanStep (protocol sem) l q
    unfolding step
    holder-CanStep (writer_wake_readers index) h = either (ltb_ℤ index l.reader_waiting_count) _ _
    holder-CanStep outside h = absurd (omega arith)
    holder-CanStep enter_writer h = absurd (omega arith)
    holder-CanStep writer_wait h = absurd (omega arith)
    holder-CanStep writer_woken h = absurd (omega arith)
    holder-CanStep writing h = absurd (omega arith)
    holder-CanStep enter_reader h = absurd (omega arith)
    holder-CanStep reader_wait h = absurd (omega arith)
    holder-CanStep reader_woken h = absurd (omega arith)
    holder-CanStep reading h = absurd (omega arith)
    holder-CanStep _ h = (_, refl)

    taker-CanStep :
        0 < value l.semaphore_mutex → (q : Place) → 0 < takes_mutex q → CanStep (protocol sem) l q
    unfolding step
    taker-CanStep v enter_writer h = passes sem _ l.semaphore_mutex v
    taker-CanStep v writer_woken h = passes sem _ l.semaphore_mutex v
    taker-CanStep v writing h = passes sem _ l.semaphore_mutex v
    taker-CanStep v enter_reader h = passes sem _ l.semaphore_mutex v
    taker-CanStep v reader_woken h = passes sem _ l.semaphore_mutex v
    taker-CanStep v reading h = passes sem _ l.semaphore_mutex v
    taker-CanStep v _ h = absurd (omega arith)

    writer-CanStep :
        0 < value l.semaphore_writer → (q : Place) → 0 < goes_to_wait q → CanStep (protocol sem) l q
    unfolding step
    writer-CanStep v writer_wait h = passes sem _ l.semaphore_writer v
    writer-CanStep v writer_wait_increment h = (_, refl)
    writer-CanStep v writer_wait_release h = (_, refl)
    writer-CanStep v _ h = absurd (omega arith)

    reader-CanStep :
        0 < value l.semaphore_reader
        → (q : Place) → 0 < goes_to_wait_read q
        → CanStep (protocol sem) l q
    unfolding step
    reader-CanStep v reader_wait h = passes sem _ l.semaphore_reader v
    reader-CanStep v reader_wait_increment h = (_, refl)
    reader-CanStep v reader_wait_release h = (_, refl)
    reader-CanStep v _ h = absurd (omega arith)

  module _ (l : Shared Semaphore) (ps : List Place) (inv : Inv sem l ps)
      (sup : SuppliedAt sem l ps) where
    abbrev Alive : Type 0
    Alive = Lives (protocol sem) l ps

    -- Somebody waits, and nobody is active.
    waiting_alive :
        total is_active ps ≡ 0 → 0 < total goes_to_wait ps + total goes_to_wait_read ps → Alive
    waiting_alive idle wait = elim (dec_lt 0 (total goes_to_wait ps)) [
      | yes writers ↦ elim (dec_lt 0 (value l.semaphore_writer)) [
        | yes v ↦ someone (protocol sem) l ps goes_to_wait (writer-CanStep l v) writers
        | no v ↦
            someone (protocol sem) l ps goes_to_wait_read
              (reader-CanStep l (omega (arith, sup.writers_served, idle, writers, v)))
              (omega (arith, sup.writers_served_by_readers, idle, writers, v))
      ]
      | no writers ↦
          someone (protocol sem) l ps goes_to_wait_read
            (reader-CanStep l
              (omega (arith, sup.readers_served, (related ps).wakers, idle, wait, writers)))
            (omega (arith, wait, writers))
    ]

    -- With the mutex held, its holder goes on; with it free, whoever is before a `down` of it; and else
    -- nobody is active.
    alive : 0 < total takes_mutex ps + (total goes_to_wait ps + total goes_to_wait_read ps) → Alive
    alive some_one = elim (dec_lt 0 (total has_mutex ps)) [
      | yes held ↦ someone (protocol sem) l ps has_mutex (holder-CanStep l) held
      | no free ↦ elim (dec_lt 0 (total takes_mutex ps)) [
        | yes takes ↦
            someone (protocol sem) l ps takes_mutex
              (taker-CanStep l (omega (arith, inv.mutex, free))) takes
        | no takes ↦
            waiting_alive (omega (arith, active_places ps, free, takes))
              (omega (arith, some_one, takes))
      ]
    ]

    lives : (i : ℕ) (p : Place) → get_elem? ps i ≡ some p → p ≢ outside → Alive
    lives i outside e h = absurd (h refl)
    lives i enter_writer e h = alive (omega (arith, le-total takes_mutex ps i e))
    lives i writer_woken e h = alive (omega (arith, le-total takes_mutex ps i e))
    lives i writing e h = alive (omega (arith, le-total takes_mutex ps i e))
    lives i enter_reader e h = alive (omega (arith, le-total takes_mutex ps i e))
    lives i reader_woken e h = alive (omega (arith, le-total takes_mutex ps i e))
    lives i reading e h = alive (omega (arith, le-total takes_mutex ps i e))
    lives i writer_wait e h = alive (omega (arith, le-total goes_to_wait ps i e))
    lives i reader_wait e h = alive (omega (arith, le-total goes_to_wait_read ps i e))
    lives i p e h =
        someone (protocol sem) l ps has_mutex (holder-CanStep l)
          (omega (arith, le-total has_mutex ps i e))

  -- In Solution 3, in every state that fewer than 2^31 - 1 threads can reach with a thread in one
  -- of the four functions or in the critical section, some thread can take its next step.
  pub never_deadlocks :
      {n : ℕ} {s : System (Shared Semaphore) Place}
      → n + 1 < 2 ^ 31
      → Reach (protocol sem) n s
      → (i : ℕ) {p : Place} → get_elem? s.threads i ≡ some p
      → p ≢ outside
      → Lives (protocol sem) s.shared s.threads
  never_deadlocks {s} h r i {p} e out =
      lives s.shared s.threads (Reach-Inv sem h r) (Reach-Supplied sem h r) i p e out
