-- ===== src/Lab2/Interleaved/Safety.antt =====
-- The handlers of lab2/KboardModule.c called by any number of threads, interleaved statement by
-- statement, against the queue of the contract.
use os_class.Common.{
  ℕ, ◌⊎◌, ◌+◌, ◌<◌, ◌^◌, ◌≡◌, refl, sym, ap, ◌∙◌, false, Option, none, some, List, [], ℤ, get_elem?,
  done, blocked, waiting, ◌>>=◌, Bool-cases, inl, inr,
}
use os_class.Ring.{IsRing, IsClean, contents}
use os_class.Lab2.Kboard.{Board}
use os_class.Lab2.Sync.System.{Protocol}
use os_class.Lab2.Interleaved.{
  Sections, Next, Request, role, Task, idle, locking, leaving, lock_step, task_step, Module, Runs,
}
use os_class.Lab2.Interleaved.History.{Event, replay}
use os_class.Lab2.Interleaved.Project.{Runs-projected}
use os_class.Lab2.Interleaved.Bodies.{is_inside, body_step}
use os_class.Lab2.Interleaved.Excludes.{Excludes}
use os_class.Lab2.Interleaved.Current.{IsFree, Runs-Current, found_inside}

module _ (p : Protocol) (ss : Sections p) where
  open p use {Shared, Place}

  -- A call in the code of the solution goes on or waits.
  abbrev Goes : Next p ss → Type 0
  Goes o = ((y : Board Shared × Task Place × List Event) × (o ≡ done y)) ⊎ (o ≡ blocked)

  waiting-Goes :
      {A : Type 0} (o : Option A) (f : A → Board Shared × Task Place × List Event)
      → Goes (waiting o >>= λ a. done (f a))
  waiting-Goes none f = inr refl
  waiting-Goes (some a) f = inl (f a, refl)

  lock_step-Goes : (b : Board Shared) (r : Request) (q : Place) → Goes (lock_step p ss b r q)
  unfolding lock_step
  lock_step-Goes b r q = waiting-Goes (p.step b.lock q) _

  quiet-Goes : (b : Board Shared) (t : Task Place) → is_inside t ≡ false → Goes (task_step p ss b t)
  unfolding task_step
  quiet-Goes b idle h = inr refl
  quiet-Goes b (locking r q) h = lock_step-Goes b r q
  quiet-Goes b (leaving r) h = lock_step-Goes b r (ss.section (role r))
  quiet-Goes b _ h = absurd (cc h)

  module _ (ex : Excludes p ss) {n : ℕ} (few : n + 1 < 2 ^ 31) {s : Module p ss}
      (r : Runs p ss n s) where
    -- Under a solution that excludes, in every state that fewer than 2^31 - 1 threads can reach by
    -- statements of the handlers in any order, a queue could have given what the handlers have
    -- completed, in the order in which they completed.
    pub history_legal : (q : List ℤ) × (replay s.history [] ≡ some q)
    history_legal = let (q, inv) = Runs-Current p ss ex few s r in (q, inv.legal)

    -- Under a solution that excludes, in every state that fewer than 2^31 - 1 threads can reach by
    -- statements of the handlers in any order, with no thread changing the ring, the ring is in
    -- order and clean, and its clips are the queue that results from the completed insertions,
    -- removals and looks, each of which the queue could give, in the order in which they completed.
    pub board_current :
        IsFree p ss s.tasks
        → IsRing s.board.ring_buffer s.board.ring_buffer_current_index s.board.ring_buffer_count
          × IsClean s.board.ring_buffer s.board.ring_buffer_current_index s.board.ring_buffer_count
          × (replay s.history []
              ≡ some (
                  contents s.board.ring_buffer s.board.ring_buffer_current_index
                    s.board.ring_buffer_count))
    board_current free =
        let (q, inv) = Runs-Current p ss ex few s r in
        let h = inv.at_rest free in (h.in_order, h.clean, inv.legal ∙ ap some (sym h.holds))

    -- Under a solution that excludes, in every state that fewer than 2^31 - 1 threads can reach by
    -- statements of the handlers in any order, the next statement of each thread completes, or the
    -- thread waits outside the critical section; none is an access outside the array.
    pub statement_completes :
        (i : ℕ) {t : Task Place}
        → get_elem? s.tasks i ≡ some t
        → ((y : Board Shared × Task Place × List Event) × (task_step p ss s.board t ≡ done y))
          ⊎ ((task_step p ss s.board t ≡ blocked) × (is_inside t ≡ false))
    statement_completes i {t} here = elim (Bool-cases (is_inside t)) [
      | inl inside ↦
          let (q, inv) = Runs-Current p ss ex few s r in
          let (y, _, goes, _, _) =
            body_step p ss s.board t q inside
              (found_inside p ss ex few s q (Runs-projected p ss r) inv i t here inside) in
          inl (y, goes)
      | inr outside ↦ elim (quiet-Goes s.board t outside) [
        | inl goes ↦ inl goes
        | inr waits ↦ inr (waits, outside)
      ]
    ]
