-- ===== src/Lab2/Interleaved/Schedule.antt =====
-- Runs of the handlers of lab2/KboardModule.c in a given order.
use os_class.Common.{
  ℕ, ◌≡◌, refl, ap, ◌∙◌, Bool, true, false, Option, none, some, List, [], ◌∷◌, ◌++◌, get_elem?, set,
  Option-cases, Bool-cases, inl, inr, if◌then◌else◌, done,
}
use os_class.Lab2.Sync.System.{Protocol, carry}
use os_class.Lab2.Interleaved.{
  Sections, Request, role, is_accepted, Task, idle, locking, task_step, Next, Module, Act, asks,
  runs, Runs, acts,
}

-- A thread calls a handler, or executes a statement.
pub data Turn : Type 0 where
  calls : ℕ → (r : Request) → is_accepted r ≡ true → Turn
  goes_on : ℕ → Turn

module _ (p : Protocol) (ss : Sections p) where
  open p use {Shared, Place, begin}

  is_idle : Task Place → Bool
  is_idle idle = true
  is_idle _ = false

  is_idle_sound : (t : Task Place) → is_idle t ≡ true → t ≡ idle
  unfolding is_idle
  is_idle_sound idle h = refl
  is_idle_sound _ h = absurd (cc h)

  moves : Module p ss → ℕ → Next p ss → Option (Module p ss)
  moves s i (done (b, t, events)) =
      some (record { board = b; tasks = set s.tasks i t; history = events ++ s.history })
  moves s i _ = none

  take : Module p ss → Turn → Option (Task Place) → Option (Module p ss)
  unfolding moves is_idle
  take s t none = none
  take s (calls i r ok) (some t) =
      if is_idle t
      then some (record s { tasks = set s.tasks i (locking r (begin (role r))) })
      else none
  take s (goes_on i) (some t) = moves s i (task_step p ss s.board t)

  thread : Turn → ℕ
  thread (calls i r ok) = i
  thread (goes_on i) = i

  -- `none` if a turn is not possible.
  unfoldable pub play : Module p ss → List Turn → Option (Module p ss)
  unfolding take thread
  play s [] = some s
  play s (t ∷ ts) = elim (take s t (get_elem? s.tasks (thread t))) [
    | none ↦ none
    | some s' ↦ play s' ts
  ]

  moves-Act :
      (s : Module p ss) (i : ℕ) (t : Task Place)
      → get_elem? s.tasks i ≡ some t
      → (o : Next p ss) → task_step p ss s.board t ≡ o
      → {s' : Module p ss} → moves s i o ≡ some s'
      → Act p ss s s'
  unfolding moves
  moves-Act s i t here (done y) goes e = carry (Act p ss s) e (runs i here goes)
  moves-Act s i t here _ goes e = absurd (cc e)

  take-Act :
      (s : Module p ss) (t : Turn) {s' : Module p ss}
      → take s t (get_elem? s.tasks (thread t)) ≡ some s'
      → Act p ss s s'
  unfolding take thread
  take-Act s (calls i r ok) e = elim (Option-cases (get_elem? s.tasks i)) [
    | inl nobody ↦ absurd (cc (rw nobody at e))
    | inr (t, here) ↦ elim (Bool-cases (is_idle t)) [
      | inl free ↦
          carry (Act p ss s) (rw (here, free) at e)
            (asks i r (here ∙ ap some (is_idle_sound t free)) ok)
      | inr busy ↦ absurd (cc (rw (here, busy) at e))
    ]
  ]
  take-Act s (goes_on i) e = elim (Option-cases (get_elem? s.tasks i)) [
    | inl nobody ↦ absurd (cc (rw nobody at e))
    | inr (t, here) ↦ moves-Act s i t here (task_step p ss s.board t) refl (rw here at e)
  ]

  pub play-Runs :
      {n : ℕ} (ts : List Turn) (s : Module p ss) {s' : Module p ss}
      → Runs p ss n s
      → play s ts ≡ some s'
      → Runs p ss n s'
  unfolding play
  play-Runs {n} [] s r e = carry (Runs p ss n) e r
  play-Runs (t ∷ ts) s r e = elim (Option-cases (take s t (get_elem? s.tasks (thread t)))) [
    | inl stops ↦ absurd (cc (rw (stops, play) at e))
    | inr (s₁, goes) ↦ play-Runs ts s₁ (acts r (take-Act s t goes)) (rw (goes, play) at e)
  ]

-- `k` statements of one thread.
abbrev pub go_on : ℕ → ℕ → List Turn
go_on i ℕ.zero = []
go_on i (ℕ.suc k) = goes_on i ∷ go_on i k
