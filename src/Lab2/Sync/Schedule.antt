-- ===== src/Lab2/Sync/Schedule.antt =====
-- Runs of the threads in a given order, as states that they can reach.
use os_class.Common.{
  ℕ, zero, suc, ◌≡◌, refl, ap, ◌∙◌, Bool, true, Option, none, some, List, [], ◌∷◌, get_elem?, set,
  Option-cases, Bool-cases, inl, inr, if◌then◌else◌, arith,
}
use os_class.Lab2.Sync.Semaphores.{Semaphores}
use os_class.Lab2.Sync.System.{Role, Protocol, System, Step, call, run, Reach, later, carry}

-- Semaphores as numbers.
unfoldable pub count_down : ℕ → Option ℕ
count_down zero = none
count_down (suc n) = some n

pub count_down-some : (n : ℕ) {m : ℕ} → count_down n ≡ some m → n ≡ suc m
unfolding count_down
count_down-some zero h = absurd (ground arith)
count_down-some (suc n) h = ground arith

pub count_down-none : (n : ℕ) → count_down n ≡ none → n ≡ 0
unfolding count_down
count_down-none zero h = refl
count_down-none (suc n) h = absurd (ground arith)

abbrev pub counting : Semaphores
counting = record {
  Semaphore = ℕ;
  initializer = λ n. n;
  down = count_down;
  up = suc;
  value = λ n. n;
  value-initializer = λ n. refl;
  value-down = λ s h. count_down-some s h;
  down-none = count_down-none;
  value-up = λ s. refl;
}

-- A thread starts a call, or takes its next step.
pub data Turn : Type 0 where
  starts : ℕ → Role → Turn
  steps : ℕ → Turn

-- `k` steps of one thread.
abbrev pub turns : ℕ → ℕ → List Turn
turns i zero = []
turns i (suc k) = steps i ∷ turns i k

impossible {ℓ} : {A : Type ℓ} {a : A} → none ≡ some a → ⊥
impossible h = cc

module _ (p : Protocol) (is_outside : p.Place → Bool) where
  open p use {Shared, Place, outside, begin, step}

  moves : System Shared Place → ℕ → Option (Shared × Place) → Option (System Shared Place)
  moves s i none = none
  moves s i (some (l, q)) = some (record { shared = l; threads = set s.threads i q })

  take : System Shared Place → Turn → Option Place → Option (System Shared Place)
  unfolding moves
  take s t none = none
  take s (starts i role) (some q) =
      if is_outside q then some (record s { threads = set s.threads i (begin role) }) else none
  take s (steps i) (some q) = moves s i (step s.shared q)

  thread : Turn → ℕ
  thread (starts i role) = i
  thread (steps i) = i

  -- `none` if a turn is not possible.
  unfoldable pub play : System Shared Place → List Turn → Option (System Shared Place)
  unfolding take thread
  play s [] = some s
  play s (t ∷ ts) = elim (take s t (get_elem? s.threads (thread t))) [
    | none ↦ none
    | some s' ↦ play s' ts
  ]

  module _ (sound : (q : Place) → is_outside q ≡ true → q ≡ outside) where
    take-Step :
        (s : System Shared Place) (t : Turn) {s' : System Shared Place}
        → take s t (get_elem? s.threads (thread t)) ≡ some s'
        → Step p s s'
    unfolding take thread
    take-Step s (starts i role) e = elim (Option-cases (get_elem? s.threads i)) [
      | inl nobody ↦ absurd (impossible (rw nobody at e))
      | inr (q, here) ↦ elim (Bool-cases (is_outside q)) [
        | inl out ↦
            carry (Step p s) (rw (here, out) at e) (call i role (here ∙ ap some (sound q out)))
        | inr busy ↦ absurd (impossible (rw (here, busy) at e))
      ]
    ]
    take-Step s (steps i) e = elim (Option-cases (get_elem? s.threads i)) [
      | inl nobody ↦ absurd (impossible (rw nobody at e))
      | inr (q, here) ↦ elim (Option-cases (step s.shared q)) [
        | inl sleeps ↦ absurd (impossible (rw (here, sleeps) at e))
        | inr (y, goes) ↦ carry (Step p s) (rw (here, goes) at e) (run i here goes)
      ]
    ]

    pub play-Reach :
        {n : ℕ} (ts : List Turn) (s : System Shared Place) {s' : System Shared Place}
        → Reach p n s
        → play s ts ≡ some s'
        → Reach p n s'
    unfolding play
    play-Reach {n} [] s r e = carry (Reach p n) e r
    play-Reach (t ∷ ts) s r e = elim (Option-cases (take s t (get_elem? s.threads (thread t)))) [
      | inl stops ↦ absurd (impossible (rw (stops, play) at e))
      | inr (s₁, goes) ↦ play-Reach ts s₁ (later r (take-Step s t goes)) (rw (goes, play) at e)
    ]
