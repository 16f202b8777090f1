-- ===== src/Lab2/Sync/System.antt =====
-- Threads that call the locking functions of KboardModule.c in any interleaving, for each solution.
use mathlib.Core.Option
use mathlib.Core.Path.{subst}
use os_class.Common.{ℕ, ◌≡◌, refl, Option, none, some, List, get_elem?, set, replicate, arith}

-- What a thread wants: to enqueue or dequeue, or to look.
pub data Role : Type 0 where
  writer reader : Role

-- One solution: its shared variables, the places of a thread in its four functions, and one step of
-- a thread. `none` means that the thread sleeps at a `down`.
pub record Protocol : Type 1 where
  pub Shared : Type 0
  pub Place : Type 0
  pub initial : Shared
  pub outside : Place
  pub begin : Role → Place
  pub step : Shared → Place → Option (Shared × Place)

pub record System (Shared Place : Type 0) : Type 0 where
  pub shared : Shared
  pub threads : List Place

module _ (p : Protocol) where
  open p use {Shared, Place, initial, outside, begin, step}

  -- A thread outside makes a call, or a thread takes its next step.
  pub data Step (s : System Shared Place) : System Shared Place → Type 0 where
    call :
        (i : ℕ) (role : Role)
        → get_elem? s.threads i ≡ some outside
        → Step s (record s { threads = set s.threads i (begin role) })
    run :
        (i : ℕ) {at next : Place} {shared : Shared}
        → get_elem? s.threads i ≡ some at
        → step s.shared at ≡ some (shared, next)
        → Step s (record { shared = shared; threads = set s.threads i next })

  pub data Reach (n : ℕ) : System Shared Place → Type 0 where
    start : Reach n (record { shared = initial; threads = replicate n outside })
    later : {s t : System Shared Place} → Reach n s → Step s t → Reach n t

-- A property of the outcome of a step, from the outcome that the code computes.
pub carry {κ} : {A : Type 0} {x y : A} (P : A → Type κ) → some x ≡ some y → P x → P y
carry P e h = subst P (ground arith) h

pub carry_map {κ} :
    {A B : Type 0} {y : B} (P : B → Type κ) (f : A → B) (o : Option A)
    → Option.map f o ≡ some y
    → ((a : A) → o ≡ some a → P (f a))
    → P y
carry_map P f none e h = absurd (ground arith)
carry_map P f (some a) e h = carry P e (h a refl)
