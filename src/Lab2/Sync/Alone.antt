-- ===== src/Lab2/Sync/Alone.antt =====
-- One thread that runs a function of KboardModule.c to its end while no other thread moves.
use os_class.Common.{
  ℕ, zero, suc, ◌≡◌, Bool, true, false, none, some, Outcome, done, blocked, inl, inr, Option-cases,
  arith,
}
use os_class.Lab2.Sync.Semaphores.{Semaphores}
use os_class.Lab2.Sync.System.{Protocol}

-- A free semaphore is acquired.
pub acquires :
    (sem : Semaphores) (s : sem.Semaphore)
    → sem.value s ≡ 1
    → (t : sem.Semaphore) × (sem.down s ≡ some t) × (sem.value t ≡ 0)
acquires sem s h = elim (Option-cases (sem.down s)) [
  | inl e ↦ absurd (omega (arith, sem.down-none s e))
  | inr (t, e) ↦ (t, e, omega (arith, sem.value-down s e))
]

-- Steps until the thread reaches a place of `stop`; `blocked` if it sleeps, or after all its rounds.
-- No function of a solution takes more than 16 steps when nobody else is about.
abbrev pub rounds : ℕ
rounds = 16

module _ (p : Protocol) (stop : p.Place → Bool) where
  open p use {Shared, Place, step}

  unfoldable pub walk : ℕ → Shared → Place → Outcome Shared
  walk zero l q = blocked
  walk (suc fuel) l q = elim (stop q) [
    | true ↦ done l
    | false ↦ elim (step l q) [ none ↦ blocked | some (l', q') ↦ walk fuel l' q' ]
  ]

  pub walk-run :
      (fuel : ℕ) (l : Shared) (q : Place) (l' : Shared) (q' : Place)
      → stop q ≡ false
      → step l q ≡ some (l', q')
      → walk (suc fuel) l q ≡ walk fuel l' q'
  unfolding walk
  walk-run fuel l q l' q' h e = rw (h, e, walk)
