-- ===== src/Lab2/Sync/Living.antt =====
-- When some thread of a system can go on: for one thread, and for the threads of a light switch.
use mathlib.Core.Option
use os_class.Common.{
  ℕ, ◌<◌, ◌≡◌, some, List, get_elem?, total, total-pos, dec_lt, arith, Option-cases, inl, inr,
}
use os_class.Lab2.Sync.Semaphores.{Semaphores}
use os_class.Lab2.Sync.System.{Protocol}
use os_class.Lab2.Sync.Switch.{
  Stage, Switch, number, is_other, is_passing, is_settled, is_testing, is_first, is_draining,
  is_last,
}

module _ (p : Protocol) where
  open p use {Shared, Place, step}

  -- The next step of a thread at a place is not held up.
  abbrev pub CanStep : Shared → Place → Type 0
  CanStep l q = (y : Shared × Place) × (step l q ≡ some y)

  -- Some thread can step.
  abbrev pub Lives : Shared → List Place → Type 0
  Lives l ps = (j : ℕ) × (q : Place) × (get_elem? ps j ≡ some q) × CanStep l q

  -- If some thread is at a place of positive weight, from each of which the system lives, it lives.
  pub weighs-Lives :
      (l : Shared) (ps : List Place) (w : Place → ℕ)
      → ((j : ℕ) (q : Place) → get_elem? ps j ≡ some q → 0 < w q → Lives l ps)
      → 0 < total w ps
      → Lives l ps
  weighs-Lives l ps w each h = let r = total-pos w ps h in each r.0 r.1 r.2 r.3

  pub someone :
      (l : Shared) (ps : List Place) (w : Place → ℕ)
      → ((q : Place) → 0 < w q → CanStep l q)
      → 0 < total w ps
      → Lives l ps
  someone l ps w steps = weighs-Lives l ps w (λ j q e h. (j, q, e, steps q h))

-- A `down` of a free semaphore goes on.
pub passes :
    (sem : Semaphores) {Y : Type 0} (f : sem.Semaphore → Y) (s : sem.Semaphore)
    → 0 < sem.value s
    → (y : Y) × (Option.map f (sem.down s) ≡ some y)
passes sem f s h = elim (Option-cases (sem.down s)) [
  | inl e ↦ absurd (omega (arith, sem.down-none s e))
  | inr t ↦ (f t.0, rw t.1)
]

-- The light switch: who can go on when its mutex or its resource is taken. `X` says that some thread
-- can; the functions say so for the threads at one stage.
module _ {P : Type 0} {stage : P → Stage} {ps : List P} {mutex resource others : ℕ}
    (s : Switch stage ps mutex resource others) {X : Type 0}
    (lives_other : 0 < number stage is_other ps → X)
    (lives_passing : 0 < number stage is_passing ps → X)
    (lives_testing : 0 < number stage is_testing ps → X)
    (lives_draining : 0 < number stage is_draining ps → X)
    (lives_last : 0 < number stage is_last ps → X) (lives_others : 0 < others → X) where
  open s use {one, first_alone, token}

  -- The holder of the mutex goes on, or waits for the resource, which one of the others has.
  pub mutex_taken : (0 < resource → 0 < number stage is_first ps → X) → mutex ≡ 0 → X
  mutex_taken lives_first e = elim (dec_lt 0 others) [
    | yes h ↦ lives_others h
    | no no_others ↦ elim (dec_lt 0 (number stage is_other ps)) [
      | yes h ↦ lives_other h
      | no a ↦ elim (dec_lt 0 (number stage is_passing ps)) [
        | yes h ↦ lives_passing h
        | no b ↦ elim (dec_lt 0 (number stage is_testing ps)) [
          | yes h ↦ lives_testing h
          | no c ↦ elim (dec_lt 0 (number stage is_draining ps)) [
            | yes h ↦ lives_draining h
            | no d ↦ elim (dec_lt 0 (number stage is_last ps)) [
              | yes h ↦ lives_last h
              | no f ↦
                  lives_first (omega (arith, one, first_alone, token, e)) (omega (arith, one, e))
            ]
          ]
        ]
      ]
    ]
  ]

  -- One of the others has the resource, or the group, of which someone goes on.
  pub resource_taken : (0 < number stage is_settled ps → X) → resource ≡ 0 → X
  resource_taken lives_settled e = elim (dec_lt 0 others) [
    | yes h ↦ lives_others h
    | no no_others ↦ elim (dec_lt 0 (number stage is_passing ps)) [
      | yes h ↦ lives_passing h
      | no b ↦ elim (dec_lt 0 (number stage is_draining ps)) [
        | yes h ↦ lives_draining h
        | no d ↦ elim (dec_lt 0 (number stage is_last ps)) [
          | yes h ↦ lives_last h
          | no f ↦ lives_settled (omega (arith, token, e))
        ]
      ]
    ]
  ]
