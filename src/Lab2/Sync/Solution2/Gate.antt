-- ===== src/Lab2/Sync/Solution2/Gate.antt =====
-- Solution 2: what holds up a reader that arrives at `SemaphoreReader`.
use mathlib.Core.Option
use os_class.Common.{
  ℕ, ◌+◌, ◌<◌, ◌^◌, ◌≡◌, refl, ◌⊎◌, inl, inr, true, Option, none, some, List, get_elem?, total,
  total-pos, dec_lt, arith,
}
use os_class.Lab2.Sync.Semaphores.{Semaphores}
use os_class.Lab2.Sync.System.{System, Reach}
use os_class.Lab2.Sync.Switch.{is_passing, is_settled, is_draining, is_last}
use os_class.Lab2.Sync.Solution2.{
  Shared, Place, writer_counted, writer_down_writer, writing, writer_leaving, writer_decrement,
  writer_test_last, writer_up_reader, enter_reader, reader_passing, step, protocol,
}
use os_class.Lab2.Sync.Solution2.Inv.{writer_stage, is_at_gate, Inv}
use os_class.Lab2.Sync.Solution2.Always.{Reach-Inv}
use os_class.Lab2.Sync.Solution2.Safety.{has_priority}

-- Holds `SemaphoreReader`, or belongs to the writers for whom one of them took it.
abbrev pub HoldsUp : Place → Type 0
HoldsUp p = (has_priority p ≡ true) ⊎ (p ≡ reader_passing)

abbrev Held : List Place → Type 0
Held ps = (i : ℕ) × (p : Place) × (get_elem? ps i ≡ some p) × HoldsUp p

held :
    (w : Place → ℕ)
    → ((p : Place) → 0 < w p → HoldsUp p)
    → (ps : List Place) → 0 < total w ps
    → Held ps
held w each ps h = let r = total-pos w ps h in (r.0, r.1, r.2, each r.1 r.3)

with_priority :
    (p : Place)
    → 0
      < is_passing (writer_stage p)
        + is_settled (writer_stage p)
        + is_draining (writer_stage p)
        + is_last (writer_stage p)
    → HoldsUp p
with_priority writer_counted h = inl refl
with_priority writer_down_writer h = inl refl
with_priority writing h = inl refl
with_priority writer_leaving h = inl refl
with_priority writer_decrement h = inl refl
with_priority writer_test_last h = inl refl
with_priority writer_up_reader h = inl refl
with_priority _ h = absurd (omega arith)

gate : (p : Place) → 0 < is_at_gate p → HoldsUp p
gate reader_passing h = inr refl
gate _ h = absurd (omega arith)

unmapped : {A B : Type 0} (f : A → B) (x : Option A) → Option.map f x ≡ none → x ≡ none
unmapped f none h = refl
unmapped f (some x) h = absurd (cc h)

module _ (sem : Semaphores) where
  open sem use {Semaphore, down, value, down-none}

  taken :
      (l : Shared Semaphore) (ps : List Place)
      → Inv sem l ps
      → value l.semaphore_reader ≡ 0
      → Held ps
  taken l ps inv h = elim (dec_lt 0 (total is_at_gate ps)) [
    | yes p ↦ held is_at_gate gate ps p
    | no a ↦ elim (dec_lt 0 (total (λ q. is_passing (writer_stage q)) ps)) [
      | yes p ↦ held (λ q. is_passing (writer_stage q)) (λ q k. with_priority q (omega arith)) ps p
      | no b ↦ elim (dec_lt 0 (total (λ q. is_settled (writer_stage q)) ps)) [
        | yes p ↦
            held (λ q. is_settled (writer_stage q)) (λ q k. with_priority q (omega arith)) ps p
        | no c ↦ elim (dec_lt 0 (total (λ q. is_draining (writer_stage q)) ps)) [
          | yes p ↦
              held (λ q. is_draining (writer_stage q)) (λ q k. with_priority q (omega arith)) ps p
          | no d ↦
              held (λ q. is_last (writer_stage q)) (λ q k. with_priority q (omega arith)) ps
                (omega (arith, inv.writers.token))
        ]
      ]
    ]
  ]

  asleep : (l : Shared Semaphore) → step sem l enter_reader ≡ none → down l.semaphore_reader ≡ none
  unfolding step
  asleep l h = unmapped _ (down l.semaphore_reader) h

  -- Nothing else holds a reader up: if, in a state that `n` threads (fewer than 2^31 - 1) can reach, a
  -- reader that arrives sleeps at its first statement, then some thread is a reader that is just
  -- passing `SemaphoreReader`, or a writer that is behind the test of `WriterCount` and the
  -- `down(&SemaphoreReader)` of its entry and not yet behind the last test of `WriterCount` and the
  -- `up(&SemaphoreReader)` of its exit.
  pub held_up :
      {n : ℕ} {s : System (Shared Semaphore) Place}
      → n + 1 < 2 ^ 31
      → Reach (protocol sem) n s
      → step sem s.shared enter_reader ≡ none
      → (i : ℕ) × (p : Place) × (get_elem? s.threads i ≡ some p) × HoldsUp p
  held_up {s} h r e = taken s.shared s.threads (Reach-Inv sem h r) (down-none _ (asleep s.shared e))
