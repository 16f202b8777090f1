-- ===== src/Lab1/Kernel/Inv.antt =====
-- os_kboard.c: what holds of the board between two system calls.
use os_class.Common.{◌≡◌, inl, inr, true, some, List, ℤ, Option-cases}
use os_class.Ring.{IsRing, contents, AllNonnegative}
use os_class.Lab1.Kernel.{Kboard}
use os_class.Lab1.Kernel.Api.{KernelApi}

abbrev pub clips : {L : Type 0} → Kboard L → List ℤ
clips k = contents k.ring k.current_index k.count

module _ (api : KernelApi) where
  open api use {Lock, is_free, spin_lock, spin_unlock, spin_lock-none, is_free-unlock}

  -- Between two calls: the lock is free, the ring in order, and no clip negative.
  pub record IsValid (k : Kboard Lock) : Type 0 where
    pub unlocked : is_free k.lock ≡ true
    pub in_order : IsRing k.ring k.current_index k.count
    pub nonnegative : AllNonnegative (clips k)

  -- A free lock is taken.
  pub taken : (l : Lock) → is_free l ≡ true → (held : Lock) × (spin_lock l ≡ some held)
  taken l free = elim (Option-cases (spin_lock l)) [
    | inl e ↦ absurd (cc (spin_lock-none l e))
    | inr got ↦ got
  ]
