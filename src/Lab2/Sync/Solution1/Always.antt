-- ===== src/Lab2/Sync/Solution1/Always.antt =====
-- Solution 1: the invariant along the steps of all threads, from the initial state on.
use os_class.Common.{
  sym, replicate, length-replicate, total-replicate, ℕ, ◌+◌, ◌<◌, ◌^◌, ◌≡◌, refl, ap, some, List,
  pos, get_elem?, set, length-set, total, arith,
}
use os_class.Lab2.Sync.Semaphores.{Semaphores}
use os_class.Lab2.Sync.System.{Role, System, Step, call, run, Reach, start, later}
use os_class.Lab2.Sync.Switch.{Switch-init, counted-init, counted}
use os_class.Lab2.Sync.Solution1.{
  initial, Shared, Place, outside, enter_writer, enter_reader, begin, step, protocol,
}
use os_class.Lab2.Sync.Solution1.Inv.{reader_stage, is_writing, Inv, goes}
use os_class.Lab2.Sync.Solution1.Steps.{keeps}
use os_class.Lab2.Sync.Solution1.Count.{same, counts}

module _ (sem : Semaphores) where
  open sem use {Semaphore, value-initializer}

  module _ {l : Shared Semaphore} {ps : List Place} (inv : Inv sem l ps) (i : ℕ) where
    run-Inv :
        {p q : Place} {l' : Shared Semaphore}
        → get_elem? ps i ≡ some p
        → step sem l p ≡ some (l', q)
        → Inv sem l' (set ps i q)
    run-Inv {p} {q} e s = record {
      few = rw length-set inv.few;
      count = counts sem inv i p e s;
      switch = keeps sem inv i p e s;
    }

    -- A new call of either kind.
    call-Inv : (role : Role) → get_elem? ps i ≡ some outside → Inv sem l (set ps i (begin role))
    call-Inv Role.writer e = record {
      few = rw length-set inv.few;
      count = same sem inv i enter_writer e (omega (arith, goes sem inv i enter_writer e));
      switch = omega (arith, inv.switch, goes sem inv i enter_writer e);
    }
    call-Inv Role.reader e = record {
      few = rw length-set inv.few;
      count = same sem inv i enter_reader e (omega (arith, goes sem inv i enter_reader e));
      switch = omega (arith, inv.switch, goes sem inv i enter_reader e);
    }

  Inv-init : (n : ℕ) → n + 1 < 2 ^ 31 → Inv sem (initial sem) (replicate n outside)
  Inv-init n h = record {
    few = rw length-replicate h;
    count = ap pos (omega (arith, nobody));
    switch = rw (value-initializer, nobody_writes) (Switch-init reader_stage n outside refl);
  }
    where
      nobody : 0 ≡ counted reader_stage (replicate n outside)
      nobody = sym (counted-init reader_stage n outside refl)

      nobody_writes : total is_writing (replicate n outside) ≡ 0
      nobody_writes = total-replicate is_writing n outside refl

  -- Every step of the threads keeps the invariant.
  pub Step-Inv :
      {s t : System (Shared Semaphore) Place}
      → Step (protocol sem) s t
      → Inv sem s.shared s.threads
      → Inv sem t.shared t.threads
  Step-Inv (call i role e) inv = call-Inv inv i role e
  Step-Inv (run i e st) inv = run-Inv inv i e st

  -- In every state that `n` threads can reach the invariant holds.
  pub Reach-Inv :
      {n : ℕ} {s : System (Shared Semaphore) Place}
      → n + 1 < 2 ^ 31
      → Reach (protocol sem) n s
      → Inv sem s.shared s.threads
  Reach-Inv {n} h start = Inv-init n h
  Reach-Inv h (later r st) = Step-Inv st (Reach-Inv h r)
