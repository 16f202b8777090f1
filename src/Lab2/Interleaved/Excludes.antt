-- ===== src/Lab2/Interleaved/Excludes.antt =====
-- What a solution of lab2/KboardModule.c promises about its critical sections, and where the handlers
-- of the threads therefore cannot be at the same time.
use os_class.Common.{ℕ, ◌+◌, ◌<◌, ◌^◌, ◌≡◌, refl, ap, ◌∙◌, Bool, true, false, some, get_elem?}
use os_class.Lab2.Sync.System.{Role, Protocol, System, Reach}
use os_class.Lab2.Interleaved.{
  Sections, Task, idle, locking, look_load, look_store, look_item, leaving, Module,
}
use os_class.Lab2.Interleaved.Lists.{get_elem?-map}
use os_class.Lab2.Interleaved.Project.{project, projected}
use os_class.Lab2.Interleaved.Bodies.{is_inside}

-- A writer in its critical section is there alone.
pub record Excludes (p : Protocol) (ss : Sections p) : Type 0 where
  pub alone :
      {n : ℕ} {s : System p.Shared p.Place}
      → n + 1 < 2 ^ 31
      → Reach p n s
      → (i j : ℕ) {r : Role} → get_elem? s.threads i ≡ some (ss.section Role.writer)
      → get_elem? s.threads j ≡ some (ss.section r)
      → i ≡ j

-- A handler that is changing the ring.
abbrev pub is_busy : {P : Type 0} → Task P → Bool
is_busy (look_load k) = false
is_busy (look_store k v) = false
is_busy (look_item k) = false
is_busy t = is_inside t

pub quiet_lem : {P : Type 0} (t : Task P) → is_inside t ≡ false → is_busy t ≡ false
quiet_lem (look_load k) h = refl
quiet_lem (look_store k v) h = refl
quiet_lem (look_item k) h = refl
quiet_lem _ h = h

pub busy_lem : {P : Type 0} (t : Task P) → is_busy t ≡ true → is_inside t ≡ true
busy_lem (look_load k) h = refl
busy_lem (look_store k v) h = refl
busy_lem (look_item k) h = refl
busy_lem _ h = h

module _ (p : Protocol) (ss : Sections p) (ex : Excludes p ss) where
  open p use {Place}

  busy_place : (t : Task Place) → is_busy t ≡ true → project p ss t ≡ ss.section Role.writer
  busy_place idle h = absurd (cc h)
  busy_place (locking r q) h = absurd (cc h)
  busy_place (leaving r) h = absurd (cc h)
  busy_place (look_load k) h = absurd (cc h)
  busy_place (look_store k v) h = absurd (cc h)
  busy_place (look_item k) h = absurd (cc h)
  busy_place _ h = refl

  inside_place :
      (t : Task Place) → is_inside t ≡ true → (r : Role) × (project p ss t ≡ ss.section r)
  inside_place idle h = absurd (cc h)
  inside_place (locking r q) h = absurd (cc h)
  inside_place (leaving r) h = absurd (cc h)
  inside_place (look_load k) h = (Role.reader, refl)
  inside_place (look_store k v) h = (Role.reader, refl)
  inside_place (look_item k) h = (Role.reader, refl)
  inside_place _ h = (Role.writer, refl)

  -- Whoever is within a critical section beside a thread that changes the ring is that thread.
  pub busy-alone :
      {n : ℕ} (s : Module p ss)
      → n + 1 < 2 ^ 31
      → Reach p n (projected p ss s)
      → (i j : ℕ) {t u : Task Place} → get_elem? s.tasks i ≡ some t
      → is_busy t ≡ true
      → get_elem? s.tasks j ≡ some u
      → is_inside u ≡ true
      → i ≡ j
  busy-alone s few reached i j {t} {u} hi busy hj inside =
      ex.alone few reached i j
        (get_elem?-map (project p ss) s.tasks i hi ∙ ap some (busy_place t busy))
        (get_elem?-map (project p ss) s.tasks j hj ∙ ap some (inside_place u inside).1)
