-- ===== src/Lab2/Interleaved/Quiet.antt =====
-- The handlers of lab2/KboardModule.c that do not change the ring: what they find in it, and that their
-- steps leave it alone.
use os_class.Common.{
  ◌≡◌, refl, inl, inr, false, List, [], ℤ, done, carry_done, carry_waiting, Bool-cases,
}
use os_class.Lab2.Kboard.{Board}
use os_class.Lab2.Sync.System.{Protocol}
use os_class.Lab2.Interleaved.{
  Sections, Request, remove, insert, look, role, Task, idle, locking, leaving, look_load,
  look_store, look_item, first, arrive, lock_step, task_step,
}
use os_class.Lab2.Interleaved.History.{Event}
use os_class.Lab2.Interleaved.Bodies.{is_inside, FoundOn}
use os_class.Lab2.Interleaved.Excludes.{is_busy}

module _ (p : Protocol) (ss : Sections p) where
  open p use {Shared, Place, step}

  pub found_at_rest :
      (b : Board Shared) (t : Task Place) (q : List ℤ)
      → is_busy t ≡ false
      → FoundOn b t q
      → FoundOn {P = Place} b idle q
  found_at_rest b idle q h m = m
  found_at_rest b (locking r x) q h m = m
  found_at_rest b (leaving r) q h m = m
  found_at_rest b (look_load k) q h m = m
  found_at_rest b (look_store k v) q h m = m
  found_at_rest b (look_item k) q h m = m
  found_at_rest b _ q h m = absurd (cc h)

  pub looks_at_rest :
      (b : Board Shared) (t : Task Place) (q : List ℤ)
      → is_busy t ≡ false
      → FoundOn {P = Place} b idle q
      → FoundOn b t q
  looks_at_rest b idle q h m = m
  looks_at_rest b (locking r x) q h m = m
  looks_at_rest b (leaving r) q h m = m
  looks_at_rest b (look_load k) q h m = m
  looks_at_rest b (look_store k v) q h m = m
  looks_at_rest b (look_item k) q h m = m
  looks_at_rest b _ q h m = absurd (cc h)

  -- A step in the code of the solution leaves the ring alone.
  abbrev pub Quiet : Board Shared → Board Shared × Task Place × List Event → Type 0
  Quiet b (b', t', events) =
      (events ≡ [])
      × ((q : List ℤ) (u : Task Place) → FoundOn b u q → FoundOn b' u q)
      × ((q : List ℤ) → FoundOn {P = Place} b idle q → FoundOn b' t' q)

  arrive-found :
      (b : Board Shared) (r : Request) (x : Place) (q : List ℤ)
      → FoundOn {P = Place} b idle q
      → FoundOn b (arrive p ss r x) q
  arrive-found b r x q m = elim (Bool-cases (ss.at_section (role r) x)) [
    | inl there ↦ rw there (first_found r)
    | inr elsewhere ↦ elim (Bool-cases (ss.is_outside x)) [
      | inl out ↦ rw (elsewhere, out) m
      | inr on_the_way ↦ rw (elsewhere, on_the_way) m
    ]
  ]
    where
      first_found : (r' : Request) → FoundOn {P = Place} b (first r') q
      first_found remove = m
      first_found (insert y) = m
      first_found (look k) = m

  lock_step-Quiet :
      (b : Board Shared) (r : Request) (x : Place) {y : Board Shared × Task Place × List Event}
      → lock_step p ss b r x ≡ done y
      → Quiet b y
  unfolding lock_step
  lock_step-Quiet b r x e =
      carry_waiting (Quiet b) (step b.lock x)
        (λ a. done (record b { lock = a.0 }, arrive p ss r a.1, [])) e
        (λ a _ returned.
          carry_done (Quiet b) returned (refl, (λ q u m. m), (λ q m. arrive-found b r a.1 q m)))

  pub step-Quiet :
      (b : Board Shared) (t : Task Place) {y : Board Shared × Task Place × List Event}
      → is_inside t ≡ false
      → task_step p ss b t ≡ done y
      → Quiet b y
  unfolding task_step
  step-Quiet b idle h e = absurd (cc e)
  step-Quiet b (locking r x) h e = lock_step-Quiet b r x e
  step-Quiet b (leaving r) h e = lock_step-Quiet b r (ss.section (role r)) e
  step-Quiet b _ h e = absurd (cc h)
