-- ===== src/Lab2/Interleaved/Project.antt =====
-- The threads with their handlers, seen as threads of the solution alone.
use mathlib.Core.Path.{subst}
use os_class.Common.{
  ℕ, ◌≡◌, refl, sym, ap, ◌∙◌, ◌⊎◌, inl, inr, some, List, map, get_elem?, set, done, carry_done,
  carry_checked, carry_waiting, leb_ℤ, pos, ◌%◌, [], ◌∷◌, rem, add32, read_at, write_at, Bool-cases,
}
use os_class.Ring.{ring_size, init_value}
use os_class.Lab2.Kboard.{Board}
use os_class.Lab2.Sync.System.{Role, Protocol, System, call, run, Reach, start, later}
use os_class.Lab2.Interleaved.{
  Sections, Request, remove, insert, look, role, Task, idle, locking, remove_perform, remove_test,
  remove_item, remove_reset, remove_decrement, remove_advance, insert_perform, insert_test,
  insert_store, insert_increment, look_load, look_store, look_item, leaving, first, arrive,
  lock_step, task_step, Module, Act, asks, runs, Runs, begins, acts,
}
use os_class.Lab2.Interleaved.History.{Event, looked}
use os_class.Lab2.Interleaved.Lists.{map-set, map-replicate, get_elem?-map, set_same}

module _ (p : Protocol) (ss : Sections p) where
  open p use {Shared, Place, initial, outside, begin, step}
  open ss use {section, at_section, is_outside, at_section_sound, is_outside_sound}

  -- Where a thread stands in the code of the solution.
  abbrev pub project : Task Place → Place
  project idle = outside
  project (locking r q) = q
  project (look_load k) = section Role.reader
  project (look_store k v) = section Role.reader
  project (look_item k) = section Role.reader
  project (leaving r) = section (role r)
  project _ = section Role.writer

  abbrev pub projected : Module p ss → System Shared Place
  projected s = record { shared = s.board.lock; threads = map project s.tasks }

  project-first : (r : Request) → project (first r) ≡ section (role r)
  project-first remove = refl
  project-first (insert x) = refl
  project-first (look k) = refl

  project-arrive : (r : Request) (q : Place) → project (arrive p ss r q) ≡ q
  project-arrive r q = elim (Bool-cases (at_section (role r) q)) [
    | inl there ↦ rw there (project-first r ∙ sym (at_section_sound (role r) q there))
    | inr elsewhere ↦ elim (Bool-cases (is_outside q)) [
      | inl out ↦ rw (elsewhere, out) (sym (is_outside_sound q out))
      | inr on_the_way ↦ rw (elsewhere, on_the_way)
    ]
  ]

  -- What a step is in the code of the solution: nothing, or a step there.
  abbrev Shows : Board Shared → Task Place → Board Shared × Task Place × List Event → Type 0
  Shows b t (b', t', events) =
      ((project t' ≡ project t) × (b'.lock ≡ b.lock))
      ⊎ (step b.lock (project t) ≡ some (b'.lock, project t'))

  lock_step-Shows :
      (b : Board Shared) (r : Request) (q : Place) {y : Board Shared × Task Place × List Event}
      → lock_step p ss b r q ≡ done y
      → step b.lock q ≡ some (y.0.lock, project y.1)
  unfolding lock_step
  lock_step-Shows b r q {y} e =
      carry_waiting (λ z. step b.lock q ≡ some (z.0.lock, project z.1)) (step b.lock q)
        (λ a. done (record b { lock = a.0 }, arrive p ss r a.1, [])) e
        (λ a goes returned.
          carry_done (λ z. step b.lock q ≡ some (z.0.lock, project z.1)) returned
            (goes ∙ ap (λ x. some (a.0, x)) (sym (project-arrive r a.1))))

  task_step-Shows :
      (b : Board Shared) (t : Task Place) {y : Board Shared × Task Place × List Event}
      → task_step p ss b t ≡ done y
      → Shows b t y
  unfolding task_step
  task_step-Shows b idle e = absurd (cc e)
  task_step-Shows b (locking r q) e = inr (lock_step-Shows b r q e)
  task_step-Shows b (leaving r) e = inr (lock_step-Shows b r (section (role r)) e)
  task_step-Shows b remove_test e = elim (Bool-cases (leb_ℤ b.ring_buffer_count (pos 0))) [
    | inl none_left ↦ carry_done (Shows b remove_test) (rw none_left at e) (inl (refl, refl))
    | inr some_left ↦ carry_done (Shows b remove_test) (rw some_left at e) (inl (refl, refl))
  ]
  task_step-Shows b (insert_test x) e =
      elim (Bool-cases (leb_ℤ (pos ring_size) b.ring_buffer_count)) [
        | inl full ↦ carry_done (Shows b (insert_test x)) (rw full at e) (inl (refl, refl))
        | inr room ↦ carry_done (Shows b (insert_test x)) (rw room at e) (inl (refl, refl))
      ]
  task_step-Shows b remove_item e =
      carry_checked (Shows b remove_item) (read_at b.ring_buffer b.ring_buffer_current_index)
        (λ item. done (b, remove_reset item, [])) e
        (λ a _ returned. carry_done (Shows b remove_item) returned (inl (refl, refl)))
  task_step-Shows b (remove_reset x) e =
      carry_checked (Shows b (remove_reset x))
        (write_at b.ring_buffer b.ring_buffer_current_index init_value)
        (λ ring. done (record b { ring_buffer = ring }, remove_decrement x, [])) e
        (λ a _ returned. carry_done (Shows b (remove_reset x)) returned (inl (refl, refl)))
  task_step-Shows b (insert_store x) e =
      carry_checked (Shows b (insert_store x))
        (write_at b.ring_buffer
          (rem (add32 b.ring_buffer_current_index b.ring_buffer_count) ring_size) x)
        (λ ring. done (record b { ring_buffer = ring }, insert_increment x, [])) e
        (λ a _ returned. carry_done (Shows b (insert_store x)) returned (inl (refl, refl)))
  task_step-Shows b (look_item k) e =
      carry_checked (Shows b (look_item k)) (read_at b.ring_buffer (pos (k % ring_size)))
        (λ item. done (b, leaving (look k), looked item ∷ [])) e
        (λ a _ returned. carry_done (Shows b (look_item k)) returned (inl (refl, refl)))
  task_step-Shows b remove_perform e = carry_done (Shows b remove_perform) e (inl (refl, refl))
  task_step-Shows b (remove_decrement x) e =
      carry_done (Shows b (remove_decrement x)) e (inl (refl, refl))
  task_step-Shows b (remove_advance x) e =
      carry_done (Shows b (remove_advance x)) e (inl (refl, refl))
  task_step-Shows b (insert_perform x) e =
      carry_done (Shows b (insert_perform x)) e (inl (refl, refl))
  task_step-Shows b (insert_increment x) e =
      carry_done (Shows b (insert_increment x)) e (inl (refl, refl))
  task_step-Shows b (look_load k) e = carry_done (Shows b (look_load k)) e (inl (refl, refl))
  task_step-Shows b (look_store k v) e = carry_done (Shows b (look_store k v)) e (inl (refl, refl))

  abbrev at_lock : Shared → List Place → System Shared Place
  at_lock l threads = record { shared = l; threads = threads }

  set-projected :
      (l : Shared) (xs : List (Task Place)) (i : ℕ) (t : Task Place)
      → at_lock l (set (map project xs) i (project t)) ≡ at_lock l (map project (set xs i t))
  set-projected l xs i t = ap (at_lock l) (sym (map-set project xs i t))

  stay-projected :
      {l l' : Shared} (xs : List (Task Place)) (i : ℕ) {t : Task Place} (t' : Task Place)
      → get_elem? xs i ≡ some t
      → project t' ≡ project t
      → l' ≡ l
      → at_lock l (map project xs) ≡ at_lock l' (map project (set xs i t'))
  stay-projected {l} {l'} xs i t' here place lock =
      rw (lock, map-set project xs i t', place)
        (ap (at_lock l) (sym (set_same (map project xs) i (get_elem?-map project xs i here))))

  Act-projected :
      {n : ℕ} {s t : Module p ss} → Act p ss s t → Reach p n (projected s) → Reach p n (projected t)
  Act-projected {s} (asks i r here ok) reached =
      subst (Reach p _) (set-projected s.board.lock s.tasks i (locking r (begin (role r))))
        (later reached (call i (role r) (get_elem?-map project s.tasks i here)))
  Act-projected {s} (runs i {next} {b} here goes) reached = elim (task_step-Shows s.board _ goes) [
    | inl (place, lock) ↦ subst (Reach p _) (stay-projected s.tasks i next here place lock) reached
    | inr moves ↦
        subst (Reach p _) (set-projected b.lock s.tasks i next)
          (later reached (run i (get_elem?-map project s.tasks i here) moves))
  ]

  -- The threads are where the solution alone could have taken them.
  pub Runs-projected : {n : ℕ} {s : Module p ss} → Runs p ss n s → Reach p n (projected s)
  Runs-projected {n} begins =
      subst (Reach p n) (ap (at_lock initial) (sym (map-replicate project n idle))) start
  Runs-projected (acts before act) = Act-projected act (Runs-projected before)
