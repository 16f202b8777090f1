-- ===== src/Lab2/Interleaved/Current.antt =====
-- Under a solution that excludes, the board of lab2/KboardModule.c is at every moment where the
-- handlers that have completed have brought the queue.
use mathlib.Core.Path.{subst}
use os_class.Common.{
  ℕ, ◌+◌, ◌<◌, ◌^◌, ◌≡◌, ◌≢◌, refl, sym, ap, ◌∙◌, inl, inr, true, false, some, List, [], ◌++◌, ℤ,
  get_elem?, set, carry_done, Bool-cases, ℕ_discrete,
}
use os_class.Lab2.Kboard.{Board}
use os_class.Lab2.Sync.System.{Protocol, Reach}
use os_class.Lab2.Interleaved.{
  Sections, role, Task, idle, locking, Module, Act, asks, runs, Runs, begins, acts,
}
use os_class.Lab2.Interleaved.History.{Event, replay, replay-append}
use os_class.Lab2.Interleaved.Lists.{
  set_cases, get_elem?-set_self, get_elem?-set_ne, get_elem?-replicate,
}
use os_class.Lab2.Interleaved.Project.{projected, Runs-projected}
use os_class.Lab2.Interleaved.Holding.{fresh-Holds}
use os_class.Lab2.Interleaved.Bodies.{is_inside, FoundOn, body_step}
use os_class.Lab2.Interleaved.Quiet.{found_at_rest, looks_at_rest, step-Quiet, Quiet}
use os_class.Lab2.Interleaved.Excludes.{Excludes, is_busy, quiet_lem, busy_lem, busy-alone}

module _ (p : Protocol) (ss : Sections p) where
  open p use {Shared, Place, step}

  -- Nobody is changing the ring.
  abbrev pub IsFree : List (Task Place) → Type 0
  IsFree tasks = (i : ℕ) (t : Task Place) → get_elem? tasks i ≡ some t → is_busy t ≡ false

  -- The queue that the history leaves, and the ring with it.
  pub record Current (s : Module p ss) (q : List ℤ) : Type 0 where
    pub legal : replay s.history [] ≡ some q
    pub changing :
        (i : ℕ) (t : Task Place)
        → get_elem? s.tasks i ≡ some t
        → is_busy t ≡ true
        → FoundOn s.board t q
    pub at_rest : IsFree s.tasks → FoundOn {P = Place} s.board idle q

  before-IsFree :
      (s : Module p ss) (i : ℕ) (t : Task Place)
      → get_elem? s.tasks i ≡ some t
      → is_inside t ≡ false
      → ((k : ℕ) (v : Task Place) → i ≢ k → get_elem? s.tasks k ≡ some v → is_busy v ≡ false)
      → IsFree s.tasks
  before-IsFree s i t here outside others k v there = elim (ℕ_discrete i k) [
    | yes same ↦ cc (quiet_lem t outside, same, here, there)
    | no other ↦ others k v other there
  ]

  module _ (ex : Excludes p ss) {n : ℕ} (few : n + 1 < 2 ^ 31) where
    -- A thread in a critical section finds what its statement needs.
    pub found_inside :
        (s : Module p ss) (q : List ℤ)
        → Reach p n (projected p ss s)
        → Current s q
        → (i : ℕ) (t : Task Place) → get_elem? s.tasks i ≡ some t
        → is_inside t ≡ true
        → FoundOn s.board t q
    found_inside s q reached inv i t here inside = elim (Bool-cases (is_busy t)) [
      | inl busy ↦ inv.changing i t here busy
      | inr looks ↦ looks_at_rest p ss s.board t q looks (
          inv.at_rest (λ j u there. elim (Bool-cases (is_busy u)) [
            | inl busy ↦ absurd (
                cc (
                  busy-alone p ss ex s few reached j i there busy here inside,
                  there,
                  here,
                  busy,
                  looks,
                ))
            | inr free ↦ free
          ]))
    ]

    inside_Current :
        (s : Module p ss) (q : List ℤ)
        → Reach p n (projected p ss s)
        → Current s q
        → (i : ℕ) (t next : Task Place) (b : Board Shared) (events : List Event)
        → get_elem? s.tasks i ≡ some t
        → is_inside t ≡ true
        → (q' : List ℤ) → replay events q ≡ some q'
        → FoundOn b next q'
        → Current
            (record { board = b; tasks = set s.tasks i next; history = events ++ s.history })
            q'
    inside_Current s q reached inv i t next b events here inside q' legal found = record {
      legal = replay-append events s.history [] inv.legal legal;
      changing = λ j u there busy. elim (set_cases s.tasks i j here there) [
        | inl (same, e) ↦ subst (λ v. FoundOn b v q') e found
        | inr (other, before) ↦
            absurd (other (sym (busy-alone p ss ex s few reached j i before busy here inside)))
      ];
      at_rest = λ free.
          found_at_rest p ss b next q' (free i next (get_elem?-set_self s.tasks i next here)) found;
    }

    keep-Current :
        (s : Module p ss) (q : List ℤ)
        → Current s q
        → (i : ℕ) (t next : Task Place) (b : Board Shared)
        → Reach p n
            (projected p ss (record { board = b; tasks = set s.tasks i next; history = s.history }))
        → get_elem? s.tasks i ≡ some t
        → is_inside t ≡ false
        → Quiet p ss s.board (b, next, [])
        → Current (record { board = b; tasks = set s.tasks i next; history = s.history }) q
    keep-Current s q inv i t next b reached here outside (_, kept, arrived) = record {
      legal = inv.legal;
      changing = λ j u there busy. elim (set_cases s.tasks i j here there) [
        | inl (same, e) ↦
            subst (λ v. FoundOn b v q) e
              (arrived q (
                inv.at_rest (
                  before-IsFree s i t here outside (λ k v d at_k. elim (Bool-cases (is_busy v)) [
                    | inl changing ↦ absurd (
                        d (
                          same
                          ∙ sym (
                              busy-alone p ss ex
                                (record {
                                  board = b;
                                  tasks = set s.tasks i next;
                                  history = s.history;
                                })
                                few reached k j (get_elem?-set_ne s.tasks i k next d ∙ at_k)
                                changing there (busy_lem u busy))))
                    | inr free ↦ free
                  ]))))
        | inr (other, before) ↦ kept q u (inv.changing j u before busy)
      ];
      at_rest = λ free. kept q idle (
          inv.at_rest (
            before-IsFree s i t here outside
              (λ k v d at_k. free k v (get_elem?-set_ne s.tasks i k next d ∙ at_k))));
    }

    Act-Current :
        (s t : Module p ss) (q : List ℤ)
        → Reach p n (projected p ss s)
        → Reach p n (projected p ss t)
        → Act p ss s t
        → Current s q
        → (q' : List ℤ) × Current t q'
    Act-Current s _ q reached reached' (asks i r here ok) inv = (
      q,
      keep-Current s q inv i idle (locking r (p.begin (role r))) s.board reached' here refl
          (refl, (λ q' u m. m), (λ q' m. m)),
    )
    Act-Current s _ q reached reached' (runs i {t} {next} {b} {events} here goes) inv =
        elim (Bool-cases (is_inside t)) [
          | inl inside ↦
              let (y, q', goes', legal, found) =
                body_step p ss s.board t q inside (found_inside s q reached inv i t here inside) in
              carry_done
                (λ z.
                  (r : List ℤ) × Current
                    (record { board = z.0; tasks = set s.tasks i z.1; history = z.2 ++ s.history })
                    r)
                (sym goes' ∙ goes)
                (q', inside_Current s q reached inv i t y.1 y.0 y.2 here inside q' legal found)
          | inr outside ↦
              let (silent, kept, arrived) = step-Quiet p ss s.board t outside goes in
              (
                q,
                subst
                    (λ es.
                      Current
                        (record {
                          board = b;
                          tasks = set s.tasks i next;
                          history = es ++ s.history;
                        })
                        q)
                    (sym silent)
                    (keep-Current s q inv i t next b reached' here outside (refl, kept, arrived)),
              )
        ]

    pub Runs-Current : (s : Module p ss) → Runs p ss n s → (q : List ℤ) × Current s q
    Runs-Current _ begins = (
      [],
      record {
        legal = refl;
        changing =
            λ i t here busy. absurd (cc (ap is_busy (get_elem?-replicate n i idle here), busy));
        at_rest = λ free. fresh-Holds;
      },
    )
    Runs-Current t (acts {s} before act) =
        let (q, inv) = Runs-Current s before in
        Act-Current s t q (Runs-projected p ss before) (Runs-projected p ss (acts before act)) act
          inv
