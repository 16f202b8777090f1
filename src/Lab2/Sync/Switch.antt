-- ===== src/Lab2/Sync/Switch.antt =====
-- The light switch that KboardModule.c uses three times: threads of one kind count themselves under a
-- mutex, the first of them takes a resource for all and the last one gives it back.
use Prim.Native.Nat.{min}
use os_class.Common.{
  [], ◌∷◌, length, ℕ, ◌+◌, ◌≤◌, ◌≡◌, refl, some, List, get_elem?, set, replicate, total, total-set,
  total-replicate, arith,
}

-- Where a thread stands in the code of the switch.
pub data Stage : Type 0 where
  away : Stage
  counting : Stage  -- has the mutex, before `count++`
  testing : Stage  -- before `if (count == 1)`
  first : Stage  -- before the `down` of the resource
  leaving_in : Stage  -- before the `up` of the mutex
  settled : Stage  -- between the two parts
  discounting : Stage  -- has the mutex, before `count--`
  draining : Stage  -- before `if (count == 0)`
  last : Stage  -- before the `up` of the resource
  leaving_out : Stage  -- before the `up` of the mutex

-- Has the mutex, and no share in the resource.
abbrev pub is_other : Stage → ℕ
is_other counting = 1
is_other leaving_out = 1
is_other _ = 0

-- Has the mutex and a share in the resource.
abbrev pub is_passing : Stage → ℕ
is_passing leaving_in = 1
is_passing discounting = 1
is_passing _ = 0

abbrev pub is_settled : Stage → ℕ
is_settled settled = 1
is_settled _ = 0

abbrev pub is_testing : Stage → ℕ
is_testing testing = 1
is_testing _ = 0

abbrev pub is_first : Stage → ℕ
is_first first = 1
is_first _ = 0

abbrev pub is_draining : Stage → ℕ
is_draining draining = 1
is_draining _ = 0

abbrev pub is_last : Stage → ℕ
is_last last = 1
is_last _ = 0

module _ {P : Type 0} (stage : P → Stage) where
  -- The number of threads at the stages of a weight.
  abbrev pub number : (Stage → ℕ) → List P → ℕ
  number w ps = total (λ p. w (stage p)) ps

  -- The threads that share the resource.
  abbrev pub group : List P → ℕ
  group ps = number is_passing ps + number is_settled ps

  -- The threads that the count counts.
  abbrev pub counted : List P → ℕ
  counted ps = number is_testing ps + number is_first ps + group ps

  -- The mutex has one holder, and the resource is free, or with one other holder, or with the group.
  pub record Switch (ps : List P) (mutex resource others : ℕ) : Type 0 where
    pub one :
        mutex
          + number is_other ps
          + number is_passing ps
          + number is_testing ps
          + number is_first ps
          + number is_draining ps
          + number is_last ps
        ≡ 1
    pub first_alone : min 1 (number is_first ps) + min 1 (group ps) ≤ 1
    pub last_alone : min 1 (number is_last ps) + min 1 (group ps) ≤ 1
    pub token : resource + others + min 1 (group ps + number is_draining ps + number is_last ps) ≡ 1

  -- How the numbers change when thread `i` goes from `p` to `q`.
  pub record Moved (ps : List P) (i : ℕ) (p q : P) : Type 0 where
    pub other :
        number is_other (set ps i q) + is_other (stage p) ≡ number is_other ps + is_other (stage q)
    pub passing :
        number is_passing (set ps i q) + is_passing (stage p)
        ≡ number is_passing ps + is_passing (stage q)
    pub settling :
        number is_settled (set ps i q) + is_settled (stage p)
        ≡ number is_settled ps + is_settled (stage q)
    pub tests :
        number is_testing (set ps i q) + is_testing (stage p)
        ≡ number is_testing ps + is_testing (stage q)
    pub firsts :
        number is_first (set ps i q) + is_first (stage p) ≡ number is_first ps + is_first (stage q)
    pub drains :
        number is_draining (set ps i q) + is_draining (stage p)
        ≡ number is_draining ps + is_draining (stage q)
    pub lasts :
        number is_last (set ps i q) + is_last (stage p) ≡ number is_last ps + is_last (stage q)

  pub moved : (ps : List P) (i : ℕ) {p : P} (q : P) → get_elem? ps i ≡ some p → Moved ps i p q
  moved ps i q e = record {
    other = total-set (λ x. is_other (stage x)) ps i q e;
    passing = total-set (λ x. is_passing (stage x)) ps i q e;
    settling = total-set (λ x. is_settled (stage x)) ps i q e;
    tests = total-set (λ x. is_testing (stage x)) ps i q e;
    firsts = total-set (λ x. is_first (stage x)) ps i q e;
    drains = total-set (λ x. is_draining (stage x)) ps i q e;
    lasts = total-set (λ x. is_last (stage x)) ps i q e;
  }

  -- With all threads away the mutex and the resource are free.
  pub Switch-init : (n : ℕ) (p : P) → stage p ≡ away → Switch (replicate n p) 1 1 0
  Switch-init n p e = record {
    one = omega (arith, other, passing, testing', firsts, drains, lasts);
    first_alone = omega (arith, firsts);
    last_alone = omega (arith, lasts);
    token = omega (arith, passing, settling, drains, lasts);
  }
    where
      none_of : (w : Stage → ℕ) → w away ≡ 0 → number w (replicate n p) ≡ 0
      none_of w h = total-replicate (λ x. w (stage x)) n p (rw e h)

      other : number is_other (replicate n p) ≡ 0
      other = none_of is_other refl

      passing : number is_passing (replicate n p) ≡ 0
      passing = none_of is_passing refl

      settling : number is_settled (replicate n p) ≡ 0
      settling = none_of is_settled refl

      testing' : number is_testing (replicate n p) ≡ 0
      testing' = none_of is_testing refl

      firsts : number is_first (replicate n p) ≡ 0
      firsts = none_of is_first refl

      drains : number is_draining (replicate n p) ≡ 0
      drains = none_of is_draining refl

      lasts : number is_last (replicate n p) ≡ 0
      lasts = none_of is_last refl

  -- Each thread counts at most once.
  pub counted-le-length : (ps : List P) → counted ps ≤ length ps
  unfolding total
  counted-le-length [] = omega arith
  counted-le-length (p ∷ ps) = omega (arith, counted-le-length ps, at_most_one (stage p))
    where
      at_most_one : (s : Stage) → is_testing s + is_first s + is_passing s + is_settled s ≤ 1
      at_most_one away = omega arith
      at_most_one _ = omega arith

  pub counted-init : (n : ℕ) (p : P) → stage p ≡ away → counted (replicate n p) ≡ 0
  counted-init n p e = omega (
    arith,
    total-replicate (λ x. is_testing (stage x)) n p (rw e),
    total-replicate (λ x. is_first (stage x)) n p (rw e),
    total-replicate (λ x. is_passing (stage x)) n p (rw e),
    total-replicate (λ x. is_settled (stage x)) n p (rw e),
  )
