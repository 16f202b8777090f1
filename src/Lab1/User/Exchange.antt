-- ===== src/Lab1/User/Exchange.antt =====
-- copy_sync_test.c and paste_sync_test.c against one board, in any order of their rounds.
use os_class.Common.{
  ℕ, zero, suc, ◌+◌, ◌≡◌, ◌≤◌, ◌<◌, ◌^◌, refl, sym, ap, ap₂, ◌∙◌, List, [], ◌∷◌, ◌++◌, ℤ, pos,
  Outcome, done, ◌>>=◌, true, eqb_ℤ, inc32, inc32-pos, some, none, length, arith, inl, inr,
}
use os_class.Fifo
use os_class.Fifo.Laws
use os_class.Lab1.Kernel.Api.{KernelApi}
use os_class.Lab1.Kernel.Inv.{IsValid}
use os_class.Lab1.Kernel.Dequeue.{delivers, Delivered}
use os_class.Lab1.User.{World, Paster, copy_round, paste_round}
use os_class.Lab1.User.Calls.{queue, copy_call, paste_call}
use os_class.Lab1.User.Programs.{libc_result-refused}

-- Whose round comes next.
pub data Turn : Type 0 where
  copies pastes : Turn

pub record Session (Lock Mem : Type 0) : Type 0 where
  pub value : ℤ
  pub paster : Paster
  pub world : World Lock Mem

-- The `k` clips from `pos e` on.
abbrev pub clips_from : ℕ → ℕ → List ℤ
clips_from e zero = []
clips_from e (suc k) = pos e ∷ clips_from (suc e) k

clips_from-suc : (k e : ℕ) → clips_from e k ++ (pos (e + k) ∷ []) ≡ clips_from e (suc k)
clips_from-suc zero e = ap (λ n. pos n ∷ []) (omega arith)
clips_from-suc (suc k) e =
    ap (λ l. pos e ∷ l)
      (ap (λ n. clips_from (suc e) k ++ (pos n ∷ [])) {y = suc e + k} (omega arith)
        ∙ clips_from-suc k (suc e))

module _ (api : KernelApi) (p : api.Ptr) where
  open api use {Lock, Mem, load_int}

  pub turn : Turn → Session Lock Mem → Outcome (Session Lock Mem)
  turn copies s =
      copy_round api s.value s.world >>= λ r. done (record s { value = r.0; world = r.1 })
  turn pastes s =
      paste_round api p s.paster s.world >>= λ r. done (record s { paster = r.0; world = r.1 })

  unfoldable pub exchange : List Turn → Session Lock Mem → Outcome (Session Lock Mem)
  unfolding turn
  exchange [] s = done s
  exchange (t ∷ ts) s = turn t s >>= exchange ts

  -- `k` clips are on the board, from the one that the paster expects to the one before the copier's.
  pub record InStep (e k : ℕ) (s : Session Lock Mem) : Type 0 where
    pub valid : IsValid api s.world.board
    pub expected : s.paster.expect_value ≡ pos e
    pub next : s.value ≡ pos (e + k)
    pub between : queue api s.world ≡ clips_from e k
    pub silent : s.paster.printed ≡ none

  -- The session after a turn, which has moved by at most one number.
  abbrev Moves : ℕ → ℕ → Turn → Session Lock Mem → Type 0
  Moves e k t s =
      (s' : Session Lock Mem) × (turn t s ≡ done s')
      × (e' : ℕ) × (k' : ℕ) × (e' + k' ≤ e + k + 1)
      × InStep e' k' s'

  copy_moves :
      (e k : ℕ) (s : Session Lock Mem) → InStep e k s → e + k + 1 < 2 ^ 31 → Moves e k copies s
  unfolding turn copy_round
  copy_moves e k s i small =
      let (w', c, v', q, _) = copy_call api s.value s.world i.valid in
      elim (Laws.enqueue_cases s.value (queue api s.world)) [
        | inl (r, _) ↦ (
          record s { value = inc32 s.value; world = w' },
          rw (c, r),
          e,
          suc k,
          omega arith,
          record {
            valid = v';
            expected = i.expected;
            next = rw i.next (inc32-pos (e + k) small ∙ ap pos (omega arith));
            between =
                q
                ∙ ap (λ x. x.1) r
                ∙ ap₂ (λ l x. l ++ (x ∷ [])) i.between i.next
                ∙ clips_from-suc k e;
            silent = i.silent;
          },
        )
        | inr (n, r, few) ↦ (
          record s { world = w' },
          rw (c, r, libc_result-refused n few),
          e,
          k,
          omega arith,
          record {
            valid = v';
            expected = i.expected;
            next = i.next;
            between = q ∙ ap (λ x. x.1) r ∙ i.between;
            silent = i.silent;
          },
        )
      ]

  -- The clip at the head of the queue is the one that the paster expects.
  head_expected :
      (e k : ℕ) {x : ℤ} {rest : List ℤ}
      → clips_from e k ≡ x ∷ rest
      → (k' : ℕ) × (k ≡ suc k') × (x ≡ pos e) × (rest ≡ clips_from (suc e) k')
  head_expected e zero h = absurd (cc h)
  head_expected e (suc k) h = (k, refl, cc h, cc h)

  matches : (e : ℕ) (x y : ℤ) → x ≡ pos e → y ≡ pos e → eqb_ℤ x y ≡ true
  matches e x y hx hy = rw (hx, hy) (ground arith)

  paste_moves :
      (e k : ℕ) (s : Session Lock Mem) → InStep e k s → e + k + 1 < 2 ^ 31 → Moves e k pastes s
  unfolding turn paste_round
  paste_moves e k s i small =
      let (w', c, v', q, d) = paste_call api p s.world i.valid in
      let counted = record s.paster { iteration = inc32 s.paster.iteration } in
      elim (Laws.dequeue_cases (delivers api p s.world.memory) (queue api s.world)) [
        | inl (x, rest, split, r) ↦
            let (k', longer, here, others) = head_expected e k (sym i.between ∙ split) in
            (
              record s {
                paster = record counted { expect_value = inc32 s.paster.expect_value };
                world = w';
              },
              rw (
                i.silent,
                c,
                r,
                loaded w' x r d,
                matches e x s.paster.expect_value here i.expected,
              ),
              suc e,
              k',
              omega (arith, longer),
              record {
                valid = v';
                expected =
                    rw i.expected (inc32-pos e (omega (arith, longer)) ∙ ap pos (omega arith));
                next = i.next ∙ ap pos (omega (arith, longer));
                between = q ∙ ap (λ y. y.2) r ∙ others;
                silent = i.silent;
              },
            )
        | inr (n, r, few) ↦ (
          record s { paster = counted; world = w' },
          rw (i.silent, c, r, libc_result-refused n few),
          e,
          k,
          omega arith,
          record {
            valid = v';
            expected = i.expected;
            next = i.next;
            between = q ∙ ap (λ y. y.2) r ∙ i.between;
            silent = i.silent;
          },
        )
      ]
    where
      loaded :
          (w' : World Lock Mem) (x : ℤ) {rest : List ℤ}
          → Fifo.dequeue (delivers api p s.world.memory) (queue api s.world) ≡ (pos 0, some x, rest)
          → Delivered api p s.world.memory
              (Fifo.dequeue (delivers api p s.world.memory) (queue api s.world)).1
              w'.memory
          → load_int w'.memory p ≡ x
      loaded w' x r d = rw r at d

  moves :
      (t : Turn) (e k : ℕ) (s : Session Lock Mem)
      → InStep e k s
      → e + k + 1 < 2 ^ 31
      → Moves e k t s
  moves copies = copy_moves
  moves pastes = paste_moves

  -- Started in step, the two programs stay in step through any order of their rounds, as long as the
  -- numbers stay below 2^31: every round returns, and the paster never reports a fault.
  pub exchange-InStep :
      (ts : List Turn) (e k : ℕ) (s : Session Lock Mem)
      → InStep e k s
      → e + k + length ts < 2 ^ 31
      → (s' : Session Lock Mem) × (exchange ts s ≡ done s') × (e' : ℕ) × (k' : ℕ) × InStep e' k' s'
  unfolding exchange
  exchange-InStep [] e k s i small = (s, refl, e, k, i)
  exchange-InStep (t ∷ ts) e k s i small =
      let (s₁, first, e₁, k₁, grows, i₁) = moves t e k s i (omega arith) in
      let (s', rest, e', k', i') = exchange-InStep ts e₁ k₁ s₁ i₁ (omega (arith, grows)) in
      (s', rw (first, rest), e', k', i')
