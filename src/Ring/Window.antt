-- ===== src/Ring/Window.antt =====
-- The run of slots that starts at an index of the ring and goes round at its end.
use os_class.Common.{
  ℕ, zero, suc, ◌+◌, ◌-◌, ◌%◌, ◌≤◌, ◌<◌, ◌≡◌, refl, ap, ap₂, ◌∙◌, some, List, [], ◌∷◌, ◌++◌, arith,
  ℤ, pos, length, get_elem?, get_or, set, get_or-set_self, get_or-set_ne,
}

-- The `n` slots from `h` on.
abbrev pub window : List ℤ → ℕ → ℕ → List ℤ
window buf h zero = []
window buf h (suc n) = get_or buf h (pos 0) ∷ window buf ((h + 1) % 5) n

pub length-window : (buf : List ℤ) (h n : ℕ) → length (window buf h n) ≡ n
length-window buf h zero = refl
length-window buf h (suc n) = ap suc (length-window buf ((h + 1) % 5) n)

-- The code tests and decrements the count where `window` matches on it.
pub window_of_pos :
    (buf : List ℤ) (h n : ℕ)
    → 0 < n
    → window buf h n ≡ get_or buf h (pos 0) ∷ window buf ((h + 1) % 5) (n - 1)
window_of_pos buf h zero p = absurd (omega arith)
window_of_pos buf h (suc n) p = ap (λ k. window buf h (suc k)) (omega arith)

shift : (h k : ℕ) → (h + suc k) % 5 ≡ ((h + 1) % 5 + k) % 5
shift h k = omega arith

-- A write to a slot behind the window does not change it.
pub window-set :
    (buf : List ℤ) (v : ℤ) (n h k : ℕ)
    → h < 5
    → n ≤ k
    → k < 5
    → window (set buf ((h + k) % 5) v) h n ≡ window buf h n
window-set buf v zero h k hh nk kk = refl
window-set buf v (suc n) h zero hh nk kk = absurd (omega arith)
window-set buf v (suc n) h (suc k) hh nk kk = ap₂ ◌∷◌ (get_or-set_ne buf v (pos 0) (omega arith)) (
    ap (λ i. window (set buf i v) ((h + 1) % 5) n) (shift h k)
    ∙ window-set buf v n ((h + 1) % 5) k (omega arith) (omega arith) (omega arith))

-- A longer window is a shorter one and the slot behind it.
pub window-suc :
    (buf : List ℤ) (n h : ℕ)
    → h < 5
    → window buf h (suc n) ≡ window buf h n ++ (get_or buf ((h + n) % 5) (pos 0) ∷ [])
window-suc buf zero h hh = ap (λ k. get_or buf k (pos 0) ∷ []) (omega arith)
window-suc buf (suc n) h hh =
    ap (λ xs. get_or buf h (pos 0) ∷ xs)
      (rw (shift h n) (window-suc buf n ((h + 1) % 5) (omega arith)))

-- Writing just behind the window extends it.
pub window-set_next :
    (buf : List ℤ) (v : ℤ) (h n : ℕ)
    → length buf ≡ 5
    → h < 5
    → n < 5
    → window (set buf ((h + n) % 5) v) h (n + 1) ≡ window buf h n ++ (v ∷ [])
window-set_next buf v h n size hh hn =
    ap (window (set buf ((h + n) % 5) v) h) {y = suc n} (omega arith)
    ∙ window-suc (set buf ((h + n) % 5) v) n h hh
    ∙ ap₂ (λ xs x. xs ++ (x ∷ [])) (window-set buf v n h n hh (omega arith) hn)
        (get_or-set_self buf ((h + n) % 5) v (pos 0) (omega arith))

-- Writing the first slot does not change what follows it.
pub window-set_first :
    (buf : List ℤ) (v : ℤ) (h n : ℕ)
    → h < 5
    → n < 5
    → window (set buf h v) ((h + 1) % 5) n ≡ window buf ((h + 1) % 5) n
window-set_first buf v h n hh hn =
    ap (λ k. window (set buf k v) ((h + 1) % 5) n) around
    ∙ window-set buf v n ((h + 1) % 5) 4 (omega arith) (omega arith) (omega arith)
  where
    around : h ≡ ((h + 1) % 5 + 4) % 5
    around = omega arith

-- The slot of each place of the window.
pub get_elem?-window :
    (buf : List ℤ) (n h k : ℕ)
    → h < 5
    → k < n
    → get_elem? (window buf h n) k ≡ some (get_or buf ((h + k) % 5) (pos 0))
get_elem?-window buf zero h k hh hk = absurd (omega arith)
get_elem?-window buf (suc n) h zero hh hk = ap (λ i. some (get_or buf i (pos 0))) (omega arith)
get_elem?-window buf (suc n) h (suc k) hh hk =
    rw (shift h k) (get_elem?-window buf n ((h + 1) % 5) k (omega arith) (omega arith))
