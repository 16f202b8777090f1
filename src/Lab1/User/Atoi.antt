-- ===== src/Lab1/User/Atoi.antt =====
-- The C library's `atoi`, which copy.c applies to its argument, on the bytes of a text.
use os_class.Common.{
  ℕ, ◌+◌, ◌-◌, ◌*◌, ◌^◌, Bool, true, false, List, [], ◌∷◌, ℤ, pos, leb, ◌==◌, ◌&&◌, ◌||◌,
  if◌then◌else◌,
}
use os_class.Common.Int.{wrap32, neg_ℕ}

is_space : ℕ → Bool
is_space c = c == b' ' || (leb 9 c && leb c 13)

skip_space : List ℕ → List ℕ
skip_space [] = []
skip_space (c ∷ s) = elim (is_space c) [ true ↦ skip_space s | false ↦ c ∷ s ]

-- The number of the leading digits, behind those that gave `acc`.
digits : ℕ → List ℕ → ℕ
digits acc [] = acc
digits acc (c ∷ s) = elim (leb b'0' c && leb c b'9') [
  | true ↦ digits (acc * 10 + (c - b'0')) s
  | false ↦ acc
]

at_most : ℕ → ℕ → ℕ
at_most bound n = if leb n bound then n else bound

-- The number as a `long`, which `strtol` keeps within its bounds.
signed : List ℕ → ℤ
signed [] = pos 0
signed (c ∷ s) =
    if c == b'-'
    then neg_ℕ (at_most (2 ^ 63) (digits 0 s))
    else if c == b'+'
    then pos (at_most (2 ^ 63 - 1) (digits 0 s))
    else pos (at_most (2 ^ 63 - 1) (digits 0 (c ∷ s)))

-- The result of `strtol` is cast from `long` to `int`.
unfoldable pub atoi : List ℕ → ℤ
unfolding is_space skip_space digits at_most signed
atoi s = wrap32 (signed (skip_space s))
