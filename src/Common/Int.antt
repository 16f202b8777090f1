-- ===== src/Common/Int.antt =====
-- C's `int`: signed integers, with the 32-bit wrap-around of the kernel's build
-- (`-fno-strict-overflow`), the remainder that rounds to zero, and array accesses.
use Prim.Native.Nat.{ℕ, zero, suc, ◌+◌, ◌-◌, ◌*◌, ◌%◌, ◌/◌, ◌^◌, ◌<◌, ◌≤◌}
use mathlib.Core.Path.{◌≡◌, refl, sym, ap, ◌∙◌}
use mathlib.Core.Bool.{Bool}
use mathlib.Core.Option.{Option, none, some}
use mathlib.Core.List.{List}
use native.Mathlib.Omega.{arith}
use os_class.Common.Tests.{ltb, leb, ◌==◌, if◌then◌else◌}
use os_class.Common.Lists.{length, get_elem?, set}

-- `negsuc n` is -(n + 1).
pub data ℤ : Type 0 where
  pos : ℕ → ℤ
  negsuc : ℕ → ℤ

abbrev pub pos_part : ℤ → ℕ
pos_part (pos n) = n
pos_part (negsuc n) = 0

abbrev pub neg_part : ℤ → ℕ
neg_part (pos n) = 0
neg_part (negsuc n) = suc n

abbrev pub sub_ℕ : ℕ → ℕ → ℤ
sub_ℕ a b = if leb b a then pos (a - b) else negsuc (b - a - 1)

abbrev pub leb_ℤ : ℤ → ℤ → Bool
leb_ℤ a b = leb (pos_part a + neg_part b) (pos_part b + neg_part a)

abbrev pub ltb_ℤ : ℤ → ℤ → Bool
ltb_ℤ a b = ltb (pos_part a + neg_part b) (pos_part b + neg_part a)

abbrev pub eqb_ℤ : ℤ → ℤ → Bool
eqb_ℤ a b = pos_part a + neg_part b == pos_part b + neg_part a

-- The value of the low 32 bits, read as a two's complement number.
abbrev pub of_bits : ℕ → ℤ
of_bits m = if ltb m (2 ^ 31) then pos m else negsuc (2 ^ 32 - 1 - m)

unfoldable pub wrap32 : ℤ → ℤ
wrap32 (pos n) = of_bits (n % 2 ^ 32)
wrap32 (negsuc n) = of_bits (2 ^ 32 - 1 - n % 2 ^ 32)

-- `a + b` on `int`.
unfoldable pub add32 : ℤ → ℤ → ℤ
unfolding wrap32
add32 a b = wrap32 (sub_ℕ (pos_part a + pos_part b) (neg_part a + neg_part b))

-- `a++` and `a--`.
abbrev pub inc32 : ℤ → ℤ
inc32 a = add32 a (pos 1)

abbrev pub dec32 : ℤ → ℤ
dec32 a = add32 a (negsuc 0)

abbrev pub neg_ℕ : ℕ → ℤ
neg_ℕ zero = pos 0
neg_ℕ (suc n) = negsuc n

-- `a % d` for a positive `d`: the sign is that of `a`.
abbrev pub rem : ℤ → ℕ → ℤ
rem (pos n) d = pos (n % d)
rem (negsuc n) d = neg_ℕ (suc n % d)

-- `a / d` for a positive `d`, cut off towards 0.
abbrev pub quot : ℤ → ℕ → ℤ
quot (pos n) d = pos (n / d)
quot (negsuc n) d = neg_ℕ (suc n / d)

-- `a - b` on `int`.
unfoldable pub sub32 : ℤ → ℤ → ℤ
unfolding wrap32
sub32 a b = wrap32 (sub_ℕ (pos_part a + neg_part b) (neg_part a + pos_part b))

-- `a * b` on `int`, for a positive `b`.
abbrev pub times : ℤ → ℕ → ℤ
times (pos n) b = pos (n * b)
times (negsuc n) b = neg_ℕ (suc n * b)

unfoldable pub mul32 : ℤ → ℕ → ℤ
unfolding wrap32
mul32 a b = wrap32 (times a b)

-- `xs[i]` and `xs[i] = v`; `none` is an access outside the array.
abbrev pub read_at : List ℤ → ℤ → Option ℤ
read_at xs (pos i) = get_elem? xs i
read_at xs (negsuc i) = none

abbrev pub write_at : List ℤ → ℤ → ℤ → Option (List ℤ)
write_at xs (pos i) v = if ltb i (length xs) then some (set xs i v) else none
write_at xs (negsuc i) v = none

-- Where no wrap occurs the operations are those of the numbers.
pub add32-pos : (a b : ℕ) → a + b < 2 ^ 31 → add32 (pos a) (pos b) ≡ pos (a + b)
unfolding add32
add32-pos a b h = ground arith

pub inc32-pos : (a : ℕ) → a + 1 < 2 ^ 31 → inc32 (pos a) ≡ pos (a + 1)
inc32-pos a h = add32-pos a 1 h

pub dec32-pos : (a : ℕ) → 0 < a → a < 2 ^ 31 → dec32 (pos a) ≡ pos (a - 1)
unfolding add32
dec32-pos a p h = ground arith

pub sub32-pos : (a b : ℕ) → b ≤ a → a < 2 ^ 31 → sub32 (pos a) (pos b) ≡ pos (a - b)
unfolding sub32
sub32-pos a b h small = ground arith

-- A variable that holds a number, after it was left alone, and after `++` and `--`.
pub count_same : {v : ℤ} (n m : ℕ) → v ≡ pos n → m ≡ n → v ≡ pos m
count_same n m h e = h ∙ ap pos (sym e)

pub count_more : {v : ℤ} (n m : ℕ) → v ≡ pos n → m ≡ n + 1 → n + 1 < 2 ^ 31 → inc32 v ≡ pos m
count_more n m h e few = rw h (inc32-pos n few ∙ ap pos (sym e))

pub count_fewer : {v : ℤ} (n m : ℕ) → v ≡ pos n → m + 1 ≡ n → n < 2 ^ 31 → dec32 v ≡ pos m
count_fewer n m h e few = rw h (dec32-pos n (omega arith) few ∙ ap pos (omega arith))

-- `++` on the largest `int` gives the smallest one.
inc32_wraps : inc32 (pos (2 ^ 31 - 1)) ≡ negsuc (2 ^ 31 - 1)
unfolding add32
inc32_wraps = refl

dec32_wraps : dec32 (negsuc (2 ^ 31 - 1)) ≡ pos (2 ^ 31 - 1)
unfolding add32
dec32_wraps = refl

dec32_zero : dec32 (pos 0) ≡ negsuc 0
unfolding add32
dec32_zero = refl
