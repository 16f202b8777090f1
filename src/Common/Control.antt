-- ===== src/Common/Control.antt =====
-- How a call of C code ends, and sequencing of such calls.
use mathlib.Core.Option.{Option, none, some}
use mathlib.Core.Path.{◌≡◌, refl, subst}

-- `blocked`: the caller waits for a lock that nobody releases; `fault`: an access outside an array.
pub data Outcome {ℓ} (A : Type ℓ) : Type ℓ where
  done : A → Outcome A
  blocked : Outcome A
  fault : Outcome A

infixl 5 ◌>>=◌
abbrev pub ◌>>=◌ {ℓ κ} : {A : Type ℓ} {B : Type κ} → Outcome A → (A → Outcome B) → Outcome B
done a >>= f = f a
blocked >>= f = blocked
fault >>= f = fault

-- An operation that waits when it answers `none`.
abbrev pub waiting {ℓ} : {A : Type ℓ} → Option A → Outcome A
waiting none = blocked
waiting (some a) = done a

-- An array access that is outside the array when it answers `none`.
abbrev pub checked {ℓ} : {A : Type ℓ} → Option A → Outcome A
checked none = fault
checked (some a) = done a

-- A property of what a call gives, from what the code computes.
pub carry_done {ℓ κ} : {A : Type ℓ} {x y : A} (P : A → Type κ) → done x ≡ done y → P x → P y
carry_done P e h = subst P (cc e) h

pub carry_checked {ℓ κ μ} :
    {A : Type ℓ} {B : Type κ} {y : B} (P : B → Type μ) (o : Option A) (f : A → Outcome B)
    → (checked o >>= f) ≡ done y
    → ((a : A) → o ≡ some a → f a ≡ done y → P y)
    → P y
carry_checked P none f e h = absurd (cc e)
carry_checked P (some a) f e h = h a refl e

pub carry_waiting {ℓ κ μ} :
    {A : Type ℓ} {B : Type κ} {y : B} (P : B → Type μ) (o : Option A) (f : A → Outcome B)
    → (waiting o >>= f) ≡ done y
    → ((a : A) → o ≡ some a → f a ≡ done y → P y)
    → P y
carry_waiting P none f e h = absurd (cc e)
carry_waiting P (some a) f e h = h a refl e
