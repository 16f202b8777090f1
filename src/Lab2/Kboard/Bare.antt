-- ===== src/Lab2/Kboard/Bare.antt =====
-- Calls of the handlers of lab2/KboardModule.c that end the same way with and without synchronisation.
use mathlib.Core.Path.{subst}
use os_class.Common.{◌≡◌, refl, ap₂, List, ℤ, Outcome, done, blocked, fault, ◌>>=◌, carry_done}
use os_class.Lab2.Kboard.{Board, Line}
use os_class.Lab2.Kboard.Api.{CriticalSection}

-- No synchronisation at all.
abbrev pub no_section : CriticalSection
no_section = record {
  Lock = Unit;
  IsQuiet = λ l. Unit;
  initial_lock = tt;
  initial_lock-IsQuiet = tt;
  enter_writer = done;
  leave_writer = done;
  enter_reader = done;
  leave_reader = done;
  writer_section = λ l q. (l, refl, l, refl, tt);
  reader_section = λ l q. (l, refl, l, refl, tt);
}

-- The board without the variables of the synchronisation.
abbrev pub bare : {L : Type 0} → Board L → Board Unit
bare b = record {
  lock = tt;
  ring_buffer = b.ring_buffer;
  ring_buffer_count = b.ring_buffer_count;
  ring_buffer_current_index = b.ring_buffer_current_index;
  perform_writer = b.perform_writer;
  perform_reader = b.perform_reader;
}

-- Both calls end the same way, with results that are related.
abbrev pub Both : {A B : Type 0} → (A → B → Type 0) → Outcome A → Outcome B → Type 0
Both R (done a) (done b) = R a b
Both R blocked blocked = Unit
Both R fault fault = Unit
Both R o o' = ⊥

-- The same value beside the same board, but for the lock, which has a property.
abbrev pub Same : {L X : Type 0} → (L → Type 0) → X × Board L → X × Board Unit → Type 0
Same R y y' = (y.0 ≡ y'.0) × (bare y.1 ≡ y'.1) × R y.1.lock

abbrev pub SameShown :
    {L : Type 0} → (L → Type 0) → ℤ × List Line × Board L → ℤ × List Line × Board Unit → Type 0
SameShown R y y' = (y.0 ≡ y'.0) × (y.1 ≡ y'.1) × (bare y.2 ≡ y'.2) × R y.2.lock

pub Both-bind :
    {L X B B' : Type 0} (R : L → Type 0) (T : B → B' → Type 0) (o : Outcome (X × Board L))
    (o' : Outcome (X × Board Unit)) (f : X × Board L → Outcome B) (f' : X × Board Unit → Outcome B')
    → Both (Same R) o o'
    → ((x : X) (b : Board L) → R b.lock → Both T (f (x, b)) (f' (x, bare b)))
    → Both T (o >>= f) (o' >>= f')
Both-bind R T (done (x, b)) (done (x', b')) f f' (ex, eb, r) h =
    subst (λ z. Both T (f (x, b)) (f' z)) (ap₂ (λ a c. (a, c)) ex eb) (h x b r)
Both-bind R T blocked blocked f f' r h = tt
Both-bind R T fault fault f f' r h = tt
Both-bind R T (done y) blocked f f' r h = absurd r
Both-bind R T (done y) fault f f' r h = absurd r
Both-bind R T blocked (done y) f f' r h = absurd r
Both-bind R T blocked fault f f' r h = absurd r
Both-bind R T fault (done y) f f' r h = absurd r
Both-bind R T fault blocked f f' r h = absurd r

pub SameShown-bind :
    {L B B' : Type 0} (R : L → Type 0) (T : B → B' → Type 0) (o : Outcome (ℤ × List Line × Board L))
    (o' : Outcome (ℤ × List Line × Board Unit)) (f : ℤ × List Line × Board L → Outcome B)
    (f' : ℤ × List Line × Board Unit → Outcome B')
    → Both (SameShown R) o o'
    → ((x : ℤ) (lines : List Line) (b : Board L)
        → R b.lock
        → Both T (f (x, lines, b)) (f' (x, lines, bare b)))
    → Both T (o >>= f) (o' >>= f')
SameShown-bind R T (done (x, lines, b)) (done (x', lines', b')) f f' (ex, el, eb, r) h =
    subst (λ a. Both T (f (x, lines, b)) (f' (a, lines', b'))) ex
      (subst (λ ls. Both T (f (x, lines, b)) (f' (x, ls, b'))) el
        (subst (λ c. Both T (f (x, lines, b)) (f' (x, lines, c))) eb (h x lines b r)))
SameShown-bind R T blocked blocked f f' r h = tt
SameShown-bind R T fault fault f f' r h = tt
SameShown-bind R T (done y) blocked f f' r h = absurd r
SameShown-bind R T (done y) fault f f' r h = absurd r
SameShown-bind R T blocked (done y) f f' r h = absurd r
SameShown-bind R T blocked fault f f' r h = absurd r
SameShown-bind R T fault (done y) f f' r h = absurd r
SameShown-bind R T fault blocked f f' r h = absurd r

-- Where one of the calls returns, so does the other.
pub Both-done :
    {A B : Type 0} (R : A → B → Type 0) (o : Outcome A) (o' : Outcome B) {a : A}
    → Both R o o'
    → o ≡ done a
    → (b : B) × (o' ≡ done b) × R a b
Both-done R (done a) (done b) r e = (b, refl, carry_done (λ x. R x b) e r)
Both-done R (done a) blocked r e = absurd r
Both-done R (done a) fault r e = absurd r
Both-done R blocked o' r e = absurd (cc e)
Both-done R fault o' r e = absurd (cc e)

pub done-Both :
    {A B : Type 0} (R : A → B → Type 0) (o : Outcome A) (o' : Outcome B) {b : B}
    → Both R o o'
    → o' ≡ done b
    → (a : A) × (o ≡ done a) × R a b
done-Both R (done a) (done b) r e = (a, refl, carry_done (λ x. R a x) e r)
done-Both R blocked (done b) r e = absurd r
done-Both R fault (done b) r e = absurd r
done-Both R o blocked r e = absurd (cc e)
done-Both R o fault r e = absurd (cc e)
