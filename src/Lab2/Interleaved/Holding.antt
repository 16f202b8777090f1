-- ===== src/Lab2/Interleaved/Holding.antt =====
-- The ring of lab2/KboardModule.c as a queue, and what a removal and an insertion leave of it when all
-- their statements have been executed.
use os_class.Common.{
  ◌+◌, ◌%◌, ◌<◌, ◌≡◌, refl, sym, ap, ◌∙◌, true, List, [], ◌∷◌, ◌++◌, ℤ, pos, pos_part, arith, leb_ℤ,
  get_or, set, dec32, inc32, rem, length, ◌≤◌,
}
use os_class.Ring.{ring_size, init_value, IsRing, IsClean, contents}
use os_class.Ring.Slots
use os_class.Ring.Fresh.{fresh, fresh-IsRing, fresh-IsClean}

-- The ring holds a queue.
pub record Holds (buf : List ℤ) (index count : ℤ) (q : List ℤ) : Type 0 where
  pub in_order : IsRing buf index count
  pub clean : IsClean buf index count
  pub holds : contents buf index count ≡ q

pub length-q :
    {buf : List ℤ} {index count : ℤ} {q : List ℤ}
    → Holds buf index count q
    → length q ≡ pos_part count
length-q h = ap length (sym h.holds) ∙ Slots.length-contents h.in_order

-- The ring from which a removal takes the clip `x`, and the one into which an insertion stores.
pub record Taking (buf : List ℤ) (index count : ℤ) (q : List ℤ) (x : ℤ) : Type 0 where
  pub whole : Holds buf index count q
  pub some_clip : 0 < pos_part count
  pub taken : x ≡ get_or buf (pos_part index) (pos 0)

-- The tests of the two handlers.
pub empty_lem :
    {buf : List ℤ} {index count : ℤ} {q : List ℤ}
    → Holds buf index count q
    → leb_ℤ count (pos 0) ≡ true
    → length q ≡ 0
empty_lem h e = length-q h ∙ ground arith

pub full_lem :
    {buf : List ℤ} {index count : ℤ} {q : List ℤ}
    → Holds buf index count q
    → leb_ℤ (pos ring_size) count ≡ true
    → ring_size ≤ length q
full_lem {count = count} h e = rw (length-q h) (ground arith)

-- The ring after the three statements of a removal, and after the two of an insertion.
module _ {old buf : List ℤ} {index count : ℤ} {q : List ℤ} where
  pub taken_lem :
      {n x : ℤ}
      → Taking old index n q x
      → buf ≡ set old (pos_part index) init_value
      → count ≡ dec32 n
      → (q ≡ x ∷ contents buf (rem (inc32 index) ring_size) count)
        × Holds buf
            (rem (inc32 index) ring_size)
            count
            (contents buf (rem (inc32 index) ring_size) count)
  taken_lem m e down =
      rw (e, down, m.taken)
        (
          sym m.whole.holds ∙ Slots.contents-pop m.whole.in_order m.some_clip init_value,
          record {
            in_order = Slots.IsRing-pop m.whole.in_order m.some_clip init_value;
            clean = Slots.IsClean-pop m.whole.in_order m.some_clip m.whole.clean;
            holds = refl;
          },
        )

  pub stored_lem :
      (x : ℤ)
      → Holds old index count q
      → pos_part count < ring_size
      → buf ≡ set old ((pos_part index + pos_part count) % ring_size) x
      → Holds buf index (inc32 count) (q ++ (x ∷ []))
  stored_lem x m room e = rw e (record {
    in_order = Slots.IsRing-push m.in_order room x;
    clean = Slots.IsClean-push m.in_order room x m.clean;
    holds = Slots.contents-push m.in_order room x ∙ ap (λ l. l ++ (x ∷ [])) m.holds;
  })

pub fresh-Holds : Holds fresh (pos 0) (pos 0) []
fresh-Holds = record { in_order = fresh-IsRing; clean = fresh-IsClean; holds = refl }
