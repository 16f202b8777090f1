-- ===== src/Ring/Slots.antt =====
-- The C expressions that name a slot of the ring, and what the two updates of it do: a write behind
-- the last clip, and the removal of the first one.
use os_class.Common.{
  ℕ, suc, ◌+◌, ◌-◌, ◌%◌, ◌≤◌, ◌<◌, ◌≡◌, sym, ap, ◌∙◌, some, List, [], ◌∷◌, ◌++◌, arith, ℤ, pos,
  pos_part, length, get_or, get_elem?, set, length-set, get_elem?-eq-get_or, get_or-set_self,
  get_or-set_ne, rem, read_at, write_at, inc32, dec32, add32, add32-pos, inc32-pos, dec32-pos,
  dec_lt, inl, inr, ◌⊎◌,
}
use os_class.Ring.{IsRing, IsClean, contents, init_value, ring_size}
use os_class.Ring.Window.{
  length-window, window_of_pos, window-set_next, window-set_first, get_elem?-window,
}

module _ {buf : List ℤ} {index count : ℤ} (r : IsRing buf index count) where
  open r use {size, index_sign, index_in, count_sign, count_in}

  abbrev h : ℕ
  h = pos_part index

  abbrev n : ℕ
  n = pos_part count

  pub length-contents : length (contents buf index count) ≡ n
  length-contents = length-window buf h n

  -- `(index + count) % 5`
  pub tail_slot : rem (add32 index count) 5 ≡ pos ((h + n) % 5)
  tail_slot = rw (index_sign, count_sign, add32-pos h n (omega arith))

  -- A write behind the last clip.
  module _ (room : pos_part count < ring_size) (v : ℤ) where
    pub tail_write :
        write_at buf (rem (add32 index count) 5) v
        ≡ some (set buf ((pos_part index + pos_part count) % 5) v)
    tail_write = rw tail_slot (ground arith)

    count_up : inc32 count ≡ pos (pos_part count + 1)
    count_up = rw count_sign (inc32-pos n (omega arith))

    pub IsRing-push : IsRing (set buf ((pos_part index + pos_part count) % 5) v) index (inc32 count)
    IsRing-push = record {
      size = length-set buf ((h + n) % 5) v ∙ size;
      index_sign = index_sign;
      index_in = index_in;
      count_sign = rw count_up;
      count_in = rw count_up (omega arith);
    }

    pub contents-push :
        contents (set buf ((pos_part index + pos_part count) % 5) v) index (inc32 count)
        ≡ contents buf index count ++ (v ∷ [])
    contents-push = rw count_up (window-set_next buf v h n size index_in room)

    pub IsClean-push :
        IsClean buf index count
        → IsClean (set buf ((pos_part index + pos_part count) % 5) v) index (inc32 count)
    IsClean-push clean k nk kk =
        get_or-set_ne buf v (pos 0) (omega (arith, behind)) ∙ clean k (omega (arith, behind)) kk
      where
        behind : n + 1 ≤ k
        behind = rw count_up at nk

  -- The removal of the first clip.
  module _ (some_clip : 0 < pos_part count) where
    pub head_read : read_at buf index ≡ some (get_or buf (pos_part index) (pos 0))
    head_read = rw index_sign (get_elem?-eq-get_or buf h (pos 0) (omega arith))

    pub head_write : (v : ℤ) → write_at buf index v ≡ some (set buf (pos_part index) v)
    head_write v = rw index_sign (ground arith)

    index_next : rem (inc32 index) 5 ≡ pos ((pos_part index + 1) % 5)
    index_next = rw (index_sign, inc32-pos h (omega arith))

    count_down : dec32 count ≡ pos (pos_part count - 1)
    count_down = rw count_sign (dec32-pos n some_clip (omega arith))

    pub IsRing-pop :
        (v : ℤ) → IsRing (set buf (pos_part index) v) (rem (inc32 index) 5) (dec32 count)
    IsRing-pop v = record {
      size = length-set buf h v ∙ size;
      index_sign = rw index_next;
      index_in = rw index_next (omega arith);
      count_sign = rw count_down;
      count_in = rw count_down (omega arith);
    }

    pub contents-pop :
        (v : ℤ)
        → contents buf index count
          ≡ get_or buf (pos_part index) (pos 0)
            ∷ contents (set buf (pos_part index) v) (rem (inc32 index) 5) (dec32 count)
    contents-pop v =
        window_of_pos buf h n some_clip
        ∙ ap (λ xs. get_or buf h (pos 0) ∷ xs)
            (rw (index_next, count_down)
              (sym (window-set_first buf v h (n - 1) index_in (omega arith))))

    pub IsClean-pop :
        IsClean buf index count
        → IsClean (set buf (pos_part index) init_value) (rem (inc32 index) 5) (dec32 count)
    IsClean-pop clean k nk kk = rw index_next (elim (dec_lt k 4) [
      | yes inner ↦
          get_or-set_ne buf init_value (pos 0) (omega arith)
          ∙ ap (λ i. get_or buf i (pos 0)) around
          ∙ clean (suc k) (omega (arith, behind)) (omega arith)
      | no last ↦
          ap (λ i. get_or (set buf h init_value) i (pos 0)) {y = h} (omega arith)
          ∙ get_or-set_self buf h init_value (pos 0) (omega arith)
    ])
      where
        behind : n - 1 ≤ k
        behind = rw count_down at nk

        around : ((h + 1) % 5 + k) % 5 ≡ (h + suc k) % 5
        around = omega arith

  -- Any slot holds the initial value or one of the clips.
  pub slot_lem :
      IsClean buf index count
      → (i : ℕ) → i < ring_size
      → (get_or buf i (pos 0) ≡ init_value)
        ⊎ ((k : ℕ) × (get_elem? (contents buf index count) k ≡ some (get_or buf i (pos 0))))
  slot_lem clean i hi = elim (dec_lt k n) [
    | yes used ↦
        inr
          (k, get_elem?-window buf n h k index_in used ∙ ap (λ j. some (get_or buf j (pos 0))) here)
    | no free ↦
        inl (ap (λ j. get_or buf j (pos 0)) (sym here) ∙ clean k (omega arith) (omega arith))
  ]
    where
      k : ℕ
      k = (i + 5 - h) % 5

      here : (h + (i + 5 - h) % 5) % 5 ≡ i
      here = omega arith
