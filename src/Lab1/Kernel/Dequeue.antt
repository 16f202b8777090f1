-- ===== src/Lab1/Kernel/Dequeue.antt =====
-- `do_sys_kb_dequeue` of os_kboard.c against the removal of the queue.
use os_class.Common.{
  ◌<◌, ◌≡◌, ap, inl, inr, Bool, true, false, Option, none, some, List, [], ◌∷◌, arith, ℤ, pos,
  negsuc, pos_part, done, get_or, Bool-cases, leb_ℤ, set, inc32, dec32, rem, dec_lt, ◌==◌,
}
use os_class.Ring.{IsRing, ring_size, init_value}
use os_class.Ring.Slots
use os_class.Ring.Window.{window}
use os_class.Fifo
use os_class.Fifo.Laws
use os_class.Lab1.Kernel.{Kboard, drop_current, dequeue_copied, dequeue_locked, do_sys_kb_dequeue}
use os_class.Lab1.Kernel.Api.{KernelApi}
use os_class.Lab1.Kernel.Inv.{clips, IsValid, taken}

module _ (api : KernelApi) (user_buf : api.Ptr) (m : api.Mem) where
  open api use {
    Lock, Mem, spin_lock, spin_unlock, is_free-unlock, copy_to_user, load_int, load_int-copy,
  }

  -- Whether the copy of a clip to `user_buf` succeeds.
  abbrev pub delivers : ℤ → Bool
  delivers x = (copy_to_user m user_buf x).0 == 0

  -- The memory after the call: it is written only if there is a clip.
  abbrev pub memory_after : List ℤ → Mem
  memory_after [] = m
  memory_after (x ∷ q) = (copy_to_user m user_buf x).1

  -- The clip handed over can be read at `user_buf`.
  abbrev pub Delivered : Option ℤ → Mem → Type 0
  Delivered none m' = Unit
  Delivered (some x) m' = load_int m' user_buf ≡ x

  -- What `do_sys_kb_dequeue` did: it returned, with the value and the clips of the queue.
  abbrev pub Dequeued : Kboard Lock → Type 0
  Dequeued k =
      let (value, clip, rest) = Fifo.dequeue delivers (clips k) in
      (k' : Kboard Lock) × (do_sys_kb_dequeue api user_buf m k
        ≡ done (value, k', memory_after (clips k)))
      × IsValid api k'
      × (clips k' ≡ rest)
      × Delivered clip (memory_after (clips k))

  -- The board after the first clip is dropped.
  abbrev dropped : Kboard Lock → Kboard Lock
  dropped k = record {
    lock = spin_unlock k.lock;
    ring = set k.ring (pos_part k.current_index) init_value;
    count = dec32 k.count;
    current_index = rem (inc32 k.current_index) ring_size;
  }

  drop_current_lem :
      (k : Kboard Lock)
      → IsRing k.ring k.current_index k.count
      → 0 < pos_part k.count
      → drop_current api k ≡ done (dropped k)
  unfolding drop_current
  drop_current_lem k r h = rw (Slots.head_write r h init_value)

  not_empty : (k : Kboard Lock) → 0 < pos_part k.count → leb_ℤ k.count (pos 0) ≡ false
  not_empty k h = ground arith

  module _ (k : Kboard Lock) (v : IsValid api k) where
    open v use {in_order}

    abbrev held : Lock
    held = (taken api k.lock v.unlocked).0

    got : spin_lock k.lock ≡ some held
    got = (taken api k.lock v.unlocked).1

    -- The clip that the code copies.
    abbrev first : ℤ
    first = get_or k.ring (pos_part k.current_index) (pos 0)

    dequeue_none : pos_part k.count ≡ 0 → Dequeued k
    unfolding do_sys_kb_dequeue
    dequeue_none e = (
      record k { lock = spin_unlock held },
      rw (got, spec, none_left) (rw is_empty),
      record { unlocked = is_free-unlock held; in_order = in_order; nonnegative = v.nonnegative },
      rw (spec, none_left),
      rw spec tt,
    )
      where
        none_left : clips k ≡ []
        none_left = ap (window k.ring (pos_part k.current_index)) e

        is_empty : leb_ℤ k.count (pos 0) ≡ true
        is_empty = ground arith

        spec : Fifo.dequeue delivers (clips k) ≡ (negsuc 0, none, [])
        spec = Laws.dequeue_empty delivers (clips k) none_left

    module _ (h : 0 < pos_part k.count) where
      abbrev rest : List ℤ
      rest = clips (dropped k)

      split : clips k ≡ first ∷ rest
      split = Slots.contents-pop in_order h init_value

      written : memory_after (clips k) ≡ (copy_to_user m user_buf first).1
      written = rw split

      dequeue_done : delivers first ≡ true → Dequeued k
      unfolding do_sys_kb_dequeue dequeue_locked dequeue_copied
      dequeue_done e = (
        dropped (record k { lock = held }),
        rw (
          got,
          spec,
          written,
          not_empty k h,
          Slots.head_read in_order h,
          e,
          drop_current_lem (record k { lock = held }) in_order h,
        ),
        record {
          unlocked = is_free-unlock held;
          in_order = Slots.IsRing-pop in_order h init_value;
          nonnegative = (rw split at v.nonnegative).1;
        },
        rw spec,
        rw (spec, written) (load_int-copy m user_buf first copied),
      )
        where
          spec : Fifo.dequeue delivers (clips k) ≡ (pos 0, some first, rest)
          spec = rw split (Laws.dequeue-some delivers first rest e)

          copied : (copy_to_user m user_buf first).0 ≡ 0
          copied = ground arith

      dequeue_failed : delivers first ≡ false → Dequeued k
      unfolding do_sys_kb_dequeue dequeue_locked dequeue_copied
      dequeue_failed e = (
        record k { lock = spin_unlock held },
        rw (got, spec, written, not_empty k h, Slots.head_read in_order h, e),
        record { unlocked = is_free-unlock held; in_order = in_order; nonnegative = v.nonnegative },
        rw spec split,
        rw spec tt,
      )
        where
          spec : Fifo.dequeue delivers (clips k) ≡ (negsuc 1, none, first ∷ rest)
          spec = rw split (Laws.dequeue_undelivered delivers first rest e)

    -- From a valid board `do_sys_kb_dequeue` returns on every path, with no access outside the array
    -- and the lock free again; the value and the clips left are those of the queue, and so is the
    -- clip that can be read at `user_buf` after a return of 0; an empty board leaves the memory alone.
    pub dequeue_refines : Dequeued k
    dequeue_refines = elim (dec_lt 0 (pos_part k.count)) [
      | yes h ↦ elim (Bool-cases (delivers first)) [
        | inl e ↦ dequeue_done h e
        | inr e ↦ dequeue_failed h e
      ]
      | no empty ↦ dequeue_none (omega arith)
    ]
