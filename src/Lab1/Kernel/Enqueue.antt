-- ===== src/Lab1/Kernel/Enqueue.antt =====
-- `do_sys_kb_enqueue` of os_kboard.c against the insertion of the queue.
use os_class.Common.{
  ◌+◌, ◌<◌, ◌≤◌, ◌≡◌, ◌%◌, inl, inr, true, false, [], ◌∷◌, ◌++◌, arith, ℤ, pos, negsuc, pos_part,
  some, done, All-append, Bool-cases, ltb_ℤ, leb_ℤ, set, inc32, dec_lt,
}
use os_class.Ring.{IsRing, IsNonnegative, ring_size}
use os_class.Ring.Slots
use os_class.Fifo
use os_class.Fifo.Laws
use os_class.Lab1.Kernel.{Kboard, enqueue_locked, do_sys_kb_enqueue}
use os_class.Lab1.Kernel.Api.{KernelApi}
use os_class.Lab1.Kernel.Inv.{clips, IsValid, taken}

module _ (api : KernelApi) where
  open api use {Lock, spin_unlock, is_free-unlock}

  enqueue_locked-full :
      (item : ℤ) (k : Kboard Lock)
      → IsRing k.ring k.current_index k.count
      → pos_part k.count ≡ ring_size
      → enqueue_locked api item k ≡ done (negsuc 0, record k { lock = spin_unlock k.lock })
  unfolding enqueue_locked
  enqueue_locked-full item k r e = rw (r.count_sign) (ground arith)

  -- The board after a clip is stored.
  abbrev stored : ℤ → Kboard Lock → Kboard Lock
  stored item k = record {
    lock = spin_unlock k.lock;
    ring = set k.ring ((pos_part k.current_index + pos_part k.count) % 5) item;
    count = inc32 k.count;
    current_index = k.current_index;
  }

  enqueue_locked-room :
      (item : ℤ) (k : Kboard Lock)
      → IsRing k.ring k.current_index k.count
      → pos_part k.count < ring_size
      → enqueue_locked api item k ≡ done (pos 0, stored item k)
  unfolding enqueue_locked
  enqueue_locked-room item k r room = elim (Bool-cases (leb_ℤ (pos ring_size) k.count)) [
    | inl full ↦ absurd (omega (arith, too_many full))
    | inr more ↦ rw (more, Slots.tail_write r room item)
  ]
    where
      too_many : leb_ℤ (pos ring_size) k.count ≡ true → ring_size ≤ pos_part k.count
      too_many h = ground arith

  -- What `do_sys_kb_enqueue` did: it returned, with the value and the clips of the queue.
  abbrev pub Enqueued : ℤ → Kboard Lock → Type 0
  Enqueued item k =
      (k' : Kboard Lock) × (do_sys_kb_enqueue api item k
        ≡ done ((Fifo.enqueue item (clips k)).0, k'))
      × IsValid api k'
      × (clips k' ≡ (Fifo.enqueue item (clips k)).1)

  enqueue_stored :
      (item : ℤ) (k : Kboard Lock)
      → IsValid api k
      → ltb_ℤ item (pos 0) ≡ false
      → pos_part k.count < ring_size
      → Enqueued item k
  unfolding do_sys_kb_enqueue
  enqueue_stored item k v plus room = (
    stored item (record k { lock = held }),
    rw (plus, got, spec, enqueue_locked-room item (record k { lock = held }) v.in_order room),
    record {
      unlocked = is_free-unlock held;
      in_order = Slots.IsRing-push v.in_order room item;
      nonnegative = rw (Slots.contents-push v.in_order room item) (
          All-append IsNonnegative (clips k) (item ∷ []) v.nonnegative
            (Laws.nonnegative item plus, tt));
    },
    rw spec (Slots.contents-push v.in_order room item),
  )
    where
      held : Lock
      held = (taken api k.lock v.unlocked).0

      got : api.spin_lock k.lock ≡ some held
      got = (taken api k.lock v.unlocked).1

      spec : Fifo.enqueue item (clips k) ≡ (pos 0, clips k ++ (item ∷ []))
      spec = Laws.enqueue_room item (clips k) plus (omega (arith, Slots.length-contents v.in_order))

  enqueue_refused :
      (item : ℤ) (k : Kboard Lock)
      → IsValid api k
      → ltb_ℤ item (pos 0) ≡ false
      → pos_part k.count ≡ ring_size
      → Enqueued item k
  unfolding do_sys_kb_enqueue
  enqueue_refused item k v plus full = (
    record k { lock = spin_unlock held },
    rw (plus, got, spec, enqueue_locked-full item (record k { lock = held }) v.in_order full),
    record { unlocked = is_free-unlock held; in_order = v.in_order; nonnegative = v.nonnegative },
    rw spec,
  )
    where
      held : Lock
      held = (taken api k.lock v.unlocked).0

      got : api.spin_lock k.lock ≡ some held
      got = (taken api k.lock v.unlocked).1

      spec : Fifo.enqueue item (clips k) ≡ (negsuc 0, clips k)
      spec =
          Laws.enqueue_full item (clips k) plus
            (omega (arith, Slots.length-contents v.in_order, full))

  -- From a valid board `do_sys_kb_enqueue` returns on every path, with no access outside the array
  -- and the lock free again; the value returned and the clips left are those of the queue, and the
  -- board is valid.
  pub enqueue_refines : (item : ℤ) (k : Kboard Lock) → IsValid api k → Enqueued item k
  unfolding do_sys_kb_enqueue
  enqueue_refines item k v = elim (Bool-cases (ltb_ℤ item (pos 0))) [
    | inl minus ↦
        let spec = Laws.enqueue_negative item (clips k) minus in (k, rw (minus, spec), v, rw spec)
    | inr plus ↦ elim (dec_lt (pos_part k.count) ring_size) [
      | yes room ↦ enqueue_stored item k v plus room
      | no full ↦ enqueue_refused item k v plus (omega (arith, full, v.in_order.count_in))
    ]
  ]
