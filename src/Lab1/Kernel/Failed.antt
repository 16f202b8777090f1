-- ===== src/Lab1/Kernel/Failed.antt =====
-- The error returns of the system calls of os_kboard.c, from any board.
use os_class.Common.{
  ◌≡◌, ◌≢◌, refl, inl, inr, true, ℕ, ℤ, pos, done, carry_done, carry_checked, carry_waiting,
  Bool-cases, Option-cases, ltb_ℤ, leb_ℤ, ◌==◌, rem, add32, inc32, read_at, write_at,
}
use os_class.Ring.{ring_size, init_value}
use os_class.Lab1.Kernel.{
  Kboard, enqueue_locked, do_sys_kb_enqueue, drop_current, dequeue_copied, dequeue_locked,
  do_sys_kb_dequeue,
}
use os_class.Lab1.Kernel.Api.{KernelApi}

-- The clipboard is as it was; the lock may not be.
abbrev pub Untouched : {L : Type 0} → Kboard L → Kboard L → Type 0
Untouched k k' = (k'.ring ≡ k.ring) × (k'.count ≡ k.count) × (k'.current_index ≡ k.current_index)

module _ (api : KernelApi) where
  open api use {Lock, is_free, spin_lock, spin_unlock, is_free-unlock, Ptr, Mem, copy_to_user}

  -- An error value comes with the clipboard as it was; a board whose lock was free has it free again.
  abbrev FailsWell : Kboard Lock → ℤ → Kboard Lock → Type 0
  FailsWell k value k' = value ≢ pos 0 → Untouched k k' × (is_free k'.lock ≡ true)

  enqueue_locked-FailsWell :
      (item : ℤ) (k : Kboard Lock) (y : ℤ × Kboard Lock)
      → enqueue_locked api item k ≡ done y
      → FailsWell k y.0 y.1
  unfolding enqueue_locked
  enqueue_locked-FailsWell item k y e = elim (Bool-cases (leb_ℤ (pos ring_size) k.count)) [
    | inl full ↦
        carry_done (λ z. FailsWell k z.0 z.1) (rw full at e)
          (λ _. ((refl, refl, refl), is_free-unlock k.lock))
    | inr room ↦
        carry_checked (λ z. FailsWell k z.0 z.1)
          (write_at k.ring (rem (add32 k.current_index k.count) ring_size) item)
          (λ ring.
            done
              (pos 0, record k { ring = ring; count = inc32 k.count; lock = spin_unlock k.lock }))
          (rw room at e)
          (λ ring _ r. carry_done (λ z. FailsWell k z.0 z.1) r (λ bad. absurd (bad refl)))
  ]

  -- Whenever do_sys_kb_enqueue returns another value than 0, from any board with a free lock, the
  -- array, the count and the index are as they were, and the lock is free.
  pub enqueue-Untouched :
      (item : ℤ) (k k' : Kboard Lock) (value : ℤ)
      → is_free k.lock ≡ true
      → do_sys_kb_enqueue api item k ≡ done (value, k')
      → value ≢ pos 0
      → Untouched k k' × (is_free k'.lock ≡ true)
  unfolding do_sys_kb_enqueue
  enqueue-Untouched item k k' value free e = elim (Bool-cases (ltb_ℤ item (pos 0))) [
    | inl minus ↦
        carry_done (λ z. FailsWell k z.0 z.1) (rw minus at e) (λ _. ((refl, refl, refl), free))
    | inr plus ↦
        carry_waiting (λ z. FailsWell k z.0 z.1) (spin_lock k.lock)
          (λ held. enqueue_locked api item (record k { lock = held })) (rw plus at e)
          (λ held _ r. enqueue_locked-FailsWell item (record k { lock = held }) _ r)
  ]

  -- The part of `do_sys_kb_dequeue` under the lock.
  abbrev Fails : Kboard Lock → ℤ × Kboard Lock × Mem → Type 0
  Fails k (value, k', m') = FailsWell k value k'

  dequeue_copied-FailsWell :
      (left : ℕ) (m : Mem) (k : Kboard Lock) (y : ℤ × Kboard Lock × Mem)
      → dequeue_copied api left m k ≡ done y
      → Fails k y
  unfolding dequeue_copied drop_current
  dequeue_copied-FailsWell left m k y e = elim (Bool-cases (left == 0)) [
    | inl copied ↦ elim (Option-cases (write_at k.ring k.current_index init_value)) [
      | inl outside ↦ absurd (cc (rw (copied, outside) at e))
      | inr (ring, inside) ↦
          carry_done (Fails k) (rw (copied, inside) at e) (λ bad. absurd (bad refl))
    ]
    | inr failed ↦
        carry_done (Fails k) (rw failed at e) (λ _. ((refl, refl, refl), is_free-unlock k.lock))
  ]

  dequeue_locked-FailsWell :
      (user_buf : Ptr) (m : Mem) (k : Kboard Lock) (y : ℤ × Kboard Lock × Mem)
      → dequeue_locked api user_buf m k ≡ done y
      → Fails k y
  unfolding dequeue_locked
  dequeue_locked-FailsWell user_buf m k y e = elim (Bool-cases (leb_ℤ k.count (pos 0))) [
    | inl none_left ↦
        carry_done (Fails k) (rw none_left at e) (λ _. ((refl, refl, refl), is_free-unlock k.lock))
    | inr some_left ↦
        carry_checked (Fails k) (read_at k.ring k.current_index)
          (λ item.
            dequeue_copied api (copy_to_user m user_buf item).0 (copy_to_user m user_buf item).1 k)
          (rw some_left at e) (λ item _ r. dequeue_copied-FailsWell _ _ k _ r)
  ]

  -- Whenever do_sys_kb_dequeue returns another value than 0, from any board, the array, the count
  -- and the index are as they were, and the lock is free.
  pub dequeue-Untouched :
      (user_buf : Ptr) (m m' : Mem) (k k' : Kboard Lock) (value : ℤ)
      → do_sys_kb_dequeue api user_buf m k ≡ done (value, k', m')
      → value ≢ pos 0
      → Untouched k k' × (is_free k'.lock ≡ true)
  unfolding do_sys_kb_dequeue
  dequeue-Untouched user_buf m m' k k' value e =
      carry_waiting (Fails k) (spin_lock k.lock)
        (λ held. dequeue_locked api user_buf m (record k { lock = held })) e
        (λ held _ r. dequeue_locked-FailsWell user_buf m (record k { lock = held }) _ r)
