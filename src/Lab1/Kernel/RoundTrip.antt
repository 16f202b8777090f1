-- ===== src/Lab1/Kernel/RoundTrip.antt =====
-- The system calls of os_kboard.c one after the other: clips put on the board and taken off again.
use mathlib.Core.List.{append_assoc, append-nil}
use os_class.Common.{
  ◌≡◌, refl, sym, ap, ◌∙◌, some, List, [], ◌∷◌, ◌++◌, map, arith, ℕ, zero, suc, ◌+◌, ◌≤◌, ℤ, pos,
  Outcome, done, ◌>>=◌, length, length-append, replicate, ltb_ℤ, true, false,
}
use os_class.Ring.{ring_size, AllNonnegative}
use os_class.Fifo
use os_class.Fifo.Laws
use os_class.Lab1.Kernel.{Kboard, do_sys_kb_enqueue, do_sys_kb_dequeue}
use os_class.Lab1.Kernel.Api.{KernelApi}
use os_class.Lab1.Kernel.Inv.{clips, IsValid}
use os_class.Lab1.Kernel.Enqueue.{enqueue_refines}
use os_class.Lab1.Kernel.Dequeue.{delivers, dequeue_refines}

module _ (api : KernelApi) where
  open api use {Lock, Ptr, Mem, copy_to_user, load_int}

  -- The values that a process gets for its clips, in their order.
  abbrev pub enqueue_all : List ℤ → Kboard Lock → Outcome (List ℤ × Kboard Lock)
  enqueue_all [] k = done ([], k)
  enqueue_all (x ∷ xs) k = do
    (value, k₁) ← do_sys_kb_enqueue api x k
    (values, k₂) ← enqueue_all xs k₁
    done (value ∷ values, k₂)

  -- The values of `n` removals into the same place, each with what can be read there after it.
  abbrev pub dequeue_all : ℕ → Ptr → Mem → Kboard Lock → Outcome (List (ℤ × ℤ) × Kboard Lock × Mem)
  dequeue_all zero user_buf m k = done ([], k, m)
  dequeue_all (suc n) user_buf m k = do
    (value, k₁, m₁) ← do_sys_kb_dequeue api user_buf m k
    (values, k₂, m₂) ← dequeue_all n user_buf m₁ k₁
    done ((value, load_int m₁ user_buf) ∷ values, k₂, m₂)

  enqueue_all_lem :
      (xs : List ℤ) (k : Kboard Lock)
      → IsValid api k
      → AllNonnegative xs
      → length (clips k) + length xs ≤ ring_size
      → (k' : Kboard Lock) × (enqueue_all xs k ≡ done (replicate (length xs) (pos 0), k'))
        × IsValid api k'
        × (clips k' ≡ clips k ++ xs)
  enqueue_all_lem [] k v plus room = (k, refl, v, sym (append-nil (clips k)))
  enqueue_all_lem (x ∷ xs) k v plus room =
      let (k₁, e, v₁, c) = enqueue_refines api x k v in
      let (k₂, e₂, v₂, c₂) = enqueue_all_lem xs k₁ v₁ plus.1 (
        omega (arith, ap length (c ∙ ap (λ y. y.1) law), length-append (clips k) (x ∷ []), room)) in
      (
        k₂,
        rw (e, law, e₂),
        v₂,
        c₂ ∙ ap (λ l. l ++ xs) (c ∙ ap (λ y. y.1) law) ∙ append_assoc (clips k) (x ∷ []) xs,
      )
    where
      accepted : ltb_ℤ x (pos 0) ≡ false
      accepted = rw (plus.0) (ground arith)

      law : Fifo.enqueue x (clips k) ≡ (pos 0, clips k ++ (x ∷ []))
      law = Laws.enqueue_room x (clips k) accepted (omega (arith, room))

  dequeue_all_lem :
      (user_buf : Ptr)
      → ((m : Mem) (x : ℤ) → delivers api user_buf m x ≡ true)
      → (q : List ℤ) (m : Mem) (k : Kboard Lock) → IsValid api k
      → clips k ≡ q
      → (k' : Kboard Lock) × (m' : Mem) × (dequeue_all (length q) user_buf m k
          ≡ done (map (λ x. (pos 0, x)) q, k', m'))
        × IsValid api k'
        × (clips k' ≡ [])
  dequeue_all_lem user_buf good [] m k v c = (k, m, refl, v, c)
  dequeue_all_lem user_buf good (x ∷ q) m k v c =
      let (k₁, e, v₁, c₁, loaded) = first in
      let (k₂, m₂, e₂, v₂, c₂) =
        dequeue_all_lem user_buf good q (copy_to_user m user_buf x).1 k₁ v₁ c₁ in
      (k₂, m₂, rw (e, e₂, loaded), v₂, c₂)
    where
      law : Fifo.dequeue (delivers api user_buf m) (x ∷ q) ≡ (pos 0, some x, q)
      law = Laws.dequeue-some (delivers api user_buf m) x q (good m x)

      first :
          (k' : Kboard Lock) × (do_sys_kb_dequeue api user_buf m k
            ≡ done (pos 0, k', (copy_to_user m user_buf x).1))
          × IsValid api k'
          × (clips k' ≡ q)
          × (load_int (copy_to_user m user_buf x).1 user_buf ≡ x)
      first = rw (c, law) at (dequeue_refines api user_buf m k v)

  -- If every copy to the buffer succeeds, clips of at least 0 that find room on a valid board are
  -- all taken by do_sys_kb_enqueue with 0, and as many calls of do_sys_kb_dequeue as there are then
  -- clips return 0 and put the clips of the board and then the new ones, in their order, into the
  -- buffer; the board is valid at the end and has no clips.
  pub enqueued_clips-dequeued :
      (user_buf : Ptr)
      → ((m : Mem) (x : ℤ) → (copy_to_user m user_buf x).0 ≡ 0)
      → (xs : List ℤ) (m : Mem) (k : Kboard Lock) → IsValid api k
      → AllNonnegative xs
      → length (clips k) + length xs ≤ ring_size
      → (k₁ : Kboard Lock) × (k₂ : Kboard Lock) × (m₂ : Mem) × (enqueue_all xs k
          ≡ done (replicate (length xs) (pos 0), k₁))
        × (dequeue_all (length (clips k ++ xs)) user_buf m k₁
            ≡ done (map (λ x. (pos 0, x)) (clips k ++ xs), k₂, m₂))
        × IsValid api k₂
        × (clips k₂ ≡ [])
  enqueued_clips-dequeued user_buf good xs m k v plus room =
      let (k₁, e₁, v₁, c₁) = enqueue_all_lem xs k v plus room in
      let (k₂, m₂, e₂, v₂, c₂) =
        dequeue_all_lem user_buf (λ m' x. rw (good m' x)) (clips k ++ xs) m k₁ v₁ c₁ in
      (k₁, k₂, m₂, e₁, e₂, v₂, c₂)
