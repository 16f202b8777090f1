-- ===== src/Lab1/User/Programs.antt =====
-- What copy.c and paste.c print and return, by the queue that they find.
use os_class.Common.{
  ℕ, ◌≡◌, refl, ◌≤◌, List, [], ◌∷◌, ℤ, pos, negsuc, done, false, ltb_ℤ, Option, some, none, arith,
  inl, inr, zero, suc,
}
use os_class.Fifo
use os_class.Fifo.Laws
use os_class.Ring.{IsNonnegative}
use os_class.Lab1.Kernel.Api.{KernelApi}
use os_class.Lab1.Kernel.Inv.{IsValid}
use os_class.Lab1.Kernel.Dequeue.{delivers, Delivered}
use os_class.Lab1.User.{
  World, Line, copy_failed, copy_success, paste_failed, paste_success, libc_result, copy_main,
  paste_main,
}
use os_class.Lab1.User.Atoi.{atoi}
use os_class.Lab1.User.Calls.{queue, copy_call, paste_call}

-- A refused call gives -1 to the process, whatever the kernel returned.
pub libc_result-refused : (r : ℕ) → r ≤ 1 → libc_result (negsuc r) ≡ negsuc 0
libc_result-refused zero h = refl
libc_result-refused (suc zero) h = refl
libc_result-refused (suc (suc r)) h = absurd (omega arith)

-- The exit status and the line of a copy of `x` into the queue.
abbrev pub copy_report : ℤ → ℤ × List ℤ → ℤ × List Line
copy_report x (pos _, _) = (pos 0, copy_success x ∷ [])
copy_report x (negsuc _, _) = (negsuc 0, copy_failed ∷ [])

-- The exit status and the line of a paste that hands over a clip or none.
abbrev pub paste_report : Option ℤ → ℤ × List Line
paste_report none = (negsuc 0, paste_failed ∷ [])
paste_report (some x) = (pos 0, paste_success x ∷ [])

module _ (api : KernelApi) where
  open api use {Lock, Ptr, Mem, load_int}

  -- From a valid board, `copy` with an argument reports success with its number exactly if the queue
  -- takes it, and a failure with -1 otherwise; the queue is then as the insertion leaves it.
  pub copy_main_refines :
      (text : List ℕ) (more : List (List ℕ)) (w : World Lock Mem)
      → IsValid api w.board
      → let r = Fifo.enqueue (atoi text) (queue api w) in
        let report = copy_report (atoi text) r in
        (w' : World Lock Mem) × (copy_main api (text ∷ more) w ≡ done (report.0, report.1, w'))
        × IsValid api w'.board
        × (queue api w' ≡ r.1)
  unfolding copy_main
  copy_main_refines text more w v =
      let (w', e, v', q, _) = copy_call api (atoi text) w v in
      elim (Laws.enqueue_cases (atoi text) (queue api w)) [
        | inl (r, _) ↦ (w', rw (e, r), v', q)
        | inr (n, r, small) ↦ (w', rw (e, r, libc_result-refused n small), v', q)
      ]

  -- From a valid board, `paste` prints the clip that the removal hands over, which is the oldest one
  -- and not negative, and reports a failure with -1 if there is none; it never reports an invalid
  -- value. The queue is then as the removal leaves it.
  pub paste_main_refines :
      (p : Ptr) (w : World Lock Mem)
      → IsValid api w.board
      → let (_, clip, rest) = Fifo.dequeue (delivers api p w.memory) (queue api w) in
        let report = paste_report clip in
        (w' : World Lock Mem) × (paste_main api p w ≡ done (report.0, report.1, w'))
        × IsValid api w'.board
        × (queue api w' ≡ rest)
  unfolding paste_main
  paste_main_refines p w v =
      let (w', e, v', q, d) = paste_call api p w v in
      elim (Laws.dequeue_cases (delivers api p w.memory) (queue api w)) [
        | inl (x, rest, split, r) ↦
            (w', rw (e, r, loaded w' x r d, positive x (rw split at v.nonnegative).0), v', q)
        | inr (n, r, small) ↦ (w', rw (e, r, libc_result-refused n small), v', q)
      ]
    where
      loaded :
          (w' : World Lock Mem) (x : ℤ) {rest : List ℤ}
          → Fifo.dequeue (delivers api p w.memory) (queue api w) ≡ (pos 0, some x, rest)
          → Delivered api p w.memory
              (Fifo.dequeue (delivers api p w.memory) (queue api w)).1
              w'.memory
          → load_int w'.memory p ≡ x
      loaded w' x r d = rw r at d

      positive : (x : ℤ) → IsNonnegative x → ltb_ℤ x (pos 0) ≡ false
      positive x h = rw h (ground arith)
