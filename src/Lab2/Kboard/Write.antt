-- ===== src/Lab2/Kboard/Write.antt =====
-- `KboardWriter_Write` as a whole: its tests of what the process passes.
use os_class.Common.{
  ℕ, ◌≡◌, refl, inl, inr, Bool, true, false, List, ◌++◌, arith, ℤ, done, Bool-cases, ltb, ◌==◌,
  drop, if◌then◌else◌,
}
use os_class.Lab2.Kboard.{Board, e2big, efault, writer_buffer_size, writer_write}
use os_class.Lab2.Kboard.Api.{CriticalSection, UserText}
use os_class.Lab2.Kboard.Valid.{clips, IsValid}
use os_class.Lab2.Kboard.Insert.{insertion, Agrees, item_refines}

module _ (cs : CriticalSection) (t : UserText) (m : t.Mem) (user : t.Ptr) (n : ℕ) where
  open t use {user_bytes, copy_from_user, copied, sscanf_int}

  -- What a write gives, from the clips on the board and the stack below `buffer`.
  abbrev pub written : List ℕ → List ℤ → ℤ × List ℤ × Bool
  written stale q =
      if ltb writer_buffer_size n
      then (e2big, q, false)
      else (if (copy_from_user m user n).0 == 0
          then insertion n (sscanf_int (user_bytes m user n ++ drop n stale)) q
          else (efault, q, false))

  -- From a valid board a write returns: -E2BIG for more than 20 bytes, -EFAULT if the copy fails,
  -- -EINVAL if no number or a negative one is scanned, -EPERM if the queue is full, else the length,
  -- with the number at the end of the queue. The board is valid again, a writer more is counted
  -- exactly if the critical section was entered, and no access was outside the array.
  pub write_refines :
      (stale : List ℕ) (b : Board cs.Lock)
      → IsValid cs b
      → Agrees cs (λ r. writer_write cs t m user n stale b ≡ done r) (written stale (clips b)) b
  unfolding writer_write
  write_refines stale b v = elim (Bool-cases (ltb writer_buffer_size n)) [
    | inl long ↦ rw long (b, refl, v, refl, refl, refl)
    | inr short ↦ elim (Bool-cases ((copy_from_user m user n).0 == 0)) [
      | inl ok ↦
          rw (short, ok, copied m user n (is_zero ok))
            (item_refines cs n b v (sscanf_int (user_bytes m user n ++ drop n stale)))
      | inr failed ↦ rw (short, failed) (b, refl, v, refl, refl, refl)
    ]
  ]
    where
      is_zero : ((copy_from_user m user n).0 == 0) ≡ true → (copy_from_user m user n).0 ≡ 0
      is_zero h = ground arith
