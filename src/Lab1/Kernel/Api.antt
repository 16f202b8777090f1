-- ===== src/Lab1/Kernel/Api.antt =====
-- What os_kboard.c uses of the kernel and does not implement: spin locks, and the copy of an `int`
-- to the memory of the calling process.
use os_class.Common.{ℕ, ◌≡◌, Bool, true, false, Option, none, some, ℤ}

pub record KernelApi : Type 1 where
  -- `spinlock_t`. To take a lock gives the lock held; `none` means that the caller spins.
  pub Lock : Type 0
  pub is_free : Lock → Bool
  pub spin_lock_init : Lock
  pub spin_lock : Lock → Option Lock
  pub spin_unlock : Lock → Lock
  -- A fresh lock is free, only a held lock makes the caller spin, and the holder frees it.
  pub is_free-init : is_free spin_lock_init ≡ true
  pub spin_lock-none : (l : Lock) → spin_lock l ≡ none → is_free l ≡ false
  pub spin_lock-some : (l : Lock) {held : Lock} → spin_lock l ≡ some held → is_free held ≡ false
  pub is_free-unlock : (l : Lock) → is_free (spin_unlock l) ≡ true
  -- The address space of the caller. The copy returns the number of bytes that it did not copy.
  pub Ptr : Type 0
  pub Mem : Type 0
  pub copy_to_user : Mem → Ptr → ℤ → ℕ × Mem
  pub load_int : Mem → Ptr → ℤ
  pub load_int-copy :
      (m : Mem) (p : Ptr) (v : ℤ)
      → (copy_to_user m p v).0 ≡ 0
      → load_int (copy_to_user m p v).1 p ≡ v
