-- ===== src/Lab2/Kboard/Api.antt =====
-- What the handlers of KboardModule.c build on: the four functions of a synchronisation solution,
-- which the modules of Sync fill, and the kernel's copy and scan of the text that a process writes.
use os_class.Common.{ℕ, ◌≡◌, Option, List, ℤ, Outcome, done}

-- A caller that finds the section quiet goes in and out, and leaves it quiet.
pub record CriticalSection : Type 1 where
  pub Lock : Type 0
  pub IsQuiet : Lock → Type 0
  -- `InitializeSyncSolution`
  pub initial_lock : Lock
  pub initial_lock-IsQuiet : IsQuiet initial_lock
  pub enter_writer : Lock → Outcome Lock
  pub leave_writer : Lock → Outcome Lock
  pub enter_reader : Lock → Outcome Lock
  pub leave_reader : Lock → Outcome Lock
  pub writer_section :
      (l : Lock)
      → IsQuiet l
      → (inside : Lock) × (enter_writer l ≡ done inside)
        × (outside : Lock) × (leave_writer inside ≡ done outside)
        × IsQuiet outside
  pub reader_section :
      (l : Lock)
      → IsQuiet l
      → (inside : Lock) × (enter_reader l ≡ done inside)
        × (outside : Lock) × (leave_reader inside ≡ done outside)
        × IsQuiet outside

-- `copy_from_user` gives the number of bytes that it did not copy, and the bytes; `sscanf` with "%d"
-- and one `int` gives what it stores, `none` where it does not return 1.
pub record UserText : Type 1 where
  pub Mem : Type 0
  pub Ptr : Type 0
  pub user_bytes : Mem → Ptr → ℕ → List ℕ
  pub copy_from_user : Mem → Ptr → ℕ → ℕ × List ℕ
  pub copied :
      (m : Mem) (p : Ptr) (n : ℕ)
      → (copy_from_user m p n).0 ≡ 0
      → (copy_from_user m p n).1 ≡ user_bytes m p n
  pub sscanf_int : List ℕ → Option ℤ
