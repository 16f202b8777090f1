-- ===== src/Lab2/Proc/Exit.antt =====
-- `DestroyProc`: the removal of the subtree, and the removals of the five entries after it.
use os_class.Common.{◌≡◌, inl, inr, pos, fault}
use os_class.Lab2.Proc.Api.{kboard, ProcFs}
use os_class.Lab2.Proc.{FileOperations, Files, parent_directory, initialize_proc, destroy_proc}
use os_class.Lab2.Proc.Init.{Serves, initialize_proc-Settled}

module _ (proc : ProcFs FileOperations) where
  open proc use {remove_proc_subtree, remove_proc_subtree-frees, proc_remove-freed}

  destroy_served : (s : Files proc) → Serves proc s → destroy_proc proc s ≡ fault
  unfolding destroy_proc
  destroy_served s v = rw (
    v.made.1,
    proc_remove-freed v.made.0 (remove_proc_subtree kboard (parent_directory proc) s.fs)
        (remove_proc_subtree-frees kboard (parent_directory proc) s.fs v.made.2),
  )

  -- After an `InitializeProc` that returned 0, `DestroyProc` hands an entry that is already freed to
  -- `proc_remove`.
  pub destroy_proc_fails :
      (s : Files proc)
      → (initialize_proc proc s).0 ≡ pos 0
      → destroy_proc proc (initialize_proc proc s).1 ≡ fault
  destroy_proc_fails s zero_returned = elim (initialize_proc-Settled proc s) [
    | inl (_, v) ↦ destroy_served (initialize_proc proc s).1 v
    | inr (minus, _) ↦ absurd (cc (zero_returned, minus))
  ]
