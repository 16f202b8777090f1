-- ===== src/Lab2/Module/Start.antt =====
-- The module from its init to its exit.
use mathlib.Core.Path.{subst}
use os_class.Common.{sym, ◌≡◌, refl, length, ℤ, pos, [], done, fault, ap, ◌∙◌}
use os_class.Ring.{ring_size}
use os_class.Lab2.Kboard.Api.{CriticalSection}
use os_class.Lab2.Kboard.Valid.{
  clips, IsValid, fresh_board, fresh_board-IsValid, initialize_kboard-fresh,
}
use os_class.Lab2.Proc.{FileOperations, initialize_proc}
use os_class.Lab2.Proc.Api.{ProcFs}
use os_class.Lab2.Proc.Init.{Settled, initialize_proc-Settled}
use os_class.Lab2.Proc.Exit.{destroy_proc_fails}
use os_class.Lab2.Module.{KboardModule, kboard_module_init, kboard_module_exit}

module _ (cs : CriticalSection) (proc : ProcFs FileOperations) where
  open cs use {initial_lock, initial_lock-IsQuiet}

  abbrev started : KboardModule cs proc → KboardModule cs proc
  started m = record {
    board = fresh_board cs initial_lock;
    files = (initialize_proc proc m.files).1;
  }

  starts :
      (m : KboardModule cs proc)
      → length m.board.ring_buffer ≡ ring_size
      → kboard_module_init cs proc m ≡ done ((initialize_proc proc m.files).0, started m)
  unfolding kboard_module_init
  starts m size = rw (initialize_kboard-fresh cs m.board size)

  -- From any state with an array of five slots, whatever its locks, `KboardModuleInit` returns, with a
  -- valid board without clips; the value is 0 with the four files in place, or -1 with the pointer of
  -- the directory NULL or no /proc/kboard.
  pub kboard_module_init-IsValid :
      (m : KboardModule cs proc)
      → length m.board.ring_buffer ≡ ring_size
      → (value : ℤ) × (m' : KboardModule cs proc) × (kboard_module_init cs proc m
          ≡ done (value, m'))
        × IsValid cs m'.board
        × (clips m'.board ≡ [])
        × Settled proc (value, m'.files)
  kboard_module_init-IsValid m size = (
    (initialize_proc proc m.files).0,
    started m,
    starts m size,
    fresh_board-IsValid cs initial_lock initial_lock-IsQuiet,
    refl,
    initialize_proc-Settled proc m.files,
  )

  same_outcome : {A : Type 0} {x y : A} → done x ≡ done y → x ≡ y
  same_outcome h = cc h

  exit_fails :
      (m : KboardModule cs proc)
      → (initialize_proc proc m.files).0 ≡ pos 0
      → kboard_module_exit cs proc (started m) ≡ fault
  unfolding kboard_module_exit
  exit_fails m zero_returned = rw (destroy_proc_fails proc m.files zero_returned)

  -- From an array of five slots, if `KboardModuleInit` returned 0, `KboardModuleExit` hands an entry
  -- that is already freed to `proc_remove`.
  pub kboard_module_exit_fails :
      (m m' : KboardModule cs proc)
      → length m.board.ring_buffer ≡ ring_size
      → kboard_module_init cs proc m ≡ done (pos 0, m')
      → kboard_module_exit cs proc m' ≡ fault
  kboard_module_exit_fails m m' size h =
      let e = same_outcome (sym (starts m size) ∙ h) in
      subst (λ x. kboard_module_exit cs proc x ≡ fault) (ap (λ r. r.1) e)
        (exit_fails m (ap (λ r. r.0) e))
