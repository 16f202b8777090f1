-- ===== src/Lab2/Module.antt =====
-- lab2/KboardModule.c: the init and exit of the module.
pub mod Start
use os_class.Common.{ℤ, Outcome, done, ◌>>=◌}
use os_class.Lab2.Kboard.{Board, initialize_kboard}
use os_class.Lab2.Kboard.Api.{CriticalSection}
use os_class.Lab2.Proc.{FileOperations, Files, initialize_proc, destroy_proc}
use os_class.Lab2.Proc.Api.{ProcFs}

module _ (cs : CriticalSection) (proc : ProcFs FileOperations) where
  open cs use {Lock, initial_lock}

  -- The variables of the module.
  pub record KboardModule : Type 0 where
    pub board : Board Lock
    pub files : Files proc

  -- `KboardModuleInit`
  unfoldable pub kboard_module_init : KboardModule → Outcome (ℤ × KboardModule)
  kboard_module_init m = do
    board ← initialize_kboard cs m.board
    let r = initialize_proc proc m.files
    done (r.0, record { board = record board { lock = initial_lock }; files = r.1 })

  -- `KboardModuleExit`
  unfoldable pub kboard_module_exit : KboardModule → Outcome KboardModule
  kboard_module_exit m = destroy_proc proc m.files >>= λ files. done (record m { files = files })
