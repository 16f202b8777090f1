-- ===== src/Lab1/User.antt =====
-- lab1/user: the library of three calls, the system call table behind it (lab1/kernel/syscall_64.tbl,
-- lab1/kernel/syscalls.h), and the programs copy, paste, init and the two of the synchronisation test.
pub mod Atoi
pub mod Calls
pub mod Programs
pub mod Exchange
use os_class.Common.{
  ℕ, zero, suc, ◌+◌, Bool, true, false, Option, none, some, List, [], ◌∷◌, ℤ, pos, negsuc, Outcome,
  done, fault, ◌>>=◌, leb_ℤ, ltb_ℤ, eqb_ℤ, ◌==◌, ◌&&◌, inc32, not, if◌then◌else◌,
}
use os_class.Lab1.Kernel.{Kboard, do_sys_kb_enqueue, do_sys_kb_dequeue, do_sys_kb_init}
use os_class.Lab1.Kernel.Api.{KernelApi}
use Atoi.{atoi}

-- The board in the kernel, and the memory of the process.
pub record World (Lock Mem : Type 0) : Type 0 where
  pub board : Kboard Lock
  pub memory : Mem

-- The entries that the table has for the clipboard.
pub data Handler : Type 0 where
  kb_enqueue kb_dequeue kb_init : Handler

abbrev pub sys_call_table : ℕ → Option Handler
sys_call_table n =
    if n == 335
    then some kb_enqueue
    else if n == 336
    then some kb_dequeue
    else if n == 337
    then some kb_init
    else none

-- What a process passes with the number of a call.
pub data Argument (Ptr : Type 0) : Type 0 where
  value : ℤ → Argument Ptr
  address : Ptr → Argument Ptr
  nothing : Argument Ptr

-- Lines that the programs print.
pub data Line : Type 0 where
  copy_usage copy_failed : Line
  copy_success : ℤ → Line
  paste_failed : Line
  paste_invalid paste_success : ℤ → Line
  validation_fault : ℤ → ℤ → ℤ → Line

-- The C library gives -1 for the values from -4095 to -1 that the kernel returns.
abbrev pub libc_result : ℤ → ℤ
libc_result r = if ltb_ℤ r (pos 0) && leb_ℤ (negsuc 4094) r then negsuc 0 else r

module _ (api : KernelApi) where
  open api use {Lock, Ptr, Mem, load_int}

  -- The three `SYSCALL_DEFINE` entries. A call with an argument of another kind is not modelled.
  pub serve : Handler → Argument Ptr → World Lock Mem → Outcome (ℤ × World Lock Mem)
  serve kb_enqueue (value item) w =
      do_sys_kb_enqueue api item w.board >>= λ r. done (r.0, record w { board = r.1 })
  serve kb_dequeue (address user_buf) w = do_sys_kb_dequeue api user_buf w.memory w.board >>= λ r.
      done (r.0, record { board = r.1; memory = r.2 })
  serve kb_init a w = do_sys_kb_init api w.board >>= λ r. done (r.0, record w { board = r.1 })
  serve _ _ w = fault

  pub answer : Option Handler → Argument Ptr → World Lock Mem → Outcome (ℤ × World Lock Mem)
  unfolding serve
  answer none a w = done (negsuc 0, w)
  answer (some h) a w = serve h a w >>= λ r. done (libc_result r.0, r.1)

  pub syscall : ℕ → Argument Ptr → World Lock Mem → Outcome (ℤ × World Lock Mem)
  unfolding answer
  syscall number a w = answer (sys_call_table number) a w

  unfoldable pub kboard_copy : ℤ → World Lock Mem → Outcome (ℤ × World Lock Mem)
  unfolding syscall
  kboard_copy clip w = syscall 335 (value clip) w

  unfoldable pub kboard_paste : Ptr → World Lock Mem → Outcome (ℤ × World Lock Mem)
  unfolding syscall
  kboard_paste clip w = syscall 336 (address clip) w

  unfoldable pub kboard_init : World Lock Mem → Outcome (World Lock Mem)
  unfolding syscall
  kboard_init w = syscall 337 nothing w >>= λ r. done r.1

  -- `main` of copy.c, with the arguments behind the name of the program.
  unfoldable pub copy_main :
      List (List ℕ) → World Lock Mem → Outcome (ℤ × List Line × World Lock Mem)
  copy_main [] w = done (negsuc 0, copy_usage ∷ [], w)
  copy_main (text ∷ _) w = kboard_copy (atoi text) w >>= λ r.
      (if eqb_ℤ r.0 (pos 0)
        then done (pos 0, copy_success (atoi text) ∷ [], r.1)
        else done (negsuc 0, copy_failed ∷ [], r.1))

  -- `main` of paste.c, with the address of `clipBoardValue`.
  unfoldable pub paste_main : Ptr → World Lock Mem → Outcome (ℤ × List Line × World Lock Mem)
  paste_main clip_board_value w = kboard_paste clip_board_value w >>= λ r.
      (if eqb_ℤ r.0 (pos 0)
        then (if ltb_ℤ (load_int r.1.memory clip_board_value) (pos 0)
            then done (negsuc 0, paste_invalid (load_int r.1.memory clip_board_value) ∷ [], r.1)
            else done (pos 0, paste_success (load_int r.1.memory clip_board_value) ∷ [], r.1))
        else done (negsuc 0, paste_failed ∷ [], r.1))

  -- `main` of init.c
  unfoldable pub init_main : World Lock Mem → Outcome (ℤ × World Lock Mem)
  init_main w = kboard_init w >>= λ w'. done (pos 0, w')

  -- One round of the loop of copy_sync_test.c, with `value`.
  unfoldable pub copy_round : ℤ → World Lock Mem → Outcome (ℤ × World Lock Mem)
  copy_round v w = kboard_copy v w >>= λ r. done (if eqb_ℤ r.0 (pos 0) then inc32 v else v, r.1)

-- The variables of paste_sync_test.c; `printed` holds the line before its `break`.
pub record Paster : Type 0 where
  pub expect_value : ℤ
  pub iteration : ℤ
  pub printed : Option Line

-- The part of a round behind a successful paste of `clip`.
abbrev pub compare_clip : ℤ → Paster → Paster
compare_clip clip p =
    if eqb_ℤ clip p.expect_value
    then record p { expect_value = inc32 p.expect_value }
    else record p { printed = some (validation_fault clip p.expect_value p.iteration) }

module _ (api : KernelApi) where
  open api use {Lock, Ptr, Mem, load_int}

  -- One round of the loop of paste_sync_test.c; after the `break` nothing happens.
  pub paste_running : Ptr → Paster → World Lock Mem → Outcome (Paster × World Lock Mem)
  paste_running clip_board_value p w = kboard_paste api clip_board_value w >>= λ r.
      done (
        if eqb_ℤ r.0 (pos 0) then compare_clip (load_int r.1.memory clip_board_value) p else p,
        r.1,
      )

  paste_unless : Option Line → Ptr → Paster → World Lock Mem → Outcome (Paster × World Lock Mem)
  unfolding paste_running
  paste_unless none clip_board_value p w =
      paste_running clip_board_value (record p { iteration = inc32 p.iteration }) w
  paste_unless (some line) clip_board_value p w = done (p, w)

  unfoldable pub paste_round : Ptr → Paster → World Lock Mem → Outcome (Paster × World Lock Mem)
  unfolding paste_unless
  paste_round clip_board_value p w = paste_unless p.printed clip_board_value p w
