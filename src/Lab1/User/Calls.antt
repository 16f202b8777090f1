-- ===== src/Lab1/User/Calls.antt =====
-- What the three calls of lab1/user/kboard.c do, seen through the system call table.
use os_class.Common.{◌≡◌, refl, List, [], ℤ, done, length}
use os_class.Ring.{ring_size}
use os_class.Fifo
use os_class.Lab1.Kernel.Api.{KernelApi}
use os_class.Lab1.Kernel.Inv.{clips, IsValid}
use os_class.Lab1.Kernel.Enqueue.{enqueue_refines}
use os_class.Lab1.Kernel.Dequeue.{dequeue_refines, delivers, Delivered}
use os_class.Lab1.Kernel.Init.{do_sys_kb_init_lem}
use os_class.Lab1.User.{World, libc_result, kboard_copy, kboard_paste, kboard_init}

module _ (api : KernelApi) where
  open api use {Lock, Ptr, Mem}

  -- The queue that a process sees.
  abbrev pub queue : World Lock Mem → List ℤ
  queue w = clips w.board

  -- `kboard_copy` returns what the insertion gives, as the C library passes it on.
  pub copy_call :
      (clip : ℤ) (w : World Lock Mem)
      → IsValid api w.board
      → (w' : World Lock Mem) × (kboard_copy api clip w
          ≡ done (libc_result (Fifo.enqueue clip (queue w)).0, w'))
        × IsValid api w'.board
        × (queue w' ≡ (Fifo.enqueue clip (queue w)).1)
        × (w'.memory ≡ w.memory)
  unfolding kboard_copy
  copy_call clip w v =
      let (k', e, v', q) = enqueue_refines api clip w.board v in
      (record w { board = k' }, rw e, v', q, refl)

  -- `kboard_paste` hands over what the removal gives.
  pub paste_call :
      (p : Ptr) (w : World Lock Mem)
      → IsValid api w.board
      → let (value, clip, rest) = Fifo.dequeue (delivers api p w.memory) (queue w) in
        (w' : World Lock Mem) × (kboard_paste api p w ≡ done (libc_result value, w'))
        × IsValid api w'.board
        × (queue w' ≡ rest)
        × Delivered api p w.memory clip w'.memory
  unfolding kboard_paste
  paste_call p w v =
      let (k', e, v', q, d) = dequeue_refines api p w.memory w.board v in
      (record { board = k'; memory = _ }, rw e, v', q, d)

  -- `kboard_init` empties the board.
  pub init_call :
      (w : World Lock Mem)
      → length w.board.ring ≡ ring_size
      → (w' : World Lock Mem) × (kboard_init api w ≡ done w')
        × IsValid api w'.board
        × (queue w' ≡ [])
        × (w'.memory ≡ w.memory)
  unfolding kboard_init
  init_call w size =
      let (k', e, v', q, _) = do_sys_kb_init_lem api w.board size in
      (record w { board = k' }, rw e, v', q, refl)
