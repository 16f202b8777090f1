-- ===== src/Lab1/Kernel.antt =====
-- lab1/kernel/os_kboard.c: the clipboard behind three system calls, under one spin lock.
pub mod Api
pub mod Inv
pub mod Init
pub mod Dequeue
pub mod Enqueue
pub mod Failed
pub mod RoundTrip
use os_class.Common.{
  zero, ℕ, suc, ◌+◌, List, ℤ, pos, negsuc, Outcome, done, ◌>>=◌, waiting, checked, leb_ℤ, ltb_ℤ,
  rem, read_at, write_at, inc32, dec32, add32, if◌then◌else◌, replicate, ◌==◌,
}
use os_class.Ring.{ring_size, init_value}
use Api.{KernelApi}

-- `Lock`, `Ring`, `Count` and `CurrentIndex`.
pub record Kboard (Lock : Type 0) : Type 0 where
  pub lock : Lock
  pub ring : List ℤ
  pub count : ℤ
  pub current_index : ℤ

module _ (api : KernelApi) where
  open api use {Lock, spin_lock_init, spin_lock, spin_unlock, Ptr, Mem, copy_to_user}

  -- The part of `do_sys_kb_enqueue` under the lock; each path unlocks.
  enqueue_locked : ℤ → Kboard Lock → Outcome (ℤ × Kboard Lock)
  enqueue_locked item k =
      if leb_ℤ (pos ring_size) k.count
      then done (negsuc 0, record k { lock = spin_unlock k.lock })
      else do
        ring ← checked (write_at k.ring (rem (add32 k.current_index k.count) ring_size) item)
        done (pos 0, record k { ring = ring; count = inc32 k.count; lock = spin_unlock k.lock })

  -- The new board beside the value returned: 0, -1 if the buffer is full, -2 for a negative item.
  unfoldable pub do_sys_kb_enqueue : ℤ → Kboard Lock → Outcome (ℤ × Kboard Lock)
  unfolding enqueue_locked
  do_sys_kb_enqueue item k =
      if ltb_ℤ item (pos 0)
      then done (negsuc 1, k)
      else do held ← waiting (spin_lock k.lock); enqueue_locked item (record k { lock = held })

  -- The slot is reset, the index moves on and the count falls, once the clip is copied.
  drop_current : Kboard Lock → Outcome (Kboard Lock)
  drop_current k = do
    ring ← checked (write_at k.ring k.current_index init_value)
    done (record {
      ring = ring;
      count = dec32 k.count;
      current_index = rem (inc32 k.current_index) ring_size;
      lock = spin_unlock k.lock;
    })

  -- The part of `do_sys_kb_dequeue` after the copy, which left `left` bytes uncopied.
  dequeue_copied : ℕ → Mem → Kboard Lock → Outcome (ℤ × Kboard Lock × Mem)
  unfolding drop_current
  dequeue_copied left m k =
      if left == 0
      then (drop_current k >>= λ k'. done (pos 0, k', m))
      else done (negsuc 1, record k { lock = spin_unlock k.lock }, m)

  -- The part of `do_sys_kb_dequeue` under the lock.
  dequeue_locked : Ptr → Mem → Kboard Lock → Outcome (ℤ × Kboard Lock × Mem)
  unfolding dequeue_copied
  dequeue_locked user_buf m k =
      if leb_ℤ k.count (pos 0)
      then done (negsuc 0, record k { lock = spin_unlock k.lock }, m)
      else do
        item ← checked (read_at k.ring k.current_index)
        dequeue_copied (copy_to_user m user_buf item).0 (copy_to_user m user_buf item).1 k

  -- 0, -1 if the buffer is empty, -2 if the copy to `user_buf` fails.
  unfoldable pub do_sys_kb_dequeue : Ptr → Mem → Kboard Lock → Outcome (ℤ × Kboard Lock × Mem)
  unfolding dequeue_locked
  do_sys_kb_dequeue user_buf m k = do
    held ← waiting (spin_lock k.lock)
    dequeue_locked user_buf m (record k { lock = held })

  -- The loop of `do_sys_kb_init`, with the number of slots that it has still to write.
  init_ring : ℕ → ℤ → List ℤ → Outcome (List ℤ)
  init_ring zero index ring = done ring
  init_ring (suc rounds) index ring = do
    ring' ← checked (write_at ring index init_value)
    init_ring rounds (inc32 index) ring'

  unfoldable pub do_sys_kb_init : Kboard Lock → Outcome (ℤ × Kboard Lock)
  unfolding init_ring
  do_sys_kb_init k = do
    held ← waiting (spin_lock spin_lock_init)
    ring ← init_ring ring_size (pos 0) k.ring
    done (
      pos 0,
      record { lock = spin_unlock held; ring = ring; count = pos 0; current_index = pos 0 },
    )
