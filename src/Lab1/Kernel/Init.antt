-- ===== src/Lab1/Kernel/Init.antt =====
-- `do_sys_kb_init` of os_kboard.c: from any array of five slots it makes an empty board.
use os_class.Common.{◌≡◌, refl, List, [], ◌∷◌, arith, ℤ, pos, done, length, replicate, add32}
use os_class.Ring.{ring_size, init_value}
use os_class.Lab1.Kernel.{Kboard, init_ring, do_sys_kb_init}
use os_class.Lab1.Kernel.Api.{KernelApi}
use os_class.Lab1.Kernel.Inv.{clips, IsValid, taken}

-- The loop writes each of the five slots, whatever they held.
init_ring_lem :
    (api : KernelApi) (ring : List ℤ)
    → length ring ≡ ring_size
    → init_ring api ring_size (pos 0) ring ≡ done (replicate ring_size init_value)
unfolding init_ring add32
init_ring_lem api (a ∷ b ∷ c ∷ d ∷ e ∷ []) h = refl
init_ring_lem api [] h = absurd (omega arith)
init_ring_lem api (a ∷ []) h = absurd (omega arith)
init_ring_lem api (a ∷ b ∷ []) h = absurd (omega arith)
init_ring_lem api (a ∷ b ∷ c ∷ []) h = absurd (omega arith)
init_ring_lem api (a ∷ b ∷ c ∷ d ∷ []) h = absurd (omega arith)
init_ring_lem api (a ∷ b ∷ c ∷ d ∷ e ∷ f ∷ r) h = absurd (omega arith)

-- `do_sys_kb_init` returns 0, also when another caller holds the lock, with all slots reset: the
-- board is valid and empty.
pub do_sys_kb_init_lem :
    (api : KernelApi) (k : Kboard api.Lock)
    → length k.ring ≡ ring_size
    → (k' : Kboard api.Lock) × (do_sys_kb_init api k ≡ done (pos 0, k'))
      × IsValid api k'
      × (clips k' ≡ [])
      × (k'.ring ≡ replicate ring_size init_value)
unfolding do_sys_kb_init
do_sys_kb_init_lem api k size = (
  record {
    lock = api.spin_unlock held;
    ring = replicate ring_size init_value;
    count = pos 0;
    current_index = pos 0;
  },
  rw ((taken api api.spin_lock_init api.is_free-init).1, init_ring_lem api k.ring size),
  record {
    unlocked = api.is_free-unlock held;
    in_order = record {
      size = refl;
      index_sign = refl;
      index_in = omega arith;
      count_sign = refl;
      count_in = omega arith;
    };
    nonnegative = tt;
  },
  refl,
  refl,
)
  where
    held : api.Lock
    held = (taken api api.spin_lock_init api.is_free-init).0
