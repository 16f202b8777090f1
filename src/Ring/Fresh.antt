-- ===== src/Ring/Fresh.antt =====
-- The ring of both versions after its initialisation: five slots of the initial value.
use os_class.Common.{ℕ, suc, ◌%◌, ◌+◌, ◌<◌, ◌≡◌, refl, List, ℤ, pos, get_or, replicate, arith}
use os_class.Ring.{ring_size, init_value, IsRing, IsClean}

abbrev pub fresh : List ℤ
fresh = replicate ring_size init_value

fresh_slot : (k : ℕ) → k < ring_size → get_or fresh k (pos 0) ≡ init_value
fresh_slot ℕ.zero h = refl
fresh_slot (suc ℕ.zero) h = refl
fresh_slot (suc (suc ℕ.zero)) h = refl
fresh_slot (suc (suc (suc ℕ.zero))) h = refl
fresh_slot (suc (suc (suc (suc ℕ.zero)))) h = refl
fresh_slot (suc (suc (suc (suc (suc k))))) h = absurd (omega arith)

pub fresh-IsRing : IsRing fresh (pos 0) (pos 0)
fresh-IsRing = record {
  size = refl;
  index_sign = refl;
  index_in = omega arith;
  count_sign = refl;
  count_in = omega arith;
}

pub fresh-IsClean : IsClean fresh (pos 0) (pos 0)
fresh-IsClean k _ h = fresh_slot ((0 + k) % ring_size) (omega arith)
