-- ===== src/Ring.antt =====
-- The ring of five clips that lab1/kernel/os_kboard.c and lab2/KboardModule.c both keep in an array,
-- an index of the oldest clip and a count: what the array holds, and how the two C updates of it act.
pub mod Window
pub mod Slots
pub mod Fresh
use os_class.Common.{
  ℕ, ◌+◌, ◌≤◌, ◌<◌, ◌%◌, ◌≡◌, List, ℤ, pos, negsuc, pos_part, length, get_or, All,
}
use Window.{window}

-- `MAX_CLIP` of the first version, `RING_BUFFER_SIZE` of the second.
abbrev pub ring_size : ℕ
ring_size = 5

-- `INIT_VALUE`, `RING_BUFFER_INIT_VALUE`
abbrev pub init_value : ℤ
init_value = negsuc 0

-- The clips from the oldest on.
abbrev pub contents : List ℤ → ℤ → ℤ → List ℤ
contents buf index count = window buf (pos_part index) (pos_part count)

-- The array has its size, and the two `int` variables are in range.
pub record IsRing (buf : List ℤ) (index count : ℤ) : Type 0 where
  pub size : length buf ≡ ring_size
  pub index_sign : index ≡ pos (pos_part index)
  pub index_in : pos_part index < ring_size
  pub count_sign : count ≡ pos (pos_part count)
  pub count_in : pos_part count ≤ ring_size

-- The slots outside the window hold the initial value.
abbrev pub IsClean : List ℤ → ℤ → ℤ → Type 0
IsClean buf index count =
    (k : ℕ)
    → pos_part count ≤ k
    → k < ring_size
    → get_or buf ((pos_part index + k) % ring_size) (pos 0) ≡ init_value

-- No clip is negative.
abbrev pub IsNonnegative : ℤ → Type 0
IsNonnegative x = x ≡ pos (pos_part x)

abbrev pub AllNonnegative : List ℤ → Type 0
AllNonnegative = All IsNonnegative
