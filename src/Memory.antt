-- ===== src/Memory.antt =====
-- Memory as C sees it through `char *`: a byte at each address or offset, and the interface of
-- `mem_copy` and `mem_set` of badgelib's badge_strings.h, which is a submodule of the repository.
-- The kernel relies on what their names and uses document: the range is copied or filled, and
-- nothing else changes.
pub mod Plain
use badger_os.Base.{◌==◌, ℕ, ◌+◌, ◌-◌, ◌≡◌, Bool, ◌&&◌, ltb, leb, if◌then◌else◌, List, get_or}

abbrev pub Mem : Type 0
Mem = ℕ → ℕ

-- A C array of bytes as memory at offset 0.
abbrev pub bytes : List ℕ → Mem
bytes xs i = get_or xs i 0

-- `lo <= x < lo + n`
abbrev pub within : ℕ → ℕ → ℕ → Bool
within lo n x = leb lo x && ltb x (lo + n)

abbrev pub copied : Mem → ℕ → Mem → ℕ → ℕ → Mem
copied dest at src from n x = if within at n x then src (from + (x - at)) else dest x

abbrev pub filled : Mem → ℕ → ℕ → ℕ → Mem
filled dest at value n x = if within at n x then value else dest x

-- `mem_copy(dest + at, src + from, n)` for two buffers that share no byte, and
-- `mem_set(dest + at, value, n)`.
pub record MemLib : Type 0 where
  pub mem_copy : Mem → ℕ → Mem → ℕ → ℕ → Mem
  pub mem_set : Mem → ℕ → ℕ → ℕ → Mem
  pub mem_copy_lem :
      (dest : Mem) (at : ℕ) (src : Mem) (from n x : ℕ)
      → mem_copy dest at src from n x ≡ copied dest at src from n x
  pub mem_set_lem :
      (dest : Mem) (at value n x : ℕ) → mem_set dest at value n x ≡ filled dest at value n x

-- `mem[at] = value`
abbrev pub store : Mem → ℕ → ℕ → Mem
store mem at value x = if x == at then value else mem x
