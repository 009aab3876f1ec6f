-- ===== src/Buddy/Invariant.antt =====
-- What holds of a pool between two operations.
use badger_os.Base.{ℕ, ◌+◌, ◌^◌, ◌≤◌, ◌<◌, ◌≡◌, ◌≢◌, Bool, true, false, not, ◌&&◌, ◌||◌, ◌==◌}
use badger_os.Buddy.{Pool, BlockType, flip}
use badger_os.Buddy.Lists.{elem}
use badger_os.Buddy.Tiles.{IsTiled}

-- The pages where a block begins that is in a list or handed out.
abbrev pub head : (ℕ → Bool) → Pool → ℕ → Bool
head used pool i = used i || pool.in_list i

-- `used` accepts the first pages of the blocks that are handed out.
pub record IsPool (used : ℕ → Bool) (pool : Pool) : Type 0 where
  pub tiled : IsTiled (head used pool) pool.order pool.max_order
  pub span : pool.pages + pool.max_order_waste ≡ 2 ^ pool.max_order
  pub unlisted : (i : ℕ) → used i ≡ true → pool.in_list i ≡ false
  pub on_free_list :
      (i a : ℕ)
      → elem i (pool.free_lists a)
        ≡ (pool.in_list i && (pool.order i == a) && not (pool.is_waste i))
  pub on_waste_list : (i : ℕ) → elem i pool.waste_list ≡ (pool.in_list i && pool.is_waste i)
  pub merged :
      (i : ℕ)
      → pool.in_list i ≡ true
      → pool.in_list (flip i (pool.order i)) ≡ true
      → pool.order (flip i (pool.order i)) ≢ pool.order i
  pub below :
      (i : ℕ) → pool.in_list i ≡ true → pool.is_waste i ≡ false → pool.order i ≤ pool.max_order_free

-- One more block is handed out.
abbrev pub with_block : (ℕ → Bool) → ℕ → ℕ → Bool
with_block used i j = (j == i) || used j

-- The page `p` is in the block that begins at `i`.
abbrev pub Covers : Pool → (i p : ℕ) → Type 0
Covers pool i p = (i ≤ p) × (p < i + 2 ^ pool.order i)

-- The page `p` is in a block of a list.
abbrev pub IsFree : Pool → ℕ → Type 0
IsFree pool p = (i : ℕ) × (pool.in_list i ≡ true) × Covers pool i p

-- The counters and the types do not matter, and the bound only where it is too low.
pub IsPool-adjust :
    {used : ℕ → Bool} {pool : Pool} (bound free_pages : ℕ) (type : ℕ → BlockType)
    → IsPool used pool
    → ((i : ℕ) → pool.in_list i ≡ true → pool.is_waste i ≡ false → pool.order i ≤ bound)
    → IsPool used (record pool { max_order_free = bound; free_pages = free_pages; type = type })
IsPool-adjust bound free_pages type inv below = record {
  tiled = inv.tiled;
  span = inv.span;
  unlisted = inv.unlisted;
  on_free_list = inv.on_free_list;
  on_waste_list = inv.on_waste_list;
  merged = inv.merged;
  below = below;
}
