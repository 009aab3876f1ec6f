-- ===== src/Buddy.antt =====
-- kernel/src/malloc/static-buddy.c: pools of pages in blocks of a power of two. A block is known by
-- the index of its first page. The entries of a pool's array of blocks are a function of the index,
-- so that one behind the end of the array is whatever lies in memory there. A circular list of
-- blocks is the list of their indices in the order in which a walk along `prev` from its head meets
-- them, so that `list_push_back` puts an index in front.
use badger_os.Base.{ℕ, zero, suc, ◌+◌, ◌-◌, ◌*◌, ◌/◌, ◌%◌, ◌^◌, Bool, true, false, not, ◌&&◌, ◌||◌}
use badger_os.Base.{Option, none, some, List, [], ◌∷◌, ◌==◌, leb, ltb, if◌then◌else◌}
pub mod Lists
pub mod Invariant
pub mod Split
pub mod Merge
pub mod Free
pub mod Find
pub mod Take
pub mod Pools
pub mod Init
pub mod Order
pub mod Alloc
pub mod Dealloc
pub mod RoundTrip
pub mod Pages
mod Tests
pub mod Tiles
pub mod Retile
pub mod Shrink

pub data BlockType : Type 0 where
  block_type_free block_type_user block_type_page block_type_slab block_type_error : BlockType

-- `memory_pool_t`, with the array of blocks as one function for each field of `buddy_block_t` but its
-- links. The addresses are numbers.
pub record Pool : Type 0 where
  pub pages_start : ℕ
  pub pages_end : ℕ
  pub pages : ℕ
  pub free_pages : ℕ
  pub max_order : ℕ
  pub max_order_free : ℕ
  pub max_order_waste : ℕ
  pub waste_list : List ℕ
  pub free_lists : ℕ → List ℕ
  pub order : ℕ → ℕ
  pub in_list : ℕ → Bool
  pub is_waste : ℕ → Bool
  pub type : ℕ → BlockType

-- `x ^ (1 << n)`: the digit `n` of `x` changes.
unfoldable pub flip : (x n : ℕ) → ℕ
flip x n = if x / 2 ^ n % 2 == 0 then x + 2 ^ n else x - 2 ^ n

unfoldable pub delete : ℕ → List ℕ → List ℕ
delete i [] = []
delete i (j ∷ js) = if j == i then delete i js else j ∷ delete i js

-- An assignment to a field of the block `i`.
abbrev pub assign {ℓ} : {A : Type ℓ} → (ℕ → A) → ℕ → A → ℕ → A
assign f i x j = if j == i then x else f j

-- `list_push_back(&pool->free_lists[a], block)` and `list_push_back(&pool->waste_list, block)`
unfoldable pub push_free : Pool → (a i : ℕ) → Pool
push_free pool a i = record pool {
  free_lists = λ c. if c == a then i ∷ pool.free_lists c else pool.free_lists c;
  in_list = assign pool.in_list i true;
}

unfoldable pub push_waste : Pool → ℕ → Pool
push_waste pool i = record pool {
  waste_list = i ∷ pool.waste_list;
  in_list = assign pool.in_list i true;
}

-- `list_remove`, from the list that holds the block.
unfoldable pub list_remove : Pool → ℕ → Pool
list_remove pool i = record pool {
  waste_list = delete i pool.waste_list;
  free_lists = λ c. delete i (pool.free_lists c);
  in_list = assign pool.in_list i false;
}

-- `flip i order` is `index ^ (1 << order)`. The shift is that of an `int`, which C defines for orders
-- up to 30 only; a block of a larger order has more than 2^30 pages.
unfoldable pub split_block : Pool → ℕ → Pool
split_block pool i =
    let order = pool.order i - 1 in
    let buddy = flip i order in
    let both = record pool { order = assign (assign pool.order i order) buddy order } in
    if not (pool.is_waste buddy) then push_free both order buddy else push_waste both buddy

-- The merged block, where the buddy is free.
unfoldable pub try_merge_buddy : Pool → ℕ → Option (ℕ × Pool)
try_merge_buddy pool i =
    let order = pool.order i in
    let buddy = flip i order in
    let merged = if leb i buddy then i else buddy in
    let removed = list_remove pool buddy in
    if ltb (pool.pages + pool.max_order_waste) buddy
    then none
    else if (pool.order buddy == order) && pool.in_list buddy
    then some (merged, record removed { order = assign pool.order merged (pool.order merged + 1) })
    else none

-- The end of `free_block`, with the merged block.
unfoldable pub put_free : Pool → ℕ → Pool
put_free pool i =
    let order = pool.order i in
    if not (pool.is_waste i)
    then push_free
        (record pool {
          max_order_free = if ltb order pool.max_order_free then pool.max_order_free else order;
        })
        order i
    else push_waste pool i

-- `free_block` with at most `fuel` rounds, `none` where more are needed.
unfoldable pub free_block : (fuel : ℕ) → Pool → ℕ → Option Pool
free_block zero pool i = none
free_block (suc fuel) pool i = elim (try_merge_buddy pool i) [
  | none ↦ some (put_free pool i)
  | some (merged, pool') ↦ free_block fuel pool' merged
]

-- The walk of one list by `pool_find_block`.
unfoldable pub find_unwasted : Pool → (pages : ℕ) → List ℕ → Option ℕ
find_unwasted pool pages [] = none
find_unwasted pool pages (i ∷ is) =
    let rest = find_unwasted pool pages is in
    if not (pool.is_waste (i + pages - 1)) then some i else rest

-- The loop of `pool_find_block` from order `a` with `n` orders left.
unfoldable pub find_from : Pool → (n a pages : ℕ) → Option ℕ
find_from pool zero a pages = none
find_from pool (suc n) a pages =
    let rest = find_from pool n (a + 1) pages in
    elim (find_unwasted pool pages (pool.free_lists a)) [ none ↦ rest | some i ↦ some i ]

unfoldable pub pool_find_block : Pool → (allocation_order pages : ℕ) → Option (ℕ × Pool)
pool_find_block pool allocation_order pages =
    elim (find_from pool (pool.max_order + 1 - allocation_order) allocation_order pages) [
      | none ↦ none
      | some i ↦ some (i, list_remove pool i)
    ]

-- `while (block->order > order)`, for at most `fuel` rounds.
unfoldable pub split_down : (fuel order : ℕ) → Pool → ℕ → Pool
split_down zero order pool i = pool
split_down (suc fuel) order pool i =
    if ltb order (pool.order i) then split_down fuel order (split_block pool i) i else pool

-- The loop that lowers `max_order_free`.
unfoldable pub lower_max : (ℕ → List ℕ) → ℕ → ℕ
lower_max free_lists zero = zero
lower_max free_lists (suc n) = elim (free_lists (suc n)) [
  | [] ↦ lower_max free_lists n
  | i ∷ is ↦ suc n
]

-- The end of `buddy_allocate` with the block that was found: it is split and counted.
unfoldable pub take_block : (order : ℕ) → BlockType → Pool → ℕ → Pool
take_block order type pool i =
    let split = split_down (pool.order i) order pool i in
    record split {
      max_order_free = lower_max split.free_lists split.max_order_free;
      free_pages = (split.free_pages + 2 ^ 64 - 2 ^ split.order i) % 2 ^ 64;
      type = assign split.type i type;
    }

-- `buddy_deallocate` for a block of a pool.
unfoldable pub give_block : Pool → ℕ → Option Pool
give_block pool i =
    free_block (pool.max_order + 1)
      (record pool {
        free_pages = (pool.free_pages + 2 ^ pool.order i) % 2 ^ 64;
        type = assign pool.type i block_type_free;
      })
      i
