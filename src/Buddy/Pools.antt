-- ===== src/Buddy/Pools.antt =====
-- kernel/src/malloc/static-buddy.c: the array of pools, on a machine whose `size_t` has 64 digits. An
-- address is a number, `NULL` is 0, and a block's address is that of its first page.
use badger_os.Base.{ℕ, zero, suc, ◌+◌, ◌-◌, ◌*◌, ◌/◌, ◌%◌, ◌^◌, bit_or, Bool, ◌&&◌}
use badger_os.Base.{Option, none, some, List, [], ◌∷◌, ◌==◌, leb, ltb, if◌then◌else◌, length, set}
use badger_os.Bitops.{count_leading_unset_bits64}
use badger_os.Buddy.{Pool, BlockType, block_type_error, pool_find_block, take_block, give_block}

abbrev pub page_size : ℕ
page_size = 4096

-- `x |= x >> n`
abbrev pub smear : (n x : ℕ) → ℕ
smear n x = bit_or x (x / 2 ^ n)

unfoldable pub next_power_of_two : ℕ → ℕ
next_power_of_two x =
    if leb x 1
    then 1
    else (smear 32 (smear 16 (smear 8 (smear 4 (smear 2 (smear 1 (x - 1)))))) + 1) % 2 ^ 64

unfoldable pub get_order : ℕ → ℕ
get_order size =
    let power = next_power_of_two size in
    if ltb 0 power then 63 - count_leading_unset_bits64 power else 0

-- The pool of an address, by its index, from the pool `k` on.
unfoldable pub ptr_to_pool : (ptr k : ℕ) → List Pool → Option (ℕ × Pool)
ptr_to_pool ptr k [] = none
ptr_to_pool ptr k (pool ∷ pools) =
    let rest = ptr_to_pool ptr (k + 1) pools in
    if leb pool.pages_start ptr && ltb ptr pool.pages_end then some (k, pool) else rest

-- The walk of `find_pool`, from the pool `k` on.
unfoldable pub find_pool_from : (start order alloc_size k : ℕ) → List Pool → Option (ℕ × Pool)
find_pool_from start order alloc_size k [] = none
find_pool_from start order alloc_size k (pool ∷ pools) =
    let rest = find_pool_from start order alloc_size (k + 1) pools in
    if leb start k && leb order pool.max_order_free && leb alloc_size pool.free_pages
    then some (k, pool)
    else rest

unfoldable pub find_pool : (start order alloc_size : ℕ) → List Pool → Option (ℕ × Pool)
find_pool start order alloc_size pools = find_pool_from start order alloc_size 0 pools

-- `size > (1 << order) - max_order_waste`, of which the right side has 32 digits.
abbrev pub too_large : (size order : ℕ) → Pool → Bool
too_large size order pool =
    (order == pool.max_order) && ltb ((2 ^ order + 2 ^ 32 - pool.max_order_waste) % 2 ^ 32) size

-- The loop of `buddy_allocate` from the pool `i` with `n` rounds left. A result has the index of the
-- pool, the pool, and the block that was taken from its list.
unfoldable pub allocate_from :
    (size pages order : ℕ) → List Pool → (n i : ℕ) → Option (ℕ × Pool × ℕ)
allocate_from size pages order pools zero i = none
allocate_from size pages order pools (suc n) i =
    let rest = allocate_from size pages order pools n (i + 1) in
    elim (find_pool i order pages pools) [
      | none ↦ none
      | some (k, pool) ↦
          if too_large size order pool then rest else elim (pool_find_block pool order pages) [
            | none ↦ rest
            | some (block, found) ↦ some (k, found, block)
          ]
    ]

unfoldable pub block_to_address : Pool → ℕ → ℕ
block_to_address pool i = pool.pages_start + i * page_size

-- The pages of an allocation, which wrap as the source's sum does.
unfoldable pub pages_of : ℕ → ℕ
pages_of size = (size + (page_size - 1)) % 2 ^ 64 / page_size

-- The address and the pools.
unfoldable pub buddy_allocate : (size : ℕ) → BlockType → List Pool → ℕ × List Pool
buddy_allocate size type pools =
    let pages = pages_of size in
    let order = get_order pages in
    if size == 0 then (0, pools) else elim (allocate_from size pages order pools (length pools) 0) [
      | none ↦ (0, pools)
      | some (k, found, block) ↦
          (block_to_address found block, set pools k (take_block order type found block))
    ]

-- The block of an address: `NULL`, a panic, or the pool and the block.
pub data GetBlock : Type 0 where
  no_block panics : GetBlock
  block_of : (k : ℕ) → Pool → (i : ℕ) → GetBlock

unfoldable pub buddy_get_block : ℕ → List Pool → GetBlock
buddy_get_block ptr pools =
    let found : GetBlock = elim (ptr_to_pool ptr 0 pools) [
      | none ↦ panics
      | some (k, pool) ↦ block_of k pool ((ptr - pool.pages_start) / page_size)
    ] in
    if ptr == 0 then no_block else if ptr / page_size * page_size == ptr then found else panics

-- `none` where the kernel panics.
unfoldable pub buddy_deallocate : ℕ → List Pool → Option (List Pool)
buddy_deallocate ptr pools = elim (buddy_get_block ptr pools) [
  | no_block ↦ some pools
  | panics ↦ none
  | block_of k pool i ↦ elim (give_block pool i) [
    | none ↦ none
    | some given ↦ some (set pools k given)
  ]
]

-- The bytes that `memcpy` is asked to move.
pub record Copy : Type 0 where
  pub dest : ℕ
  pub source : ℕ
  pub count : ℕ

-- The address, what is copied before the old block is given back, and the pools.
unfoldable pub buddy_reallocate : (ptr size : ℕ) → List Pool → Option (ℕ × Option Copy × List Pool)
buddy_reallocate ptr size pools = elim (buddy_get_block ptr pools) [
  | no_block ↦ some (0, none, pools)
  | panics ↦ none
  | block_of k pool i ↦
      let order = get_order (pages_of size) in
      let old_size = 2 ^ pool.order i * page_size in
      let (new_block, pools') = buddy_allocate size (pool.type i) pools in
      let copy : Copy = record {
        dest = new_block;
        source = ptr;
        count = if ltb old_size size then old_size else size;
      } in
      if pool.order i == order
      then some (ptr, none, pools)
      else if new_block == 0
      then some (0, none, pools')
      else elim (buddy_deallocate ptr pools') [
        | none ↦ none
        | some given ↦ some (new_block, some copy, given)
      ]
]

unfoldable pub buddy_get_type : ℕ → List Pool → Option BlockType
buddy_get_type ptr pools = elim (buddy_get_block ptr pools) [
  | no_block ↦ some block_type_error
  | panics ↦ none
  | block_of k pool i ↦ some (pool.type i)
]

unfoldable pub buddy_get_size : ℕ → List Pool → Option ℕ
buddy_get_size ptr pools = elim (buddy_get_block ptr pools) [
  | no_block ↦ some 0
  | panics ↦ none
  | block_of k pool i ↦ some (2 ^ pool.order i * page_size)
]
