-- ===== src/Buddy/Init.antt =====
-- `init_pool`: where a pool lies in its memory, and its first block.
use badger_os.Base.{
  ℕ, ◌+◌, ◌-◌, ◌*◌, ◌/◌, ◌%◌, ◌^◌, ◌≤◌, ◌<◌, ◌≡◌, ◌↔◌, refl, sym, ap, ◌∙◌, inl, inr, arith,
}
use badger_os.Base.{
  Bool, true, false, not, ◌&&◌, ◌||◌, List, [], ◌∷◌, ◌++◌, ◌==◌, leb, ltb, if◌then◌else◌, length,
  Bool-cases,
}
use badger_os.Buddy.{Pool, block_type_free, push_free, assign, flip}
use badger_os.Buddy.Lists.{elem}
use badger_os.Buddy.Tiles.{one_block-IsTiled, flip_zero}
use badger_os.Buddy.Invariant.{IsPool, IsFree}
use badger_os.Buddy.Pools.{get_order}

-- The bytes of a `buddy_block_t`.
abbrev block_size : ℕ
block_size = 24

abbrev align_up : (address size : ℕ) → ℕ
align_up address size = (address + (size - 1)) / size * size

-- Where the parts of a pool lie. The sum that gives `blocks` is of a pointer to blocks, so that
-- the size of the lists counts blocks and not bytes.
pub record Layout : Type 0 where
  pub total_pages : ℕ
  pub orders : ℕ
  pub blocks : ℕ
  pub pages_start : ℕ
  pub pages_end : ℕ
  pub pages : ℕ
  pub max_order_waste : ℕ

unfoldable pub layout : (mem_start mem_end : ℕ) → Layout
layout mem_start mem_end =
    let total_pages = (mem_end - mem_start) / 4096 in
    let orders = get_order total_pages in
    let free_lists_size = block_size * (orders + 1) in
    let blocks = align_up (mem_start + free_lists_size * block_size) 8 in
    let pages_start = align_up (blocks + block_size * total_pages) 4096 in
    let pages_end = mem_end / 4096 * 4096 in
    let pages = (pages_end + 2 ^ 64 - pages_start) % 2 ^ 64 / 4096 in
    record {
      total_pages = total_pages;
      orders = orders;
      blocks = blocks;
      pages_start = pages_start;
      pages_end = pages_end;
      pages = pages;
      max_order_waste = (2 ^ orders + 2 ^ 64 - pages) % 2 ^ 32;
    }

-- The loop that marks waste, from `pages - max_order_waste`, a difference that wraps.
unfoldable pub marked : Layout → ℕ → Bool
marked l i = leb ((l.pages + 2 ^ 64 - l.max_order_waste) % 2 ^ 64) i && ltb i l.total_pages

-- Whether `memset` clears the entry `i`.
unfoldable pub cleared : Layout → ℕ → Bool
cleared l i = leb (l.blocks + block_size * (i + 1)) l.pages_start

-- The new pool. `behind` is what lies in memory where the array of blocks would go on.
unfoldable pub new_pool : (behind : Pool) → Layout → Pool
new_pool behind l =
    let pool : Pool = record {
      pages_start = l.pages_start;
      pages_end = l.pages_end;
      pages = l.pages;
      free_pages = l.pages;
      max_order = l.orders;
      max_order_free = l.orders;
      max_order_waste = l.max_order_waste;
      waste_list = [];
      free_lists = λ a. [];
      order = assign (λ i. if cleared l i then 0 else behind.order i) 0 l.orders;
      in_list = λ i. if cleared l i then false else behind.in_list i;
      is_waste = λ i. marked l i || (not (cleared l i) && behind.is_waste i);
      type = λ i. if cleared l i then block_type_free else behind.type i;
    } in
    push_free pool l.orders 0

-- `init_pool`, with room for `max_pools` pools.
unfoldable pub init_pool :
    (max_pools : ℕ) (behind : Pool) (mem_start mem_end : ℕ) → List Pool → List Pool
init_pool max_pools behind mem_start mem_end pools =
    if leb max_pools (length pools)
    then pools
    else pools ++ (new_pool behind (layout mem_start mem_end) ∷ [])

-- The waste that the loop marks in a pool with fewer waste pages than pages.
marked_lem :
    (l : Layout)
    → l.max_order_waste < l.pages
    → l.pages < 2 ^ 64
    → (i : ℕ) → marked l i ≡ true ↔ ((l.pages - l.max_order_waste ≤ i) × (i < l.total_pages))
unfolding marked
marked_lem l more fits i =
    let from : (l.pages + 2 ^ 64 - l.max_order_waste) % 2 ^ 64 ≡ l.pages - l.max_order_waste =
      omega arith in
    rw from (ground arith)

-- A new pool whose pages and waste make up its largest block, with fewer waste pages than pages and
-- in memory where what lies behind the array of blocks does not look like blocks in a list, is
-- well-formed with no block handed out, and counts all its pages as free. Of the pages whose entry
-- lies in front of the pool's first page, exactly those from `pages - max_order_waste` up to the
-- total number of pages are marked as waste. One free block covers all the page numbers of the
-- largest order, those behind the pool's pages included.
pub new_pool-IsPool :
    (behind : Pool) (l : Layout)
    → l.pages + l.max_order_waste ≡ 2 ^ l.orders
    → l.max_order_waste < l.pages
    → l.pages < 2 ^ 64
    → l.blocks + 24 ≤ l.pages_start
    → ((i : ℕ) → behind.in_list i ≡ false)
    → let pool = new_pool behind l in
      IsPool (λ i. false) pool
      × (pool.free_pages ≡ l.pages)
      × ((i : ℕ)
          → l.blocks + 24 * (i + 1) ≤ l.pages_start
          → pool.is_waste i ≡ true ↔ ((l.pages - l.max_order_waste ≤ i) × (i < l.total_pages)))
      × ((p : ℕ) → p < 2 ^ l.orders → IsFree pool p)
unfolding new_pool push_free elem cleared
new_pool-IsPool behind l span more fits space quiet =
    let pool = new_pool behind l in
    let room : cleared l 0 ≡ true = ground arith in
    let unmarked = marked_lem l more fits 0 in
    let good : marked l 0 ≡ false = ground arith in
    let only : (i : ℕ) → pool.in_list i ≡ (i == 0) = λ i. ground (arith, quiet i) in
    let first : (i : ℕ) → pool.in_list i ≡ true → i ≡ 0 = λ i h. ground (arith, only i) in
    let size : pool.order 0 ≡ l.orders = ground arith in
    let size' : (i : ℕ) → i ≡ 0 → pool.order i ≡ l.orders = λ i e. ap pool.order e ∙ size in
    let clean : (i : ℕ) → i ≡ 0 → pool.is_waste i ≡ false =
      λ i e. ap pool.is_waste e ∙ ground arith in
    (
      record {
        tiled = one_block-IsTiled (λ i h. first i h) size;
        span = span;
        unlisted = λ i u. absurd (ground arith);
        on_free_list = λ i a.
            let on : elem i (pool.free_lists a) ≡ ((i == 0) && (a == l.orders)) = ground arith in
            elim (Bool-cases (i == 0)) [
              | inl here ↦
                  let is : i ≡ 0 = ground arith in
                  ground (arith, on, only i, size' i is, clean i is)
              | inr other ↦ ground (arith, on, only i)
            ];
        on_waste_list = λ i. ground (arith, first i, clean i);
        merged = λ i h h'.
            let is = first i h in
            absurd (
              flip_zero l.orders (
                ap (flip 0) (sym size)
                ∙ ap (λ k. flip k (pool.order k)) (sym is)
                ∙ first (flip i (pool.order i)) h'));
        below = λ i h w. let e = size' i (first i h) in omega arith;
      },
      refl,
      λ i entry.
          let own : cleared l i ≡ true = ground arith in
          let same : pool.is_waste i ≡ marked l i = ground arith in
          rw same (marked_lem l more fits i),
      λ p lt.
          let e : 2 ^ pool.order 0 ≡ 2 ^ l.orders = ap (λ k. 2 ^ k) size in
          (0, ground (arith, only 0), (omega arith, omega arith)),
    )
