-- ===== src/Buddy/Dealloc.antt =====
-- `buddy_deallocate` over all pools.
use badger_os.Base.{
  ℕ, zero, suc, ◌+◌, ◌-◌, ◌*◌, ◌/◌, ◌%◌, ◌^◌, ◌≤◌, ◌<◌, ◌≡◌, refl, sym, ap, ◌∙◌, ◌⊎◌, ◌↔◌, arith,
  inl, inr,
}
use badger_os.Base.{
  Bool, true, false, ◌&&◌, ◌==◌, leb, ltb, some, List, [], ◌∷◌, get_elem?, get_elem?-set_self,
  get_elem?-set_ne, set, Bool-cases,
}
use mathlib.Core.Path.{subst}
use badger_os.Buddy.{Pool}
use badger_os.Buddy.Invariant.{IsPool, with_block, Covers, IsFree}
use badger_os.Buddy.Free.{give_block_lem}
use badger_os.Buddy.Alloc.{IsPools, with_block_of, within}
use badger_os.Buddy.Pools.{ptr_to_pool, buddy_get_block, buddy_deallocate, block_of}

-- The address is not in the pages of the pool.
abbrev pub IsOutside : ℕ → Pool → Type 0
IsOutside ptr pool = (ptr < pool.pages_start) ⊎ (pool.pages_end ≤ ptr)

ptr_to_pool_lem :
    (ptr n k : ℕ) (pools : List Pool) (pool : Pool)
    → get_elem? pools k ≡ some pool
    → pool.pages_start ≤ ptr
    → ptr < pool.pages_end
    → ((j : ℕ) (p : Pool) → j < k → get_elem? pools j ≡ some p → IsOutside ptr p)
    → ptr_to_pool ptr n pools ≡ some (n + k, pool)
unfolding ptr_to_pool
ptr_to_pool_lem ptr n k [] pool at lo hi before = cc
ptr_to_pool_lem ptr n zero (p ∷ pools) pool at lo hi before =
    let e : p ≡ pool = cc in
    let inside : (leb p.pages_start ptr && ltb ptr p.pages_end) ≡ true = rw e (ground arith) in
    rw (ptr_to_pool, inside, e) (ap (λ i. some (i, pool)) (omega arith))
ptr_to_pool_lem ptr n (suc k) (p ∷ pools) pool at lo hi before =
    let out = before 0 p (omega arith) refl in
    let outside : (leb p.pages_start ptr && ltb ptr p.pages_end) ≡ false = ground arith in
    rw (ptr_to_pool, outside)
      (ptr_to_pool_lem ptr (n + 1) k pools pool at lo hi
          (λ j q lt at'. before (suc j) q (omega arith) at')
        ∙ ap (λ i. some (i, pool)) (omega arith))

-- The block of the address of its first page, in the first pool that has the address.
buddy_get_block_lem :
    (k i : ℕ) (pools : List Pool) (pool : Pool)
    → get_elem? pools k ≡ some pool
    → 0 < pool.pages_start
    → pool.pages_start % 4096 ≡ 0
    → pool.pages_start + i * 4096 < pool.pages_end
    → ((j : ℕ) (p : Pool)
        → j < k
        → get_elem? pools j ≡ some p
        → IsOutside (pool.pages_start + i * 4096) p)
    → buddy_get_block (pool.pages_start + i * 4096) pools ≡ block_of k pool i
unfolding buddy_get_block
buddy_get_block_lem k i pools pool at pos aligned hi before =
    let ptr = pool.pages_start + i * 4096 in
    let some_ptr : (ptr == 0) ≡ false = ground arith in
    let page : (ptr / 4096 * 4096 == ptr) ≡ true = ground arith in
    let index : (ptr - pool.pages_start) / 4096 ≡ i = omega arith in
    let found = ptr_to_pool_lem ptr 0 k pools pool at (omega arith) hi before in
    rw (buddy_get_block, some_ptr, page, found, index) (ap (λ n. block_of n pool i) (omega arith))

set-IsPools :
    (used : ℕ → ℕ → Bool) (pools : List Pool) (k i : ℕ) (pool pool' : Pool)
    → IsPools (with_block_of used k i) pools
    → get_elem? pools k ≡ some pool
    → IsPool (used k) pool'
    → IsPools used (set pools k pool')
set-IsPools used pools k i pool pool' inv at kept j p at' = elim (Bool-cases (j == k)) [
  | inl same ↦
      let is : k ≡ j = ground arith in
      let there = get_elem?-set_self pools k pool' (within pools k at) in
      let e : p ≡ pool' = cc in rw e (subst (λ n. IsPool (used n) pool') is kept)
  | inr other ↦
      let away = get_elem?-set_ne pools {i = k} {j = j} pool' (λ q. absurd (ground arith)) in
      let q : with_block_of used k i j ≡ used j = rw other refl in
      subst (λ u. IsPool u p) q (inv j p (sym away ∙ at'))
]

-- Giving back the address of a block that is handed out, in well-formed pools of which the pool is
-- the first one that has the address and begins at a multiple of the page size other than 0, ends
-- without a panic. One pool is replaced: its free pages are those from before and the pages of the
-- block and no others, the other blocks handed out keep their sizes, the count of free pages grows
-- by the block's pages modulo `2 ^ 64`, and the pools are well-formed with the block no longer
-- handed out.
pub buddy_deallocate_lem :
    (used : ℕ → ℕ → Bool) (pools : List Pool) (k i : ℕ) (pool : Pool)
    → IsPools (with_block_of used k i) pools
    → used k i ≡ false
    → get_elem? pools k ≡ some pool
    → 0 < pool.pages_start
    → pool.pages_start % 4096 ≡ 0
    → pool.pages_start + i * 4096 < pool.pages_end
    → ((j : ℕ) (p : Pool)
        → j < k
        → get_elem? pools j ≡ some p
        → IsOutside (pool.pages_start + i * 4096) p)
    → (pool' : Pool) × (buddy_deallocate (pool.pages_start + i * 4096) pools
        ≡ some (set pools k pool'))
      × IsPools used (set pools k pool')
      × ((p : ℕ) → IsFree pool' p ↔ (Covers pool i p ⊎ IsFree pool p))
      × ((x : ℕ) → used k x ≡ true → pool'.order x ≡ pool.order x)
      × (pool'.free_pages ≡ (pool.free_pages + 2 ^ pool.order i) % 2 ^ 64)
unfolding buddy_deallocate
buddy_deallocate_lem used pools k i pool inv unused at pos aligned hi before =
    let own : (k == k) ≡ true = ground arith in
    let q : with_block_of used k i k ≡ with_block (used k) i = rw own refl in
    let held = subst (λ u. IsPool u pool) q (inv k pool at) in
    let block = buddy_get_block_lem k i pools pool at pos aligned hi before in
    let (pool', e, kept, pages, others, count) = give_block_lem (used k) pool i held unused in
    (
      pool',
      rw (buddy_deallocate, block, e) refl,
      set-IsPools used pools k i pool pool' inv at kept,
      pages,
      others,
      count,
    )
