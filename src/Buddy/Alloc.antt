-- ===== src/Buddy/Alloc.antt =====
-- `buddy_allocate` over all pools.
use badger_os.Base.{
  ℕ, zero, suc, ◌+◌, ◌*◌, ◌/◌, ◌%◌, ◌^◌, ◌≤◌, ◌<◌, ◌≡◌, refl, sym, ap, ◌∙◌, ◌⊎◌, arith, inl, inr,
}
use badger_os.Base.{
  Bool, false, ◌&&◌, ◌==◌, leb, Option, some, none, List, [], ◌∷◌, get_elem?, get_elem?-set_self,
  get_elem?-set_ne, set, length, Bool-cases, Option-cases, if◌then◌else◌,
}
use native.Mathlib.Nat.{mod-eq_of_lt}
use badger_os.Buddy.{Pool, BlockType, pool_find_block, take_block}
use badger_os.Buddy.Invariant.{IsPool, with_block}
use badger_os.Buddy.Take.{Taken, pool_find_block_lem}
use badger_os.Buddy.Order.{get_order_lem}
use badger_os.Buddy.Pools.{
  find_pool, find_pool_from, too_large, allocate_from, pages_of, get_order, block_to_address,
  buddy_allocate,
}

-- Each pool is well-formed; `used k` has the blocks of the pool `k` that are handed out.
abbrev pub IsPools : (ℕ → ℕ → Bool) → List Pool → Type 0
IsPools used pools = (k : ℕ) (pool : Pool) → get_elem? pools k ≡ some pool → IsPool (used k) pool

find_pool_from_lem :
    (start order pages k : ℕ) (pools : List Pool)
    → (find_pool_from start order pages k pools ≡ none)
      ⊎ ((m : ℕ) × (pool : Pool) × (find_pool_from start order pages k pools ≡ some (k + m, pool))
          × (get_elem? pools m ≡ some pool))
unfolding find_pool_from
find_pool_from_lem start order pages k [] = inl refl
find_pool_from_lem start order pages k (pool ∷ pools) =
    elim (Bool-cases (leb start k && leb order pool.max_order_free && leb pages pool.free_pages)) [
      | inl fits ↦
          inr (0, pool, rw (find_pool_from, fits) (ap (λ n. some (n, pool)) (omega arith)), refl)
      | inr misses ↦ elim (find_pool_from_lem start order pages (k + 1) pools) [
        | inl e ↦ inl (rw (find_pool_from, misses) e)
        | inr (m, found, e, at) ↦ inr (
          suc m,
          found,
          rw (find_pool_from, misses) (e ∙ ap (λ n. some (n, found)) (omega arith)),
          at,
        )
      ]
    ]

-- What the loop finds is a block of a pool of the list.
allocate_from_lem :
    (size pages order : ℕ) (pools : List Pool) (n i : ℕ)
    → (allocate_from size pages order pools n i ≡ none)
      ⊎ ((k : ℕ) × (pool found : Pool) × (block : ℕ) × (allocate_from size pages order pools n i
            ≡ some (k, found, block))
          × (get_elem? pools k ≡ some pool)
          × (pool_find_block pool order pages ≡ some (block, found)))
unfolding allocate_from find_pool
allocate_from_lem size pages order pools zero i = inl refl
allocate_from_lem size pages order pools (suc n) i =
    elim (find_pool_from_lem i order pages 0 pools) [
      | inl e ↦ inl (rw (allocate_from, find_pool, e) refl)
      | inr (k, pool, e, at) ↦ elim (Bool-cases (too_large size order pool)) [
        | inl large ↦ elim (allocate_from_lem size pages order pools n (i + 1)) [
          | inl e' ↦ inl (rw (allocate_from, find_pool, e, large) e')
          | inr (k', pool', found, block, e', at', f) ↦
              inr (k', pool', found, block, rw (allocate_from, find_pool, e, large) e', at', f)
        ]
        | inr fits ↦ elim (Option-cases (pool_find_block pool order pages)) [
          | inl none_left ↦ elim (allocate_from_lem size pages order pools n (i + 1)) [
            | inl e' ↦ inl (rw (allocate_from, find_pool, e, fits, none_left) e')
            | inr (k', pool', found, block, e', at', f) ↦ inr (
              k',
              pool',
              found,
              block,
              rw (allocate_from, find_pool, e, fits, none_left) e',
              at',
              f,
            )
          ]
          | inr ((block, found), f) ↦ inr (
            k,
            pool,
            found,
            block,
            rw (allocate_from, find_pool, e, fits, f)
                (ap (λ n. some (n, found, block)) (omega arith)),
            at,
            f,
          )
        ]
      ]
    ]

-- One more block of the pool `k` is handed out.
abbrev pub with_block_of : (ℕ → ℕ → Bool) → (k block : ℕ) → ℕ → ℕ → Bool
with_block_of used k block j = if j == k then with_block (used k) block else used j

pub within :
    (pools : List Pool) (k : ℕ) {pool : Pool} → get_elem? pools k ≡ some pool → k < length pools
within [] k at = cc
within (p ∷ pools) zero at = omega arith
within (p ∷ pools) (suc k) at = let h = within pools k at in omega arith

set-IsPools :
    (used : ℕ → ℕ → Bool) (pools : List Pool) (k block : ℕ) (pool pool' : Pool)
    → IsPools used pools
    → get_elem? pools k ≡ some pool
    → IsPool (with_block (used k) block) pool'
    → IsPools (with_block_of used k block) (set pools k pool')
set-IsPools used pools k block pool pool' inv at new j p at' = elim (Bool-cases (j == k)) [
  | inl same ↦
      let is : k ≡ j = ground arith in
      let there = get_elem?-set_self pools k pool' (within pools k at) in
      let e : p ≡ pool' = cc in rw (same, e) new
  | inr other ↦
      let away = get_elem?-set_ne pools {i = k} {j = j} pool' (λ q. absurd (ground arith)) in
      rw other (inv j p (sym away ∙ at'))
]

with_pool : ℕ → Option (ℕ × Pool) → Option (ℕ × Pool × ℕ)
with_pool k none = none
with_pool k (some (block, found)) = some (k, found, block)

-- Given well-formed pools and a size from 1 to `2 ^ 63` bytes, an allocation either fails and
-- changes nothing, or replaces one pool and hands out one block of it: a block that was not handed
-- out, of the smallest order that holds the size, all of whose pages were free and are no longer
-- so, while no other free page is lost and the blocks handed out before keep their sizes. The
-- address is that of the block's first page, and the pools are well-formed.
pub buddy_allocate_lem :
    (used : ℕ → ℕ → Bool) (pools : List Pool) (size : ℕ) (type : BlockType)
    → IsPools used pools
    → 0 < size
    → size ≤ 2 ^ 63
    → (buddy_allocate size type pools ≡ (0, pools))
      ⊎ ((k block order : ℕ) × (pool pool' : Pool) × (get_elem? pools k ≡ some pool)
          × (buddy_allocate size type pools ≡ (pool.pages_start + block * 4096, set pools k pool'))
          × Taken (used k) order (pages_of size) pool pool' block
          × IsPools (with_block_of used k block) (set pools k pool')
          × (size ≤ 2 ^ order * 4096)
          × (2 ^ order < pages_of size * 2))
unfolding with_pool buddy_allocate block_to_address pages_of
buddy_allocate_lem used pools size type inv pos small =
    let some_size : (size == 0) ≡ false = ground arith in
    let plain : (size + 4095) % 2 ^ 64 ≡ size + 4095 = mod-eq_of_lt (omega arith) in
    let pages = pages_of size in
    let is : pages ≡ (size + 4095) / 4096 = ap (λ n. n / 4096) plain in
    let order = get_order pages in
    let (a, b, _) = get_order_lem pages (omega arith) (omega arith) in
    elim (allocate_from_lem size pages order pools (length pools) 0) [
      | inl e ↦ inl (rw (buddy_allocate, some_size, e) refl)
      | inr (k, pool, found, block, e, at, f) ↦
          elim (pool_find_block_lem (used k) pool order pages type (inv k pool at)) [
            | inl (none_left, _) ↦ absurd (cc)
            | inr (block', found', f', start, taken) ↦
                let same : some (block, found) ≡ some (block', found') = sym f ∙ f' in
                let pool' = take_block order type found' block' in
                let now : allocate_from size pages order pools (length pools) 0
                    ≡ some (k, found', block') =
                  e ∙ ap (with_pool k) same in
                inr (
                  k,
                  block',
                  order,
                  pool,
                  pool',
                  at,
                  rw (buddy_allocate, some_size, now, start) refl,
                  taken,
                  set-IsPools used pools k block' pool pool' inv at taken.kept,
                  omega arith,
                  b,
                )
          ]
    ]
