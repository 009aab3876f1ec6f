-- ===== src/Buddy/RoundTrip.antt =====
-- `buddy_deallocate` after `buddy_allocate`.
use badger_os.Base.{
  ℕ, ◌+◌, ◌*◌, ◌%◌, ◌^◌, ◌≤◌, ◌<◌, ◌≡◌, ◌≢◌, sym, ap, ◌∙◌, ◌⊎◌, ◌↔◌, arith, inl, inr,
}
use badger_os.Base.{
  Bool, false, ◌==◌, some, List, get_elem?, get_elem?-set_self, get_elem?-set_ne, set, length-set,
  Bool-cases,
}
use badger_os.Buddy.{Pool, BlockType}
use badger_os.Buddy.Tiles.{pow-pos}
use badger_os.Buddy.Invariant.{IsFree}
use badger_os.Buddy.Alloc.{IsPools, within, buddy_allocate_lem}
use badger_os.Buddy.Dealloc.{buddy_deallocate_lem}
use badger_os.Buddy.Pools.{buddy_allocate, buddy_deallocate}

-- The pools lie apart, at page boundaries other than 0, and the pages of their largest blocks that are
-- not waste are in them.
pub record IsPlaced (pools : List Pool) : Type 0 where
  pub aligned :
      (k : ℕ) (p : Pool)
      → get_elem? pools k ≡ some p
      → (0 < p.pages_start) × (p.pages_start % 4096 ≡ 0)
  pub inside :
      (k : ℕ) (p : Pool)
      → get_elem? pools k ≡ some p
      → (i : ℕ) → i < 2 ^ p.max_order
      → p.is_waste i ≡ false
      → p.pages_start + i * 4096 < p.pages_end
  pub apart :
      (j k : ℕ) (p q : Pool)
      → j < k
      → get_elem? pools j ≡ some p
      → get_elem? pools k ≡ some q
      → (p.pages_end ≤ q.pages_start) ⊎ (q.pages_end ≤ p.pages_start)

-- The free pages of two lists of pools are the same.
abbrev pub IsSameFree : (pools pools' : List Pool) → Type 0
IsSameFree pools pools' =
    (k : ℕ) (p p' : Pool)
    → get_elem? pools k ≡ some p
    → get_elem? pools' k ≡ some p'
    → (page : ℕ) → IsFree p' page ↔ IsFree p page

twice-IsSameFree :
    (pools : List Pool) (k : ℕ) (pool pool' pool'' : Pool)
    → get_elem? pools k ≡ some pool
    → ((page : ℕ) → IsFree pool'' page ↔ IsFree pool page)
    → IsSameFree pools (set (set pools k pool') k pool'')
twice-IsSameFree pools k pool pool' pool'' at same j p p' at' at'' page =
    elim (Bool-cases (j == k)) [
      | inl own ↦
          let is : k ≡ j = ground arith in
          let inner = within pools k at in
          let there =
            get_elem?-set_self (set pools k pool') k pool''
              (omega (arith, length-set pools k pool')) in
          let e : p' ≡ pool'' = cc in let e' : p ≡ pool = cc in rw (e, e') (same page)
      | inr other ↦
          let ne : k ≢ j = λ q. absurd (ground arith) in
          let away = get_elem?-set_ne (set pools k pool') {i = k} {j = j} pool'' ne in
          let away' = get_elem?-set_ne pools {i = k} {j = j} pool' ne in
          let e : p' ≡ p = cc in rw e ((λ h. h), (λ h. h))
    ]

-- An address that is allocated is at a page boundary in a pool.
pub buddy_allocate-inside :
    (used : ℕ → ℕ → Bool) (pools : List Pool) (size : ℕ) (type : BlockType)
    → IsPools used pools
    → IsPlaced pools
    → 0 < size
    → size ≤ 2 ^ 63
    → (buddy_allocate size type pools ≡ (0, pools))
      ⊎ ((k ptr : ℕ) × (pool : Pool) × (pools' : List Pool) × (get_elem? pools k ≡ some pool)
          × (buddy_allocate size type pools ≡ (ptr, pools'))
          × (pool.pages_start ≤ ptr)
          × (ptr < pool.pages_end)
          × (ptr % 4096 ≡ 0)
          × (0 < ptr))
buddy_allocate-inside used pools size type inv placed pos small =
    elim (buddy_allocate_lem used pools size type inv pos small) [
      | inl e ↦ inl e
      | inr (k, block, order, pool, pool', at, e, taken, inv', fits, tight) ↦
          let (above, aligned) = placed.aligned k pool at in
          let (_, _, bound) = (inv k pool at).tiled.inside block (ground (arith, taken.listed)) in
          let room = pow-pos (pool.order block) in
          let end = placed.inside k pool at block (omega arith) taken.good in
          inr (
            k,
            pool.pages_start + block * 4096,
            pool,
            set pools k pool',
            at,
            e,
            omega arith,
            end,
            omega arith,
            omega arith,
          )
    ]

-- Given well-formed pools that lie apart, at page boundaries other than 0, with those pages of their largest blocks that lie outside
-- of them marked as waste, and a size from 1 to `2 ^ 63` bytes: an allocation either fails, or giving its
-- address back ends without a panic, in well-formed pools with the blocks handed out that were
-- handed out before it, and with the same pages free.
pub buddy_deallocate-buddy_allocate :
    (used : ℕ → ℕ → Bool) (pools : List Pool) (size : ℕ) (type : BlockType)
    → IsPools used pools
    → IsPlaced pools
    → 0 < size
    → size ≤ 2 ^ 63
    → let (ptr, pools') = buddy_allocate size type pools in
      ((ptr ≡ 0) × (pools' ≡ pools))
      ⊎ ((given : List Pool) × (buddy_deallocate ptr pools' ≡ some given)
          × IsPools used given
          × IsSameFree pools given)
buddy_deallocate-buddy_allocate used pools size type inv placed pos small =
    elim (buddy_allocate_lem used pools size type inv pos small) [
      | inl e ↦ inl (ap (λ r. r.0) e, ap (λ r. r.1) e)
      | inr (k, block, order, pool, pool', at, e, taken, inv', fits, tight) ↦
          let (above, aligned) = placed.aligned k pool at in
          let (_, _, bound) = (inv k pool at).tiled.inside block (ground (arith, taken.listed)) in
          let room = pow-pos (pool.order block) in
          let first : block < 2 ^ pool.max_order = omega arith in
          let end = placed.inside k pool at block first taken.good in
          let start = taken.start in
          let stop = taken.stop in
          let there = get_elem?-set_self pools k pool' (within pools k at) in
          let (pool'', e', kept, pages, others, count) =
            buddy_deallocate_lem used (set pools k pool') k block pool' inv' taken.new there
              (omega arith) (ap (λ n. n % 4096) start ∙ aligned) (omega arith)
              (λ j p lt at'.
                let away = get_elem?-set_ne pools {i = k} {j = j} pool' (omega arith) in
                let old = sym away ∙ at' in
                elim (placed.apart j k p pool lt old at) [
                  | inl before ↦ inr (omega arith)
                  | inr behind ↦ inl (omega arith)
                ]) in
          let address : pool.pages_start + block * 4096 ≡ pool'.pages_start + block * 4096 =
            omega arith in
          let same : (page : ℕ) → IsFree pool'' page ↔ IsFree pool page = λ page.
            let (a, b) = pages page in
            let (c, d) = taken.free page in (λ h. d (a h), λ h. b (c h)) in
          inr (
            set (set pools k pool') k pool'',
            rw e (rw address e'),
            kept,
            twice-IsSameFree pools k pool pool' pool'' at same,
          )
    ]
