-- ===== src/Buddy/Take.antt =====
-- The block that a pool hands out.
use badger_os.Base.{
  ◌%◌, ℕ, zero, suc, ◌+◌, ◌-◌, ◌^◌, ◌≤◌, ◌≡◌, ◌≢◌, refl, ap, ◌∙◌, ◌⊎◌, ◌↔◌, inl, inr, arith,
}
use badger_os.Base.{Bool, true, false, ◌==◌, Bool-cases}
use badger_os.Base.{List, some, none}
use badger_os.Buddy.{
  Pool, BlockType, assign, split_down, lower_max, take_block, pool_find_block, list_remove,
}
use badger_os.Buddy.Lists.{elem, List-cases}
use badger_os.Buddy.Invariant.{IsPool, IsPool-adjust, with_block, Covers, IsFree}
use badger_os.Buddy.Find.{find_from_lem, list_remove-IsPool, list_remove-pages, IsUnwasted}
use badger_os.Buddy.Shrink.{split_down-Smaller}

same_number : (a b : ℕ) → (a == b) ≡ true → a ≡ b
same_number a b h = ground arith

lower_max-le :
    (free_lists : ℕ → List ℕ) (n a i : ℕ)
    → elem i (free_lists a) ≡ true
    → a ≤ n
    → a ≤ lower_max free_lists n
unfolding lower_max elem
lower_max-le free_lists zero a i h le = le
lower_max-le free_lists (suc n) a i h le = elim (List-cases (free_lists (suc n))) [
  | inl e ↦
      rw (lower_max, e)
        (lower_max-le free_lists n a i h (elim (Bool-cases (a == suc n)) [
          | inl same ↦
              absurd (ground (arith, ap (λ k. elem i (free_lists k)) (same_number a (suc n) same)))
          | inr other ↦ ground arith
        ]))
  | inr (j, js, e) ↦ rw (lower_max, e) le
]

-- Blocks that begin at different pages share no page.
covers-apart :
    (used : ℕ → Bool) (pool : Pool) (i p : ℕ)
    → IsPool used pool
    → used i ≡ true
    → Covers pool i p
    → ¬ IsFree pool p
covers-apart used pool i p inv ui (lo, hi) (x, l, (lo', hi')) =
    let a = inv.tiled.apart i x (ground arith) (ground arith) in
    let b = inv.tiled.apart x i (ground arith) (ground arith) in
    let ne : x ≢ i = λ q. absurd (ground (arith, inv.unlisted i, ap pool.in_list q)) in ground arith

-- What handing out the block `i` for `pages` pages makes of a pool.
pub record Taken (used : ℕ → Bool) (order pages : ℕ) (pool pool' : Pool) (i : ℕ) : Type 0 where
  pub new : used i ≡ false
  pub kept : IsPool (with_block used i) pool'
  pub size : pool'.order i ≡ order
  pub unwasted : IsUnwasted pool' pages i
  pub free : (p : ℕ) → IsFree pool p ↔ (Covers pool' i p ⊎ IsFree pool' p)
  pub apart : (p : ℕ) → Covers pool' i p → ¬ IsFree pool' p
  pub others : (x : ℕ) → used x ≡ true → pool'.order x ≡ pool.order x
  pub free_pages : pool'.free_pages ≡ (pool.free_pages + 2 ^ 64 - 2 ^ order) % 2 ^ 64
  pub listed : pool.in_list i ≡ true
  pub good : pool.is_waste i ≡ false
  pub start : pool'.pages_start ≡ pool.pages_start
  pub stop : pool'.pages_end ≡ pool.pages_end

take_block-Taken :
    (used : ℕ → Bool) (pool : Pool) (order pages i : ℕ) (type : BlockType)
    → IsPool used pool
    → pool.in_list i ≡ true
    → pool.is_waste i ≡ false
    → order ≤ pool.order i
    → IsUnwasted pool pages i
    → Taken used order pages pool (take_block order type (list_remove pool i) i) i
unfolding take_block list_remove
take_block-Taken used pool order pages i type inv l w lo good =
    let inv' = list_remove-IsPool used pool i inv l in
    let removed = list_remove pool i in
    let s =
      split_down-Smaller (pool.order i) order (with_block used i) removed i inv' (ground arith) lo
        (omega arith) (inv.below i l w) in
    let split = split_down (pool.order i) order removed i in
    let low = lower_max split.free_lists split.max_order_free in
    let kept =
      IsPool-adjust low ((split.free_pages + 2 ^ 64 - 2 ^ split.order i) % 2 ^ 64)
        (assign split.type i type) s.kept
        (λ x lx wx.
          lower_max-le split.free_lists split.max_order_free (split.order x) x
            (ground (arith, s.kept.on_free_list x (split.order x))) (s.kept.below x lx wx)) in
    record {
      new = ground (arith, inv.unlisted i);
      kept = kept;
      size = s.size;
      unwasted = ap (λ f. f (i + pages - 1)) s.is_waste ∙ good;
      free = λ p.
          let (a, b) = list_remove-pages pool i p l in
          let (c, d) = s.pages p in (λ h. c (a h), λ h. b (d h));
      apart = λ p. covers-apart (with_block used i) _ i p kept (ground arith);
      others = λ x u.
          s.others x (ground arith) (λ q. absurd (ground (arith, inv.unlisted i, ap used q)));
      free_pages =
          ap (λ n. (n + 2 ^ 64 - 2 ^ split.order i) % 2 ^ 64) s.free_pages
          ∙ ap (λ k. (pool.free_pages + 2 ^ 64 - 2 ^ k) % 2 ^ 64) s.size;
      listed = l;
      good = w;
      start = s.pages_start;
      stop = s.pages_end;
    }

-- On a well-formed pool the search either finds nothing, and then the last page asked for is waste
-- in every block of the order or above that is free and does not begin with waste; or it finds a
-- block that was not handed out, whose last page asked for is not waste. Split down to the order,
-- the block has that order, all its pages were free and are no longer so, no other free page is
-- lost, the blocks handed out before keep their sizes, the count of free pages falls by its pages modulo `2 ^ 64`,
-- and the pool is well-formed with the block handed out.
pub pool_find_block_lem :
    (used : ℕ → Bool) (pool : Pool) (order pages : ℕ) (type : BlockType)
    → IsPool used pool
    → ((pool_find_block pool order pages ≡ none)
        × ((i : ℕ)
            → pool.in_list i ≡ true
            → pool.is_waste i ≡ false
            → order ≤ pool.order i
            → pool.is_waste (i + pages - 1) ≡ true))
      ⊎ ((i : ℕ) × (found : Pool) × (pool_find_block pool order pages ≡ some (i, found))
          × (found.pages_start ≡ pool.pages_start)
          × Taken used order pages pool (take_block order type found i) i)
unfolding pool_find_block list_remove
pool_find_block_lem used pool order pages type inv =
    elim (find_from_lem pool (pool.max_order + 1 - order) order pages) [
      | inl (e, h) ↦ inl (
        rw (pool_find_block, e) refl,
        λ i l w lo.
            let (le, _, _) = inv.tiled.inside i (ground arith) in
            h (pool.order i) i lo (omega arith) (ground (arith, inv.on_free_list i (pool.order i))),
      )
      | inr (i, c, e, lo, hi, l, good) ↦
          let there = inv.on_free_list i c in
          inr (
            i,
            list_remove pool i,
            rw (pool_find_block, e) refl,
            refl,
            take_block-Taken used pool order pages i type inv (ground arith) (ground arith)
                (ground arith) good,
          )
    ]
