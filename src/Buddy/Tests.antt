-- ===== src/Buddy/Tests.antt =====
-- A pool of seven pages.
use badger_os.Base.{
  ℕ, zero, suc, ◌+◌, ◌-◌, ◌*◌, ◌^◌, ◌≤◌, ◌<◌, ◌≡◌, refl, ◌⊎◌, ◌↔◌, arith, Bool, true, false,
}
use badger_os.Base.{none, some, [], ◌∷◌, get_elem?, set}
use mathlib.Core.Path.{subst}
use badger_os.Buddy.{
  Pool, block_type_free, block_type_user, pool_find_block, take_block, give_block, list_remove,
  push_free,
}
use badger_os.Buddy.Pools.{get_order, next_power_of_two, pages_of, buddy_allocate, buddy_deallocate}
use badger_os.Buddy.Init.{Layout, layout, new_pool, marked, cleared, new_pool-IsPool}
use badger_os.Buddy.Invariant.{IsPool, with_block, Covers, IsFree}
use badger_os.Buddy.Find.{list_remove-IsPool}
use badger_os.Buddy.Free.{give_block_lem}
use badger_os.Buddy.Take.{Taken, pool_find_block_lem}
use badger_os.Buddy.Order.{get_order_lem}
use badger_os.Memory.{Mem}
use badger_os.Memory.Plain.{plain}
use badger_os.Buddy.Alloc.{IsPools, with_block_of, buddy_allocate_lem}
use badger_os.Buddy.Dealloc.{buddy_deallocate_lem}
use badger_os.Buddy.Pages.{phys_page_alloc, phys_page_free, phys_page_free-phys_page_alloc}
use badger_os.Buddy.RoundTrip.{IsPlaced, IsSameFree, buddy_deallocate-buddy_allocate}
use badger_os.Base.{◌%◌, List}
use badger_os.Bitops.{clz64, count_leading_unset_bits64}

abbrev quiet : Pool
quiet = record {
  pages_start = 0;
  pages_end = 0;
  pages = 0;
  free_pages = 0;
  max_order = 0;
  max_order_free = 0;
  max_order_waste = 0;
  waste_list = [];
  free_lists = λ a. [];
  order = λ i. 0;
  in_list = λ i. false;
  is_waste = λ i. false;
  type = λ i. block_type_free;
}

-- Eight pages of memory, of which the first one has the lists and the blocks.
abbrev small : Layout
small = record {
  total_pages = 8;
  orders = 3;
  blocks = 2147485952;
  pages_start = 2147487744;
  pages_end = 2147516416;
  pages = 7;
  max_order_waste = 1;
}

layout_runs : layout 2147483648 2147516416 ≡ small
unfolding layout get_order next_power_of_two count_leading_unset_bits64 clz64
layout_runs = refl

abbrev start : Pool
start = new_pool quiet small

abbrev none_used : ℕ → Bool
none_used i = false

new_pool-IsPool_example :
    IsPool none_used start
    × (start.free_pages ≡ 7)
    × ((i : ℕ)
        → 2147485952 + 24 * (i + 1) ≤ 2147487744
        → start.is_waste i ≡ true ↔ ((7 - 1 ≤ i) × (i < 8)))
    × ((p : ℕ) → p < 2 ^ 3 → IsFree start p)
new_pool-IsPool_example =
    new_pool-IsPool quiet small refl (omega arith) (omega arith) (omega arith) (λ i. refl)

start-IsPool : IsPool none_used start
start-IsPool =
    (new_pool-IsPool quiet small refl (omega arith) (omega arith) (omega arith) (λ i. refl)).0

-- The pool with its only block handed out.
abbrev handed : Pool
handed = list_remove start 0

handed-IsPool : IsPool (with_block none_used 0) handed
unfolding new_pool push_free
handed-IsPool = list_remove-IsPool none_used start 0 start-IsPool refl

give_block_lem_example :
    (pool' : Pool) × (give_block handed 0 ≡ some pool')
    × IsPool none_used pool'
    × ((p : ℕ) → IsFree pool' p ↔ (Covers handed 0 p ⊎ IsFree handed p))
    × ((x : ℕ) → none_used x ≡ true → pool'.order x ≡ handed.order x)
    × (pool'.free_pages ≡ (handed.free_pages + 2 ^ handed.order 0) % 2 ^ 64)
give_block_lem_example = give_block_lem none_used handed 0 handed-IsPool refl

pool_find_block_lem_example :
    ((pool_find_block start 1 2 ≡ none)
      × ((i : ℕ)
          → start.in_list i ≡ true
          → start.is_waste i ≡ false
          → 1 ≤ start.order i
          → start.is_waste (i + 2 - 1) ≡ true))
    ⊎ ((i : ℕ) × (found : Pool) × (pool_find_block start 1 2 ≡ some (i, found))
        × (found.pages_start ≡ start.pages_start)
        × Taken none_used 1 2 start (take_block 1 block_type_user found i) i)
pool_find_block_lem_example = pool_find_block_lem none_used start 1 2 block_type_user start-IsPool

get_order_lem_example : (5 ≤ 2 ^ get_order 5) × (2 ^ get_order 5 < 5 * 2) × (get_order 5 < 64)
get_order_lem_example = get_order_lem 5 (omega arith) (omega arith)

one_pool-IsPools :
    (used : ℕ → ℕ → Bool) (pool : Pool) → IsPool (used 0) pool → IsPools used (pool ∷ [])
one_pool-IsPools used pool h zero p at = let e : pool ≡ p = cc in subst (IsPool (used 0)) e h
one_pool-IsPools used pool h (suc k) p at = cc

first_only : (k : ℕ) (p : Pool) → get_elem? (start ∷ []) k ≡ some p → (k ≡ 0) × (start ≡ p)
first_only zero p at = (refl, cc)
first_only (suc k) p at = cc

abbrev nothing_used : ℕ → ℕ → Bool
nothing_used k i = false

buddy_allocate_lem_example :
    (buddy_allocate 5000 block_type_user (start ∷ []) ≡ (0, start ∷ []))
    ⊎ ((k block order : ℕ) × (pool pool' : Pool) × (get_elem? (start ∷ []) k ≡ some pool)
        × (buddy_allocate 5000 block_type_user (start ∷ [])
            ≡ (pool.pages_start + block * 4096, set (start ∷ []) k pool'))
        × Taken (nothing_used k) order (pages_of 5000) pool pool' block
        × IsPools (with_block_of nothing_used k block) (set (start ∷ []) k pool')
        × (5000 ≤ 2 ^ order * 4096)
        × (2 ^ order < pages_of 5000 * 2))
buddy_allocate_lem_example =
    buddy_allocate_lem nothing_used (start ∷ []) 5000 block_type_user
      (one_pool-IsPools nothing_used start start-IsPool) (omega arith) (omega arith)

buddy_deallocate_lem_example :
    (pool' : Pool) × (buddy_deallocate (handed.pages_start + 0 * 4096) (handed ∷ [])
      ≡ some (set (handed ∷ []) 0 pool'))
    × IsPools nothing_used (set (handed ∷ []) 0 pool')
    × ((p : ℕ) → IsFree pool' p ↔ (Covers handed 0 p ⊎ IsFree handed p))
    × ((x : ℕ) → nothing_used 0 x ≡ true → pool'.order x ≡ handed.order x)
    × (pool'.free_pages ≡ (handed.free_pages + 2 ^ handed.order 0) % 2 ^ 64)
unfolding list_remove new_pool push_free
buddy_deallocate_lem_example =
    buddy_deallocate_lem nothing_used (handed ∷ []) 0 0 handed
      (one_pool-IsPools (with_block_of nothing_used 0 0) handed handed-IsPool) refl refl
      (omega arith) refl (omega arith) (λ j p lt. absurd (omega arith))

start-IsPlaced : IsPlaced (start ∷ [])
unfolding new_pool push_free marked cleared
start-IsPlaced = record {
  aligned = λ k p at.
      subst (λ q. (0 < q.pages_start) × (q.pages_start % 4096 ≡ 0)) (first_only k p at).1
        (omega arith, refl);
  inside = λ k p at.
      subst
        (λ q.
          (i : ℕ)
          → i < 2 ^ q.max_order
          → q.is_waste i ≡ false
          → q.pages_start + i * 4096 < q.pages_end)
        (first_only k p at).1 (λ i lt good. ground arith);
  apart = λ j k p q lt at at'. let (last, _) = first_only k q at' in absurd (omega arith);
}

buddy_deallocate-buddy_allocate_example :
    let (ptr, pools') = buddy_allocate 5000 block_type_user (start ∷ []) in
    ((ptr ≡ 0) × (pools' ≡ start ∷ []))
    ⊎ ((given : List Pool) × (buddy_deallocate ptr pools' ≡ some given)
        × IsPools nothing_used given
        × IsSameFree (start ∷ []) given)
buddy_deallocate-buddy_allocate_example =
    buddy_deallocate-buddy_allocate nothing_used (start ∷ []) 5000 block_type_user
      (one_pool-IsPools nothing_used start start-IsPool) start-IsPlaced (omega arith) (omega arith)

mapped :
    (k : ℕ) (p : Pool)
    → get_elem? (start ∷ []) k ≡ some p
    → (4096 ≤ p.pages_start) × (p.pages_end ≤ 2 ^ 64)
unfolding new_pool push_free
mapped k p at =
    subst (λ q. (4096 ≤ q.pages_start) × (q.pages_end ≤ 2 ^ 64)) (first_only k p at).1
      (omega arith, omega arith)

abbrev dirty : Mem
dirty x = 165

phys_page_free-phys_page_alloc_example :
    let (ppn, memory', pools') = phys_page_alloc plain 4096 2 true dirty (start ∷ []) in
    ((ppn ≡ 0) × (memory' ≡ dirty) × (pools' ≡ start ∷ []))
    ⊎ (((x : ℕ) → x < 2 * 4096 → memory' (4096 + ppn * 4096 + x) ≡ 0)
        × ((x : ℕ) → (x < 4096 + ppn * 4096) ⊎ (4096 + (ppn + 2) * 4096 ≤ x) → memory' x ≡ dirty x)
        × (given : List Pool) × (phys_page_free 4096 ppn pools' ≡ some given)
        × IsPools nothing_used given
        × IsSameFree (start ∷ []) given)
phys_page_free-phys_page_alloc_example =
    phys_page_free-phys_page_alloc plain nothing_used dirty (start ∷ []) 4096 2 true
      (one_pool-IsPools nothing_used start start-IsPool) start-IsPlaced mapped refl (omega arith)
      (omega arith)
