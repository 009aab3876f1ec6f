-- ===== src/Buddy/Free.antt =====
-- `free_block`: the merges end, and what is left.
use mathlib.Core.Path.{subst}
use badger_os.Base.{
  ◌%◌, ℕ, zero, suc, ◌+◌, ◌^◌, ◌≤◌, ◌<◌, ◌≡◌, ◌≢◌, refl, sym, ap, ◌∙◌, ◌⊎◌, ◌↔◌, inl, inr, arith,
}
use badger_os.Base.{Bool, true, false, not, ◌&&◌, ◌||◌, ◌==◌, Bool-cases}
use badger_os.Base.{some}
use badger_os.Buddy.{
  Pool, flip, put_free, free_block, push_free, push_waste, give_block, block_type_free, assign,
}
use badger_os.Buddy.Lists.{elem}
use badger_os.Buddy.Tiles.{pow-pos, flip-flip, flip-IsPair}
use badger_os.Buddy.Invariant.{IsPool, IsPool-adjust, head, with_block, Covers, IsFree}
use badger_os.Buddy.Merge.{try_merge_buddy_lem, whole-free, Merge-IsPool, merge-pages}

record Put (pool pool' : Pool) (i : ℕ) : Type 0 where
  order : pool'.order ≡ pool.order
  in_list : (x : ℕ) → pool'.in_list x ≡ ((x == i) || pool.in_list x)
  is_waste : pool'.is_waste ≡ pool.is_waste
  free_lists :
      (x a : ℕ)
      → elem x (pool'.free_lists a)
        ≡ (((i == x) && (pool.order i == a) && not (pool.is_waste i)) || elem x (pool.free_lists a))
  waste_list :
      (x : ℕ) → elem x pool'.waste_list ≡ (((i == x) && pool.is_waste i) || elem x pool.waste_list)
  raised : pool.max_order_free ≤ pool'.max_order_free
  enough : pool.is_waste i ≡ false → pool.order i ≤ pool'.max_order_free
  max_order : pool'.max_order ≡ pool.max_order
  pages : pool'.pages ≡ pool.pages
  max_order_waste : pool'.max_order_waste ≡ pool.max_order_waste
  free_pages : pool'.free_pages ≡ pool.free_pages
  type : pool'.type ≡ pool.type

put_free-Put : (pool : Pool) (i : ℕ) → Put pool (put_free pool i) i
unfolding put_free push_free push_waste elem
put_free-Put pool i = record {
  order = ground arith;
  in_list = λ x. ground arith;
  is_waste = ground arith;
  free_lists = λ x a. ground arith;
  waste_list = λ x. ground arith;
  raised = ground arith;
  enough = λ w. ground arith;
  max_order = ground arith;
  pages = ground arith;
  max_order_waste = ground arith;
  free_pages = ground arith;
  type = ground arith;
}

-- The buddy of the block is not in a list with the same order.
abbrev IsAlone : Pool → ℕ → Type 0
IsAlone pool i =
    pool.in_list (flip i (pool.order i)) ≡ true → pool.order (flip i (pool.order i)) ≢ pool.order i

module _ (rest : ℕ → Bool) {pool pool' : Pool} {i : ℕ} (inv : IsPool (with_block rest i) pool)
    (ri : rest i ≡ false) (alone : IsAlone pool i) (s : Put pool pool' i) where
  put-merged :
      (x : ℕ)
      → pool'.in_list x ≡ true
      → pool'.in_list (flip x (pool.order x)) ≡ true
      → pool.order (flip x (pool.order x)) ≢ pool.order x
  put-merged x l l' same =
      let y = flip x (pool.order x) in
      let (_, al, _) = inv.tiled.inside x (ground (arith, s.in_list x)) in
      let pos = pow-pos (pool.order x) in
      let ne : x ≢ y = elim (flip-IsPair x (pool.order x) al) [
        | inl p ↦ let r = p.right in omega arith
        | inr p ↦ let r = p.right in omega arith
      ] in
      let back : flip y (pool.order y) ≡ x = ap (flip y) same ∙ flip-flip x (pool.order x) al in
      elim (Bool-cases (x == i)) [
        | inl here ↦
            let is : i ≡ x = ground arith in
            subst (IsAlone pool) is alone (ground (arith, s.in_list y)) same
        | inr other ↦ elim (Bool-cases (y == i)) [
          | inl there ↦
              let is : i ≡ y = ground arith in
              subst (IsAlone pool) is alone (ap pool.in_list back ∙ ground (arith, s.in_list x))
                (ap pool.order back ∙ sym same)
          | inr away ↦ inv.merged x (ground (arith, s.in_list x)) (ground (arith, s.in_list y)) same
        ]
      ]

  Put-IsPool : IsPool rest pool'
  Put-IsPool =
      let waste : (x : ℕ) → pool'.is_waste x ≡ pool.is_waste x = λ x. ap (λ f. f x) s.is_waste in
      let order : (x : ℕ) → pool'.order x ≡ pool.order x = λ x. ap (λ f. f x) s.order in
      let li = inv.unlisted i (ground arith) in
      let back : (x : ℕ) → head rest pool' x ≡ true → head (with_block rest i) pool x ≡ true =
        λ x h. ground (arith, s.in_list x) in
      record {
        tiled =
            rw (s.order, s.max_order)
              (record {
                inside = λ x h. inv.tiled.inside x (back x h);
                apart = λ x y h h'. inv.tiled.apart x y (back x h) (back y h');
              });
        span = cc;
        unlisted = λ x u. ground (arith, inv.unlisted x, s.in_list x);
        on_free_list = λ x a.
            ground (arith, inv.on_free_list x a, s.free_lists x a, s.in_list x, waste x, order x);
        on_waste_list =
            λ x. ground (arith, inv.on_waste_list x, s.waste_list x, s.in_list x, waste x);
        merged = rw s.order put-merged;
        below =
            λ x l w. ground (arith, inv.below x, s.in_list x, waste x, order x, s.raised, s.enough);
      }

  put-pages : (p : ℕ) → IsFree pool' p ↔ (Covers pool i p ⊎ IsFree pool p)
  put-pages p =
      let order : (x : ℕ) → 2 ^ pool'.order x ≡ 2 ^ pool.order x = λ x. ap (λ f. 2 ^ f x) s.order in
      (
        λ c.
            let (x, l, (lo, hi)) = c in
            let e = order x in
            elim (Bool-cases (x == i)) [
              | inl same ↦ inl (subst (λ z. Covers pool z p) (ground arith) (lo, omega arith))
              | inr other ↦ inr (x, ground (arith, s.in_list x), (lo, omega arith))
            ],
        λ c. elim c [
          | inl (lo, hi) ↦ let e = order i in (i, ground (arith, s.in_list i), (lo, omega arith))
          | inr (x, l, (lo, hi)) ↦
              let e = order x in (x, ground (arith, s.in_list x), (lo, omega arith))
        ],
      )

-- What giving the block `i` back makes of a pool.
pub record Freed (rest : ℕ → Bool) (pool pool' : Pool) (i : ℕ) : Type 0 where
  pub kept : IsPool rest pool'
  pub pages : (p : ℕ) → IsFree pool' p ↔ (Covers pool i p ⊎ IsFree pool p)
  pub others : (x : ℕ) → rest x ≡ true → pool'.order x ≡ pool.order x
  pub free_pages : pool'.free_pages ≡ pool.free_pages
  pub type : pool'.type ≡ pool.type

-- The loop ends: each merge makes the block larger.
free_block-Freed :
    (fuel : ℕ) (rest : ℕ → Bool) (pool : Pool) (i : ℕ)
    → IsPool (with_block rest i) pool
    → rest i ≡ false
    → pool.max_order < fuel + pool.order i
    → (pool' : Pool) × (free_block fuel pool i ≡ some pool') × Freed rest pool pool' i
unfolding free_block
free_block-Freed zero rest pool i inv ri enough =
    let (size, _, _) = inv.tiled.inside i (ground arith) in absurd (omega arith)
free_block-Freed (suc fuel) rest pool i inv ri enough = elim (try_merge_buddy_lem rest pool i inv) [
  | inl (e, alone) ↦
      let s = put_free-Put pool i in
      (
        put_free pool i,
        rw (free_block, e) refl,
        record {
          kept = Put-IsPool rest inv ri alone s;
          pages = put-pages rest inv ri alone s;
          others = λ x r. ap (λ f. f x) s.order;
          free_pages = s.free_pages;
          type = s.type;
        },
      )
  | inr (m, pool', e, lb, ob, w, s) ↦
      let inv' = Merge-IsPool rest inv ri lb refl ob w s in
      let (rm, _, _) = whole-free rest inv ri lb refl ob w s in
      let (last, e', f) =
        free_block-Freed fuel rest pool' m inv' rm (omega (arith, s.whole, s.max_order)) in
      (
        last,
        rw (free_block, e) e',
        record {
          kept = f.kept;
          pages = λ p.
              let (a, b) = f.pages p in
              let (c, d) = merge-pages rest inv ri lb refl ob w s p in (λ h. c (a h), λ h. b (d h));
          others = λ x r. f.others x r ∙ s.orders x (λ q. absurd (ground (arith, ap rest q)));
          free_pages = f.free_pages ∙ s.free_pages;
          type = f.type ∙ s.type;
        },
      )
]

-- Giving back a block that is handed out ends after at most one round for each order. The pool is
-- well-formed with the block no longer handed out, and with no two free buddies of the same order
-- left; its free pages are those from before and the pages of the block and no others; the blocks
-- that stay handed out keep their sizes; and the count of free pages grows by the block's pages,
-- modulo `2 ^ 64`.
pub give_block_lem :
    (rest : ℕ → Bool) (pool : Pool) (i : ℕ)
    → IsPool (with_block rest i) pool
    → rest i ≡ false
    → (pool' : Pool) × (give_block pool i ≡ some pool')
      × IsPool rest pool'
      × ((p : ℕ) → IsFree pool' p ↔ (Covers pool i p ⊎ IsFree pool p))
      × ((x : ℕ) → rest x ≡ true → pool'.order x ≡ pool.order x)
      × (pool'.free_pages ≡ (pool.free_pages + 2 ^ pool.order i) % 2 ^ 64)
unfolding give_block
give_block_lem rest pool i inv ri =
    let counted = record pool {
      free_pages = (pool.free_pages + 2 ^ pool.order i) % 2 ^ 64;
      type = assign pool.type i block_type_free;
    } in
    let inv' = IsPool-adjust pool.max_order_free counted.free_pages counted.type inv inv.below in
    let (pool', e, f) =
      free_block-Freed (pool.max_order + 1) rest counted i inv' ri (omega arith) in
    (pool', e, f.kept, f.pages, f.others, f.free_pages)
