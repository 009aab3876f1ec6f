-- ===== src/Buddy/Split.antt =====
-- `split_block` and `pool_find_block` on a pool.
use badger_os.Base.{ℕ, ◌*◌, suc, ◌-◌, ◌^◌, ◌≤◌, ◌<◌, ◌≡◌, ◌≢◌, sym, ap, ◌∙◌, ◌⊎◌, inl, inr, arith}
use badger_os.Base.{Bool, true, false, not, ◌&&◌, ◌||◌, ◌==◌, Bool-cases}
use badger_os.Buddy.{Pool, flip, split_block, push_free, push_waste}
use badger_os.Buddy.Lists.{elem}
use native.Mathlib.Nat.{pow-suc}
use badger_os.Buddy.Retile.{split-IsTiled}
use badger_os.Buddy.Tiles.{pow-pos, flip-flip, IsPair}
use badger_os.Buddy.Invariant.{IsPool, head}

-- What a split leaves, the buddy being `j`.
pub record Split (pool pool' : Pool) (i j o : ℕ) : Type 0 where
  pub left : pool'.order i ≡ o
  pub right : pool'.order j ≡ o
  pub orders : (x : ℕ) → x ≢ i → x ≢ j → pool'.order x ≡ pool.order x
  pub in_list : (x : ℕ) → pool'.in_list x ≡ ((x == j) || pool.in_list x)
  pub is_waste : pool'.is_waste ≡ pool.is_waste
  pub free_lists :
      (x a : ℕ)
      → elem x (pool'.free_lists a)
        ≡ (((x == j) && (o == a) && not (pool.is_waste j)) || elem x (pool.free_lists a))
  pub waste_list :
      (x : ℕ) → elem x pool'.waste_list ≡ (((x == j) && pool.is_waste j) || elem x pool.waste_list)
  pub max_order_free : pool'.max_order_free ≡ pool.max_order_free
  pub max_order : pool'.max_order ≡ pool.max_order
  pub pages : pool'.pages ≡ pool.pages
  pub max_order_waste : pool'.max_order_waste ≡ pool.max_order_waste
  pub free_pages : pool'.free_pages ≡ pool.free_pages
  pub type : pool'.type ≡ pool.type
  pub pages_start : pool'.pages_start ≡ pool.pages_start
  pub pages_end : pool'.pages_end ≡ pool.pages_end

pub split_block-Split :
    (pool : Pool) (i j o : ℕ)
    → pool.order i ≡ suc o
    → flip i o ≡ j
    → i ≢ j
    → Split pool (split_block pool i) i j o
unfolding split_block push_free push_waste elem
split_block-Split pool i j o oi e ne =
    let oi' : pool.order i - 1 ≡ o = omega arith in
    record {
      left = rw (oi', e) (ground arith);
      right = rw (oi', e) (ground arith);
      orders = λ x ni nj. rw (oi', e) (ground arith);
      in_list = λ x. rw (oi', e) (ground arith);
      is_waste = rw (oi', e) (ground arith);
      free_lists = λ x a. rw (oi', e) (ground arith);
      waste_list = λ x. rw (oi', e) (ground arith);
      max_order_free = rw (oi', e) (ground arith);
      max_order = rw (oi', e) (ground arith);
      pages = rw (oi', e) (ground arith);
      max_order_waste = rw (oi', e) (ground arith);
      free_pages = rw (oi', e) (ground arith);
      type = rw (oi', e) (ground arith);
      pages_start = rw (oi', e) (ground arith);
      pages_end = rw (oi', e) (ground arith);
    }

-- The right half of a block begins no other.
pub right_half-free :
    {used : ℕ → Bool} {pool : Pool} {i j o : ℕ}
    → IsPool used pool
    → used i ≡ true
    → pool.order i ≡ suc o
    → IsPair o i j
    → (i < j) × (used j ≡ false) × (pool.in_list j ≡ false)
right_half-free {used} {pool} {i} {j} {o} inv ui oi p =
    let pow : 2 ^ pool.order i ≡ 2 ^ o * 2 = ap (λ k. 2 ^ k) oi ∙ pow-suc 2 o in
    let pos = pow-pos o in
    let b = p.right in
    let hi : head used pool i ≡ true = ground arith in
    let lt : i < j = omega arith in
    let no : head used pool j ≡ true → ⊥ =
      λ h. let a = inv.tiled.apart i j hi h lt in omega arith in
    elim (Bool-cases (head used pool j)) [
      | inl h ↦ absurd (no h)
      | inr h ↦ (lt, ground arith, ground arith)
    ]

place : (i j x : ℕ) → (x ≡ j) ⊎ ((x ≡ i) ⊎ ((x ≢ i) × (x ≢ j)))
place i j x = elim (Bool-cases (x == j)) [
  | inl h ↦ inl (ground arith)
  | inr h ↦ inr (elim (Bool-cases (x == i)) [
    | inl h' ↦ inl (ground arith)
    | inr h' ↦ inr (ground arith, ground arith)
  ])
]

module _ {used : ℕ → Bool} {pool pool' : Pool} {i j o : ℕ} (inv : IsPool used pool)
    (ui : used i ≡ true) (oi : pool.order i ≡ suc o) (p : IsPair o i j)
    (s : Split pool pool' i j o) where
  split-merged :
      (x : ℕ)
      → pool'.in_list x ≡ true
      → pool'.in_list (flip x (pool'.order x)) ≡ true
      → pool'.order (flip x (pool'.order x)) ≢ pool'.order x
  split-merged x l l' =
      let (lt, uj, lj) = right_half-free inv ui oi p in
      let li = inv.unlisted i ui in
      let ix = s.in_list x in
      elim (place i j x) [
        | inl here ↦
            let y : flip x (pool'.order x) ≡ i =
              ap (λ k. flip k (pool'.order k)) here ∙ ap (flip j) s.right ∙ p.flip_right in
            let no = sym (ap pool'.in_list y) ∙ l' in absurd (ground (arith, s.in_list i))
        | inr (inl left) ↦
            let is = sym (ap pool'.in_list left) ∙ l in absurd (ground (arith, s.in_list i))
        | inr (inr (ni, nj)) ↦
            let lx : pool.in_list x ≡ true = ground arith in
            let ox = s.orders x ni nj in
            let y = flip x (pool'.order x) in
            let e : y ≡ flip x (pool.order x) = ap (flip x) ox in
            let al = (inv.tiled.inside x (ground arith)).1 in
            let back : flip y (pool'.order x) ≡ x =
              ap (λ k. flip (flip x k) k) ox ∙ flip-flip x (pool.order x) al in
            elim (place i j y) [
              | inl there ↦ λ same.
                  let k : pool'.order x ≡ o = sym same ∙ ap pool'.order there ∙ s.right in
                  ni (
                    sym back
                    ∙ ap (λ z. flip z (pool'.order x)) there
                    ∙ ap (flip j) k
                    ∙ p.flip_right)
              | inr (inl there) ↦
                  let is = sym (ap pool'.in_list there) ∙ l' in absurd (ground (arith, s.in_list i))
              | inr (inr (mi, mj)) ↦ λ same.
                  let ly : pool.in_list y ≡ true = ground (arith, s.in_list y) in
                  let oy = s.orders y mi mj in
                  inv.merged x lx (sym (ap pool.in_list e) ∙ ly)
                    (sym (ap pool.order e) ∙ sym oy ∙ same ∙ ox)
            ]
      ]

  pub Split-IsPool : o ≤ pool.max_order_free → IsPool used pool'
  Split-IsPool below =
      let (lt, uj, lj) = right_half-free inv ui oi p in
      let li = inv.unlisted i ui in
      let waste : (x : ℕ) → pool'.is_waste x ≡ pool.is_waste x = λ x. ap (λ f. f x) s.is_waste in
      record {
        tiled = rw s.max_order (
            split-IsTiled inv.tiled (ground arith) oi p s.left s.right s.orders
              (λ x h. ground (arith, s.in_list x)));
        span = cc;
        unlisted = λ x u. ground (arith, inv.unlisted x u, s.in_list x);
        on_free_list = λ x a.
            ground
              (arith, inv.on_free_list x a, s.free_lists x a, waste x, s.in_list x, s.orders x);
        on_waste_list = λ x.
            ground (arith, inv.on_waste_list x, s.waste_list x, waste x, s.in_list x, s.orders x);
        merged = split-merged;
        below = λ x l w. ground (arith, inv.below x, s.in_list x, waste x, s.orders x);
      }
