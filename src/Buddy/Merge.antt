-- ===== src/Buddy/Merge.antt =====
-- `try_merge_buddy` and `free_block` on a pool.
use badger_os.Base.{ℕ, suc, ◌+◌, ◌^◌, ◌≡◌, ◌≢◌, refl, sym, ap, ◌∙◌, ◌⊎◌, inl, inr, arith}
use badger_os.Base.{Bool, true, false, not, ◌&&◌, ◌==◌, leb, ltb, ltb→lt, Bool-cases, if◌then◌else◌}
use badger_os.Base.{some, none}
use badger_os.Buddy.{assign, Pool, flip, try_merge_buddy, list_remove}
use badger_os.Buddy.Lists.{elem, elem-delete}
use native.Mathlib.Nat.{pow-suc}
use mathlib.Core.Path.{subst}
use badger_os.Base.{◌↔◌}
use badger_os.Buddy.Retile.{merge-IsTiled}
use badger_os.Buddy.Tiles.{pow-pos, IsTiled, IsPair, flip-IsPair}
use badger_os.Buddy.Invariant.{IsPool, head, with_block, Covers, IsFree}

-- What a merge of the block `i` with `b` leaves, the whole block being `m`.
pub record Merge (pool pool' : Pool) (b m o : ℕ) : Type 0 where
  pub whole : pool'.order m ≡ suc o
  pub orders : (x : ℕ) → x ≢ m → pool'.order x ≡ pool.order x
  pub in_list : (x : ℕ) → pool'.in_list x ≡ (not (x == b) && pool.in_list x)
  pub is_waste : pool'.is_waste ≡ pool.is_waste
  pub free_lists :
      (x a : ℕ) → elem x (pool'.free_lists a) ≡ (not (b == x) && elem x (pool.free_lists a))
  pub waste_list : (x : ℕ) → elem x pool'.waste_list ≡ (not (b == x) && elem x pool.waste_list)
  pub max_order_free : pool'.max_order_free ≡ pool.max_order_free
  pub max_order : pool'.max_order ≡ pool.max_order
  pub pages : pool'.pages ≡ pool.pages
  pub max_order_waste : pool'.max_order_waste ≡ pool.max_order_waste
  pub free_pages : pool'.free_pages ≡ pool.free_pages
  pub type : pool'.type ≡ pool.type

-- `m` is the left one of the buddies `i` and `b`.
abbrev pub IsWhole : (o i b m : ℕ) → Type 0
IsWhole o i b m = ((m ≡ i) × IsPair o i b) ⊎ ((m ≡ b) × IsPair o b i)

module _ (rest : ℕ → Bool) {pool pool' : Pool} {i b m o : ℕ} (inv : IsPool (with_block rest i) pool)
    (ri : rest i ≡ false) (lb : pool.in_list b ≡ true) (oi : pool.order i ≡ o)
    (ob : pool.order b ≡ o) (w : IsWhole o i b m) (s : Merge pool pool' b m o) where
  pub whole-free : (rest m ≡ false) × (pool.in_list i ≡ false) × (rest b ≡ false)
  whole-free =
      let li = inv.unlisted i (ground arith) in
      let rb : rest b ≡ false = ground (arith, inv.unlisted b) in
      (elim w [ inl (e, p) ↦ ap rest e ∙ ri | inr (e, p) ↦ ap rest e ∙ rb ], li, rb)

  whole-IsTiled : IsTiled (head (with_block rest m) pool') pool'.order pool.max_order
  whole-IsTiled =
      let (rm, li, rb) = whole-free in
      let t = inv.tiled in
      elim w [
        | inl (e, p) ↦
            merge-IsTiled t (ground arith) (ground arith) oi ob p (sym (ap pool'.order e) ∙ s.whole)
              (λ x ne. s.orders x (λ q. ne (q ∙ e))) (λ x h. ground (arith, s.in_list x))
        | inr (e, p) ↦
            merge-IsTiled t (ground arith) (ground arith) ob oi p (sym (ap pool'.order e) ∙ s.whole)
              (λ x ne. s.orders x (λ q. ne (q ∙ e))) (λ x h. ground (arith, s.in_list x))
      ]

  -- The blocks that stay in a list.
  others :
      (x : ℕ)
      → pool'.in_list x ≡ true
      → (x ≢ m) × (pool.in_list x ≡ true) × (pool'.order x ≡ pool.order x)
  others x l =
      let (rm, li, rb) = whole-free in
      let ne : x ≢ m = elim w [
        | inl (e, p) ↦ ground (arith, s.in_list x)
        | inr (e, p) ↦ ground (arith, s.in_list x)
      ] in
      (ne, ground (arith, s.in_list x), s.orders x ne)

  pub Merge-IsPool : IsPool (with_block rest m) pool'
  Merge-IsPool =
      let (rm, li, rb) = whole-free in
      let waste : (x : ℕ) → pool'.is_waste x ≡ pool.is_waste x = λ x. ap (λ f. f x) s.is_waste in
      record {
        tiled = rw s.max_order whole-IsTiled;
        span = cc;
        unlisted = λ x u. ground (arith, inv.unlisted x, s.in_list x);
        on_free_list = λ x a. elim (Bool-cases (pool'.in_list x)) [
          | inl l ↦
              let (ne, lx, ox) = others x l in
              ground (arith, inv.on_free_list x a, s.free_lists x a, s.in_list x, waste x)
          | inr l ↦ ground (arith, inv.on_free_list x a, s.free_lists x a, s.in_list x)
        ];
        on_waste_list =
            λ x. ground (arith, inv.on_waste_list x, s.waste_list x, s.in_list x, waste x);
        merged = λ x l l' same.
            let (_, lx, ox) = others x l in
            let y = flip x (pool'.order x) in
            let e : y ≡ flip x (pool.order x) = ap (flip x) ox in
            let (_, ly, oy) = others y l' in
            inv.merged x lx (sym (ap pool.in_list e) ∙ ly)
              (sym (ap pool.order e) ∙ sym oy ∙ same ∙ ox);
        below = λ x l w'. let (_, lx, ox) = others x l in ground (arith, inv.below x, waste x);
      }

  pub merge-pages :
      (p : ℕ) → (Covers pool' m p ⊎ IsFree pool' p) ↔ (Covers pool i p ⊎ IsFree pool p)
  merge-pages p =
      let (rm, li, rb) = whole-free in
      let pow = pow-suc 2 o in
      let em : 2 ^ pool'.order m ≡ 2 ^ suc o = ap (λ k. 2 ^ k) s.whole in
      let ei : 2 ^ pool.order i ≡ 2 ^ o = ap (λ k. 2 ^ k) oi in
      let eb : 2 ^ pool.order b ≡ 2 ^ o = ap (λ k. 2 ^ k) ob in
      let halves : Covers pool' m p ↔ (Covers pool i p ⊎ Covers pool b p) = elim w [
        | inl (e, q) ↦ let r = q.right in ground arith
        | inr (e, q) ↦ let r = q.right in ground arith
      ] in
      (
        λ c. elim c [
          | inl now ↦ elim (halves.0 now) [ inl h ↦ inl h | inr h ↦ inr (b, lb, h) ]
          | inr (x, l, h) ↦
              let (_, lx, ox) = others x l in
              let ex : 2 ^ pool'.order x ≡ 2 ^ pool.order x = ap (λ k. 2 ^ k) ox in
              inr (x, lx, (h.0, omega arith))
        ],
        λ c. elim c [
          | inl h ↦ inl (halves.1 (inl h))
          | inr (x, l, h) ↦ elim (Bool-cases (x == b)) [
            | inl same ↦ inl (halves.1 (inr (subst (λ z. Covers pool z p) (ground arith) h)))
            | inr ne ↦
                let l' : pool'.in_list x ≡ true = ground (arith, s.in_list x) in
                let (_, lx, ox) = others x l' in
                let ex : 2 ^ pool'.order x ≡ 2 ^ pool.order x = ap (λ k. 2 ^ k) ox in
                inr (x, l', (h.0, omega arith))
          ]
        ],
      )

-- The two outcomes of a merge.
pub try_merge_buddy_lem :
    (rest : ℕ → Bool) (pool : Pool) (i : ℕ)
    → IsPool (with_block rest i) pool
    → let o = pool.order i in
      let b = flip i o in
      ((try_merge_buddy pool i ≡ none) × (pool.in_list b ≡ true → pool.order b ≢ o))
      ⊎ ((m : ℕ) × (pool' : Pool) × (try_merge_buddy pool i ≡ some (m, pool'))
          × (pool.in_list b ≡ true)
          × (pool.order b ≡ o)
          × IsWhole o i b m
          × Merge pool pool' b m o)
unfolding try_merge_buddy list_remove
try_merge_buddy_lem rest pool i inv =
    let o = pool.order i in
    let b = flip i o in
    let m = if leb i b then i else b in
    let left = record (list_remove pool b) { order = assign pool.order m (pool.order m + 1) } in
    let (_, al, _) = inv.tiled.inside i (ground arith) in
    let pos = pow-pos o in
    let span = inv.span in
    elim (Bool-cases (ltb (pool.pages + pool.max_order_waste) b)) [
      | inl far ↦ inl (
        rw far refl,
        λ l same.
            let (_, _, bound) = inv.tiled.inside b (ground arith) in
            let q = pow-pos (pool.order b) in
            let lt = ltb→lt (pool.pages + pool.max_order_waste) b far in absurd (omega arith),
      )
      | inr near ↦ elim (Bool-cases ((pool.order b == o) && pool.in_list b)) [
        | inr taken ↦ inl (rw (near, taken) refl, λ l same. absurd (ground arith))
        | inl free ↦
            let om : pool.order m ≡ o = ground arith in
            inr (
              m,
              left,
              rw (near, free) refl,
              ground arith,
              ground arith,
              elim (flip-IsPair i o al) [
                | inl p ↦ inl (let r = p.right in ground arith, p)
                | inr p ↦ inr (let r = p.right in ground arith, p)
              ],
              record {
                whole = ground (arith, om);
                orders = λ x ne. ground arith;
                in_list = λ x. ground arith;
                is_waste = refl;
                free_lists = λ x a. elem-delete x b (pool.free_lists a);
                waste_list = λ x. elem-delete x b pool.waste_list;
                max_order_free = refl;
                max_order = refl;
                pages = refl;
                max_order_waste = refl;
                free_pages = refl;
                type = refl;
              },
            )
      ]
    ]
