-- ===== src/Buddy/Shrink.antt =====
-- The splits of `buddy_allocate`.
use mathlib.Core.Path.{subst}
use native.Mathlib.Nat.{pow-suc}
use badger_os.Base.{
  ℕ, zero, suc, ◌+◌, ◌-◌, ◌^◌, ◌≤◌, ◌<◌, ◌≡◌, ◌≢◌, refl, sym, ap, ◌∙◌, ◌⊎◌, ◌↔◌, inl, inr, arith,
}
use badger_os.Base.{Bool, true, ◌==◌, ltb, Bool-cases}
use badger_os.Buddy.{Pool, flip, split_block, split_down}
use badger_os.Buddy.Tiles.{IsPair, IsAligned-IsPair}
use badger_os.Buddy.Invariant.{IsPool, Covers, IsFree}
use badger_os.Buddy.Split.{Split, split_block-Split, right_half-free, Split-IsPool}

module _ (used : ℕ → Bool) {pool pool' : Pool} {i j o : ℕ} (inv : IsPool used pool)
    (ui : used i ≡ true) (oi : pool.order i ≡ suc o) (p : IsPair o i j)
    (s : Split pool pool' i j o) where
  -- The blocks of the lists are not touched.
  split-others :
      (x : ℕ) → pool.in_list x ≡ true → (pool'.in_list x ≡ true) × (pool'.order x ≡ pool.order x)
  split-others x l =
      let (lt, uj, lj) = right_half-free inv ui oi p in
      let li = inv.unlisted i ui in
      (
        ground (arith, s.in_list x),
        s.orders x (λ q. absurd (ground (arith, ap pool.in_list q)))
            (λ q. absurd (ground (arith, ap pool.in_list q))),
      )

  split-pages : (q : ℕ) → (Covers pool i q ⊎ IsFree pool q) ↔ (Covers pool' i q ⊎ IsFree pool' q)
  split-pages q =
      let (lt, uj, lj) = right_half-free inv ui oi p in
      let pow = pow-suc 2 o in
      let ei : 2 ^ pool.order i ≡ 2 ^ suc o = ap (λ k. 2 ^ k) oi in
      let ei' : 2 ^ pool'.order i ≡ 2 ^ o = ap (λ k. 2 ^ k) s.left in
      let ej' : 2 ^ pool'.order j ≡ 2 ^ o = ap (λ k. 2 ^ k) s.right in
      let r = p.right in
      let halves : Covers pool i q ↔ (Covers pool' i q ⊎ Covers pool' j q) = ground arith in
      (
        λ c. elim c [
          | inl h ↦ elim (halves.0 h) [
            | inl h ↦ inl h
            | inr h ↦ inr (j, ground (arith, s.in_list j), h)
          ]
          | inr (x, l, (lo, hi)) ↦
              let (l', ox) = split-others x l in
              let ex : 2 ^ pool'.order x ≡ 2 ^ pool.order x = ap (λ k. 2 ^ k) ox in
              inr (x, l', (lo, omega arith))
        ],
        λ c. elim c [
          | inl h ↦ inl (halves.1 (inl h))
          | inr (x, l, h) ↦ elim (Bool-cases (x == j)) [
            | inl same ↦ inl (halves.1 (inr (subst (λ z. Covers pool' z q) (ground arith) h)))
            | inr other ↦
                let lx : pool.in_list x ≡ true = ground (arith, s.in_list x) in
                let (_, ox) = split-others x lx in
                let ex : 2 ^ pool'.order x ≡ 2 ^ pool.order x = ap (λ k. 2 ^ k) ox in
                inr (x, lx, (h.0, omega arith))
          ]
        ],
      )

-- What the splits make of a pool.
pub record Smaller (used : ℕ → Bool) (order : ℕ) (pool pool' : Pool) (i : ℕ) : Type 0 where
  pub kept : IsPool used pool'
  pub size : pool'.order i ≡ order
  pub pages : (p : ℕ) → (Covers pool i p ⊎ IsFree pool p) ↔ (Covers pool' i p ⊎ IsFree pool' p)
  pub others : (x : ℕ) → used x ≡ true → x ≢ i → pool'.order x ≡ pool.order x
  pub free_pages : pool'.free_pages ≡ pool.free_pages
  pub is_waste : pool'.is_waste ≡ pool.is_waste
  pub pages_start : pool'.pages_start ≡ pool.pages_start
  pub pages_end : pool'.pages_end ≡ pool.pages_end

pub split_down-Smaller :
    (fuel order : ℕ) (used : ℕ → Bool) (pool : Pool) (i : ℕ)
    → IsPool used pool
    → used i ≡ true
    → order ≤ pool.order i
    → pool.order i ≤ order + fuel
    → pool.order i ≤ pool.max_order_free
    → Smaller used order pool (split_down fuel order pool i) i
unfolding split_down
split_down-Smaller zero order used pool i inv ui lo hi top = record {
  kept = inv;
  size = omega arith;
  pages = λ p. (λ h. h, λ h. h);
  others = λ x u n. refl;
  free_pages = refl;
  is_waste = refl;
  pages_start = refl;
  pages_end = refl;
}
split_down-Smaller (suc fuel) order used pool i inv ui lo hi top =
    elim (Bool-cases (ltb order (pool.order i))) [
      | inr small ↦
          rw (split_down, small)
            (record {
              kept = inv;
              size = ground arith;
              pages = λ p. (λ h. h, λ h. h);
              others = λ x u n. refl;
              free_pages = refl;
              is_waste = refl;
              pages_start = refl;
              pages_end = refl;
            })
      | inl large ↦
          let o = pool.order i - 1 in
          let lt : order < pool.order i = ground arith in
          let oi : pool.order i ≡ suc o = omega arith in
          let (_, al, _) = inv.tiled.inside i (ground arith) in
          let p = IsAligned-IsPair {o = o} {i = i} (rw (sym oi) al) in
          let (less, uj, lj) = right_half-free inv ui oi p in
          let s = split_block-Split pool i (flip i o) o oi refl (omega arith) in
          let inv' = Split-IsPool inv ui oi p s (omega arith) in
          let r =
            split_down-Smaller fuel order used (split_block pool i) i inv' ui
              (omega (arith, s.left)) (omega (arith, s.left))
              (omega (arith, s.left, s.max_order_free)) in
          rw (split_down, large)
            (record {
              kept = r.kept;
              size = r.size;
              pages = λ q.
                  let (a, b) = split-pages used inv ui oi p s q in
                  let (c, d) = r.pages q in (λ h. c (a h), λ h. b (d h));
              others =
                  λ x u n. r.others x u n ∙ s.orders x n (λ e. absurd (ground (arith, ap used e)));
              free_pages = r.free_pages ∙ s.free_pages;
              is_waste = r.is_waste ∙ s.is_waste;
              pages_start = r.pages_start ∙ s.pages_start;
              pages_end = r.pages_end ∙ s.pages_end;
            })
    ]
