-- ===== src/Buddy/Retile.antt =====
-- A tiling in which one block is split, or two are merged.
use native.Mathlib.Nat.{pow-suc, pow-le-pow_right}
use badger_os.Base.{ℕ, suc, ◌+◌, ◌*◌, ◌^◌, ◌<◌, ◌≤◌, ◌≡◌, refl, sym, ap, ◌∙◌}
use badger_os.Base.{leb}
use badger_os.Base.{◌≢◌, ◌⊎◌, inl, inr, arith, Bool, true, ◌==◌, Bool-cases}
use badger_os.Buddy.Tiles.{pow-pos, IsAligned, IsPair, IsPair-IsAligned, IsTiled}

-- A block of a finer tiling is in a block of the coarser one.
record IsWithin (order order' : ℕ → ℕ) (i j x z : ℕ) : Type 0 where
  from : z ≤ x
  to : x + 2 ^ order' x ≤ z + 2 ^ order z
  same : (z ≡ x) ⊎ ((z ≡ i) × (x ≡ j))
  smaller : order' x ≤ order z
  aligned : IsAligned x (order' x)

module _ {head : ℕ → Bool} {order order' : ℕ → ℕ} {n o i j : ℕ} where
  within-apart :
      IsTiled head order n
      → order' i ≡ o
      → j ≡ i + 2 ^ o
      → (x y z w : ℕ) → head z ≡ true
      → head w ≡ true
      → IsWithin order order' i j x z
      → IsWithin order order' i j y w
      → x < y
      → x + 2 ^ order' x ≤ y
  within-apart t left right x y z w hz hw p q lt =
      let e : 2 ^ order' i ≡ 2 ^ o = ap (λ k. 2 ^ k) left in
      let a = pow-pos (order z) in
      let b = pow-pos (order w) in
      let c = pow-pos (order' y) in
      let f = t.apart z w hz hw in let g = t.apart w z hw hz in ground (arith, e)

module _ {head head' : ℕ → Bool} {order order' : ℕ → ℕ} {n o i j : ℕ} where
  split-IsWithin :
      IsTiled head order n
      → head i ≡ true
      → order i ≡ suc o
      → IsPair o i j
      → order' i ≡ o
      → order' j ≡ o
      → ((x : ℕ) → x ≢ i → x ≢ j → order' x ≡ order x)
      → ((x : ℕ) → head' x ≡ true → (x ≡ j) ⊎ (head x ≡ true))
      → (x : ℕ) → head' x ≡ true
      → (z : ℕ) × (head z ≡ true) × IsWithin order order' i j x z
  split-IsWithin t hi oi p left right kept from x h =
      let pow = pow-suc 2 o in
      let (al, ar) = IsPair-IsAligned p in
      let whole : 2 ^ order i ≡ 2 ^ o * 2 = ap (λ k. 2 ^ k) oi ∙ pow in
      let e : 2 ^ order' i ≡ 2 ^ o = ap (λ k. 2 ^ k) left in
      let f : 2 ^ order' j ≡ 2 ^ o = ap (λ k. 2 ^ k) right in
      let b = p.right in
      elim (Bool-cases (x == i)) [
        | inl here ↦
            let is : x ≡ i = ground arith in
            let ox : order' x ≡ o = ap order' is ∙ left in
            let e' : 2 ^ order' x ≡ 2 ^ o = ap (λ k. 2 ^ k) ox in
            (
              i,
              hi,
              record {
                from = omega arith;
                to = omega arith;
                same = inl (sym is);
                smaller = omega arith;
                aligned = rw (ox, is) al;
              },
            )
        | inr elsewhere ↦ elim (Bool-cases (x == j)) [
          | inl here ↦
              let is : x ≡ j = ground arith in
              let ox : order' x ≡ o = ap order' is ∙ right in
              let e' : 2 ^ order' x ≡ 2 ^ o = ap (λ k. 2 ^ k) ox in
              (
                i,
                hi,
                record {
                  from = omega arith;
                  to = omega arith;
                  same = inr (refl, is);
                  smaller = omega arith;
                  aligned = rw (ox, is) ar;
                },
              )
          | inr other ↦
              let ox = kept x (ground arith) (ground arith) in
              let e' : 2 ^ order' x ≡ 2 ^ order x = ap (λ k. 2 ^ k) ox in
              let hx : head x ≡ true = ground (arith, from x h) in
              (
                x,
                hx,
                record {
                  from = omega arith;
                  to = omega arith;
                  same = inl refl;
                  smaller = omega arith;
                  aligned = rw ox ((t.inside x hx).1);
                },
              )
        ]
      ]

  -- A block becomes its two halves.
  pub split-IsTiled :
      IsTiled head order n
      → head i ≡ true
      → order i ≡ suc o
      → IsPair o i j
      → order' i ≡ o
      → order' j ≡ o
      → ((x : ℕ) → x ≢ i → x ≢ j → order' x ≡ order x)
      → ((x : ℕ) → head' x ≡ true → (x ≡ j) ⊎ (head x ≡ true))
      → IsTiled head' order' n
  split-IsTiled t hi oi p left right kept from = record {
    inside = λ x h.
        let (z, hz, w) = split-IsWithin t hi oi p left right kept from x h in
        let (l, _, m) = t.inside z hz in
        let g = w.to in let k = w.smaller in (omega arith, w.aligned, omega arith);
    apart = λ x y hx hy lt.
        let (z, hz, w) = split-IsWithin t hi oi p left right kept from x hx in
        let (z', hz', w') = split-IsWithin t hi oi p left right kept from y hy in
        within-apart t left p.right x y z z' hz hz' w w' lt;
  }

  -- Two halves become their block.
  pub merge-IsTiled :
      IsTiled head order n
      → head i ≡ true
      → head j ≡ true
      → order i ≡ o
      → order j ≡ o
      → IsPair o i j
      → order' i ≡ suc o
      → ((x : ℕ) → x ≢ i → order' x ≡ order x)
      → ((x : ℕ) → head' x ≡ true → (x ≢ j) × (head x ≡ true))
      → IsTiled head' order' n
  merge-IsTiled t hi hj oi oj p whole kept from =
      let (li, _, mi) = t.inside i hi in
      let (lj, _, mj) = t.inside j hj in
      let pow = pow-suc 2 o in
      let pos = pow-pos o in
      let ei : 2 ^ order i ≡ 2 ^ o = ap (λ k. 2 ^ k) oi in
      let ej : 2 ^ order j ≡ 2 ^ o = ap (λ k. 2 ^ k) oj in
      let ew : 2 ^ order' i ≡ 2 ^ o * 2 = ap (λ k. 2 ^ k) whole ∙ pow in
      let b = p.right in
      let le : suc o ≤ n = elim (Bool-cases (leb (suc o) n)) [
        | inl fits ↦ ground arith
        | inr wide ↦
            let m = pow-le-pow_right {n = 2} (omega arith) {i = n} {j = o} (ground arith) in
            absurd (omega arith)
      ] in
      record {
        inside = λ x h. elim (Bool-cases (x == i)) [
          | inl here ↦
              let is : x ≡ i = ground arith in rw is (omega arith, rw whole p.aligned, omega arith)
          | inr other ↦ let ox = kept x (ground arith) in rw ox (t.inside x (from x h).1)
        ];
        apart = λ x y hx hy lt.
            let (nx, fx) = from x hx in
            let (ny, fy) = from y hy in
            let c = t.apart x y fx fy lt in
            elim (Bool-cases (x == i)) [
              | inl here ↦
                  let is : x ≡ i = ground arith in
                  let d = t.apart j y hj fy in
                  let ex : 2 ^ order' x ≡ 2 ^ order' i = ap (λ k. 2 ^ order' k) is in
                  let ey : 2 ^ order x ≡ 2 ^ order i = ap (λ k. 2 ^ order k) is in ground arith
              | inr other ↦ rw (kept x (ground arith)) c
            ];
      }
