-- ===== src/Buddy/Find.antt =====
-- `pool_find_block`: which blocks it finds.
use badger_os.Base.{ℕ, zero, suc, ◌+◌, ◌-◌, ◌≤◌, ◌<◌, ◌≡◌, refl, ap, ◌∙◌, ◌⊎◌, ◌↔◌, inl, inr, arith}
use badger_os.Base.{Bool, true, false, ◌==◌, Bool-cases}
use mathlib.Core.Path.{subst}
use badger_os.Base.{List, [], ◌∷◌, some, none}
use badger_os.Buddy.{Pool, find_unwasted, find_from, list_remove}
use badger_os.Buddy.Lists.{elem, elem-delete}
use badger_os.Buddy.Invariant.{IsPool, head, with_block, Covers, IsFree}

-- The pages asked for of the block `i` are in the pool.
abbrev pub IsUnwasted : Pool → (pages i : ℕ) → Type 0
IsUnwasted pool pages i = pool.is_waste (i + pages - 1) ≡ false

find_unwasted_lem :
    (pool : Pool) (pages : ℕ) (is : List ℕ)
    → ((find_unwasted pool pages is ≡ none)
        × ((i : ℕ) → elem i is ≡ true → pool.is_waste (i + pages - 1) ≡ true))
      ⊎ ((i : ℕ) × (find_unwasted pool pages is ≡ some i)
          × (elem i is ≡ true)
          × IsUnwasted pool pages i)
unfolding find_unwasted elem
find_unwasted_lem pool pages [] = inl (refl, λ i h. absurd (ground arith))
find_unwasted_lem pool pages (i ∷ is) = elim (Bool-cases (pool.is_waste (i + pages - 1))) [
  | inr good ↦ inr (i, rw good refl, ground arith, good)
  | inl waste ↦ elim (find_unwasted_lem pool pages is) [
    | inl (e, h) ↦ inl (
      rw (find_unwasted, waste) e,
      λ j l. elim (Bool-cases (i == j)) [
        | inl same ↦ ap (λ k. pool.is_waste (k + pages - 1)) (ground arith) ∙ waste
        | inr other ↦ h j (ground arith)
      ],
    )
    | inr (j, e, l, good) ↦ inr (j, rw (find_unwasted, waste) e, ground arith, good)
  ]
]

pub find_from_lem :
    (pool : Pool) (n a pages : ℕ)
    → ((find_from pool n a pages ≡ none)
        × ((c i : ℕ)
            → a ≤ c
            → c < a + n
            → elem i (pool.free_lists c) ≡ true
            → pool.is_waste (i + pages - 1) ≡ true))
      ⊎ ((i c : ℕ) × (find_from pool n a pages ≡ some i)
          × (a ≤ c)
          × (c < a + n)
          × (elem i (pool.free_lists c) ≡ true)
          × IsUnwasted pool pages i)
unfolding find_from
find_from_lem pool zero a pages = inl (refl, λ c i lo hi. absurd (omega arith))
find_from_lem pool (suc n) a pages = elim (find_unwasted_lem pool pages (pool.free_lists a)) [
  | inr (i, e, l, good) ↦ inr (i, a, rw (find_from, e) refl, omega arith, omega arith, l, good)
  | inl (e, h) ↦ elim (find_from_lem pool n (a + 1) pages) [
    | inl (e', h') ↦ inl (
      rw (find_from, e) e',
      λ c i lo hi l. elim (Bool-cases (a == c)) [
        | inl same ↦ h i (ap (λ k. elem i (pool.free_lists k)) (ground arith) ∙ l)
        | inr other ↦ h' c i (ground arith) (omega arith) l
      ],
    )
    | inr (i, c, e', lo, hi, l, good) ↦
        inr (i, c, rw (find_from, e) e', omega arith, omega arith, l, good)
  ]
]

-- A block that is in a list, taken from it, is handed out.
pub list_remove-IsPool :
    (used : ℕ → Bool) (pool : Pool) (i : ℕ)
    → IsPool used pool
    → pool.in_list i ≡ true
    → IsPool (with_block used i) (list_remove pool i)
unfolding list_remove
list_remove-IsPool used pool i inv l =
    let back : (x : ℕ)
        → head (with_block used i) (list_remove pool i) x ≡ true
        → head used pool x ≡ true =
      λ x h. ground arith in
    record {
      tiled = record {
        inside = λ x h. inv.tiled.inside x (back x h);
        apart = λ x y h h'. inv.tiled.apart x y (back x h) (back y h');
      };
      span = inv.span;
      unlisted = λ x u. ground (arith, inv.unlisted x);
      on_free_list =
          λ x a. ground (arith, elem-delete x i (pool.free_lists a), inv.on_free_list x a);
      on_waste_list = λ x. ground (arith, elem-delete x i pool.waste_list, inv.on_waste_list x);
      merged = λ x l' l''. inv.merged x (ground arith) (ground arith);
      below = λ x l' w. inv.below x (ground arith) w;
    }

pub list_remove-pages :
    (pool : Pool) (i p : ℕ)
    → pool.in_list i ≡ true
    → IsFree pool p ↔ (Covers pool i p ⊎ IsFree (list_remove pool i) p)
unfolding list_remove
list_remove-pages pool i p l = (
  λ c.
      let (x, lx, h) = c in
      elim (Bool-cases (x == i)) [
        | inl same ↦ inl (subst (λ z. Covers pool z p) (ground arith) h)
        | inr other ↦ inr (x, ground arith, h)
      ],
  λ c. elim c [ inl h ↦ (i, l, h) | inr (x, lx, h) ↦ (x, ground arith, h) ],
)
