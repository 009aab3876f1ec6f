-- ===== src/Vmm/Order.antt =====
-- Ranges that are in order and apart are in the order of `vmm_info_cmp`.
use badger_os.Base.{ℕ, zero, suc, ◌≡◌, arith, List, [], ◌∷◌}
use badger_os.Vmm.{VmmInfo, Sorted}
use badger_os.Vmm.Ranges.{Spaced, get-above}
use badger_os.Vmm.Edit.{end_of}

pub Spaced-Sorted : (xs : List VmmInfo) (lo : ℕ) → Spaced lo xs → Sorted xs
Spaced-Sorted [] lo sp i j x y lt h h' = cc
Spaced-Sorted (z ∷ xs) lo (Spaced.range a b rest) zero zero x y lt h h' = absurd (omega arith)
Spaced-Sorted (z ∷ xs) lo (Spaced.range a b rest) zero (suc j) x y lt h h' =
    let same : z ≡ x = ground arith in
    let above = get-above xs (end_of z) j {x = y} rest h' in rw (← same) (omega arith)
Spaced-Sorted (z ∷ xs) lo (Spaced.range a b rest) (suc i) zero x y lt h h' = absurd (omega arith)
Spaced-Sorted (z ∷ xs) lo (Spaced.range a b rest) (suc i) (suc j) x y lt h h' =
    Spaced-Sorted xs (end_of z) rest i j x y (omega arith) h h'
