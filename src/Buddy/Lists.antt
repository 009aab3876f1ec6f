-- ===== src/Buddy/Lists.antt =====
-- The lists of a pool: which blocks they hold.
use badger_os.Base.{ℕ, ◌≡◌, refl, arith, Bool, false, not, ◌&&◌, ◌||◌, List, [], ◌∷◌, ◌==◌}
use badger_os.Base.{inl, inr, ◌⊎◌}
use badger_os.Buddy.{delete}

unfoldable pub elem : ℕ → List ℕ → Bool
elem i [] = false
elem i (j ∷ js) = (j == i) || elem i js

pub elem-delete : (i k : ℕ) (js : List ℕ) → elem i (delete k js) ≡ (not (k == i) && elem i js)
unfolding elem delete
elem-delete i k [] = ground arith
elem-delete i k (j ∷ js) = let h = elem-delete i k js in ground arith

pub List-cases : (is : List ℕ) → (is ≡ []) ⊎ ((i : ℕ) × (js : List ℕ) × (is ≡ i ∷ js))
List-cases [] = inl refl
List-cases (i ∷ is) = inr (i, is, refl)
