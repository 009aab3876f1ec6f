-- ===== src/Vmm/Edit.antt =====
-- Ranges that are replaced and inserted between their neighbours.
use badger_os.Base.{ℕ, zero, suc, ◌+◌, ◌≤◌, ◌<◌, ◌≡◌, refl, ap, sym, arith, Bool, ◌||◌, some}
use badger_os.Base.{List, [], ◌∷◌, ◌++◌, length, get_elem?, get_or, set, take, drop}
use badger_os.Memory.{within}
use badger_os.Vmm.{VmmInfo}
use badger_os.Vmm.Ranges.{covers, Spaced, without, or_assoc, or-right}

abbrev pub end_of : VmmInfo → ℕ
end_of x = x.vpn + x.pages

pub covers-set :
    (xs : List VmmInfo) (k : ℕ) (y : VmmInfo) (p : ℕ) (b : Bool) {x : VmmInfo}
    → get_elem? xs k ≡ some x
    → within y.vpn y.pages p ≡ within x.vpn x.pages p || b
    → covers (set xs k y) p ≡ covers xs p || b
covers-set [] k y p b h e = cc
covers-set (z ∷ xs) zero y p b {x} h e =
    let same : z ≡ x = ground arith in
    rw (same, e) (or-right (within x.vpn x.pages p) b (covers xs p))
covers-set (z ∷ xs) (suc k) y p b {x} h e =
    rw (covers-set xs k y p b {x = x} h e) (sym (or_assoc (within z.vpn z.pages p) (covers xs p) b))

Spaced-from :
    (xs : List VmmInfo) (lo lo' : ℕ)
    → Spaced lo xs
    → ((z : VmmInfo) → get_elem? xs 0 ≡ some z → lo' ≤ z.vpn)
    → Spaced lo' xs
Spaced-from [] lo lo' sp h = Spaced.empty
Spaced-from (x ∷ xs) lo lo' (Spaced.range a b rest) h = Spaced.range (h x refl) b rest

-- `y` fits behind the range in front of index `k`.
abbrev pub Behind : List VmmInfo → (lo k : ℕ) → VmmInfo → Type 0
Behind xs lo k y =
    (k ≡ 0 → lo ≤ y.vpn)
    × ((j : ℕ) (w : VmmInfo) → suc j ≡ k → get_elem? xs j ≡ some w → end_of w ≤ y.vpn)

Behind-tail :
    (x : VmmInfo) (xs : List VmmInfo) (lo k : ℕ) (y : VmmInfo)
    → Behind (x ∷ xs) lo (suc k) y
    → Behind xs (end_of x) k y
Behind-tail x xs lo k y (first, prev) =
    (λ e. prev 0 x (ap suc (sym e)) refl, λ j w e h. prev (suc j) w (ap suc e) h)

pub Spaced-set :
    (xs : List VmmInfo) (lo k : ℕ) (y : VmmInfo) {x : VmmInfo}
    → Spaced lo xs
    → get_elem? xs k ≡ some x
    → 0 < y.pages
    → Behind xs lo k y
    → ((z : VmmInfo) → get_elem? xs (suc k) ≡ some z → end_of y ≤ z.vpn)
    → Spaced lo (set xs k y)
Spaced-set [] lo k y sp h pos behind next = sp
Spaced-set (w ∷ xs) lo zero y (Spaced.range a b rest) h pos behind next =
    Spaced.range (behind.0 refl) pos (Spaced-from xs (end_of w) (end_of y) rest next)
Spaced-set (w ∷ xs) lo (suc k) y {x} (Spaced.range a b rest) h pos behind next =
    Spaced.range a b
      (Spaced-set xs (end_of w) k y {x = x} rest h pos (Behind-tail w xs lo k y behind) next)

pub Spaced-insert :
    (xs : List VmmInfo) (lo k : ℕ) (y : VmmInfo)
    → k ≤ length xs
    → Spaced lo xs
    → 0 < y.pages
    → Behind xs lo k y
    → ((z : VmmInfo) → get_elem? xs k ≡ some z → end_of y ≤ z.vpn)
    → Spaced lo (take k xs ++ (y ∷ drop k xs))
Spaced-insert xs lo zero y le sp pos behind next =
    Spaced.range (behind.0 refl) pos (Spaced-from xs lo (end_of y) sp next)
Spaced-insert [] lo (suc k) y le sp pos behind next = absurd (omega arith)
Spaced-insert (w ∷ xs) lo (suc k) y le (Spaced.range a b rest) pos behind next =
    Spaced.range a b
      (Spaced-insert xs (end_of w) k y (omega arith) rest pos (Behind-tail w xs lo k y behind) next)

pub Spaced-next :
    (xs : List VmmInfo) (lo k : ℕ) {x z : VmmInfo}
    → Spaced lo xs
    → get_elem? xs k ≡ some x
    → get_elem? xs (suc k) ≡ some z
    → end_of x ≤ z.vpn
Spaced-next [] lo k sp h h' = cc
Spaced-next (w ∷ []) lo zero sp h h' = cc
Spaced-next (w ∷ v ∷ xs) lo zero {x} {z} (Spaced.range a b (Spaced.range c d rest)) h h' =
    let one : w ≡ x = ground arith in let two : v ≡ z = ground arith in rw (← one, ← two) c
Spaced-next (w ∷ xs) lo (suc k) {x} {z} (Spaced.range a b rest) h h' =
    Spaced-next xs (end_of w) k {x = x} {z = z} rest h h'

pub set-without :
    (xs : List VmmInfo) (k : ℕ) (y : VmmInfo)
    → without (set xs k y) (suc k) ≡ set (without xs (suc k)) k y
set-without [] k y = refl
set-without (x ∷ xs) zero y = refl
set-without (x ∷ xs) (suc k) y = ap (λ ys. x ∷ ys) (set-without xs k y)

pub get-without_before :
    (xs : List VmmInfo) (i j : ℕ) → j < i → get_elem? (without xs i) j ≡ get_elem? xs j
get-without_before [] zero j lt = absurd (omega arith)
get-without_before [] (suc i) j lt = refl
get-without_before (x ∷ xs) zero j lt = absurd (omega arith)
get-without_before (x ∷ xs) (suc i) zero lt = refl
get-without_before (x ∷ xs) (suc i) (suc j) lt = get-without_before xs i j (omega arith)

pub get-without_behind :
    (xs : List VmmInfo) (i j : ℕ)
    → i ≤ j
    → i < length xs
    → get_elem? (without xs i) j ≡ get_elem? xs (suc j)
get-without_behind [] i j le lt = absurd (omega arith)
get-without_behind (x ∷ xs) zero j le lt = refl
get-without_behind (x ∷ xs) (suc i) zero le lt = absurd (omega arith)
get-without_behind (x ∷ xs) (suc i) (suc j) le lt =
    get-without_behind xs i j (omega arith) (omega arith)

pub get_or-some :
    (xs : List VmmInfo) (i : ℕ) (d : VmmInfo)
    → i < length xs
    → get_elem? xs i ≡ some (get_or xs i d)
get_or-some [] i d lt = absurd (omega arith)
get_or-some (x ∷ xs) zero d lt = refl
get_or-some (x ∷ xs) (suc i) d lt = get_or-some xs i d (omega arith)

pub get_or-behind : (xs : List VmmInfo) (i : ℕ) (d : VmmInfo) → length xs ≤ i → get_or xs i d ≡ d
get_or-behind [] i d le = refl
get_or-behind (x ∷ xs) zero d le = absurd (omega arith)
get_or-behind (x ∷ xs) (suc i) d le = get_or-behind xs i d (omega arith)

pub get-pages :
    (xs : List VmmInfo) (lo k : ℕ) {x : VmmInfo}
    → Spaced lo xs
    → get_elem? xs k ≡ some x
    → 0 < x.pages
get-pages [] lo k sp h = cc
get-pages (y ∷ xs) lo zero (Spaced.range a b rest) h = ground arith
get-pages (y ∷ xs) lo (suc k) {x} (Spaced.range a b rest) h =
    get-pages xs (end_of y) k {x = x} rest h

pub get_elem?-lt :
    (xs : List VmmInfo) (i : ℕ) {x : VmmInfo} → get_elem? xs i ≡ some x → i < length xs
get_elem?-lt [] i h = cc
get_elem?-lt (y ∷ xs) zero h = omega arith
get_elem?-lt (y ∷ xs) (suc i) {x} h = let rest = get_elem?-lt xs i {x = x} h in omega arith
