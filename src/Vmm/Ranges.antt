-- ===== src/Vmm/Ranges.antt =====
-- The pages that a list of ranges covers, for ranges in order that do not meet.
use badger_os.Base.{
  ℕ, zero, suc, ◌+◌, ◌-◌, ◌≤◌, ◌<◌, ◌≡◌, refl, ◌∙◌, ap, sym, arith, Bool, true, false, not, ◌&&◌,
  ◌||◌, some,
}
use badger_os.Base.{
  List, [], ◌∷◌, ◌++◌, inl, inr, Bool-cases, length, get_elem?, set, take, drop, take-append-drop,
}
use badger_os.Memory.{within}
use badger_os.Vmm.{VmmInfo}

abbrev pub covers : List VmmInfo → ℕ → Bool
covers [] p = false
covers (x ∷ xs) p = within x.vpn x.pages p || covers xs p

-- Every range has pages, and starts at `lo` or above and behind the one in front of it.
pub data Spaced : ℕ → List VmmInfo → Type 0 where
  empty : {lo : ℕ} → Spaced lo []
  range :
      {lo : ℕ} {x : VmmInfo} {xs : List VmmInfo}
      → lo ≤ x.vpn
      → 0 < x.pages
      → Spaced (x.vpn + x.pages) xs
      → Spaced lo (x ∷ xs)

pub or_assoc : (a b c : Bool) → (a || b) || c ≡ a || (b || c)
or_assoc true b c = refl
or_assoc false b c = refl

or-left : (a b c : Bool) → a || (b || c) ≡ b || (a || c)
or-left true true c = refl
or-left true false c = refl
or-left false b c = refl

pub or_comm : (a b : Bool) → a || b ≡ b || a
or_comm true true = refl
or_comm true false = refl
or_comm false true = refl
or_comm false false = refl

pub or-right : (a b c : Bool) → (a || b) || c ≡ (a || c) || b
or-right true b c = refl
or-right false true true = refl
or-right false true false = refl
or-right false false true = refl
or-right false false false = refl

covers-append : (xs ys : List VmmInfo) (p : ℕ) → covers (xs ++ ys) p ≡ covers xs p || covers ys p
covers-append [] ys p = refl
covers-append (x ∷ xs) ys p =
    ap (λ b. within x.vpn x.pages p || b) (covers-append xs ys p)
    ∙ sym (or_assoc (within x.vpn x.pages p) (covers xs p) (covers ys p))

-- A range more covers its pages more, wherever it is inserted.
pub covers-insert :
    (xs : List VmmInfo) (x : VmmInfo) (i p : ℕ)
    → covers (take i xs ++ (x ∷ drop i xs)) p ≡ within x.vpn x.pages p || covers xs p
covers-insert xs x i p =
    let split = covers-append (take i xs) (drop i xs) p in
    let all = ap (λ ys. covers ys p) (take-append-drop i xs) in
    covers-append (take i xs) (x ∷ drop i xs) p
    ∙ or-left (covers (take i xs) p) (within x.vpn x.pages p) (covers (drop i xs) p)
    ∙ ap (λ b. within x.vpn x.pages p || b) (sym split ∙ all)

pub covers-above : (xs : List VmmInfo) (lo p : ℕ) → Spaced lo xs → covers xs p ≡ true → lo ≤ p
covers-above [] lo p sp h = cc
covers-above (x ∷ xs) lo p (Spaced.range a b rest) h = elim (Bool-cases (within x.vpn x.pages p)) [
  | inl here ↦ ground arith
  | inr off ↦ let above = covers-above xs (x.vpn + x.pages) p rest (ground arith) in omega arith
]

pub get-above :
    (xs : List VmmInfo) (lo k : ℕ) {x : VmmInfo}
    → Spaced lo xs
    → get_elem? xs k ≡ some x
    → lo ≤ x.vpn
get-above [] lo k sp h = cc
get-above (y ∷ xs) lo zero (Spaced.range a b rest) h = ground arith
get-above (y ∷ xs) lo (suc k) {x} (Spaced.range a b rest) h =
    let above = get-above xs (y.vpn + y.pages) k {x = x} rest h in omega arith

pub get-covers :
    (xs : List VmmInfo) (k p : ℕ) {x : VmmInfo}
    → get_elem? xs k ≡ some x
    → within x.vpn x.pages p ≡ true
    → covers xs p ≡ true
get-covers [] k p h inside = cc
get-covers (y ∷ xs) zero p {x} h inside =
    let same : y ≡ x = ground arith in rw same (rw inside refl)
get-covers (y ∷ xs) (suc k) p {x} h inside =
    let rest = get-covers xs k p {x = x} h inside in ground arith

-- The first pages of a range taken off it.
abbrev pub shrunk : VmmInfo → ℕ → VmmInfo
shrunk x pages = record { vpn = x.vpn + pages; pages = x.pages - pages }

pub Spaced-shrunk :
    (xs : List VmmInfo) (lo k pages : ℕ) {x : VmmInfo}
    → Spaced lo xs
    → get_elem? xs k ≡ some x
    → pages < x.pages
    → Spaced lo (set xs k (shrunk x pages))
Spaced-shrunk [] lo k pages sp h lt = sp
Spaced-shrunk (y ∷ xs) lo zero pages {x} (Spaced.range a b rest) h lt =
    let same : y ≡ x = ground arith in
    let end : x.vpn + x.pages ≡ x.vpn + pages + (x.pages - pages) = omega arith in
    let rest' : Spaced (x.vpn + x.pages) xs = rw same at rest in
    let a' = rw same at a in Spaced.range (omega arith) (omega arith) (rw (← end) rest')
Spaced-shrunk (y ∷ xs) lo (suc k) pages {x} (Spaced.range a b rest) h lt =
    Spaced.range a b (Spaced-shrunk xs (y.vpn + y.pages) k pages {x = x} rest h lt)

pub covers-shrunk :
    (xs : List VmmInfo) (lo k pages p : ℕ) {x : VmmInfo}
    → Spaced lo xs
    → get_elem? xs k ≡ some x
    → pages < x.pages
    → covers (set xs k (shrunk x pages)) p ≡ covers xs p && not (within x.vpn pages p)
covers-shrunk [] lo k pages p sp h lt = cc
covers-shrunk (y ∷ xs) lo zero pages p {x} (Spaced.range a b rest) h lt =
    let same : y ≡ x = ground arith in
    let rest' : Spaced (x.vpn + x.pages) xs = rw same at rest in
    let above = covers-above xs (x.vpn + x.pages) p rest' in rw same (ground arith)
covers-shrunk (y ∷ xs) lo (suc k) pages p {x} (Spaced.range a b rest) h lt =
    let rec = covers-shrunk xs (y.vpn + y.pages) k pages p {x = x} rest h lt in
    let above = get-above xs (y.vpn + y.pages) k {x = x} rest h in rw rec (ground arith)

-- The list without the entry at `k`.
abbrev pub without : List VmmInfo → ℕ → List VmmInfo
without xs k = take k xs ++ drop (suc k) xs

Spaced-lower : (xs : List VmmInfo) (lo lo' : ℕ) → lo ≤ lo' → Spaced lo' xs → Spaced lo xs
Spaced-lower [] lo lo' le sp = Spaced.empty
Spaced-lower (x ∷ xs) lo lo' le (Spaced.range a b rest) = Spaced.range (omega arith) b rest

pub Spaced-without :
    (xs : List VmmInfo) (lo k : ℕ) → k < length xs → Spaced lo xs → Spaced lo (without xs k)
Spaced-without [] lo k lt sp = absurd (omega arith)
Spaced-without (x ∷ xs) lo zero lt (Spaced.range a b rest) =
    Spaced-lower xs lo (x.vpn + x.pages) (omega arith) rest
Spaced-without (x ∷ xs) lo (suc k) lt (Spaced.range a b rest) =
    Spaced.range a b (Spaced-without xs (x.vpn + x.pages) k (omega arith) rest)

pub covers-without :
    (xs : List VmmInfo) (lo k p : ℕ) {x : VmmInfo}
    → Spaced lo xs
    → get_elem? xs k ≡ some x
    → covers (without xs k) p ≡ covers xs p && not (within x.vpn x.pages p)
covers-without [] lo k p sp h = cc
covers-without (y ∷ xs) lo zero p {x} (Spaced.range a b rest) h =
    let same : y ≡ x = ground arith in
    let rest' : Spaced (x.vpn + x.pages) xs = rw same at rest in
    let above = covers-above xs (x.vpn + x.pages) p rest' in rw same (ground arith)
covers-without (y ∷ xs) lo (suc k) p {x} (Spaced.range a b rest) h =
    let rec = covers-without xs (y.vpn + y.pages) k p {x = x} rest h in
    let above = get-above xs (y.vpn + y.pages) k {x = x} rest h in rw rec (ground arith)
