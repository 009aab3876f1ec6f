-- ===== src/Vmm/Tests.antt =====
-- The operations on ranges with concrete arrays.
use badger_os.Base.{
  ℕ, zero, suc, ◌+◌, ◌*◌, ◌≤◌, ◌<◌, ◌≡◌, ◌≢◌, refl, arith, Bool, true, false, some,
}
use badger_os.Base.{
  List, [], ◌∷◌, ◌++◌, ◌==◌, if◌then◌else◌, Bool-cases, inl, inr, length, get_elem?, take, drop,
  ltb,
}
use badger_os.Vmm.{
  VmmInfo, Vmm, VmmArray, Sorted, Searched, memprotect_alloc_vaddr, memprotect_free_vaddr,
}
use badger_os.Vmm.Ranges.{Spaced}
use badger_os.Vmm.Alloc.{Allocated, Disjoint, memprotect_alloc_vaddr-Allocated}
use badger_os.Vmm.Free.{Freed, memprotect_free_vaddr-Freed}

abbrev search : List VmmInfo → ℕ → ℕ × Bool
search [] key = (0, false)
search (x ∷ xs) key =
    let rest = search xs key in if ltb x.vpn key then (suc rest.0, rest.1) else (0, x.vpn == key)

Sorted-tail : (x : VmmInfo) (xs : List VmmInfo) → Sorted (x ∷ xs) → Sorted xs
Sorted-tail x xs sorted i j y z lt h h' = sorted (suc i) (suc j) y z (omega arith) h h'

search-le : (xs : List VmmInfo) (key : ℕ) → (search xs key).0 ≤ length xs
search-le [] key = omega arith
search-le (x ∷ xs) key = let rest = search-le xs key in ground arith

search-before :
    (xs : List VmmInfo) (key j : ℕ) (y : VmmInfo)
    → get_elem? xs j ≡ some y
    → j < (search xs key).0
    → y.vpn < key
search-before [] key j y h lt = cc
search-before (x ∷ xs) key zero y h lt = ground arith
search-before (x ∷ xs) key (suc j) y h lt = let rest = search-before xs key j y h in ground arith

search-after :
    (xs : List VmmInfo) (key j : ℕ) (y : VmmInfo)
    → Sorted xs
    → get_elem? xs j ≡ some y
    → (search xs key).0 ≤ j
    → key ≤ y.vpn
search-after [] key j y sorted h le = cc
search-after (x ∷ xs) key zero y sorted h le = ground arith
search-after (x ∷ xs) key (suc j) y sorted h le =
    let rest = search-after xs key j y (Sorted-tail x xs sorted) h in
    let first = sorted 0 (suc j) x y (omega arith) refl h in ground arith

search-found :
    (xs : List VmmInfo) (key : ℕ)
    → (search xs key).1 ≡ true
    → (x : VmmInfo) × (get_elem? xs (search xs key).0 ≡ some x) × (x.vpn ≡ key)
search-found [] key h = cc
search-found (x ∷ xs) key h = elim (Bool-cases (ltb x.vpn key)) [
  | inl lt ↦ let (y, at, same) = search-found xs key (ground arith) in (y, rw lt at, same)
  | inr ge ↦ (x, rw ge refl, ground arith)
]

search-missing :
    (xs : List VmmInfo) (key : ℕ)
    → Sorted xs
    → (search xs key).1 ≡ false
    → (j : ℕ) (y : VmmInfo) → get_elem? xs j ≡ some y
    → y.vpn ≢ key
search-missing [] key sorted h j y g = cc
search-missing (x ∷ xs) key sorted h zero y g = λ e. ground arith
search-missing (x ∷ xs) key sorted h (suc j) y g = λ e. elim (Bool-cases (ltb x.vpn key)) [
  | inl lt ↦ search-missing xs key (Sorted-tail x xs sorted) (ground arith) j y g e
  | inr ge ↦ let first = sorted 0 (suc j) x y (omega arith) refl g in ground arith
]

search-Searched :
    (xs : List VmmInfo) (key : VmmInfo) → Sorted xs → Searched xs key (search xs key.vpn)
search-Searched xs key sorted = elim (Bool-cases (search xs key.vpn).1) [
  | inl found ↦ rw found (search-found xs key.vpn found)
  | inr missing ↦ rw missing (
    search-le xs key.vpn,
    λ j y h lt. search-before xs key.vpn j y h lt,
    λ j y h le.
        let at_least = search-after xs key.vpn j y sorted h le in
        let ne = search-missing xs key.vpn sorted missing j y h in omega arith,
  )
]

abbrev insert_at : List VmmInfo → VmmInfo → ℕ → List VmmInfo
insert_at xs x i = take i xs ++ (x ∷ drop i xs)

some-inj : {xs ys : List VmmInfo} → some xs ≡ some ys → ys ≡ xs
some-inj h = cc

abbrev arrays : VmmArray
arrays = record {
  array_binsearch = λ xs key cmp. search xs key.vpn;
  array_lencap_remove = λ xs i. take i xs ++ drop (i + 1) xs;
  array_lencap_insert = λ xs x i. some (insert_at xs x i);
  array_lencap_sorted_insert = λ xs x cmp. some (insert_at xs x (search xs x.vpn).0);
  array_binsearch_lem = search-Searched;
  array_lencap_insert_lem = λ xs x i {ys} le h. some-inj h;
  array_lencap_remove_lem = λ xs i lt. refl;
  array_lencap_sorted_insert_lem = λ xs x {ys} sorted h. (
    (search xs x.vpn).0,
    search-le xs x.vpn,
    some-inj h,
    λ j y g lt. let before = search-before xs x.vpn j y g lt in omega arith,
    λ j y g le. search-after xs x.vpn j y sorted g le,
  );
}

abbrev hole_of_nine : VmmInfo
hole_of_nine = record { vpn = 100; pages = 9 }

abbrev in_use : VmmInfo
in_use = record { vpn = 109; pages = 3 }

abbrev upper_hole : VmmInfo
upper_hole = record { vpn = 112; pages = 50 }

abbrev ranges : Vmm
ranges = record { used = in_use ∷ []; free = hole_of_nine ∷ upper_hole ∷ [] }

used-Spaced : Spaced 0 ranges.used
used-Spaced = Spaced.range (omega arith) (omega arith) Spaced.empty

free-Spaced : Spaced 0 ranges.free
free-Spaced =
    Spaced.range (omega arith) (omega arith) (Spaced.range (omega arith) (omega arith) Spaced.empty)

ranges-Disjoint : Disjoint ranges
ranges-Disjoint p h = ground arith

-- 20000 bytes take 5 pages and 2 to spare.
memprotect_alloc_vaddr-Allocated_example :
    (vaddr : ℕ) × (s' : Vmm) × (memprotect_alloc_vaddr arrays 20000 ranges ≡ some (vaddr, s'))
    × Allocated 20000 ranges vaddr s'
memprotect_alloc_vaddr-Allocated_example =
    memprotect_alloc_vaddr-Allocated arrays 20000 0 ranges {x = hole_of_nine} (omega arith)
      (omega arith) used-Spaced free-Spaced ranges-Disjoint refl (omega arith)
      (λ y. (insert_at ranges.used y (search ranges.used y.vpn).0, refl))

-- The range between two holes, which become one.
memprotect_free_vaddr-Freed_example :
    (s' : Vmm) × (memprotect_free_vaddr arrays hole_of_nine ((in_use.vpn + 1) * 4096) ranges
      ≡ some s')
    × Freed in_use ranges s'
memprotect_free_vaddr-Freed_example =
    memprotect_free_vaddr-Freed arrays hole_of_nine in_use 0 ranges used-Spaced free-Spaced
      ranges-Disjoint refl (omega arith) (omega arith)
      (λ index. (insert_at ranges.free in_use index, refl))

memprotect_free_vaddr_merged :
    memprotect_free_vaddr arrays hole_of_nine (110 * 4096) ranges
    ≡ some (record { used = []; free = record { vpn = 100; pages = 62 } ∷ [] })
unfolding memprotect_free_vaddr badger_os.Vmm.give_back
memprotect_free_vaddr_merged = refl
