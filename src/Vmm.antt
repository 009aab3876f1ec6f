-- ===== src/Vmm.antt =====
-- kernel/port/generic/src/memprotect.c: the ranges of kernel page numbers that are free or in use.
-- The mutex around the operations is that of Sync; each function here is one that holds it. A result
-- `none` is a stop of the kernel, by `assert_always`.
use badger_os.Base.{
  ℕ, suc, ◌+◌, ◌-◌, ◌*◌, ◌/◌, ◌%◌, ◌^◌, ◌≤◌, ◌<◌, ◌≡◌, Bool, true, false, not, ◌&&◌, ◌||◌, Option,
  none, some,
}
use badger_os.Base.{
  List, [], ◌∷◌, ◌++◌, ◌==◌, leb, ltb, if◌then◌else◌, length, get_elem?, get_or, set, take, drop,
}
pub mod Ranges
pub mod Alloc
pub mod Order
pub mod Edit
pub mod GiveBack
pub mod Free
pub mod Boot
mod Tests
use badger_os.Int.{ℤ, pos, negsuc}
use badger_os.PageTable.{mmu_high_vpn, mmu_half_pages}
use badger_os.PageTable.Protect.{mmu_half_size}

-- `vmm_info_t`
pub record VmmInfo : Type 0 where
  pub vpn : ℕ
  pub pages : ℕ

-- `vmm_used` and `vmm_free`
pub record Vmm : Type 0 where
  pub used : List VmmInfo
  pub free : List VmmInfo

unfoldable pub vmm_info_cmp : VmmInfo → VmmInfo → ℤ
vmm_info_cmp a b = if ltb b.vpn a.vpn then pos 1 else if ltb a.vpn b.vpn then negsuc 0 else pos 0

-- In the order of `vmm_info_cmp`, without doubles.
abbrev pub Sorted : List VmmInfo → Type 0
Sorted xs =
    (i j : ℕ) (x y : VmmInfo)
    → i < j
    → get_elem? xs i ≡ some x
    → get_elem? xs j ≡ some y
    → x.vpn < y.vpn

-- What a binary search gives: the index of the key, or that where it would stand.
abbrev pub Searched : List VmmInfo → VmmInfo → ℕ × Bool → Type 0
Searched xs key (i, found) =
    if found
    then ((x : VmmInfo) × (get_elem? xs i ≡ some x) × (x.vpn ≡ key.vpn))
    else (i ≤ length xs)
      × ((j : ℕ) (x : VmmInfo) → get_elem? xs j ≡ some x → j < i → x.vpn < key.vpn)
      × ((j : ℕ) (x : VmmInfo) → get_elem? xs j ≡ some x → i ≤ j → key.vpn < x.vpn)

-- The arrays of badgelib, a submodule: the search for a key, which gives an index and whether it is
-- there; removal; and the insertions, which fail where there is no memory.
pub record VmmArray : Type 0 where
  pub array_binsearch : List VmmInfo → VmmInfo → (VmmInfo → VmmInfo → ℤ) → ℕ × Bool
  pub array_lencap_remove : List VmmInfo → ℕ → List VmmInfo
  pub array_lencap_insert : List VmmInfo → VmmInfo → ℕ → Option (List VmmInfo)
  pub array_lencap_sorted_insert :
      List VmmInfo → VmmInfo → (VmmInfo → VmmInfo → ℤ) → Option (List VmmInfo)
  pub array_binsearch_lem :
      (xs : List VmmInfo) (key : VmmInfo)
      → Sorted xs
      → Searched xs key (array_binsearch xs key vmm_info_cmp)
  pub array_lencap_insert_lem :
      (xs : List VmmInfo) (x : VmmInfo) (i : ℕ) {ys : List VmmInfo}
      → i ≤ length xs
      → array_lencap_insert xs x i ≡ some ys
      → ys ≡ take i xs ++ (x ∷ drop i xs)
  pub array_lencap_remove_lem :
      (xs : List VmmInfo) (i : ℕ)
      → i < length xs
      → array_lencap_remove xs i ≡ take i xs ++ drop (i + 1) xs
  pub array_lencap_sorted_insert_lem :
      (xs : List VmmInfo) (x : VmmInfo) {ys : List VmmInfo}
      → Sorted xs
      → array_lencap_sorted_insert xs x vmm_info_cmp ≡ some ys
      → (i : ℕ) × (i ≤ length xs)
        × (ys ≡ take i xs ++ (x ∷ drop i xs))
        × ((j : ℕ) (y : VmmInfo) → get_elem? xs j ≡ some y → j < i → y.vpn ≤ x.vpn)
        × ((j : ℕ) (y : VmmInfo) → get_elem? xs j ≡ some y → i ≤ j → x.vpn ≤ y.vpn)

-- The loop of `memprotect_alloc_vaddr` from entry `i`, and the entry that it stops at.
unfoldable pub find_fit : List VmmInfo → (i pages : ℕ) → Option (ℕ × VmmInfo)
find_fit [] i pages = none
find_fit (x ∷ xs) i pages =
    let rest = find_fit xs (i + 1) pages in if leb pages x.pages then some (i, x) else rest

-- `(len - 1) / MEMMAP_PAGE_SIZE + 3`
abbrev pub pages_for : ℕ → ℕ
pages_for len = (len + 2 ^ 64 - 1) % 2 ^ 64 / 4096 + 3

module _ (array : VmmArray) where
  open array use {
    array_binsearch, array_lencap_remove, array_lencap_insert, array_lencap_sorted_insert,
  }

  unfoldable pub memprotect_alloc_vaddr : (len : ℕ) → Vmm → Option (ℕ × Vmm)
  memprotect_alloc_vaddr len s =
      let pages = pages_for len in
      elim (find_fit s.free 0 pages) [
        | none ↦ none
        | some (i, range) ↦
            elim (array_lencap_sorted_insert s.used (record { vpn = range.vpn; pages = pages })
              vmm_info_cmp) [
                | none ↦ none
                | some used ↦ some (
                  (range.vpn + 1) * 4096,
                  record {
                    used = used;
                    free =
                        if ltb pages range.pages
                        then set s.free i
                            (record { vpn = range.vpn + pages; pages = range.pages - pages })
                        else array_lencap_remove s.free i;
                  },
                )
              ]
      ]

  -- The part of `memprotect_free_vaddr` that puts `range` back at `index`. `beyond` is what lies in
  -- memory behind the last entry, which is read when `index` is the length.
  unfoldable pub give_back :
      (beyond range : VmmInfo) → (index : ℕ) → List VmmInfo → Option (List VmmInfo)
  give_back beyond range index free =
      let left = get_or free (index - 1) beyond in
      let right = get_or free index beyond in
      let meets_left = not (index == 0) && (left.vpn + left.pages == range.vpn) in
      let meets_right = range.vpn + range.pages == right.vpn in
      if meets_left && meets_right
      then some (
          array_lencap_remove
            (set free (index - 1) (record left { pages = right.vpn + right.pages - left.vpn }))
            index)
      else if meets_left
      then some (set free (index - 1) (record left { pages = range.vpn + range.pages - left.vpn }))
      else if meets_right
      then some (
          set free index
            (record { vpn = range.vpn; pages = right.pages + (right.vpn - range.vpn) }))
      else array_lencap_insert free range index

  unfoldable pub memprotect_free_vaddr : (beyond : VmmInfo) → (vaddr : ℕ) → Vmm → Option Vmm
  memprotect_free_vaddr beyond vaddr s =
      let vpn = (vaddr / 4096 + 2 ^ 64 - 1) % 2 ^ 64 in
      let (at, found) = array_binsearch s.used (record { vpn = vpn; pages = 0 }) vmm_info_cmp in
      let range = get_or s.used at beyond in
      let (index, _) = array_binsearch s.free range vmm_info_cmp in
      let free : Option (List VmmInfo) = give_back beyond range index s.free in
      if not (vaddr % 4096 == 0) || not found || not (range.vpn == vpn) then none else elim free [
        | none ↦ none
        | some free' ↦ some (record { used = array_lencap_remove s.used at; free = free' })
      ]

  -- The range that `vmm_mark_reserved` cuts, clamped as the source does it.
  abbrev pub clamped : (mmu_levels vpn pages : ℕ) → VmmInfo
  clamped mmu_levels vpn pages =
      let high = mmu_high_vpn mmu_levels in
      let from = if ltb vpn high then high else vpn in
      let size = if ltb vpn high then (pages + 2 ^ 64 - (high - vpn)) % 2 ^ 64 else pages in
      record {
        vpn = from;
        pages =
            if ltb (high + mmu_half_size mmu_levels) (from + size)
            then high + mmu_half_size mmu_levels - from
            else size;
      }

  -- The entry `range` at `at` without the pages of `cut`.
  unfoldable pub cut_entry : (cut range : VmmInfo) → (at : ℕ) → List VmmInfo → Option (List VmmInfo)
  cut_entry cut range at free =
      let end = range.vpn + range.pages in
      let upper : VmmInfo = record {
        vpn = cut.vpn + cut.pages;
        pages = end - cut.vpn - cut.pages;
      } in
      let lower : VmmInfo = record { vpn = range.vpn; pages = cut.vpn - range.vpn } in
      if (range.vpn == cut.vpn) && (range.pages == cut.pages)
      then some (array_lencap_remove free at)
      else if ltb range.vpn cut.vpn && ltb (cut.vpn + cut.pages) end
      then elim (array_lencap_insert free upper (at + 1)) [
        | none ↦ none
        | some free' ↦ some (set free' at lower)
      ]
      else if ltb range.vpn cut.vpn
      then some (set free at lower)
      else some (set free at upper)

  unfoldable pub vmm_mark_reserved :
      (beyond : VmmInfo) → (mmu_levels vpn pages : ℕ) → Vmm → Option Vmm
  vmm_mark_reserved beyond mmu_levels vpn pages s =
      let cut = clamped mmu_levels vpn pages in
      let (index, found) =
        array_binsearch s.free (record { vpn = cut.vpn; pages = 0 }) vmm_info_cmp in
      let at = if found then index else index - 1 in
      elim (cut_entry cut (get_or s.free at beyond) at s.free) [
        | none ↦ none
        | some free ↦ some (record s { free = free })
      ]

-- The start of `memprotect_postheap_init`: all of the upper half is free.
abbrev pub vmm_init : (mmu_levels : ℕ) → Vmm
vmm_init mmu_levels = record {
  used = [];
  free = record { vpn = mmu_high_vpn mmu_levels; pages = mmu_half_pages mmu_levels } ∷ [];
}
