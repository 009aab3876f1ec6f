-- ===== src/Vmm/Alloc.antt =====
-- `memprotect_alloc_vaddr`: pages that were free, and come into use.
use badger_os.Base.{
  ℕ, zero, suc, ◌+◌, ◌-◌, ◌*◌, ◌^◌, ◌≤◌, ◌<◌, ◌≡◌, ◌≢◌, refl, ◌∙◌, arith, true, false, not, ◌&&◌,
  ◌||◌, some,
}
use badger_os.Base.{
  List, [], ◌∷◌, leb, ltb, ltb→lt, if◌then◌else◌, Bool-cases, inl, inr, length, get_elem?, set,
}
use badger_os.Memory.{within}
use badger_os.Vmm.{
  VmmInfo, Vmm, VmmArray, vmm_info_cmp, find_fit, pages_for, memprotect_alloc_vaddr,
}
use badger_os.Vmm.Order.{Spaced-Sorted}
use badger_os.Vmm.Edit.{get-pages}
use badger_os.Vmm.GiveBack.{Given, inserted-Given}
use badger_os.Vmm.Ranges.{
  covers, Spaced, or_comm, get-covers, shrunk, Spaced-shrunk, covers-shrunk, without,
  Spaced-without, covers-without,
}

find_fit-fits :
    (xs : List VmmInfo) (i pages : ℕ) {j : ℕ} {x : VmmInfo}
    → find_fit xs i pages ≡ some (j, x)
    → (k : ℕ) × (j ≡ i + k) × (k < length xs) × (get_elem? xs k ≡ some x) × (pages ≤ x.pages)
unfolding find_fit
find_fit-fits [] i pages h = cc
find_fit-fits (y ∷ xs) i pages {j} {x} h = elim (Bool-cases (leb pages y.pages)) [
  | inl fits ↦ (0, ground arith, omega arith, ground arith, ground arith)
  | inr small ↦
      let (k, at, lt, here, le) = find_fit-fits xs (i + 1) pages {j = j} {x = x} (ground arith) in
      (suc k, omega arith, omega arith, here, le)
]

-- A list with a large enough range is searched with success.
find_fit-found :
    (xs : List VmmInfo) (i pages k : ℕ) {x : VmmInfo}
    → get_elem? xs k ≡ some x
    → pages ≤ x.pages
    → (j : ℕ) × (y : VmmInfo) × (find_fit xs i pages ≡ some (j, y))
unfolding find_fit
find_fit-found [] i pages k h le = cc
find_fit-found (y ∷ xs) i pages zero {x} h le = (i, y, ground arith)
find_fit-found (y ∷ xs) i pages (suc k) {x} h le = elim (Bool-cases (leb pages y.pages)) [
  | inl fits ↦ (i, y, ground arith)
  | inr small ↦
      let (j, z, found) = find_fit-found xs (i + 1) pages k {x = x} h le in (j, z, ground arith)
]

-- No page is both in use and free.
abbrev pub Disjoint : Vmm → Type 0
Disjoint s = (p : ℕ) → covers s.used p ≡ true → covers s.free p ≡ false

-- What the caller has: the pages from `vpn`, with one to spare on each side of the `len` bytes.
pub record Allocated (len : ℕ) (s : Vmm) (vaddr : ℕ) (s' : Vmm) : Type 0 where
  pub vpn : ℕ
  pub start : vaddr ≡ (vpn + 1) * 4096
  pub room : vaddr + len ≤ (vpn + pages_for len - 1) * 4096
  pub was_free : (p : ℕ) → within vpn (pages_for len) p ≡ true → covers s.free p ≡ true
  pub now_free : (p : ℕ) → covers s'.free p ≡ covers s.free p && not (within vpn (pages_for len) p)
  pub now_used : (p : ℕ) → covers s'.used p ≡ within vpn (pages_for len) p || covers s.used p
  pub spaced_used : Spaced 0 s'.used
  pub spaced_free : Spaced 0 s'.free
  pub disjoint : Disjoint s'

module _ (array : VmmArray) where
  open array use {
    array_lencap_remove, array_lencap_sorted_insert, array_lencap_remove_lem,
    array_lencap_sorted_insert_lem,
  }

  abbrev left_over : List VmmInfo → ℕ → VmmInfo → ℕ → List VmmInfo
  left_over free i range pages =
      if ltb pages range.pages then set free i (shrunk range pages) else array_lencap_remove free i

  left_over-free :
      (free : List VmmInfo) (i pages : ℕ) {range : VmmInfo}
      → Spaced 0 free
      → i < length free
      → get_elem? free i ≡ some range
      → pages ≤ range.pages
      → Spaced 0 (left_over free i range pages)
        × ((p : ℕ)
            → covers (left_over free i range pages) p
              ≡ covers free p && not (within range.vpn pages p))
  left_over-free free i pages {range} sp lt here le = elim (Bool-cases (ltb pages range.pages)) [
    | inl less ↦
        let lt' = ltb→lt pages range.pages less in
        simp (less) (
          Spaced-shrunk free 0 i pages {x = range} sp here lt',
          λ p. covers-shrunk free 0 i pages p {x = range} sp here lt',
        )
    | inr all ↦
        let same : range.pages ≡ pages = ground arith in
        let next : i + 1 ≡ suc i = omega arith in
        let removed : array_lencap_remove free i ≡ without free i =
          array_lencap_remove_lem free i lt ∙ rw next refl in
        simp (all, removed)
          (
            Spaced-without free 0 i lt sp,
            λ p. rw (← same) (covers-without free 0 i p {x = range} sp here),
          )
  ]

  -- A range of free pages among those in use.
  used-Given :
      (s : Vmm) (taken : VmmInfo) (used : List VmmInfo)
      → Spaced 0 s.used
      → Disjoint s
      → 0 < taken.pages
      → ((p : ℕ) → within taken.vpn taken.pages p ≡ true → covers s.free p ≡ true)
      → array_lencap_sorted_insert s.used taken vmm_info_cmp ≡ some used
      → Given s.used taken used
  used-Given s taken used sp apart pages inside inserted =
      let (n, le, used_eq, before, after) =
        array_lencap_sorted_insert_lem s.used taken {ys = used} (Spaced-Sorted s.used 0 sp)
          inserted in
      let off : (p : ℕ) → within taken.vpn taken.pages p ≡ true → covers s.used p ≡ false =
        λ p h. let free_page = inside p h in let a = apart p in ground arith in
      let none_at : (j : ℕ) (y : VmmInfo) → get_elem? s.used j ≡ some y → y.vpn ≢ taken.vpn =
        λ j y g same.
          let y_pages = get-pages s.used 0 j {x = y} sp g in
          let used_page = get-covers s.used j taken.vpn {x = y} g (ground arith) in
          let free_page = off taken.vpn (ground arith) in cc in
      rw used_eq (
        inserted-Given taken s.used n sp pages off
          (λ j y g lt. let b = before j y g lt in let ne = none_at j y g in omega arith)
          (λ j y g ge. let b = after j y g ge in let ne = none_at j y g in omega arith) le)

  -- For 1 or more bytes, fewer than 2^64, with the ranges of either list in order and apart, no page both
  -- free and in use, a free range that is large enough, and memory for the entry: the function returns.
  -- The pages it takes, with one to spare on each side of the bytes asked for, were free and are now in
  -- use, no other page changes, and the ranges stay in order and apart.
  pub memprotect_alloc_vaddr-Allocated :
      (len k : ℕ) (s : Vmm) {x : VmmInfo}
      → 0 < len
      → len < 2 ^ 64
      → Spaced 0 s.used
      → Spaced 0 s.free
      → Disjoint s
      → get_elem? s.free k ≡ some x
      → pages_for len ≤ x.pages
      → ((y : VmmInfo)
          → (used : List VmmInfo) × (array_lencap_sorted_insert s.used y vmm_info_cmp ≡ some used))
      → (vaddr : ℕ) × (s' : Vmm) × (memprotect_alloc_vaddr array len s ≡ some (vaddr, s'))
        × Allocated len s vaddr s'
  unfolding memprotect_alloc_vaddr
  memprotect_alloc_vaddr-Allocated len k s {x} pos short sp_used sp apart at le memory =
      let pages = pages_for len in
      let (j, range, found) = find_fit-found s.free 0 pages k {x = x} at le in
      let (i, index, lt, here, fits) = find_fit-fits s.free 0 pages {j = j} {x = range} found in
      let taken : VmmInfo = record { vpn = range.vpn; pages = pages } in
      let (used, inserted) = memory taken in
      let same : j ≡ i = omega arith in
      let (spaced, left) = left_over-free s.free i pages {range = range} sp lt here fits in
      let inside : (p : ℕ) → within range.vpn pages p ≡ true → covers s.free p ≡ true =
        λ p h. get-covers s.free i p {x = range} here (ground arith) in
      let more = used-Given s taken used sp_used apart (omega arith) inside inserted in
      let s' : Vmm = record { used = used; free = left_over s.free i range pages } in
      (
        (range.vpn + 1) * 4096,
        s',
        rw (memprotect_alloc_vaddr, found, inserted, same) refl,
        record {
          vpn = range.vpn;
          start = refl;
          room = omega arith;
          was_free = inside;
          now_free = left;
          now_used = λ p. more.1 p ∙ or_comm (covers s.used p) (within range.vpn pages p);
          spaced_used = more.0;
          spaced_free = spaced;
          disjoint = λ p h. let m = more.1 p in let l = left p in let old = apart p in ground arith;
        },
      )
