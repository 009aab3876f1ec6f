-- ===== src/Vmm/Free.antt =====
-- `memprotect_free_vaddr`: pages in use that become free.
use badger_os.Base.{
  ℕ, suc, ◌+◌, ◌-◌, ◌*◌, ◌/◌, ◌%◌, ◌^◌, ◌≤◌, ◌<◌, ◌≡◌, ◌≢◌, refl, ◌∙◌, ap, sym, arith, Bool, true,
  false, not, ◌&&◌, ◌||◌, some,
}
use badger_os.Base.{List, ◌==◌, Bool-cases, inl, inr, length, get_elem?, get_or, ltb, ltb→lt}
use badger_os.Memory.{within}
use badger_os.Vmm.{
  VmmInfo, Vmm, VmmArray, Sorted, Searched, vmm_info_cmp, give_back, memprotect_free_vaddr,
}
use badger_os.Vmm.Ranges.{covers, Spaced, without, covers-without, Spaced-without, get-covers}
use badger_os.Vmm.Edit.{get-pages, get_or-some, get_elem?-lt, end_of}
use badger_os.Vmm.Order.{Spaced-Sorted}
use badger_os.Vmm.Alloc.{Disjoint}
use badger_os.Vmm.GiveBack.{Given, give_back-Given}

-- The entry that starts where the key does is found.
found-key :
    (xs : List VmmInfo) (key range : VmmInfo) (k : ℕ) (r : ℕ × Bool)
    → Sorted xs
    → get_elem? xs k ≡ some range
    → range.vpn ≡ key.vpn
    → Searched xs key r
    → (r.1 ≡ true) × (r.0 ≡ k)
found-key xs key range k (i, true) sorted h e (x, at, same) = (
  refl,
  elim (Bool-cases (ltb i k)) [
    | inl lt ↦ let z = sorted i k x range (ltb→lt i k lt) at h in absurd (omega arith)
    | inr ge ↦ elim (Bool-cases (ltb k i)) [
      | inl lt ↦ let z = sorted k i range x (ltb→lt k i lt) h at in absurd (omega arith)
      | inr le ↦ ground arith
    ]
  ],
)
found-key xs key range k (i, false) sorted h e (le, before, after) = elim (Bool-cases (ltb k i)) [
  | inl lt ↦ let z = before k range h (ltb→lt k i lt) in absurd (omega arith)
  | inr ge ↦ let z = after k range h (ground arith) in absurd (omega arith)
]

-- A key that no entry starts at is not found.
missing-key :
    (xs : List VmmInfo) (key : VmmInfo) (r : ℕ × Bool)
    → ((k : ℕ) (x : VmmInfo) → get_elem? xs k ≡ some x → x.vpn ≢ key.vpn)
    → Searched xs key r
    → (r.0 ≤ length xs)
      × ((j : ℕ) (x : VmmInfo) → get_elem? xs j ≡ some x → j < r.0 → x.vpn < key.vpn)
      × ((j : ℕ) (x : VmmInfo) → get_elem? xs j ≡ some x → r.0 ≤ j → key.vpn < x.vpn)
missing-key xs key (i, true) none_at (x, at, same) = absurd (none_at i x at same)
missing-key xs key (i, false) none_at searched = searched

pub record Freed (range : VmmInfo) (s s' : Vmm) : Type 0 where
  pub now_free : (p : ℕ) → covers s'.free p ≡ covers s.free p || within range.vpn range.pages p
  pub now_used :
      (p : ℕ) → covers s'.used p ≡ covers s.used p && not (within range.vpn range.pages p)
  pub spaced_used : Spaced 0 s'.used
  pub spaced_free : Spaced 0 s'.free
  pub disjoint : Disjoint s'

module _ (array : VmmArray) where
  open array use {
    array_binsearch, array_lencap_remove, array_lencap_insert, array_binsearch_lem,
    array_lencap_remove_lem,
  }

  free_vaddr-run :
      (beyond range : VmmInfo) (k : ℕ) (s : Vmm) {free' : List VmmInfo}
      → range.vpn < 2 ^ 52
      → (array_binsearch s.used (record { vpn = range.vpn; pages = 0 }) vmm_info_cmp).1 ≡ true
      → (array_binsearch s.used (record { vpn = range.vpn; pages = 0 }) vmm_info_cmp).0 ≡ k
      → get_or s.used k beyond ≡ range
      → give_back array beyond range (array_binsearch s.free range vmm_info_cmp).0 s.free
        ≡ some free'
      → memprotect_free_vaddr array beyond ((range.vpn + 1) * 4096) s
        ≡ some (record { used = array_lencap_remove s.used k; free = free' })
  unfolding memprotect_free_vaddr
  free_vaddr-run beyond range k s bound found at got back =
      let vpn : ((range.vpn + 1) * 4096 / 4096 + 2 ^ 64 - 1) % 2 ^ 64 ≡ range.vpn = omega arith in
      let whole : ((range.vpn + 1) * 4096 % 4096 == 0) ≡ true = ground arith in
      let search =
        ap (λ v. array_binsearch s.used (record { vpn = v; pages = 0 }) vmm_info_cmp) vpn in
      let found' = ap (λ r. r.1) search ∙ found in
      let at' = ap (λ r. r.0) search ∙ at in
      let same : (range.vpn == ((range.vpn + 1) * 4096 / 4096 + 2 ^ 64 - 1) % 2 ^ 64) ≡ true =
        ground arith in
      rw (memprotect_free_vaddr, whole, found', at', got, same, back, at') refl

  remove-Freed :
      (range : VmmInfo) (k : ℕ) (s : Vmm) (free' : List VmmInfo)
      → Spaced 0 s.used
      → Disjoint s
      → get_elem? s.used k ≡ some range
      → Given s.free range free'
      → Freed range s (record { used = array_lencap_remove s.used k; free = free' })
  remove-Freed range k s free' sp apart h (spaced, more) =
      let lt = get_elem?-lt s.used k {x = range} h in
      let next : k + 1 ≡ suc k = omega arith in
      let removed : array_lencap_remove s.used k ≡ without s.used k =
        array_lencap_remove_lem s.used k lt ∙ rw next refl in
      let gone : (p : ℕ)
          → covers (array_lencap_remove s.used k) p
            ≡ covers s.used p && not (within range.vpn range.pages p) =
        λ p. ap (λ xs. covers xs p) removed ∙ covers-without s.used 0 k p {x = range} sp h in
      record {
        now_free = more;
        now_used = gone;
        spaced_used = rw removed (Spaced-without s.used 0 k lt sp);
        spaced_free = spaced;
        disjoint = λ p used. let g = gone p in let m = more p in let a = apart p in ground arith;
      }

  -- With the ranges of either list in order and apart, no page both free and in use, the address that
  -- belongs to an entry `range` in use below page 2^52, memory for an entry, and no stale entry behind
  -- the last free one that starts where `range` ends: the function returns. The pages of the range
  -- are free and no longer in use, no other page changes, and the ranges stay in order and apart.
  pub memprotect_free_vaddr-Freed :
      (beyond range : VmmInfo) (k : ℕ) (s : Vmm)
      → Spaced 0 s.used
      → Spaced 0 s.free
      → Disjoint s
      → get_elem? s.used k ≡ some range
      → range.vpn < 2 ^ 52
      → end_of range ≢ beyond.vpn
      → ((index : ℕ) → (ys : List VmmInfo) × (array_lencap_insert s.free range index ≡ some ys))
      → (s' : Vmm) × (memprotect_free_vaddr array beyond ((range.vpn + 1) * 4096) s ≡ some s')
        × Freed range s s'
  unfolding memprotect_free_vaddr
  memprotect_free_vaddr-Freed beyond range k s sp_used sp_free apart h bound stale memory =
      let key : VmmInfo = record { vpn = range.vpn; pages = 0 } in
      let hit = array_binsearch s.used key vmm_info_cmp in
      let (found, at) =
        found-key s.used key range k hit (Spaced-Sorted s.used 0 sp_used) h refl
          (array_binsearch_lem s.used key (Spaced-Sorted s.used 0 sp_used)) in
      let pages = get-pages s.used 0 k {x = range} sp_used h in
      let place = array_binsearch s.free range vmm_info_cmp in
      let off : (p : ℕ) → within range.vpn range.pages p ≡ true → covers s.free p ≡ false =
        λ p inside. apart p (get-covers s.used k p {x = range} h inside) in
      let none_at : (j : ℕ) (x : VmmInfo) → get_elem? s.free j ≡ some x → x.vpn ≢ range.vpn =
        λ j x g same.
          let x_pages = get-pages s.free 0 j {x = x} sp_free g in
          let free_page = get-covers s.free j range.vpn {x = x} g (ground arith) in
          let used_page = off range.vpn (ground arith) in cc in
      let (le, before, after) =
        missing-key s.free range place none_at
          (array_binsearch_lem s.free range (Spaced-Sorted s.free 0 sp_free)) in
      let (free', back, given) =
        give_back-Given array beyond range s.free place.0 sp_free pages off le before after stale
          (memory place.0) in
      let got : get_or s.used k beyond ≡ range =
        let z = sym (get_or-some s.used k beyond (get_elem?-lt s.used k {x = range} h)) ∙ h in
        ground arith in
      (
        record { used = array_lencap_remove s.used k; free = free' },
        free_vaddr-run beyond range k s bound found at got back,
        remove-Freed range k s free' sp_used apart h given,
      )
