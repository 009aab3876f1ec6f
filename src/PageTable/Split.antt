-- ===== src/PageTable/Split.antt =====
-- The entries that `pt_split` writes, and the page that `phys_page_alloc` clears.
use badger_os.Base.{
  ℕ, zero, suc, ◌+◌, ◌*◌, ◌%◌, ◌^◌, ◌<◌, ◌≡◌, refl, ◌∙◌, sym, arith, ◌≢◌, inl, inr,
}
use badger_os.Base.{Bool, true, ◌==◌, if◌then◌else◌, Bool-cases}
use badger_os.Memory.{within}
use badger_os.Mmu.{
  Pte, Ptes, mmu_pte_null, mmu_pte_is_leaf, mmu_pte_new_leaf, mmu_pte_get_flags, mmu_vpn_part,
  mmu_page_size,
}
use badger_os.Mmu.Flags.{get_flags-again, mmu_vpn_part_lem}
use badger_os.PageTable.{split_entries, entry_paddr, pte_paddr}
use badger_os.PageTable.Owner.{EntryOk, Owner, part-lt, view, view-leaf}

pub split_entries-miss :
    (svpbmt : Bool) (n i p ppn flags : ℕ) (m : Ptes) (x : ℕ)
    → ((j : ℕ) → j < i + n → x ≢ entry_paddr p j)
    → split_entries svpbmt n i p ppn flags m x ≡ m x
unfolding split_entries
split_entries-miss svpbmt zero i p ppn flags m x off = refl
split_entries-miss svpbmt (suc n) i p ppn flags m x off =
    let rest =
      split_entries-miss svpbmt n (i + 1) p ppn flags
        (λ y. if y == entry_paddr p i then mmu_pte_new_leaf svpbmt (ppn + i) flags else m y) x
        (λ j h. off j (omega arith)) in
    let ne = off i (omega arith) in rest ∙ ground arith

pub split_entries-hit :
    (svpbmt : Bool) (n i p ppn flags : ℕ) (m : Ptes) (j : ℕ)
    → j < i + n
    → (j < i → m (entry_paddr p j) ≡ mmu_pte_new_leaf svpbmt (ppn + j) flags)
    → split_entries svpbmt n i p ppn flags m (entry_paddr p j)
      ≡ mmu_pte_new_leaf svpbmt (ppn + j) flags
unfolding split_entries
split_entries-hit svpbmt zero i p ppn flags m j h done = done (omega arith)
split_entries-hit svpbmt (suc n) i p ppn flags m j h done =
    split_entries-hit svpbmt n (i + 1) p ppn flags
      (λ y. if y == entry_paddr p i then mmu_pte_new_leaf svpbmt (ppn + i) flags else m y) j
      (omega arith)
      (λ lt. elim (Bool-cases (j == i)) [
        | inl e ↦ let same : j ≡ i = ground arith in rw same (ground arith)
        | inr ne ↦ let old = done (ground arith) in ground arith
      ])

-- A page that was cleared has no entry, and the others have theirs.
abbrev pub cleared : Ptes → ℕ → Ptes
cleared m n x = if within (n * mmu_page_size) mmu_page_size x then mmu_pte_null else m x

pub cleared-hit : (m : Ptes) (n i : ℕ) → i < 512 → cleared m n (entry_paddr n i) ≡ mmu_pte_null
cleared-hit m n i h = ground arith

pub cleared-miss :
    (m : Ptes) (n p i : ℕ) → p ≢ n → i < 512 → cleared m n (entry_paddr p i) ≡ m (entry_paddr p i)
cleared-miss m n p i ne h = ground arith

-- The small pages of a page of 512.
module _ (svpbmt : Bool) (e : Pte) (small : e.rwx < 8) (bound : e.ppn < 2 ^ 44)
    (whole : e.ppn % 512 ≡ 0) (is_leaf : mmu_pte_is_leaf e ≡ true) where
  abbrev pub low : ℕ → Pte
  low i = mmu_pte_new_leaf svpbmt (e.ppn + i) (mmu_pte_get_flags e)

  pub low-leaf : (i : ℕ) → ((low i).v ≡ true) × (mmu_pte_is_leaf (low i) ≡ true)
  unfolding mmu_pte_new_leaf
  low-leaf i =
      let (flags, rwx) = get_flags-again svpbmt (e.ppn + i) e small in
      (rw rwx is_leaf, rw rwx is_leaf)

  pub low-ppn : (i : ℕ) → i < 512 → (low i).ppn ≡ e.ppn + i
  unfolding mmu_pte_new_leaf
  low-ppn i h = omega arith

  pub low-EntryOk : (owner : Owner) (pre i : ℕ) → i < 512 → EntryOk owner 0 pre i (low i)
  low-EntryOk owner pre i h =
      let (flags, rwx) = get_flags-again svpbmt (e.ppn + i) e small in
      let ppn = low-ppn i h in
      EntryOk.leaf (low-leaf i).0 (low-leaf i).1 (omega arith) (omega arith) (omega arith)

  pub low-view :
      (m m1 : Ptes) (n p v : ℕ)
      → m (pte_paddr p v 1) ≡ e
      → e.v ≡ true
      → ((i : ℕ) → i < 512 → m1 (entry_paddr n i) ≡ low i)
      → view m1 1 n v ≡ view m 2 p v
  low-view m m1 n p v here valid new =
      let i = mmu_vpn_part v 0 in
      let (flags, rwx) = get_flags-again svpbmt (e.ppn + i) e small in
      let ppn = low-ppn i (part-lt v 0) in
      let at : (low i).ppn + v % 2 ^ (9 * 0) ≡ e.ppn + v % 2 ^ (9 * 1) =
        omega (arith, mmu_vpn_part_lem v 0) in
      view-leaf m1 0 n v (new i (part-lt v 0)) (low-leaf i).0 (low-leaf i).1 (omega arith)
      ∙ rw (at, flags) refl
      ∙ sym (view-leaf m 1 p v here valid is_leaf whole)
