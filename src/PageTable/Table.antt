-- ===== src/PageTable/Table.antt =====
-- A round of `pt_map_1` that makes a new table: below an entry that is absent, or from a large page.
use badger_os.Base.{ℕ, suc, ◌%◌, ◌^◌, ◌<◌, ◌≡◌, refl, ◌∙◌, ap, sym, arith, ◌≢◌, inr}
use badger_os.Base.{Bool, true, false, some, List, ◌∷◌}
use badger_os.Mmu.{
  Pte, Ptes, mmu_pte_null, mmu_pte_is_leaf, mmu_pte_new, mmu_pte_get_flags, mmu_vpn_part,
  mmu_write_pte,
}
use badger_os.Mmu.Flags.{mmu_vpn_part_lem}
use badger_os.PageTable.{PtWalk, walk_levels, split_entries, entry_paddr, pte_paddr}
use badger_os.PageTable.Owner.{
  Owner, EntryOk, WellFormed, prefix, part-lt, paddr-inj, view, view-absent,
}
use badger_os.PageTable.Attach.{Fresh, Fresh-none, Stepped, attach}
use badger_os.PageTable.Split.{
  cleared, cleared-hit, cleared-miss, split_entries-hit, split_entries-miss, low, low-EntryOk,
  low-view,
}

walk-absent :
    (m : Ptes) (l p v : ℕ) {w : PtWalk}
    → (m (pte_paddr p v l)).v ≡ false
    → walk_levels m (suc l) p v ≡ some w
    → w.found ≡ false
unfolding walk_levels
walk-absent m l p v {w} h e = ground arith

walk-zero : (m : Ptes) (p v : ℕ) {w : PtWalk} → walk_levels m 1 p v ≡ some w → w.level ≡ 0
unfolding walk_levels
walk-zero m p v {w} e = ground arith

pub walk-table :
    (m : Ptes) (l p v : ℕ) {e : Pte}
    → m (pte_paddr p v l) ≡ e
    → e.v ≡ true
    → mmu_pte_is_leaf e ≡ false
    → walk_levels m (suc l) p v ≡ walk_levels m l e.ppn v
unfolding walk_levels
walk-table m l p v {e} he h a = ground arith

pub part-same : (l v v' : ℕ) → prefix l v' ≡ prefix l v → mmu_vpn_part v' l ≡ mmu_vpn_part v l
part-same l v v' h = omega (arith, mmu_vpn_part_lem v l, mmu_vpn_part_lem v' l, h)

module _ (owner : Owner) (m : Ptes) (n : ℕ) (ps : List ℕ) (p l v : ℕ) (wf : WellFormed owner m)
    (free : Fresh owner (n ∷ ps)) (own : owner p ≡ some (suc l, prefix (suc (suc l)) v)) where
  p-n : p ≢ n
  p-n e = let free_n = Fresh-none free in let o = rw e at own in cc

  at-n : (i : ℕ) → i < 512 → entry_paddr n i ≢ pte_paddr p v (suc l)
  at-n i h e = let (same, _) = paddr-inj {p = n} {q = p} h (part-lt v (suc l)) e in p-n (sym same)

  -- A missing table.
  pub step-absent :
      (m (pte_paddr p v (suc l))).v ≡ false
      → Stepped owner
          (record { ptes = m; fresh = n ∷ ps })
          p
          l
          v
          n
          (record {
            ptes = mmu_write_pte (cleared m n) (pte_paddr p v (suc l)) (mmu_pte_new n);
            fresh = ps;
          })
  step-absent h =
      let m1 = mmu_write_pte (cleared m n) (pte_paddr p v (suc l)) (mmu_pte_new n) in
      let null : (i : ℕ) → i < 512 → m1 (entry_paddr n i) ≡ mmu_pte_null =
        λ i hi. let ne = at-n i hi in let c = cleared-hit m n i hi in ground arith in
      let gone : (v' : ℕ) → (m1 (pte_paddr n v' l)).v ≡ false =
        λ v'. ap (λ x. x.v) (null _ (part-lt v' l)) in
      attach owner m m1 n ps p l v wf free own (ground arith)
        (λ q i ne hi off. let c = cleared-miss m n q i ne hi in ground arith)
        (λ i hi. EntryOk.absent (ap (λ x. x.v) (null i hi)))
        (λ v' same.
          view-absent m1 l n v' (gone v')
          ∙ sym (view-absent m (suc l) p v' (rw (part-same (suc l) v v' same) h)))
        (λ w e found.
          let f = walk-absent m1 l n v {w = w} (gone v) e in absurd (let z = sym found ∙ f in cc))

module _ (owner : Owner) (m : Ptes) (n : ℕ) (ps : List ℕ) (p v : ℕ) (wf : WellFormed owner m)
    (free : Fresh owner (n ∷ ps)) (own : owner p ≡ some (1, prefix 2 v)) where
  -- A large page of 512 small ones.
  pub step-split :
      (svpbmt : Bool)
      → (m (pte_paddr p v 1)).v ≡ true
      → mmu_pte_is_leaf (m (pte_paddr p v 1)) ≡ true
      → (m (pte_paddr p v 1)).rwx < 8
      → (m (pte_paddr p v 1)).ppn < 2 ^ 44
      → (m (pte_paddr p v 1)).ppn % 512 ≡ 0
      → Stepped owner
          (record { ptes = m; fresh = n ∷ ps })
          p
          0
          v
          n
          (record {
            ptes =
                mmu_write_pte
                  (split_entries svpbmt 512 0 n
                    (m (pte_paddr p v 1)).ppn
                    (mmu_pte_get_flags (m (pte_paddr p v 1)))
                    (cleared m n))
                  (pte_paddr p v 1)
                  (mmu_pte_new n);
            fresh = ps;
          })
  step-split svpbmt h is_leaf small bound whole =
      let e = m (pte_paddr p v 1) in
      let filled = split_entries svpbmt 512 0 n e.ppn (mmu_pte_get_flags e) (cleared m n) in
      let m1 = mmu_write_pte filled (pte_paddr p v 1) (mmu_pte_new n) in
      let entries : (i : ℕ)
          → i < 512
          → m1 (entry_paddr n i) ≡ low svpbmt e small bound whole is_leaf i =
        λ i hi.
          let ne = at-n owner m n ps p 0 v wf free own i hi in
          let c =
            split_entries-hit svpbmt 512 0 n e.ppn (mmu_pte_get_flags e) (cleared m n) i hi
              (λ z. elim z [ ]) in
          ground arith in
      let view_of : (v' : ℕ) → prefix 1 v' ≡ prefix 1 v → view m1 1 n v' ≡ view m 2 p v' =
        λ v' same.
          low-view svpbmt e small bound whole is_leaf m m1 n p v' (rw (part-same 1 v v' same) refl)
            h entries in
      attach owner m m1 n ps p 0 v wf free own (ground arith)
        (λ q i ne hi off.
          let c = cleared-miss m n q i ne hi in
          let s =
            split_entries-miss svpbmt 512 0 n e.ppn (mmu_pte_get_flags e) (cleared m n)
              (entry_paddr q i)
              (λ j hj same. let (z, _) = paddr-inj {p = q} {q = n} hi hj same in ne z) in
          ground arith)
        (λ i hi. rw (entries i hi) (low-EntryOk svpbmt e small bound whole is_leaf _ _ i hi))
        view_of (λ w walk found. inr (walk-zero m1 n v {w = w} walk))
