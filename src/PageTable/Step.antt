-- ===== src/PageTable/Step.antt =====
-- A round of `pt_map_1`: an entry that is absent, a large page or a table.
use badger_os.Base.{ℕ, zero, suc, ◌*◌, ◌%◌, ◌^◌, ◌<◌, ◌≡◌, refl, ◌∙◌, sym, arith, inl}
use badger_os.Base.{Bool, true, false, some, List, [], ◌∷◌, length, ◌==◌}
use badger_os.Mmu.{Ptes, mmu_pte_is_leaf, mmu_pte_new, mmu_pte_get_flags, mmu_write_pte}
use badger_os.PageTable.{PhysMem, map_step, pt_split, phys_page_alloc, split_entries, pte_paddr}
use badger_os.PageTable.Owner.{Owner, EntryOk, WellFormed, prefix, prefix-part, part-lt, view-table}
use badger_os.PageTable.Attach.{Fresh, Fresh-pos, Stepped}
use badger_os.PageTable.Split.{cleared}
use badger_os.PageTable.Table.{step-absent, step-split, part-same, walk-table}

module _ (svpbmt : Bool) (m : Ptes) (p l v : ℕ) where
  map_step-absent :
      (n : ℕ) (ps : List ℕ)
      → 0 < n
      → (m (pte_paddr p v l)).v ≡ false
      → map_step svpbmt p l v (record { ptes = m; fresh = n ∷ ps })
        ≡ some (
          n,
          true,
          record {
            ptes = mmu_write_pte (cleared m n) (pte_paddr p v l) (mmu_pte_new n);
            fresh = ps;
          },
        )
  unfolding map_step phys_page_alloc
  map_step-absent n ps pos h = let z : (n == 0) ≡ false = ground arith in simp (h, z) refl

  map_step-split :
      (n : ℕ) (ps : List ℕ)
      → 0 < n
      → (m (pte_paddr p v l)).v ≡ true
      → mmu_pte_is_leaf (m (pte_paddr p v l)) ≡ true
      → map_step svpbmt p l v (record { ptes = m; fresh = n ∷ ps })
        ≡ some (
          n,
          true,
          record {
            ptes =
                mmu_write_pte
                  (split_entries svpbmt 512 0 n
                    (m (pte_paddr p v l)).ppn
                    (mmu_pte_get_flags (m (pte_paddr p v l)))
                    (cleared m n))
                  (pte_paddr p v l)
                  (mmu_pte_new n);
            fresh = ps;
          },
        )
  unfolding map_step pt_split phys_page_alloc
  map_step-split n ps pos h is_leaf =
      let z : (n == 0) ≡ false = ground arith in simp (h, is_leaf, z) refl

  map_step-table :
      (fs : List ℕ)
      → (m (pte_paddr p v l)).v ≡ true
      → mmu_pte_is_leaf (m (pte_paddr p v l)) ≡ false
      → map_step svpbmt p l v (record { ptes = m; fresh = fs })
        ≡ some ((m (pte_paddr p v l)).ppn, false, record { ptes = m; fresh = fs })
  unfolding map_step
  map_step-table fs h is_leaf = simp (h, is_leaf) refl

-- A table that is there.
step-table :
    (owner : Owner) (m : Ptes) (fs : List ℕ) (p l v : ℕ)
    → WellFormed owner m
    → Fresh owner fs
    → (m (pte_paddr p v (suc l))).v ≡ true
    → mmu_pte_is_leaf (m (pte_paddr p v (suc l))) ≡ false
    → owner ((m (pte_paddr p v (suc l))).ppn) ≡ some (l, prefix (suc l) v)
    → Stepped owner
        (record { ptes = m; fresh = fs })
        p
        l
        v
        (m (pte_paddr p v (suc l))).ppn
        (record { ptes = m; fresh = fs })
step-table owner m fs p l v wf free h is_leaf down = record {
  owner1 = owner;
  extends = λ q k pre o. o;
  wf = wf;
  fresh = free;
  enough = omega arith;
  child = down;
  link = (h, is_leaf, refl);
  other = λ q k pre i o hi off. refl;
  same = λ v' same. sym (
      view-table m (suc l) p v' {e = m (pte_paddr p v (suc l))}
        (rw (part-same (suc l) v v' same) refl) h is_leaf);
  walk = λ w walk found. inl (walk-table m (suc l) p v refl h is_leaf ∙ walk);
}

step-leaf :
    (svpbmt : Bool) (owner : Owner) (m : Ptes) (n : ℕ) (ps : List ℕ) (p l v : ℕ)
    → WellFormed owner m
    → Fresh owner (n ∷ ps)
    → owner p ≡ some (suc l, prefix (suc (suc l)) v)
    → l ≡ 0
    → (m (pte_paddr p v (suc l))).v ≡ true
    → mmu_pte_is_leaf (m (pte_paddr p v (suc l))) ≡ true
    → (m (pte_paddr p v (suc l))).rwx < 8
    → (m (pte_paddr p v (suc l))).ppn < 2 ^ 44
    → (m (pte_paddr p v (suc l))).ppn % 2 ^ (9 * suc l) ≡ 0
    → (next : ℕ) × (edited : Bool) × (s1 : PhysMem) × (map_step svpbmt p
          (suc l)
          v
          (record { ptes = m; fresh = n ∷ ps })
        ≡ some (next, edited, s1))
      × Stepped owner (record { ptes = m; fresh = n ∷ ps }) p l v next s1
step-leaf svpbmt owner m n ps p zero v wf free own low_only h is_leaf small bound whole = (
  n,
  true,
  _,
  map_step-split svpbmt m p 1 v n ps (Fresh-pos free) h is_leaf,
  step-split owner m n ps p v wf free own svpbmt h is_leaf small bound whole,
)
step-leaf svpbmt owner m n ps p (suc l) v wf free own low_only h is_leaf small bound whole =
    absurd (omega arith)

-- Every round succeeds if a page is left and a large page is one of 512 pages.
pub map_step-Stepped :
    (svpbmt : Bool) (owner : Owner) (m : Ptes) (fs : List ℕ) (p l v : ℕ)
    → WellFormed owner m
    → Fresh owner fs
    → 0 < length fs
    → owner p ≡ some (suc l, prefix (suc (suc l)) v)
    → ((m (pte_paddr p v (suc l))).v ≡ true
        → mmu_pte_is_leaf (m (pte_paddr p v (suc l))) ≡ true
        → l ≡ 0)
    → (next : ℕ) × (edited : Bool) × (s1 : PhysMem) × (map_step svpbmt p
          (suc l)
          v
          (record { ptes = m; fresh = fs })
        ≡ some (next, edited, s1))
      × Stepped owner (record { ptes = m; fresh = fs }) p l v next s1
map_step-Stepped svpbmt owner m [] p l v wf free some_left own low_only = absurd (omega arith)
map_step-Stepped svpbmt owner m (n ∷ ps) p l v wf free some_left own low_only =
    elim (wf p (suc l) _ _ own (part-lt v (suc l))) [
      | EntryOk.absent h ↦ (
        n,
        true,
        _,
        map_step-absent svpbmt m p (suc l) v n ps (Fresh-pos free) h,
        step-absent owner m n ps p l v wf free own h,
      )
      | EntryOk.leaf h is_leaf small bound whole ↦
          step-leaf svpbmt owner m n ps p l v wf free own (low_only h is_leaf) h is_leaf small bound
            whole
      | EntryOk.table k e h is_leaf down ↦
          let level : k ≡ l = omega arith in
          (
            _,
            false,
            _,
            map_step-table svpbmt m p (suc l) v (n ∷ ps) h is_leaf,
            step-table owner m (n ∷ ps) p l v wf free h is_leaf
                (down ∙ rw (level, prefix-part (suc l) v) refl),
          )
    ]
