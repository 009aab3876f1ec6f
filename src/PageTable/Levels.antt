-- ===== src/PageTable/Levels.antt =====
-- The loop of `pt_map_1` from a table of level `pte_level + d` down.
use badger_os.Base.{
  ℕ, zero, suc, ◌+◌, ◌*◌, ◌%◌, ◌/◌, ◌^◌, ◌≤◌, ◌<◌, ◌≡◌, refl, ◌∙◌, ap, sym, arith, ◌≢◌, ◌⊎◌, inl,
  inr,
}
use badger_os.Base.{Bool, true, some, length, ◌==◌, Bool-cases, bit_and}
use badger_os.Bits.Mask.{bit_and-ones}
use badger_os.Mmu.{
  Pte, mmu_pte_is_leaf, mmu_pte_new_leaf, mmu_pte_get_flags, mmu_vpn_part, mmu_write_pte,
}
use badger_os.PageTable.{PhysMem, entry_paddr, pte_paddr}
use badger_os.PageTable.Owner.{
  Owner, EntryOk, WellFormed, Extends, prefix, prefix-part, prefix-suc, part-lt, paddr-inj, view,
  view-leaf, view-frame,
}
use badger_os.PageTable.Attach.{Fresh}
use badger_os.PageTable.Table.{part-same}

pub prefix-up : (L l v v' : ℕ) → L ≤ l → prefix L v' ≡ prefix L v → prefix l v' ≡ prefix l v
prefix-up L zero v v' le h = let e : L ≡ 0 = omega arith in rw e at h
prefix-up L (suc l) v v' le h = elim (Bool-cases (L == suc l)) [
  | inl eq ↦ let e : L ≡ suc l = ground arith in rw e at h
  | inr ne ↦
      prefix-suc l v'
      ∙ ap (λ x. x / 512) (prefix-up L l v v' (ground arith) h)
      ∙ sym (prefix-suc l v)
]

-- What the loop leaves: a well-formed tree that translates the page numbers of the new leaf to it,
-- and the others as before.
pub record Mapped (svpbmt : Bool) (owner : Owner) (s : PhysMem)
    (pt_ppn d l v ppn pte_level flags : ℕ) (s' : PhysMem) : Type 0 where
  pub owner' : Owner
  pub extends : Extends owner owner'
  pub wf : WellFormed owner' s'.ptes
  pub fresh : Fresh owner' s'.fresh
  pub enough : length s.fresh ≤ d + length s'.fresh
  pub rest :
      (p k pre i : ℕ)
      → owner p ≡ some (k, pre)
      → i < 512
      → (l < k) ⊎ (pre ≢ prefix (suc k) v)
      → s'.ptes (entry_paddr p i) ≡ s.ptes (entry_paddr p i)
  pub hit :
      (v' : ℕ)
      → prefix pte_level v' ≡ prefix pte_level v
      → view s'.ptes (suc l) pt_ppn v'
        ≡ some
            (ppn + v' % 2 ^ (9 * pte_level), mmu_pte_get_flags (mmu_pte_new_leaf svpbmt ppn flags))
  pub miss :
      (v' : ℕ)
      → prefix (suc l) v' ≡ prefix (suc l) v
      → prefix pte_level v' ≢ prefix pte_level v
      → view s'.ptes (suc l) pt_ppn v' ≡ view s.ptes (suc l) pt_ppn v'

-- A write to the entry of `v` misses the entries of other page numbers.
pub off-path :
    (owner : Owner) (p l v q k v' : ℕ)
    → owner p ≡ some (l, prefix (suc l) v)
    → owner q ≡ some (k, prefix (suc k) v')
    → prefix l v' ≢ prefix l v
    → pte_paddr q v' k ≢ pte_paddr p v l
off-path owner p l v q k v' own o ne e =
    let (same, part) = paddr-inj {p = q} {q = p} (part-lt v' k) (part-lt v l) e in
    let o' : owner p ≡ some (k, prefix (suc k) v') = rw (sym same) o in
    let level : k ≡ l = ground arith in
    let top : prefix (suc l) v ≡ prefix (suc k) v' = ground arith in
    let part' : mmu_vpn_part v' l ≡ mmu_vpn_part v l = ap (mmu_vpn_part v') (sym level) ∙ part in
    let top' : prefix (suc l) v' ≡ prefix (suc l) v =
      ap (λ j. prefix (suc j) v') (sym level) ∙ sym top in
    ne (prefix-part l v' ∙ omega (arith, part', top') ∙ sym (prefix-part l v))

-- A table elsewhere in the tree has none of the entries on the way to `v` at level `l`.
pub off-table :
    (owner : Owner) (p l v q k pre i : ℕ)
    → owner p ≡ some (l, prefix (suc l) v)
    → owner q ≡ some (k, pre)
    → i < 512
    → (l < k) ⊎ (pre ≢ prefix (suc k) v)
    → entry_paddr q i ≢ pte_paddr p v l
off-table owner p l v q k pre i own o hi cond e =
    let (same, _) = paddr-inj {p = q} {q = p} hi (part-lt v l) e in
    let o' : owner p ≡ some (k, pre) = rw (sym same) o in
    let level : l ≡ k = ground arith in
    let top : prefix (suc l) v ≡ pre = ground arith in
    elim cond [ inl lt ↦ omega arith | inr ne ↦ ne (sym top ∙ ap (λ j. prefix (suc j) v) level) ]

module _ (svpbmt : Bool) (ppn L flags : ℕ) (bound : ppn < 2 ^ 44) (aligned : ppn % 2 ^ (9 * L) ≡ 0)
    (access : flags % 8 ≢ 0) where
  abbrev new : Pte
  new = mmu_pte_new_leaf svpbmt ppn flags

  new-ppn : new.ppn ≡ ppn
  unfolding mmu_pte_new_leaf
  new-ppn = omega arith

  new-leaf : (new.v ≡ true) × (mmu_pte_is_leaf new ≡ true) × (new.rwx < 8)
  unfolding mmu_pte_new_leaf
  new-leaf =
      let e : bit_and flags 7 ≡ flags % 8 = bit_and-ones 3 flags in
      (ground arith, ground arith, omega arith)

  new-EntryOk : (owner : Owner) (pre i : ℕ) → EntryOk owner L pre i new
  new-EntryOk owner pre i =
      EntryOk.leaf new-leaf.0 new-leaf.1 new-leaf.2 (omega (arith, new-ppn)) (rw new-ppn aligned)

  pub map_leaf-Mapped :
      (owner : Owner) (s : PhysMem) (p v : ℕ)
      → WellFormed owner s.ptes
      → Fresh owner s.fresh
      → owner p ≡ some (L, prefix (suc L) v)
      → Mapped svpbmt owner s p 0 L v ppn L flags
          (record s { ptes = mmu_write_pte s.ptes (pte_paddr p v L) new })
  map_leaf-Mapped owner s p v wf free own = record {
    owner' = owner;
    extends = λ q k pre o. o;
    wf = λ q k pre i o hi. elim (Bool-cases (entry_paddr q i == pte_paddr p v L)) [
      | inl e ↦
          let (same, _) = paddr-inj {p = q} {q = p} hi (part-lt v L) (ground arith) in
          let o' = rw same at o in
          let level : L ≡ k = ground arith in
          let entry : mmu_write_pte s.ptes (pte_paddr p v L) new (entry_paddr q i) ≡ new =
            ground arith in
          rw (entry, ← level) (new-EntryOk owner pre i)
      | inr ne ↦
          let entry : mmu_write_pte s.ptes (pte_paddr p v L) new (entry_paddr q i)
              ≡ s.ptes (entry_paddr q i) =
            ground arith in
          rw entry (wf q k pre i o hi)
    ];
    fresh = free;
    enough = omega arith;
    rest = λ q k pre i o hi cond.
        let off = off-table owner p L v q k pre i own o hi cond in ground arith;
    hit = λ v' same.
        let part = part-same L v v' same in
        let entry : mmu_write_pte s.ptes (pte_paddr p v L) new (pte_paddr p v' L) ≡ new =
          rw part (ground arith) in
        view-leaf _ L p v' entry new-leaf.0 new-leaf.1 (rw new-ppn aligned) ∙ rw new-ppn refl;
    miss = λ v' top ne.
        view-frame s.ptes (mmu_write_pte s.ptes (pte_paddr p v L) new) wf L p v' (own ∙ rw top refl)
          (λ q k le o. let off = off-path owner p L v q k v' own o ne in ground arith);
  }
