-- ===== src/PageTable/Map.antt =====
-- `pt_map_1`: one round on top of the rounds below, and the whole.
use badger_os.Base.{
  ℕ, zero, suc, ◌+◌, ◌-◌, ◌*◌, ◌%◌, ◌^◌, ◌≤◌, ◌<◌, ◌≡◌, refl, ◌∙◌, ap, sym, arith, ◌≢◌, ◌⊎◌, inl,
  inr,
}
use badger_os.Base.{Bool, true, ◌&&◌, ◌||◌, some, length, ◌==◌, Bool-cases, ltb, ltb→lt}
use badger_os.Mmu.{Ptes, mmu_pte_is_leaf, mmu_pte_new_leaf, mmu_pte_get_flags}
use badger_os.PageTable.{
  PtWalk, PhysMem, walk_levels, map_step, map_levels, pt_map_1, entry_paddr, pte_paddr,
}
use badger_os.PageTable.Owner.{
  Owner, EntryOk, WellFormed, prefix, part-lt, view, view-table, view-frame, walk-leaf,
}
use badger_os.PageTable.Attach.{Fresh, Stepped}
use badger_os.PageTable.Step.{map_step-Stepped}
use badger_os.PageTable.Table.{part-same}
use badger_os.PageTable.Levels.{Mapped, prefix-up, off-path, off-table, map_leaf-Mapped}

-- The walk to `v` ends at no large page above `pte_level` but one of 512 pages.
abbrev pub Splittable : Ptes → (levels pt_ppn v pte_level : ℕ) → Type 0
Splittable ptes levels pt_ppn v pte_level =
    (w : PtWalk)
    → walk_levels ptes levels pt_ppn v ≡ some w
    → w.found ≡ true
    → (w.level ≤ pte_level) ⊎ (w.level ≡ 1)

Splittable-entry :
    {owner : Owner} (m : Ptes) (l p v L : ℕ)
    → WellFormed owner m
    → owner p ≡ some (suc l, prefix (suc (suc l)) v)
    → L ≤ l
    → Splittable m (suc (suc l)) p v L
    → (m (pte_paddr p v (suc l))).v ≡ true
    → mmu_pte_is_leaf (m (pte_paddr p v (suc l))) ≡ true
    → l ≡ 0
Splittable-entry m l p v L wf own le split h is_leaf =
    elim (wf p (suc l) _ _ own (part-lt v (suc l))) [
      | EntryOk.absent a ↦ absurd (let z = sym h ∙ a in cc)
      | EntryOk.table k e a b c ↦ absurd (let z = sym is_leaf ∙ b in cc)
      | EntryOk.leaf a b c d e ↦
          let (w, walk, found, level) = walk-leaf m (suc l) p v h is_leaf e in
          elim (split w walk found) [ inl low ↦ absurd (omega arith) | inr one ↦ omega arith ]
    ]

module _ (svpbmt : Bool) (owner : Owner) (s s1 s' : PhysMem) (p next d l v ppn L flags : ℕ)
    (wf : WellFormed owner s.ptes) (own : owner p ≡ some (suc l, prefix (suc (suc l)) v))
    (le : L ≤ l) (step : Stepped owner s p l v next s1)
    (below : Mapped svpbmt step.owner1 s1 next d l v ppn L flags s') where
  round-rest :
      (q k pre i : ℕ)
      → owner q ≡ some (k, pre)
      → i < 512
      → (suc l < k) ⊎ (pre ≢ prefix (suc k) v)
      → s'.ptes (entry_paddr q i) ≡ s.ptes (entry_paddr q i)
  round-rest q k pre i o hi cond =
      let cond' : (l < k) ⊎ (pre ≢ prefix (suc k) v) = elim cond [
        | inl lt ↦ inl (omega arith)
        | inr ne ↦ inr ne
      ] in
      below.rest q k pre i (step.extends q k pre o) hi cond'
      ∙ step.other q k pre i o hi (off-table owner p (suc l) v q k pre i own o hi cond)

  -- A walk that takes the entry of `v` goes on in the table below.
  round-down :
      (v' : ℕ)
      → prefix (suc l) v' ≡ prefix (suc l) v
      → view s'.ptes (suc (suc l)) p v' ≡ view s'.ptes (suc l) next v'
  round-down v' same =
      let (valid, is_leaf, ppn_next) = step.link in
      let part = part-same (suc l) v v' same in
      let kept : s'.ptes (pte_paddr p v (suc l)) ≡ s1.ptes (pte_paddr p v (suc l)) =
        below.rest p (suc l) _ _ (step.extends p _ _ own) (part-lt v (suc l)) (inl (omega arith)) in
      let entry : s'.ptes (pte_paddr p v' (suc l)) ≡ s1.ptes (pte_paddr p v (suc l)) =
        rw part kept in
      view-table s'.ptes (suc l) p v' entry valid is_leaf ∙ rw ppn_next refl

  -- Any other walk meets what it met before.
  round-off :
      (v' : ℕ)
      → prefix (suc (suc l)) v' ≡ prefix (suc (suc l)) v
      → prefix (suc l) v' ≢ prefix (suc l) v
      → view s'.ptes (suc (suc l)) p v' ≡ view s.ptes (suc (suc l)) p v'
  round-off v' top ne = view-frame s.ptes s'.ptes wf (suc l) p v' (own ∙ rw top refl) (λ q k k_le o.
      let cond : (l < k) ⊎ (prefix (suc k) v' ≢ prefix (suc k) v) = elim (Bool-cases (ltb l k)) [
        | inl lt ↦ inl (ltb→lt l k lt)
        | inr ge ↦ inr (λ same. ne (prefix-up (suc k) (suc l) v v' (ground arith) same))
      ] in
      below.rest q k _ _ (step.extends q k _ o) (part-lt v' k) cond
      ∙ step.other q k _ _ o (part-lt v' k) (off-path owner p (suc l) v q k v' own o ne))

  round-hit :
      (v' : ℕ)
      → prefix L v' ≡ prefix L v
      → view s'.ptes (suc (suc l)) p v'
        ≡ some (ppn + v' % 2 ^ (9 * L), mmu_pte_get_flags (mmu_pte_new_leaf svpbmt ppn flags))
  round-hit v' same =
      round-down v' (prefix-up L (suc l) v v' (omega arith) same) ∙ below.hit v' same

  round-miss :
      (v' : ℕ)
      → prefix (suc (suc l)) v' ≡ prefix (suc (suc l)) v
      → prefix L v' ≢ prefix L v
      → view s'.ptes (suc (suc l)) p v' ≡ view s.ptes (suc (suc l)) p v'
  round-miss v' top ne = elim (Bool-cases (prefix (suc l) v' == prefix (suc l) v)) [
    | inl e ↦
        let same : prefix (suc l) v' ≡ prefix (suc l) v = ground arith in
        round-down v' same ∙ below.miss v' same ne ∙ step.same v' same
    | inr e ↦ let off : prefix (suc l) v' ≢ prefix (suc l) v = ground arith in round-off v' top off
  ]

  round-Mapped : Mapped svpbmt owner s p (suc d) (suc l) v ppn L flags s'
  round-Mapped = record {
    owner' = below.owner';
    extends = λ q k pre o. below.extends q k pre (step.extends q k pre o);
    wf = below.wf;
    fresh = below.fresh;
    enough = omega (arith, step.enough, below.enough);
    rest = round-rest;
    hit = round-hit;
    miss = round-miss;
  }

map_levels-round :
    (svpbmt : Bool) (d orig p v ppn L flags : ℕ) (top_edit : Bool) (s : PhysMem) {next : ℕ}
    {edited : Bool} {s1 : PhysMem}
    → map_step svpbmt p (L + suc d) v s ≡ some (next, edited, s1)
    → map_levels svpbmt (suc d) orig p v ppn L flags top_edit s
      ≡ map_levels svpbmt d orig next v ppn L flags (top_edit || (edited && (orig == L + suc d))) s1
unfolding map_levels
map_levels-round svpbmt d orig p v ppn L flags top_edit s h = rw (map_levels, h) refl

module _ (svpbmt : Bool) (v ppn L flags : ℕ) (bound : ppn < 2 ^ 44)
    (aligned : ppn % 2 ^ (9 * L) ≡ 0) (access : flags % 8 ≢ 0) where
  map_levels-Mapped :
      (d l orig p : ℕ) (owner : Owner) (s : PhysMem) (top_edit : Bool)
      → l ≡ L + d
      → WellFormed owner s.ptes
      → Fresh owner s.fresh
      → d ≤ length s.fresh
      → owner p ≡ some (l, prefix (suc l) v)
      → Splittable s.ptes (suc l) p v L
      → (edited : Bool) × (s' : PhysMem) × (map_levels svpbmt d orig p v ppn L flags top_edit s
          ≡ some (edited, s'))
        × Mapped svpbmt owner s p d l v ppn L flags s'
  unfolding map_levels
  map_levels-Mapped zero l orig p owner s top_edit e wf free enough own split =
      let here : L ≡ l = omega arith in
      (
        top_edit,
        _,
        refl,
        rw (← here) (
            map_leaf-Mapped svpbmt ppn L flags bound aligned access owner s p v wf free
              (rw here own)),
      )
  map_levels-Mapped (suc d) zero orig p owner s top_edit e wf free enough own split =
      absurd (omega arith)
  map_levels-Mapped (suc d) (suc l) orig p owner s top_edit e wf free enough own split =
      let low = Splittable-entry s.ptes l p v L wf own (omega arith) split in
      let (next, edited, s1, step_eq, step) =
        map_step-Stepped svpbmt owner s.ptes s.fresh p l v wf free (omega arith) own low in
      let split1 : Splittable s1.ptes (suc l) next v L = λ w walk found.
        elim (step.walk w walk found) [ inl old ↦ split w old found | inr z ↦ inl (omega arith) ] in
      let (top, s', run, below) =
        map_levels-Mapped d l orig next step.owner1 s1 (top_edit || (edited && (orig == L + suc d)))
          (omega arith) step.wf step.fresh (omega (arith, step.enough)) step.child split1 in
      let level : L + suc d ≡ suc l = sym e in
      (
        top,
        s',
        map_levels-round svpbmt d orig p v ppn L flags top_edit s
              (ap (λ j. map_step svpbmt p j v s) level ∙ step_eq)
            ∙ run,
        round-Mapped svpbmt owner s s1 s' p next d l v ppn L flags wf own (omega arith) step below,
      )

  -- For well-formed tables, a table of level `l` on the way of `v`, some right in the flags, a physical
  -- page below 2^44 and aligned to the new leaf, a fresh page for each level to go down, and no larger
  -- page on the way but one of 512 pages: `pt_map_1` returns. The tables stay well formed, the page
  -- numbers that share the new leaf are translated to its pages with its flags, and the others that the
  -- table covers as before.
  pub pt_map_1-Mapped :
      (l p : ℕ) (owner : Owner) (s : PhysMem)
      → L ≤ l
      → WellFormed owner s.ptes
      → Fresh owner s.fresh
      → l - L ≤ length s.fresh
      → owner p ≡ some (l, prefix (suc l) v)
      → Splittable s.ptes (suc l) p v L
      → (edited : Bool) × (s' : PhysMem) × (pt_map_1 svpbmt p l v ppn L flags s ≡ some (edited, s'))
        × Mapped svpbmt owner s p (l - L) l v ppn L flags s'
  unfolding pt_map_1
  pt_map_1-Mapped l p owner s le wf free enough own split =
      map_levels-Mapped (l - L) l l p owner s (l == L) (omega arith) wf free enough own split
