-- ===== src/PageTable/Attach.antt =====
-- A fresh page that becomes a table of the tree.
use badger_os.Base.{
  ℕ, suc, ◌+◌, ◌*◌, ◌^◌, ◌≤◌, ◌<◌, ◌≡◌, refl, ◌∙◌, ap, sym, arith, ◌≢◌, ◌⊎◌, inl, inr,
}
use badger_os.Base.{
  Bool, true, false, not, ◌&&◌, none, some, List, [], ◌∷◌, length, ◌==◌, if◌then◌else◌, Bool-cases,
}
use badger_os.Mmu.{Ptes, mmu_pte_is_leaf, mmu_pte_new}
use badger_os.PageTable.{PtWalk, PhysMem, walk_levels, entry_paddr, pte_paddr}
use badger_os.PageTable.Owner.{
  Owner, EntryOk, WellFormed, Extends, EntryOk-mono, prefix, prefix-part, part-lt, paddr-inj, view,
}

abbrev pub apart : ℕ → List ℕ → Bool
apart p [] = true
apart p (q ∷ qs) = not (q == p) && apart p qs

-- The pages still to be given out: they hold no table, and no page is given out twice.
pub data Fresh (owner : Owner) : List ℕ → Type 0 where
  empty : Fresh owner []
  page :
      {p : ℕ} {ps : List ℕ}
      → owner p ≡ none
      → 0 < p
      → p < 2 ^ 44
      → apart p ps ≡ true
      → Fresh owner ps
      → Fresh owner (p ∷ ps)

abbrev pub put : Owner → ℕ → ℕ × ℕ → Owner
put owner n x p = if p == n then some x else owner p

pub Fresh-put :
    {owner : Owner} (n : ℕ) (x : ℕ × ℕ) {ps : List ℕ}
    → apart n ps ≡ true
    → Fresh owner ps
    → Fresh (put owner n x) ps
Fresh-put n x h Fresh.empty = Fresh.empty
Fresh-put {owner} n x h (Fresh.page {p} {ps} a b c d rest) =
    Fresh.page (ground arith) b c d (Fresh-put n x (ground arith) rest)

pub Extends-put :
    (owner : Owner) (n : ℕ) (x : ℕ × ℕ) → owner n ≡ none → Extends owner (put owner n x)
Extends-put owner n x h p l pre o = elim (Bool-cases (p == n)) [
  | inl e ↦ let same : p ≡ n = ground arith in absurd (let o' = rw same at o in cc)
  | inr e ↦ simp (e) o
]

-- What a round of `pt_map_1` at level `suc l` leaves for the rounds below.
pub record Stepped (owner : Owner) (s : PhysMem) (pt_ppn l v next : ℕ) (s1 : PhysMem) : Type 0 where
  pub owner1 : Owner
  pub extends : Extends owner owner1
  pub wf : WellFormed owner1 s1.ptes
  pub fresh : Fresh owner1 s1.fresh
  pub enough : length s.fresh ≤ suc (length s1.fresh)
  pub child : owner1 next ≡ some (l, prefix (suc l) v)
  pub link :
      ((s1.ptes (pte_paddr pt_ppn v (suc l))).v ≡ true)
      × (mmu_pte_is_leaf (s1.ptes (pte_paddr pt_ppn v (suc l))) ≡ false)
      × ((s1.ptes (pte_paddr pt_ppn v (suc l))).ppn ≡ next)
  pub other :
      (p k pre i : ℕ)
      → owner p ≡ some (k, pre)
      → i < 512
      → entry_paddr p i ≢ pte_paddr pt_ppn v (suc l)
      → s1.ptes (entry_paddr p i) ≡ s.ptes (entry_paddr p i)
  pub same :
      (v' : ℕ)
      → prefix (suc l) v' ≡ prefix (suc l) v
      → view s1.ptes (suc l) next v' ≡ view s.ptes (suc (suc l)) pt_ppn v'
  pub walk :
      (w : PtWalk)
      → walk_levels s1.ptes (suc l) next v ≡ some w
      → w.found ≡ true
      → (walk_levels s.ptes (suc (suc l)) pt_ppn v ≡ some w) ⊎ (w.level ≡ 0)

mmu_pte_new-ppn : (n : ℕ) → n < 2 ^ 44 → (mmu_pte_new n).ppn ≡ n
unfolding mmu_pte_new
mmu_pte_new-ppn n h = omega arith

mmu_pte_new-table : (n : ℕ) → ((mmu_pte_new n).v ≡ true) × (mmu_pte_is_leaf (mmu_pte_new n) ≡ false)
unfolding mmu_pte_new
mmu_pte_new-table n = (refl, refl)

EntryOk-eq :
    {owner : Owner} (m : Ptes) {l l' pre pre' p p' i : ℕ}
    → l ≡ l'
    → pre ≡ pre'
    → p' ≡ p
    → EntryOk owner l pre i (m (entry_paddr p i))
    → EntryOk owner l' pre' i (m (entry_paddr p' i))
EntryOk-eq m a b c h = rw (c, ← a, ← b) h

pub Fresh-none : {owner : Owner} {n : ℕ} {ps : List ℕ} → Fresh owner (n ∷ ps) → owner n ≡ none
Fresh-none (Fresh.page a b c d rest) = a

pub Fresh-pos : {owner : Owner} {n : ℕ} {ps : List ℕ} → Fresh owner (n ∷ ps) → 0 < n
Fresh-pos (Fresh.page a b c d rest) = b

Fresh-lt : {owner : Owner} {n : ℕ} {ps : List ℕ} → Fresh owner (n ∷ ps) → n < 2 ^ 44
Fresh-lt (Fresh.page a b c d rest) = c

Fresh-rest :
    {owner : Owner} {n : ℕ} (x : ℕ × ℕ) {ps : List ℕ}
    → Fresh owner (n ∷ ps)
    → Fresh (put owner n x) ps
Fresh-rest {n} x (Fresh.page a b c d rest) = Fresh-put n x d rest

module _ (owner : Owner) (m m1 : Ptes) (n : ℕ) (ps : List ℕ) (pt_ppn l v : ℕ)
    (wf : WellFormed owner m) (free : Fresh owner (n ∷ ps))
    (own : owner pt_ppn ≡ some (suc l, prefix (suc (suc l)) v))
    (at_link : m1 (pte_paddr pt_ppn v (suc l)) ≡ mmu_pte_new n)
    (at_other : (p i : ℕ)
      → p ≢ n
      → i < 512
      → entry_paddr p i ≢ pte_paddr pt_ppn v (suc l)
      → m1 (entry_paddr p i) ≡ m (entry_paddr p i)) where
  abbrev attached : Owner
  attached = put owner n (l, prefix (suc l) v)

  attached-here : attached n ≡ some (l, prefix (suc l) v)
  attached-here = ground arith

  attach-other :
      (p k pre i : ℕ)
      → owner p ≡ some (k, pre)
      → i < 512
      → entry_paddr p i ≢ pte_paddr pt_ppn v (suc l)
      → m1 (entry_paddr p i) ≡ m (entry_paddr p i)
  attach-other p k pre i o hi ne =
      at_other p i (λ e. let free_n = Fresh-none free in let o' = rw e at o in cc) hi ne

  attach-WellFormed :
      ((i : ℕ) → i < 512 → EntryOk attached l (prefix (suc l) v) i (m1 (entry_paddr n i)))
      → WellFormed attached m1
  attach-WellFormed new p k pre i o hi = elim (Bool-cases (p == n)) [
    | inl e ↦
        let here : p ≡ n = ground arith in
        let level : l ≡ k = ground arith in
        let top : prefix (suc l) v ≡ pre = ground arith in EntryOk-eq m1 level top here (new i hi)
    | inr e ↦
        let old : owner p ≡ some (k, pre) = simp (e) at o in
        elim (Bool-cases (entry_paddr p i == pte_paddr pt_ppn v (suc l))) [
          | inl at ↦
              let (here, index) =
                paddr-inj {p = p} {q = pt_ppn} hi (part-lt v (suc l)) (ground arith) in
              let level : suc l ≡ k = let old' = rw here at old in ground arith in
              let top : prefix (suc (suc l)) v ≡ pre = let old' = rw here at old in ground arith in
              let entry : m1 (entry_paddr p i) ≡ mmu_pte_new n = rw (here, index) at_link in
              let down : put owner n (l, prefix (suc l) v) ((mmu_pte_new n).ppn)
                  ≡ some (l, pre * 512 + i) =
                rw (mmu_pte_new-ppn n (Fresh-lt free), ← top, index)
                  (attached-here ∙ ap (λ x. some (l, x)) (prefix-part (suc l) v)) in
              rw entry
                (EntryOk.table l (sym level) (mmu_pte_new-table n).0 (mmu_pte_new-table n).1 down)
          | inr off ↦
              let same : m1 (entry_paddr p i) ≡ m (entry_paddr p i) =
                attach-other p k pre i old hi (λ z. ground arith) in
              rw same (EntryOk-mono (Extends-put owner n _ (Fresh-none free)) (wf p k pre i old hi))
        ]
  ]

  pub attach :
      ((i : ℕ) → i < 512 → EntryOk attached l (prefix (suc l) v) i (m1 (entry_paddr n i)))
      → ((v' : ℕ)
          → prefix (suc l) v' ≡ prefix (suc l) v
          → view m1 (suc l) n v' ≡ view m (suc (suc l)) pt_ppn v')
      → ((w : PtWalk)
          → walk_levels m1 (suc l) n v ≡ some w
          → w.found ≡ true
          → (walk_levels m (suc (suc l)) pt_ppn v ≡ some w) ⊎ (w.level ≡ 0))
      → Stepped owner
          (record { ptes = m; fresh = n ∷ ps })
          pt_ppn
          l
          v
          n
          (record { ptes = m1; fresh = ps })
  attach new same walk = record {
    owner1 = attached;
    extends = Extends-put owner n _ (Fresh-none free);
    wf = attach-WellFormed new;
    fresh = Fresh-rest _ free;
    enough = omega arith;
    child = attached-here;
    link = (
      rw at_link (mmu_pte_new-table n).0,
      rw at_link (mmu_pte_new-table n).1,
      rw at_link (mmu_pte_new-ppn n (Fresh-lt free)),
    );
    other = attach-other;
    same = same;
    walk = walk;
  }
