-- ===== src/PageTable/Owner.antt =====
-- Which table a page holds, when the entries of a tree of page tables are well formed, and what the
-- tree translates a page number to.
use native.Mathlib.Nat.{pow-suc, div-div-eq-div-mul}
use badger_os.Base.{ℕ, zero, suc, ◌+◌, ◌*◌, ◌/◌, ◌%◌, ◌^◌, ◌≤◌, ◌<◌, ◌≡◌, refl, ◌∙◌, ap, sym, arith}
use badger_os.Base.{true, false, Option, none, some, if◌then◌else◌}
use badger_os.Bits.Mask.{bit_and-ones}
use badger_os.Mmu.{Pte, Ptes, mmu_pte_is_leaf, mmu_pte_get_flags, mmu_vpn_part}
use badger_os.Mmu.Flags.{mmu_vpn_part_lem}
use badger_os.PageTable.{PtWalk, walk_levels, entry_paddr, pte_paddr, misaligned}

-- The part of a page number above the entry of level `l` that covers it.
abbrev pub prefix : (l v : ℕ) → ℕ
prefix l v = v / 2 ^ (9 * l)

pub span-suc : (l : ℕ) → 2 ^ (9 * suc l) ≡ 2 ^ (9 * l) * 512
span-suc l =
    let e : 9 * suc l ≡ suc (suc (suc (suc (suc (suc (suc (suc (suc (9 * l))))))))) = omega arith in
    rw e (
      rw (pow-suc, pow-suc, pow-suc, pow-suc, pow-suc, pow-suc, pow-suc, pow-suc, pow-suc)
        (omega arith))

pub prefix-suc : (l v : ℕ) → prefix (suc l) v ≡ prefix l v / 512
prefix-suc l v = rw (span-suc l) (sym (div-div-eq-div-mul v (2 ^ (9 * l)) 512))

pub part-lt : (v l : ℕ) → mmu_vpn_part v l < 512
part-lt v l = omega (arith, mmu_vpn_part_lem v l)

pub prefix-part : (l v : ℕ) → prefix l v ≡ prefix (suc l) v * 512 + mmu_vpn_part v l
prefix-part l v = omega (arith, prefix-suc l v, mmu_vpn_part_lem v l)

pub paddr-inj :
    {p q i j : ℕ} → i < 512 → j < 512 → entry_paddr p i ≡ entry_paddr q j → (p ≡ q) × (i ≡ j)
paddr-inj hi hj h = (omega arith, omega arith)

-- The level of the table in a page, and the prefix of the page numbers that it covers.
abbrev pub Owner : Type 0
Owner = ℕ → Option (ℕ × ℕ)

-- Entry `e` of a table of level `l` at index `i`.
pub data EntryOk (owner : Owner) (l pre i : ℕ) (e : Pte) : Type 0 where
  absent : e.v ≡ false → EntryOk owner l pre i e
  leaf :
      e.v ≡ true
      → mmu_pte_is_leaf e ≡ true
      → e.rwx < 8
      → e.ppn < 2 ^ 44
      → e.ppn % 2 ^ (9 * l) ≡ 0
      → EntryOk owner l pre i e
  table :
      (k : ℕ)
      → l ≡ suc k
      → e.v ≡ true
      → mmu_pte_is_leaf e ≡ false
      → owner e.ppn ≡ some (k, pre * 512 + i)
      → EntryOk owner l pre i e

abbrev pub WellFormed : Owner → Ptes → Type 0
WellFormed owner ptes =
    (p l pre i : ℕ)
    → owner p ≡ some (l, pre)
    → i < 512
    → EntryOk owner l pre i (ptes (entry_paddr p i))

-- Every table stays what it is.
abbrev pub Extends : Owner → Owner → Type 0
Extends owner owner' = (p l pre : ℕ) → owner p ≡ some (l, pre) → owner' p ≡ some (l, pre)

pub EntryOk-mono :
    {owner owner' : Owner} {l pre i : ℕ} {e : Pte}
    → Extends owner owner'
    → EntryOk owner l pre i e
    → EntryOk owner' l pre i e
EntryOk-mono ext (EntryOk.absent h) = EntryOk.absent h
EntryOk-mono ext (EntryOk.leaf h a b c d) = EntryOk.leaf h a b c d
EntryOk-mono {e} ext (EntryOk.table k s h a b) = EntryOk.table k s h a (ext e.ppn _ _ b)

-- The physical page and the flags that a walk ends with, if the page is mapped.
unfoldable pub frame : PtWalk → ℕ → Option (ℕ × ℕ)
frame w v =
    if w.found then some (w.pte.ppn + v % 2 ^ (9 * w.level), mmu_pte_get_flags w.pte) else none

unfoldable pub view : Ptes → (levels pt_ppn vpn : ℕ) → Option (ℕ × ℕ)
view ptes levels pt_ppn v = elim (walk_levels ptes levels pt_ppn v) [
  | none ↦ none
  | some w ↦ frame w v
]

pub view-absent :
    (m : Ptes) (l p v : ℕ) → (m (pte_paddr p v l)).v ≡ false → view m (suc l) p v ≡ none
unfolding view walk_levels frame
view-absent m l p v h = ground arith

aligned-ok : (ppn l : ℕ) → ppn % 2 ^ (9 * l) ≡ 0 → misaligned ppn l ≡ false
aligned-ok ppn l h = let e = bit_and-ones (9 * l) ppn in ground arith

pub view-leaf :
    (m : Ptes) (l p v : ℕ) {e : Pte}
    → m (pte_paddr p v l) ≡ e
    → e.v ≡ true
    → mmu_pte_is_leaf e ≡ true
    → e.ppn % 2 ^ (9 * l) ≡ 0
    → view m (suc l) p v ≡ some (e.ppn + v % 2 ^ (9 * l), mmu_pte_get_flags e)
unfolding view walk_levels frame
view-leaf m l p v {e} he h a b = let c = aligned-ok e.ppn l b in ground arith

-- Such a leaf ends every walk that comes by it.
pub walk-leaf :
    (m : Ptes) (l p v : ℕ)
    → (m (pte_paddr p v l)).v ≡ true
    → mmu_pte_is_leaf (m (pte_paddr p v l)) ≡ true
    → (m (pte_paddr p v l)).ppn % 2 ^ (9 * l) ≡ 0
    → (w : PtWalk) × (walk_levels m (suc l) p v ≡ some w) × (w.found ≡ true) × (w.level ≡ l)
unfolding walk_levels
walk-leaf m l p v h a b =
    let c = aligned-ok ((m (pte_paddr p v l)).ppn) l b in
    let w : PtWalk = record {
      paddr = pte_paddr p v l;
      pte = m (pte_paddr p v l);
      level = l;
      found = true;
      vaddr_valid = true;
    } in
    (w, simp (h, a, c) refl, refl, refl)

pub view-table :
    (m : Ptes) (l p v : ℕ) {e : Pte}
    → m (pte_paddr p v l) ≡ e
    → e.v ≡ true
    → mmu_pte_is_leaf e ≡ false
    → view m (suc l) p v ≡ view m l e.ppn v
unfolding view walk_levels
view-table m l p v {e} he h a = ground arith

view-entry :
    {owner : Owner} {pre i : ℕ} (m m' : Ptes) (l p v : ℕ)
    → EntryOk owner l pre i (m (pte_paddr p v l))
    → m' (pte_paddr p v l) ≡ m (pte_paddr p v l)
    → ((k : ℕ)
        → l ≡ suc k
        → owner ((m (pte_paddr p v l)).ppn) ≡ some (k, pre * 512 + i)
        → view m' l ((m (pte_paddr p v l)).ppn) v ≡ view m l ((m (pte_paddr p v l)).ppn) v)
    → view m' (suc l) p v ≡ view m (suc l) p v
view-entry m m' l p v (EntryOk.absent h) here rest =
    view-absent m' l p v (ap (λ x. x.v) here ∙ h) ∙ sym (view-absent m l p v h)
view-entry m m' l p v (EntryOk.leaf h a _ _ b) here rest =
    view-leaf m' l p v here h a b ∙ sym (view-leaf m l p v refl h a b)
view-entry m m' l p v (EntryOk.table k s h a b) here rest =
    view-table m' l p v here h a ∙ rest k s b ∙ sym (view-table m l p v refl h a)

-- A change of entries off the way to a page number leaves its translation.
pub view-frame :
    {owner : Owner} (m m' : Ptes)
    → WellFormed owner m
    → (l p v : ℕ) → owner p ≡ some (l, prefix (suc l) v)
    → ((q k : ℕ)
        → k ≤ l
        → owner q ≡ some (k, prefix (suc k) v)
        → m' (pte_paddr q v k) ≡ m (pte_paddr q v k))
    → view m' (suc l) p v ≡ view m (suc l) p v
view-frame m m' wf zero p v own same =
    view-entry m m' zero p v (wf p zero _ _ own (part-lt v zero)) (same p zero (omega arith) own)
      (λ k s b. absurd (omega arith))
view-frame {owner} m m' wf (suc l) p v own same =
    view-entry m m' (suc l) p v (wf p (suc l) _ _ own (part-lt v (suc l)))
      (same p (suc l) (omega arith) own)
      (λ k s b.
        let down : owner ((m (pte_paddr p v (suc l))).ppn) ≡ some (l, prefix (suc l) v) =
          let level : k ≡ l = omega arith in b ∙ rw (level, prefix-part (suc l) v) in
        view-frame m m' wf l _ v down (λ q j h o. same q j (omega arith) o))
