-- ===== src/PageTable/Translate.antt =====
-- `pt_walk` and `memprotect_virt2phys` on well-formed tables.
use native.Mathlib.Nat.{div-add-mod, div-div-eq-div-mul, mul_assoc, one-le-pow}
use badger_os.Base.{
  ℕ, zero, suc, ◌+◌, ◌-◌, ◌*◌, ◌%◌, ◌/◌, ◌^◌, ◌<◌, ◌≡◌, refl, ◌∙◌, ap, sym, arith, inl, inr,
}
use badger_os.Base.{true, false, some, Bool-cases, Option-cases, leb}
use badger_os.Bits.Mask.{bit_and-ones, pow-add}
use badger_os.Mmu.{Ptes}
use badger_os.PageTable.{PtWalk, walk_levels, pt_walk, pte_paddr, mmu_half_pages}
use badger_os.PageTable.Owner.{
  Owner, EntryOk, WellFormed, prefix, prefix-part, part-lt, view, frame, walk-leaf,
}
use badger_os.PageTable.Table.{walk-table}
use badger_os.PageTable.Protect.{Virt2Phys, memprotect_virt2phys, phys_of, mmu_half_size}

walk-invalid :
    (m : Ptes) (l p v : ℕ)
    → (m (pte_paddr p v l)).v ≡ false
    → (w : PtWalk) × (walk_levels m (suc l) p v ≡ some w)
unfolding walk_levels
walk-invalid m l p v h =
    let w : PtWalk = record {
      paddr = pte_paddr p v l;
      pte = m (pte_paddr p v l);
      level = l;
      found = false;
      vaddr_valid = true;
    } in
    (w, simp (h) refl)

-- On well-formed tables a walk ends: it meets no misaligned large page and no table of level 0.
pub walk_levels-total :
    {owner : Owner} (m : Ptes) (l p v : ℕ)
    → WellFormed owner m
    → owner p ≡ some (l, prefix (suc l) v)
    → (w : PtWalk) × (walk_levels m (suc l) p v ≡ some w)
walk_levels-total m zero p v wf own = elim (wf p zero _ _ own (part-lt v zero)) [
  | EntryOk.absent h ↦ walk-invalid m zero p v h
  | EntryOk.leaf h a _ _ b ↦ let (w, e, _, _) = walk-leaf m zero p v h a b in (w, e)
  | EntryOk.table k e _ _ _ ↦ absurd (omega arith)
]
walk_levels-total {owner} m (suc l) p v wf own = elim (wf p (suc l) _ _ own (part-lt v (suc l))) [
  | EntryOk.absent h ↦ walk-invalid m (suc l) p v h
  | EntryOk.leaf h a _ _ b ↦ let (w, e, _, _) = walk-leaf m (suc l) p v h a b in (w, e)
  | EntryOk.table k e h a b ↦
      let level : k ≡ l = omega arith in
      let (w, walk) =
        walk_levels-total {owner = owner} m l _ v wf (b ∙ rw (level, prefix-part (suc l) v) refl) in
      (w, walk-table m (suc l) p v refl h a ∙ walk)
]

-- The offset in a large page is the offset of the page in it and that in the page.
offset :
    (vaddr size : ℕ) → 0 < size → vaddr % (4096 * size) ≡ vaddr / 4096 % size * 4096 + vaddr % 4096
offset vaddr size pos =
    let a = div-add-mod vaddr (4096 * size) in
    let b = div-add-mod (vaddr / 4096) size in
    let c = div-div-eq-div-mul vaddr 4096 size in
    let d : size * (vaddr / 4096 / size) ≡ size * (vaddr / (4096 * size)) = ap (λ x. size * x) c in
    let e = mul_assoc 4096 size (vaddr / (4096 * size)) in omega arith

size-pow : (k : ℕ) → 4096 * 2 ^ (9 * k) ≡ 2 ^ (12 + 9 * k)
size-pow k = sym (pow-add 12 (9 * k))

phys_of-paddr :
    (w : PtWalk) (vaddr : ℕ)
    → (phys_of w vaddr).paddr ≡ (w.pte.ppn + vaddr / 4096 % 2 ^ (9 * w.level)) * 4096 + vaddr % 4096
phys_of-paddr w vaddr =
    let a = bit_and-ones (12 + 9 * w.level) vaddr in
    let b = offset vaddr (2 ^ (9 * w.level)) (one-le-pow (9 * w.level) 2 (omega arith)) in
    rw (size-pow w.level, a, ← size-pow w.level, b) (omega arith)

pub half_size-pages : (l : ℕ) → mmu_half_size (suc l) ≡ 4096 * mmu_half_pages (suc l)
half_size-pages l =
    let e : 11 + 9 * suc l ≡ 12 + (9 * suc l - 1) = omega arith in rw e (pow-add 12 (9 * suc l - 1))

pub low-half : (l vaddr : ℕ) → vaddr < mmu_half_size (suc l) → vaddr / 4096 < mmu_half_pages (suc l)
low-half l vaddr h = let e = half_size-pages l in omega arith

-- What the kernel is told of an address in the lower half that the tables translate.
pub memprotect_virt2phys-view :
    (m : Ptes) (l root vaddr page flags : ℕ)
    → vaddr < mmu_half_size (suc l)
    → view m (suc l) root (vaddr / 4096) ≡ some (page, flags)
    → (r : Virt2Phys) × (memprotect_virt2phys (suc l) m root vaddr ≡ some r)
      × (r.flags ≡ flags)
      × (r.paddr ≡ page * 4096 + vaddr % 4096)
unfolding memprotect_virt2phys pt_walk view frame
memprotect_virt2phys-view m l root vaddr page flags low mapped =
    let low_page = low-half l vaddr low in
    let out : leb (mmu_half_size (suc l)) vaddr ≡ false = ground arith in
    let out_page : leb (mmu_half_pages (suc l)) (vaddr / 4096) ≡ false = ground arith in
    elim (Option-cases (walk_levels m (suc l) root (vaddr / 4096))) [
      | inl e ↦ absurd (let z = rw (view, e) at mapped in cc)
      | inr (w, e) ↦
          let at = rw (view, e) at mapped in
          elim (Bool-cases w.found) [
            | inl found ↦
                let hit = rw (frame, found) at at in
                let page_eq : w.pte.ppn + vaddr / 4096 % 2 ^ (9 * w.level) ≡ page = ground arith in
                (
                  phys_of w vaddr,
                  simp (out, out_page, e, found) refl,
                  ground arith,
                  phys_of-paddr w vaddr ∙ rw page_eq refl,
                )
            | inr lost ↦ absurd (let z = rw (frame, lost) at at in cc)
          ]
    ]
