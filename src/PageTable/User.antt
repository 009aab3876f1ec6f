-- ===== src/PageTable/User.antt =====
-- `memprotect_u` and what `memprotect_virt2phys` reports after it.
use native.Mathlib.Nat.{div-eq_of_lt, pow-le-pow_right}
use badger_os.Base.{
  ℕ, suc, ◌+◌, ◌-◌, ◌*◌, ◌%◌, ◌/◌, ◌^◌, ◌≤◌, ◌<◌, ◌≡◌, refl, ◌∙◌, arith, ◌≢◌, ◌⊎◌, inl, inr,
}
use badger_os.Base.{Bool, true, false, none, some, length, Bool-cases, bit_and, bit_or, ltb}
use badger_os.Bits.Mask.{bit_and-ones}
use badger_os.Memory.{within}
use badger_os.Mmu.{has_flag}
use badger_os.Mmu.Flags.{bit_and-16}
use badger_os.PageTable.{PhysMem, pt_map, mmu_half_pages}
use badger_os.PageTable.Owner.{Owner, WellFormed, prefix, view}
use badger_os.PageTable.Attach.{Fresh}
use badger_os.PageTable.Range.{kept, RangeMapped, pt_map-map_range}
use badger_os.PageTable.Protect.{
  Contexts, Virt2Phys, memprotect_impl, memprotect_u, memprotect_virt2phys, mmu_half_size,
}
use badger_os.PageTable.Translate.{memprotect_virt2phys-view, half_size-pages, low-half}
use badger_os.PageTable.Rights.{rights, granted, granted-rights, bit_or-aligned}

impl-map :
    (svpbmt : Bool) (l root vpn ppn pages flags : ℕ) (c : Contexts) {edited : Bool} {s' : PhysMem}
    → granted flags % 8 ≢ 0
    → granted flags / 16 % 2 ≡ 0
    → pt_map svpbmt pages root l vpn ppn pages (granted flags) false c.mem ≡ some (edited, s')
    → memprotect_impl svpbmt (suc l) root vpn ppn pages flags c ≡ some (record c { mem = s' })
unfolding memprotect_impl
impl-map svpbmt l root vpn ppn pages flags c {edited} access global run =
    let level : suc l - 1 ≡ l = omega arith in
    let rwx : has_flag (granted flags) 7 ≡ true =
      let e = bit_and-ones 3 (granted flags) in ground arith in
    let own : has_flag (granted flags) 16 ≡ false =
      let e = bit_and-16 (granted flags) in ground arith in
    elim (Bool-cases edited) [
      | inl e ↦ rw (memprotect_impl, rwx, level, run, e, own) refl
      | inr e ↦ rw (memprotect_impl, rwx, level, run, e) refl
    ]

-- What a program has of its address space after `memprotect_u`.
pub record UserMapped (owner : Owner) (c : Contexts) (l root vaddr paddr len flags : ℕ)
    (c' : Contexts) : Type 0 where
  pub owner' : Owner
  pub wf : WellFormed owner' c'.mem.ptes
  pub fresh : Fresh owner' c'.mem.fresh
  pub inside :
      (a : ℕ)
      → vaddr ≤ a
      → a < vaddr + len
      → (r : Virt2Phys) × (memprotect_virt2phys (suc l) c'.mem.ptes root a ≡ some r)
        × (r.flags ≡ rights flags)
        × (r.paddr ≡ paddr + (a - vaddr))
  pub outside :
      (a : ℕ)
      → a < mmu_half_size (suc l)
      → (a < vaddr) ⊎ (vaddr + len ≤ a)
      → view c'.mem.ptes (suc l) root (a / 4096) ≡ view c.mem.ptes (suc l) root (a / 4096)

table-span : (l : ℕ) → mmu_half_pages (suc l) ≤ 2 ^ (9 * suc l)
table-span l = pow-le-pow_right (omega arith) (omega arith)

in-table : (l v : ℕ) → v < mmu_half_pages (suc l) → prefix (suc l) v ≡ 0
in-table l v h = let s = table-span l in div-eq_of_lt (omega arith)

range-UserMapped :
    (owner : Owner) (c : Contexts) (s' : PhysMem) (l root vaddr paddr len flags got : ℕ)
    → vaddr % 4096 ≡ 0
    → paddr % 4096 ≡ 0
    → len % 4096 ≡ 0
    → vaddr / 4096 + len / 4096 ≤ mmu_half_pages (suc l)
    → kept got ≡ rights flags
    → RangeMapped owner c.mem root l 0 (vaddr / 4096) (paddr / 4096) (len / 4096) got s'
    → UserMapped owner c l root vaddr paddr len flags (record c { mem = s' })
range-UserMapped owner c s' l root vaddr paddr len flags got whole_vaddr whole_paddr whole_len low
      same range =
    record {
      owner' = range.owner';
      wf = range.wf;
      fresh = range.fresh;
      inside = λ a from to.
          let here : within (vaddr / 4096) (len / 4096) (a / 4096) ≡ true = ground arith in
          let size = half_size-pages l in
          let found = range.space (a / 4096) (in-table l (a / 4096) (omega arith)) in
          let translated : view s'.ptes (suc l) root (a / 4096)
              ≡ some (paddr / 4096 + (a / 4096 - vaddr / 4096), rights flags) =
            found ∙ simp (here, same) refl in
          let (r, run, got_flags, at) =
            memprotect_virt2phys-view s'.ptes l root a _ _ (omega arith) translated in
          (r, run, got_flags, at ∙ omega arith);
      outside = λ a below off.
          let out : within (vaddr / 4096) (len / 4096) (a / 4096) ≡ false = ground arith in
          range.space (a / 4096) (in-table l (a / 4096) (low-half l a below)) ∙ simp (out) refl;
    }

-- `memprotect_u` with some right, for whole pages of the lower half that are not mapped yet, physical
-- addresses below 2^56, well-formed tables whose root has level `l`, and `l` fresh pages for each page:
-- it returns true. Every address of the range is then translated to the physical address as far into
-- the physical range, with the rights asked for, reading where writing is, and no other flag. The
-- translation of every other page of the lower half stays, and so do the tables' form.
pub memprotect_u-virt2phys :
    (svpbmt : Bool) (l root vaddr paddr len flags : ℕ) (owner : Owner) (c : Contexts)
    → bit_or (bit_or vaddr paddr) len % 4096 ≡ 0
    → vaddr / 4096 + len / 4096 ≤ mmu_half_pages (suc l)
    → paddr + len ≤ 2 ^ 56
    → flags % 8 ≢ 0
    → WellFormed owner c.mem.ptes
    → Fresh owner c.mem.fresh
    → l * (len / 4096) ≤ length c.mem.fresh
    → owner root ≡ some (l, 0)
    → ((v : ℕ)
        → vaddr / 4096 ≤ v
        → v < vaddr / 4096 + len / 4096
        → view c.mem.ptes (suc l) root v ≡ none)
    → (c' : Contexts) × (memprotect_u svpbmt (suc l) root vaddr paddr len flags c ≡ some (true, c'))
      × UserMapped owner c l root vaddr paddr len flags c'
unfolding memprotect_u
memprotect_u-virt2phys svpbmt l root vaddr paddr len flags owner c whole low short access wf free
      enough own unmapped =
    let (whole_both, whole_len) = bit_or-aligned 12 (bit_or vaddr paddr) len whole in
    let (whole_vaddr, whole_paddr) = bit_or-aligned 12 vaddr paddr whole_both in
    let user_flags = bit_and flags 4294967247 in
    let (got, global, kernel) = granted-rights flags in
    let span = table-span l in
    let some_right : granted user_flags % 8 ≢ 0 = λ z. ground arith in
    let (edited, s', run, range) =
      pt_map-map_range svpbmt (granted user_flags) l root 0 some_right (len / 4096) (vaddr / 4096)
        (paddr / 4096) (len / 4096) owner c.mem false (omega arith) wf free enough own (omega arith)
        (omega arith) (omega arith) unmapped in
    let done =
      impl-map svpbmt l root (vaddr / 4096) (paddr / 4096) (len / 4096) user_flags c some_right
        global run in
    let in_half : ltb (mmu_half_pages (suc l)) (vaddr / 4096 + len / 4096) ≡ false = ground arith in
    (
      record c { mem = s' },
      rw (memprotect_u, whole, in_half, done) refl,
      range-UserMapped owner c s' l root vaddr paddr len flags (granted user_flags) whole_vaddr
          whole_paddr whole_len low (omega arith) range,
    )
