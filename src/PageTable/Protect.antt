-- ===== src/PageTable/Protect.antt =====
-- kernel/port/generic/src/memprotect.c: removing mappings, the contexts, and the operations that the
-- kernel calls. `none` is a stop of the kernel. The fences and the log have no effect here.
use badger_os.Base.{
  ℕ, zero, suc, ◌+◌, ◌-◌, ◌*◌, ◌/◌, ◌%◌, ◌^◌, bit_and, bit_or, Bool, true, false, not, ◌&&◌, ◌||◌,
}
use badger_os.Base.{Option, none, some, List, [], ◌∷◌, ◌++◌, ◌==◌, leb, ltb, if◌then◌else◌}
use badger_os.Mmu.{
  Ptes, mmu_pte_null, mmu_pte_is_valid, mmu_pte_is_leaf, mmu_pte_get_flags, mmu_pte_get_ppn,
  mmu_read_pte, mmu_write_pte, mmu_page_size, has_flag, memprotect_flag_r, memprotect_flag_w,
  memprotect_flag_rwx, memprotect_flag_global, memprotect_flag_kernel,
}
use badger_os.PageTable.{
  PtWalk, PhysMem, entry_paddr, pte_paddr, pt_walk, pt_split, pt_map, pt_calc_superpage,
  phys_page_alloc, mmu_half_pages, mmu_high_vpn,
}

-- The loop of `pt_unmap_1` with `d` levels left to go down: the entry is chosen by `pte_level`.
unfoldable pub unmap_levels :
    (svpbmt : Bool)
    → (d orig_pt_level pt_ppn vpn pte_level : ℕ) → Bool
    → PhysMem
    → Option (Bool × PhysMem)
unmap_levels svpbmt zero orig pt_ppn vpn pte_level top_edit s = some (
  top_edit,
  record s { ptes = mmu_write_pte s.ptes (pte_paddr pt_ppn vpn pte_level) mmu_pte_null },
)
unmap_levels svpbmt (suc d) orig pt_ppn vpn pte_level top_edit s =
    let at = pte_paddr pt_ppn vpn pte_level in
    let pte = mmu_read_pte s.ptes at in
    let split : Option (Bool × PhysMem) = elim (pt_split svpbmt at pte s) [
      | none ↦ none
      | some (next, s') ↦
          unmap_levels svpbmt d orig next vpn pte_level (top_edit || (orig == pte_level + suc d)) s'
    ] in
    let walk = unmap_levels svpbmt d orig (mmu_pte_get_ppn pte) vpn pte_level top_edit s in
    if not (mmu_pte_is_valid pte)
    then some (top_edit, s)
    else if mmu_pte_is_leaf pte
    then split
    else walk

unfoldable pub pt_unmap_1 :
    (svpbmt : Bool) → (pt_ppn pt_level vpn pte_level : ℕ) → PhysMem → Option (Bool × PhysMem)
pt_unmap_1 svpbmt pt_ppn pt_level vpn pte_level s =
    unmap_levels svpbmt (pt_level - pte_level) pt_level pt_ppn vpn pte_level (pt_level == pte_level)
      s

-- `while (pages)` for at most `fuel` rounds.
unfoldable pub pt_unmap :
    (svpbmt : Bool)
    → (fuel pt_ppn pt_level vpn pages : ℕ) → Bool
    → PhysMem
    → Option (Bool × PhysMem)
pt_unmap svpbmt zero pt_ppn pt_level vpn pages top_edit s = some (top_edit, s)
pt_unmap svpbmt (suc fuel) pt_ppn pt_level vpn zero top_edit s = some (top_edit, s)
pt_unmap svpbmt (suc fuel) pt_ppn pt_level vpn (suc more) top_edit s =
    let pte_level = pt_calc_superpage pt_level vpn 0 (suc more) in
    let super_len = 2 ^ (9 * pte_level) in
    elim (pt_unmap_1 svpbmt pt_ppn pt_level vpn pte_level s) [
      | none ↦ none
      | some (edited, s') ↦
          pt_unmap svpbmt fuel pt_ppn pt_level (vpn + super_len) (suc more - super_len)
            (top_edit || edited) s'
    ]

-- The loop of `broadcast_to` from entry `i` with `n` entries left.
unfoldable pub broadcast_entries : (n i dest_pt_ppn src_pt_ppn : ℕ) → Ptes → Ptes
broadcast_entries zero i dest_pt_ppn src_pt_ppn ptes = ptes
broadcast_entries (suc n) i dest_pt_ppn src_pt_ppn ptes =
    let pte = mmu_read_pte ptes (entry_paddr src_pt_ppn i) in
    broadcast_entries n (i + 1) dest_pt_ppn src_pt_ppn
      (if mmu_pte_is_valid pte then mmu_write_pte ptes (entry_paddr dest_pt_ppn i) pte else ptes)

abbrev pub broadcast_to : (dest_pt_ppn src_pt_ppn : ℕ) → Ptes → Ptes
broadcast_to dest_pt_ppn src_pt_ppn ptes = broadcast_entries 256 256 dest_pt_ppn src_pt_ppn ptes

-- `virt2phys_t`
pub record Virt2Phys : Type 0 where
  pub flags : ℕ
  pub paddr : ℕ
  pub page_vaddr : ℕ
  pub page_paddr : ℕ
  pub page_size : ℕ

abbrev pub no_page : Virt2Phys
no_page = record { flags = 0; paddr = 0; page_vaddr = 0; page_paddr = 0; page_size = 0 }

-- `mmu_half_size` and `mmu_high_vaddr`, which `mmu_early_init` sets.
abbrev pub mmu_half_size : (mmu_levels : ℕ) → ℕ
mmu_half_size mmu_levels = 2 ^ (11 + 9 * mmu_levels)

abbrev pub mmu_high_vaddr : (mmu_levels : ℕ) → ℕ
mmu_high_vaddr mmu_levels = 2 ^ 64 - mmu_half_size mmu_levels

-- The result for a walk that was found.
abbrev pub phys_of : PtWalk → (vaddr : ℕ) → Virt2Phys
phys_of walk vaddr =
    let page_size = mmu_page_size * 2 ^ (9 * walk.level) in
    let page_paddr = mmu_pte_get_ppn walk.pte * mmu_page_size in
    record {
      flags = mmu_pte_get_flags walk.pte;
      paddr = page_paddr + bit_and vaddr (page_size - 1);
      page_vaddr = bit_and vaddr (2 ^ 64 - page_size);
      page_paddr = page_paddr;
      page_size = page_size;
    }

unfoldable pub memprotect_virt2phys :
    (mmu_levels : ℕ) → Ptes → (root_ppn vaddr : ℕ) → Option Virt2Phys
memprotect_virt2phys mmu_levels ptes root_ppn vaddr =
    if leb (mmu_half_size mmu_levels) vaddr && ltb vaddr (mmu_high_vaddr mmu_levels)
    then some no_page
    else elim (pt_walk mmu_levels ptes root_ppn (vaddr / mmu_page_size)) [
      | none ↦ none
      | some walk ↦ some (if walk.found then phys_of walk vaddr else no_page)
    ]

-- The memory, the root of `mpu_global_ctx` and those of `ctx_list`.
pub record Contexts : Type 0 where
  pub mem : PhysMem
  pub global_root : ℕ
  pub ctx_list : List ℕ

-- The root of the new context. `mem_copy ptes dest src` is the memory after `mem_copy` of a page of
-- entries, from the page `src` to `dest`.
unfoldable pub memprotect_create :
    (mem_copy : Ptes → (dest src : ℕ) → Ptes) → Contexts → Option (ℕ × Contexts)
memprotect_create mem_copy c =
    let (root, mem) = phys_page_alloc c.mem in
    if root == 0
    then none
    else some (
      root,
      record c {
        mem = record mem { ptes = mem_copy mem.ptes root c.global_root };
        ctx_list = c.ctx_list ++ (root ∷ []);
      },
    )

-- The loop over `ctx_list`.
unfoldable pub broadcast_all : (global_root : ℕ) → List ℕ → Ptes → Ptes
broadcast_all global_root [] ptes = ptes
broadcast_all global_root (root ∷ rest) ptes =
    broadcast_all global_root rest (broadcast_to global_root root ptes)

unfoldable pub memprotect_impl :
    (svpbmt : Bool) → (mmu_levels root_ppn vpn ppn pages flags : ℕ) → Contexts → Option Contexts
memprotect_impl svpbmt mmu_levels root_ppn vpn ppn pages flags0 c =
    let flags =
      if has_flag flags0 memprotect_flag_w then bit_or flags0 memprotect_flag_r else flags0 in
    let changed =
      if has_flag flags memprotect_flag_rwx
      then pt_map svpbmt pages root_ppn (mmu_levels - 1) vpn ppn pages flags false c.mem
      else pt_unmap svpbmt pages root_ppn (mmu_levels - 1) vpn pages false c.mem in
    elim changed [
      | none ↦ none
      | some (top_mod, mem) ↦ some (
          if top_mod && has_flag flags memprotect_flag_global
          then record c {
            mem = record mem { ptes = broadcast_all c.global_root c.ctx_list mem.ptes };
          }
          else record c { mem = mem })
    ]

unfoldable pub memprotect_u :
    (svpbmt : Bool)
    → (mmu_levels root_ppn vaddr paddr len flags : ℕ) → Contexts
    → Option (Bool × Contexts)
memprotect_u svpbmt mmu_levels root_ppn vaddr paddr len flags c =
    let vpn = vaddr / mmu_page_size in
    let pages = len / mmu_page_size in
    let changed =
      memprotect_impl svpbmt mmu_levels root_ppn vpn (paddr / mmu_page_size) pages
        (bit_and flags (2 ^ 32 - 1 - (memprotect_flag_global + memprotect_flag_kernel))) c in
    if not (bit_or (bit_or vaddr paddr) len % mmu_page_size == 0)
    then some (false, c)
    else if ltb (mmu_half_pages mmu_levels) (vpn + pages)
    then some (false, c)
    else elim changed [ none ↦ none | some c' ↦ some (true, c') ]

unfoldable pub memprotect_k :
    (svpbmt : Bool) → (mmu_levels vaddr paddr len flags : ℕ) → Contexts → Option (Bool × Contexts)
memprotect_k svpbmt mmu_levels vaddr paddr len flags c =
    let vpn = vaddr / mmu_page_size in
    let pages = len / mmu_page_size in
    let changed =
      memprotect_impl svpbmt mmu_levels c.global_root vpn (paddr / mmu_page_size) pages
        (bit_or flags (memprotect_flag_global + memprotect_flag_kernel)) c in
    if not (bit_or (bit_or vaddr paddr) len % mmu_page_size == 0)
    then some (false, c)
    else if ltb vpn (mmu_high_vpn mmu_levels)
        || ltb (mmu_high_vpn mmu_levels + mmu_half_pages mmu_levels) (vpn + pages)
    then some (false, c)
    else elim changed [ none ↦ none | some c' ↦ some (true, c') ]
