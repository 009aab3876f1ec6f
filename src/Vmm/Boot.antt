-- ===== src/Vmm/Boot.antt =====
-- `memprotect_postheap_init` of kernel/port/generic/src/memprotect.c, up to the switch to the new page
-- table: the ranges of the direct map and of the kernel are taken, and the four parts are mapped.
use badger_os.Base.{ℕ, ◌+◌, ◌-◌, Bool, false, Option, none, some, ◌==◌, if◌then◌else◌}
use badger_os.PageTable.{PhysMem, phys_page_alloc, pt_map}
use badger_os.Vmm.{VmmInfo, VmmArray, Vmm, vmm_init, vmm_mark_reserved}

-- Where the boot loader placed the kernel and the direct map of all memory, in pages, and the sizes of
-- the kernel's sections in pages.
pub record Layout : Type 0 where
  pub hhdm_vpn : ℕ
  pub hhdm_pages : ℕ
  pub kernel_vpn : ℕ
  pub kernel_ppn : ℕ
  pub kernel_pages : ℕ
  pub text_pages : ℕ
  pub rodata_pages : ℕ
  pub data_pages : ℕ

-- The flags for reading and writing, executing and reading, with those for the kernel and all contexts.
abbrev pub kernel_flags : ℕ → ℕ
kernel_flags rights = rights + 48

-- The next part of the kernel.
unfoldable pub map_part :
    (svpbmt : Bool) → (mmu_levels root vpn ppn pages rights : ℕ) → Option PhysMem → Option PhysMem
map_part svpbmt mmu_levels root vpn ppn pages rights none = none
map_part svpbmt mmu_levels root vpn ppn pages rights (some s) =
    elim (pt_map svpbmt pages root (mmu_levels - 1) vpn ppn pages (kernel_flags rights) false s) [
      | none ↦ none
      | some (edited, s') ↦ some s'
    ]

-- The HHDM and the sections of the kernel, one behind the other.
unfoldable pub map_kernel :
    (svpbmt : Bool) → (mmu_levels root : ℕ) → Layout → PhysMem → Option PhysMem
map_kernel svpbmt mmu_levels root b s =
    let part = map_part svpbmt mmu_levels root in
    let hhdm = part b.hhdm_vpn 0 b.hhdm_pages 3 (some s) in
    let text = part b.kernel_vpn b.kernel_ppn b.text_pages 5 hhdm in
    let rodata =
      part (b.kernel_vpn + b.text_pages) (b.kernel_ppn + b.text_pages) b.rodata_pages 1 text in
    part (b.kernel_vpn + b.text_pages + b.rodata_pages)
      (b.kernel_ppn + b.text_pages + b.rodata_pages) b.data_pages 3 rodata

module _ (array : VmmArray) where
  unfoldable pub take_ranges : (beyond : VmmInfo) → (mmu_levels : ℕ) → Layout → Option Vmm
  take_ranges beyond mmu_levels b =
      elim (vmm_mark_reserved array beyond mmu_levels (b.kernel_vpn - 1) (b.kernel_pages + 2)
        (vmm_init mmu_levels)) [
          | none ↦ none
          | some s ↦ vmm_mark_reserved array beyond mmu_levels (b.hhdm_vpn - 1) (b.hhdm_pages + 2) s
        ]

  -- The ranges, the root of the global table and the memory.
  unfoldable pub memprotect_postheap_init :
      (svpbmt : Bool)
      → (beyond : VmmInfo) → (mmu_levels : ℕ) → Layout
      → PhysMem
      → Option (Vmm × ℕ × PhysMem)
  memprotect_postheap_init svpbmt beyond mmu_levels b s =
      let (root, s1) = phys_page_alloc s in
      let mapped : Option PhysMem = map_kernel svpbmt mmu_levels root b s1 in
      elim (take_ranges beyond mmu_levels b) [
        | none ↦ none
        | some vmm ↦
            if root == 0 then none else elim mapped [ none ↦ none | some s' ↦ some (vmm, root, s') ]
      ]
