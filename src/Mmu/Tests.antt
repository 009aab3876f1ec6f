-- ===== src/Mmu/Tests.antt =====
-- A page-table entry with all flags.
use badger_os.Base.{◌≡◌, true}
use badger_os.Mmu.{mmu_pte_new_leaf, mmu_pte_get_flags}
use badger_os.Mmu.Flags.{mmu_pte_new_leaf-get_flags}

-- An entry for input and output, for the kernel, in all address spaces: the first of these is lost.
get_flags_io : mmu_pte_get_flags (mmu_pte_new_leaf true 5 119) ≡ 55
get_flags_io = mmu_pte_new_leaf-get_flags true 5 119
