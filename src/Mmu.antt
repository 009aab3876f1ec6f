-- ===== src/Mmu.antt =====
-- kernel/cpu/riscv/include/cpu/mmu.h and kernel/cpu/riscv/src/memprotect/mmu.c: page-table entries and
-- where they lie. The bits of an entry that the kernel never sets or reads are left out.
use badger_os.Base.{ℕ, ◌+◌, ◌-◌, ◌*◌, ◌/◌, ◌%◌, ◌^◌, bit_and, bit_or, Bool, true, false, not, ◌&&◌}
use badger_os.Base.{bit, ◌==◌, if◌then◌else◌}
pub mod Flags
mod Tests

abbrev pub mmu_page_size : ℕ
mmu_page_size = 4096

-- The values of kernel/include/memprotect.h.
abbrev pub memprotect_flag_w : ℕ
memprotect_flag_w = 2

abbrev pub memprotect_flag_r : ℕ
memprotect_flag_r = 1

abbrev pub memprotect_flag_rwx : ℕ
memprotect_flag_rwx = 7

abbrev pub memprotect_flag_global : ℕ
memprotect_flag_global = 16

abbrev pub memprotect_flag_kernel : ℕ
memprotect_flag_kernel = 32

abbrev pub memprotect_flag_io : ℕ
memprotect_flag_io = 64

abbrev pub memprotect_flag_nc : ℕ
memprotect_flag_nc = 128

-- `mmu_pte_t`: `rwx` has 3 bits, `ppn` 44 and `pbmt` 2.
pub record Pte : Type 0 where
  pub v : Bool
  pub rwx : ℕ
  pub u : Bool
  pub g : Bool
  pub a : Bool
  pub d : Bool
  pub pbmt : ℕ
  pub ppn : ℕ

abbrev pub mmu_pte_null : Pte
mmu_pte_null = record {
  v = false;
  rwx = 0;
  u = false;
  g = false;
  a = false;
  d = false;
  pbmt = 0;
  ppn = 0;
}

-- `!!(flags & flag)`
abbrev pub has_flag : (flags flag : ℕ) → Bool
has_flag flags flag = not (bit_and flags flag == 0)

unfoldable pub mmu_pte_new_leaf : (mmu_svpbmt : Bool) → (ppn flags : ℕ) → Pte
mmu_pte_new_leaf mmu_svpbmt ppn flags = record {
  v = has_flag flags memprotect_flag_rwx;
  rwx = bit_and flags memprotect_flag_rwx;
  u = not (has_flag flags memprotect_flag_kernel);
  g = has_flag flags memprotect_flag_global;
  a = true;
  d = true;
  pbmt =
      if mmu_svpbmt && has_flag flags memprotect_flag_io
      then 2
      else if mmu_svpbmt && has_flag flags memprotect_flag_nc
      then 1
      else 0;
  ppn = ppn % 2 ^ 44;
}

unfoldable pub mmu_pte_new : ℕ → Pte
mmu_pte_new ppn = record mmu_pte_null { v = true; ppn = ppn % 2 ^ 44 }

abbrev pub mmu_pte_is_valid : Pte → Bool
mmu_pte_is_valid pte = pte.v

abbrev pub mmu_pte_is_leaf : Pte → Bool
mmu_pte_is_leaf pte = not (pte.rwx == 0)

unfoldable pub mmu_pte_get_flags : Pte → ℕ
mmu_pte_get_flags pte =
    bit_or (bit_or pte.rwx (bit pte.g * memprotect_flag_global))
      (bit (not pte.u) * memprotect_flag_kernel)

abbrev pub mmu_pte_get_ppn : Pte → ℕ
mmu_pte_get_ppn pte = pte.ppn

unfoldable pub mmu_vpn_part : (vpn pt_level : ℕ) → ℕ
mmu_vpn_part vpn pt_level = bit_and (vpn / 2 ^ (9 * pt_level)) 511

-- The entries of all page tables by physical address; every access is aligned to an entry's 8 bytes.
abbrev pub Ptes : Type 0
Ptes = ℕ → Pte

abbrev pub mmu_read_pte : Ptes → ℕ → Pte
mmu_read_pte ptes pte_paddr = ptes pte_paddr

abbrev pub mmu_write_pte : Ptes → ℕ → Pte → Ptes
mmu_write_pte ptes pte_paddr pte x = if x == pte_paddr then pte else ptes x
