-- ===== src/Buddy/Pages.antt =====
-- kernel/src/page_alloc.c: physical pages from the pools, which the kernel sees at the address
-- `mmu_hhdm_vaddr` and above.
use badger_os.Base.{
  ℕ, ◌+◌, ◌-◌, ◌*◌, ◌/◌, ◌%◌, ◌^◌, Bool, Option, none, some, List, ◌==◌, if◌then◌else◌,
}
use badger_os.Base.{get_elem?, ◌≤◌, ◌<◌, ◌≡◌, ◌⊎◌, inl, inr, refl, sym, ap, ◌∙◌, arith, false}
use native.Mathlib.Nat.{mod-eq_of_lt}
use badger_os.Memory.{Mem, MemLib, filled}
use badger_os.Buddy.Alloc.{IsPools}
use badger_os.Buddy.RoundTrip.{
  IsPlaced, IsSameFree, buddy_allocate-inside, buddy_deallocate-buddy_allocate,
}
use badger_os.Buddy.{BlockType, Pool, block_type_user, block_type_page}
use badger_os.Buddy.Pools.{buddy_allocate, buddy_deallocate, buddy_get_size}

-- The page number, the kernel's memory, which `mem_set` clears in part, and the pools.
module _ (lib : MemLib) where
  open lib use {mem_set}

  unfoldable pub phys_page_alloc :
      (mmu_hhdm_vaddr page_count : ℕ) (for_user : Bool) → Mem → List Pool → ℕ × Mem × List Pool
  phys_page_alloc mmu_hhdm_vaddr page_count for_user memory pools =
      let size = page_count * 4096 % 2 ^ 64 in
      let (mem, pools') =
        buddy_allocate size (if for_user then block_type_user else block_type_page) pools in
      if mem == 0
      then (0, memory, pools')
      else ((mem + 2 ^ 64 - mmu_hhdm_vaddr) % 2 ^ 64 / 4096, mem_set memory mem 0 size, pools')

unfoldable pub phys_page_size : (mmu_hhdm_vaddr ppn : ℕ) → List Pool → Option ℕ
phys_page_size mmu_hhdm_vaddr ppn pools =
    elim (buddy_get_size ((ppn * 4096 + mmu_hhdm_vaddr) % 2 ^ 64) pools) [
      | none ↦ none
      | some size ↦ some (size / 4096)
    ]

unfoldable pub phys_page_free : (mmu_hhdm_vaddr ppn : ℕ) → List Pool → Option (List Pool)
phys_page_free mmu_hhdm_vaddr ppn pools =
    buddy_deallocate ((ppn * 4096 + mmu_hhdm_vaddr) % 2 ^ 64) pools

within_filled : (memory : Mem) (at n x : ℕ) → at ≤ x → x < at + n → filled memory at 0 n x ≡ 0
within_filled memory at n x lo hi = ground arith

outside_filled :
    (memory : Mem) (at n x : ℕ) → (x < at) ⊎ (at + n ≤ x) → filled memory at 0 n x ≡ memory x
outside_filled memory at n x out = ground arith

-- Given well-formed pools that lie apart and in the direct map, which begins at a page boundary,
-- and a number of pages from 1 to `2 ^ 51`: an allocation of physical pages either fails and
-- changes neither the memory nor the pools, or the pages from its page number on, as many as asked
-- for and at their addresses in the direct map, hold zeroes and all other memory is as before; and
-- freeing that page number ends without a panic, in well-formed pools with the blocks handed out
-- that were handed out before, and with the same pages free.
pub phys_page_free-phys_page_alloc :
    (lib : MemLib) (used : ℕ → ℕ → Bool) (memory : Mem) (pools : List Pool) (hhdm count : ℕ)
    (for_user : Bool)
    → IsPools used pools
    → IsPlaced pools
    → ((k : ℕ) (p : Pool)
        → get_elem? pools k ≡ some p
        → (hhdm ≤ p.pages_start) × (p.pages_end ≤ 2 ^ 64))
    → hhdm % 4096 ≡ 0
    → 0 < count
    → count ≤ 2 ^ 51
    → let (ppn, memory', pools') = phys_page_alloc lib hhdm count for_user memory pools in
      ((ppn ≡ 0) × (memory' ≡ memory) × (pools' ≡ pools))
      ⊎ (((x : ℕ) → x < count * 4096 → memory' (hhdm + ppn * 4096 + x) ≡ 0)
          × ((x : ℕ)
              → (x < hhdm + ppn * 4096) ⊎ (hhdm + (ppn + count) * 4096 ≤ x)
              → memory' x ≡ memory x)
          × (given : List Pool) × (phys_page_free hhdm ppn pools' ≡ some given)
          × IsPools used given
          × IsSameFree pools given)
unfolding phys_page_alloc phys_page_free
phys_page_free-phys_page_alloc lib used memory pools hhdm count for_user inv placed mapped aligned
      pos small =
    let type : BlockType = if for_user then block_type_user else block_type_page in
    let size = count * 4096 in
    let plain : count * 4096 % 2 ^ 64 ≡ size = mod-eq_of_lt (omega arith) in
    elim (buddy_allocate-inside used pools size type inv placed (omega arith) (omega arith)) [
      | inl e ↦ inl (rw (plain, e) (refl, refl, refl))
      | inr (k, ptr, pool, pools', at, e, lo, hi, page, some_ptr) ↦
          let (above, below) = mapped k pool at in
          let ppn = (ptr + 2 ^ 64 - hhdm) % 2 ^ 64 / 4096 in
          let there : hhdm + ppn * 4096 ≡ ptr = omega arith in
          let back : (ppn * 4096 + hhdm) % 2 ^ 64 ≡ ptr = omega arith in
          let nonzero : (ptr == 0) ≡ false = ground arith in
          let set = lib.mem_set_lem memory ptr 0 size in
          elim (buddy_deallocate-buddy_allocate used pools size type inv placed (omega arith)
            (omega arith)) [
              | inl (null, _) ↦ absurd (omega (arith, sym (ap (λ r. r.0) e) ∙ null))
              | inr (given, e', kept, same) ↦ inr (
                  rw (plain, e, nonzero)
                    (
                      λ x hx.
                          set (hhdm + ppn * 4096 + x)
                          ∙ within_filled memory ptr size _ (omega arith) (omega arith),
                      λ x out. set x ∙ outside_filled memory ptr size x (omega arith),
                      given,
                      rw back (ap (λ r. buddy_deallocate r.0 r.1) (sym e) ∙ e'),
                      kept,
                      same,
                    ))
            ]
    ]
