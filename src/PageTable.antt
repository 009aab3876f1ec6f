-- ===== src/PageTable.antt =====
-- kernel/port/generic/src/memprotect.c: walking and editing page tables, for an MMU with superpages.
-- A result `none` is a stop of the kernel: a failed `assert_always` or `panic_abort`. The conditions
-- of `assert_dev_drop` are left to the callers.
use badger_os.Base.{
  ℕ, zero, suc, ◌+◌, ◌-◌, ◌*◌, ◌^◌, ◌<◌, ◌≡◌, bit_and, Bool, true, false, not, ◌&&◌, ◌||◌,
}
use badger_os.Base.{Option, none, some, List, [], ◌∷◌, ◌==◌, leb, ltb, if◌then◌else◌}
mod Owner
mod Attach
mod Split
mod Table
mod Step
mod Levels
mod Map
mod Superpage
mod Range
pub mod Protect
mod Translate
mod Rights
mod User
mod Tests
use badger_os.Memory.{within}
use badger_os.Mmu.{
  Pte, Ptes, mmu_pte_null, mmu_pte_new_leaf, mmu_pte_new, mmu_pte_is_valid, mmu_pte_is_leaf,
  mmu_pte_get_flags, mmu_pte_get_ppn, mmu_vpn_part, mmu_read_pte, mmu_write_pte, mmu_page_size,
}

-- `pt_walk_t`
pub record PtWalk : Type 0 where
  pub paddr : ℕ
  pub pte : Pte
  pub level : ℕ
  pub found : Bool
  pub vaddr_valid : Bool

-- The entries, and the pages that `phys_page_alloc(1, false)` will return, in order.
pub record PhysMem : Type 0 where
  pub ptes : Ptes
  pub fresh : List ℕ

-- The page number, 0 where there is no page left. The page is filled with zeros.
unfoldable pub phys_page_alloc : PhysMem → ℕ × PhysMem
phys_page_alloc s = elim s.fresh [
  | [] ↦ (0, s)
  | p ∷ ps ↦ (
    p,
    record {
      ptes = λ x. if within (p * mmu_page_size) mmu_page_size x then mmu_pte_null else s.ptes x;
      fresh = ps;
    },
  )
]

-- The address of entry `i` of the table in page `pt_ppn`.
abbrev pub entry_paddr : (pt_ppn i : ℕ) → ℕ
entry_paddr pt_ppn i = pt_ppn * mmu_page_size + i * 8

abbrev pub pte_paddr : (pt_ppn vpn level : ℕ) → ℕ
pte_paddr pt_ppn vpn level = entry_paddr pt_ppn (mmu_vpn_part vpn level)

-- `level && ppn & ((1 << MMU_BITS_PER_LEVEL * level) - 1)`
abbrev pub misaligned : (ppn level : ℕ) → Bool
misaligned ppn level = not (level == 0) && not (bit_and ppn (2 ^ (9 * level) - 1) == 0)

-- The loop of `pt_walk` with `n` levels left.
unfoldable pub walk_levels : Ptes → (n pt_ppn vpn : ℕ) → Option PtWalk
walk_levels ptes zero pt_ppn vpn = none
walk_levels ptes (suc level) pt_ppn vpn =
    let at = pte_paddr pt_ppn vpn level in
    let pte = mmu_read_pte ptes at in
    let rest = walk_levels ptes level (mmu_pte_get_ppn pte) vpn in
    if not (mmu_pte_is_valid pte)
    then some (record { paddr = at; pte = pte; level = level; found = false; vaddr_valid = true })
    else if mmu_pte_is_leaf pte
    then (if misaligned (mmu_pte_get_ppn pte) level
        then none
        else some
            (record { paddr = at; pte = pte; level = level; found = true; vaddr_valid = true }))
    else rest

-- `mmu_half_pages` and `mmu_high_vpn` for page numbers of `9 * mmu_levels` bits, sign-extended.
abbrev pub mmu_half_pages : (mmu_levels : ℕ) → ℕ
mmu_half_pages mmu_levels = 2 ^ (9 * mmu_levels - 1)

abbrev pub mmu_high_vpn : (mmu_levels : ℕ) → ℕ
mmu_high_vpn mmu_levels = 2 ^ 52 - mmu_half_pages mmu_levels

abbrev pub no_walk : PtWalk
no_walk = record { paddr = 0; pte = mmu_pte_null; level = 0; found = false; vaddr_valid = false }

unfoldable pub pt_walk : (mmu_levels : ℕ) → Ptes → (pt_ppn vpn : ℕ) → Option PtWalk
pt_walk mmu_levels ptes pt_ppn vpn =
    if leb (mmu_half_pages mmu_levels) vpn && ltb vpn (mmu_high_vpn mmu_levels)
    then some no_walk
    else walk_levels ptes mmu_levels pt_ppn vpn

-- The loop of `pt_split` from entry `i` with `n` entries left.
unfoldable pub split_entries : (svpbmt : Bool) → (n i next_pt ppn flags : ℕ) → Ptes → Ptes
split_entries svpbmt zero i next_pt ppn flags ptes = ptes
split_entries svpbmt (suc n) i next_pt ppn flags ptes =
    split_entries svpbmt n (i + 1) next_pt ppn flags
      (mmu_write_pte ptes (entry_paddr next_pt i) (mmu_pte_new_leaf svpbmt (ppn + i) flags))

-- A table that an edit needs below the entry at `at`: its page number and the memory.
unfoldable pub pt_split : (svpbmt : Bool) → (at : ℕ) → Pte → PhysMem → Option (ℕ × PhysMem)
pt_split svpbmt at pte s =
    let (next_pt, s1) = phys_page_alloc s in
    let filled =
      split_entries svpbmt 512 0 next_pt (mmu_pte_get_ppn pte) (mmu_pte_get_flags pte) s1.ptes in
    if next_pt == 0
    then none
    else some (next_pt, record s1 { ptes = mmu_write_pte filled at (mmu_pte_new next_pt) })

-- The body of the loop of `pt_map_1`: the next table, whether the entry was edited, and the memory.
unfoldable pub map_step :
    (svpbmt : Bool) → (pt_ppn pt_level vpn : ℕ) → PhysMem → Option (ℕ × Bool × PhysMem)
map_step svpbmt pt_ppn pt_level vpn s =
    let at = pte_paddr pt_ppn vpn pt_level in
    let pte = mmu_read_pte s.ptes at in
    let (next_pt, s1) = phys_page_alloc s in
    if not (mmu_pte_is_valid pte)
    then (if next_pt == 0
        then none
        else some
            (next_pt, true, record s1 { ptes = mmu_write_pte s1.ptes at (mmu_pte_new next_pt) }))
    else if mmu_pte_is_leaf pte
    then elim (pt_split svpbmt at pte s) [ none ↦ none | some (next, s') ↦ some (next, true, s') ]
    else some (mmu_pte_get_ppn pte, false, s)

-- The loop of `pt_map_1` with `d` levels left to go down, so that `pt_level` is `pte_level + d`, and
-- the leaf written below it.
unfoldable pub map_levels :
    (svpbmt : Bool)
    → (d orig_pt_level pt_ppn vpn ppn pte_level flags : ℕ) → Bool
    → PhysMem
    → Option (Bool × PhysMem)
map_levels svpbmt zero orig pt_ppn vpn ppn pte_level flags top_edit s = some (
  top_edit,
  record s {
    ptes =
        mmu_write_pte s.ptes (pte_paddr pt_ppn vpn pte_level) (mmu_pte_new_leaf svpbmt ppn flags);
  },
)
map_levels svpbmt (suc d) orig pt_ppn vpn ppn pte_level flags top_edit s =
    elim (map_step svpbmt pt_ppn (pte_level + suc d) vpn s) [
      | none ↦ none
      | some (next, edited, s') ↦
          map_levels svpbmt d orig next vpn ppn pte_level flags
            (top_edit || (edited && (orig == pte_level + suc d))) s'
    ]

-- The two assertions, that the flags have a right and not W without R, are left out: the callers see
-- to both.
unfoldable pub pt_map_1 :
    (svpbmt : Bool)
    → (pt_ppn pt_level vpn ppn pte_level flags : ℕ) → PhysMem
    → Option (Bool × PhysMem)
pt_map_1 svpbmt pt_ppn pt_level vpn ppn pte_level flags s =
    map_levels svpbmt (pt_level - pte_level) pt_level pt_ppn vpn ppn pte_level flags
      (pt_level == pte_level) s

-- `pt_calc_superpage`, from level `max_level` down.
unfoldable pub pt_calc_superpage : (max_level vpn ppn max_len : ℕ) → ℕ
pt_calc_superpage zero vpn ppn max_len = 0
pt_calc_superpage (suc i) vpn ppn max_len =
    let super_len = 2 ^ (9 * suc i) in
    let rest = pt_calc_superpage i vpn ppn max_len in
    if (bit_and vpn (super_len - 1) == 0)
      && (bit_and ppn (super_len - 1) == 0)
      && leb super_len max_len
    then suc i
    else rest

-- `while (pages)` for at most `fuel` rounds, each of which maps at least one page.
unfoldable pub pt_map :
    (svpbmt : Bool)
    → (fuel pt_ppn pt_level vpn ppn pages flags : ℕ) → Bool
    → PhysMem
    → Option (Bool × PhysMem)
pt_map svpbmt zero pt_ppn pt_level vpn ppn pages flags top_edit s = some (top_edit, s)
pt_map svpbmt (suc fuel) pt_ppn pt_level vpn ppn zero flags top_edit s = some (top_edit, s)
pt_map svpbmt (suc fuel) pt_ppn pt_level vpn ppn (suc more) flags top_edit s =
    let pte_level = pt_calc_superpage pt_level vpn ppn (suc more) in
    let super_len = 2 ^ (9 * pte_level) in
    elim (pt_map_1 svpbmt pt_ppn pt_level vpn ppn pte_level flags s) [
      | none ↦ none
      | some (edited, s') ↦
          pt_map svpbmt fuel pt_ppn pt_level (vpn + super_len) (ppn + super_len)
            (suc more - super_len) flags (top_edit || edited) s'
    ]
