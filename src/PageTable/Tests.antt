-- ===== src/PageTable/Tests.antt =====
-- Concrete page tables for the theorems: an empty three-level table in page 5.
use badger_os.Base.{
  ℕ, ◌≤◌, ◌<◌, ◌≡◌, refl, arith, Bool, true, false, none, some, List, [], ◌∷◌, ◌==◌, if◌then◌else◌,
}
use badger_os.Base.{Option}
use badger_os.Mmu.{Ptes, mmu_pte_null}
use badger_os.PageTable.{PhysMem, PtWalk, walk_levels, pt_calc_superpage, pt_map_1, pt_map}
use badger_os.PageTable.Owner.{Owner, EntryOk, WellFormed, view, frame}
use badger_os.PageTable.Attach.{Fresh}
use badger_os.PageTable.Levels.{Mapped}
use badger_os.PageTable.Map.{Splittable, pt_map_1-Mapped}
use badger_os.PageTable.Superpage.{Fits, pt_calc_superpage-largest}
use badger_os.PageTable.Range.{RangeMapped, pt_map-map_range}
use badger_os.PageTable.Translate.{walk_levels-total}
use badger_os.PageTable.Protect.{Contexts, memprotect_u, pt_unmap_1}
use badger_os.PageTable.User.{UserMapped, memprotect_u-virt2phys}

abbrev empty_ptes : Ptes
empty_ptes x = mmu_pte_null

abbrev one_table : Owner
one_table p = if p == 5 then some (2, 0) else none

abbrev four_pages : List ℕ
four_pages = 7 ∷ 8 ∷ 9 ∷ 10 ∷ []

abbrev empty_mem : PhysMem
empty_mem = record { ptes = empty_ptes; fresh = four_pages }

abbrev empty_contexts : Contexts
empty_contexts = record { mem = empty_mem; global_root = 4; ctx_list = 5 ∷ [] }

empty-WellFormed : WellFormed one_table empty_ptes
empty-WellFormed p l pre i o hi = EntryOk.absent refl

four_pages-Fresh : Fresh one_table four_pages
four_pages-Fresh = Fresh.page refl (omega arith) (omega arith) refl (
    Fresh.page refl (omega arith) (omega arith) refl (
      Fresh.page refl (omega arith) (omega arith) refl
        (Fresh.page refl (omega arith) (omega arith) refl Fresh.empty)))

empty-view : (v : ℕ) → view empty_ptes 3 5 v ≡ none
unfolding view walk_levels frame
empty-view v = refl

empty-Splittable : (v : ℕ) → Splittable empty_ptes 3 5 v 1
unfolding walk_levels
empty-Splittable v w walk found = ground arith

walk_levels-total_example : (w : PtWalk) × (walk_levels empty_ptes 3 5 513 ≡ some w)
walk_levels-total_example =
    walk_levels-total {owner = one_table} empty_ptes 2 5 513 empty-WellFormed refl

-- 512 pages fit at page 512 of a range of 600, and 512 * 512 do not.
pt_calc_superpage-largest_example :
    (pt_calc_superpage 2 512 1024 600 ≤ 2)
    × Fits (pt_calc_superpage 2 512 1024 600) 512 1024 600
    × ((j : ℕ) → pt_calc_superpage 2 512 1024 600 < j → j ≤ 2 → ¬ Fits j 512 1024 600)
pt_calc_superpage-largest_example = pt_calc_superpage-largest 2 512 1024 600 (omega arith)

-- A large page of 512 pages, read and written.
pt_map_1-Mapped_example :
    (edited : Bool) × (s' : PhysMem) × (pt_map_1 true 5 2 512 1024 1 3 empty_mem
      ≡ some (edited, s'))
    × Mapped true one_table empty_mem 5 1 2 512 1024 1 3 s'
pt_map_1-Mapped_example =
    pt_map_1-Mapped true 512 1024 1 3 (omega arith) refl (omega arith) 2 5 one_table empty_mem
      (omega arith) empty-WellFormed four_pages-Fresh (omega arith) refl (empty-Splittable 512)

-- Two small pages.
pt_map-map_range_example :
    (edited : Bool) × (s' : PhysMem) × (pt_map true 2 5 2 511 77 2 5 false empty_mem
      ≡ some (edited, s'))
    × RangeMapped one_table empty_mem 5 2 0 511 77 2 5 s'
pt_map-map_range_example =
    pt_map-map_range true 5 2 5 0 (omega arith) 2 511 77 2 one_table empty_mem false (omega arith)
      empty-WellFormed four_pages-Fresh (omega arith) refl (omega arith) (omega arith) (omega arith)
      (λ v lo hi. empty-view v)

-- Two pages that a program asks to write, marked global.
memprotect_u-virt2phys_example :
    (c' : Contexts) × (memprotect_u true 3 5 4096 8192 8192 18 empty_contexts ≡ some (true, c'))
    × UserMapped one_table empty_contexts 2 5 4096 8192 8192 18 c'
memprotect_u-virt2phys_example =
    memprotect_u-virt2phys true 2 5 4096 8192 8192 18 one_table empty_contexts refl (omega arith)
      (omega arith) (omega arith) empty-WellFormed four_pages-Fresh (omega arith) refl
      (λ v lo hi. empty-view v)

abbrev then_view : Option (Bool × PhysMem) → (vpn : ℕ) → Option (ℕ × ℕ)
then_view none vpn = none
then_view (some (edited, s)) vpn = view s.ptes 3 5 vpn

-- A page that was mapped and removed again is still mapped: the removal looks at entry 1 of the top
-- table, where the mapping used entry 0.
abbrev map_unmap : Option (Bool × PhysMem)
map_unmap = elim (pt_map_1 true 5 2 1 77 0 3 empty_mem) [
  | none ↦ none
  | some (edited, s) ↦ pt_unmap_1 true 5 2 1 0 s
]

pt_unmap_1_misses : then_view map_unmap 1 ≡ some (77, 3)
unfolding view walk_levels frame pt_map_1 pt_unmap_1 badger_os.PageTable.map_levels
    badger_os.PageTable.map_step badger_os.PageTable.phys_page_alloc
    badger_os.PageTable.Protect.unmap_levels badger_os.Mmu.mmu_vpn_part badger_os.Mmu.mmu_pte_new
    badger_os.Mmu.mmu_pte_new_leaf badger_os.Mmu.mmu_pte_get_flags
pt_unmap_1_misses = refl

-- A page of 512 * 512 pages in which one is mapped anew: the walk to page 512 meets a large page at
-- an odd place and stops.
abbrev map_split : Option PtWalk
map_split = elim (pt_map_1 true 5 2 0 0 2 3 empty_mem) [
  | none ↦ none
  | some (edited, s) ↦ elim (pt_map_1 true 5 2 0 9 0 1 s) [
    | none ↦ none
    | some (edited', s') ↦ walk_levels s'.ptes 3 5 512
  ]
]

pt_split_misaligned : map_split ≡ none
unfolding walk_levels pt_map_1 badger_os.PageTable.map_levels badger_os.PageTable.map_step
    badger_os.PageTable.phys_page_alloc badger_os.PageTable.pt_split
    badger_os.PageTable.split_entries badger_os.Mmu.mmu_vpn_part badger_os.Mmu.mmu_pte_new
    badger_os.Mmu.mmu_pte_new_leaf badger_os.Mmu.mmu_pte_get_flags
pt_split_misaligned = refl
