-- ===== src/Slab.antt =====
-- kernel/src/malloc/slab-alloc.c: pages divided into slots of one size, with a bitmap of the free slots.
-- A slab page is known by its address, and a circular list of pages is the list of their addresses
-- in the order of a walk along `prev` from its head.
use badger_os.Base.{
  ℕ, zero, suc, ◌+◌, ◌-◌, ◌*◌, ◌/◌, ◌%◌, ◌^◌, bit_and, bit_or, Bool, true, false, ◌||◌, Option,
  none, some, List, [], ◌∷◌, ◌==◌, leb, ltb, if◌then◌else◌,
}
use badger_os.Bitops.{find_first_trailing_set_bit32}
use badger_os.Buddy.{Pool, assign, delete, block_type_slab}
use badger_os.Buddy.Pools.{buddy_allocate, buddy_deallocate}
pub mod Slots
pub mod Settle
pub mod Place
pub mod Lower
pub mod Reuse
pub mod Malloc
mod Tests

-- `slab_header_t`, without its links.
pub record SlabHeader : Type 0 where
  pub size : ℕ
  pub use_count : ℕ
  pub slab_use : ℕ
  pub bitmap : ℕ → ℕ

-- The slab pages, the lists by size and use, and the pools below.
pub record Slabs : Type 0 where
  pub header : ℕ → SlabHeader
  pub lists : (size level : ℕ) → List ℕ
  pub pools : List Pool

unfoldable pub slab_bytes : ℕ → ℕ
slab_bytes zero = 32
slab_bytes (suc zero) = 64
slab_bytes (suc (suc zero)) = 128
slab_bytes _ = 256

-- The entry `i` of a row of four.
abbrev row : (a b c d i : ℕ) → ℕ
row a b c d zero = a
row a b c d (suc zero) = b
row a b c d (suc (suc zero)) = c
row a b c d _ = d

unfoldable pub slab_tresholds : (size level : ℕ) → ℕ
slab_tresholds zero = row 0 32 64 126
slab_tresholds (suc zero) = row 0 16 32 63
slab_tresholds (suc (suc zero)) = row 0 8 16 31
slab_tresholds _ = row 0 4 8 15

unfoldable pub slab_empty : (size i : ℕ) → ℕ
slab_empty zero = row 4294967295 4294967295 4294967295 1073741823
slab_empty (suc zero) = row 4294967295 2147483647 0 0
slab_empty (suc (suc zero)) = row 2147483647 0 0 0
slab_empty _ = row 32767 0 0 0

-- `word & ~(1 << bit_index)` and `word | (1 << bit_index)`
unfoldable pub bitmap_clear_bit : (word bit_index : ℕ) → ℕ
bitmap_clear_bit word bit_index = bit_and word (2 ^ 32 - 1 - 2 ^ bit_index)

unfoldable pub bitmap_set_bit : (word bit_index : ℕ) → ℕ
bitmap_set_bit word bit_index = bit_or word (2 ^ bit_index)

-- The list of a size and a use, replaced.
abbrev pub set_list : (ℕ → ℕ → List ℕ) → (size level : ℕ) → List ℕ → ℕ → ℕ → List ℕ
set_list lists size level page s u =
    if (s == size) then (if u == level then page else lists s u) else lists s u

unfoldable pub list_push_back : (size level page : ℕ) → Slabs → Slabs
list_push_back size level page s = record s {
  lists = set_list s.lists size level (page ∷ s.lists size level);
}

-- The removal from the list that holds the page.
unfoldable pub list_remove : (size level page : ℕ) → Slabs → Slabs
list_remove size level page s = record s {
  lists = set_list s.lists size level (delete page (s.lists size level));
}

abbrev pub set_header : (page : ℕ) → SlabHeader → Slabs → Slabs
set_header page h s = record s { header = assign s.header page h }

unfoldable pub init_slab : (size page : ℕ) → Slabs → Slabs
init_slab size page s =
    set_header page (record { size = size; use_count = 1; slab_use = 1; bitmap = slab_empty size })
      s

-- The end of `get_slab`, with a new page from the pools.
unfoldable pub new_slab : (size : ℕ) → Slabs → Option ℕ × Slabs
new_slab size s =
    let (page, pools) = buddy_allocate 4096 block_type_slab s.pools in
    let s' = record s { pools = pools } in
    if page == 0
    then (none, s')
    else (some page, list_push_back size 1 page (init_slab size page s'))

-- The loop of `get_slab`, for the uses below `n`.
unfoldable pub slab_from : (n size : ℕ) → Slabs → Option ℕ × Slabs
slab_from zero size s = new_slab size s
slab_from (suc level) size s =
    let rest = slab_from level size s in
    elim (s.lists size level) [
      | [] ↦ rest
      | page ∷ pages ↦
          let h = s.header page in
          let count = (h.use_count + 1) % 256 in
          let counted = set_header page (record h { use_count = count }) s in
          let moved =
            set_header page (record h { use_count = count; slab_use = h.slab_use + 1 })
              (list_push_back size (level + 1) page (list_remove size level page counted)) in
          (some page, if leb (slab_tresholds size level) count then moved else counted)
    ]

unfoldable pub get_slab : (size : ℕ) → Slabs → Option ℕ × Slabs
get_slab size s = slab_from 4 size s

-- The first word of a bitmap that is not 0, from the word `i` on with `n` words left.
unfoldable pub first_word : (ℕ → ℕ) → (n i : ℕ) → Option ℕ
first_word bitmap zero i = none
first_word bitmap (suc n) i =
    let rest = first_word bitmap n (i + 1) in if bitmap i == 0 then rest else some i

unfoldable pub slab_type_of : ℕ → ℕ
slab_type_of size =
    if ltb 128 size then 3 else if ltb 64 size then 2 else if ltb 32 size then 1 else 0

-- The slot `bit_index` of the word `i` of a page is taken.
unfoldable pub take_slot : (page i bit_index : ℕ) → Slabs → Slabs
take_slot page i bit_index s =
    let h = s.header page in
    set_header page
      (record h { bitmap = assign h.bitmap i (bitmap_clear_bit (h.bitmap i) bit_index) }) s

unfoldable pub slot_address : (size page i bit_index : ℕ) → ℕ
slot_address size page i bit_index = page + 64 + (i * 32 + bit_index) * slab_bytes size

-- The loop of `slab_allocate` over the words of a page.
unfoldable pub slot_of : (size page : ℕ) → Slabs → ℕ × Slabs
slot_of size page s = elim (first_word (s.header page).bitmap 4 0) [
  | none ↦ (0, s)
  | some i ↦
      let bit_index = find_first_trailing_set_bit32 ((s.header page).bitmap i) in
      (slot_address size page i bit_index, take_slot page i bit_index s)
]

-- The address, 0 for `NULL`, and the state.
unfoldable pub slab_allocate : (size : ℕ) → Slabs → ℕ × Slabs
slab_allocate size s =
    let type = slab_type_of size in
    let (found, s') = get_slab type s in
    let result : ℕ × Slabs = elim found [ none ↦ (0, s') | some page ↦ slot_of type page s' ] in
    if ltb 256 size then (0, s) else result

-- The end of `slab_deallocate`, from where the page is in no list: it goes to the list of its use,
-- or back to the pools.
unfoldable pub place_page : (page size slab_use : ℕ) → Slabs → Option Slabs
place_page page size slab_use s =
    let is_empty : Bool = elim (s.lists size slab_use) [ [] ↦ true | p ∷ ps ↦ false ] in
    let given : Option Slabs = elim (buddy_deallocate page s.pools) [
      | none ↦ none
      | some pools ↦ some (record s { pools = pools })
    ] in
    if ltb 0 slab_use || is_empty then some (list_push_back size slab_use page s) else given

-- The page goes from its list to an emptier use.
unfoldable pub lower_use : (page : ℕ) → Slabs → Option Slabs
lower_use page s =
    let h = s.header page in
    let level = h.slab_use - 1 in
    let lowered = set_header page (record h { slab_use = level }) s in
    place_page page h.size level (list_remove h.size h.slab_use page lowered)

-- `none` where the kernel panics, and where the page has the use 0: `slab_tresholds` is then read in
-- front of a row, which C does not define. A page of use 0 has no slot in use.
unfoldable pub slab_deallocate : (ptr : ℕ) → Slabs → Option Slabs
slab_deallocate ptr s =
    let page = ptr / 4096 * 4096 in
    let h = s.header page in
    let offset = (ptr - page + 2 ^ 64 - 64) % 2 ^ 64 in
    let total_bit_index = offset / slab_bytes h.size % 2 ^ 32 in
    let i = total_bit_index / 32 in
    let new_bitmap = bitmap_set_bit (h.bitmap i) (total_bit_index % 32) in
    let count = (h.use_count + 255) % 256 in
    let freed =
      set_header page (record h { use_count = count; bitmap = assign h.bitmap i new_bitmap }) s in
    let lowered = lower_use page freed in
    if ptr == 0
    then some s
    else if h.bitmap i == new_bitmap
    then some s
    else if h.slab_use == 0
    then none
    else if leb count (slab_tresholds h.size (h.slab_use - 1))
    then lowered
    else some freed

unfoldable pub slab_get_size : (ptr : ℕ) → Slabs → ℕ
slab_get_size ptr s = if ptr == 0 then 0 else slab_bytes (s.header (ptr / 4096 * 4096)).size

unfoldable pub init_kernel_slabs : Slabs → Slabs
init_kernel_slabs s = record s { lists = λ size level. [] }
