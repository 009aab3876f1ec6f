-- ===== src/Slab/Malloc.antt =====
-- kernel/src/malloc/malloc.c: which allocator serves a request. The lock that each function takes is not
-- modelled. What `memset` and `memcpy` are asked to do to the memory is part of a result.
use badger_os.Base.{ℕ, ◌*◌, ◌/◌, ◌%◌, ◌^◌, ◌&&◌, Option, none, some, ◌==◌, leb, ltb, if◌then◌else◌}
use badger_os.Buddy.{BlockType, block_type_page}
use badger_os.Buddy.Pools.{
  buddy_allocate, buddy_deallocate, buddy_reallocate, buddy_get_type, buddy_get_size, Copy,
}
use badger_os.Slab.{Slabs, slab_allocate, slab_deallocate, slab_get_size}

-- `_malloc`
unfoldable pub malloc : (size : ℕ) → Slabs → ℕ × Slabs
malloc size s =
    let some_size = if size == 0 then 1 else size in
    let (ptr, pools) = buddy_allocate some_size block_type_page s.pools in
    if leb some_size 256 then slab_allocate some_size s else (ptr, record s { pools = pools })

-- The alignment has no effect.
unfoldable pub aligned_alloc : (alignment size : ℕ) → Slabs → ℕ × Slabs
aligned_alloc alignment size s = malloc size s

-- The result, the address that is stored, and the state.
unfoldable pub posix_memalign : (alignment size : ℕ) → Slabs → ℕ × ℕ × Slabs
posix_memalign alignment size s = let (ptr, s') = malloc size s in (0, ptr, s')

-- The bytes that are cleared, too.
unfoldable pub calloc : (nmemb size : ℕ) → Slabs → ℕ × ℕ × Slabs
calloc nmemb size s =
    let total = nmemb * size % 2 ^ 64 in
    let (ptr, s') = malloc total s in (ptr, if ptr == 0 then 0 else total, s')

abbrev give_pages : ℕ → Slabs → Option Slabs
give_pages ptr s = elim (buddy_deallocate ptr s.pools) [
  | none ↦ none
  | some pools ↦ some (record s { pools = pools })
]

-- The switch on the type of a block, which changes nothing for the other types.
unfoldable pub free_as : BlockType → ℕ → Slabs → Option Slabs
free_as BlockType.block_type_page ptr s = give_pages ptr s
free_as BlockType.block_type_slab ptr s = slab_deallocate ptr s
free_as _ ptr s = some s

-- `_free`, `none` where the kernel panics.
unfoldable pub free : (ptr : ℕ) → Slabs → Option Slabs
free ptr s =
    let freed : Option Slabs = elim (buddy_get_type (ptr / 4096 * 4096) s.pools) [
      | none ↦ none
      | some type ↦ free_as type ptr s
    ] in
    if ptr == 0 then some s else freed

-- The old size of a block by its type; `none` within for the other types.
unfoldable pub size_as : BlockType → ℕ → Slabs → Option (Option ℕ)
size_as BlockType.block_type_page ptr s = elim (buddy_get_size ptr s.pools) [
  | none ↦ none
  | some n ↦ some (some n)
]
size_as BlockType.block_type_slab ptr s = some (some (slab_get_size ptr s))
size_as _ ptr s = some none

-- The end of `realloc`: a new block, the copy, and the old block given back.
unfoldable pub move_block :
    (ptr size old_size : ℕ) → BlockType → Slabs → Option (ℕ × Option Copy × Slabs)
move_block ptr size old_size type s =
    let (new_ptr, s') = malloc size s in
    let copy : Copy = record {
      dest = new_ptr;
      source = ptr;
      count = if ltb old_size size then old_size else size;
    } in
    if new_ptr == 0
    then some (0, none, s')
    else elim (free_as type ptr s') [ none ↦ none | some freed ↦ some (new_ptr, some copy, freed) ]

unfoldable pub resize :
    (ptr size old_size : ℕ) → BlockType → Slabs → Option (ℕ × Option Copy × Slabs)
resize ptr size old_size type s =
    let pages : Option (ℕ × Option Copy × Slabs) = elim (buddy_reallocate ptr size s.pools) [
      | none ↦ none
      | some (new_ptr, copy, pools) ↦ some (new_ptr, copy, record s { pools = pools })
    ] in
    if leb size old_size && (ltb 256 old_size && ltb 256 size)
    then pages
    else move_block ptr size old_size type s

-- The address, what is copied, and the state.
unfoldable pub realloc : (ptr size : ℕ) → Slabs → Option (ℕ × Option Copy × Slabs)
realloc ptr size s =
    let fresh = malloc size s in
    let gone : Option (ℕ × Option Copy × Slabs) = elim (free ptr s) [
      | none ↦ none
      | some freed ↦ some (0, none, freed)
    ] in
    let changed : Option (ℕ × Option Copy × Slabs) =
      elim (buddy_get_type (ptr / 4096 * 4096) s.pools) [
        | none ↦ none
        | some type ↦ elim (size_as type ptr s) [
          | none ↦ none
          | some none ↦ some (ptr, none, s)
          | some (some old_size) ↦ resize ptr size old_size type s
        ]
      ] in
    if ptr == 0 then some (fresh.0, none, fresh.1) else if size == 0 then gone else changed

unfoldable pub reallocarray : (ptr nmemb size : ℕ) → Slabs → Option (ℕ × Option Copy × Slabs)
reallocarray ptr nmemb size s = realloc ptr (nmemb * size % 2 ^ 64) s
