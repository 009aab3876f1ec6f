-- ===== src/Blockdevice/Cache.antt =====
-- kernel/src/blockdevice/blockdevice.c: looking for a cache entry, and flushing one.
use badger_os.Base.{ℕ, ◌+◌, ◌*◌, Bool, true, false, not, ◌&&◌, Option, none, some, List, [], ◌∷◌}
use badger_os.Base.{◌==◌, if◌then◌else◌, get_or, set}
use badger_os.Int.{ℤ, pos, ◌-ℤ◌, ltb_ℤ}
use badger_os.Errors.{Status}
use badger_os.Blockdevice.Defs.{Flags, Cache, Dev, Driver, blkdev_is_dirty, no_entry}

abbrev pub read_cache_timeout : ℕ
read_cache_timeout = 1000000

abbrev pub write_cache_timeout : ℕ
write_cache_timeout = 1000000

abbrev pub holds : Flags → ℕ → Bool
holds f block = f.present && (f.index == block)

-- One round of the loop of `blkdev_alloc_cache` on an entry that is not the block's: the variables
-- `oldest_read_time` and `oldest_read_index`.
unfoldable pub consider : Flags → ℕ → ℤ → Option ℕ → ℤ × Option ℕ
consider f i oldest best =
    if not f.present
    then (pos 0, some i)
    else if not (blkdev_is_dirty f) && ltb_ℤ f.update_time oldest
    then (f.update_time, some i)
    else (oldest, best)

-- `none` is the -1 of the source.
unfoldable pub alloc_loop : List Flags → (i block : ℕ) → ℤ → Option ℕ → Option ℕ
alloc_loop [] i block oldest best = best
alloc_loop (f ∷ fs) i block oldest best =
    let kept = consider f i oldest best in
    let rest = alloc_loop fs (i + 1) block kept.0 kept.1 in if holds f block then some i else rest

unfoldable pub find_loop : List Flags → (i block : ℕ) → Option ℕ
find_loop [] i block = none
find_loop (f ∷ fs) i block =
    let rest = find_loop fs (i + 1) block in if holds f block then some i else rest

unfoldable pub blkdev_find_cache : Dev → ℕ → Option ℕ
unfolding find_loop
blkdev_find_cache dev block = elim dev.cache [
  | none ↦ none
  | some c ↦ find_loop c.block_flags 0 block
]

module _ {World : Type 0} (driver : Driver World) where
  unfoldable pub blkdev_alloc_cache : Dev → ℕ → World → Option ℕ × World
  blkdev_alloc_cache dev block w = elim dev.cache [
    | none ↦ (none, w)
    | some c ↦
        let (now, w') = driver.time_us w in
        (alloc_loop c.block_flags 0 block (now -ℤ pos read_cache_timeout) none, w')
  ]

  -- The flags of entry `i` after `blkdev_flush_cache`, and its calls.
  unfoldable pub flush_entry : Status → Dev → Cache → ℕ → World → Flags × Status × World
  flush_entry ec dev c i w =
      let f = get_or c.block_flags i no_entry in
      let f0 = record f { dirty = false; erase = false } in
      if f.dirty
      then (if dev.cache_read
          then (let (now, w1) = driver.time_us w in
              let (s, w2) = driver.write_raw ec f.index c.block_cache (i * dev.block_size) w1 in
              (record f0 { present = true; update_time = now }, s, w2))
          else (let (s, w2) = driver.write_raw ec f.index c.block_cache (i * dev.block_size) w in
              (record f0 { present = false }, s, w2)))
      else if f.erase
      then (let (s, w2) = driver.erase_raw ec f.index w in (record f0 { present = false }, s, w2))
      else (f0, ec, w)

  -- The caller has a cache.
  unfoldable pub blkdev_flush_cache : Status → Dev → Cache → ℕ → World → Dev × Status × World
  blkdev_flush_cache ec dev c i w =
      let (f, s, w') = flush_entry ec dev c i w in
      (record dev { cache = some (record c { block_flags = set c.block_flags i f }) }, s, w')
