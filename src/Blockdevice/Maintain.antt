-- ===== src/Blockdevice/Maintain.antt =====
-- kernel/src/blockdevice/blockdevice.c: flushing, housekeeping, creating and deleting the cache, and
-- creating a device.
use badger_os.Base.{ℕ, zero, suc, ◌+◌, ◌*◌, Bool, true, false, not, ◌&&◌, ◌||◌}
use badger_os.Base.{Option, none, some, if◌then◌else◌, get_or, replicate, length}
use badger_os.Int.{ℤ, pos, ◌-ℤ◌, ltb_ℤ}
use badger_os.Memory.{Mem}
use badger_os.Errors.{Cause, Status, ok, is_ok}
use badger_os.Blockdevice.Defs.{Cache, Dev, Driver, Out, blkdev_err, no_entry, blkdev_is_dirty}
use badger_os.Blockdevice.Cache.{blkdev_flush_cache, write_cache_timeout}

-- The bytes of a `blkdev_flags_t` in `malloc(sizeof(blkdev_flags_t) * cache_depth)`, and of a
-- `blkdev_cache_t`.
abbrev pub flags_size : ℕ
flags_size = 24

abbrev pub cache_size : ℕ
cache_size = 24

module _ {World : Type 0} (driver : Driver World) where
  -- The loop of `blkdev_flush` at entry `i`, with `n` entries left. After the first flush it
  -- returns: `if (ec) return;`, and `ec` is not NULL there.
  unfoldable pub flush_loop : (n i : ℕ) → Status → Dev → Cache → World → Dev × Status × World
  flush_loop zero i ec dev c w = (dev, ec, w)
  flush_loop (suc n) i ec dev c w =
      let rest = flush_loop n (i + 1) ec dev c w in
      let f = get_or c.block_flags i no_entry in
      if f.present && (f.dirty || f.erase) then blkdev_flush_cache driver ec dev c i w else rest

  unfoldable pub blkdev_flush : Status → Option Dev → World → Out World
  blkdev_flush ec none w = some (none, blkdev_err Cause.param, w)
  blkdev_flush ec (some dev) w =
      if dev.readonly then some (some dev, blkdev_err Cause.readonly, w) else elim dev.cache [
        | none ↦ none
        | some c ↦
            let (dev', s, w') = flush_loop (length c.block_flags) 0 ec dev c w in
            some (some dev', s, w')
      ]

  -- The loop of `blkdev_housekeeping`, which stops at the first error.
  unfoldable pub housekeeping_loop : (n i : ℕ) → ℤ → Status → Dev → World → Dev × Status × World
  housekeeping_loop zero i timeout ec dev w = (dev, ec, w)
  housekeeping_loop (suc n) i timeout ec dev w = elim dev.cache [
    | none ↦ (dev, ec, w)
    | some c ↦
        let f = get_or c.block_flags i no_entry in
        elim (blkdev_is_dirty f && ltb_ℤ f.update_time timeout) [
          | false ↦ housekeeping_loop n (i + 1) timeout ec dev w
          | true ↦
              let (dev', s, w') = blkdev_flush_cache driver ec dev c i w in
              let rest = housekeeping_loop n (i + 1) timeout s dev' w' in
              if is_ok s then rest else (dev', s, w')
        ]
  ]

  unfoldable pub blkdev_housekeeping : Status → Option Dev → World → Out World
  blkdev_housekeeping ec none w = some (none, blkdev_err Cause.param, w)
  blkdev_housekeeping ec (some dev) w = elim dev.cache [
    | none ↦ none
    | some c ↦
        let (now, w1) = driver.time_us w in
        let (dev', s, w2) =
          housekeeping_loop (length c.block_flags) 0 (now -ℤ pos write_cache_timeout) ec dev w1 in
        some (some dev', s, w2)
  ]

  -- The three allocations of `blkdev_create_cache`. `fresh` is the contents of the block cache.
  unfoldable pub allocate_cache : (fresh : Mem) → Dev → ℕ → Bool → World → Dev × Status × World
  allocate_cache fresh dev cache_depth cache_reads w =
      let bare = record dev { cache = none } in
      let dev' = record bare { cache_read = cache_reads } in
      let (got_cache, w1) = driver.allocate cache_size w in
      let (got_blocks, w2) = driver.allocate (dev.block_size * cache_depth) w1 in
      let (got_flags, w3) = driver.allocate (flags_size * cache_depth) w2 in
      let cache : Cache = record {
        block_cache = fresh;
        block_flags = replicate cache_depth no_entry;
      } in
      if not got_cache
      then (bare, blkdev_err Cause.nomem, w1)
      else if not got_blocks
      then (dev', blkdev_err Cause.nomem, driver.free w2)
      else if not got_flags
      then (dev', blkdev_err Cause.nomem, driver.free (driver.free w3))
      else (record dev' { cache = some cache }, ok, w3)

  unfoldable pub blkdev_create_cache :
      (fresh : Mem) → Status → Option Dev → ℕ → Bool → World → Out World
  blkdev_create_cache fresh ec none cache_depth cache_reads w =
      some (none, blkdev_err Cause.param, w)
  blkdev_create_cache fresh ec (some dev) cache_depth cache_reads w =
      if dev.readonly && not dev.cache_read
      then some (some dev, blkdev_err Cause.readonly, w)
      else elim dev.cache [
        | none ↦
            let (dev', s, w') = allocate_cache fresh dev cache_depth cache_reads w in
            some (some dev', s, w')
        | some c ↦ elim (blkdev_flush ec (some dev) w) [
          | some (some flushed, ok, w1) ↦
              let (dev', s, w2) = allocate_cache fresh flushed cache_depth cache_reads w1 in
              some (some dev', s, w2)
          | other ↦ other
        ]
      ]

  unfoldable pub blkdev_delete_cache : Status → Option Dev → World → Out World
  blkdev_delete_cache ec none w = some (none, blkdev_err Cause.param, w)
  blkdev_delete_cache ec (some dev) w = elim dev.cache [
    | none ↦ some (some dev, ok, w)
    | some c ↦ elim (blkdev_flush ec (some dev) w) [
      | some (some flushed, ok, w1) ↦
          some
            (some (record flushed { cache = none }), ok, driver.free (driver.free (driver.free w1)))
      | other ↦ other
    ]
  ]

  -- A `calloc`ed device.
  unfoldable pub blkdev_impl_create : World → Option Dev × Status × World
  blkdev_impl_create w =
      let (done, w') = driver.allocate 48 w in
      if done
      then (
        some (record {
          block_size = 0;
          blocks = 0;
          readonly = false;
          cache_read = false;
          cache = none;
        }),
        ok,
        w',
      )
      else (none, blkdev_err Cause.nomem, w')

unfoldable pub blkdev_impl_set_readonly : Dev → Bool → Dev
blkdev_impl_set_readonly blkdev readonly = record blkdev { readonly = readonly }

unfoldable pub blkdev_impl_set_size : Dev → ℕ → Dev
blkdev_impl_set_size blkdev blocks = record blkdev { blocks = blocks }

unfoldable pub blkdev_impl_set_block_size : Dev → ℕ → Dev
blkdev_impl_set_block_size blkdev block_size = record blkdev { block_size = block_size }
