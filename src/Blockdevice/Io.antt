-- ===== src/Blockdevice/Io.antt =====
-- kernel/src/blockdevice/blockdevice.c: opening, whole-block access and erasure.
use badger_os.Base.{ℕ, ◌+◌, ◌*◌, Bool, true, false, Option, none, some}
use badger_os.Base.{leb, if◌then◌else◌, get_or, set}
use badger_os.Memory.{Mem, MemLib}
use badger_os.Errors.{Cause, Status, ok, is_ok}
use badger_os.Blockdevice.Defs.{
  Flags, Cache, Dev, Driver, Out, ReadOut, blkdev_err, no_entry, new_entry,
}
use badger_os.Blockdevice.Cache.{blkdev_alloc_cache, blkdev_find_cache}

unfoldable pub blkdev_get_size : Dev → ℕ
blkdev_get_size dev = dev.blocks

unfoldable pub blkdev_get_block_size : Dev → ℕ
blkdev_get_block_size dev = dev.block_size

unfoldable pub blkdev_is_readonly : Dev → Bool
blkdev_is_readonly dev = dev.readonly

-- The device with entry `i` of its cache replaced.
abbrev pub with_entry : Dev → Cache → ℕ → Flags → Dev
with_entry dev c i f = record dev {
  cache = some (record c { block_flags = set c.block_flags i f });
}

module _ {World : Type 0} (driver : Driver World) (lib : MemLib) where
  open lib use {mem_copy, mem_set}

  unfoldable pub blkdev_open : Status → Option Dev → World → Status × World
  blkdev_open ec none w = (blkdev_err Cause.param, w)
  blkdev_open ec (some dev) w = driver.open_device ec w

  unfoldable pub blkdev_close : Status → Option Dev → World → Status × World
  blkdev_close ec none w = (blkdev_err Cause.param, w)
  blkdev_close ec (some dev) w = driver.close_device ec w

  -- The answer, `*ec` and the world.
  unfoldable pub blkdev_is_erased : Status → Option Dev → ℕ → World → Bool × Status × World
  blkdev_is_erased ec none block w = (true, blkdev_err Cause.param, w)
  blkdev_is_erased ec (some dev) block w =
      if dev.readonly
      then (true, blkdev_err Cause.readonly, w)
      else if leb dev.blocks block
      then (true, blkdev_err Cause.range, w)
      else elim (blkdev_find_cache dev block) [
        | none ↦ driver.is_erased ec block w
        | some i ↦ elim dev.cache [
          | none ↦ driver.is_erased ec block w
          | some c ↦ ((get_or c.block_flags i no_entry).erase, ok, w)
        ]
      ]

  -- The flags of an entry that is erased or written through the cache.
  unfoldable pub erased_entry : Flags → ℕ → World → Flags × World
  erased_entry f block w =
      if f.present
      then (record f { erase = true; dirty = false }, w)
      else (let (now, w') = driver.time_us w in (new_entry now block true, w'))

  unfoldable pub written_entry : Flags → ℕ → World → Flags × World
  written_entry f block w =
      if f.present
      then (record f { erase = false; dirty = true }, w)
      else (let (now, w') = driver.time_us w in (new_entry now block true, w'))

  unfoldable pub blkdev_erase : Status → Option Dev → ℕ → World → Out World
  blkdev_erase ec none block w = some (none, blkdev_err Cause.param, w)
  blkdev_erase ec (some dev) block w =
      if dev.readonly
      then some (some dev, blkdev_err Cause.readonly, w)
      else if leb dev.blocks block
      then some (some dev, blkdev_err Cause.range, w)
      else elim dev.cache [
        | none ↦ none
        | some c ↦
            let (slot, w1) = blkdev_alloc_cache driver dev block w in
            elim slot [
              | none ↦ let (s, w2) = driver.erase ec block w1 in some (some dev, s, w2)
              | some i ↦
                  let (f, w2) = erased_entry (get_or c.block_flags i no_entry) block w1 in
                  some (some (with_entry dev c i f), ok, w2)
            ]
      ]

  -- The device whose cache takes `len` bytes of a write at `offset` of block `block` in entry `i`.
  unfoldable pub write_slot :
      Dev → Cache → ℕ → ℕ → (offset : ℕ) → Mem → (len : ℕ) → World → Out World
  unfolding written_entry
  write_slot dev c i block offset writebuf len w =
      let (f, w') = written_entry (get_or c.block_flags i no_entry) block w in
      let stored = mem_copy c.block_cache (i * dev.block_size + offset) writebuf 0 len in
      some (some (with_entry dev (record c { block_cache = stored }) i f), ok, w')

  unfoldable pub blkdev_write : Status → Option Dev → ℕ → Mem → World → Out World
  blkdev_write ec none block writebuf w = some (none, blkdev_err Cause.param, w)
  blkdev_write ec (some dev) block writebuf w =
      if dev.readonly
      then some (some dev, blkdev_err Cause.readonly, w)
      else if leb dev.blocks block
      then some (some dev, blkdev_err Cause.range, w)
      else elim dev.cache [
        | none ↦ none
        | some c ↦
            let (slot, w1) = blkdev_alloc_cache driver dev block w in
            elim slot [
              | none ↦ let (s, w2) = driver.write ec block writebuf w1 in some (some dev, s, w2)
              | some i ↦ write_slot dev c i block 0 writebuf dev.block_size w1
            ]
      ]

  -- The first branch of `blkdev_read` and `blkdev_read_partial`: entry `i` is present.
  unfoldable pub read_hit :
      Dev → Cache → ℕ → (offset : ℕ) → (readbuf : Mem) → (len erase_len : ℕ) → World → ReadOut World
  read_hit dev c i offset readbuf len erase_len w =
      let f = get_or c.block_flags i no_entry in
      if f.erase
      then some (mem_set readbuf 0 255 erase_len, some dev, ok, w)
      else (let found = mem_copy readbuf 0 c.block_cache (i * dev.block_size + offset) len in
          if f.dirty
          then some (found, some dev, ok, w)
          else (let (now, w') = driver.time_us w in
              some (found, some (with_entry dev c i (record f { update_time = now })), ok, w')))

  -- The second branch: the whole block is read into entry `i`, then the wanted part copied out.
  unfoldable pub read_fill :
      Status
      → Dev
      → Cache
      → ℕ
      → ℕ
      → (offset : ℕ) → (readbuf : Mem) → (len : ℕ) → World
      → ReadOut World
  read_fill ec dev c i block offset readbuf len w =
      let (filled, s, w1) = driver.read ec block c.block_cache (i * dev.block_size) w in
      let (now, w2) = driver.time_us w1 in
      let dev' = with_entry dev (record c { block_cache = filled }) i (new_entry now block false) in
      if is_ok s
      then some (mem_copy readbuf 0 filled (i * dev.block_size + offset) len, some dev', s, w2)
      else some (readbuf, some dev', s, w2)

  unfoldable pub blkdev_read : Status → Option Dev → ℕ → (readbuf : Mem) → World → ReadOut World
  blkdev_read ec none block readbuf w = some (readbuf, none, blkdev_err Cause.param, w)
  blkdev_read ec (some dev) block readbuf w =
      if leb dev.blocks block
      then some (readbuf, some dev, blkdev_err Cause.range, w)
      else elim dev.cache [
        | none ↦ none
        | some c ↦
            let (slot, w1) = blkdev_alloc_cache driver dev block w in
            let (uncached, s, w2) = driver.read ec block readbuf 0 w1 in
            let direct : ReadOut World = some (uncached, some dev, s, w2) in
            elim slot [
              | none ↦ direct
              | some i ↦
                  if (get_or c.block_flags i no_entry).present
                  then read_hit dev c i 0 readbuf dev.block_size dev.block_size w1
                  else if dev.cache_read
                  then read_fill ec dev c i block 0 readbuf dev.block_size w1
                  else direct
            ]
      ]
