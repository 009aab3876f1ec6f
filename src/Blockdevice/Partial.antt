-- ===== src/Blockdevice/Partial.antt =====
-- kernel/src/blockdevice/blockdevice.c: access to a part of a block, and the fallbacks for drivers
-- that have none.
use badger_os.Base.{ℕ, ◌+◌, Bool, ◌||◌, Option, none, some}
use badger_os.Base.{leb, ltb, ◌==◌, if◌then◌else◌, get_or}
use badger_os.Memory.{Mem, MemLib}
use badger_os.Errors.{Cause, Status, ok, is_ok}
use badger_os.Blockdevice.Defs.{Dev, Driver, Out, ReadOut, blkdev_err, no_entry}
use badger_os.Blockdevice.Cache.{blkdev_alloc_cache}
use badger_os.Blockdevice.Io.{write_slot, read_hit, read_fill}

-- The part lies outside of the block. The sum of the source does not wrap where it is reached:
-- neither term is above `block_size`, and `size_t` is as wide as that field on the 64-bit targets.
unfoldable pub outside_block : Dev → (offset len : ℕ) → Bool
outside_block dev offset len =
    leb dev.block_size offset || ltb dev.block_size len || ltb dev.block_size (offset + len)

module _ {World : Type 0} (driver : Driver World) (lib : MemLib) where
  open lib use {mem_copy}

  unfoldable pub blkdev_write_partial :
      Status → Option Dev → ℕ → (offset : ℕ) → Mem → (len : ℕ) → World → Out World
  blkdev_write_partial ec none block offset writebuf len w = some (none, blkdev_err Cause.param, w)
  blkdev_write_partial ec (some dev) block offset writebuf len w =
      if dev.readonly
      then some (some dev, blkdev_err Cause.readonly, w)
      else if leb dev.blocks block || outside_block dev offset len
      then some (some dev, blkdev_err Cause.range, w)
      else if len == 0
      then some (some dev, ok, w)
      else elim dev.cache [
        | none ↦ none
        | some c ↦
            let (slot, w1) = blkdev_alloc_cache driver dev block w in
            elim slot [
              | none ↦
                  let (s, w2) = driver.write_partial ec block offset writebuf len w1 in
                  some (some dev, s, w2)
              | some i ↦ write_slot driver lib dev c i block offset writebuf len w1
            ]
      ]

  unfoldable pub blkdev_read_partial :
      Status → Option Dev → ℕ → (offset : ℕ) → (readbuf : Mem) → (len : ℕ) → World → ReadOut World
  blkdev_read_partial ec none block offset readbuf len w =
      some (readbuf, none, blkdev_err Cause.param, w)
  blkdev_read_partial ec (some dev) block offset readbuf len w =
      if leb dev.blocks block || outside_block dev offset len
      then some (readbuf, some dev, blkdev_err Cause.range, w)
      else if len == 0
      then some (readbuf, some dev, ok, w)
      else elim dev.cache [
        | none ↦ none
        | some c ↦
            let (slot, w1) = blkdev_alloc_cache driver dev block w in
            let (uncached, s, w2) = driver.read_partial ec block offset readbuf len w1 in
            let direct : ReadOut World = some (uncached, some dev, s, w2) in
            elim slot [
              | none ↦ direct
              | some i ↦
                  if (get_or c.block_flags i no_entry).present
                  then read_hit driver lib dev c i offset readbuf len dev.block_size w1
                  else if dev.cache_read
                  then read_fill driver lib ec dev c i block offset readbuf len w1
                  else direct
            ]
      ]

  -- `tmp`: the contents of the fresh buffer. `ec` NULL behaves as `ec0`, which is `ec` here.
  unfoldable pub blkdev_write_partial_fallback :
      (tmp : Mem) → Status → Dev → ℕ → (offset : ℕ) → Mem → (len : ℕ) → World → Status × World
  blkdev_write_partial_fallback tmp ec dev block offset writebuf len w =
      let (done, w1) = driver.allocate dev.block_size w in
      if done
      then (let (block_now, s, w2) = driver.read_raw ec block tmp w1 in
          let (s', w3) = driver.write_raw s block (mem_copy block_now offset writebuf 0 len) 0 w2 in
          if is_ok s then (s', driver.free w3) else (s, driver.free w2))
      else (blkdev_err Cause.nomem, w1)

  unfoldable pub blkdev_read_partial_fallback :
      (tmp : Mem)
      → Status
      → Dev
      → ℕ
      → (offset : ℕ) → (readbuf : Mem) → (len : ℕ) → World
      → Mem × Status × World
  blkdev_read_partial_fallback tmp ec dev block offset readbuf len w =
      let (done, w1) = driver.allocate dev.block_size w in
      if done
      then (let (block_now, s, w2) = driver.read_raw ec block tmp w1 in
          if is_ok s
          then (mem_copy readbuf 0 block_now offset len, s, driver.free w2)
          else (readbuf, s, driver.free w2))
      else (readbuf, blkdev_err Cause.nomem, w1)
