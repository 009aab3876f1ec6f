-- ===== src/Blockdevice/Guards.antt =====
-- What the operations refuse, and that a refused operation changes nothing.
use badger_os.Base.{ℕ, ◌+◌, ◌<◌, ◌≤◌, ◌≡◌, refl, ◌⊎◌, arith}
use badger_os.Base.{true, false, Option, some, leb, ◌||◌}
use badger_os.Memory.{Mem, MemLib}
use badger_os.Errors.{Cause, Status}
use badger_os.Blockdevice.Defs.{Dev, Driver, Out, blkdev_err}
use badger_os.Blockdevice.Io.{blkdev_erase, blkdev_write, blkdev_read}
use badger_os.Blockdevice.Partial.{outside_block, blkdev_write_partial, blkdev_read_partial}

-- A partial access that does not lie inside of its block and device.
abbrev pub Outside : Dev → (block offset len : ℕ) → Type 0
Outside dev block offset len =
    (dev.blocks ≤ block) ⊎ (dev.block_size ≤ offset) ⊎ (dev.block_size < offset + len)

Outside-refused :
    (dev : Dev) (block offset len : ℕ)
    → Outside dev block offset len
    → (leb dev.blocks block || outside_block dev offset len) ≡ true
unfolding outside_block
Outside-refused dev block offset len h = ground arith

module _ {World : Type 0} (driver : Driver World) (lib : MemLib) where
  -- The result of a call that only sets the error.
  abbrev pub refused : Option Dev → Cause → World → Out World
  refused dev cause w = some (dev, blkdev_err cause, w)

  -- On a read-only device erase, write and partial write fail with the cause `readonly`, whatever
  -- the block and the range, and leave the device and the world as they were.
  pub readonly-refused :
      (ec : Status) (dev : Dev) (block offset len : ℕ) (writebuf : Mem) (w : World)
      → dev.readonly ≡ true
      → (blkdev_erase driver lib ec (some dev) block w ≡ refused (some dev) Cause.readonly w)
        × (blkdev_write driver lib ec (some dev) block writebuf w
            ≡ refused (some dev) Cause.readonly w)
        × (blkdev_write_partial driver lib ec (some dev) block offset writebuf len w
            ≡ refused (some dev) Cause.readonly w)
  unfolding blkdev_erase blkdev_write blkdev_write_partial
  readonly-refused ec dev block offset len writebuf w h = (simp h refl, simp h refl, simp h refl)

  -- On a writable device every access to a block past the end, and every partial access that does
  -- not lie inside of its block, fails with the cause `range` and leaves the device, the caller's
  -- buffer and the world as they were.
  pub range-refused :
      (ec : Status) (dev : Dev) (block offset len : ℕ) (buf : Mem) (w : World)
      → dev.readonly ≡ false
      → (dev.blocks ≤ block
          → blkdev_erase driver lib ec (some dev) block w ≡ refused (some dev) Cause.range w)
        × (dev.blocks ≤ block
            → blkdev_write driver lib ec (some dev) block buf w ≡ refused (some dev) Cause.range w)
        × (dev.blocks ≤ block
            → blkdev_read driver lib ec (some dev) block buf w
              ≡ some (buf, some dev, blkdev_err Cause.range, w))
        × (Outside dev block offset len
            → blkdev_write_partial driver lib ec (some dev) block offset buf len w
              ≡ refused (some dev) Cause.range w)
        × (Outside dev block offset len
            → blkdev_read_partial driver lib ec (some dev) block offset buf len w
              ≡ some (buf, some dev, blkdev_err Cause.range, w))
  unfolding blkdev_erase blkdev_write blkdev_read blkdev_write_partial blkdev_read_partial
  range-refused ec dev block offset len buf w writable = (
    λ past. let t : leb dev.blocks block ≡ true = ground arith in simp (writable, t) refl,
    λ past. let t : leb dev.blocks block ≡ true = ground arith in simp (writable, t) refl,
    λ past. let t : leb dev.blocks block ≡ true = ground arith in simp t refl,
    λ past. let t = Outside-refused dev block offset len past in simp (writable, t) refl,
    λ past. let t = Outside-refused dev block offset len past in simp t refl,
  )
