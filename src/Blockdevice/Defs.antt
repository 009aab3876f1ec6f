-- ===== src/Blockdevice/Defs.antt =====
-- kernel/include/blockdevice/blkdev_internal.h: the block device, its cache and its driver.
use badger_os.Base.{ℕ, Bool, true, false, ◌&&◌, ◌||◌, Option, List}
use badger_os.Int.{ℤ}
use badger_os.Memory.{Mem}
use badger_os.Errors.{Location, Cause, Status, failed}

-- `blkdev_flags_t`
pub record Flags : Type 0 where
  pub update_time : ℤ
  pub index : ℕ
  pub present : Bool
  pub erase : Bool
  pub dirty : Bool

-- `blkdev_cache_t`. Entry `i` has the bytes from `i * block_size` on of `block_cache`. The array
-- `block_flags` has `cache_depth` entries, so the list's length stands for that field.
pub record Cache : Type 0 where
  pub block_cache : Mem
  pub block_flags : List Flags

-- `struct blkdev`, less `vtable` and `cookie`, which belong to the driver.
pub record Dev : Type 0 where
  pub block_size : ℕ
  pub blocks : ℕ
  pub readonly : Bool
  pub cache_read : Bool
  pub cache : Option Cache

-- What the code calls and the device does not implement: the driver behind `vtable`, the uncached
-- `blkdev_*_raw` operations, the clock and the heap. Each works on the state of the world outside
-- of `Dev`. The flag of `allocate` says that `malloc` did not return NULL.
pub record Driver (World : Type 0) : Type 0 where
  pub time_us : World → ℤ × World
  pub allocate : ℕ → World → Bool × World
  pub free : World → World
  pub open_device : Status → World → Status × World
  pub close_device : Status → World → Status × World
  pub is_erased : Status → ℕ → World → Bool × Status × World
  pub erase : Status → ℕ → World → Status × World
  pub write : Status → ℕ → Mem → World → Status × World
  pub read : Status → ℕ → (readbuf : Mem) → (at : ℕ) → World → Mem × Status × World
  pub write_partial : Status → ℕ → (offset : ℕ) → Mem → (len : ℕ) → World → Status × World
  pub read_partial :
      Status → ℕ → (offset : ℕ) → (readbuf : Mem) → (len : ℕ) → World → Mem × Status × World
  pub erase_raw : Status → ℕ → World → Status × World
  pub write_raw : Status → ℕ → (writebuf : Mem) → (at : ℕ) → World → Status × World
  pub read_raw : Status → ℕ → (readbuf : Mem) → World → Mem × Status × World

abbrev pub blkdev_err : Cause → Status
blkdev_err cause = failed Location.blkdev cause

-- What an operation leaves: the device (`none` where it was NULL), `*ec` and the world. `none` in
-- place of all of it is a fault, a read or write through a NULL pointer.
abbrev pub Out : Type 0 → Type 0
Out World = Option (Option Dev × Status × World)

-- The same with the caller's buffer in front.
abbrev pub ReadOut : Type 0 → Type 0
ReadOut World = Option (Mem × Option Dev × Status × World)

unfoldable pub blkdev_is_dirty : Flags → Bool
blkdev_is_dirty flags = flags.present && (flags.erase || flags.dirty)

abbrev pub no_entry : Flags
no_entry = record {
  update_time = ℤ.pos 0;
  index = 0;
  present = false;
  erase = false;
  dirty = false;
}

-- The value that `blkdev_write` and others give a new entry.
abbrev pub new_entry : ℤ → ℕ → Bool → Flags
new_entry now block dirty = record {
  update_time = now;
  index = block;
  present = true;
  erase = false;
  dirty = dirty;
}
