-- ===== src/Blockdevice/Tests.antt =====
-- The block device on a small device in memory.
use badger_os.Base.{ℕ, ◌+◌, ◌-◌, ◌*◌, ◌<◌, ◌≤◌, ◌≡◌, refl, inr, arith, ◌&&◌, ◌==◌, if◌then◌else◌}
use badger_os.Base.{true, false, none, some, [], ◌∷◌}
use badger_os.Int.{pos, ◌-ℤ◌}
use badger_os.Memory.{Mem, within}
use badger_os.Memory.Plain.{plain}
use badger_os.Errors.{Cause, Status, ok}
use badger_os.Blockdevice.Defs.{
  Cache, Dev, Driver, blkdev_err, no_entry, new_entry, blkdev_is_dirty,
}
use badger_os.Blockdevice.Cache.{
  blkdev_alloc_cache, blkdev_find_cache, alloc_loop, find_loop, consider,
}
use badger_os.Blockdevice.Io.{blkdev_write, blkdev_read, blkdev_erase}
use badger_os.Blockdevice.Partial.{blkdev_write_partial, blkdev_read_partial}
use badger_os.Blockdevice.Maintain.{blkdev_flush}
use badger_os.Blockdevice.Ram.{
  blkdev_ram_write_partial, blkdev_ram_read_partial, blkdev_ram_write_partial-read_partial,
}
use badger_os.Blockdevice.Slots.{entry, Usable}
use badger_os.Blockdevice.ReadWrite.{blkdev_write-read, Returns, blkdev_alloc_cache-Usable}
use badger_os.Blockdevice.Guards.{readonly-refused, range-refused, refused, Outside}
use badger_os.Blockdevice.Defects.{blkdev_write-misdirected, blkdev_flush-Untouched, Untouched}

-- Blocks of four bytes in memory, and a clock that goes on with each look at it.
record World : Type 0 where
  ram : Mem
  clock : ℕ

abbrev ram_driver : Driver World
ram_driver = record {
  time_us = λ w. (pos w.clock, record w { clock = w.clock + 1 });
  allocate = λ size w. (true, w);
  free = λ w. w;
  open_device = λ ec w. (ok, w);
  close_device = λ ec w. (ok, w);
  is_erased = λ ec block w. (true, ok, w);
  erase = λ ec block w. (ok, w);
  write = λ ec block buf w. (ok, record w { ram = plain.mem_copy w.ram (block * 4) buf 0 4 });
  read = λ ec block readbuf at w. (plain.mem_copy readbuf at w.ram (block * 4) 4, ok, w);
  write_partial = λ ec block offset buf len w.
      (ok, record w { ram = plain.mem_copy w.ram (block * 4 + offset) buf 0 len });
  read_partial = λ ec block offset readbuf len w.
      (plain.mem_copy readbuf 0 w.ram (block * 4 + offset) len, ok, w);
  erase_raw = λ ec block w. (ok, w);
  write_raw =
      λ ec block buf at w. (ok, record w { ram = plain.mem_copy w.ram (block * 4) buf at 4 });
  read_raw = λ ec block readbuf w. (plain.mem_copy readbuf 0 w.ram (block * 4) 4, ok, w);
}

abbrev numbered : Mem
numbered i = i

abbrev blank : Mem
blank i = 0

abbrev now : World
now = record { ram = blank; clock = 2000000 }

abbrev later : World
later = record { ram = blank; clock = 2000001 }

-- Entry 0 holds block 5, long unused; entry 1 is vacant.
abbrev half_full : Cache
half_full = record { block_cache = blank; block_flags = new_entry (pos 0) 5 false ∷ no_entry ∷ [] }

-- Both entries hold a block, long unused.
abbrev full : Cache
full = record {
  block_cache = blank;
  block_flags = new_entry (pos 0) 5 false ∷ new_entry (pos 1) 6 false ∷ [];
}

-- Both entries wait to be written.
abbrev waiting : Cache
waiting = record {
  block_cache = blank;
  block_flags = new_entry (pos 0) 5 true ∷ new_entry (pos 1) 6 true ∷ [];
}

abbrev with_cache : Cache → Dev
with_cache c = record {
  block_size = 4;
  blocks = 8;
  readonly = false;
  cache_read = true;
  cache = some c;
}

half_full_slot : blkdev_alloc_cache ram_driver (with_cache half_full) 2 now ≡ (some 1, later)
unfolding blkdev_alloc_cache alloc_loop consider blkdev_is_dirty
half_full_slot = refl

half_full_without : find_loop half_full.block_flags 0 2 ≡ none
unfolding find_loop
half_full_without = refl

full_slot : blkdev_alloc_cache ram_driver (with_cache full) 2 now ≡ (some 0, later)
unfolding blkdev_alloc_cache alloc_loop consider blkdev_is_dirty ◌-ℤ◌
full_slot = refl

full_without : find_loop full.block_flags 0 2 ≡ none
unfolding find_loop
full_without = refl

blkdev_write-read_example :
    (dev' : Dev) × (w' : World) × (blkdev_write ram_driver plain ok
        (some (with_cache half_full))
        2
        numbered
        now
      ≡ some (some dev', ok, w'))
    × Returns ram_driver plain (blkdev_read ram_driver plain ok (some dev') 2 blank now) numbered 4
blkdev_write-read_example =
    blkdev_write-read ram_driver plain ok ok (with_cache half_full) half_full 2 1 numbered blank now
      later now (refl, refl, omega arith) half_full_slot
      (inr (half_full_without, omega arith, refl))

blkdev_alloc_cache-Usable_example : (1 < 2) × Usable (entry half_full.block_flags 1) 2
blkdev_alloc_cache-Usable_example =
    blkdev_alloc_cache-Usable ram_driver plain (with_cache half_full) half_full 2 1 now later refl
      half_full_slot

readonly-refused_holds :
    let dev = record (with_cache half_full) { readonly = true } in
    (blkdev_erase ram_driver plain ok (some dev) 2 now
      ≡ refused ram_driver plain (some dev) Cause.readonly now)
    × (blkdev_write ram_driver plain ok (some dev) 2 numbered now
        ≡ refused ram_driver plain (some dev) Cause.readonly now)
    × (blkdev_write_partial ram_driver plain ok (some dev) 2 1 numbered 2 now
        ≡ refused ram_driver plain (some dev) Cause.readonly now)
readonly-refused_holds =
    readonly-refused ram_driver plain ok (record (with_cache half_full) { readonly = true }) 2 1 2
      numbered now refl

blkdev_write-misdirected_example :
    (dev' : Dev) × (c' : Cache) × (w' : World) × (blkdev_write ram_driver plain ok
        (some (with_cache full))
        2
        numbered
        now
      ≡ some (some dev', ok, w'))
    × (dev'.cache ≡ some c')
    × (blkdev_find_cache dev' 2 ≡ none)
    × ((entry c'.block_flags 0).index ≡ 5)
    × (blkdev_is_dirty (entry c'.block_flags 0) ≡ true)
blkdev_write-misdirected_example =
    blkdev_write-misdirected ram_driver plain ok (with_cache full) full 2 0 numbered now later
      (refl, refl, omega arith) full_slot full_without (omega arith) refl (omega arith)

blkdev_flush-Untouched_holds :
    (dev' : Dev) × (s : Status) × (w' : World) × (blkdev_flush ram_driver ok
        (some (with_cache waiting))
        now
      ≡ some (some dev', s, w'))
    × Untouched ram_driver plain dev' waiting 1
blkdev_flush-Untouched_holds =
    blkdev_flush-Untouched ram_driver plain ok (with_cache waiting) waiting 0 1 now refl refl
      (omega arith) (omega arith) refl

range-refused_holds :
    let dev = with_cache half_full in
    (8 ≤ 9
      → blkdev_erase ram_driver plain ok (some dev) 9 now
        ≡ refused ram_driver plain (some dev) Cause.range now)
    × (8 ≤ 9
        → blkdev_write ram_driver plain ok (some dev) 9 numbered now
          ≡ refused ram_driver plain (some dev) Cause.range now)
    × (8 ≤ 9
        → blkdev_read ram_driver plain ok (some dev) 9 numbered now
          ≡ some (numbered, some dev, blkdev_err Cause.range, now))
    × (Outside dev 9 3 2
        → blkdev_write_partial ram_driver plain ok (some dev) 9 3 numbered 2 now
          ≡ refused ram_driver plain (some dev) Cause.range now)
    × (Outside dev 9 3 2
        → blkdev_read_partial ram_driver plain ok (some dev) 9 3 numbered 2 now
          ≡ some (numbered, some dev, blkdev_err Cause.range, now))
range-refused_holds =
    range-refused ram_driver plain ok (with_cache half_full) 9 3 2 numbered now refl

blkdev_ram_write_partial-read_partial_example :
    (blkdev_ram_read_partial plain 4
        (blkdev_ram_write_partial plain 4 blank 2 1 numbered 2).1
        2
        0
        blank
        4).0
      2
    ≡ (if (2 == 2) && within 1 2 (0 + 2) then numbered (0 + 2 - 1) else blank (2 * 4 + 0 + 2))
blkdev_ram_write_partial-read_partial_example =
    blkdev_ram_write_partial-read_partial plain 4 2 2 1 0 2 4 2 blank numbered blank (omega arith)
      (omega arith) (omega arith)
