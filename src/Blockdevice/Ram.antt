-- ===== src/Blockdevice/Ram.antt =====
-- kernel/src/blockdevice/blkdev_ram.c: the block device in memory. The cookie is the address of the
-- memory, so `ram` is the memory from there on. No operation fails, and none reads `*ec`.
use native.Mathlib.Nat.{mul-le-mul_right}
use badger_os.Base.{ℕ, suc, ◌+◌, ◌-◌, ◌*◌, ◌<◌, ◌≤◌, ◌≡◌, ◌∙◌, arith, Bool, true}
use badger_os.Base.{◌&&◌, ◌==◌, if◌then◌else◌, dec_lt, ℕ_discrete}
use badger_os.Memory.{Mem, MemLib, copied, within}
use badger_os.Errors.{Status, ok}
use badger_os.Blockdevice.Defs.{Dev}
use badger_os.Blockdevice.Maintain.{
  blkdev_impl_set_readonly, blkdev_impl_set_size, blkdev_impl_set_block_size,
}

unfoldable pub blkdev_ram_is_erased : ℕ → Bool × Status
blkdev_ram_is_erased block = (true, ok)

unfoldable pub blkdev_ram_erase : Mem → ℕ → Status × Mem
blkdev_ram_erase ram block = (ok, ram)

-- A handle that `blkdev_impl_create` returned.
unfoldable pub blkdev_ram_create : Dev → (block_count block_size : ℕ) → Bool → Dev
blkdev_ram_create handle block_count block_size readonly =
    blkdev_impl_set_readonly
      (blkdev_impl_set_size (blkdev_impl_set_block_size handle block_size) block_count) readonly

module _ (lib : MemLib) where
  open lib use {mem_copy, mem_copy_lem}

  unfoldable pub blkdev_ram_write : (block_size : ℕ) → Mem → ℕ → Mem → Status × Mem
  blkdev_ram_write block_size ram block writebuf =
      (ok, mem_copy ram (block * block_size) writebuf 0 block_size)

  -- `at`: the place in `readbuf`.
  unfoldable pub blkdev_ram_read :
      (block_size : ℕ) → Mem → ℕ → (readbuf : Mem) → (at : ℕ) → Mem × Status
  blkdev_ram_read block_size ram block readbuf at =
      (mem_copy readbuf at ram (block * block_size) block_size, ok)

  unfoldable pub blkdev_ram_write_partial :
      (block_size : ℕ) → Mem → ℕ → (offset : ℕ) → Mem → (len : ℕ) → Status × Mem
  blkdev_ram_write_partial block_size ram block offset writebuf len =
      (ok, mem_copy ram (block * block_size + offset) writebuf 0 len)

  unfoldable pub blkdev_ram_read_partial :
      (block_size : ℕ) → Mem → ℕ → (offset : ℕ) → (readbuf : Mem) → (len : ℕ) → Mem × Status
  blkdev_ram_read_partial block_size ram block offset readbuf len =
      (mem_copy readbuf 0 ram (block * block_size + offset) len, ok)

  -- The blocks of a device do not overlap.
  blocks_apart : (n : ℕ) {b b' : ℕ} → b < b' → b * n + n ≤ b' * n
  blocks_apart n {b} {b'} lt = let e : suc b * n ≤ b' * n = mul-le-mul_right n lt in omega arith

  place_in_block :
      (n b b' offset len y : ℕ) (ram writebuf : Mem)
      → offset + len ≤ n
      → y < n
      → copied ram (b * n + offset) writebuf 0 len (b' * n + y)
        ≡ (if (b' == b) && within offset len y then writebuf (y - offset) else ram (b' * n + y))
  place_in_block n b b' offset len y ram writebuf h hy = elim (ℕ_discrete b' b) [
    | yes same ↦
        let placed : copied ram (b * n + offset) writebuf 0 len (b * n + y)
            ≡ (if (b == b) && within offset len y then writebuf (y - offset) else ram (b * n + y)) =
          (let index : 0 + (b * n + y - (b * n + offset)) ≡ y - offset = omega arith in
            ground arith) in
        rw same placed
    | no other ↦ elim (dec_lt b' b) [
      | yes below ↦ let apart = blocks_apart n below in ground arith
      | no above ↦ let apart = blocks_apart n {b = b} {b' = b'} (omega arith) in ground arith
    ]
  ]

  -- After a partial write of a block, a partial read of any block returns, for each byte that it
  -- reads: the byte written, where the byte lies in the part of the block that was written, and
  -- what was in memory before, everywhere else, the other blocks included.
  pub blkdev_ram_write_partial-read_partial :
      (n b b' offset offset' len len' x : ℕ) (ram writebuf readbuf : Mem)
      → offset + len ≤ n
      → offset' + len' ≤ n
      → x < len'
      → (blkdev_ram_read_partial n
            (blkdev_ram_write_partial n ram b offset writebuf len).1
            b'
            offset'
            readbuf
            len').0
          x
        ≡ (if (b' == b) && within offset len (offset' + x)
            then writebuf (offset' + x - offset)
            else ram (b' * n + offset' + x))
  unfolding blkdev_ram_read_partial blkdev_ram_write_partial
  blkdev_ram_write_partial-read_partial n b b' offset offset' len len' x ram writebuf readbuf h h'
        lt =
      let y = b' * n + offset' + x in
      let stored = mem_copy ram (b * n + offset) writebuf 0 len in
      let from : b' * n + offset' + (x - 0) ≡ y = omega arith in
      let turned : b' * n + (offset' + x) ≡ y = omega arith in
      mem_copy_lem readbuf 0 stored (b' * n + offset') len' x
      ∙ ground (
        arith,
        mem_copy_lem ram (b * n + offset) writebuf 0 len y,
        place_in_block n b b' offset len (offset' + x) ram writebuf,
      )
