-- ===== src/Blockdevice/Defects.antt =====
-- Where the cache does not do what its callers expect.
use badger_os.Base.{ℕ, zero, suc, ◌+◌, ◌*◌, ◌<◌, ◌≤◌, ◌≡◌, refl, ◌≢◌, inl, inr, arith, ap, ◌∙◌}
use badger_os.Base.{
  true, false, ◌&&◌, ◌||◌, none, some, set, get_or-set_self, get_or-set_ne, length, Bool-cases,
}
use badger_os.Memory.{Mem, MemLib}
use badger_os.Errors.{Status, ok}
use badger_os.Blockdevice.Defs.{Cache, Dev, Driver, no_entry, blkdev_is_dirty}
use badger_os.Blockdevice.Cache.{
  holds, find_loop, blkdev_alloc_cache, blkdev_find_cache, blkdev_flush_cache, flush_entry,
}
use badger_os.Blockdevice.Io.{written_entry, blkdev_write}
use badger_os.Blockdevice.Maintain.{flush_loop, blkdev_flush}
use badger_os.Blockdevice.Slots.{entry, find_loop-set-other}
use badger_os.Blockdevice.ReadWrite.{Ready, after_write, blkdev_write-cached}

module _ {World : Type 0} (driver : Driver World) (lib : MemLib) where
  -- Where the cache takes a block into an entry that still holds another block, which is what
  -- `blkdev_alloc_cache` returns when no entry is vacant, the write succeeds, but afterwards the
  -- cache has no entry for the block written: the entry keeps the other block's number, and is
  -- marked dirty, so that the bytes of the new block will go to the other one.
  pub blkdev_write-misdirected :
      (ec : Status) (dev : Dev) (c : Cache) (block i : ℕ) (writebuf : Mem) (w w1 : World)
      → Ready dev c block
      → blkdev_alloc_cache driver dev block w ≡ (some i, w1)
      → find_loop c.block_flags 0 block ≡ none
      → i < length c.block_flags
      → (entry c.block_flags i).present ≡ true
      → (entry c.block_flags i).index ≢ block
      → (dev' : Dev) × (c' : Cache) × (w' : World) × (blkdev_write driver lib ec
            (some dev)
            block
            writebuf
            w
          ≡ some (some dev', ok, w'))
        × (dev'.cache ≡ some c')
        × (blkdev_find_cache dev' block ≡ none)
        × ((entry c'.block_flags i).index ≡ (entry c.block_flags i).index)
        × (blkdev_is_dirty (entry c'.block_flags i) ≡ true)
  unfolding blkdev_find_cache written_entry blkdev_is_dirty
  blkdev_write-misdirected ec dev c block i writebuf w w1 ready slot unfound lt present other =
      let g = entry c.block_flags i in
      let f = (written_entry driver lib g block w1).0 in
      let there : entry (set c.block_flags i f) i ≡ f =
        get_or-set_self c.block_flags i f no_entry lt in
      let kept : (f.index ≡ g.index) × (holds f block ≡ false) × (blkdev_is_dirty f ≡ true) =
        ground arith in
      let dev' = after_write driver lib dev c block i writebuf w1 in
      (
        dev',
        record c {
          block_cache =
              lib.mem_copy c.block_cache (i * dev.block_size + 0) writebuf 0 dev.block_size;
          block_flags = set c.block_flags i f;
        },
        (written_entry driver lib g block w1).1,
        blkdev_write-cached driver lib ec dev c block i writebuf w w1 ready slot,
        refl,
        find_loop-set-other c.block_flags 0 block i f unfound kept.1,
        ap (λ e. e.index) there ∙ kept.0,
        ap blkdev_is_dirty there ∙ kept.2,
      )

  abbrev pub Waiting : Cache → ℕ → Type 0
  Waiting c i = ((entry c.block_flags i).present && (entry c.block_flags i).dirty) ≡ true

  -- The device still has a cache, and its entry `j` is that of `c`.
  abbrev pub Untouched : Dev → Cache → ℕ → Type 0
  Untouched dev c j =
      (c' : Cache) × (dev.cache ≡ some c') × (entry c'.block_flags j ≡ entry c.block_flags j)

  flush_cache-Untouched :
      (i j : ℕ) (ec : Status) (dev : Dev) (c : Cache) (w : World)
      → i ≢ j
      → Untouched (blkdev_flush_cache driver ec dev c i w).0 c j
  unfolding blkdev_flush_cache
  flush_cache-Untouched i j ec dev c w ne =
      let f = (flush_entry driver ec dev c i w).0 in
      (
        record c { block_flags = set c.block_flags i f },
        refl,
        get_or-set_ne c.block_flags f no_entry ne,
      )

  flush_loop-Untouched :
      (n i m j : ℕ) (ec : Status) (dev : Dev) (c : Cache) (w : World)
      → i ≤ m
      → m < i + n
      → m < j
      → Waiting c m
      → Untouched (flush_loop driver n i ec dev c w).0 c j
  unfolding flush_loop
  flush_loop-Untouched zero i m j ec dev c w lo hi lt wait = absurd (omega arith)
  flush_loop-Untouched (suc n) i m j ec dev c w lo hi lt wait =
      let f = entry c.block_flags i in
      elim (Bool-cases (f.present && (f.dirty || f.erase))) [
        | inl now ↦ simp now (flush_cache-Untouched i j ec dev c w (omega arith))
        | inr later ↦
            let ne : i ≢ m = λ e. let own : Waiting c i = rw e wait in ground arith in
            simp later
              (flush_loop-Untouched n (i + 1) m j ec dev c w (omega arith) (omega arith) lt wait)
      ]

  -- A flush of a device that has two entries waiting to be written leaves the later one as it is:
  -- the device still has that entry, unwritten and dirty, and the flush reports what the first
  -- write returned.
  pub blkdev_flush-Untouched :
      (ec : Status) (dev : Dev) (c : Cache) (m j : ℕ) (w : World)
      → dev.cache ≡ some c
      → dev.readonly ≡ false
      → m < length c.block_flags
      → m < j
      → Waiting c m
      → (dev' : Dev) × (s : Status) × (w' : World) × (blkdev_flush driver ec (some dev) w
          ≡ some (some dev', s, w'))
        × Untouched dev' c j
  unfolding blkdev_flush
  blkdev_flush-Untouched ec dev c m j w cached writable inside lt wait =
      let (dev', s, w') = flush_loop driver (length c.block_flags) 0 ec dev c w in
      (
        dev',
        s,
        w',
        simp (writable, cached) refl,
        flush_loop-Untouched (length c.block_flags) 0 m j ec dev c w (omega arith) (omega arith) lt
            wait,
      )
