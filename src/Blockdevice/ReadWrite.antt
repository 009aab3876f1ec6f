-- ===== src/Blockdevice/ReadWrite.antt =====
-- A block that is written through the cache is what a later read of it returns.
use badger_os.Base.{ℕ, ◌+◌, ◌-◌, ◌*◌, ◌<◌, ◌≡◌, refl, ◌⊎◌, inl, inr, arith, ap, ◌∙◌}
use badger_os.Base.{true, false, none, some, get_or-set_self, set, length, leb}
use badger_os.Int.{pos, ◌-ℤ◌}
use badger_os.Memory.{Mem, MemLib}
use badger_os.Errors.{Status, ok}
use badger_os.Blockdevice.Defs.{Flags, Cache, Dev, Driver, ReadOut, no_entry}
use badger_os.Blockdevice.Cache.{
  holds, alloc_loop, find_loop, blkdev_alloc_cache, read_cache_timeout,
}
use badger_os.Blockdevice.Io.{
  with_entry, written_entry, write_slot, read_hit, blkdev_write, blkdev_read,
}
use badger_os.Blockdevice.Slots.{
  entry, Usable, alloc_loop-Usable, alloc_loop-find, find_loop-holds, find_loop-set-unfound,
  find_loop-set-found,
}

-- The cache takes `block` in entry `i`: it is the block's own, or vacant while no entry is its own.
abbrev pub Assigned : Cache → (block i : ℕ) → Type 0
Assigned c block i =
    (find_loop c.block_flags 0 block ≡ some i)
    ⊎ ((find_loop c.block_flags 0 block ≡ none)
        × (i < length c.block_flags)
        × ((entry c.block_flags i).present ≡ false))

-- A device in use: writable, with cache `c`, and `block` is one of its blocks.
abbrev pub Ready : Dev → Cache → ℕ → Type 0
Ready dev c block = (dev.cache ≡ some c) × (dev.readonly ≡ false) × (block < dev.blocks)

module _ {World : Type 0} (driver : Driver World) (lib : MemLib) where
  open lib use {mem_copy, mem_set, mem_copy_lem}

  written_entry-holds :
      (f : Flags) (block : ℕ) (w : World)
      → (holds f block ≡ true) ⊎ (f.present ≡ false)
      → holds (written_entry driver lib f block w).0 block ≡ true
  unfolding written_entry
  written_entry-holds f block w h = ground arith

  written_entry-state :
      (f : Flags) (block : ℕ) (w : World)
      → let g = (written_entry driver lib f block w).0 in
        (g.present ≡ true) × (g.erase ≡ false) × (g.dirty ≡ true)
  unfolding written_entry
  written_entry-state f block w = ground arith

  pub Assigned-find :
      (c : Cache) (block i : ℕ) (f : Flags)
      → Assigned c block i
      → holds f block ≡ true
      → find_loop (set c.block_flags i f) 0 block ≡ some i
  Assigned-find c block i f (inl own) h =
      ground (arith, find_loop-set-found c.block_flags 0 block i f)
  Assigned-find c block i f (inr (unfound, lt, vacant)) h =
      ground (arith, find_loop-set-unfound c.block_flags 0 block i f)

  pub Assigned-in_range : (c : Cache) (block i : ℕ) → Assigned c block i → i < length c.block_flags
  Assigned-in_range c block i (inl own) =
      let (k, at, lt, held) = find_loop-holds c.block_flags 0 block own in omega arith
  Assigned-in_range c block i (inr (unfound, lt, vacant)) = lt

  pub Assigned-entry :
      (c : Cache) (block i : ℕ)
      → Assigned c block i
      → (holds (entry c.block_flags i) block ≡ true) ⊎ ((entry c.block_flags i).present ≡ false)
  Assigned-entry c block i (inl own) =
      let (k, at, lt, held) = find_loop-holds c.block_flags 0 block own in
      let same : i ≡ k = omega arith in inl (rw same held)
  Assigned-entry c block i (inr (unfound, lt, vacant)) = inr vacant

  -- What a read returns after the write: `Kept` for the result of `blkdev_read`.
  abbrev pub Returns : ReadOut World → Mem → ℕ → Type 0
  Returns result wanted n =
      (out : Mem) × (dev : Dev) × (w : World) × (result ≡ some (out, some dev, ok, w))
      × ((x : ℕ) → x < n → out x ≡ wanted x)

  copied_back :
      (c : Cache) (base n : ℕ) (readbuf writebuf : Mem) (x : ℕ)
      → x < n
      → mem_copy readbuf 0 (mem_copy c.block_cache (base + 0) writebuf 0 n) (base + 0) n x
        ≡ writebuf x
  copied_back c base n readbuf writebuf x lt =
      mem_copy_lem readbuf 0 (mem_copy c.block_cache (base + 0) writebuf 0 n) (base + 0) n x
      ∙ ground (arith, mem_copy_lem c.block_cache (base + 0) writebuf 0 n (base + 0 + (x - 0)))

  -- A block that has an entry in the cache is given that entry, and only the clock is read.
  pub blkdev_alloc_cache-find :
      (dev : Dev) (c : Cache) (block i : ℕ) (w : World)
      → dev.cache ≡ some c
      → find_loop c.block_flags 0 block ≡ some i
      → blkdev_alloc_cache driver dev block w ≡ (some i, (driver.time_us w).1)
  unfolding blkdev_alloc_cache
  blkdev_alloc_cache-find dev c block i w cached own =
      let now = (driver.time_us w).0 -ℤ pos read_cache_timeout in
      simp (blkdev_alloc_cache, cached, alloc_loop-find c.block_flags 0 block now none own) refl

  -- The entry that the cache gives to a block exists, and it is the block's own or nothing of it
  -- waits to be written or erased, so that no unwritten data of another block is ever given away.
  pub blkdev_alloc_cache-Usable :
      (dev : Dev) (c : Cache) (block i : ℕ) (w w' : World)
      → dev.cache ≡ some c
      → blkdev_alloc_cache driver dev block w ≡ (some i, w')
      → (i < length c.block_flags) × Usable (entry c.block_flags i) block
  unfolding blkdev_alloc_cache
  blkdev_alloc_cache-Usable dev c block i w w' cached slot =
      let now = (driver.time_us w).0 -ℤ pos read_cache_timeout in
      let run : alloc_loop c.block_flags 0 block now none ≡ some i =
        simp (blkdev_alloc_cache, cached) at (ap (λ p. p.0) slot) in
      elim (alloc_loop-Usable c.block_flags 0 block now none run) [
        | inl nothing ↦ cc
        | inr (k, at, lt, usable) ↦ let same : i ≡ k = omega arith in rw same (lt, usable)
      ]

  -- A read of a block that is in entry `i`, dirty and not erased.
  read-dirty :
      (ec : Status) (dev : Dev) (c : Cache) (block i : ℕ) (readbuf : Mem) (w : World)
      → dev.cache ≡ some c
      → block < dev.blocks
      → find_loop c.block_flags 0 block ≡ some i
      → (entry c.block_flags i).present ≡ true
      → (entry c.block_flags i).erase ≡ false
      → (entry c.block_flags i).dirty ≡ true
      → blkdev_read driver lib ec (some dev) block readbuf w
        ≡ some (
          mem_copy readbuf 0 c.block_cache (i * dev.block_size + 0) dev.block_size,
          some dev,
          ok,
          (driver.time_us w).1,
        )
  unfolding blkdev_read read_hit
  read-dirty ec dev c block i readbuf w cached lt own present erase dirty =
      let slot = blkdev_alloc_cache-find dev c block i w cached own in
      let inside : leb dev.blocks block ≡ false = ground arith in
      simp (cached, inside, ap (λ p. p.0) slot, ap (λ p. p.1) slot, present, erase, dirty) refl

  -- The device after a write through entry `i`.
  abbrev pub after_write : Dev → Cache → (block i : ℕ) → Mem → World → Dev
  after_write dev c block i writebuf w =
      let stored = mem_copy c.block_cache (i * dev.block_size + 0) writebuf 0 dev.block_size in
      let f = (written_entry driver lib (entry c.block_flags i) block w).0 in
      with_entry dev (record c { block_cache = stored }) i f

  pub blkdev_write-cached :
      (ec : Status) (dev : Dev) (c : Cache) (block i : ℕ) (writebuf : Mem) (w w1 : World)
      → Ready dev c block
      → blkdev_alloc_cache driver dev block w ≡ (some i, w1)
      → blkdev_write driver lib ec (some dev) block writebuf w
        ≡ some (
          some (after_write dev c block i writebuf w1),
          ok,
          (written_entry driver lib (entry c.block_flags i) block w1).1,
        )
  unfolding blkdev_write write_slot
  blkdev_write-cached ec dev c block i writebuf w w1 (cached, writable, lt) slot =
      let inside : leb dev.blocks block ≡ false = ground arith in
      simp (writable, inside, cached, ap (λ p. p.0) slot, ap (λ p. p.1) slot) refl

  -- A write of a block of a writable, cached device for which the cache finds entry `i`, the block's
  -- own or a vacant one, succeeds, and a read of the block right after the write, with no operation
  -- between them, at any time and with any earlier error, succeeds with the bytes written.
  pub blkdev_write-read :
      (ec ec' : Status) (dev : Dev) (c : Cache) (block i : ℕ) (writebuf readbuf : Mem)
      (w w1 w2 : World)
      → Ready dev c block
      → blkdev_alloc_cache driver dev block w ≡ (some i, w1)
      → Assigned c block i
      → (dev' : Dev) × (w' : World) × (blkdev_write driver lib ec (some dev) block writebuf w
          ≡ some (some dev', ok, w'))
        × Returns (blkdev_read driver lib ec' (some dev') block readbuf w2) writebuf dev.block_size
  blkdev_write-read ec ec' dev c block i writebuf readbuf w w1 w2 ready slot assigned =
      let (cached, writable, lt) = ready in
      let f = (written_entry driver lib (entry c.block_flags i) block w1).0 in
      let dev' = after_write dev c block i writebuf w1 in
      let base = i * dev.block_size in
      let c' = record c {
        block_cache = mem_copy c.block_cache (base + 0) writebuf 0 dev.block_size;
        block_flags = set c.block_flags i f;
      } in
      let held =
        written_entry-holds (entry c.block_flags i) block w1 (Assigned-entry c block i assigned) in
      let own = Assigned-find c block i f assigned held in
      let there : entry c'.block_flags i ≡ f =
        get_or-set_self c.block_flags i f no_entry (Assigned-in_range c block i assigned) in
      let (present, erase, dirty) = written_entry-state (entry c.block_flags i) block w1 in
      let read =
        read-dirty ec' dev' c' block i readbuf w2 refl lt own (ap (λ g. g.present) there ∙ present)
          (ap (λ g. g.erase) there ∙ erase) (ap (λ g. g.dirty) there ∙ dirty) in
      (
        dev',
        (written_entry driver lib (entry c.block_flags i) block w1).1,
        blkdev_write-cached ec dev c block i writebuf w w1 ready slot,
        (
          mem_copy readbuf 0 c'.block_cache (base + 0) dev.block_size,
          dev',
          (driver.time_us w2).1,
          read,
          copied_back c base dev.block_size readbuf writebuf,
        ),
      )
