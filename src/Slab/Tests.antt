-- ===== src/Slab/Tests.antt =====
-- A page of slots of 32 bytes.
use badger_os.Base.{ℕ, ◌+◌, ◌≤◌, ◌≡◌, refl, arith, []}
use badger_os.Slab.{
  Slabs, init_slab, slot_of, slab_empty, slab_bytes, slab_get_size, slab_deallocate, slab_type_of,
}
use badger_os.Slab.Settle.{IsSettled}
use badger_os.Slab.Reuse.{slab_deallocate-slot_of}

abbrev empty_slabs : Slabs
empty_slabs = record {
  header = λ p. record { size = 0; use_count = 0; slab_use = 0; bitmap = λ i. 0 };
  lists = λ size level. [];
  pools = [];
}

-- The page at 8192.
abbrev one_page : Slabs
one_page = init_slab 0 8192 empty_slabs

bounded : (i : ℕ) → (one_page.header 8192).bitmap i ≤ slab_empty (one_page.header 8192).size i
unfolding init_slab
bounded i = omega arith

slab_deallocate-slot_of_example :
    let h = one_page.header 8192 in
    let (address, taken) = slot_of h.size 8192 one_page in
    (8192 + 64 ≤ address)
    × (address + slab_bytes h.size ≤ 8192 + 4096)
    × (slab_get_size address taken ≡ slab_bytes h.size)
    × IsSettled one_page 8192 (slab_deallocate address taken)
unfolding init_slab slab_empty
slab_deallocate-slot_of_example =
    slab_deallocate-slot_of one_page 8192 0 (omega arith) refl bounded (omega arith) (omega arith)
      (omega arith) (omega arith) (omega arith) (omega arith)

slab_type_of_runs : (slab_type_of 32 ≡ 0) × (slab_type_of 33 ≡ 1) × (slab_type_of 256 ≡ 3)
unfolding slab_type_of
slab_type_of_runs = (refl, refl, refl)
