-- ===== src/Bitops/Tests.antt =====
-- The bit counts of some words.
use badger_os.Base.{◌-◌, ◌*◌, ◌^◌, ◌<◌, ◌≤◌, ◌≡◌, refl, arith}
use badger_os.Bitops.{
  clz32, clz64, ffs32, ffs64, ffs_loop, find_first_trailing_set_bit32,
  find_first_trailing_set_bit64, count_leading_set_bits32, count_leading_set_bits64,
}
use badger_os.Bitops.First.{IsLowest, find_first_trailing_set_bit32_lem}
use badger_os.Bitops.Leading.{clz64_lem}

clz64_lem_example : (2 ^ 63 ≤ 5 * 2 ^ clz64 5) × (5 * 2 ^ clz64 5 < 2 ^ 64)
clz64_lem_example = clz64_lem 5 (omega arith) (omega arith)

find_first_runs :
    (find_first_trailing_set_bit32 40 < 32) × IsLowest 40 (find_first_trailing_set_bit32 40)
find_first_runs = find_first_trailing_set_bit32_lem 40 (omega arith) (omega arith)

clz32_runs : (clz32 0 ≡ 32) × (clz32 1 ≡ 31) × (clz32 65536 ≡ 15)
unfolding clz32
clz32_runs = (refl, refl, refl)

leading_set_runs :
    (count_leading_set_bits32 4026531840 ≡ 4) × (count_leading_set_bits64 (2 ^ 64 - 1) ≡ 64)
unfolding count_leading_set_bits32 count_leading_set_bits64 clz32 clz64
leading_set_runs = (refl, refl)

ffs_runs : (ffs32 0 ≡ 0) × (ffs64 40 ≡ 4) × (find_first_trailing_set_bit64 0 ≡ 4294967295)
unfolding ffs32 ffs64 ffs_loop find_first_trailing_set_bit64
ffs_runs = (refl, refl, refl)
