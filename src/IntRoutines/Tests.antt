-- ===== src/IntRoutines/Tests.antt =====
-- Division and multiplication at concrete words.
use badger_os.Base.{ℕ, ◌<◌, ◌-◌, ◌^◌, ◌*◌, ◌/◌, ◌%◌, ◌≡◌, ◌⊎◌, arith}
use badger_os.IntRoutines.{udivmod4, udiv3, umod3, mulsi3, div3, mod3, bswap}
use badger_os.IntRoutines.Division.{udivmod4_lem}
use badger_os.IntRoutines.Signed.{minus, div3-mod3}
use badger_os.IntRoutines.Swap.{bswap-bswap}
use badger_os.IntRoutines.Multiplication.{mulsi3_lem}

abbrev divisor : ℕ
divisor = 7

udivmod4_lem_example :
    ((divisor ≡ 0)
      × (udivmod4 31 1000 7 ≡ (1000, 2 ^ 32 - 1))
      × (udiv3 31 1000 7 ≡ 2 ^ 32 - 1)
      × (umod3 31 1000 7 ≡ 1000))
    ⊎ ((0 < divisor)
        × (udivmod4 31 1000 7 ≡ (1000 % 7, 1000 / 7))
        × (udiv3 31 1000 7 ≡ 1000 / 7)
        × (umod3 31 1000 7 ≡ 1000 % 7))
udivmod4_lem_example = udivmod4_lem 31 1000 7 (omega arith) (omega arith)

mulsi3_lem_example : mulsi3 3 4294967295 ≡ 3 * 4294967295 % 2 ^ 32
mulsi3_lem_example = mulsi3_lem 3 4294967295 (omega arith)

-- 100 by 7 at 32 bits, with every choice of the signs.
div3-mod3_example :
    (100 < 2 ^ 31 → 7 < 2 ^ 31 → (div3 31 100 7 ≡ 100 / 7) × (mod3 31 100 7 ≡ 100 % 7))
    × (7 < 2 ^ 31
        → (div3 31 (minus 31 100) 7 ≡ minus 31 (100 / 7))
          × (mod3 31 (minus 31 100) 7 ≡ minus 31 (100 % 7)))
    × (100 < 2 ^ 31
        → (div3 31 100 (minus 31 7) ≡ minus 31 (100 / 7)) × (mod3 31 100 (minus 31 7) ≡ 100 % 7))
    × ((div3 31 (minus 31 100) (minus 31 7) ≡ 100 / 7)
        × (mod3 31 (minus 31 100) (minus 31 7) ≡ minus 31 (100 % 7)))
div3-mod3_example = div3-mod3 31 100 7 (omega arith) (omega arith) (omega arith)

-- 0x12345678 over two unions that hold other bytes.
bswap-bswap_example :
    ((i : ℕ)
      → i < 4
      → bswap 4 (λ x. 170) 305419896 / 256 ^ i % 256 ≡ 305419896 / 256 ^ (4 - 1 - i) % 256)
    × (bswap 4 (λ x. 170) 305419896 < 256 ^ 4)
    × (bswap 4 (λ x. 85) (bswap 4 (λ x. 170) 305419896) ≡ 305419896)
bswap-bswap_example = bswap-bswap 4 (λ x. 170) (λ x. 85) 305419896 (omega arith)
