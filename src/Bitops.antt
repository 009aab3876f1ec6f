-- ===== src/Bitops.antt =====
-- kernel/src/malloc/bitops.h: the bit counts that the allocators use, in the versions without compiler
-- builtins. Words are numbers below `2 ^ 32` or `2 ^ 64`, and shifts drop what leaves the word.
use badger_os.Base.{ℕ, zero, suc, ◌+◌, ◌-◌, ◌*◌, ◌/◌, ◌%◌, ◌^◌, ◌==◌, leb, if◌then◌else◌}
pub mod Leading
pub mod First
mod Tests

-- `if (x <= 2^(w - s) - 1) { n += s; x <<= s; }` in a word of `w` digits.
abbrev pub shift_small : (w s : ℕ) → ℕ × ℕ → ℕ × ℕ
shift_small w s (n, x) = if leb x (2 ^ (w - s) - 1) then (n + s, x * 2 ^ s % 2 ^ w) else (n, x)

-- The last test, which need not shift any more.
abbrev pub count_small : (w : ℕ) → ℕ × ℕ → ℕ
count_small w (n, x) = if leb x (2 ^ (w - 1) - 1) then n + 1 else n

unfoldable pub clz32 : ℕ → ℕ
clz32 x =
    if x == 0
    then 32
    else count_small 32
        (shift_small 32 2 (shift_small 32 4 (shift_small 32 8 (shift_small 32 16 (0, x)))))

unfoldable pub clz64 : ℕ → ℕ
clz64 x =
    if x == 0
    then 64
    else count_small 64 (
        shift_small 64 2
          (shift_small 64 4 (shift_small 64 8 (shift_small 64 16 (shift_small 64 32 (0, x))))))

-- The loop of `ffs32` and `ffs64` for at most `fuel` rounds.
unfoldable pub ffs_loop : (fuel x position : ℕ) → ℕ
ffs_loop zero x position = 0
ffs_loop (suc fuel) x position =
    let rest = ffs_loop fuel (x / 2) (position + 1) in
    if x == 0 then 0 else if x % 2 == 1 then position else rest

unfoldable pub ffs32 : ℕ → ℕ
ffs32 x = if x == 0 then 0 else ffs_loop 32 x 1

unfoldable pub ffs64 : ℕ → ℕ
ffs64 x = if x == 0 then 0 else ffs_loop 64 x 1

unfoldable pub count_leading_unset_bits64 : ℕ → ℕ
count_leading_unset_bits64 word = clz64 word

unfoldable pub count_leading_set_bits64 : ℕ → ℕ
count_leading_set_bits64 word = clz64 (2 ^ 64 - 1 - word)

unfoldable pub count_leading_unset_bits32 : ℕ → ℕ
count_leading_unset_bits32 word = clz32 word

unfoldable pub count_leading_set_bits32 : ℕ → ℕ
count_leading_set_bits32 word = clz32 (2 ^ 32 - 1 - word)

-- The `- 1` is of an `int` that is returned as a `uint32_t`.
unfoldable pub find_first_trailing_set_bit32 : ℕ → ℕ
find_first_trailing_set_bit32 word = (ffs32 word + 2 ^ 32 - 1) % 2 ^ 32

unfoldable pub find_first_trailing_set_bit64 : ℕ → ℕ
find_first_trailing_set_bit64 word = (ffs64 word + 2 ^ 32 - 1) % 2 ^ 32
