-- ===== src/IntRoutines.antt =====
-- kernel/src/freestanding/int_routines.c: the integer arithmetic that the compiler calls, at `suc w`
-- bits: 31 for `w` gives the functions of `si_t`, 63 those of `di_t`. Every number is a word's
-- bits. Not for `ti_t`: there `1ull << (shift - i)` may shift by more than the width of its operand.
mod Tests
use badger_os.Base.{Bool, not}
use badger_os.Memory.{Mem, store}
use badger_os.Base.{
  ℕ, zero, suc, ◌+◌, ◌-◌, ◌*◌, ◌/◌, ◌%◌, ◌^◌, bit_and, bit_or, ◌==◌, leb, if◌then◌else◌,
}
pub mod Division
pub mod Multiplication
pub mod Signed
pub mod Swap

-- `while (!(divisor & msb)) { divisor <<= 1; shift++; }` for at most `fuel` rounds: `divisor` and
-- `shift` after it.
unfoldable pub normalize : (fuel w divisor shift : ℕ) → ℕ × ℕ
normalize zero w divisor shift = (divisor, shift)
normalize (suc fuel) w divisor shift =
    let rest = normalize fuel w (divisor * 2 % 2 ^ suc w) (shift + 1) in
    if bit_and divisor (2 ^ w) == 0 then rest else (divisor, shift)

-- The `for` loop with `n` rounds left, so that `shift - i` is `n - 1`: `remainder` and `result`.
unfoldable pub subtract_shifted : (n remainder divisor result : ℕ) → ℕ × ℕ
subtract_shifted zero remainder divisor result = (remainder, result)
subtract_shifted (suc k) remainder divisor result =
    let (remainder', result') =
      if leb divisor remainder
      then (remainder - divisor, bit_or result (2 ^ k))
      else (remainder, result) in
    subtract_shifted k remainder' (divisor / 2) result'

-- `divmod_si` and `divmod_di`: the remainder and the result. The first loop has a round for each bit.
unfoldable pub divmod : (w remainder divisor : ℕ) → ℕ × ℕ
divmod w remainder divisor =
    let (divisor', shift) = normalize (suc w) w divisor 0 in
    subtract_shifted (suc shift) remainder divisor' 0

-- `__udivmodsi4` and `__udivmoddi4`: `*rem` and the result, with all bits set for -1.
unfoldable pub udivmod4 : (w a b : ℕ) → ℕ × ℕ
udivmod4 w a b = if b == 0 then (a, 2 ^ suc w - 1) else divmod w a b

unfoldable pub udiv3 : (w a b : ℕ) → ℕ
udiv3 w a b = if b == 0 then 2 ^ suc w - 1 else (divmod w a b).1

unfoldable pub umod3 : (w a b : ℕ) → ℕ
umod3 w a b = if b == 0 then a else (divmod w a b).0

-- The signed functions on the bits of their arguments. `x < 0` is the sign bit, and `-x` wraps, so
-- that the least number stays as it is.
abbrev pub is_negative : (w x : ℕ) → Bool
is_negative w x = leb (2 ^ w) x

abbrev pub negated : (w x : ℕ) → ℕ
negated w x = (2 ^ suc w - x) % 2 ^ suc w

abbrev pub magnitude : (w x : ℕ) → ℕ
magnitude w x = if is_negative w x then negated w x else x

abbrev pub signed : (w : ℕ) → Bool → ℕ → ℕ
signed w sign x = if sign then negated w x else x

-- `__divsi3` and `__divdi3`. Two signs differ where exactly one is set: `^` on Booleans.
unfoldable pub div3 : (w a b : ℕ) → ℕ
div3 w a b =
    let differ = if is_negative w a then not (is_negative w b) else is_negative w b in
    if b == 0 then 2 ^ suc w - 1 else signed w differ (divmod w (magnitude w a) (magnitude w b)).1

unfoldable pub mod3 : (w a b : ℕ) → ℕ
mod3 w a b =
    if b == 0 then a else signed w (is_negative w a) (divmod w (magnitude w a) (magnitude w b)).0

-- `BSWP_FUNC`: `arr` of the union for the word `a`, lowest byte first, and `packed` for the `n` bytes
-- of `arr`.
abbrev pub word_bytes : (a : ℕ) → Mem
word_bytes a i = a / 256 ^ i % 256

unfoldable pub bytes_word : (n : ℕ) → Mem → ℕ
bytes_word zero arr = 0
bytes_word (suc n) arr = arr 0 + 256 * bytes_word n (λ i. arr (suc i))

-- The loop with `m` rounds left, so that `i` is `n - m`: `out.arr[sizeof(type) - i - 1] = in.arr[i]`.
unfoldable pub turn : (n m : ℕ) (arr out : Mem) → Mem
turn n zero arr out = out
turn n (suc m) arr out = let i : ℕ = n - suc m in turn n m arr (store out (n - i - 1) (arr i))

-- `__bswapsi2` for `n = 4`, `__bswapdi2` for 8 and `__bswapti2` for 16. `out` is what the union holds
-- before it is written.
unfoldable pub bswap : (n : ℕ) (out : Mem) (a : ℕ) → ℕ
bswap n out a = bytes_word n (turn n n (word_bytes a) out)

-- The loop of `__mulsi3` with `n` rounds left. `b >>= 1` keeps the sign bit of an `int`.
unfoldable pub mul_loop : (n a b res : ℕ) → ℕ
mul_loop zero a b res = res
mul_loop (suc n) a b res =
    let res' = if bit_and b 1 == 1 then (res + a) % 2 ^ 32 else res in
    mul_loop n (a * 2 % 2 ^ 32) (b / 2 + b / 2 ^ 31 * 2 ^ 31) res'

unfoldable pub mulsi3 : (a b : ℕ) → ℕ
mulsi3 a b = mul_loop 32 a b 0
