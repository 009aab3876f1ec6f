-- ===== src/NumToStr.antt =====
-- kernel/src/badgelib/num_to_str.c: numbers to decimal text by the double dabble algorithm.
-- A `char[n]` is the list of its bytes; the shifts and casts of the source are written out as
-- quotients, products and remainders.
pub mod Dabble
pub mod Decimal
pub mod Count
pub mod Fixed
mod Tests
use badger_os.Base.{
  ℕ, zero, suc, ◌+◌, ◌-◌, ◌*◌, ◌/◌, ◌%◌, ◌^◌, bit_and, bit_or, List, [], ◌∷◌, ◌++◌,
}
use badger_os.Base.{get_or, replicate, ◌==◌, if◌then◌else◌}

-- ((buf | (buf >> 1)) & (buf >> 2)) | (buf >> 3): digit bit 0 is set where a digit is 5 to 9.
pub dabble_mask : ℕ → ℕ
dabble_mask buf = bit_or (bit_and (bit_or buf (buf / 2)) (buf / 4)) (buf / 8)

pub repeat : {S : Type 0} → ℕ → (S → S) → S → S
repeat zero f s = s
repeat (suc n) f s = repeat n f (f s)

-- The `i`-th round of the loop writes `'0' + ((buf >> (4 * i)) & 15)` in front of what is written.
pub put_digits : ℕ → ℕ → ℕ → List ℕ → List ℕ
put_digits zero i buf out = out
put_digits (suc n) i buf out =
    put_digits n (i + 1) buf ((b'0' + bit_and (buf / 2 ^ (4 * i)) 15) ∷ out)

-- One round of the loop of `num_uint16_to_str`, on `buf` and `val`.
pub dabble16 : ℕ × ℕ → ℕ × ℕ
dabble16 (buf, val) =
    let added = (buf + bit_and (dabble_mask buf) 0x11111 * 3) % 2 ^ 32 in
    (bit_or (added * 2 % 2 ^ 32) (val / 2 ^ 15), val * 2 % 2 ^ 16)

pub num_uint16_to_str : ℕ → List ℕ
num_uint16_to_str val =
    put_digits 5 0 (repeat 13 dabble16 (val / 2 ^ 13, val * 2 ^ 3 % 2 ^ 16)).0 []

pub dabble32 : ℕ × ℕ → ℕ × ℕ
dabble32 (buf, val) =
    let added = (buf + bit_and (dabble_mask buf) 0x1111111111 * 3) % 2 ^ 64 in
    (bit_or (added * 2 % 2 ^ 64) (val / 2 ^ 31), val * 2 % 2 ^ 32)

pub num_uint32_to_str : ℕ → List ℕ
num_uint32_to_str val =
    put_digits 10 0 (repeat 29 dabble32 (val / 2 ^ 29, val * 2 ^ 3 % 2 ^ 32)).0 []

-- One round of the loop of `num_uint64_to_str`, on `buf_lo`, `buf_hi` and `val`.
pub dabble64 : ℕ × ℕ × ℕ → ℕ × ℕ × ℕ
dabble64 (buf_lo, buf_hi, val) =
    let lo = (buf_lo + bit_and (dabble_mask buf_lo) 0x1111111111111111 * 3) % 2 ^ 64 in
    let hi = (buf_hi + bit_and (dabble_mask buf_hi) 0x1111 * 3) % 2 ^ 16 in
    (
      bit_or (lo * 2 % 2 ^ 64) (val / 2 ^ 63),
      bit_or (hi * 2 % 2 ^ 16) (lo / 2 ^ 63),
      val * 2 % 2 ^ 64,
    )

pub num_uint64_to_str : ℕ → List ℕ
num_uint64_to_str val =
    let (lo, hi, _) = repeat 61 dabble64 (val / 2 ^ 61, 0, val * 2 ^ 3 % 2 ^ 64) in
    put_digits 4 0 hi (put_digits 16 0 lo [])

-- `while (buf_digits && outbuf[20 - buf_digits] == '0') buf_digits--;`
pub count_digits : ℕ → List ℕ → ℕ
count_digits zero outbuf = 0
count_digits (suc n) outbuf =
    if get_or outbuf (20 - suc n) 0 == b'0' then count_digits n outbuf else suc n

pub counted : ℕ → List ℕ → List ℕ × ℕ
counted buf_digits outbuf = (outbuf, count_digits buf_digits outbuf)

-- `outbuf` and the number of digits that are returned.
pub num_uint_to_str : ℕ → List ℕ × ℕ
unfolding counted
num_uint_to_str val =
    if bit_and val 0xffffffffffff0000 == 0
    then counted 5 (replicate 15 b'0' ++ num_uint16_to_str (val % 2 ^ 16))
    else if bit_and val 0xffffffff00000000 == 0
    then counted 10 (replicate 10 b'0' ++ num_uint32_to_str (val % 2 ^ 32))
    else counted 20 (num_uint64_to_str val)
