-- ===== src/Cstr/Text.antt =====
-- What the conversions leave in the buffer, and that it reads back as the number.
use native.Mathlib.Nat.{
  sub_self, pow-zero, div-one, pow-succ', div-div-eq-div-mul, mod-eq_of_lt, zero-add, mul_assoc,
  div-add-mod,
}
use badger_os.Base.{ℕ, zero, suc, ◌+◌, ◌-◌, ◌*◌, ◌/◌, ◌%◌, ◌^◌, ◌<◌, ◌≤◌, ◌≡◌, refl, arith}
use badger_os.Base.{◌∙◌, some, ltb, if◌then◌else◌}
use badger_os.Base.{lt→ltb, ◌==◌, dec_lt}
use badger_os.Int.{ℤ}
use badger_os.Memory.{Mem, MemLib, bytes, store}
use badger_os.NumToStr.{num_uint_to_str}
use badger_os.NumToStr.Decimal.{decimal_lem}
use badger_os.NumToStr.Count.{IsDigitCount, num_uint_to_str-decimal, digit_at}
use badger_os.Cstr.{at_least_one, magnitude, sign_of}
use badger_os.Cstr.{
  int_to_cstr, uint_to_cstr, uint_to_cstr_packed, uint_to_cstr_body, int_to_cstr_body,
  uint_to_cstr_packed_body,
}

-- `n` characters from offset `at` are the last `n` decimal digits of `v`.
abbrev pub HasDigits : Mem → ℕ → ℕ → ℕ → Type 0
HasDigits out at n v = (i : ℕ) → i < n → out (at + i) ≡ b'0' + v / 10 ^ (n - suc i) % 10

-- The value of `n` digits from offset `at`.
pub parse_decimal : Mem → ℕ → ℕ → ℕ
parse_decimal out at zero = 0
parse_decimal out at (suc n) = parse_decimal out at n * 10 + (out (at + n) - b'0')

mod-pow_ten : (n v : ℕ) → v % 10 ^ suc n ≡ v / 10 % 10 ^ n * 10 + v % 10
mod-pow_ten n v =
    let whole : 10 * (10 ^ n * (v / 10 / 10 ^ n)) + v % 10 ^ suc n ≡ v =
      rw (div-div-eq-div-mul, ← mul_assoc, ← pow-succ') (div-add-mod v (10 ^ suc n)) in
    omega (arith, whole, div-add-mod (v / 10) (10 ^ n))

pub parse_decimal-HasDigits :
    (out : Mem) (at n v : ℕ) → HasDigits out at n v → parse_decimal out at n ≡ v % 10 ^ n
unfolding parse_decimal
parse_decimal-HasDigits out at zero v h = omega arith
parse_decimal-HasDigits out at (suc n) v h =
    let front : HasDigits out at n (v / 10) = λ i hi.
      let shift : suc n - suc i ≡ suc (n - suc i) = omega arith in
      h i (omega arith) ∙ rw (shift, pow-succ', ← div-div-eq-div-mul) refl in
    let last : out (at + n) ≡ b'0' + v % 10 =
      h n (omega arith) ∙ rw (sub_self, pow-zero, div-one) refl in
    omega (arith, parse_decimal-HasDigits out at n (v / 10) front, last, mod-pow_ten n v)

digits_of_buffer :
    (val n i : ℕ)
    → val < 2 ^ 64
    → n ≤ 20
    → i < n
    → bytes (num_uint_to_str val).0 (20 - n + i) ≡ b'0' + val / 10 ^ (n - suc i) % 10
digits_of_buffer val n i h hn hi =
    let e : n - suc i + suc (20 - n + i) ≡ 20 = omega arith in
    rw ((num_uint_to_str-decimal val h).0, decimal_lem)
      (rw e at (digit_at (20 - n + i) (n - suc i) val))

-- A found count, raised to one for the number 0, is the length of the shortest decimal form.
pub record IsLength (val n : ℕ) : Type 0 where
  pub positive : 0 < n
  pub short : n ≤ 20
  pub enough : val < 10 ^ n
  pub fewest : (m : ℕ) → 0 < m → m < n → 10 ^ m ≤ val

at_least_one-IsLength :
    {val n : ℕ} → val < 2 ^ 64 → IsDigitCount val n → IsLength val (at_least_one n)
at_least_one-IsLength {val} {n = zero} h c = record {
  positive = omega arith;
  short = omega arith;
  enough = omega (arith, c.enough);
  fewest = λ m hm hn. absurd (omega arith);
}
at_least_one-IsLength {val} {n = suc n} h c = record {
  positive = ground arith;
  short = ground (arith, dec_lt 20 (suc n), c.fewest 20);
  enough = ground (arith, c.enough);
  fewest = λ m hm hn. c.fewest m (ground arith);
}

-- What is left in `out` of a buffer `before`, when `n` digits of `v` and a terminator are put at
-- offset `at`.
pub record IsText (before out : Mem) (at n v : ℕ) : Type 0 where
  pub digits : HasDigits out at n v
  pub ended : out (at + n) ≡ 0
  pub in_front : (x : ℕ) → x < at → out x ≡ before x
  pub behind : (x : ℕ) → at + n < x → out x ≡ before x

sign_of-le-one : (val : ℤ) → sign_of val ≤ 1
sign_of-le-one val = ground arith

-- The first tests of the conversions, with room for two bytes.
two_or_more {ℓ} :
    {A : Type ℓ} (size : ℕ)
    → 1 < size
    → (x y z : A) → (if size == 0 then x else if size == 1 then y else z) ≡ z
two_or_more size h x y z = ground arith

shorter :
    (digits sign size : ℕ)
    → 1 < size
    → sign ≤ 1
    → let n : ℕ = if ltb (digits + sign) (size - 1) then digits else size - 1 - sign in
      (n ≤ digits) × (n + sign < size)
shorter digits sign size hs h = ground arith

module _ (lib : MemLib) where
  open lib use {mem_copy, mem_copy_lem}

  copy-IsText :
      (before : Mem) (at n val : ℕ)
      → val < 2 ^ 64
      → n ≤ 20
      → IsText before
          (store (mem_copy before at (bytes (num_uint_to_str val).0) (20 - n) n) (at + n) 0)
          at
          n
          val
  copy-IsText before at n val h hn = record {
    digits = λ i hi. ground (
      arith,
      mem_copy_lem before at (bytes (num_uint_to_str val).0) (20 - n) n (at + i),
      digits_of_buffer val n i h hn hi,
    );
    ended = ground arith;
    in_front =
        λ x hx. ground (arith, mem_copy_lem before at (bytes (num_uint_to_str val).0) (20 - n) n x);
    behind =
        λ x hx. ground (arith, mem_copy_lem before at (bytes (num_uint_to_str val).0) (20 - n) n x);
  }

  -- `uint_to_cstr` of a 64-bit number, with room for two bytes or more, writes the digits of the
  -- number without leading zeros and a terminator where they fit into the buffer together, else the
  -- last `size - 1` of these digits and a terminator. It returns how many digits it wrote and
  -- changes nothing behind the terminator.
  pub uint_to_cstr_lem :
      (val size : ℕ) (outbuf : Mem)
      → val < 2 ^ 64
      → 1 < size
      → (out : Mem) × (n : ℕ) × (uint_to_cstr lib val (some outbuf) size ≡ (some out, n))
        × IsText outbuf out 0 n val
        × (n < size)
        × ((len : ℕ) × IsLength val len × (n ≡ (if ltb len (size - 1) then len else size - 1)))
  unfolding uint_to_cstr uint_to_cstr_body
  uint_to_cstr_lem val size outbuf h hs =
      let len = at_least_one-IsLength h ((num_uint_to_str-decimal val h).1) in
      let digits : ℕ = at_least_one (num_uint_to_str val).1 in
      let n : ℕ = if ltb digits (size - 1) then digits else size - 1 in
      let text = copy-IsText outbuf 0 n val h (ground (arith, len.short)) in
      (
        store (mem_copy outbuf 0 (bytes (num_uint_to_str val).0) (20 - n) n) n 0,
        n,
        ground arith,
        rw zero-add at text,
        ground arith,
        (digits, len, refl),
      )

  -- `int_to_cstr` of a number whose magnitude has at most 64 bits, with room for two bytes or more,
  -- writes a minus sign for a negative number, then the digits of its magnitude without leading
  -- zeros and a terminator where all of this fits into the buffer, else as many of the last of these
  -- digits as leave room for the terminator. It returns the length without the terminator and
  -- changes nothing behind the terminator.
  pub int_to_cstr_lem :
      (val : ℤ) (size : ℕ) (outbuf : Mem)
      → magnitude val < 2 ^ 64
      → 1 < size
      → (out : Mem) × (n : ℕ) × (int_to_cstr lib val (some outbuf) size
          ≡ (some out, n + sign_of val))
        × IsText
            (if sign_of val == 1 then store outbuf 0 b'-' else outbuf)
            out
            (sign_of val)
            n
            (magnitude val)
        × (n + sign_of val < size)
        × ((len : ℕ) × IsLength (magnitude val) len
            × (n ≡ (if ltb (len + sign_of val) (size - 1) then len else size - 1 - sign_of val)))
  unfolding int_to_cstr int_to_cstr_body
  int_to_cstr_lem val size outbuf h hs =
      let len = at_least_one-IsLength h ((num_uint_to_str-decimal (magnitude val) h).1) in
      let sign : ℕ = sign_of val in
      let one_sign = sign_of-le-one val in
      let digits : ℕ = at_least_one (num_uint_to_str (magnitude val)).1 in
      let n : ℕ = if ltb (digits + sign) (size - 1) then digits else size - 1 - sign in
      let signed : Mem = if sign == 1 then store outbuf 0 b'-' else outbuf in
      let fits = shorter digits sign size in
      (
        store (mem_copy signed sign (bytes (num_uint_to_str (magnitude val)).0) (20 - n) n)
            (sign + n) 0,
        n,
        two_or_more size hs _ _ _,
        copy-IsText signed sign n (magnitude val) h (omega (arith, len.short, fits hs one_sign)),
        omega (arith, fits hs one_sign),
        (digits, len, refl),
      )

  -- `uint_to_cstr_packed` leaves the last byte as it was where the digits fill all but that byte:
  -- the text is then neither terminated nor as long as the buffer.
  pub uint_to_cstr_packed_unterminated :
      (val size : ℕ) (outbuf : Mem)
      → val < 2 ^ 64
      → 1 < size
      → at_least_one (num_uint_to_str val).1 + 1 ≡ size
      → (out : Mem) × (uint_to_cstr_packed lib val (some outbuf) size ≡ (some out, size - 1))
        × (out (size - 1) ≡ outbuf (size - 1))
  unfolding uint_to_cstr_packed uint_to_cstr_packed_body
  uint_to_cstr_packed_unterminated val size outbuf h hs full =
      let n : ℕ = size - 1 in
      (
        mem_copy outbuf 0 (bytes (num_uint_to_str val).0) (20 - n) n,
        ground arith,
        ground (arith, mem_copy_lem outbuf 0 (bytes (num_uint_to_str val).0) (20 - n) n n),
      )

  -- What `uint_to_cstr` writes for a 64-bit number into a buffer of more than 21 bytes, read back as
  -- a decimal number, is that number.
  pub parse-uint_to_cstr :
      (val size : ℕ) (outbuf : Mem)
      → val < 2 ^ 64
      → 21 < size
      → (out : Mem) × (n : ℕ) × (uint_to_cstr lib val (some outbuf) size ≡ (some out, n))
        × (parse_decimal out 0 n ≡ val)
  parse-uint_to_cstr val size outbuf h hs =
      let (out, n, run, text, short, (len, form, all)) =
        uint_to_cstr_lem val size outbuf h (omega arith) in
      let whole : n ≡ len = all ∙ rw (lt→ltb len (size - 1) (omega (arith, form.short))) refl in
      let enough : val < 10 ^ n = rw whole form.enough in
      (out, n, run, parse_decimal-HasDigits out 0 n val text.digits ∙ mod-eq_of_lt enough)
