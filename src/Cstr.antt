-- ===== src/Cstr.antt =====
-- kernel/src/badgelib/num_to_str.c: the conversions to C strings over `num_uint_to_str`.
-- `outbuf` is `none` where it is NULL. The result is the buffer and the length that is returned.
pub mod Text
mod Tests
use badger_os.Base.{ℕ, ◌+◌, ◌-◌, ◌%◌, Bool, bit_or, Option, none, some, List}
use badger_os.Base.{◌==◌, ltb, if◌then◌else◌}
use badger_os.Int.{ℤ, pos, ltb_ℤ, pos_part, neg_part}
use badger_os.Memory.{Mem, MemLib, bytes, store}
use badger_os.NumToStr.{num_uint_to_str}

-- `if (!digits) digits = 1;`
abbrev pub at_least_one : ℕ → ℕ
at_least_one digits = if digits == 0 then 1 else digits

-- `val = -val` where it is negative, as the `uint64_t` that is passed on.
abbrev pub magnitude : ℤ → ℕ
magnitude val = pos_part val + neg_part val

abbrev pub sign_of : ℤ → ℕ
sign_of val = if ltb_ℤ val (pos 0) then 1 else 0

module _ (lib : MemLib) where
  open lib use {mem_copy}

  unfoldable pub int_to_cstr_body : ℤ → Mem → ℕ → Option Mem × ℕ
  int_to_cstr_body val outbuf size =
      let sign : ℕ = sign_of val in
      let signed : Mem = if sign == 1 then store outbuf 0 b'-' else outbuf in
      let (buf, found) = num_uint_to_str (magnitude val) in
      let digits : ℕ = at_least_one found in
      let copy_size : ℕ = if ltb (digits + sign) (size - 1) then digits else size - 1 - sign in
      let copied : Mem = mem_copy signed sign (bytes buf) (20 - copy_size) copy_size in
      (some (store copied (sign + copy_size) 0), copy_size + sign)

  pub int_to_cstr : ℤ → Option Mem → ℕ → Option Mem × ℕ
  int_to_cstr val none size = (none, 0)
  int_to_cstr val (some outbuf) size =
      if size == 0
      then (some outbuf, 0)
      else if size == 1
      then (some (store outbuf 0 0), 0)
      else int_to_cstr_body val outbuf size

  unfoldable pub uint_to_cstr_body : ℕ → Mem → ℕ → Option Mem × ℕ
  uint_to_cstr_body val outbuf size =
      let (buf, found) = num_uint_to_str val in
      let digits : ℕ = at_least_one found in
      let copy_size : ℕ = if ltb digits (size - 1) then digits else size - 1 in
      let copied : Mem = mem_copy outbuf 0 (bytes buf) (20 - copy_size) copy_size in
      (some (store copied copy_size 0), copy_size)

  pub uint_to_cstr : ℕ → Option Mem → ℕ → Option Mem × ℕ
  uint_to_cstr val none size = (none, 0)
  uint_to_cstr val (some outbuf) size =
      if size == 0
      then (some outbuf, 0)
      else if size == 1
      then (some (store outbuf 0 0), 0)
      else uint_to_cstr_body val outbuf size

  unfoldable pub int_to_cstr_packed_body : ℤ → Mem → ℕ → Option Mem × ℕ
  int_to_cstr_packed_body val outbuf size =
      let sign : ℕ = sign_of val in
      let signed : Mem = if sign == 1 then store outbuf 0 b'-' else outbuf in
      let (buf, found) = num_uint_to_str (magnitude val) in
      let digits : ℕ = at_least_one found in
      let copy_size : ℕ = if ltb digits (size - sign) then digits else size - sign in
      let copied : Mem = mem_copy signed sign (bytes buf) (20 - copy_size) copy_size in
      let ended : Mem =
        if ltb (sign + copy_size) size then store copied (sign + copy_size) 0 else copied in
      (some ended, copy_size + sign)

  pub int_to_cstr_packed : ℤ → Option Mem → ℕ → Option Mem × ℕ
  int_to_cstr_packed val none size = (none, 0)
  int_to_cstr_packed val (some outbuf) size =
      if size == 0 then (some outbuf, 0) else int_to_cstr_packed_body val outbuf size

  unfoldable pub uint_to_cstr_packed_body : ℕ → Mem → ℕ → Option Mem × ℕ
  uint_to_cstr_packed_body val outbuf size =
      let (buf, found) = num_uint_to_str val in
      let digits : ℕ = at_least_one found in
      let copy_size : ℕ = if ltb digits size then digits else size in
      let copied : Mem = mem_copy outbuf 0 (bytes buf) (20 - copy_size) copy_size in
      let ended : Mem = if ltb copy_size (size - 1) then store copied copy_size 0 else copied in
      (some ended, copy_size)

  pub uint_to_cstr_packed : ℕ → Option Mem → ℕ → Option Mem × ℕ
  uint_to_cstr_packed val none size = (none, 0)
  uint_to_cstr_packed val (some outbuf) size =
      if size == 0
      then (some outbuf, 0)
      else if size == 1
      then (some (store outbuf 0 (bit_or b'0' (val % 10))), 1)
      else uint_to_cstr_packed_body val outbuf size
