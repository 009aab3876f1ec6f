-- ===== src/Cstr/Tests.antt =====
-- Conversions to C strings at concrete numbers.
use badger_os.Base.{ℕ, zero, suc, ◌+◌, ◌-◌, ◌<◌, ◌≡◌, arith, refl, some, ltb, if◌then◌else◌}
use badger_os.Int.{negsuc}
use badger_os.Memory.{Mem, store}
use badger_os.Memory.Plain.{plain}
use badger_os.NumToStr.{num_uint_to_str}
use badger_os.NumToStr.Count.{num_uint_to_str-decimal, IsDigitCount}
use badger_os.Cstr.{int_to_cstr, uint_to_cstr, uint_to_cstr_packed, at_least_one}
use badger_os.Cstr.Text.{
  parse_decimal, parse-uint_to_cstr, int_to_cstr_lem, uint_to_cstr_lem,
  uint_to_cstr_packed_unterminated, IsText, IsLength,
}

abbrev blank : Mem
blank i = 7

parse-uint_to_cstr_example :
    (out : Mem) × (n : ℕ) × (uint_to_cstr plain 1234 (some blank) 32 ≡ (some out, n))
    × (parse_decimal out 0 n ≡ 1234)
parse-uint_to_cstr_example = parse-uint_to_cstr plain 1234 32 blank (omega arith) (omega arith)

uint_to_cstr_lem_example :
    (out : Mem) × (n : ℕ) × (uint_to_cstr plain 1234 (some blank) 3 ≡ (some out, n))
    × IsText blank out 0 n 1234
    × (n < 3)
    × ((len : ℕ) × IsLength 1234 len × (n ≡ (if ltb len (3 - 1) then len else 3 - 1)))
uint_to_cstr_lem_example = uint_to_cstr_lem plain 1234 3 blank (omega arith) (omega arith)

int_to_cstr_lem_example :
    (out : Mem) × (n : ℕ) × (int_to_cstr plain (negsuc 11) (some blank) 32 ≡ (some out, n + 1))
    × IsText (store blank 0 b'-') out 1 n 12
    × (n + 1 < 32)
    × ((len : ℕ) × IsLength 12 len × (n ≡ (if ltb (len + 1) (32 - 1) then len else 32 - 1 - 1)))
int_to_cstr_lem_example = int_to_cstr_lem plain (negsuc 11) 32 blank (omega arith) (omega arith)

two_digits : (n : ℕ) → IsDigitCount 12 n → at_least_one n + 1 ≡ 3
two_digits zero c = let too_few = c.enough in absurd (omega arith)
two_digits (suc zero) c = let too_few = c.enough in absurd (omega arith)
two_digits (suc (suc zero)) c = refl
two_digits (suc (suc (suc n))) c = let too_many = c.fewest 2 (omega arith) in absurd (omega arith)

uint_to_cstr_packed_unterminated_holds :
    (out : Mem) × (uint_to_cstr_packed plain 12 (some blank) 3 ≡ (some out, 2)) × (out 2 ≡ 7)
uint_to_cstr_packed_unterminated_holds =
    uint_to_cstr_packed_unterminated plain 12 3 blank (omega arith) (omega arith)
      (two_digits (num_uint_to_str 12).1 (num_uint_to_str-decimal 12 (omega arith)).1)
