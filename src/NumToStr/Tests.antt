-- ===== src/NumToStr/Tests.antt =====
-- Numbers to text at concrete numbers.
use badger_os.Base.{◌≡◌, arith}
use badger_os.NumToStr.{num_uint_to_str}
use badger_os.NumToStr.Decimal.{decimal}
use badger_os.NumToStr.Count.{num_uint_to_str-decimal, IsDigitCount}

num_uint_to_str-decimal_example :
    ((num_uint_to_str 4294967296).0 ≡ decimal 20 4294967296)
    × IsDigitCount 4294967296 (num_uint_to_str 4294967296).1
num_uint_to_str-decimal_example = num_uint_to_str-decimal 4294967296 (omega arith)
