-- ===== src/Memory/Plain.antt =====
-- `mem_copy` and `mem_set` as plain functions, for the tests.
use badger_os.Base.{refl}
use badger_os.Memory.{MemLib, copied, filled}

abbrev pub plain : MemLib
plain = record {
  mem_copy = copied;
  mem_set = filled;
  mem_copy_lem = λ dest at src from n x. refl;
  mem_set_lem = λ dest at value n x. refl;
}
