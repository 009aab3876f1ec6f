-- ===== src/Freestanding/Tests.antt =====
-- The memory functions on a small memory.
use badger_os.Base.{◌≡◌, arith, refl, ◌+◌, if◌then◌else◌, some, bit_or, ltb}
use Prim.Native.Nat.{min}
use badger_os.Memory.{Mem, copied, within}
use badger_os.Freestanding.{memmove, memset, strlen, strnlen, access_width}
use badger_os.Freestanding.Memmove.{memmove_lem}
use badger_os.Freestanding.Memset.{memset_lem, memset_second_byte, element_byte}
use badger_os.Freestanding.Strlen.{strlen-EndsAt, EndsAt}

abbrev seven : Mem
seven i = 7

abbrev text : Mem
text i = if ltb i 3 then 65 else 0

text-EndsAt : EndsAt text 0 3
text-EndsAt = record { zero_byte = refl; none_before = λ i h. ground arith }

memmove_lem_example : memmove 2 0 8 seven 5 ≡ copied seven 2 seven 0 8 5
memmove_lem_example = memmove_lem 2 0 8 seven (λ i. omega arith) 5

memset_lem_example :
    memset 8 65 16 seven 9
    ≡ (if within 8 16 9 then element_byte (access_width (bit_or 8 16)) 8 65 9 else seven 9)
memset_lem_example = memset_lem 8 65 16 9 seven (omega arith)

memset_second_byte_holds : memset 8 65 16 seven (8 + 1) ≡ 0
memset_second_byte_holds = memset_second_byte 8 65 16 seven (omega arith) refl refl (omega arith)

strlen-EndsAt_example : (strlen 10 text 0 ≡ some 3) × (strnlen text 0 2 ≡ min 2 3)
strlen-EndsAt_example = strlen-EndsAt text-EndsAt 10 2 (omega arith)
