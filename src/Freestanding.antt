-- ===== src/Freestanding.antt =====
-- kernel/src/freestanding/string.c: the C memory functions, over one memory of bytes. Pointers are
-- numbers; a region does not go past the end of the address space, so no address wraps. A word of
-- two, four or eight bytes lies in memory with its lowest byte first, as on every RISC-V target.
pub mod Memmove
pub mod Memset
pub mod Strlen
mod Tests
use badger_os.Base.{ℕ, zero, suc, ◌+◌, ◌*◌, ◌/◌, ◌%◌, bit_and, bit_or, Option, none, some}
use badger_os.Base.{◌==◌, ltb, if◌then◌else◌}
use badger_os.Memory.{Mem, store}

-- `*(uintW_t *)at`, where `w` is the number of bytes.
unfoldable pub load_word : ℕ → Mem → ℕ → ℕ
load_word zero m at = 0
load_word (suc w) m at = m at + 256 * load_word w m (at + 1)

-- `*(uintW_t *)at = value`
unfoldable pub store_word : ℕ → Mem → ℕ → ℕ → Mem
store_word zero m at value = m
store_word (suc w) m at value = store_word w (store m at (value % 256)) (at + 1) (value / 256)

-- The widest access that every bit of `align_detector` allows.
pub access_width : ℕ → ℕ
access_width align_detector =
    if bit_and align_detector 1 == 0
    then if bit_and align_detector 2 == 0 then if bit_and align_detector 4 == 0 then 8 else 4 else 2
    else 1

-- The two loops of MEM_COPY_IMPL. `n` rounds are left; forward, they start at element `i`.
pub copy_forward : (w n i dest src : ℕ) → Mem → Mem
copy_forward w zero i dest src m = m
copy_forward w (suc n) i dest src m =
    copy_forward w n (i + 1) dest src (store_word w m (dest + i * w) (load_word w m (src + i * w)))

pub copy_backward : (w n dest src : ℕ) → Mem → Mem
copy_backward w zero dest src m = m
copy_backward w (suc i) dest src m =
    copy_backward w i dest src (store_word w m (dest + i * w) (load_word w m (src + i * w)))

pub mem_copy_impl : (w dest src size : ℕ) → Mem → Mem
mem_copy_impl w dest src size m =
    if ltb dest src
    then copy_forward w (size / w) 0 dest src m
    else if ltb src dest
    then copy_backward w (size / w) dest src m
    else m

pub memmove : (dest src size : ℕ) → Mem → Mem
memmove dest src size = mem_copy_impl (access_width (bit_or (bit_or dest src) size)) dest src size

pub memcpy : (dest src size : ℕ) → Mem → Mem
memcpy = memmove

-- The loop of MEM_SET_IMPL: `value` goes to each element as it is, a `uint8_t` made wider.
pub set_elements : (w n i dest value : ℕ) → Mem → Mem
set_elements w zero i dest value m = m
set_elements w (suc n) i dest value m =
    set_elements w n (i + 1) dest value (store_word w m (dest + i * w) value)

pub memset : (dest value size : ℕ) → Mem → Mem
memset dest value size m =
    let w = access_width (bit_or dest size) in set_elements w (size / w) 0 dest value m

-- `while (*ptr) ptr++;` on fuel. `none`: no terminator in the first `fuel` bytes.
pub strlen_from : (fuel : ℕ) → Mem → (string ptr : ℕ) → Option ℕ
strlen_from zero m string ptr = none
strlen_from (suc fuel) m string ptr =
    let next = strlen_from fuel m string (ptr + 1) in
    if m (string + ptr) == 0 then some ptr else next

pub strlen : (fuel : ℕ) → Mem → (string : ℕ) → Option ℕ
unfolding strlen_from
strlen fuel m string = strlen_from fuel m string 0

-- The loop of `strnlen` from index `i` with `n` rounds left.
pub strnlen_from : (n : ℕ) → Mem → (string i : ℕ) → ℕ
strnlen_from zero m string i = i
strnlen_from (suc n) m string i =
    let next = strnlen_from n m string (i + 1) in if m (string + i) == 0 then i else next

pub strnlen : Mem → (string max_len : ℕ) → ℕ
unfolding strnlen_from
strnlen m string max_len = strnlen_from max_len m string 0
