-- ===== src/Freestanding/Memset.antt =====
-- `memset` writes its byte once in each element.
use native.Mathlib.Nat.{mod-eq_of_lt, add-mul-mod_self_right}
use badger_os.Base.{ℕ, zero, suc, ◌+◌, ◌-◌, ◌*◌, ◌/◌, ◌%◌, ◌<◌, ◌≤◌, ◌≡◌, ◌∙◌, arith}
use badger_os.Base.{bit_or, ◌==◌, if◌then◌else◌}
use badger_os.Bits.Mask.{bit_and-one, bit_or-mod_two}
use badger_os.Memory.{Mem, store, within}
use badger_os.Freestanding.{store_word, access_width, set_elements, memset}
use badger_os.Freestanding.Memmove.{access_width-divides}

store_word-zero :
    (w : ℕ) (m : Mem) (at x : ℕ) → store_word w m at 0 x ≡ (if within at w x then 0 else m x)
unfolding store_word
store_word-zero zero m at x = ground arith
store_word-zero (suc w) m at x = store_word-zero w (store m at 0) (at + 1) x ∙ ground arith

-- A byte that is stored as a wider word lands in the first place, with zeros behind it.
store_word_byte :
    (w : ℕ) (m : Mem) (at value x : ℕ)
    → value < 256
    → store_word (suc w) m at value x
      ≡ (if within at (suc w) x then (if x == at then value else 0) else m x)
unfolding store_word
store_word_byte w m at value x h =
    let low : value % 256 ≡ value = omega arith in
    let high : value / 256 ≡ 0 = omega arith in
    rw (low, high) (store_word-zero w (store m at value) (at + 1) x ∙ ground arith)

-- What `memset` leaves in the region: the byte at the start of each element, zero elsewhere.
abbrev pub element_byte : (w dest value x : ℕ) → ℕ
element_byte w dest value x = if (x - dest) % w == 0 then value else 0

first_of_element :
    (w i dest value x : ℕ)
    → dest + i * suc w ≤ x
    → x < dest + i * suc w + suc w
    → element_byte (suc w) dest value x ≡ (if x == dest + i * suc w then value else 0)
first_of_element w i dest value x lo hi =
    let r : ℕ = x - (dest + i * suc w) in
    let split : x - dest ≡ r + i * suc w = omega arith in
    rw (split, add-mul-mod_self_right, mod-eq_of_lt {n = r} {m = suc w} (omega arith))
      (ground arith)

set_elements_lem :
    (w n i dest value x : ℕ) (m : Mem)
    → value < 256
    → set_elements (suc w) n i dest value m x
      ≡ (if within (dest + i * suc w) (n * suc w) x then element_byte (suc w) dest value x else m x)
unfolding set_elements
set_elements_lem w zero i dest value x m h = ground arith
set_elements_lem w (suc n) i dest value x m h = ground (
  arith,
  set_elements_lem w n (i + 1) dest value x (store_word (suc w) m (dest + i * suc w) value) h,
  store_word_byte w m (dest + i * suc w) value x h,
  first_of_element w i dest value x,
)

access_width-suc : (d : ℕ) → access_width d ≡ suc (access_width d - 1)
unfolding access_width
access_width-suc d = ground arith

-- `memset` writes the byte at the start of each of the elements that it takes the region for and
-- zeros in the rest of each, and nothing outside the region.
pub memset_lem :
    (dest value size x : ℕ) (m : Mem)
    → value < 256
    → memset dest value size m x ≡ (
        if within dest size x
        then element_byte (access_width (bit_or dest size)) dest value x
        else m x)
unfolding memset
memset_lem dest value size x m h =
    let w : ℕ = access_width (bit_or dest size) - 1 in
    let e = access_width-suc (bit_or dest size) in
    let whole : size / suc w * suc w ≡ size = rw e at (access_width-divides dest size) in
    rw e (set_elements_lem w (size / suc w) 0 dest value x m h ∙ ground arith)

even-wide : (dest size : ℕ) → dest % 2 ≡ 0 → size % 2 ≡ 0 → 2 ≤ access_width (bit_or dest size)
unfolding access_width
even-wide dest size h k = ground (arith, bit_and-one (bit_or dest size), bit_or-mod_two dest size)

-- For an even address and an even size that is not 0, the second byte becomes 0, whatever byte the
-- region was to be filled with.
pub memset_second_byte :
    (dest value size : ℕ) (m : Mem)
    → value < 256
    → dest % 2 ≡ 0
    → size % 2 ≡ 0
    → 0 < size
    → memset dest value size m (dest + 1) ≡ 0
memset_second_byte dest value size m h even_dest even_size pos =
    let w : ℕ = access_width (bit_or dest size) in
    let wide : 2 ≤ w = even-wide dest size even_dest even_size in
    let one : (1 % w) ≡ 1 = mod-eq_of_lt wide in
    let offset : dest + 1 - dest ≡ 1 = omega arith in
    memset_lem dest value size (dest + 1) m h ∙ rw (offset, one) (ground arith)
