-- ===== src/Freestanding/Memmove.antt =====
-- `memmove` copies as if through a second buffer, whichever way the regions overlap.
use badger_os.Base.{ℕ, zero, suc, ◌+◌, ◌-◌, ◌*◌, ◌/◌, ◌%◌, ◌<◌, ◌≡◌, ◌∙◌, arith}
use badger_os.Base.{bit_or, if◌then◌else◌}
use badger_os.Bits.Mask.{bit_and-one, bit_and-two, bit_and-four, bit_or-mod_two, bit_or-half}
use badger_os.Memory.{Mem, store, within, copied}
use badger_os.Freestanding.{load_word, store_word, access_width, copy_forward, copy_backward}
use badger_os.Freestanding.{mem_copy_impl, memmove}

abbrev pub IsBytes : Mem → Type 0
IsBytes m = (x : ℕ) → m x < 256

-- A word that is loaded and stored is a copy of its bytes.
pub store_word-load_word :
    (w : ℕ) (to from : Mem) (at src x : ℕ)
    → IsBytes from
    → store_word w to at (load_word w from src) x
      ≡ (if within at w x then from (src + (x - at)) else to x)
unfolding store_word load_word
store_word-load_word zero to from at src x h = ground arith
store_word-load_word (suc w) to from at src x h =
    let low : (from src + 256 * load_word w from (src + 1)) % 256 ≡ from src =
      omega (arith, h src) in
    let high : (from src + 256 * load_word w from (src + 1)) / 256 ≡ load_word w from (src + 1) =
      omega (arith, h src) in
    rw (low, high)
      (store_word-load_word w (store to at (from src)) from (at + 1) (src + 1) x h ∙ ground arith)

-- The element that a round copies.
abbrev moved : Mem → ℕ → ℕ → ℕ → Mem
moved m w at src = store_word w m at (load_word w m src)

moved-IsBytes : (w at src : ℕ) {m : Mem} → IsBytes m → IsBytes (moved m w at src)
moved-IsBytes w at src {m} h x =
    ground (arith, store_word-load_word w m m at src x h, h x, h (src + (x - at)))

copy_forward_lem :
    (w n i dest src x : ℕ) (m : Mem)
    → IsBytes m
    → dest < src
    → copy_forward w n i dest src m x
      ≡ (if within (dest + i * w) (n * w) x then m (src + (x - dest)) else m x)
unfolding copy_forward
copy_forward_lem w zero i dest src x m h lt = ground arith
copy_forward_lem w (suc n) i dest src x m h lt =
    let m' : Mem = moved m w (dest + i * w) (src + i * w) in
    ground (
      arith,
      copy_forward_lem w n (i + 1) dest src x m' (moved-IsBytes w (dest + i * w) (src + i * w) h)
          lt,
      store_word-load_word w m m (dest + i * w) (src + i * w) x h,
      store_word-load_word w m m (dest + i * w) (src + i * w) (src + (x - dest)) h,
    )

copy_backward_lem :
    (w n dest src x : ℕ) (m : Mem)
    → IsBytes m
    → src < dest
    → copy_backward w n dest src m x ≡ (if within dest (n * w) x then m (src + (x - dest)) else m x)
unfolding copy_backward
copy_backward_lem w zero dest src x m h lt = ground arith
copy_backward_lem w (suc n) dest src x m h lt =
    let m' : Mem = moved m w (dest + n * w) (src + n * w) in
    ground (
      arith,
      copy_backward_lem w n dest src x m' (moved-IsBytes w (dest + n * w) (src + n * w) h) lt,
      store_word-load_word w m m (dest + n * w) (src + n * w) x h,
      store_word-load_word w m m (dest + n * w) (src + n * w) (src + (x - dest)) h,
    )

-- The width that is chosen divides the size.
pub access_width-divides :
    (others size : ℕ) → let w = access_width (bit_or others size) in size / w * w ≡ size
unfolding access_width
access_width-divides others size = ground (
  arith,
  bit_and-one (bit_or others size),
  bit_and-two (bit_or others size),
  bit_and-four (bit_or others size),
  bit_or-mod_two others size,
  bit_or-half others size,
  bit_or-mod_two (others / 2) (size / 2),
  bit_or-half (others / 2) (size / 2),
  bit_or-mod_two (others / 2 / 2) (size / 2 / 2),
)

-- After `memmove` the destination holds what the source held before, byte for byte, for every
-- overlap and every alignment, and no other byte has changed.
pub memmove_lem :
    (dest src size : ℕ) (m : Mem)
    → IsBytes m
    → (x : ℕ) → memmove dest src size m x ≡ copied m dest m src size x
unfolding memmove mem_copy_impl
memmove_lem dest src size m h x =
    let w : ℕ = access_width (bit_or (bit_or dest src) size) in
    ground (
      arith,
      access_width-divides (bit_or dest src) size,
      copy_forward_lem w (size / w) 0 dest src x m h,
      copy_backward_lem w (size / w) dest src x m h,
    )
