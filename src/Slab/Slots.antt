-- ===== src/Slab/Slots.antt =====
-- A slot that is taken and given back.
use native.Mathlib.Nat.{pow-suc, one-le-pow, mod-eq_of_lt}
use badger_os.Base.{
  ℕ, zero, suc, ◌+◌, ◌-◌, ◌*◌, ◌/◌, ◌%◌, ◌^◌, ◌≤◌, ◌<◌, ◌≡◌, ◌≢◌, refl, sym, ap, ◌∙◌, ◌⊎◌, inl, inr,
  arith,
}
use badger_os.Base.{bit_and, bit_or, false, leb→le, Bool-cases, none, some, ◌==◌, leb}
use native.Mathlib.Nat.{add-mul-div_right, pow-le-pow_right}
use badger_os.Bits.{bit_and-digit, bit_or-digit}
use badger_os.Bits.Mask.{bit_and-ones, bit_or-zero, div-pow-suc}
use badger_os.Slab.{slab_bytes, slab_empty, bitmap_clear_bit, bitmap_set_bit, first_word}

-- `word & ~(1 << k)` where the digit `k` is set.
clear_digit :
    (n k w : ℕ)
    → w < 2 ^ n
    → k < n
    → w / 2 ^ k % 2 ≡ 1
    → (bit_and w (2 ^ n - 1 - 2 ^ k) ≡ w - 2 ^ k) × (2 ^ k ≤ w) × (2 ^ k < 2 ^ n)
clear_digit zero k w h lt d = absurd (omega arith)
clear_digit (suc n) zero w h lt d =
    let pow = pow-suc 2 n in
    let pos = one-le-pow n 2 (omega arith) in
    let odd : w % 2 ≡ 1 = ground arith in
    let half : (2 ^ suc n - 1 - 2 ^ 0) / 2 ≡ 2 ^ n - 1 = omega arith in
    let e = ap (bit_and (w / 2)) half ∙ bit_and-ones n (w / 2) in
    let f : w / 2 % 2 ^ n ≡ w / 2 = mod-eq_of_lt (omega arith) in
    (omega (arith, bit_and-digit w (2 ^ suc n - 1 - 2 ^ 0)), omega arith, omega arith)
clear_digit (suc n) (suc k) w h lt d =
    let pow = pow-suc 2 n in
    let pow' = pow-suc 2 k in
    let (e, le, small) =
      clear_digit n k (w / 2) (omega arith) (omega arith)
        (ap (λ x. x % 2) (sym (div-pow-suc k w)) ∙ d) in
    let half : (2 ^ suc n - 1 - 2 ^ suc k) / 2 ≡ 2 ^ n - 1 - 2 ^ k = omega arith in
    let f = ap (bit_and (w / 2)) half in
    (omega (arith, bit_and-digit w (2 ^ suc n - 1 - 2 ^ suc k)), omega arith, omega arith)

-- `word | (1 << k)` where the digit `k` is not set.
set_digit : (k w : ℕ) → w / 2 ^ k % 2 ≡ 0 → bit_or w (2 ^ k) ≡ w + 2 ^ k
set_digit zero w d =
    let even : w % 2 ≡ 0 = ground arith in omega (arith, bit_or-digit w 1, bit_or-zero (w / 2))
set_digit (suc k) w d =
    let pow = pow-suc 2 k in
    let e = set_digit k (w / 2) (ap (λ x. x % 2) (sym (div-pow-suc k w)) ∙ d) in
    let half : 2 ^ suc k / 2 ≡ 2 ^ k = omega arith in
    let f = ap (bit_or (w / 2)) half in omega (arith, bit_or-digit w (2 ^ suc k))

-- A slot that is cleared is not set, and setting it gives the word back.
pub set-clear :
    (w k : ℕ)
    → w < 2 ^ 32
    → k < 32
    → w / 2 ^ k % 2 ≡ 1
    → (bitmap_set_bit (bitmap_clear_bit w k) k ≡ w) × (bitmap_clear_bit w k ≢ w) × (2 ^ k ≤ w)
unfolding bitmap_set_bit bitmap_clear_bit
set-clear w k h lt d =
    let pos = one-le-pow k 2 (omega arith) in
    let (e, le, _) = clear_digit 32 k w h lt d in
    let q = add-mul-div_right (w - 2 ^ k) 1 pos in
    let back : w - 2 ^ k + 1 * 2 ^ k ≡ w = omega arith in
    let q' : w / 2 ^ k ≡ (w - 2 ^ k) / 2 ^ k + 1 = ap (λ x. x / 2 ^ k) (sym back) ∙ q in
    let f = set_digit k (w - 2 ^ k) (omega arith) in
    (ap (λ x. bit_or x (2 ^ k)) e ∙ f ∙ omega arith, λ same. absurd (omega arith), le)

digit_below : (m k : ℕ) → 2 ^ k ≤ 2 ^ m - 1 → k < m
digit_below m k h = elim (Bool-cases (leb m k)) [
  | inl far ↦
      let up = pow-le-pow_right {n = 2} (omega arith) (leb→le m k far) in
      let pos = one-le-pow m 2 (omega arith) in absurd (omega arith)
  | inr near ↦ ground arith
]

-- The slots of a page by their size.
unfoldable pub capacity : ℕ → ℕ
capacity zero = 126
capacity (suc zero) = 63
capacity (suc (suc zero)) = 31
capacity _ = 15

pub slot-lt :
    (size i k : ℕ) → size < 4 → i < 4 → 2 ^ k ≤ slab_empty size i → i * 32 + k < capacity size
unfolding capacity slab_empty
slot-lt zero zero k hs hi h = let lt = digit_below 32 k h in omega arith
slot-lt zero (suc zero) k hs hi h = let lt = digit_below 32 k h in omega arith
slot-lt zero (suc (suc zero)) k hs hi h = let lt = digit_below 32 k h in omega arith
slot-lt zero (suc (suc (suc zero))) k hs hi h = let lt = digit_below 30 k h in omega arith
slot-lt zero (suc (suc (suc (suc i)))) k hs hi h = absurd (omega arith)
slot-lt (suc zero) zero k hs hi h = let lt = digit_below 32 k h in omega arith
slot-lt (suc zero) (suc zero) k hs hi h = let lt = digit_below 31 k h in omega arith
slot-lt (suc zero) (suc (suc zero)) k hs hi h = let lt = digit_below 0 k h in omega arith
slot-lt (suc zero) (suc (suc (suc zero))) k hs hi h = let lt = digit_below 0 k h in omega arith
slot-lt (suc zero) (suc (suc (suc (suc i)))) k hs hi h = absurd (omega arith)
slot-lt (suc (suc zero)) zero k hs hi h = let lt = digit_below 31 k h in omega arith
slot-lt (suc (suc zero)) (suc zero) k hs hi h = let lt = digit_below 0 k h in omega arith
slot-lt (suc (suc zero)) (suc (suc zero)) k hs hi h = let lt = digit_below 0 k h in omega arith
slot-lt (suc (suc zero)) (suc (suc (suc zero))) k hs hi h =
    let lt = digit_below 0 k h in omega arith
slot-lt (suc (suc zero)) (suc (suc (suc (suc i)))) k hs hi h = absurd (omega arith)
slot-lt (suc (suc (suc zero))) zero k hs hi h = let lt = digit_below 15 k h in omega arith
slot-lt (suc (suc (suc zero))) (suc zero) k hs hi h = let lt = digit_below 0 k h in omega arith
slot-lt (suc (suc (suc zero))) (suc (suc zero)) k hs hi h =
    let lt = digit_below 0 k h in omega arith
slot-lt (suc (suc (suc zero))) (suc (suc (suc zero))) k hs hi h =
    let lt = digit_below 0 k h in omega arith
slot-lt (suc (suc (suc zero))) (suc (suc (suc (suc i)))) k hs hi h = absurd (omega arith)
slot-lt (suc (suc (suc (suc size)))) i k hs hi h = absurd (omega arith)

-- The page and the slot of an address, by size.
pub record IsSlot (size page slot address : ℕ) : Type 0 where
  pub some_address : (address == 0) ≡ false
  pub page_of : address / 4096 * 4096 ≡ page
  pub slot_of_address : (address - page + 2 ^ 64 - 64) % 2 ^ 64 / slab_bytes size % 2 ^ 32 ≡ slot
  pub above : page + 64 ≤ address
  pub below : address + slab_bytes size ≤ page + 4096

pub address-IsSlot :
    (size page slot : ℕ)
    → page % 4096 ≡ 0
    → slot < capacity size
    → IsSlot size page slot (page + 64 + slot * slab_bytes size)
unfolding slab_bytes capacity
address-IsSlot zero page slot aligned lt = record {
  some_address = ground arith;
  page_of = omega arith;
  slot_of_address = omega arith;
  above = omega arith;
  below = omega arith;
}
address-IsSlot (suc zero) page slot aligned lt = record {
  some_address = ground arith;
  page_of = omega arith;
  slot_of_address = omega arith;
  above = omega arith;
  below = omega arith;
}
address-IsSlot (suc (suc zero)) page slot aligned lt = record {
  some_address = ground arith;
  page_of = omega arith;
  slot_of_address = omega arith;
  above = omega arith;
  below = omega arith;
}
address-IsSlot (suc (suc (suc size))) page slot aligned lt = record {
  some_address = ground arith;
  page_of = omega arith;
  slot_of_address = omega arith;
  above = omega arith;
  below = omega arith;
}

pub first_word_lem :
    (bitmap : ℕ → ℕ) (n i : ℕ)
    → ((first_word bitmap n i ≡ none) × ((j : ℕ) → i ≤ j → j < i + n → bitmap j ≡ 0))
      ⊎ ((k : ℕ) × (first_word bitmap n i ≡ some k) × (k < i + n) × (bitmap k ≢ 0))
unfolding first_word
first_word_lem bitmap zero i = inl (refl, λ j lo hi. absurd (omega arith))
first_word_lem bitmap (suc n) i = elim (Bool-cases (bitmap i == 0)) [
  | inr full ↦ inr (i, rw (first_word, full) refl, omega arith, ground arith)
  | inl none_here ↦ elim (first_word_lem bitmap n (i + 1)) [
    | inl (e, h) ↦ inl (
      rw (first_word, none_here) e,
      λ j lo hi. elim (Bool-cases (j == i)) [
        | inl same ↦ ap bitmap {y = i} (ground arith) ∙ ground arith
        | inr other ↦ h j (ground arith) (omega arith)
      ],
    )
    | inr (k, e, lt, ne) ↦ inr (k, rw (first_word, none_here) e, omega arith, ne)
  ]
]

pub slab_empty-lt : (size i : ℕ) → slab_empty size i < 2 ^ 32
unfolding slab_empty
slab_empty-lt zero zero = omega arith
slab_empty-lt zero (suc zero) = omega arith
slab_empty-lt zero (suc (suc zero)) = omega arith
slab_empty-lt zero (suc (suc (suc i))) = omega arith
slab_empty-lt (suc zero) zero = omega arith
slab_empty-lt (suc zero) (suc zero) = omega arith
slab_empty-lt (suc zero) (suc (suc zero)) = omega arith
slab_empty-lt (suc zero) (suc (suc (suc i))) = omega arith
slab_empty-lt (suc (suc zero)) zero = omega arith
slab_empty-lt (suc (suc zero)) (suc zero) = omega arith
slab_empty-lt (suc (suc zero)) (suc (suc zero)) = omega arith
slab_empty-lt (suc (suc zero)) (suc (suc (suc i))) = omega arith
slab_empty-lt (suc (suc (suc size))) zero = omega arith
slab_empty-lt (suc (suc (suc size))) (suc zero) = omega arith
slab_empty-lt (suc (suc (suc size))) (suc (suc zero)) = omega arith
slab_empty-lt (suc (suc (suc size))) (suc (suc (suc i))) = omega arith
