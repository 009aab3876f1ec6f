-- ===== src/IntRoutines/Swap.antt =====
-- Byte swapping.
use native.Mathlib.Nat.{pow-suc, pow-succ', div-div-eq-div-mul, pow-zero, div-one}
use badger_os.Base.{
  ℕ, zero, suc, ◌+◌, ◌*◌, ◌/◌, ◌%◌, ◌^◌, ◌<◌, ◌≤◌, ◌≡◌, refl, ◌∙◌, arith, ◌-◌, ltb, if◌then◌else◌,
}
use badger_os.Memory.{Mem, store}
use badger_os.IntRoutines.{word_bytes, bytes_word, turn, bswap}

byte-suc : (a i : ℕ) → a / 256 ^ suc i % 256 ≡ a / 256 / 256 ^ i % 256
byte-suc a i = rw (pow-succ', ← div-div-eq-div-mul) refl

byte-zero : (a : ℕ) → a / 256 ^ 0 % 256 ≡ a % 256
byte-zero a = rw (pow-zero, div-one) refl

bytes_word-same :
    (n : ℕ) (xs ys : Mem) → ((i : ℕ) → i < n → xs i ≡ ys i) → bytes_word n xs ≡ bytes_word n ys
unfolding bytes_word
bytes_word-same zero xs ys h = refl
bytes_word-same (suc n) xs ys h =
    let rest =
      bytes_word-same n (λ i. xs (suc i)) (λ i. ys (suc i)) (λ i hi. h (suc i) (omega arith)) in
    let first = h 0 (omega arith) in omega (arith, rest, first)

bytes_word-word_bytes : (n a : ℕ) → a < 256 ^ n → bytes_word n (word_bytes a) ≡ a
unfolding bytes_word
bytes_word-word_bytes zero a h = omega arith
bytes_word-word_bytes (suc n) a h =
    let p = pow-suc 256 n in
    let rest = bytes_word-word_bytes n (a / 256) (omega arith) in
    let shift =
      bytes_word-same n (λ i. word_bytes a (suc i)) (word_bytes (a / 256)) (λ i hi. byte-suc a i) in
    omega (arith, rest, shift, byte-zero a)

bytes_word-lt : (n : ℕ) (arr : Mem) → ((i : ℕ) → i < n → arr i < 256) → bytes_word n arr < 256 ^ n
unfolding bytes_word
bytes_word-lt zero arr h = omega arith
bytes_word-lt (suc n) arr h =
    let p = pow-suc 256 n in
    let rest = bytes_word-lt n (λ i. arr (suc i)) (λ i hi. h (suc i) (omega arith)) in
    let first = h 0 (omega arith) in omega (arith, rest, first)

word_bytes-bytes_word :
    (n : ℕ) (arr : Mem) (i : ℕ)
    → ((j : ℕ) → j < n → arr j < 256)
    → i < n
    → bytes_word n arr / 256 ^ i % 256 ≡ arr i
unfolding bytes_word
word_bytes-bytes_word zero arr i h hi = absurd (omega arith)
word_bytes-bytes_word (suc n) arr zero h hi =
    let first = h 0 (omega arith) in byte-zero _ ∙ omega arith
word_bytes-bytes_word (suc n) arr (suc i) h hi =
    let first = h 0 (omega arith) in
    let high : (arr 0 + 256 * bytes_word n (λ j. arr (suc j))) / 256
        ≡ bytes_word n (λ j. arr (suc j)) =
      omega arith in
    let rest =
      word_bytes-bytes_word n (λ j. arr (suc j)) i (λ j hj. h (suc j) (omega arith))
        (omega arith) in
    byte-suc _ i ∙ rw high rest

turn_lem :
    (n m : ℕ) (arr out : Mem) (i : ℕ)
    → m ≤ n
    → turn n m arr out i ≡ (if ltb i m then arr (n - 1 - i) else out i)
unfolding turn
turn_lem n zero arr out i h = ground arith
turn_lem n (suc m) arr out i h =
    let at : n - (n - suc m) - 1 ≡ m = omega arith in
    let from : n - suc m ≡ n - 1 - m = omega arith in
    turn_lem n m arr (store out (n - (n - suc m) - 1) (arr (n - suc m))) i (omega arith)
    ∙ rw (at, from) (ground arith)

bswap-bytes :
    (n : ℕ) (out : Mem) (a i : ℕ)
    → i < n
    → bswap n out a / 256 ^ i % 256 ≡ a / 256 ^ (n - 1 - i) % 256
unfolding bswap
bswap-bytes n out a i hi =
    word_bytes-bytes_word n (turn n n (word_bytes a) out) i
      (λ j hj. ground (arith, turn_lem n n (word_bytes a) out j (omega arith))) hi
    ∙ ground (arith, turn_lem n n (word_bytes a) out i (omega arith))

-- Byte `i` of the word that byte swapping makes of `n` bytes is byte `n - 1 - i` of the word that was
-- given, and swapping twice gives that word back, whatever the unions held before.
pub bswap-bswap :
    (n : ℕ) (out out' : Mem) (a : ℕ)
    → a < 256 ^ n
    → ((i : ℕ) → i < n → bswap n out a / 256 ^ i % 256 ≡ a / 256 ^ (n - 1 - i) % 256)
      × (bswap n out a < 256 ^ n)
      × (bswap n out' (bswap n out a) ≡ a)
unfolding bswap
bswap-bswap n out out' a h = (
  bswap-bytes n out a,
  bytes_word-lt n (turn n n (word_bytes a) out)
      (λ j hj. ground (arith, turn_lem n n (word_bytes a) out j (omega arith))),
  bytes_word-same n (turn n n (word_bytes (bswap n out a)) out') (word_bytes a) (λ i hi.
        let back : n - 1 - (n - 1 - i) ≡ i = omega arith in
        let at = bswap-bytes n out a (n - 1 - i) (omega arith) in
        ground
          (arith, turn_lem n n (word_bytes (bswap n out a)) out' i (omega arith), rw back at at))
      ∙ bytes_word-word_bytes n a h,
)
