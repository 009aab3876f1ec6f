-- ===== src/Freestanding/Strlen.antt =====
-- `strlen` and `strnlen` find the first zero byte.
use Prim.Native.Nat.{min}
use badger_os.Base.{
  ℕ, zero, suc, ◌+◌, ◌<◌, ◌≡◌, ◌≢◌, some, arith, ◌==◌, ◌≤◌, false, ◌∙◌, ℕ_discrete,
}
use badger_os.Memory.{Mem}
use badger_os.Freestanding.{strlen_from, strlen, strnlen_from, strnlen}

-- The first zero byte from `string` on is at offset `n`.
pub record EndsAt (m : Mem) (string n : ℕ) : Type 0 where
  pub zero_byte : m (string + n) ≡ 0
  pub none_before : (i : ℕ) → i < n → m (string + i) ≢ 0

module _ {m : Mem} {string n : ℕ} (e : EndsAt m string n) where
  not_yet : (ptr : ℕ) → ptr < n → (m (string + ptr) == 0) ≡ false
  not_yet ptr h = ground (arith, e.none_before ptr h)

  strlen_from-EndsAt :
      (fuel ptr : ℕ) → ptr ≤ n → n < ptr + fuel → strlen_from fuel m string ptr ≡ some n
  unfolding strlen_from
  strlen_from-EndsAt zero ptr lo hi = absurd (omega arith)
  strlen_from-EndsAt (suc fuel) ptr lo hi = elim (ℕ_discrete ptr n) [
    | yes here ↦ rw (here, e.zero_byte)
    | no before ↦
        rw (not_yet ptr (omega arith))
          (strlen_from-EndsAt fuel (ptr + 1) (omega arith) (omega arith))
  ]

  strnlen_from-EndsAt : (rounds i : ℕ) → i ≤ n → strnlen_from rounds m string i ≡ min (i + rounds) n
  unfolding strnlen_from
  strnlen_from-EndsAt zero i lo = omega arith
  strnlen_from-EndsAt (suc rounds) i lo = elim (ℕ_discrete i n) [
    | yes here ↦ rw (here, e.zero_byte) (omega arith)
    | no before ↦
        rw (not_yet i (omega arith))
          (strnlen_from-EndsAt rounds (i + 1) (omega arith) ∙ omega arith)
  ]

  -- Where the first zero byte is at offset `n`, `strlen` with more fuel than that returns `n`, and
  -- `strnlen` returns `n` or its limit, whichever is less.
  pub strlen-EndsAt :
      (fuel max_len : ℕ)
      → n < fuel
      → (strlen fuel m string ≡ some n) × (strnlen m string max_len ≡ min max_len n)
  unfolding strlen strnlen
  strlen-EndsAt fuel max_len h = (
    strlen_from-EndsAt fuel 0 (omega arith) (omega arith),
    strnlen_from-EndsAt max_len 0 (omega arith) ∙ omega arith,
  )
