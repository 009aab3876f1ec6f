-- ===== src/PageTable/Rights.antt =====
-- The rights that `memprotect_u` asks for, and when addresses are those of whole pages.
use badger_os.Base.{ℕ, zero, suc, ◌+◌, ◌*◌, ◌%◌, ◌/◌, ◌^◌, ◌≡◌, arith}
use badger_os.Base.{◌==◌, if◌then◌else◌, bit_and, bit_or}
use badger_os.Bits.Mask.{
  bit_and-half, bit_and-mod_two, bit_or-half, bit_or-mod_two, bit_or-zero, bit_and-two, mod-pow-suc,
}
use badger_os.Mmu.{has_flag, memprotect_flag_w, memprotect_flag_r}

-- Reading, writing and executing of `flags`, with reading where writing is asked for.
abbrev pub rights : ℕ → ℕ
rights flags = if flags / 2 % 2 == 1 then flags % 8 / 2 * 2 + 1 else flags % 8

user_mask :
    (a : ℕ) → let b = bit_and a 4294967247 in (b % 8 ≡ a % 8) × (b / 16 % 2 ≡ 0) × (b / 32 % 2 ≡ 0)
user_mask a =
    let h0 = bit_and-half a 4294967247 in
    let h1 = bit_and-half (a / 2) 2147483623 in
    let h2 = bit_and-half (a / 2 / 2) 1073741811 in
    let h3 = bit_and-half (a / 2 / 2 / 2) 536870905 in
    let h4 = bit_and-half (a / 2 / 2 / 2 / 2) 268435452 in
    let m0 = bit_and-mod_two a 4294967247 in
    let m1 = bit_and-mod_two (a / 2) 2147483623 in
    let m2 = bit_and-mod_two (a / 2 / 2) 1073741811 in
    let m4 = bit_and-mod_two (a / 2 / 2 / 2 / 2) 268435452 in
    let m5 = bit_and-mod_two (a / 2 / 2 / 2 / 2 / 2) 134217726 in
    (omega arith, omega arith, omega arith)

abbrev pub granted : ℕ → ℕ
granted flags0 =
    if has_flag flags0 memprotect_flag_w then bit_or flags0 memprotect_flag_r else flags0

pub granted-rights :
    (flags : ℕ)
    → let g = granted (bit_and flags 4294967247) in
      (g % 8 ≡ rights flags) × (g / 16 % 2 ≡ 0) × (g / 32 % 2 ≡ 0)
granted-rights flags =
    let f = bit_and flags 4294967247 in
    let (low, global, kernel) = user_mask flags in
    let w = bit_and-two f in
    let h = bit_or-half f 1 in
    let m = bit_or-mod_two f 1 in
    let z = bit_or-zero (f / 2) in
    (ground (arith, w, h, m, z), ground (arith, w, h, m, z), ground (arith, w, h, m, z))

-- Two addresses lie at multiples of a power of 2 when their union does.
pub bit_or-aligned : (k a b : ℕ) → bit_or a b % 2 ^ k ≡ 0 → (a % 2 ^ k ≡ 0) × (b % 2 ^ k ≡ 0)
bit_or-aligned zero a b h = (omega arith, omega arith)
bit_or-aligned (suc k) a b h =
    let half = bit_or-half a b in
    let low = bit_or-mod_two a b in
    let d = mod-pow-suc k (bit_or a b) in
    let half_mod : bit_or a b / 2 % 2 ^ k ≡ 0 = omega arith in
    let (x, y) = bit_or-aligned k (a / 2) (b / 2) (rw half at half_mod) in
    (omega (arith, mod-pow-suc k a), omega (arith, mod-pow-suc k b))
