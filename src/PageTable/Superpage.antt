-- ===== src/PageTable/Superpage.antt =====
-- `pt_calc_superpage`: the largest page that fits.
use badger_os.Base.{ℕ, zero, suc, ◌-◌, ◌*◌, ◌%◌, ◌^◌, ◌≤◌, ◌<◌, ◌≡◌, ◌∙◌, sym, arith, inl, inr}
use badger_os.Base.{Bool, true, ◌&&◌, ◌==◌, leb, Bool-cases, bit_and}
use badger_os.Bits.Mask.{bit_and-ones}
use badger_os.PageTable.{pt_calc_superpage}

-- A page of level `l` fits at the start of a range.
abbrev pub Fits : (l vpn ppn max_len : ℕ) → Type 0
Fits l vpn ppn max_len = (vpn % 2 ^ (9 * l) ≡ 0) × (ppn % 2 ^ (9 * l) ≡ 0) × (2 ^ (9 * l) ≤ max_len)

abbrev test : (l vpn ppn max_len : ℕ) → Bool
test l vpn ppn max_len =
    (bit_and vpn (2 ^ (9 * l) - 1) == 0)
    && (bit_and ppn (2 ^ (9 * l) - 1) == 0)
    && leb (2 ^ (9 * l)) max_len

test→Fits : (l vpn ppn max_len : ℕ) → test l vpn ppn max_len ≡ true → Fits l vpn ppn max_len
test→Fits l vpn ppn max_len h =
    let a = bit_and-ones (9 * l) vpn in
    let b = bit_and-ones (9 * l) ppn in (ground arith, ground arith, ground arith)

Fits→test : (l vpn ppn max_len : ℕ) → Fits l vpn ppn max_len → test l vpn ppn max_len ≡ true
Fits→test l vpn ppn max_len (x, y, z) =
    let a = bit_and-ones (9 * l) vpn in let b = bit_and-ones (9 * l) ppn in ground arith

-- For a range that is not empty, the level chosen is at most the highest allowed, a page of that level
-- fits, and no page of a higher level allowed does.
pub pt_calc_superpage-largest :
    (max_level vpn ppn max_len : ℕ)
    → 0 < max_len
    → (pt_calc_superpage max_level vpn ppn max_len ≤ max_level)
      × Fits (pt_calc_superpage max_level vpn ppn max_len) vpn ppn max_len
      × ((j : ℕ)
          → pt_calc_superpage max_level vpn ppn max_len < j
          → j ≤ max_level
          → ¬ Fits j vpn ppn max_len)
unfolding pt_calc_superpage
pt_calc_superpage-largest zero vpn ppn max_len h =
    (omega arith, (omega arith, omega arith, omega arith), λ j lo hi. absurd (omega arith))
pt_calc_superpage-largest (suc i) vpn ppn max_len h =
    elim (Bool-cases (test (suc i) vpn ppn max_len)) [
      | inl fits ↦
          simp (fits)
            (omega arith, test→Fits (suc i) vpn ppn max_len fits, λ j lo hi. absurd (omega arith))
      | inr big ↦
          let (le, fits, above) = pt_calc_superpage-largest i vpn ppn max_len h in
          simp (big) (
            omega arith,
            fits,
            λ j lo hi fit. elim (Bool-cases (j == suc i)) [
              | inl e ↦
                  let same : j ≡ suc i = ground arith in
                  let fit' = rw same at fit in
                  let z = sym big ∙ Fits→test (suc i) vpn ppn max_len fit' in cc
              | inr ne ↦ above j lo (ground arith) fit
            ],
          )
    ]
