-- ===== src/Buddy/Tiles.antt =====
-- The blocks of a pool as aligned intervals of pages, and the buddy of one.
use native.Mathlib.Nat.{
  mul_assoc, mul_comm, one-le-pow, pow-suc, mul-div_cancel, add-mul-div_right, div_self,
  div-add-mod,
}
use badger_os.Base.{ℕ, suc, ◌+◌, ◌*◌, ◌/◌, ◌%◌, ◌^◌, ◌<◌, ◌≤◌, ◌≡◌, refl, sym, ap, ◌∙◌}
use mathlib.Core.Path.{subst}
use badger_os.Base.{◌≢◌, ◌⊎◌, inl, inr, arith, Bool, true, false, ◌==◌, Bool-cases}
use badger_os.Buddy.{flip}

-- The page `i` is a multiple of the size of a block of the order `o`.
abbrev pub IsAligned : (i o : ℕ) → Type 0
IsAligned i o = (k : ℕ) × (i ≡ k * 2 ^ o)

-- The blocks of order `o` at `i` and `j` are the halves of a block.
pub record IsPair (o i j : ℕ) : Type 0 where
  pub aligned : IsAligned i (suc o)
  pub right : j ≡ i + 2 ^ o
  pub flip_left : flip i o ≡ j
  pub flip_right : flip j o ≡ i

pub pow-pos : (o : ℕ) → 1 ≤ 2 ^ o
pow-pos o = one-le-pow o 2 (omega arith)

twice : (k p : ℕ) → 2 * k * p ≡ k * (p * 2)
twice k p = ap (λ x. x * p) (mul_comm 2 k) ∙ mul_assoc k 2 p ∙ ap (λ x. k * x) (mul_comm 2 p)

flip-even : (k o : ℕ) → flip (2 * k * 2 ^ o) o ≡ 2 * k * 2 ^ o + 2 ^ o
unfolding flip
flip-even k o =
    let q : 2 * k * 2 ^ o / 2 ^ o ≡ 2 * k = mul-div_cancel (2 * k) (pow-pos o) in
    rw q (ground arith)

flip-odd : (k o : ℕ) → flip (2 * k * 2 ^ o + 2 ^ o) o ≡ 2 * k * 2 ^ o
unfolding flip
flip-odd k o =
    let a : 2 * k * 2 ^ o + 2 ^ o ≡ 2 ^ o + 2 * k * 2 ^ o = omega arith in
    let b = add-mul-div_right (2 ^ o) (2 * k) (pow-pos o) in
    let c : 2 ^ o / 2 ^ o ≡ 1 = div_self (pow-pos o) in
    let q : (2 * k * 2 ^ o + 2 ^ o) / 2 ^ o ≡ 1 + 2 * k =
      ap (λ x. x / 2 ^ o) a ∙ b ∙ ap (λ x. x + 2 * k) c in
    let r : (1 + 2 * k) % 2 ≡ 1 = omega arith in rw (q, r) (ground arith)

next : (k p : ℕ) → (2 * k + 1) * p ≡ 2 * k * p + p
next k p = omega arith

IsPair-left : (k o : ℕ) → IsPair o (2 * k * 2 ^ o) (2 * k * 2 ^ o + 2 ^ o)
IsPair-left k o = record {
  aligned = (k, twice k (2 ^ o) ∙ ap (λ x. k * x) (sym (pow-suc 2 o)));
  right = refl;
  flip_left = flip-even k o;
  flip_right = flip-odd k o;
}

-- An aligned block and its buddy are the halves of a block.
pub flip-IsPair : (i o : ℕ) → IsAligned i o → IsPair o i (flip i o) ⊎ IsPair o (flip i o) i
flip-IsPair i o (k, e) =
    let h = div-add-mod k 2 in
    let halves : (k % 2 == 0) ≡ false → k ≡ 2 * (k / 2) + 1 = λ odd. ground arith in
    let p = IsPair-left (k / 2) o in
    elim (Bool-cases (k % 2 == 0)) [
      | inl left ↦
          let f : i ≡ 2 * (k / 2) * 2 ^ o = e ∙ ap (λ x. x * 2 ^ o) (ground arith) in
          inl (
            subst (λ x. IsPair o x (flip x o)) (sym f)
              (subst (λ x. IsPair o (2 * (k / 2) * 2 ^ o) x) (sym p.flip_left) p))
      | inr right ↦
          let f : i ≡ 2 * (k / 2) * 2 ^ o + 2 ^ o =
            e ∙ ap (λ x. x * 2 ^ o) (halves right) ∙ next (k / 2) (2 ^ o) in
          inr (
            subst (λ x. IsPair o (flip x o) x) (sym f)
              (subst (λ x. IsPair o x (2 * (k / 2) * 2 ^ o + 2 ^ o)) (sym p.flip_right) p))
    ]

-- The buddy of the buddy of an aligned block is the block.
pub flip-flip : (i o : ℕ) → IsAligned i o → flip (flip i o) o ≡ i
flip-flip i o a = elim (flip-IsPair i o a) [ inl p ↦ p.flip_right | inr p ↦ p.flip_left ]

-- The left half is aligned to the size of the whole block, and to its own.
pub IsPair-IsAligned : {o i j : ℕ} → IsPair o i j → IsAligned i o × IsAligned j o
IsPair-IsAligned {o} {i} {j} p =
    let (k, e) = p.aligned in
    let f : i ≡ 2 * k * 2 ^ o = e ∙ ap (λ x. k * x) (pow-suc 2 o) ∙ sym (twice k (2 ^ o)) in
    ((2 * k, f), (2 * k + 1, p.right ∙ ap (λ x. x + 2 ^ o) f ∙ sym (next k (2 ^ o))))

-- The halves of an aligned block.
pub IsAligned-IsPair : {o i : ℕ} → IsAligned i (suc o) → IsPair o i (flip i o)
IsAligned-IsPair {o} {i} (k, e) =
    let p = IsPair-left k o in
    let f : i ≡ 2 * k * 2 ^ o = e ∙ ap (λ x. k * x) (pow-suc 2 o) ∙ sym (twice k (2 ^ o)) in
    subst (λ x. IsPair o x (flip x o)) (sym f)
      (subst (λ x. IsPair o (2 * k * 2 ^ o) x) (sym p.flip_left) p)

-- The blocks whose first pages `head` accepts are aligned, in a pool of `2 ^ n` pages and apart.
pub record IsTiled (head : ℕ → Bool) (order : ℕ → ℕ) (n : ℕ) : Type 0 where
  pub inside :
      (i : ℕ) → head i ≡ true → (order i ≤ n) × IsAligned i (order i) × (i + 2 ^ order i ≤ 2 ^ n)
  pub apart : (i j : ℕ) → head i ≡ true → head j ≡ true → i < j → i + 2 ^ order i ≤ j

-- One block that fills the pool.
pub one_block-IsTiled :
    {head : ℕ → Bool} {order : ℕ → ℕ} {n : ℕ}
    → ((i : ℕ) → head i ≡ true → i ≡ 0)
    → order 0 ≡ n
    → IsTiled head order n
one_block-IsTiled {head} {order} {n} only size = record {
  inside = λ i h. let is = only i h in rw (is, size) (omega arith, (0, omega arith), omega arith);
  apart = λ i j h h' lt. let is = only i h in let is' = only j h' in absurd (omega arith);
}

pub flip_zero : (o : ℕ) → flip 0 o ≢ 0
flip_zero o same = elim (flip-IsPair 0 o (0, omega arith)) [
  | inl p ↦ let r = p.right in let pos = pow-pos o in omega arith
  | inr p ↦ let r = p.right in let pos = pow-pos o in omega arith
]
