-- ===== src/Slab/Settle.antt =====
-- What the end of `slab_deallocate` may do with a page whose header counts a slot in use less.
use badger_os.Base.{
  ℕ, zero, suc, ◌+◌, ◌-◌, ◌/◌, ◌%◌, ◌^◌, ◌≤◌, ◌<◌, ◌≡◌, ◌≢◌, ◌⊎◌, inl, inr, refl, ap, sym, fun_ext,
  arith,
}
use badger_os.Base.{
  true, false, Bool-cases, Option, none, some, List, [], ◌∷◌, ◌==◌, leb, ◌&&◌, if◌then◌else◌,
}
use badger_os.Buddy.{assign, delete}
use badger_os.Buddy.Pools.{buddy_deallocate}
use badger_os.Slab.{Slabs, SlabHeader, set_header, slab_tresholds, lower_use}

-- One slot in use less, and all else as it was.
abbrev pub one_less : SlabHeader → SlabHeader
one_less h = record h { use_count = (h.use_count + 255) % 256 }

-- What `slab_deallocate` does with the page when its header becomes `h`.
abbrev pub settle : (page : ℕ) → SlabHeader → Slabs → Option Slabs
settle page h s =
    let changed = set_header page h s in
    if leb h.use_count (slab_tresholds h.size (h.slab_use - 1))
    then lower_use page changed
    else some changed

pub assign-assign {ℓ} :
    {A : Type ℓ} (f : ℕ → A) (i : ℕ) (x y : A) → assign (assign f i x) i y ≡ assign f i y
assign-assign f i x y =
    fun_ext λ j. elim (Bool-cases (j == i)) [ inl same ↦ rw same refl | inr other ↦ rw other refl ]

pub assign_self {ℓ} : {A : Type ℓ} (f : ℕ → A) (i : ℕ) → assign f i (f i) ≡ f
assign_self f i = fun_ext λ j. elim (Bool-cases (j == i)) [
  | inl same ↦ let e : j ≡ i = ground arith in rw same (sym (ap f e))
  | inr other ↦ rw other refl
]

pub assign_at {ℓ} : {A : Type ℓ} (f : ℕ → A) (i : ℕ) (x : A) → assign f i x i ≡ x
assign_at f i x = let own : (i == i) ≡ true = ground arith in rw own refl

-- The most slots in use that a page of a use has: none, those in a quarter of 4096 bytes, those in a
-- half, or all that fit behind the header.
pub most_used : (size level : ℕ) → ℕ
most_used size zero = 0
most_used size (suc zero) = 1024 / 2 ^ (size + 5)
most_used size (suc (suc zero)) = 2048 / 2 ^ (size + 5)
most_used size _ = 4032 / 2 ^ (size + 5)

pub tresholds-most :
    (size level : ℕ) → size < 4 → level < 4 → slab_tresholds size level ≡ most_used size level
unfolding slab_tresholds most_used
tresholds-most zero zero h h' = refl
tresholds-most zero (suc zero) h h' = refl
tresholds-most zero (suc (suc zero)) h h' = refl
tresholds-most zero (suc (suc (suc u))) h h' = refl
tresholds-most (suc zero) zero h h' = refl
tresholds-most (suc zero) (suc zero) h h' = refl
tresholds-most (suc zero) (suc (suc zero)) h h' = refl
tresholds-most (suc zero) (suc (suc (suc u))) h h' = refl
tresholds-most (suc (suc zero)) zero h h' = refl
tresholds-most (suc (suc zero)) (suc zero) h h' = refl
tresholds-most (suc (suc zero)) (suc (suc zero)) h h' = refl
tresholds-most (suc (suc zero)) (suc (suc (suc u))) h h' = refl
tresholds-most (suc (suc (suc zero))) zero h h' = refl
tresholds-most (suc (suc (suc zero))) (suc zero) h h' = refl
tresholds-most (suc (suc (suc zero))) (suc (suc zero)) h h' = refl
tresholds-most (suc (suc (suc zero))) (suc (suc (suc u))) h h' = refl
tresholds-most (suc (suc (suc (suc size)))) u h h' = absurd (omega arith)

-- In `s'` the page has one slot in use less than in `s`, and the use `use`; its size, its bitmap and
-- all other pages are as before.
pub record IsLess (s s' : Slabs) (page level : ℕ) : Type 0 where
  pub use_count : (s'.header page).use_count + 1 ≡ (s.header page).use_count
  pub slab_use : (s'.header page).slab_use ≡ level
  pub size : (s'.header page).size ≡ (s.header page).size
  pub bitmap : (i : ℕ) → (s'.header page).bitmap i ≡ (s.header page).bitmap i
  pub others : (p : ℕ) → p ≢ page → s'.header p ≡ s.header p

-- The list of a size and a use, without the page where it is the list that the page was in.
abbrev pub without : Slabs → (page size level : ℕ) → List ℕ
without s page size level =
    let h = s.header page in
    if (size == h.size) && (level == h.slab_use)
    then delete page (s.lists size level)
    else s.lists size level

-- The same, with the page in front of the list of the next emptier use.
abbrev pub moved : Slabs → (page size level : ℕ) → List ℕ
moved s page size level =
    let h = s.header page in
    if (size == h.size) && (level + 1 == h.slab_use)
    then page ∷ s.lists size level
    else without s page size level

-- What may become of a page of `s` from which a slot is given back, where `result` is the outcome:
-- it stays where it is, moves to the list of the next emptier use, or goes back to the pools, which
-- may panic.
unfoldable pub IsSettled : Slabs → (page : ℕ) → (result : Option Slabs) → Type 0
IsSettled s page result =
    let h = s.header page in
    let full = most_used h.size (h.slab_use - 1) in
    ((full + 1 < h.use_count)
      × (s' : Slabs) × (result ≡ some s')
      × IsLess s s' page h.slab_use
      × (s'.lists ≡ s.lists)
      × (s'.pools ≡ s.pools))
    ⊎ ((h.use_count ≤ full + 1)
        × ((1 < h.slab_use) ⊎ (s.lists h.size 0 ≡ []))
        × (s' : Slabs) × (result ≡ some s')
        × IsLess s s' page (h.slab_use - 1)
        × ((size level : ℕ) → s'.lists size level ≡ moved s page size level)
        × (s'.pools ≡ s.pools))
    ⊎ ((h.use_count ≤ full + 1)
        × (h.slab_use ≡ 1)
        × (s.lists h.size 0 ≢ [])
        × (s' : Slabs) × (result ≡ some s')
        × IsLess s s' page 0
        × ((size level : ℕ) → s'.lists size level ≡ without s page size level)
        × (buddy_deallocate page s.pools ≡ some s'.pools))
    ⊎ ((h.use_count ≤ full + 1)
        × (h.slab_use ≡ 1)
        × (s.lists h.size 0 ≢ [])
        × (buddy_deallocate page s.pools ≡ none)
        × (result ≡ none))

pub List-cases : (xs : List ℕ) → (xs ≡ []) ⊎ ((x : ℕ) × (ys : List ℕ) × (xs ≡ x ∷ ys))
List-cases [] = inl refl
List-cases (x ∷ ys) = inr (x, ys, refl)

pub set_header-IsLess :
    (s s' : Slabs) (page level count : ℕ)
    → count + 1 ≡ (s.header page).use_count
    → s'.header
      ≡ assign s.header page (record (s.header page) { use_count = count; slab_use = level })
    → IsLess s s' page level
set_header-IsLess s s' page level count counted e =
    let own : (page == page) ≡ true = ground arith in
    record {
      use_count = rw (e, own) counted;
      slab_use = rw (e, own) refl;
      size = rw (e, own) refl;
      bitmap = λ i. rw (e, own) refl;
      others = λ p ne. let other : (p == page) ≡ false = ground arith in rw (e, other) refl;
    }
