-- ===== src/Blockdevice/Slots.antt =====
-- Which cache entry `blkdev_alloc_cache` and `blkdev_find_cache` choose.
use badger_os.Base.{ℕ, zero, suc, ◌+◌, ◌<◌, ◌≡◌, refl, ◌⊎◌, inl, inr, arith}
use badger_os.Base.{true, false, Option, none, some, List, [], ◌∷◌, get_or, set, length, Bool-cases}
use badger_os.Int.{ℤ}
use badger_os.Blockdevice.Defs.{Flags, blkdev_is_dirty, no_entry}
use badger_os.Blockdevice.Cache.{holds, consider, alloc_loop, find_loop}

-- An entry that may be given to `block`: it is the block's own, or nothing of it waits to be written.
abbrev pub Usable : Flags → ℕ → Type 0
Usable f block = (holds f block ≡ true) ⊎ (blkdev_is_dirty f ≡ false)

abbrev pub entry : List Flags → ℕ → Flags
entry fs i = get_or fs i no_entry

pub consider-best :
    (f : Flags) (i : ℕ) (oldest : ℤ) (best : Option ℕ) {j : ℕ}
    → (consider f i oldest best).1 ≡ some j
    → (best ≡ some j) ⊎ ((j ≡ i) × (blkdev_is_dirty f ≡ false))
unfolding consider blkdev_is_dirty
consider-best f i oldest best h = ground arith

pub alloc_loop-Usable :
    (fs : List Flags) (i block : ℕ) (oldest : ℤ) (best : Option ℕ) {j : ℕ}
    → alloc_loop fs i block oldest best ≡ some j
    → (best ≡ some j) ⊎ ((k : ℕ) × (j ≡ i + k) × (k < length fs) × Usable (entry fs k) block)
unfolding alloc_loop
alloc_loop-Usable [] i block oldest best h = inl h
alloc_loop-Usable (f ∷ fs) i block oldest best {j} h = elim (Bool-cases (holds f block)) [
  | inl own ↦ inr (0, ground arith, ground arith, inl own)
  | inr other ↦
      let kept = consider f i oldest best in
      elim (alloc_loop-Usable fs (i + 1) block kept.0 kept.1 {j = j} (ground arith)) [
        | inl old ↦ elim (consider-best f i oldest best old) [
          | inl before ↦ inl before
          | inr (at, clean) ↦ inr (0, omega arith, omega arith, inr clean)
        ]
        | inr (k, at, lt, usable) ↦ inr (suc k, omega arith, omega arith, usable)
      ]
]

-- A block that has an entry is given that entry.
pub alloc_loop-find :
    (fs : List Flags) (i block : ℕ) (oldest : ℤ) (best : Option ℕ) {j : ℕ}
    → find_loop fs i block ≡ some j
    → alloc_loop fs i block oldest best ≡ some j
unfolding alloc_loop find_loop
alloc_loop-find [] i block oldest best h = cc
alloc_loop-find (f ∷ fs) i block oldest best {j} h =
    let kept = consider f i oldest best in
    ground (arith, alloc_loop-find fs (i + 1) block kept.0 kept.1 {j = j})

pub find_loop-holds :
    (fs : List Flags) (i block : ℕ) {j : ℕ}
    → find_loop fs i block ≡ some j
    → (k : ℕ) × (j ≡ i + k) × (k < length fs) × (holds (entry fs k) block ≡ true)
unfolding find_loop
find_loop-holds [] i block h = cc
find_loop-holds (f ∷ fs) i block {j} h = elim (Bool-cases (holds f block)) [
  | inl own ↦ (0, ground arith, ground arith, own)
  | inr other ↦
      let (k, at, lt, own) = find_loop-holds fs (i + 1) block {j = j} (ground arith) in
      (suc k, omega arith, omega arith, own)
]

-- An entry that is made the block's own is found, unless one in front of it is found before.
pub find_loop-set-unfound :
    (fs : List Flags) (i block k : ℕ) (f : Flags)
    → find_loop fs i block ≡ none
    → k < length fs
    → holds f block ≡ true
    → find_loop (set fs k f) i block ≡ some (i + k)
unfolding find_loop
find_loop-set-unfound [] i block k f h lt own = elim lt [ ]
find_loop-set-unfound (g ∷ fs) i block zero f h lt own = ground arith
find_loop-set-unfound (g ∷ fs) i block (suc k) f h lt own =
    ground (arith, find_loop-set-unfound fs (i + 1) block k f)

pub find_loop-set-found :
    (fs : List Flags) (i block k : ℕ) (f : Flags)
    → find_loop fs i block ≡ some (i + k)
    → holds f block ≡ true
    → find_loop (set fs k f) i block ≡ some (i + k)
unfolding find_loop
find_loop-set-found [] i block k f h own = cc
find_loop-set-found (g ∷ fs) i block zero f h own = ground arith
find_loop-set-found (g ∷ fs) i block (suc k) f h own =
    ground (arith, find_loop-set-found fs (i + 1) block k f)

-- An entry of another block in place of one leaves a block without entry.
pub find_loop-set-other :
    (fs : List Flags) (i block k : ℕ) (f : Flags)
    → find_loop fs i block ≡ none
    → holds f block ≡ false
    → find_loop (set fs k f) i block ≡ none
unfolding find_loop
find_loop-set-other [] i block k f h other = refl
find_loop-set-other (g ∷ fs) i block zero f h other = ground arith
find_loop-set-other (g ∷ fs) i block (suc k) f h other =
    ground (arith, find_loop-set-other fs (i + 1) block k f)
