-- ===== src/Sync/Mutex/Rounds.antt =====
-- When the loops of the mutex end, on the rounds that the other threads leave them.
use badger_os.Base.{ℕ, ◌+◌, ◌≤◌, ◌<◌, ◌≡◌, refl, inl, inr, arith, Bool, true, false, not, ◌&&◌}
use badger_os.Base.{◌==◌, none, some, List, [], ◌∷◌, ◌++◌, Bool-cases, if◌then◌else◌}
use badger_os.Errors.{Location, Cause, ok, failed}
use badger_os.Sync.Mutex.{
  Round, exclusive_magic, await_swap_round, thresh_add_round, await_swap_atomic_int,
  thresh_add_atomic_int, mutex_acquire_impl, mutex_acquire_shared_impl,
}

-- Every round of the list ends before the deadline.
abbrev pub all_in_time : List Round → Bool
all_in_time [] = true
all_in_time (r ∷ rs) = r.in_time && all_in_time rs

await_swap_atomic_int-succeeds :
    (expected new_value : ℕ) (before after : List Round) (r : Round)
    → all_in_time before ≡ true
    → r.shares ≡ expected
    → r.spurious ≡ false
    → (word : ℕ) × (await_swap_atomic_int expected new_value (before ++ r ∷ after)
        ≡ some (some word))
unfolding await_swap_atomic_int await_swap_round
await_swap_atomic_int-succeeds expected new_value [] after r timely free sound =
    (new_value, ground arith)
await_swap_atomic_int-succeeds expected new_value (q ∷ before) after r timely free sound =
    let timely' : all_in_time before ≡ true = ground arith in
    let (word, rest) =
      await_swap_atomic_int-succeeds expected new_value before after r timely' free sound in
    elim (Bool-cases (not q.spurious && (q.shares == expected))) [
      | inl now ↦ (new_value, ground arith)
      | inr later ↦ (word, ground arith)
    ]

-- An exclusive acquire succeeds if in some round the mutex is free and the exchange does not fail
-- without reason, and the rounds before that one end in time.
pub mutex_acquire_impl-succeeds :
    (before after : List Round) (r : Round)
    → all_in_time before ≡ true
    → r.shares ≡ 0
    → r.spurious ≡ false
    → mutex_acquire_impl (before ++ r ∷ after) ≡ some (true, ok)
unfolding mutex_acquire_impl
mutex_acquire_impl-succeeds before after r timely free sound =
    let (word, done) =
      await_swap_atomic_int-succeeds 0 exclusive_magic before after r timely free sound in
    rw done refl

thresh_add_atomic_int-stuck :
    (threshold old : ℕ) (rs : List Round)
    → threshold ≤ old + 1
    → thresh_add_atomic_int threshold old rs ≡ (if all_in_time rs then none else some none)
unfolding thresh_add_atomic_int thresh_add_round
thresh_add_atomic_int-stuck threshold old [] h = refl
thresh_add_atomic_int-stuck threshold old (r ∷ rs) h =
    ground (arith, thresh_add_atomic_int-stuck threshold old rs h)

-- A shared acquire of a mutex that may be shared, which first reads it while it is taken
-- exclusively, never succeeds, whatever the other threads do after that, a release of the mutex
-- included: as long as its rounds end in time it is still waiting, and after a round that does not
-- it has failed with the cause `timeout`.
pub mutex_acquire_shared_impl-stuck :
    (loaded : ℕ) (rs : List Round)
    → exclusive_magic ≤ loaded
    → mutex_acquire_shared_impl true loaded rs
      ≡ (if all_in_time rs then none else some (false, failed Location.unknown Cause.timeout))
unfolding mutex_acquire_shared_impl
mutex_acquire_shared_impl-stuck loaded rs h =
    let looped = thresh_add_atomic_int-stuck exclusive_magic loaded rs (omega arith) in
    elim (Bool-cases (all_in_time rs)) [
      | inl waits ↦ simp (looped, waits) refl
      | inr late ↦ simp (looped, late) refl
    ]

thresh_add_atomic_int-joins :
    (threshold old : ℕ) (r : Round) (rs : List Round)
    → r.shares ≡ old
    → old + 1 < threshold
    → r.spurious ≡ false
    → thresh_add_atomic_int threshold old (r ∷ rs) ≡ some (some (old + 1))
unfolding thresh_add_atomic_int thresh_add_round
thresh_add_atomic_int-joins threshold old r rs same below sound = ground arith

-- A shared acquire of a mutex that may be shared, is not taken exclusively and has room for a share
-- succeeds within two rounds, where the second is in time, the word does not change between its
-- rounds and that second exchange does not fail without reason, even if the word had changed since
-- the load.
pub mutex_acquire_shared_impl-joins :
    (loaded : ℕ) (r1 r2 : Round) (rs : List Round)
    → loaded + 1 < exclusive_magic
    → r1.shares + 1 < exclusive_magic
    → r1.in_time ≡ true
    → r2.shares ≡ r1.shares
    → r2.spurious ≡ false
    → mutex_acquire_shared_impl true loaded (r1 ∷ r2 ∷ rs) ≡ some (true, ok)
unfolding mutex_acquire_shared_impl thresh_add_atomic_int thresh_add_round
mutex_acquire_shared_impl-joins loaded r1 r2 rs room1 room2 timely same sound = ground arith
