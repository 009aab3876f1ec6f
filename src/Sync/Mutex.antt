-- ===== src/Sync/Mutex.antt =====
-- kernel/src/badgelib/mutex.c: the mutex, as the steps that threads take on its word `shares`. The
-- list of waiting threads and the timer only decide when a thread makes its next round, so a round
-- may come at any time here, and a thread may give up after any round that fails.
use badger_os.Base.{ℕ, suc, ◌+◌, ◌-◌, ◌≤◌, ◌<◌, ◌≡◌, ◌≢◌, Bool, true, false, not, ◌&&◌, ◌||◌}
use badger_os.Base.{
  Option, none, ◌==◌, leb, if◌then◌else◌, List, [], ◌∷◌, get_elem?, set, replicate, some,
}
use badger_os.Int.{ℤ, pos, negsuc, ◌+ℤ◌, ◌-ℤ◌, ltb_ℤ}
use badger_os.Errors.{Location, Cause, Status, ok, failed}
use badger_os.Sync.{compare_exchange_weak}
pub mod Api
pub mod Rounds
pub mod Safety

-- `(int)__INT_MAX__ / 4`
abbrev pub exclusive_magic : ℕ
exclusive_magic = 536870911

-- `TIMESTAMP_US_MAX`
abbrev pub timestamp_us_max : ℕ
timestamp_us_max = 9223372036854775807

-- What another thread leaves for a round of a loop: the value of `shares` at the exchange, whether
-- the exchange fails without reason, and whether `time_us() < timeout` holds after it.
pub record Round : Type 0 where
  pub shares : ℕ
  pub spurious : Bool
  pub in_time : Bool

-- One exchange of each loop, on `old_value`: the word, the next `old_value` and the success.
unfoldable pub await_swap_round :
    (expected new_value : ℕ) → (spurious : Bool) → (shares : ℕ) → ℕ × ℕ × Bool
await_swap_round expected new_value spurious shares =
    compare_exchange_weak spurious shares expected new_value

-- Where the threshold is reached there is no exchange, and `old_value` stays.
unfoldable pub thresh_add_round :
    (threshold old_value : ℕ) → (spurious : Bool) → (shares : ℕ) → ℕ × ℕ × Bool
thresh_add_round threshold old_value spurious shares =
    if leb threshold old_value || leb threshold (old_value + 1)
    then (shares, old_value, false)
    else compare_exchange_weak spurious shares old_value (old_value + 1)

unfoldable pub unequal_sub_round :
    (unequal0 unequal1 old_value : ℕ) → (spurious : Bool) → (shares : ℕ) → ℕ × ℕ × Bool
unequal_sub_round unequal0 unequal1 old_value spurious shares =
    if old_value == unequal0 || old_value == unequal1
    then (shares, old_value, false)
    else compare_exchange_weak spurious shares old_value (old_value - 1)

-- The whole loops, on the rounds that they have had so far. `none`: after these rounds the loop still
-- runs. `some none`: it returned false, since the time was over. `some (some word)`: it returned
-- true, and its exchange left `word`.
unfoldable pub await_swap_atomic_int : (expected new_value : ℕ) → List Round → Option (Option ℕ)
await_swap_atomic_int expected new_value [] = none
await_swap_atomic_int expected new_value (r ∷ rs) =
    let (word, old, done) = await_swap_round expected new_value r.spurious r.shares in
    let rest = await_swap_atomic_int expected new_value rs in
    if done then some (some word) else if r.in_time then rest else some none

unfoldable pub thresh_add_atomic_int : (threshold old_value : ℕ) → List Round → Option (Option ℕ)
thresh_add_atomic_int threshold old_value [] = none
thresh_add_atomic_int threshold old_value (r ∷ rs) =
    let (word, old, done) = thresh_add_round threshold old_value r.spurious r.shares in
    let rest = thresh_add_atomic_int threshold old rs in
    if done then some (some word) else if r.in_time then rest else some none

unfoldable pub unequal_sub_atomic_int :
    (unequal0 unequal1 old_value : ℕ) → List Round → Option (Option ℕ)
unequal_sub_atomic_int unequal0 unequal1 old_value [] = none
unequal_sub_atomic_int unequal0 unequal1 old_value (r ∷ rs) =
    let (word, old, done) = unequal_sub_round unequal0 unequal1 old_value r.spurious r.shares in
    let rest = unequal_sub_atomic_int unequal0 unequal1 old rs in
    if done then some (some word) else rest

-- The time at which an acquire that starts at `now` gives up.
unfoldable pub acquire_deadline : (timeout now : ℤ) → ℤ
acquire_deadline timeout now =
    if ltb_ℤ timeout (pos 0) || not (ltb_ℤ (timeout -ℤ pos timestamp_us_max +ℤ now) (pos 0))
    then pos timestamp_us_max
    else timeout +ℤ now

-- The result of an operation and `*ec`, and `none` where it has not returned yet.
abbrev pub answer : Cause → Option (Option ℕ) → Option (Bool × Status)
answer cause none = none
answer cause (some none) = some (false, failed Location.unknown cause)
answer cause (some (some word)) = some (true, ok)

unfoldable pub mutex_acquire_impl : List Round → Option (Bool × Status)
mutex_acquire_impl rs = answer Cause.timeout (await_swap_atomic_int 0 exclusive_magic rs)

unfoldable pub mutex_release_impl : List Round → Option (Bool × Status)
mutex_release_impl rs = answer Cause.illegal (await_swap_atomic_int exclusive_magic 0 rs)

-- `loaded` is the value of the `atomic_load`.
unfoldable pub mutex_acquire_shared_impl :
    (is_shared : Bool) → (loaded : ℕ) → List Round → Option (Bool × Status)
mutex_acquire_shared_impl is_shared loaded rs =
    if is_shared
    then answer Cause.timeout (thresh_add_atomic_int exclusive_magic loaded rs)
    else some (false, failed Location.unknown Cause.illegal)

unfoldable pub mutex_release_shared_impl : (loaded : ℕ) → List Round → Option (Bool × Status)
mutex_release_shared_impl loaded rs =
    answer Cause.illegal (unequal_sub_atomic_int 0 exclusive_magic loaded rs)

-- What a thread does with the mutex. In `releasing` and `leaving` it is in a release loop and still
-- has the mutex, or its share.
pub data Phase : Type 0 where
  idle : Phase
  acquiring : Phase
  exclusive : Phase
  releasing : Phase
  joining : (old_value : ℕ) → Phase
  shared : Phase
  leaving : (old_value : ℕ) → Phase

abbrev pub is_owner : Phase → Bool
is_owner exclusive = true
is_owner releasing = true
is_owner _ = false

abbrev pub is_sharer : Phase → Bool
is_sharer shared = true
is_sharer (leaving old_value) = true
is_sharer _ = false

pub record System : Type 0 where
  pub shares : ℕ
  pub threads : List Phase

abbrev pub goes : System → ℕ → ℕ → Phase → System
goes s i shares phase = record { shares = shares; threads = set s.threads i phase }

abbrev pub rounds : System → ℕ → ℕ × ℕ × Bool → (done : Phase) → (again : ℕ → Phase) → System
rounds s i r done again = goes s i r.0 (if r.2 then done else again r.1)

-- A thread's next access of `shares`, or the end of an acquire whose time is over.
pub data Step : System → System → Type 0 where
  acquire :
      {s : System} (i : ℕ)
      → get_elem? s.threads i ≡ some Phase.idle
      → Step s (goes s i s.shares Phase.acquiring)
  acquire_round :
      {s : System} (i : ℕ) (spurious : Bool)
      → get_elem? s.threads i ≡ some Phase.acquiring
      → Step s (
          rounds s i
            (await_swap_round 0 exclusive_magic spurious s.shares)
            Phase.exclusive
            (λ old. Phase.acquiring))
  acquire_timeout :
      {s : System} (i : ℕ)
      → get_elem? s.threads i ≡ some Phase.acquiring
      → Step s (goes s i s.shares Phase.idle)
  release :
      {s : System} (i : ℕ)
      → get_elem? s.threads i ≡ some Phase.exclusive
      → Step s (goes s i s.shares Phase.releasing)
  release_round :
      {s : System} (i : ℕ) (spurious : Bool)
      → get_elem? s.threads i ≡ some Phase.releasing
      → Step s (
          rounds s i
            (await_swap_round exclusive_magic 0 spurious s.shares)
            Phase.idle
            (λ old. Phase.releasing))
  acquire_shared :
      {s : System} (i : ℕ)
      → get_elem? s.threads i ≡ some Phase.idle
      → Step s (goes s i s.shares (Phase.joining s.shares))
  join_round :
      {s : System} (i old : ℕ) (spurious : Bool)
      → get_elem? s.threads i ≡ some (Phase.joining old)
      → Step s (
          rounds s i
            (thresh_add_round exclusive_magic old spurious s.shares)
            Phase.shared
            Phase.joining)
  join_timeout :
      {s : System} (i old : ℕ)
      → get_elem? s.threads i ≡ some (Phase.joining old)
      → Step s (goes s i s.shares Phase.idle)
  release_shared :
      {s : System} (i : ℕ)
      → get_elem? s.threads i ≡ some Phase.shared
      → Step s (goes s i s.shares (Phase.leaving s.shares))
  leave_round :
      {s : System} (i old : ℕ) (spurious : Bool)
      → get_elem? s.threads i ≡ some (Phase.leaving old)
      → Step s (
          rounds s i
            (unequal_sub_round 0 exclusive_magic old spurious s.shares)
            Phase.idle
            Phase.leaving)

-- The states of a mutex that `mutex_init` made, used by `n` threads.
pub data Reachable (n : ℕ) : System → Type 0 where
  start : Reachable n (record { shares = 0; threads = replicate n Phase.idle })
  next : {s s' : System} → Reachable n s → Step s s' → Reachable n s'
