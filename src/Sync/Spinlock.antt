-- ===== src/Sync/Spinlock.antt =====
-- kernel/src/badgelib/spinlock.c: the lock that is taken exclusively or shared, as the steps that
-- threads take on its word. Bit 0 of the word says that the lock may be shared, bit 31 (the sign of
-- the `int`) that it is taken exclusively, and the bits between count the shares.
use badger_os.Base.{ℕ, ◌+◌, ◌-◌, ◌%◌, ◌^◌, ◌≤◌, ◌<◌, ◌≡◌, bit_and, bit_or, Bool, true, false}
use badger_os.Base.{leb, if◌then◌else◌, List, get_elem?, set, replicate, some}
use badger_os.Sync.{compare_exchange_weak}
pub mod Safety

-- The bits of `-__INT_MAX__ - 1`.
abbrev pub spinlock_excl_magic : ℕ
spinlock_excl_magic = 2147483648

-- `x < 0` of an `int` with these bits.
abbrev pub is_negative : ℕ → Bool
is_negative x = leb 2147483648 x

-- One round of the loop of `spinlock_take` with `cur` read before: the lock and `cur` after it, and
-- whether the loop ends.
unfoldable pub spinlock_take : (spurious : Bool) → (lock cur : ℕ) → ℕ × ℕ × Bool
spinlock_take spurious lock cur =
    compare_exchange_weak spurious lock (bit_and cur 1) (bit_or (bit_and cur 1) spinlock_excl_magic)

-- The lock after it, and `res`.
unfoldable pub spinlock_release : ℕ → ℕ × ℕ
spinlock_release lock = (bit_and lock 1, lock)

-- One round of the loop of `spinlock_take_shared`.
unfoldable pub spinlock_take_shared : (spurious : Bool) → (lock cur : ℕ) → ℕ × ℕ × Bool
spinlock_take_shared spurious lock cur =
    let old = if is_negative cur then 1 else cur in
    compare_exchange_weak spurious lock old ((old + 2) % 2 ^ 32)

unfoldable pub spinlock_release_shared : ℕ → ℕ × ℕ
spinlock_release_shared lock = ((lock + (2 ^ 32 - 2)) % 2 ^ 32, lock)

-- What a thread does with the lock; `taking` and `sharing` are in a loop and have `cur`.
pub data Phase : Type 0 where
  idle : Phase
  taking : (cur : ℕ) → Phase
  exclusive : Phase
  sharing : (cur : ℕ) → Phase
  shared : Phase

abbrev pub is_exclusive : Phase → Bool
is_exclusive exclusive = true
is_exclusive _ = false

abbrev pub is_shared : Phase → Bool
is_shared shared = true
is_shared _ = false

pub record System : Type 0 where
  pub lock : ℕ
  pub threads : List Phase

-- The system after thread `i` left the lock at `lock` and went on to `phase`.
abbrev pub goes : System → ℕ → ℕ → Phase → System
goes s i lock phase = record { lock = lock; threads = set s.threads i phase }

-- After one round of a loop.
abbrev pub rounds : System → ℕ → ℕ × ℕ × Bool → (done : Phase) → (again : ℕ → Phase) → System
rounds s i r done again = goes s i r.0 (if r.2 then done else again r.1)

-- A thread's next atomic access. `spinlock_take_shared` first asserts that the lock may be shared.
pub data Step : System → System → Type 0 where
  take_load :
      {s : System} (i : ℕ)
      → get_elem? s.threads i ≡ some Phase.idle
      → Step s (goes s i s.lock (Phase.taking s.lock))
  take_round :
      {s : System} (i cur : ℕ) (spurious : Bool)
      → get_elem? s.threads i ≡ some (Phase.taking cur)
      → Step s (rounds s i (spinlock_take spurious s.lock cur) Phase.exclusive Phase.taking)
  release :
      {s : System} (i : ℕ)
      → get_elem? s.threads i ≡ some Phase.exclusive
      → Step s (goes s i (spinlock_release s.lock).0 Phase.idle)
  share_load :
      {s : System} (i : ℕ)
      → get_elem? s.threads i ≡ some Phase.idle
      → bit_and s.lock 1 ≡ 1
      → Step s (goes s i s.lock (Phase.sharing s.lock))
  share_round :
      {s : System} (i cur : ℕ) (spurious : Bool)
      → get_elem? s.threads i ≡ some (Phase.sharing cur)
      → Step s (rounds s i (spinlock_take_shared spurious s.lock cur) Phase.shared Phase.sharing)
  release_shared :
      {s : System} (i : ℕ)
      → get_elem? s.threads i ≡ some Phase.shared
      → Step s (goes s i (spinlock_release_shared s.lock).0 Phase.idle)

-- The states of a lock that starts free, with bit 0 at `b`, and is used by `n` threads.
pub data Reachable (b n : ℕ) : System → Type 0 where
  start : Reachable b n (record { lock = b; threads = replicate n Phase.idle })
  next : {s s' : System} → Reachable b n s → Step s s' → Reachable b n s'
