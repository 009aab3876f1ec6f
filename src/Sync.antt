-- ===== src/Sync.antt =====
-- What the kernel's locks share: the atomic operations on one word. A thread's `atomic_int` is
-- kept as its bits, a number below 2^32, in the spinlock, and as its value in the mutex, whose
-- count is never negative.
mod Tests
use badger_os.Base.{ℕ, Bool, true, false, not, ◌&&◌, ◌==◌, if◌then◌else◌}
pub mod Spinlock
pub mod Mutex

-- `atomic_compare_exchange_weak_explicit(word, &expected, desired, ...)`: the word and the
-- variable `expected` after it, and its result. A weak exchange may fail where the word is the
-- expected one, which `spurious` says.
abbrev pub compare_exchange_weak : (spurious : Bool) → (word expected desired : ℕ) → ℕ × ℕ × Bool
compare_exchange_weak spurious word expected desired =
    if not spurious && (word == expected) then (desired, expected, true) else (word, word, false)
