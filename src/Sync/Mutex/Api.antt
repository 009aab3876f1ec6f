-- ===== src/Sync/Mutex/Api.antt =====
-- kernel/src/badgelib/mutex.c: the functions that other files call. The forms for interrupts differ
-- only in how they pass the time between two rounds.
use badger_os.Base.{ℕ, Bool, List, Option}
use badger_os.Errors.{Status}
use badger_os.Sync.Mutex.{
  Round, mutex_acquire_impl, mutex_release_impl, mutex_acquire_shared_impl,
  mutex_release_shared_impl,
}

-- `is_shared` and `allow_isr`, and the word.
unfoldable pub mutex_init : (shared allow_isr : Bool) → Bool × Bool × ℕ
mutex_init shared allow_isr = (shared, allow_isr, 0)

unfoldable pub mutex_acquire : List Round → Option (Bool × Status)
mutex_acquire rs = mutex_acquire_impl rs

unfoldable pub mutex_release : List Round → Option (Bool × Status)
mutex_release rs = mutex_release_impl rs

unfoldable pub mutex_acquire_from_isr : List Round → Option (Bool × Status)
mutex_acquire_from_isr rs = mutex_acquire_impl rs

unfoldable pub mutex_release_from_isr : List Round → Option (Bool × Status)
mutex_release_from_isr rs = mutex_release_impl rs

unfoldable pub mutex_acquire_shared :
    (is_shared : Bool) → (loaded : ℕ) → List Round → Option (Bool × Status)
mutex_acquire_shared is_shared loaded rs = mutex_acquire_shared_impl is_shared loaded rs

unfoldable pub mutex_release_shared : (loaded : ℕ) → List Round → Option (Bool × Status)
mutex_release_shared loaded rs = mutex_release_shared_impl loaded rs

unfoldable pub mutex_acquire_shared_from_isr :
    (is_shared : Bool) → (loaded : ℕ) → List Round → Option (Bool × Status)
mutex_acquire_shared_from_isr is_shared loaded rs = mutex_acquire_shared_impl is_shared loaded rs

unfoldable pub mutex_release_shared_from_isr : (loaded : ℕ) → List Round → Option (Bool × Status)
mutex_release_shared_from_isr loaded rs = mutex_release_shared_impl loaded rs
