-- ===== src/Sync/Tests.antt =====
-- The locks with two threads.
use badger_os.Base.{
  ◌+◌, ◌*◌, ◌<◌, ◌≤◌, ◌≡◌, ◌⊎◌, refl, arith, true, false, some, [], ◌∷◌, get_elem?,
}
use badger_os.Errors.{Location, Cause, ok, failed}
use badger_os.Sync.Spinlock.{spinlock_take, spinlock_release, spinlock_release_shared, is_negative}
use badger_os.Sync.Spinlock
use badger_os.Sync.Mutex.{
  exclusive_magic, Round, mutex_acquire_impl, mutex_acquire_shared_impl, await_swap_round,
  unequal_sub_round,
}
use badger_os.Sync.Mutex
use badger_os.Sync.Mutex.Rounds.{
  mutex_acquire_impl-succeeds, mutex_acquire_shared_impl-stuck, mutex_acquire_shared_impl-joins,
}

-- Thread 0 has the lock, thread 1 is trying.
abbrev contended : Spinlock.System
contended = record {
  lock = 2147483649;
  threads = Spinlock.Phase.exclusive ∷ Spinlock.Phase.taking 1 ∷ [];
}

contended-Reachable : Spinlock.Reachable 1 2 contended
unfolding spinlock_take
contended-Reachable =
    Spinlock.Reachable.next
      (Spinlock.Reachable.next
        (Spinlock.Reachable.next Spinlock.Reachable.start (Spinlock.Step.take_load 0 refl))
        (Spinlock.Step.take_load 1 refl))
      (Spinlock.Step.take_round 0 1 false refl)

spinlock_mutual_exclusion_example :
    (Spinlock.Safety.owners contended ≤ 1)
    × ((Spinlock.Safety.owners contended + Spinlock.Safety.sharers contended ≤ 1)
        ⊎ (Spinlock.Safety.owners contended ≡ 0))
    × (contended.lock
        ≡ 1 + Spinlock.Safety.sharers contended * 2 + Spinlock.Safety.owners contended * 2147483648)
spinlock_mutual_exclusion_example =
    Spinlock.Safety.spinlock_mutual_exclusion 1 2 contended (omega arith) (omega arith)
      contended-Reachable

spinlock_release_asserts_holds :
    (get_elem? contended.threads 0 ≡ some Spinlock.Phase.exclusive
      → is_negative (spinlock_release contended.lock).1 ≡ true)
    × (get_elem? contended.threads 0 ≡ some Spinlock.Phase.shared
        → (2 ≤ (spinlock_release_shared contended.lock).1)
          × (is_negative (spinlock_release_shared contended.lock).1 ≡ false))
spinlock_release_asserts_holds =
    Spinlock.Safety.spinlock_release_asserts 1 2 contended 0 (omega arith) (omega arith)
      contended-Reachable

spinlock_take-free_holds :
    let first = spinlock_take false 1 6 in
    (first.2 ≡ true) ⊎ ((spinlock_take false first.0 first.1).2 ≡ true)
spinlock_take-free_holds = Spinlock.Safety.spinlock_take-free 1 6 (omega arith)

-- Thread 0 has the mutex, thread 1 waits for it.
abbrev waited_for : Mutex.System
waited_for = record {
  shares = exclusive_magic;
  threads = Mutex.Phase.exclusive ∷ Mutex.Phase.acquiring ∷ [];
}

waited_for-Reachable : Mutex.Reachable 2 waited_for
unfolding await_swap_round
waited_for-Reachable =
    Mutex.Reachable.next
      (Mutex.Reachable.next (Mutex.Reachable.next Mutex.Reachable.start (Mutex.Step.acquire 0 refl))
        (Mutex.Step.acquire 1 refl))
      (Mutex.Step.acquire_round 0 false refl)

mutex_mutual_exclusion_example :
    (Mutex.Safety.owners waited_for ≤ 1)
    × (Mutex.Safety.sharers waited_for < exclusive_magic)
    × ((Mutex.Safety.owners waited_for ≡ 0) ⊎ (Mutex.Safety.sharers waited_for ≡ 0))
    × (waited_for.shares
        ≡ Mutex.Safety.sharers waited_for + Mutex.Safety.owners waited_for * exclusive_magic)
mutex_mutual_exclusion_example =
    Mutex.Safety.mutex_mutual_exclusion 2 waited_for waited_for-Reachable

mutex_release_asserts_holds :
    (get_elem? waited_for.threads 0 ≡ some Mutex.Phase.exclusive
      → exclusive_magic ≤ waited_for.shares)
    × (get_elem? waited_for.threads 0 ≡ some Mutex.Phase.shared
        → (waited_for.shares < exclusive_magic)
          × ((unequal_sub_round 0 exclusive_magic waited_for.shares false waited_for.shares).2
              ≡ true))
mutex_release_asserts_holds = Mutex.Safety.mutex_release_asserts 2 waited_for 0 waited_for-Reachable

abbrev taken : Round
taken = record { shares = exclusive_magic; spurious = false; in_time = true }

abbrev free : Round
free = record { shares = 0; spurious = false; in_time = true }

abbrev too_late : Round
too_late = record { shares = 0; spurious = false; in_time = false }

mutex_acquire_impl-succeeds_holds : mutex_acquire_impl (taken ∷ taken ∷ free ∷ []) ≡ some (true, ok)
mutex_acquire_impl-succeeds_holds =
    mutex_acquire_impl-succeeds (taken ∷ taken ∷ []) [] free refl refl refl

mutex_acquire_shared_impl-stuck_example :
    mutex_acquire_shared_impl true exclusive_magic (taken ∷ free ∷ too_late ∷ [])
    ≡ some (false, failed Location.unknown Cause.timeout)
mutex_acquire_shared_impl-stuck_example =
    mutex_acquire_shared_impl-stuck exclusive_magic (taken ∷ free ∷ too_late ∷ []) (omega arith)

mutex_acquire_shared_impl-joins_holds :
    mutex_acquire_shared_impl true 5 (free ∷ free ∷ []) ≡ some (true, ok)
mutex_acquire_shared_impl-joins_holds =
    mutex_acquire_shared_impl-joins 5 free free [] (omega arith) (omega arith) refl refl refl
