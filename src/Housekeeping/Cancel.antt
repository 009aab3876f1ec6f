-- ===== src/Housekeeping/Cancel.antt =====
-- What a cancellation removes, and that it leaves the mutex locked.
use badger_os.Base.{
  ℕ, zero, suc, ◌+◌, ◌<◌, ◌≡◌, ◌≢◌, ◌⊎◌, inl, inr, refl, arith, true, false, none, some,
}
use badger_os.Base.{
  List, [], ◌∷◌, ◌==◌, ltb, if◌then◌else◌, length, get_elem?, Bool-cases, Option-cases,
}
use badger_os.Int.{ℤ}
use badger_os.Housekeeping.{
  TaskEnt, Tasks, QueueArray, find_queued, hk_add_repeated, hk_add_once, hk_cancel,
}

find_queued_lem :
    (taskno : ℕ) (ts : List TaskEnt) (i : ℕ) {j : ℕ}
    → find_queued taskno ts i ≡ some j
    → (k : ℕ) × (j ≡ i + k)
      × (k < length ts)
      × (t : TaskEnt) × (get_elem? ts k ≡ some t)
      × (t.taskno ≡ taskno)
unfolding find_queued
find_queued_lem taskno [] i h = cc
find_queued_lem taskno (t ∷ ts) i {j} h = elim (Bool-cases (t.taskno == taskno)) [
  | inl same ↦ (0, ground arith, omega arith, t, refl, ground arith)
  | inr other ↦
      let (k, at, lt, u, there, named) = find_queued_lem taskno ts (i + 1) {j = j} (ground arith) in
      (suc k, omega arith, omega arith, u, there, named)
]

find_queued-none :
    (taskno : ℕ) (ts : List TaskEnt) (i : ℕ)
    → find_queued taskno ts i ≡ none
    → (k : ℕ) (t : TaskEnt) → get_elem? ts k ≡ some t
    → t.taskno ≢ taskno
unfolding find_queued
find_queued-none taskno [] i h k t at = cc
find_queued-none taskno (x ∷ xs) i h zero t at = ground arith
find_queued-none taskno (x ∷ xs) i h (suc k) t at =
    find_queued-none taskno xs (i + 1) (ground arith) k t at

module _ (array : QueueArray) where
  -- Every operation that needs the mutex never returns.
  abbrev pub IsBlocked : Tasks → Type 0
  IsBlocked s =
      (time interval : ℤ) (task arg taskno : ℕ)
      → (hk_add_repeated array time interval (some task) arg s ≡ none)
        × (hk_add_once array time (some task) arg s ≡ none)
        × (hk_cancel array taskno s ≡ none)

  -- With the mutex free, cancelling a number that no queued task has changes nothing. Cancelling the
  -- number of a queued task removes one such task and no other, but leaves the mutex locked, so that
  -- every later call that adds or cancels a task never returns.
  pub hk_cancel_lem :
      (taskno : ℕ) (s : Tasks)
      → s.locked ≡ false
      → ((hk_cancel array taskno s ≡ some s)
          × ((k : ℕ) (t : TaskEnt) → get_elem? s.queue k ≡ some t → t.taskno ≢ taskno))
        ⊎ ((s' : Tasks) × (k : ℕ) × (t : TaskEnt) × (hk_cancel array taskno s ≡ some s')
            × (get_elem? s.queue k ≡ some t)
            × (t.taskno ≡ taskno)
            × ((j : ℕ) → get_elem? s'.queue j ≡ get_elem? s.queue (if ltb j k then j else j + 1))
            × IsBlocked s')
  unfolding hk_cancel hk_add_repeated hk_add_once
  hk_cancel_lem taskno s free = elim (Option-cases (find_queued taskno s.queue 0)) [
    | inl nowhere ↦ inl (simp (free, nowhere) refl, find_queued-none taskno s.queue 0 nowhere)
    | inr (i, found) ↦
        let (k, at, lt, t, there, named) = find_queued_lem taskno s.queue 0 found in
        let same : i ≡ k = omega arith in
        inr (
          record s { queue = array.array_lencap_remove s.queue i; locked = true },
          k,
          t,
          simp (free, found) refl,
          there,
          named,
          rw same (λ j. array.array_lencap_remove_lem s.queue k j lt),
          λ time interval task arg number. (refl, refl, refl),
        )
  ]
