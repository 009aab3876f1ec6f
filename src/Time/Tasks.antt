-- ===== src/Time/Tasks.antt =====
-- The order of the tasks, which one runs, and what the alarm is set to.
use badger_os.Base.{
  ℕ, zero, suc, ◌+◌, ◌-◌, ◌≤◌, ◌<◌, ◌≡◌, refl, ◌∙◌, sym, ap, ◌⊎◌, inl, inr, ◌≢◌, arith, true, false,
  none, some,
}
use badger_os.Base.{
  List, [], ◌∷◌, ◌==◌, ltb, if◌then◌else◌, length, get_elem?, Bool-cases, Option-cases,
}
use badger_os.Int.{ℤ, pos, ltb_ℤ, ◌≤ℤ◌}
use badger_os.Time.{
  TimerTask, Timers, TaskArray, timertask_timestamp_cmp, last_task, runs_first, eval_cpu_timer,
  find_task, time_cancel_async_task,
}

-- The comparator puts no task of the list behind a later one of it.
abbrev pub IsSorted : List TimerTask → Type 0
IsSorted ts =
    (i j : ℕ) (a b : TimerTask)
    → i ≤ j
    → get_elem? ts i ≡ some a
    → get_elem? ts j ≡ some b
    → timertask_timestamp_cmp a b ≤ℤ pos 0

cmp-order : (a b : TimerTask) → timertask_timestamp_cmp a b ≤ℤ pos 0 → b.timestamp ≤ℤ a.timestamp
unfolding timertask_timestamp_cmp
cmp-order a b h = ground arith

get_elem?-lt : {A : Type 0} (xs : List A) (i : ℕ) {a : A} → get_elem? xs i ≡ some a → i < length xs
get_elem?-lt [] i h = cc
get_elem?-lt (x ∷ xs) zero h = omega arith
get_elem?-lt (x ∷ xs) (suc i) h = let rest = get_elem?-lt xs i h in omega arith

get_elem?-some :
    {A : Type 0} (xs : List A) (i : ℕ) → i < length xs → (a : A) × (get_elem? xs i ≡ some a)
get_elem?-some [] i h = absurd (omega arith)
get_elem?-some (x ∷ xs) zero h = (x, refl)
get_elem?-some (x ∷ xs) (suc i) h = get_elem?-some xs i (omega arith)

-- No task of the list is due.
abbrev pub NoneDue : ℤ → List TimerTask → Type 0
NoneDue now ts = (i : ℕ) (u : TimerTask) → get_elem? ts i ≡ some u → ltb_ℤ now u.timestamp ≡ true

find_task_lem :
    (taskno : ℕ) (ts : List TimerTask) (i : ℕ) {j : ℕ}
    → find_task taskno ts i ≡ some j
    → (k : ℕ) × (j ≡ i + k) × (t : TimerTask) × (get_elem? ts k ≡ some t) × (t.taskno ≡ taskno)
unfolding find_task
find_task_lem taskno [] i h = cc
find_task_lem taskno (t ∷ ts) i {j} h = elim (Bool-cases (t.taskno == taskno)) [
  | inl same ↦ (0, ground arith, t, refl, ground arith)
  | inr other ↦
      let (k, at, u, there, named) = find_task_lem taskno ts (i + 1) {j = j} (ground arith) in
      (suc k, omega arith, u, there, named)
]

find_task-none :
    (taskno : ℕ) (ts : List TimerTask) (i : ℕ)
    → find_task taskno ts i ≡ none
    → (k : ℕ) (t : TimerTask) → get_elem? ts k ≡ some t
    → t.taskno ≢ taskno
unfolding find_task
find_task-none taskno [] i h k t at = cc
find_task-none taskno (x ∷ xs) i h zero t at = ground arith
find_task-none taskno (x ∷ xs) i h (suc k) t at =
    find_task-none taskno xs (i + 1) (ground arith) k t at

-- Where the list is sorted and a task runs before the time slice ends, the timer is set to a time
-- at which or after which every task of the list is due: the latest of them, not the earliest.
pub eval_cpu_timer-latest :
    (s : Timers) (l : TimerTask)
    → IsSorted s.tasks
    → last_task s.tasks ≡ some l
    → runs_first s.preempt_time l ≡ true
    → ((eval_cpu_timer s).timer_is_preempt ≡ false)
      × ((i : ℕ) (u : TimerTask)
          → get_elem? s.tasks i ≡ some u
          → u.timestamp ≤ℤ (eval_cpu_timer s).alarm)
unfolding eval_cpu_timer
eval_cpu_timer-latest s l sorted at_end first =
    let (head, there) =
      get_elem?-some s.tasks 0
        (let lt = get_elem?-lt s.tasks (length s.tasks - 1) at_end in omega arith) in
    simp (eval_cpu_timer, at_end, there, first)
      (refl, λ i u at. cmp-order head u (sorted 0 i head u (omega arith) there at))

eval_cpu_timer-tasks : (s : Timers) → (eval_cpu_timer s).tasks ≡ s.tasks
unfolding eval_cpu_timer
eval_cpu_timer-tasks s = ground arith

IsSorted-remove :
    (array : TaskArray) (ts : List TimerTask) (k : ℕ)
    → k < length ts
    → IsSorted ts
    → IsSorted (array.array_lencap_remove ts k)
IsSorted-remove array ts k lt sorted i j a b le at_i at_j =
    sorted (if ltb i k then i else i + 1) (if ltb j k then j else j + 1) a b (ground arith)
      (sym (array.array_lencap_remove_lem ts k i lt) ∙ at_i)
      (sym (array.array_lencap_remove_lem ts k j lt) ∙ at_j)

-- Cancelling a number that no task of the list has finds nothing and leaves the list; cancelling one
-- that a task has finds one such task and removes it and no other. The list stays sorted.
pub time_cancel_async_task_lem :
    (array : TaskArray) (taskno : ℕ) (s : Timers)
    → IsSorted s.tasks
    → let (found, s') = time_cancel_async_task array taskno s in
      IsSorted s'.tasks
      × (((found ≡ false)
            × (s'.tasks ≡ s.tasks)
            × ((k : ℕ) (t : TimerTask) → get_elem? s.tasks k ≡ some t → t.taskno ≢ taskno))
          ⊎ ((found ≡ true)
              × (k : ℕ) × (t : TimerTask) × (get_elem? s.tasks k ≡ some t)
              × (t.taskno ≡ taskno)
              × ((j : ℕ)
                  → get_elem? s'.tasks j ≡ get_elem? s.tasks (if ltb j k then j else j + 1))))
unfolding time_cancel_async_task
time_cancel_async_task_lem array taskno s sorted =
    elim (Option-cases (find_task taskno s.tasks 0)) [
      | inl nowhere ↦
          let kept = eval_cpu_timer-tasks s in
          simp (time_cancel_async_task, nowhere)
            (rw kept sorted, inl (refl, kept, find_task-none taskno s.tasks 0 nowhere))
      | inr (i, found) ↦
          let (k, at, t, there, named) = find_task_lem taskno s.tasks 0 found in
          let same : i ≡ k = omega arith in
          let lt = get_elem?-lt s.tasks k there in
          let s' = record s { tasks = array.array_lencap_remove s.tasks i } in
          let kept = eval_cpu_timer-tasks s' ∙ ap (array.array_lencap_remove s.tasks) same in
          simp (time_cancel_async_task, found)
            (
              rw kept (IsSorted-remove array s.tasks k lt sorted),
              inr (
                refl,
                k,
                t,
                there,
                named,
                λ j. ap (λ ts. get_elem? ts j) kept ∙ array.array_lencap_remove_lem s.tasks k j lt,
              ),
            )
    ]
