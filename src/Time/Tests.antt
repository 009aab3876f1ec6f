-- ===== src/Time/Tests.antt =====
-- The timer tasks with a concrete array.
use badger_os.Base.{
  ℕ, zero, suc, ◌+◌, ◌<◌, ◌≡◌, ◌≢◌, ◌⊎◌, refl, sym, ap, ◌∙◌, arith, true, false, Option, some, List,
  [], ◌∷◌,
}
use badger_os.Base.{ltb, if◌then◌else◌, length, get_elem?}
use badger_os.Int.{ℤ, pos, ◌≤ℤ◌}
use badger_os.Time.{
  TimerTask, Timers, TaskArray, timertask_timestamp_cmp, eval_cpu_timer, time_cancel_async_task,
}
use badger_os.Time.Tasks.{IsSorted, eval_cpu_timer-latest, time_cancel_async_task_lem}

abbrev remove : List TimerTask → ℕ → List TimerTask
remove [] i = []
remove (t ∷ ts) zero = ts
remove (t ∷ ts) (suc i) = t ∷ remove ts i

remove_lem :
    (ts : List TimerTask) (i j : ℕ)
    → i < length ts
    → get_elem? (remove ts i) j ≡ get_elem? ts (if ltb j i then j else j + 1)
remove_lem [] i j h = absurd (omega arith)
remove_lem (t ∷ ts) zero j h =
    let at : (if ltb j 0 then j else j + 1) ≡ suc j = ground arith in
    sym (ap (get_elem? (t ∷ ts)) at)
remove_lem (t ∷ ts) (suc i) zero h =
    let at : (if ltb 0 (suc i) then 0 else 0 + 1) ≡ 0 = ground arith in
    sym (ap (get_elem? (t ∷ ts)) at)
remove_lem (t ∷ ts) (suc i) (suc j) h =
    let at : (if ltb (suc j) (suc i) then suc j else suc j + 1)
        ≡ suc (if ltb j i then j else j + 1) =
      ground arith in
    remove_lem ts i j (omega arith) ∙ sym (ap (get_elem? (t ∷ ts)) at)

abbrev insert : List TimerTask → TimerTask → (TimerTask → TimerTask → ℤ) → Option (List TimerTask)
insert ts t cmp = some (t ∷ ts)

abbrev array : TaskArray
array = record {
  array_lencap_remove = remove;
  array_lencap_sorted_insert = insert;
  array_lencap_remove_lem = remove_lem;
}

abbrev task : ℕ → ℕ → TimerTask
task taskno timestamp = record {
  taskno = taskno;
  timestamp = pos timestamp;
  callback = 0;
  cookie = 0;
}

abbrev timers : Timers
timers = record {
  tasks = task 4 900 ∷ task 2 500 ∷ [];
  taskno_counter = 5;
  preempt_time = pos 700;
  timer_is_preempt = true;
  alarm = pos 700;
}

timers-IsSorted : IsSorted timers.tasks
unfolding timertask_timestamp_cmp
timers-IsSorted zero zero a b le at_i at_j = ground arith
timers-IsSorted zero (suc zero) a b le at_i at_j = ground arith
timers-IsSorted (suc zero) (suc zero) a b le at_i at_j = ground arith
timers-IsSorted (suc zero) zero a b le at_i at_j = absurd (omega arith)
timers-IsSorted i (suc (suc j)) a b le at_i at_j = cc
timers-IsSorted (suc (suc i)) zero a b le at_i at_j = cc
timers-IsSorted (suc (suc i)) (suc zero) a b le at_i at_j = cc

eval_cpu_timer-latest_holds :
    ((eval_cpu_timer timers).timer_is_preempt ≡ false)
    × ((i : ℕ) (u : TimerTask)
        → get_elem? timers.tasks i ≡ some u
        → u.timestamp ≤ℤ (eval_cpu_timer timers).alarm)
eval_cpu_timer-latest_holds = eval_cpu_timer-latest timers (task 2 500) timers-IsSorted refl refl

time_cancel_async_task_lem_example :
    let (found, s') = time_cancel_async_task array 4 timers in
    IsSorted s'.tasks
    × (((found ≡ false)
          × (s'.tasks ≡ timers.tasks)
          × ((k : ℕ) (t : TimerTask) → get_elem? timers.tasks k ≡ some t → t.taskno ≢ 4))
        ⊎ ((found ≡ true)
            × (k : ℕ) × (t : TimerTask) × (get_elem? timers.tasks k ≡ some t)
            × (t.taskno ≡ 4)
            × ((j : ℕ)
                → get_elem? s'.tasks j ≡ get_elem? timers.tasks (if ltb j k then j else j + 1))))
time_cancel_async_task_lem_example = time_cancel_async_task_lem array 4 timers timers-IsSorted
