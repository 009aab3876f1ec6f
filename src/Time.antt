-- ===== src/Time.antt =====
-- kernel/src/time.c: tasks that run at a time, and the timer of a CPU that serves both them and the
-- end of a thread's time slice. The list of tasks is in the order of the array. The spinlock around
-- it is that of Sync; each function here is one that holds it.
use badger_os.Base.{
  ℕ, suc, ◌+◌, ◌-◌, ◌≤◌, ◌<◌, ◌≡◌, Bool, true, false, not, ◌&&◌, ◌||◌, Option, none, some,
}
use badger_os.Base.{List, [], ◌∷◌, ◌==◌, ltb, if◌then◌else◌, length, get_elem?, take}
use badger_os.Int.{ℤ, pos, negsuc, ltb_ℤ, ◌≤ℤ◌}
pub mod Tasks
mod Tests

pub record TimerTask : Type 0 where
  pub taskno : ℕ
  pub timestamp : ℤ
  pub callback : ℕ
  pub cookie : ℕ

-- The global list and counter, and what a CPU keeps: `alarm` is the last `time_set_cpu_timer`. The
-- counter has 64 bits and starts at 0, so that it does not wrap.
pub record Timers : Type 0 where
  pub tasks : List TimerTask
  pub taskno_counter : ℕ
  pub preempt_time : ℤ
  pub timer_is_preempt : Bool
  pub alarm : ℤ

-- `TIMESTAMP_US_MAX`
abbrev pub timestamp_us_max : ℤ
timestamp_us_max = pos 9223372036854775807

unfoldable pub timertask_timestamp_cmp : TimerTask → TimerTask → ℤ
timertask_timestamp_cmp a b =
    if ltb_ℤ a.timestamp b.timestamp
    then pos 1
    else if ltb_ℤ b.timestamp a.timestamp
    then negsuc 0
    else pos 0

unfoldable pub timertask_id_cmp : TimerTask → TimerTask → ℤ
timertask_id_cmp a b =
    if ltb a.taskno b.taskno then negsuc 0 else if ltb b.taskno a.taskno then pos 1 else pos 0

-- The arrays of badgelib, a submodule, on lists of tasks: removal at an index, and insertion at a
-- place that the comparator gives, which fails where there is no memory.
pub record TaskArray : Type 0 where
  pub array_lencap_remove : List TimerTask → ℕ → List TimerTask
  pub array_lencap_sorted_insert :
      List TimerTask → TimerTask → (TimerTask → TimerTask → ℤ) → Option (List TimerTask)
  pub array_lencap_remove_lem :
      (ts : List TimerTask) (i j : ℕ)
      → i < length ts
      → get_elem? (array_lencap_remove ts i) j ≡ get_elem? ts (if ltb j i then j else j + 1)

-- `tasks[tasks_len - 1]`
abbrev pub last_task : List TimerTask → Option TimerTask
last_task ts = get_elem? ts (length ts - 1)

-- A task is due before the time slice ends.
abbrev pub runs_first : ℤ → TimerTask → Bool
runs_first preempt_time t = not (ltb_ℤ (pos 0) preempt_time) || ltb_ℤ t.timestamp preempt_time

abbrev pub set_alarm : Timers → Bool → ℤ → Timers
set_alarm s preempt at = record s { timer_is_preempt = preempt; alarm = at }

unfoldable pub eval_cpu_timer : Timers → Timers
eval_cpu_timer s = elim (last_task s.tasks) [
  | none ↦ set_alarm s true s.preempt_time
  | some l ↦ elim (get_elem? s.tasks 0) [
    | none ↦ set_alarm s true s.preempt_time
    | some first ↦
        if runs_first s.preempt_time l
        then set_alarm s false first.timestamp
        else set_alarm s true s.preempt_time
  ]
]

unfoldable pub time_set_next_task_switch : ℤ → Timers → Timers
time_set_next_task_switch timestamp s = eval_cpu_timer (record s { preempt_time = timestamp })

-- The loop of `time_cancel_async_task` from index `i`: where it finds the task.
unfoldable pub find_task : (taskno : ℕ) → List TimerTask → (i : ℕ) → Option ℕ
find_task taskno [] i = none
find_task taskno (t ∷ ts) i =
    let rest = find_task taskno ts (i + 1) in if t.taskno == taskno then some i else rest

module _ (array : TaskArray) where
  open array use {array_lencap_remove, array_lencap_sorted_insert}

  -- `none` is the -1 of the source. `allocated`: `malloc` did not return NULL.
  unfoldable pub time_add_async_task :
      (allocated : Bool) → ℤ → (callback cookie : ℕ) → Timers → Option ℕ × Timers
  time_add_async_task allocated timestamp callback cookie s =
      let task : TimerTask = record {
        taskno = s.taskno_counter;
        timestamp = timestamp;
        callback = callback;
        cookie = cookie;
      } in
      let s' = record s { taskno_counter = s.taskno_counter + 1 } in
      if not allocated
      then (none, s)
      else elim (array_lencap_sorted_insert s.tasks task timertask_timestamp_cmp) [
        | none ↦ (none, s')
        | some ts ↦ (some s.taskno_counter, eval_cpu_timer (record s' { tasks = ts }))
      ]

  unfoldable pub time_cancel_async_task : (taskno : ℕ) → Timers → Bool × Timers
  time_cancel_async_task taskno s = elim (find_task taskno s.tasks 0) [
    | none ↦ (false, eval_cpu_timer s)
    | some i ↦ (true, eval_cpu_timer (record s { tasks = array_lencap_remove s.tasks i }))
  ]

-- The task that `time_cpu_timer_isr` takes off the list, and the list after it.
unfoldable pub take_due : (now : ℤ) → List TimerTask → Option TimerTask × List TimerTask
take_due now ts = elim (last_task ts) [
  | none ↦ (none, ts)
  | some l ↦ if ltb_ℤ now l.timestamp then (none, ts) else (some l, take (length ts - 1) ts)
]

-- `run` is what a task's callback does to the timers. The flag is the call of
-- `sched_request_switch_from_isr`.
unfoldable pub time_cpu_timer_isr :
    (run : TimerTask → Timers → Timers) → (now : ℤ) → Timers → Bool × Timers
time_cpu_timer_isr run now s =
    let (task, ts) = take_due now s.tasks in
    let s' = record s { tasks = ts } in
    if s.timer_is_preempt
    then (true, eval_cpu_timer (record s { preempt_time = timestamp_us_max }))
    else elim task [
      | none ↦ (false, eval_cpu_timer s')
      | some t ↦ (false, eval_cpu_timer (run t s'))
    ]
