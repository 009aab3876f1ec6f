-- ===== src/Housekeeping.antt =====
-- kernel/src/housekeeping.c: adding, cancelling and running housekeeping tasks. Where a call's result
-- is `none` it never returns: it waits for `hk_mtx` without a deadline while that stays locked.
use badger_os.Base.{
  zero, suc, not, ◌&&◌, ℕ, ◌+◌, ◌<◌, ◌≡◌, Bool, true, false, Option, none, some, List, [], ◌∷◌,
  ◌==◌,
}
use badger_os.Base.{ltb, if◌then◌else◌, length, get_elem?}
use badger_os.Int.{ℤ, pos, negsuc, ltb_ℤ, ◌+ℤ◌, ◌-ℤ◌}
pub mod Cancel
mod Tests

-- `taskent_t`. `callback` is `none` for NULL.
pub record TaskEnt : Type 0 where
  pub next_time : ℤ
  pub interval : ℤ
  pub taskno : ℕ
  pub callback : Option ℕ
  pub arg : ℕ

-- The queue, the counter and whether `hk_mtx` is held.
pub record Tasks : Type 0 where
  pub queue : List TaskEnt
  pub taskno_ctr : ℕ
  pub locked : Bool

unfoldable pub hk_task_time_cmp : TaskEnt → TaskEnt → ℤ
hk_task_time_cmp a b =
    if ltb_ℤ a.next_time b.next_time
    then negsuc 0
    else if ltb_ℤ b.next_time a.next_time
    then pos 1
    else pos 0

-- The arrays of badgelib, a submodule: insertion at an index or at the comparator's place, which
-- fails where there is no memory, and removal at an index.
pub record QueueArray : Type 0 where
  pub array_lencap_insert : List TaskEnt → TaskEnt → ℕ → Option (List TaskEnt)
  pub array_lencap_sorted_insert :
      List TaskEnt → TaskEnt → (TaskEnt → TaskEnt → ℤ) → Option (List TaskEnt)
  pub array_lencap_remove : List TaskEnt → ℕ → List TaskEnt
  pub array_lencap_remove_lem :
      (ts : List TaskEnt) (i j : ℕ)
      → i < length ts
      → get_elem? (array_lencap_remove ts i) j ≡ get_elem? ts (if ltb j i then j else j + 1)

-- The loop of `hk_cancel` from index `i`.
unfoldable pub find_queued : (taskno : ℕ) → List TaskEnt → (i : ℕ) → Option ℕ
find_queued taskno [] i = none
find_queued taskno (t ∷ ts) i =
    let rest = find_queued taskno ts (i + 1) in if t.taskno == taskno then some i else rest

-- The counter after an insertion and the queue: the insertion's result is added to the counter.
abbrev pub queued : Tasks → Option (List TaskEnt) → Tasks
queued s none = s
queued s (some ts) = record s { queue = ts; taskno_ctr = s.taskno_ctr + 1 }

module _ (array : QueueArray) where
  open array use {array_lencap_insert, array_lencap_sorted_insert, array_lencap_remove}

  -- The task number, `none` for -1.
  unfoldable pub hk_add_repeated :
      (time interval : ℤ) → (task : Option ℕ) → (arg : ℕ) → Tasks → Option (Option ℕ × Tasks)
  hk_add_repeated time interval none arg s = some (none, s)
  hk_add_repeated time interval (some task) arg s =
      let ent : TaskEnt = record {
        next_time = time;
        interval = interval;
        taskno = s.taskno_ctr;
        callback = some task;
        arg = arg;
      } in
      let inserted =
        if ltb_ℤ (pos 0) time
        then array_lencap_sorted_insert s.queue ent hk_task_time_cmp
        else array_lencap_insert s.queue ent 0 in
      if s.locked then none else some (some s.taskno_ctr, queued s inserted)

  unfoldable pub hk_add_once :
      (time : ℤ) → (task : Option ℕ) → (arg : ℕ) → Tasks → Option (Option ℕ × Tasks)
  hk_add_once time task arg s = hk_add_repeated time (pos 0) task arg s

  -- Where it finds the task it returns without `mutex_release`.
  unfoldable pub hk_cancel : (taskno : ℕ) → Tasks → Option Tasks
  hk_cancel taskno s = if s.locked then none else elim (find_queued taskno s.queue 0) [
    | none ↦ some s
    | some i ↦ some (record s { queue = array_lencap_remove s.queue i; locked = true })
  ]

-- The inner loop of `hk_thread_func` for at most `fuel` tasks, at time `now`: the tasks in the order
-- in which they run, and the queue. `insert` is `array_sorted_insert`, which needs no memory.
unfoldable pub hk_thread_func :
    (insert : List TaskEnt → TaskEnt → (TaskEnt → TaskEnt → ℤ) → List TaskEnt)
    → (fuel : ℕ) → (now : ℤ) → List TaskEnt
    → List TaskEnt × List TaskEnt
hk_thread_func insert zero now queue = ([], queue)
hk_thread_func insert (suc fuel) now [] = ([], [])
hk_thread_func insert (suc fuel) now (task ∷ queue) =
    let latest = pos 9223372036854775807 in
    let again = record task { next_time = task.next_time +ℤ task.interval } in
    let repeats =
      ltb_ℤ (pos 0) task.interval && not (ltb_ℤ (latest -ℤ task.interval) task.next_time) in
    let queue' = if repeats then insert queue again hk_task_time_cmp else queue in
    let (ran, left) = hk_thread_func insert fuel now queue' in
    if ltb_ℤ now task.next_time then ([], task ∷ queue) else (task ∷ ran, left)
