-- ===== src/Housekeeping/Tests.antt =====
-- Cancelling one of two queued tasks.
use badger_os.Base.{
  ℕ, zero, suc, ◌+◌, ◌<◌, ◌≡◌, ◌≢◌, ◌⊎◌, refl, sym, ap, ◌∙◌, arith, false, some, List, [], ◌∷◌,
}
use badger_os.Base.{ltb, if◌then◌else◌, length, get_elem?}
use badger_os.Int.{pos}
use badger_os.Housekeeping.{TaskEnt, Tasks, QueueArray, hk_cancel}
use badger_os.Housekeeping.Cancel.{hk_cancel_lem, IsBlocked}

abbrev remove : List TaskEnt → ℕ → List TaskEnt
remove [] i = []
remove (t ∷ ts) zero = ts
remove (t ∷ ts) (suc i) = t ∷ remove ts i

remove_lem :
    (ts : List TaskEnt) (i j : ℕ)
    → i < length ts
    → get_elem? (remove ts i) j ≡ get_elem? ts (if ltb j i then j else j + 1)
remove_lem [] i j h = absurd (omega arith)
remove_lem (t ∷ ts) zero j h =
    let at : (if ltb j 0 then j else j + 1) ≡ suc j = ground arith in
    sym (ap (get_elem? (t ∷ ts)) at)
remove_lem (t ∷ ts) (suc i) zero h =
    let at : (if ltb 0 (suc i) then 0 else 0 + 1) ≡ 0 = ground arith in
    sym (ap (get_elem? (t ∷ ts)) at)
remove_lem (t ∷ ts) (suc i) (suc j) h =
    let at : (if ltb (suc j) (suc i) then suc j else suc j + 1)
        ≡ suc (if ltb j i then j else j + 1) =
      ground arith in
    remove_lem ts i j (omega arith) ∙ sym (ap (get_elem? (t ∷ ts)) at)

abbrev array : QueueArray
array = record {
  array_lencap_insert = λ ts t i. some (t ∷ ts);
  array_lencap_sorted_insert = λ ts t cmp. some (t ∷ ts);
  array_lencap_remove = remove;
  array_lencap_remove_lem = remove_lem;
}

abbrev ent : ℕ → TaskEnt
ent taskno = record {
  next_time = pos 10;
  interval = pos 0;
  taskno = taskno;
  callback = some 1;
  arg = 0;
}

abbrev tasks : Tasks
tasks = record { queue = ent 0 ∷ ent 1 ∷ []; taskno_ctr = 2; locked = false }

hk_cancel_lem_example :
    ((hk_cancel array 1 tasks ≡ some tasks)
      × ((k : ℕ) (t : TaskEnt) → get_elem? tasks.queue k ≡ some t → t.taskno ≢ 1))
    ⊎ ((s' : Tasks) × (k : ℕ) × (t : TaskEnt) × (hk_cancel array 1 tasks ≡ some s')
        × (get_elem? tasks.queue k ≡ some t)
        × (t.taskno ≡ 1)
        × ((j : ℕ) → get_elem? s'.queue j ≡ get_elem? tasks.queue (if ltb j k then j else j + 1))
        × IsBlocked array s')
hk_cancel_lem_example = hk_cancel_lem array 1 tasks refl
