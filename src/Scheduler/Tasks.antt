-- ===== src/Scheduler/Tasks.antt =====
-- The tasks by identifier, and the tests before the loop.
use ovca_core.Prelude.{
  ℕ, suc, ◌+◌, ◌≤◌, ◌<◌, ◌≡◌, ap, inl, inr, none, some, List, [], ◌∷◌, map, arith, Bool-cases, ◌||◌,
  length,
}
use ovca_core.Collections.Order.{◌=?◌, string_ord, =?_iff, =?_refl}
use ovca_core.Collections.BTreeMap.{BTreeMap, get, insert, collect_from, contains_key, get-insert}
use ovca_core.Collections.BTreeMap.Sorted.{
  IsSorted, get_of_Above, insert-IsSorted, collect_from-IsSorted,
}
use ovca_core.Collections.BTreeSet.{contains}
use ovca_core.Collections.BTreeSet.Count.{count}
use ovca_core.Goal.Ids.{TaskId}
use ovca_core.Goal.Task.{Task}
use ovca_core.Lifecycle.Init.{count_or_zero, count_from, first_repeated, index_tasks}

abbrev pub ids_of : List Task → List TaskId
ids_of = map (λ t. t.id)

count_from_lem :
    (id : TaskId) (m : BTreeMap TaskId ℕ) (ts : List Task)
    → count_or_zero (get id (count_from m ts)) ≡ count_or_zero (get id m) + count id (ids_of ts)
unfolding count_from
count_from_lem id m [] = omega arith
count_from_lem id m (t ∷ ts) = elim (Bool-cases (id =? t.id)) [
  | inl same ↦
      let e : id ≡ t.id = (=?_iff id t.id).0 same in
      ground (
        arith,
        count_from_lem id (insert t.id (count_or_zero (get t.id m) + 1) m) ts,
        get-insert id t.id (count_or_zero (get t.id m) + 1) m,
        ap (λ (x : TaskId). count_or_zero (get x m)) e,
      )
  | inr other ↦ ground (
    arith,
    count_from_lem id (insert t.id (count_or_zero (get t.id m) + 1) m) ts,
    get-insert id t.id (count_or_zero (get t.id m) + 1) m,
  )
]

count_from-IsSorted :
    (m : BTreeMap TaskId ℕ) (ts : List Task) → IsSorted m → IsSorted (count_from m ts)
unfolding count_from
count_from-IsSorted m [] s = s
count_from-IsSorted m (t ∷ ts) s =
    count_from-IsSorted (insert t.id (count_or_zero (get t.id m) + 1) m) ts
      (insert-IsSorted t.id (count_or_zero (get t.id m) + 1) m s)

first_repeated-some :
    (m : BTreeMap TaskId ℕ) (id : TaskId)
    → IsSorted m
    → first_repeated m ≡ some id
    → 1 < count_or_zero (get id m)
unfolding first_repeated get
first_repeated-some [] id s h = absurd cc
first_repeated-some ((j, n) ∷ m) id s h =
    ground (arith, first_repeated-some m id s.1, get_of_Above j m s.0, =?_iff id j, =?_refl j)

first_repeated-none :
    (m : BTreeMap TaskId ℕ) (id : TaskId) → first_repeated m ≡ none → count_or_zero (get id m) ≤ 1
unfolding first_repeated get
first_repeated-none [] id h = omega arith
first_repeated-none ((j, n) ∷ m) id h = ground (arith, first_repeated-none m id)

-- An identifier that is reported occurs twice, and when none is, none does.
pub repeated-count :
    (ts : List Task) (id : TaskId)
    → first_repeated (count_from [] ts) ≡ some id
    → 1 < count id (ids_of ts)
unfolding get
repeated-count ts id h = ground (
  arith,
  count_from_lem id [] ts,
  first_repeated-some (count_from [] ts) id (count_from-IsSorted [] ts tt) h,
)

pub unrepeated-count :
    (ts : List Task) (id : TaskId)
    → first_repeated (count_from [] ts) ≡ none
    → count id (ids_of ts) ≤ 1
unfolding get
unrepeated-count ts id h =
    ground (arith, count_from_lem id [] ts, first_repeated-none (count_from [] ts) id h)

length-insert :
    (k : TaskId) (t : Task) (m : BTreeMap TaskId Task) → length (insert k t m) ≤ suc (length m)
unfolding insert
length-insert k t [] = omega arith
length-insert k t ((j, u) ∷ m) = ground (arith, length-insert k t m)

length-collect_from :
    (m : BTreeMap TaskId Task) (ts : List Task)
    → length (collect_from m (map (λ t. (t.id, t)) ts)) ≤ length m + length ts
unfolding collect_from
length-collect_from m [] = omega arith
length-collect_from m (t ∷ ts) =
    omega (arith, length-collect_from (insert t.id t m) ts, length-insert t.id t m)

pub length-index_tasks : (ts : List Task) → length (index_tasks ts) ≤ length ts
unfolding index_tasks
length-index_tasks ts = omega (arith, length-collect_from [] ts)

pub index_tasks-IsSorted : (ts : List Task) → IsSorted (index_tasks ts)
unfolding index_tasks
index_tasks-IsSorted ts = collect_from-IsSorted [] (map (λ t. (t.id, t)) ts) tt

contains_key-collect_from :
    (id : TaskId) (m : BTreeMap TaskId Task) (ts : List Task)
    → contains_key id (collect_from m (map (λ t. (t.id, t)) ts))
      ≡ (contains_key id m || contains id (ids_of ts))
unfolding collect_from contains
contains_key-collect_from id m [] = ground arith
contains_key-collect_from id m (t ∷ ts) =
    ground (arith, contains_key-collect_from id (insert t.id t m) ts, get-insert id t.id t m)

pub contains_key-index_tasks :
    (id : TaskId) (ts : List Task) → contains_key id (index_tasks ts) ≡ contains id (ids_of ts)
unfolding index_tasks get
contains_key-index_tasks id ts = contains_key-collect_from id [] ts
