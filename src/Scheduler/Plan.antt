-- ===== src/Scheduler/Plan.antt =====
-- The loop over the waves.
use ovca_core.Prelude.{
  ℕ, zero, suc, ◌+◌, ◌^◌, ◌≤◌, ◌<◌, Bool, true, false, ◌≡◌, ◌⊎◌, refl, subst, ◌∙◌, inl, inr, some,
  List, [], ◌∷◌, ◌++◌, ok, err, arith, all, Bool-cases, if◌then◌else◌, length, ltb,
}
use ovca_core.Collections.Order.{◌=?◌, string_ord, =?_iff, =?_refl}
use ovca_core.Collections.BTreeMap.{BTreeMap, get, contains_key}
use ovca_core.Collections.BTreeSet.{BTreeSet, contains, remove, extend, contains-extend}
use ovca_core.Collections.BTreeSet.Count.{
  count, count-append, count-remove, length-remove, length-remove-lt, contains_of_count,
  count_of_contains,
}
use ovca_core.Goal.Ids.{TaskId}
use ovca_core.Goal.Task.{Task}
use ovca_core.Goal.Run.{ExecutionWave}
use ovca_core.Scheduler.{
  ScheduleError, wave, waves, remove_all, mode_of, is_ready, ready_tasks, prepend,
}
use ovca_core.Scheduler.Wave.{
  AreKnown, AreDisjoint, AreReady, ready_tasks-AreReady, pick_wave-ArePicked, pick_wave-first,
  contains-any,
}

abbrev pub Needs : Task → TaskId → Type 0
Needs t d = contains d t.dependencies ≡ true

-- A wave that comes after the tasks of `done`.
pub record IsWave (m : BTreeMap TaskId Task) (done : BTreeSet TaskId) (n : ℕ) (w : ExecutionWave)
    : Type 0 where
  pub numbered : w.index ≡ n
  pub moded : w.mode ≡ mode_of w.task_ids
  pub inhabited : (a : TaskId) × (0 < count a w.task_ids)
  pub after_dependencies :
      (a d : TaskId) (t : Task)
      → get a m ≡ some t
      → 0 < count a w.task_ids
      → Needs t d
      → contains d done ≡ true
  pub disjoint : AreDisjoint m [] w.task_ids

abbrev pub AreWaves : BTreeMap TaskId Task → BTreeSet TaskId → ℕ → List ExecutionWave → Type 0
AreWaves m done n [] = Unit
AreWaves m done n (w ∷ ws) = IsWave m done n w × AreWaves m (extend done w.task_ids) (n + 1) ws

abbrev pub all_ids : List ExecutionWave → List TaskId
all_ids [] = []
all_ids (w ∷ ws) = w.task_ids ++ all_ids ws

-- Tasks each of which waits for another of them.
pub record IsKnot (m : BTreeMap TaskId Task) (ids : List TaskId) : Type 0 where
  pub knot_known : AreKnown m ids
  pub knot_inhabited : (a : TaskId) × (0 < count a ids)
  pub waits :
      (a : TaskId) (t : Task)
      → get a m ≡ some t
      → 0 < count a ids
      → (d : TaskId) × Needs t d × (0 < count d ids)

all-at :
    (p : TaskId → Bool) (ds : List TaskId) (d : TaskId)
    → all p ds ≡ true
    → contains d ds ≡ true
    → p d ≡ true
unfolding contains
all-at p [] d h c = absurd cc
all-at p (x ∷ ds) d h c = elim (Bool-cases (d =? x)) [
  | inl same ↦ rw ((=?_iff d x).0 same) (ground arith)
  | inr other ↦ all-at p ds d (ground arith) (ground arith)
]

all-false :
    (p : TaskId → Bool) (ds : List TaskId)
    → all p ds ≡ false
    → (d : TaskId) × (contains d ds ≡ true) × (p d ≡ false)
unfolding contains
all-false p [] h = absurd cc
all-false p (x ∷ ds) h = elim (Bool-cases (p x)) [
  | inl held ↦ let (d, c, f) = all-false p ds (ground arith) in (d, ground arith, f)
  | inr failed ↦ (x, ground (arith, =?_refl x), failed)
]

count-remove_all :
    (a : TaskId) (ids : List TaskId) (s : BTreeSet TaskId)
    → count a (remove_all ids s) ≡ (if contains a ids then 0 else count a s)
unfolding remove_all contains
count-remove_all a [] s = refl
count-remove_all a (j ∷ ids) s =
    ground (arith, count-remove_all a ids (remove j s), count-remove a j s)

length-remove_all : (ids : List TaskId) (s : BTreeSet TaskId) → length (remove_all ids s) ≤ length s
unfolding remove_all
length-remove_all [] s = omega arith
length-remove_all (j ∷ ids) s = omega (arith, length-remove_all ids (remove j s), length-remove j s)

length-remove_all-lt :
    (a : TaskId) (ids : List TaskId) (s : BTreeSet TaskId)
    → 0 < count a ids
    → 0 < count a s
    → length (remove_all ids s) < length s
unfolding remove_all
length-remove_all-lt a [] s h k = absurd (omega arith)
length-remove_all-lt a (j ∷ ids) s h k = elim (Bool-cases (a =? j)) [
  | inl same ↦
      let ea : a ≡ j = (=?_iff a j).0 same in
      let held : 0 < count j s = subst (λ (x : TaskId). 0 < count x s) ea k in
      omega (
        arith,
        length-remove_all ids (remove j s),
        length-remove-lt j s (contains_of_count j s held),
      )
  | inr other ↦
      let rest =
        length-remove_all-lt a ids (remove j s) (ground arith)
          (ground (arith, count-remove a j s)) in
      omega (arith, rest, length-remove j s)
]

-- Between two rounds, for a map whose dependencies are known.
pub record IsOpen (m : BTreeMap TaskId Task) (remaining completed : BTreeSet TaskId) : Type 0 where
  pub known : AreKnown m remaining
  pub once : (a : TaskId) → count a remaining ≤ 1
  pub placed :
      (a : TaskId)
      → contains_key a m ≡ true
      → (0 < count a remaining) ⊎ (contains a completed ≡ true)

module _ (m : BTreeMap TaskId Task)
    (closed : (a d : TaskId) (t : Task)
      → get a m ≡ some t
      → Needs t d
      → contains_key d m ≡ true) where
  -- A round makes a wave, or it finds a knot.
  abbrev Round : BTreeSet TaskId → BTreeSet TaskId → ℕ → Type 0
  Round remaining completed n =
      ((w : ExecutionWave) × (wave m remaining completed n ≡ ok w)
        × IsWave m completed n w
        × ((a : TaskId) → count a w.task_ids ≤ count a remaining))
      ⊎ ((wave m remaining completed n ≡ err (ScheduleError.cycle remaining)) × IsKnot m remaining)

  stuck-IsKnot :
      (r : TaskId) (rs completed : BTreeSet TaskId)
      → IsOpen m (r ∷ rs) completed
      → AreReady m completed (r ∷ rs) []
      → IsKnot m (r ∷ rs)
  stuck-IsKnot r rs completed o f = record {
    knot_known = o.known;
    knot_inhabited = (r, ground (arith, =?_refl r));
    waits = λ a t e h. elim (Bool-cases (is_ready completed t)) [
      | inl free ↦ absurd (omega (arith, f.complete a t e free h))
      | inr waiting ↦
          let (d, needs, missing) = all-false (λ d. contains d completed) t.dependencies waiting in
          elim (o.placed d (closed a d t e needs)) [
            | inl left ↦ (d, needs, left)
            | inr done ↦ absurd (cc (missing, done))
          ]
    ];
  }

  ready-Round :
      (r : TaskId) (rs completed : BTreeSet TaskId) (n : ℕ) (ready : List TaskId)
      → IsOpen m (r ∷ rs) completed
      → n < 2 ^ 32
      → ready_tasks m completed (r ∷ rs) ≡ ok ready
      → AreReady m completed (r ∷ rs) ready
      → Round (r ∷ rs) completed n
  unfolding wave
  ready-Round r rs completed n [] o small er f = inr (rw er refl, stuck-IsKnot r rs completed o f)
  ready-Round r rs completed n (j ∷ js) o small er f =
      let known : AreKnown m (j ∷ js) = λ a h. o.known a (omega (arith, f.chosen a, h)) in
      let (ids, ei, p) = pick_wave-ArePicked m [] (j ∷ js) known in
      let room : ltb n (2 ^ 32) ≡ true = ground arith in
      inl (
        record { index = n; mode = mode_of ids; task_ids = ids },
        rw (er, ei, room) refl,
        record {
          numbered = refl;
          moded = refl;
          inhabited = (j, pick_wave-first m j js ids known ei);
          after_dependencies = λ a d t e h needs.
              all-at (λ d. contains d completed) t.dependencies d
                (f.sound a t e (omega (arith, p.chosen a, h))) needs;
          disjoint = p.disjoint;
        },
        λ a. omega (arith, p.chosen a, f.chosen a),
      )

  -- After a wave its tasks have changed sides.
  next-IsOpen :
      (remaining completed : BTreeSet TaskId) (ids : List TaskId)
      → IsOpen m remaining completed
      → IsOpen m (remove_all ids remaining) (extend completed ids)
  next-IsOpen remaining completed ids o = record {
    known = λ a h. o.known a (ground (arith, count-remove_all a ids remaining));
    once = λ a. ground (arith, count-remove_all a ids remaining, o.once a);
    placed = λ a h. elim (Bool-cases (contains a ids)) [
      | inl now ↦ inr (ground (arith, contains-extend a completed ids, contains-any a ids))
      | inr not_now ↦ elim (o.placed a h) [
        | inl left ↦ inl (ground (arith, count-remove_all a ids remaining))
        | inr done ↦ inr (ground (arith, contains-extend a completed ids))
      ]
    ];
  }

  -- The tasks of a wave and those that remain are those that remained before.
  count-wave :
      (a : TaskId) (remaining : BTreeSet TaskId) (ids : List TaskId)
      → count a remaining ≤ 1
      → count a ids ≤ count a remaining
      → count a ids + count a (remove_all ids remaining) ≡ count a remaining
  count-wave a remaining ids once chosen = elim (Bool-cases (contains a ids)) [
    | inl now ↦ ground (arith, count-remove_all a ids remaining, count_of_contains a ids now)
    | inr not_now ↦ ground (arith, count-remove_all a ids remaining, contains_of_count a ids)
  ]

  abbrev Ends : ℕ → BTreeSet TaskId → BTreeSet TaskId → ℕ → Type 0
  Ends fuel remaining completed n =
      ((ws : List ExecutionWave) × (waves fuel m remaining completed n ≡ some (ok ws))
        × AreWaves m completed n ws
        × ((a : TaskId) → count a (all_ids ws) ≡ count a remaining))
      ⊎ ((ids : List TaskId) × (waves fuel m remaining completed n
            ≡ some (err (ScheduleError.cycle ids)))
          × IsKnot m ids)

  waves-step :
      (fuel : ℕ) (r : TaskId) (rs completed : BTreeSet TaskId) (n : ℕ) (w : ExecutionWave)
      → wave m (r ∷ rs) completed n ≡ ok w
      → waves (suc fuel) m (r ∷ rs) completed n
        ≡ prepend w
            (waves fuel m (remove_all w.task_ids (r ∷ rs)) (extend completed w.task_ids) (n + 1))
  unfolding waves
  waves-step fuel r rs completed n w e = rw e refl

  -- With as much fuel as tasks that remain, the loop ends with waves or with a knot.
  pub waves-Ends :
      (fuel : ℕ) (remaining completed : BTreeSet TaskId) (n : ℕ)
      → IsOpen m remaining completed
      → length remaining ≤ fuel
      → n + length remaining ≤ 2 ^ 32
      → Ends fuel remaining completed n
  unfolding waves
  waves-Ends zero [] completed n o enough small = inl ([], refl, tt, λ a. refl)
  waves-Ends (suc fuel) [] completed n o enough small = inl ([], refl, tt, λ a. refl)
  waves-Ends zero (r ∷ rs) completed n o enough small = absurd (omega arith)
  waves-Ends (suc fuel) (r ∷ rs) completed n o enough small =
      let (ready, er, f) = ready_tasks-AreReady m completed (r ∷ rs) o.known in
      elim (ready-Round r rs completed n ready o (omega arith) er f) [
        | inr (stuck, knot) ↦ inr (r ∷ rs, rw stuck refl, knot)
        | inl (w, ew, valid, chosen) ↦
            let (j, picked) = valid.inhabited in
            let fewer =
              length-remove_all-lt j w.task_ids (r ∷ rs) picked (omega (arith, chosen j, picked)) in
            let step = waves-step fuel r rs completed n w ew in
            let next = next-IsOpen (r ∷ rs) completed w.task_ids o in
            elim (waves-Ends fuel (remove_all w.task_ids (r ∷ rs)) (extend completed w.task_ids)
              (n + 1) next (omega (arith, fewer)) (omega (arith, fewer))) [
                | inl (ws, es, all_valid, counted) ↦ inl (
                  w ∷ ws,
                  step ∙ rw es refl,
                  (valid, all_valid),
                  λ a.
                      count-append a w.task_ids (all_ids ws)
                      ∙ omega (
                        arith,
                        counted a,
                        count-wave a (r ∷ rs) w.task_ids (o.once a) (chosen a),
                      ),
                )
                | inr (ids, es, knot) ↦ inr (ids, step ∙ rw es refl, knot)
              ]
      ]
