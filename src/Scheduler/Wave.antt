-- ===== src/Scheduler/Wave.antt =====
-- The two loops that choose the tasks of a wave.
use ovca_core.Prelude.{
  ◌≤◌, ◌<◌, String, Bool, true, false, ◌≡◌, refl, sym, ◌∙◌, inl, inr, some, List, [], ◌∷◌, ok,
  arith, any, Bool-cases, Option-cases,
}
use ovca_core.Collections.Order.{◌=?◌, string_ord, =?_iff, =?_refl}
use ovca_core.Collections.BTreeMap.{BTreeMap, get, contains_key}
use ovca_core.Collections.BTreeSet.{BTreeSet, contains, extend, contains-extend}
use ovca_core.Collections.BTreeSet.Count.{count}
use ovca_core.Goal.Ids.{TaskId}
use ovca_core.Goal.Task.{Task}
use ovca_core.Scheduler.{ready_tasks, pick_wave, is_ready, conflicts}

-- Every identifier of the list is a task's.
abbrev pub AreKnown : BTreeMap TaskId Task → List TaskId → Type 0
AreKnown m ids = (a : TaskId) → 0 < count a ids → contains_key a m ≡ true

pub AreKnown-tail :
    (m : BTreeMap TaskId Task) (j : TaskId) (ids : List TaskId)
    → AreKnown m (j ∷ ids)
    → AreKnown m ids
AreKnown-tail m j ids known a h = known a (ground arith)

pub task-of :
    (m : BTreeMap TaskId Task) (j : TaskId) (ids : List TaskId)
    → AreKnown m (j ∷ ids)
    → (t : Task) × (get j m ≡ some t)
task-of m j ids known = elim (Option-cases (get j m)) [
  | inl n ↦ absurd (ground (arith, known j, =?_refl j))
  | inr found ↦ found
]

-- What the list of the ready tasks has to do with the list that it is chosen from.
pub record AreReady (m : BTreeMap TaskId Task) (completed : BTreeSet TaskId)
    (ids ready : List TaskId) : Type 0 where
  pub chosen : (a : TaskId) → count a ready ≤ count a ids
  pub sound :
      (a : TaskId) (t : Task) → get a m ≡ some t → 0 < count a ready → is_ready completed t ≡ true
  pub complete :
      (a : TaskId) (t : Task)
      → get a m ≡ some t
      → is_ready completed t ≡ true
      → 0 < count a ids
      → 0 < count a ready

module _ (m : BTreeMap TaskId Task) (completed : BTreeSet TaskId) where
  pub ready_tasks-AreReady :
      (ids : List TaskId)
      → AreKnown m ids
      → (ready : List TaskId) × (ready_tasks m completed ids ≡ ok ready)
        × AreReady m completed ids ready
  unfolding ready_tasks
  ready_tasks-AreReady [] known = (
    [],
    refl,
    record {
      chosen = λ a. omega arith;
      sound = λ a t e h. absurd (omega arith);
      complete = λ a t e r h. absurd (omega arith);
    },
  )
  ready_tasks-AreReady (j ∷ ids) known =
      let (t, et) = task-of m j ids known in
      let (rest, er, ih) = ready_tasks-AreReady ids (AreKnown-tail m j ids known) in
      elim (Bool-cases (is_ready completed t)) [
        | inl yes_ready ↦ (
          j ∷ rest,
          rw (et, er, yes_ready) refl,
          record {
            chosen = λ a. ground (arith, ih.chosen a);
            sound = λ a u e h. elim (Bool-cases (a =? j)) [
              | inl same ↦
                  let ea : a ≡ j = (=?_iff a j).0 same in
                  let eu : t ≡ u = cc (et, e, ea) in rw (← eu) yes_ready
              | inr other ↦ ih.sound a u e (ground arith)
            ];
            complete = λ a u e r h. ground (arith, ih.complete a u e r);
          },
        )
        | inr not_ready ↦ (
          rest,
          rw (et, er, not_ready) refl,
          record {
            chosen = λ a. ground (arith, ih.chosen a);
            sound = ih.sound;
            complete = λ a u e r h. elim (Bool-cases (a =? j)) [
              | inl same ↦
                  let ea : a ≡ j = (=?_iff a j).0 same in
                  let eu : t ≡ u = cc (et, e, ea) in absurd (cc (not_ready, r, eu))
              | inr other ↦ ih.complete a u e r (ground arith)
            ];
          },
        )
      ]

abbrev pub Writes : Task → String → Type 0
Writes t key = contains key t.write_keys ≡ true

-- No write key of the tasks is among the given ones, and no two of the tasks share one.
pub record AreDisjoint (m : BTreeMap TaskId Task) (keys : BTreeSet String) (ids : List TaskId)
    : Type 0 where
  pub apart :
      (a : TaskId) (t : Task) (key : String)
      → get a m ≡ some t
      → 0 < count a ids
      → Writes t key
      → contains key keys ≡ false
  pub pairwise :
      (a b : TaskId) (t u : Task) (key : String)
      → get a m ≡ some t
      → get b m ≡ some u
      → 0 < count a ids
      → 0 < count b ids
      → Writes t key
      → Writes u key
      → a ≡ b

pub contains-any : (key : String) (xs : List String) → contains key xs ≡ any (λ b. key =? b) xs
unfolding contains
contains-any key [] = refl
contains-any key (x ∷ xs) = ground (arith, contains-any key xs)

any-false :
    (p : String → Bool) (xs : List String) (key : String)
    → any p xs ≡ false
    → contains key xs ≡ true
    → p key ≡ false
unfolding contains
any-false p [] key h c = absurd cc
any-false p (x ∷ xs) key h c = elim (Bool-cases (key =? x)) [
  | inl same ↦ rw ((=?_iff key x).0 same) (ground arith)
  | inr other ↦ any-false p xs key (ground arith) (ground arith)
]

conflicts-empty : (xs : List String) → any (λ k. contains k []) xs ≡ false
unfolding contains
conflicts-empty [] = refl
conflicts-empty (x ∷ xs) = conflicts-empty xs

-- After the keys of a task are added, a key that is outside is neither old nor the task's.
extend_apart :
    (keys : BTreeSet String) (t : Task) (key : String)
    → contains key (extend keys t.write_keys) ≡ false
    → (contains key keys ≡ false) × (contains key t.write_keys ≡ false)
extend_apart keys t key h =
    ground (arith, contains-extend key keys t.write_keys, contains-any key t.write_keys)

-- What the list of the picked tasks has to do with the list that it is picked from.
pub record ArePicked (m : BTreeMap TaskId Task) (keys : BTreeSet String) (ready ids : List TaskId)
    : Type 0 where
  pub chosen : (a : TaskId) → count a ids ≤ count a ready
  pub disjoint : AreDisjoint m keys ids

module _ (m : BTreeMap TaskId Task) where
  weaken :
      (keys : BTreeSet String) (t : Task) (ids : List TaskId)
      → AreDisjoint m (extend keys t.write_keys) ids
      → AreDisjoint m keys ids
  weaken keys t ids d = record {
    apart = λ a u key e h w. (extend_apart keys t key (d.apart a u key e h w)).0;
    pairwise = d.pairwise;
  }

  join :
      (keys : BTreeSet String) (j : TaskId) (t : Task) (ids : List TaskId)
      → get j m ≡ some t
      → conflicts keys t ≡ false
      → AreDisjoint m (extend keys t.write_keys) ids
      → AreDisjoint m keys (j ∷ ids)
  join keys j t ids et free d = record {
    apart = λ a u key e h w. elim (Bool-cases (a =? j)) [
      | inl same ↦
          let ea : a ≡ j = (=?_iff a j).0 same in
          let eu : u ≡ t = cc (et, e, ea) in
          any-false (λ k. contains k keys) t.write_keys key free (rw eu at w)
      | inr other ↦ (extend_apart keys t key (d.apart a u key e (ground arith) w)).0
    ];
    pairwise = λ a b u v key ea eb ha hb wa wb. elim (Bool-cases (a =? j)) [
      | inl same_a ↦ elim (Bool-cases (b =? j)) [
        | inl same_b ↦ (=?_iff a j).0 same_a ∙ sym ((=?_iff b j).0 same_b)
        | inr other_b ↦
            let aj : a ≡ j = (=?_iff a j).0 same_a in
            let eu : u ≡ t = cc (et, ea, aj) in
            absurd (cc ((extend_apart keys t key (d.apart b v key eb (ground arith) wb)).1, wa, eu))
      ]
      | inr other_a ↦ elim (Bool-cases (b =? j)) [
        | inl same_b ↦
            let bj : b ≡ j = (=?_iff b j).0 same_b in
            let ev : v ≡ t = cc (et, eb, bj) in
            absurd (cc ((extend_apart keys t key (d.apart a u key ea (ground arith) wa)).1, wb, ev))
        | inr other_b ↦ d.pairwise a b u v key ea eb (ground arith) (ground arith) wa wb
      ]
    ];
  }

  pub pick_wave-ArePicked :
      (keys : BTreeSet String) (ready : List TaskId)
      → AreKnown m ready
      → (ids : List TaskId) × (pick_wave m keys ready ≡ ok ids) × ArePicked m keys ready ids
  unfolding pick_wave
  pick_wave-ArePicked keys [] known = (
    [],
    refl,
    record {
      chosen = λ a. omega arith;
      disjoint = record {
        apart = λ a t key e h w. absurd (omega arith);
        pairwise = λ a b t u key ea eb ha hb wa wb. absurd (omega arith);
      };
    },
  )
  pick_wave-ArePicked keys (j ∷ ready) known =
      let (t, et) = task-of m j ready known in
      elim (Bool-cases (conflicts keys t)) [
        | inl taken ↦
            let (ids, ei, ih) = pick_wave-ArePicked keys ready (AreKnown-tail m j ready known) in
            (
              ids,
              rw (et, taken, ei) refl,
              record { chosen = λ a. ground (arith, ih.chosen a); disjoint = ih.disjoint },
            )
        | inr free ↦
            let (ids, ei, ih) =
              pick_wave-ArePicked (extend keys t.write_keys) ready
                (AreKnown-tail m j ready known) in
            (
              j ∷ ids,
              rw (et, free, ei) refl,
              record {
                chosen = λ a. ground (arith, ih.chosen a);
                disjoint = join keys j t ids et free ih.disjoint;
              },
            )
      ]

  -- The first ready task is picked, when no key is taken yet.
  pub pick_wave-first :
      (j : TaskId) (ready ids : List TaskId)
      → AreKnown m (j ∷ ready)
      → pick_wave m [] (j ∷ ready) ≡ ok ids
      → 0 < count j ids
  unfolding pick_wave
  pick_wave-first j ready ids known h =
      let (t, et) = task-of m j ready known in
      let (rest, er, _) =
        pick_wave-ArePicked (extend [] t.write_keys) ready (AreKnown-tail m j ready known) in
      let free = conflicts-empty t.write_keys in
      let run : pick_wave m [] (j ∷ ready) ≡ ok (j ∷ rest) = rw (et, free, er) refl in
      let made : j ∷ rest ≡ ids = cc (run, h) in rw (← made) (ground (arith, =?_refl j))
