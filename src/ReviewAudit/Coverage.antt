-- ===== src/ReviewAudit/Coverage.antt =====
-- `validate_criterion_coverage`.
use mathlib.Core.List.{append-nil}
use ovca_core.Prelude.{
  ℕ, suc, ◌+◌, ◌≤◌, ◌<◌, String, true, false, ◌≡◌, ◌⊎◌, ◌↔◌, inl, inr, refl, sym, ◌∙◌, subst, ap,
  List, [], ◌∷◌, ◌++◌, map, ok, arith, any, Bool-cases, Result-cases, ◌||◌, if◌then◌else◌,
}
use ovca_core.Collections.Order.{◌=?◌, string_ord, pair_ord, =?_iff, =?_refl}
use ovca_core.Collections.BTreeSet.{
  BTreeSet, contains, insert, collect, contains-insert, contains-collect,
}
use ovca_core.Collections.BTreeSet.Count.{count, count-append, contains_of_count, count_of_contains}
use ovca_core.Goal.Task.{GoalContract}
use ovca_core.Goal.Evidence.{CriterionAssessment, CriterionKind, criterion_kind_ord}
use ovca_core.ReviewAudit.{declared_criteria}
use ovca_core.ReviewAudit.Evidence.{
  goal_criteria_from, goal_criteria_of_kinds, validate_goal_criteria,
}
use ovca_core.ReviewAudit.Assessments.{
  Criterion, canonical_criteria, criteria_of_kinds, key_of, seen_from, all_seen, in_order_from,
  validate_criterion_coverage,
}

abbrev pub keys_of : List CriterionAssessment → List Criterion
keys_of = map key_of

contains-any : (a : Criterion) (xs : List Criterion) → contains a xs ≡ any (λ b. a =? b) xs
unfolding contains
contains-any a [] = refl
contains-any a (x ∷ xs) = ground (arith, contains-any a xs)

in_collect : (a : Criterion) (xs : List Criterion) → contains a (collect xs) ≡ contains a xs
in_collect a xs = contains-collect a xs ∙ sym (contains-any a xs)

-- What the first loop has found when it ends: keys that are declared, each once.
record AreSeen (declared_set seen : BTreeSet Criterion) (as' : List CriterionAssessment)
    (result : BTreeSet Criterion) : Type 0 where
  pub seen_all : (a : Criterion) → contains a result ≡ (contains a (keys_of as') || contains a seen)
  pub new_once : (a : Criterion) → count a (keys_of as') ≤ 1
  pub new_only : (a : Criterion) → contains a (keys_of as') ≡ true → contains a seen ≡ false
  pub all_declared :
      (a : Criterion) → contains a (keys_of as') ≡ true → contains a declared_set ≡ true

seen_from-AreSeen :
    (declared_set seen : BTreeSet Criterion) (as' : List CriterionAssessment)
    (result : BTreeSet Criterion)
    → seen_from declared_set seen as' ≡ ok result
    → AreSeen declared_set seen as' result
unfolding seen_from contains
seen_from-AreSeen declared_set seen [] result h = record {
  seen_all = λ a. cc h;
  new_once = λ a. omega arith;
  new_only = λ a c. absurd (cc c);
  all_declared = λ a c. absurd (cc c);
}
seen_from-AreSeen declared_set seen (x ∷ as') result h =
    let k = key_of x in
    let unseen : contains (key_of x) seen ≡ false = ground arith in
    let declared : contains (key_of x) declared_set ≡ true = ground arith in
    let rest = seen_from-AreSeen declared_set (insert (key_of x) seen) as' result (ground arith) in
    let alone : count (key_of x) (keys_of as') ≡ 0 = ground (
      arith,
      rest.new_only (key_of x),
      contains-insert (key_of x) (key_of x) seen,
      contains_of_count (key_of x) (keys_of as'),
      =?_refl (key_of x),
    ) in
    record {
      seen_all = λ a. ground (arith, rest.seen_all a, contains-insert a (key_of x) seen);
      new_once = λ a. elim (Bool-cases (a =? key_of x)) [
        | inl same ↦
            let ea : key_of x ≡ a = sym ((=?_iff a (key_of x)).0 same) in
            let alone' : count a (keys_of as') ≡ 0 =
              subst (λ y. count y (keys_of as') ≡ 0) ea alone in
            ground (arith, alone')
        | inr other ↦ ground (arith, rest.new_once a)
      ];
      new_only = λ a c. elim (Bool-cases (a =? key_of x)) [
        | inl same ↦ rw ((=?_iff a (key_of x)).0 same) unseen
        | inr other ↦
            ground (arith, rest.new_only a (ground arith), contains-insert a (key_of x) seen)
      ];
      all_declared = λ a c. elim (Bool-cases (a =? key_of x)) [
        | inl same ↦ rw ((=?_iff a (key_of x)).0 same) declared
        | inr other ↦ rest.all_declared a (ground arith)
      ];
    }

all_seen-contains :
    (seen : BTreeSet Criterion) (declared : List Criterion) (a : Criterion)
    → all_seen seen declared ≡ ok tt
    → contains a declared ≡ true
    → contains a seen ≡ true
unfolding all_seen contains
all_seen-contains seen [] a h c = absurd (cc c)
all_seen-contains seen ((k, x) ∷ declared) a h c = elim (Bool-cases (a =? (k, x))) [
  | inl same ↦ rw ((=?_iff a (k, x)).0 same) (ground arith)
  | inr other ↦ all_seen-contains seen declared a (ground arith) (ground arith)
]

-- One of two lists goes on where the other ends.
abbrev Extends : List Criterion → List Criterion → Type 0
Extends xs ys = (rest : List Criterion) × (xs ≡ ys ++ rest)

in_order_from-prefix :
    (index : ℕ) (declared : List Criterion) (as' : List CriterionAssessment)
    → in_order_from index declared as' ≡ ok tt
    → Extends declared (keys_of as') ⊎ Extends (keys_of as') declared
unfolding in_order_from
in_order_from-prefix index declared [] h = inl (declared, refl)
in_order_from-prefix index [] (x ∷ as') h = inr (keys_of (x ∷ as'), refl)
in_order_from-prefix index ((k, c) ∷ declared) (x ∷ as') h =
    let ek : k ≡ x.kind = (=?_iff k x.kind).0 (ground arith) in
    let ec : c ≡ x.criterion = (=?_iff c x.criterion).0 (ground arith) in
    elim (in_order_from-prefix (suc index) declared as' (ground arith)) [
      | inl (rest, e) ↦ inl (rest, rw (ek, ec, e) refl)
      | inr (rest, e) ↦ inr (rest, rw (ek, ec, e) refl)
    ]

-- The declared criteria are distinct when `validate_goal_criteria` has passed.
goal_criteria_from-once :
    (kind : CriterionKind) (index : ℕ) (seen : BTreeSet String) (cs : List String) (c : String)
    → goal_criteria_from kind index seen cs ≡ ok tt
    → (count c cs ≤ 1) × (contains c seen ≡ true → count c cs ≡ 0)
unfolding goal_criteria_from
goal_criteria_from-once kind index seen [] c h = (omega arith, λ _. refl)
goal_criteria_from-once kind index seen (x ∷ cs) c h =
    let passed : goal_criteria_from kind (suc index) (insert x seen) cs ≡ ok tt = ground arith in
    let rest = goal_criteria_from-once kind (suc index) (insert x seen) cs c passed in
    elim (Bool-cases (c =? x)) [
      | inl same ↦
          let e = (=?_iff c x).0 same in
          let unseen : contains c seen ≡ false = rw e (ground arith) in
          let alone : count c cs ≡ 0 = ground (arith, rest.1, contains-insert c x seen) in
          (ground (arith, alone), λ s. absurd (cc (s, unseen)))
      | inr other ↦ (ground (arith, rest.0), λ s. ground (arith, rest.1, contains-insert c x seen))
    ]

count-kind :
    (k kind : CriterionKind) (c : String) (cs : List String)
    → count {A = Criterion} (k, c) (map (λ x. (kind, x)) cs) ≡ (if k =? kind then count c cs else 0)
count-kind k kind c [] = ground arith
count-kind k kind c (x ∷ cs) = ground (arith, count-kind k kind c cs)

canonical-once :
    (goal : GoalContract) (a : Criterion)
    → validate_goal_criteria goal ≡ ok tt
    → count a (canonical_criteria goal) ≤ 1
unfolding goal_criteria_of_kinds criteria_of_kinds declared_criteria
canonical-once goal (k, c) h = ground (
  arith,
  count-append {A = Criterion} (k, c)
      (map (λ x. (CriterionKind.acceptance, x)) goal.acceptance_criteria)
      (criteria_of_kinds goal (CriterionKind.verification ∷ CriterionKind.definition_of_done ∷ [])),
  count-append {A = Criterion} (k, c)
      (map (λ x. (CriterionKind.verification, x)) goal.verification_criteria)
      (criteria_of_kinds goal (CriterionKind.definition_of_done ∷ [])),
  count-append {A = Criterion} (k, c)
      (map (λ x. (CriterionKind.definition_of_done, x)) goal.definition_of_done) [],
  count-kind k CriterionKind.acceptance c goal.acceptance_criteria,
  count-kind k CriterionKind.verification c goal.verification_criteria,
  count-kind k CriterionKind.definition_of_done c goal.definition_of_done,
  goal_criteria_from-once CriterionKind.acceptance 0 [] goal.acceptance_criteria c,
  goal_criteria_from-once CriterionKind.verification 0 [] goal.verification_criteria c,
  goal_criteria_from-once CriterionKind.definition_of_done 0 [] goal.definition_of_done c,
)

-- The reverse direction: the declared criteria themselves pass.
seen_from-ok :
    (declared_set seen : BTreeSet Criterion) (as' : List CriterionAssessment)
    → ((a : Criterion) → count a (keys_of as') ≤ 1)
    → ((a : Criterion) → contains a (keys_of as') ≡ true → contains a seen ≡ false)
    → ((a : Criterion) → contains a (keys_of as') ≡ true → contains a declared_set ≡ true)
    → (result : BTreeSet Criterion) × (seen_from declared_set seen as' ≡ ok result)
unfolding seen_from contains
seen_from-ok declared_set seen [] once new known = (seen, refl)
seen_from-ok declared_set seen (x ∷ as') once new known =
    let here : contains (key_of x) (keys_of (x ∷ as')) ≡ true =
      ground (arith, =?_refl (key_of x)) in
    let alone : contains (key_of x) (keys_of as') ≡ false =
      ground
        (arith, once (key_of x), =?_refl (key_of x), count_of_contains (key_of x) (keys_of as')) in
    let (result, e) =
      seen_from-ok declared_set (insert (key_of x) seen) as' (λ a. ground (arith, once a))
        (λ a c. elim (Bool-cases (a =? key_of x)) [
          | inl same ↦
              let ea : a ≡ key_of x = (=?_iff a (key_of x)).0 same in absurd (cc (c, alone, ea))
          | inr other ↦ ground (arith, contains-insert a (key_of x) seen, new a (ground arith))
        ])
        (λ a c. known a (ground arith)) in
    (result, ground (arith, e, new (key_of x) here, known (key_of x) here))

all_seen-ok :
    (seen : BTreeSet Criterion) (declared : List Criterion)
    → ((a : Criterion) → contains a declared ≡ true → contains a seen ≡ true)
    → all_seen seen declared ≡ ok tt
unfolding all_seen contains
all_seen-ok seen [] all = refl
all_seen-ok seen ((k, c) ∷ declared) all = ground (
  arith,
  all (k, c) (ground (arith, =?_refl {A = Criterion} (k, c))),
  all_seen-ok seen declared (λ a h. all a (ground arith)),
)

in_order_from-ok :
    (index : ℕ) (as' : List CriterionAssessment) → in_order_from index (keys_of as') as' ≡ ok tt
unfolding in_order_from
in_order_from-ok index [] = refl
in_order_from-ok index (x ∷ as') =
    ground (arith, in_order_from-ok (suc index) as', =?_refl x.kind, =?_refl x.criterion)

-- What is beyond the end of a list that has it is there twice.
too_many :
    (longer shorter : List Criterion) (x : Criterion) (rest : List Criterion)
    → count x longer ≤ 1
    → (0 < count x longer → 0 < count x shorter)
    → longer ≡ shorter ++ x ∷ rest
    → ⊥
too_many longer shorter x rest once there e =
    let split : count x longer ≡ count x shorter + count x (x ∷ rest) =
      ap (count x) e ∙ count-append x shorter (x ∷ rest) in
    ground (arith, split, there, once, =?_refl x)

seen_only :
    (a : Criterion) (result : BTreeSet Criterion) (keys : List Criterion)
    → ((a : Criterion) → contains a result ≡ (contains a keys || contains a []))
    → contains a result ≡ true
    → contains a keys ≡ true
unfolding contains
seen_only a result keys all c = ground (arith, all a)

exact :
    (declared keys : List Criterion)
    → ((a : Criterion) → count a declared ≤ 1)
    → ((a : Criterion) → count a keys ≤ 1)
    → ((a : Criterion) → 0 < count a declared → 0 < count a keys)
    → ((a : Criterion) → 0 < count a keys → 0 < count a declared)
    → Extends declared keys ⊎ Extends keys declared
    → keys ≡ declared
exact declared keys once once' there back (inl ([], e)) = sym (append-nil keys) ∙ sym e
exact declared keys once once' there back (inl (x ∷ rest, e)) =
    absurd (too_many declared keys x rest (once x) (there x) e)
exact declared keys once once' there back (inr ([], e)) = e ∙ append-nil declared
exact declared keys once once' there back (inr (x ∷ rest, e)) =
    absurd (too_many keys declared x rest (once' x) (back x) e)

module _ (goal : GoalContract) (as' : List CriterionAssessment)
    (distinct : validate_goal_criteria goal ≡ ok tt) where
  coverage-exact :
      validate_criterion_coverage goal as' ≡ ok tt → keys_of as' ≡ canonical_criteria goal
  unfolding validate_criterion_coverage
  coverage-exact h =
      let declared = canonical_criteria goal in
      elim (Result-cases (seen_from (collect (canonical_criteria goal)) [] as')) [
        | inr (inl (x, e)) ↦ absurd (ground arith)
        | inr (inr e) ↦ absurd (ground arith)
        | inl (result, e) ↦
            let seen = seen_from-AreSeen (collect (canonical_criteria goal)) [] as' result e in
            let all : all_seen result (canonical_criteria goal) ≡ ok tt = ground arith in
            let ordered : in_order_from 0 (canonical_criteria goal) as' ≡ ok tt = ground arith in
            exact (canonical_criteria goal) (keys_of as') (λ a. canonical-once goal a distinct)
              (λ a. seen.new_once a)
              (λ a there. count_of_contains a (keys_of as') (
                seen_only a result (keys_of as') seen.seen_all (
                  all_seen-contains result (canonical_criteria goal) a all
                    (contains_of_count a (canonical_criteria goal) there))))
              (λ a there. count_of_contains a (canonical_criteria goal) (
                sym (in_collect a (canonical_criteria goal))
                ∙ seen.all_declared a (contains_of_count a (keys_of as') there)))
              (in_order_from-prefix 0 (canonical_criteria goal) as' ordered)
      ]

  exact-coverage :
      keys_of as' ≡ canonical_criteria goal → validate_criterion_coverage goal as' ≡ ok tt
  unfolding validate_criterion_coverage contains
  exact-coverage e =
      let once : (a : Criterion) → count a (keys_of as') ≤ 1 =
        λ a. rw e (canonical-once goal a distinct) in
      let (result, er) =
        seen_from-ok (collect (canonical_criteria goal)) [] as' once (λ a c. refl)
          (λ a c. in_collect a (canonical_criteria goal) ∙ subst (λ x. contains a x ≡ true) e c) in
      let seen = seen_from-AreSeen (collect (canonical_criteria goal)) [] as' result er in
      let all : all_seen result (canonical_criteria goal) ≡ ok tt =
        all_seen-ok result (canonical_criteria goal)
          (λ a c. seen.seen_all a ∙ ground (arith, subst (λ x. contains a x ≡ true) (sym e) c)) in
      let ordered : in_order_from 0 (canonical_criteria goal) as' ≡ ok tt =
        subst (λ x. in_order_from 0 x as' ≡ ok tt) e (in_order_from-ok 0 as') in
      rw (er, all, ordered) refl

-- For a goal whose criteria have passed their own validation, the three loops over the assessments
-- pass exactly when the assessments are of the declared criteria, each once and in their order.
pub validate_criterion_coverage_iff :
    (goal : GoalContract) (assessments : List CriterionAssessment)
    → validate_goal_criteria goal ≡ ok tt
    → (validate_criterion_coverage goal assessments ≡ ok tt)
      ↔ (map key_of assessments ≡ canonical_criteria goal)
validate_criterion_coverage_iff goal assessments distinct =
    (coverage-exact goal assessments distinct, exact-coverage goal assessments distinct)
