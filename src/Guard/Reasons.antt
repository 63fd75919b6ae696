-- ===== src/Guard/Reasons.antt =====
-- When the guard policy has no reason against a request.
use mathlib.Core.List.{Mem, mem-cons, mem-cons_self, mem-cons_of_mem, not-mem-nil, Mem-prop}
use mathlib.Core.Logic.Or
use ovca_core.Prelude.{
  ℕ, String, Bool, true, false, not, ◌≡◌, ◌↔◌, ◌&&◌, ◌||◌, List, [], ◌∷◌, length, any, is_empty,
  is_blank, refl, sym, subst, ◌∙◌, ◌==◌, arith,
}
use ovca_core.Collections.Order.{Ord, ◌=?◌, ◌<?◌, string_ord}
use ovca_core.Collections.BTreeSet.{BTreeSet, insert, collect}
use ovca_core.Collections.Slice.{SliceSearch, has_descent}
use ovca_core.Goal.Ids.{RiskTier, risk_tier_ord, goal_runtime_contract_version}
use ovca_core.Goal.Policy.{GuardRequest, GuardDenyReason, SideEffectClass, deny_reason_ord}
use ovca_core.Guard.Keys.{IsKeyList, IsKeyList-iff}
use ovca_core.Guard.Tiers.{IsCovered, IsCovered-iff}
use ovca_core.Guard.{
  GuardEvaluationContext, minimum_risk_tier, insert_if, validate_keys, is_read_only, is_subset,
  validate_request, deny_reasons,
}

insert-is_empty : {A : Type 0} ⦃o : Ord A⦄ (a : A) (s : BTreeSet A) → is_empty (insert a s) ≡ false
unfolding insert
insert-is_empty a [] = refl
insert-is_empty a (b ∷ s) = ground arith

insert_if-is_empty :
    (test : Bool) (reason : GuardDenyReason) (s : BTreeSet GuardDenyReason)
    → is_empty (insert_if test reason s) ≡ (is_empty s && not test)
unfolding insert_if
insert_if-is_empty true reason s = ground (arith, insert-is_empty reason s)
insert_if-is_empty false reason s = ground arith

-- The tests of a chain of early rejections, none of which holds.
none_hold : List Bool → Bool
none_hold [] = true
none_hold (b ∷ bs) = not b && none_hold bs

abbrev AllFalse : List Bool → Type 0
AllFalse [] = Unit
AllFalse (b ∷ bs) = (b ≡ false) × AllFalse bs

none_hold_iff : (bs : List Bool) → (none_hold bs ≡ true) ↔ AllFalse bs
unfolding none_hold
none_hold_iff [] = (λ h. tt, λ a. refl)
none_hold_iff (b ∷ bs) =
    let rest = none_hold_iff bs in
    (λ h. (ground arith, rest.0 (ground arith)), λ a. ground (arith, a.0, rest.1 a.1))

and_assoc : (a b c : Bool) → ((a && b) && c) ≡ (a && (b && c))
and_assoc true b c = refl
and_assoc false b c = refl

and_true : (a : Bool) → (a && true) ≡ a
and_true true = refl
and_true false = refl

not-not : {b : Bool} → not b ≡ false → b ≡ true
not-not {b} h = ground arith

not-false : {b : Bool} → b ≡ true → not b ≡ false
not-false {b} h = ground arith

versions_iff :
    (v w : ℕ)
    → ((not (v == goal_runtime_contract_version) || not (w == goal_runtime_contract_version))
        ≡ false)
      ↔ ((v ≡ goal_runtime_contract_version) × (w ≡ goal_runtime_contract_version))
versions_iff v w = ground arith

distinct_iff : (n m : ℕ) → (not (n == m) ≡ false) ↔ (n ≡ m)
distinct_iff n m = ground arith

read_only_iff :
    (e : SideEffectClass) (keys : List String)
    → ((is_read_only e && not (is_empty keys)) ≡ false)
      ↔ (e ≡ SideEffectClass.read_only → keys ≡ [])
unfolding is_read_only
read_only_iff e [] = (λ h r. refl, λ h. ground arith)
read_only_iff e (k ∷ keys) = (λ h r. absurd (ground arith), λ h. ground arith)

module _ (slices : SliceSearch) where
  is_subset_iff :
      (requested permitted : List String)
      → has_descent permitted ≡ false
      → (is_subset slices requested permitted ≡ true)
        ↔ ((k : String) → Mem k requested → Mem k permitted)
  unfolding is_subset
  is_subset_iff [] permitted a = (λ h k m. absurd (not-mem-nil m), λ h. refl)
  is_subset_iff (x ∷ r) permitted a =
      let rest = is_subset_iff r permitted a in
      let here = slices.finds_iff permitted x a in
      (
        λ h k m.
            Or.elim Mem-prop (mem-cons.0 m)
              (λ e. subst (λ (j : String). Mem j permitted) (sym e) (here.0 (ground arith)))
              (rest.0 (ground arith) k),
        λ h. ground (arith, here.1 (h x mem-cons_self), rest.1 (λ k m. h k (mem-cons_of_mem x m))),
      )

  -- A request that can be looked at by its tier.
  pub record IsAdmissible (request : GuardRequest) (context : GuardEvaluationContext) : Type 0 where
    pub request_named : is_blank request.id ≡ false
    pub approval_named : is_blank context.approval_request_id ≡ false
    pub labelled : is_blank request.operation_label ≡ false
    pub request_version : request.contract_version ≡ goal_runtime_contract_version
    pub profile_version :
        request.permission_profile.contract_version ≡ goal_runtime_contract_version
    pub resources : IsKeyList request.resource_keys
    pub writes : IsKeyList request.write_keys
    pub permitted_resources : IsKeyList request.permission_profile.resource_keys
    pub permitted_writes : IsKeyList request.permission_profile.write_keys
    pub resources_permitted :
        (k : String) → Mem k request.resource_keys → Mem k request.permission_profile.resource_keys
    pub writes_permitted :
        (k : String) → Mem k request.write_keys → Mem k request.permission_profile.write_keys
    pub read_only_writes : request.side_effect ≡ SideEffectClass.read_only → request.write_keys ≡ []
    pub covered : IsCovered request.side_effect request.permission_profile.risk_tier

  -- The tests of the policy, in the order in which they are made.
  abbrev key_tests : List String → List Bool → List Bool
  key_tests keys rest =
      any is_blank keys ∷ not (length (collect keys) == length keys) ∷ has_descent keys ∷ rest

  abbrev tests_of : GuardRequest → GuardEvaluationContext → List Bool
  tests_of request context =
      let profile = request.permission_profile in
      is_blank request.id
      ∷ (not (request.contract_version == goal_runtime_contract_version)
          || not (profile.contract_version == goal_runtime_contract_version))
      ∷ is_blank request.operation_label
      ∷ key_tests request.resource_keys (
          key_tests request.write_keys (
            key_tests profile.resource_keys (
              key_tests profile.write_keys (
                not (is_subset slices request.resource_keys profile.resource_keys)
                ∷ not (is_subset slices request.write_keys profile.write_keys)
                ∷ (is_read_only request.side_effect && not (is_empty request.write_keys))
                ∷ is_blank context.approval_request_id
                ∷ (profile.risk_tier <? minimum_risk_tier request.side_effect)
                ∷ (minimum_risk_tier request.side_effect =? RiskTier.r3
                    || profile.risk_tier =? RiskTier.r3)
                ∷ []))))

  module _ (request : GuardRequest) (context : GuardEvaluationContext) where
    deny_reasons-is_empty :
        is_empty (deny_reasons slices request context) ≡ none_hold (tests_of request context)
    unfolding deny_reasons validate_request validate_keys none_hold
    deny_reasons-is_empty = simp (insert_if-is_empty, and_assoc, and_true)

    IsAdmissible-of_tests : AllFalse (tests_of request context) → IsAdmissible request context
    IsAdmissible-of_tests
          (
            named,
            (
              versions,
              (
                label,
                (
                  b1,
                  (
                    d1,
                    (
                      a1,
                      (
                        b2,
                        (
                          d2,
                          (
                            a2,
                            (
                              b3,
                              (
                                d3,
                                (
                                  a3,
                                  (
                                    b4,
                                    (
                                      d4,
                                      (
                                        a4,
                                        (
                                          resources,
                                          (writes, (read_only, (approval, (tier, (r3, _))))),
                                        ),
                                      ),
                                    ),
                                  ),
                                ),
                              ),
                            ),
                          ),
                        ),
                      ),
                    ),
                  ),
                ),
              ),
            ),
          ) =
        let profile = request.permission_profile in
        let versions' =
          (versions_iff request.contract_version profile.contract_version).0 versions in
        record {
          request_named = named;
          approval_named = approval;
          labelled = label;
          request_version = versions'.0;
          profile_version = versions'.1;
          resources = (IsKeyList-iff _).0 (b1, (distinct_iff _ _).0 d1, a1);
          writes = (IsKeyList-iff _).0 (b2, (distinct_iff _ _).0 d2, a2);
          permitted_resources = (IsKeyList-iff _).0 (b3, (distinct_iff _ _).0 d3, a3);
          permitted_writes = (IsKeyList-iff _).0 (b4, (distinct_iff _ _).0 d4, a4);
          resources_permitted =
              (is_subset_iff request.resource_keys profile.resource_keys a3).0 (not-not resources);
          writes_permitted =
              (is_subset_iff request.write_keys profile.write_keys a4).0 (not-not writes);
          read_only_writes = (read_only_iff request.side_effect request.write_keys).0 read_only;
          covered = (IsCovered-iff request.side_effect profile.risk_tier).0 (tier, r3);
        }

    tests_of_admissible : IsAdmissible request context → AllFalse (tests_of request context)
    tests_of_admissible a =
        let profile = request.permission_profile in
        let tests = (IsCovered-iff request.side_effect profile.risk_tier).1 a.covered in
        let resources = (IsKeyList-iff _).1 a.resources in
        let writes = (IsKeyList-iff _).1 a.writes in
        let permitted_resources = (IsKeyList-iff _).1 a.permitted_resources in
        let permitted_writes = (IsKeyList-iff _).1 a.permitted_writes in
        let distinct = λ (n m : ℕ) (e : n ≡ m). (distinct_iff n m).1 e in
        (
          a.request_named,
          (
            (versions_iff _ _).1 (a.request_version, a.profile_version),
            (
              a.labelled,
              (
                resources.0,
                (
                  distinct _ _ resources.1,
                  (
                    resources.2,
                    (
                      writes.0,
                      (
                        distinct _ _ writes.1,
                        (
                          writes.2,
                          (
                            permitted_resources.0,
                            (
                              distinct _ _ permitted_resources.1,
                              (
                                permitted_resources.2,
                                (
                                  permitted_writes.0,
                                  (
                                    distinct _ _ permitted_writes.1,
                                    (
                                      permitted_writes.2,
                                      (
                                        not-false (
                                            (is_subset_iff request.resource_keys
                                                profile.resource_keys permitted_resources.2).1
                                              a.resources_permitted),
                                        (
                                          not-false (
                                              (is_subset_iff request.write_keys profile.write_keys
                                                  permitted_writes.2).1
                                                a.writes_permitted),
                                          (
                                            (read_only_iff request.side_effect request.write_keys).1
                                                a.read_only_writes,
                                            (a.approval_named, (tests.0, (tests.1, tt))),
                                          ),
                                        ),
                                      ),
                                    ),
                                  ),
                                ),
                              ),
                            ),
                          ),
                        ),
                      ),
                    ),
                  ),
                ),
              ),
            ),
          ),
        )

    -- The policy has no reason against a request exactly when the request is admissible.
    pub deny_reasons-is_empty_iff :
        (is_empty (deny_reasons slices request context) ≡ true) ↔ IsAdmissible request context
    deny_reasons-is_empty_iff = (
      λ h. IsAdmissible-of_tests ((none_hold_iff _).0 (sym deny_reasons-is_empty ∙ h)),
      λ a. deny_reasons-is_empty ∙ (none_hold_iff _).1 (tests_of_admissible a),
    )
