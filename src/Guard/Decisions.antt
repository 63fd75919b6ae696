-- ===== src/Guard/Decisions.antt =====
-- The outcome of the guard policy, for every request.
use ovca_core.Prelude.{
  Bool, String, List, true, false, ◌≡◌, ◌≢◌, ◌↔◌, ◌⊎◌, inl, inr, ◌&&◌, ◌||◌, [], ◌∷◌, is_empty,
  refl, sym, ◌∙◌, arith, Bool-cases, if◌then◌else◌,
}
use ovca_core.Collections.Order.{◌=?◌}
use ovca_core.Collections.BTreeSet.{BTreeSet, contains, insert, extend, contains-insert}
use ovca_core.Collections.Slice.{SliceSearch}
use ovca_core.Goal.Ids.{RiskTier, risk_tier_ord, goal_runtime_contract_version}
use ovca_core.Goal.Policy.{
  GuardRequest, GuardOutcome, GuardRequirement, GuardDenyReason, ApprovalRequest, deny_reason_ord,
  guard_requirement_ord,
}
use ovca_core.Guard.{
  GuardEvaluationContext, minimum_risk_tier, validate_request, validate_keys,
  deny_missing_declaration, insert_if, evaluate_r2, evaluate_tier, deny_reasons,
  evaluate_guard_request,
}
use ovca_core.Guard.Tiers.{IsForbidden, r3_iff, IsOutward, IsOutward-iff}
use ovca_core.Guard.Reasons.{IsAdmissible, deny_reasons-is_empty_iff}

-- The gates around an operation that is allowed at once.
pub data AllowedAt (request : GuardRequest) : BTreeSet GuardRequirement → Type 0 where
  without_gate :
      {gates : BTreeSet GuardRequirement}
      → request.permission_profile.risk_tier ≡ RiskTier.r0
      → gates ≡ []
      → AllowedAt request gates
  after_review :
      {gates : BTreeSet GuardRequirement}
      → request.permission_profile.risk_tier ≡ RiskTier.r1
      → request.permission_profile.review_required ≡ true
      → gates ≡ GuardRequirement.reviewer ∷ []
      → AllowedAt request gates

-- What an operation at R2 has to declare before the owner is asked.
pub record PausedAt (request : GuardRequest) (context : GuardEvaluationContext)
    (approval : ApprovalRequest) (gates : BTreeSet GuardRequirement) : Type 0 where
  pub at_r2 : request.permission_profile.risk_tier ≡ RiskTier.r2
  pub asks_owner : request.permission_profile.approval_required ≡ true
  pub asks_review : request.permission_profile.review_required ≡ true
  pub asks_audit : IsOutward request.side_effect → request.permission_profile.audit_required ≡ true
  pub bound : approval ≡ record {
    contract_version = goal_runtime_contract_version;
    id = context.approval_request_id;
    guard_request = request;
    requested_at = context.requested_at;
  }
  pub gated :
      gates
      ≡ GuardRequirement.owner_approval
        ∷ GuardRequirement.reviewer
        ∷ (if request.permission_profile.audit_required then GuardRequirement.auditor ∷ [] else [])

allowed_of :
    (t : RiskTier) (request : GuardRequest) (context : GuardEvaluationContext)
    (gates : BTreeSet GuardRequirement)
    → request.permission_profile.risk_tier ≡ t
    → evaluate_tier t request context ≡ GuardOutcome.allow gates
    → AllowedAt request gates
unfolding evaluate_tier evaluate_r2 deny_missing_declaration extend
allowed_of RiskTier.r0 request context gates e h = without_gate e (ground arith)
allowed_of RiskTier.r1 request context gates e h = after_review e (ground arith) (ground arith)
allowed_of RiskTier.r2 request context gates e h = absurd (ground arith)
allowed_of RiskTier.r3 request context gates e h = absurd (cc)

allow_of :
    (t : RiskTier) (request : GuardRequest) (context : GuardEvaluationContext)
    (gates : BTreeSet GuardRequirement)
    → request.permission_profile.risk_tier ≡ t
    → AllowedAt request gates
    → evaluate_tier t request context ≡ GuardOutcome.allow gates
unfolding evaluate_tier extend
allow_of t request context gates e (without_gate r g) = ground arith
allow_of t request context gates e (after_review r v g) = ground arith

tier-pause_iff :
    (t : RiskTier) (request : GuardRequest) (context : GuardEvaluationContext)
    (approval : ApprovalRequest) (gates : BTreeSet GuardRequirement)
    → request.permission_profile.risk_tier ≡ t
    → (evaluate_tier t request context ≡ GuardOutcome.pause_for_approval approval gates)
      ↔ PausedAt request context approval gates
unfolding evaluate_tier evaluate_r2 deny_missing_declaration extend
tier-pause_iff RiskTier.r0 request context approval gates e =
    (λ h. cc, λ p. ground (arith, p.at_r2))
tier-pause_iff RiskTier.r1 request context approval gates e =
    (λ h. absurd (ground arith), λ p. ground (arith, p.at_r2))
tier-pause_iff RiskTier.r2 request context approval gates e = (
  λ h. record {
    at_r2 = e;
    asks_owner = ground arith;
    asks_review = ground arith;
    asks_audit = λ o. ground (arith, (IsOutward-iff request.side_effect).1 o);
    bound = ground arith;
    gated = ground arith;
  },
  λ p. ground (arith, (IsOutward-iff request.side_effect).0, p.asks_audit),
)
tier-pause_iff RiskTier.r3 request context approval gates e =
    (λ h. cc, λ p. ground (arith, p.at_r2))

insert_if-contains :
    (test : Bool) (a b : GuardDenyReason) (s : BTreeSet GuardDenyReason)
    → contains a (insert_if test b s) ≡ ((test && a =? b) || contains a s)
unfolding insert_if
insert_if-contains true a b s = contains-insert a b s
insert_if-contains false a b s = refl

inserts_other :
    (b : GuardDenyReason)
    → (GuardDenyReason.r3_deny_by_default =? b) ≡ false
    → (test : Bool) (s : BTreeSet GuardDenyReason)
    → contains GuardDenyReason.r3_deny_by_default (insert_if test b s)
      ≡ contains GuardDenyReason.r3_deny_by_default s
inserts_other b h test s =
    rw (insert_if-contains test GuardDenyReason.r3_deny_by_default b s) (ground arith)

inserts_r3 :
    (test : Bool) (s : BTreeSet GuardDenyReason)
    → contains GuardDenyReason.r3_deny_by_default
        (insert_if test GuardDenyReason.r3_deny_by_default s)
      ≡ (test || contains GuardDenyReason.r3_deny_by_default s)
inserts_r3 test s =
    rw
      (insert_if-contains test GuardDenyReason.r3_deny_by_default GuardDenyReason.r3_deny_by_default
        s)
      (ground arith)

keys_reasons :
    (keys : List String) (s : BTreeSet GuardDenyReason)
    → contains GuardDenyReason.r3_deny_by_default (validate_keys keys s)
      ≡ contains GuardDenyReason.r3_deny_by_default s
unfolding validate_keys
keys_reasons keys s =
    simp
      (
        inserts_other GuardDenyReason.blank_key refl,
        inserts_other GuardDenyReason.duplicate_key refl,
        inserts_other GuardDenyReason.invalid_key refl,
      )
      refl

-- What the tiers alone deny is denied for R3 at R3 only.
tier-denied :
    (t : RiskTier) (request : GuardRequest) (context : GuardEvaluationContext)
    (reasons : BTreeSet GuardDenyReason)
    → evaluate_tier t request context ≡ GuardOutcome.deny reasons
    → contains GuardDenyReason.r3_deny_by_default reasons ≡ true
    → t ≡ RiskTier.r3
unfolding evaluate_tier evaluate_r2 deny_missing_declaration extend insert contains
tier-denied RiskTier.r3 request context reasons h c = refl
tier-denied RiskTier.r0 request context reasons h c = absurd (cc h)
tier-denied RiskTier.r1 request context reasons h c = absurd (ground arith)
tier-denied RiskTier.r2 request context reasons h c = absurd (ground arith)

not_empty_of_contains :
    (a : GuardDenyReason) (s : BTreeSet GuardDenyReason) → contains a s ≡ true → is_empty s ≡ false
unfolding contains
not_empty_of_contains a [] h = cc
not_empty_of_contains a (b ∷ s) h = refl

module _ (slices : SliceSearch) (request : GuardRequest) (context : GuardEvaluationContext) where
  abbrev outcome : GuardOutcome
  outcome = evaluate_guard_request slices request context

  -- With no reason against it, the request goes by its tier.
  by_tier :
      IsAdmissible slices request context
      → outcome ≡ evaluate_tier request.permission_profile.risk_tier request context
  unfolding evaluate_guard_request
  by_tier a = rw ((deny_reasons-is_empty_iff slices request context).1 a)

  IsAdmissible-unless_denied :
      (o : GuardOutcome)
      → outcome ≡ o
      → ((reasons : BTreeSet GuardDenyReason) → o ≢ GuardOutcome.deny reasons)
      → IsAdmissible slices request context
  unfolding evaluate_guard_request
  IsAdmissible-unless_denied o e n =
      elim (Bool-cases (is_empty (deny_reasons slices request context))) [
        | inl h ↦ (deny_reasons-is_empty_iff slices request context).0 h
        | inr h ↦ absurd (n (deny_reasons slices request context) (ground arith))
      ]

  -- A request is allowed at once exactly when it is admissible and stands at R0, then with no gate,
  -- or at R1 with a review declared, then with the Reviewer's gate alone.
  pub evaluate-allow_iff :
      (gates : BTreeSet GuardRequirement)
      → (evaluate_guard_request slices request context ≡ GuardOutcome.allow gates)
        ↔ (IsAdmissible slices request context × AllowedAt request gates)
  evaluate-allow_iff gates = (
    λ h.
        let a = IsAdmissible-unless_denied (GuardOutcome.allow gates) h (λ r e. cc) in
        (a, allowed_of _ request context gates refl (sym (by_tier a) ∙ h)),
    λ (a, p). by_tier a ∙ allow_of _ request context gates refl p,
  )

  -- The owner is asked exactly for an admissible request at R2 that declares an owner's approval
  -- and a review, and an audit too if its effect leaves the machine; the approval request is bound
  -- to this request and context, and the gates are the owner's, the Reviewer's and, if declared, the
  -- Auditor's.
  pub evaluate-pause_iff :
      (approval : ApprovalRequest) (gates : BTreeSet GuardRequirement)
      → (evaluate_guard_request slices request context
          ≡ GuardOutcome.pause_for_approval approval gates)
        ↔ (IsAdmissible slices request context × PausedAt request context approval gates)
  evaluate-pause_iff approval gates = (
    λ h.
        let a =
          IsAdmissible-unless_denied (GuardOutcome.pause_for_approval approval gates) h
            (λ r e. cc) in
        (a, (tier-pause_iff _ request context approval gates refl).0 (sym (by_tier a) ∙ h)),
    λ (a, p). by_tier a ∙ (tier-pause_iff _ request context approval gates refl).1 p,
  )

  request_reasons :
      contains GuardDenyReason.r3_deny_by_default (validate_request slices request) ≡ false
  unfolding validate_request contains
  request_reasons =
      simp
        (
          keys_reasons,
          inserts_other GuardDenyReason.blank_guard_request_id refl,
          inserts_other GuardDenyReason.unsupported_contract_version refl,
          inserts_other GuardDenyReason.blank_operation_label refl,
          inserts_other GuardDenyReason.missing_resource_permission refl,
          inserts_other GuardDenyReason.missing_write_permission refl,
        )
        refl

  -- Only the test for R3 puts it among the reasons.
  among : contains GuardDenyReason.r3_deny_by_default (deny_reasons slices request context) ≡ (
      minimum_risk_tier request.side_effect =? RiskTier.r3
      || request.permission_profile.risk_tier =? RiskTier.r3)
  unfolding deny_reasons
  among =
      simp
        (
          inserts_r3,
          inserts_other GuardDenyReason.risk_tier_mismatch refl,
          inserts_other GuardDenyReason.blank_approval_request_id refl,
          request_reasons,
        )
        (ground arith)

  -- A request is denied with R3 among the reasons exactly when its effect is destructive,
  -- secret-bearing, irreversible or privileged, or it stands at R3, whatever else speaks against it.
  pub evaluate-r3_denied_iff :
      ((reasons : BTreeSet GuardDenyReason) × (evaluate_guard_request slices request context
          ≡ GuardOutcome.deny reasons)
        × (contains GuardDenyReason.r3_deny_by_default reasons ≡ true))
      ↔ (IsForbidden request.side_effect ⊎ (request.permission_profile.risk_tier ≡ RiskTier.r3))
  unfolding evaluate_guard_request
  evaluate-r3_denied_iff =
      let reasons = deny_reasons slices request context in
      let tier = request.permission_profile.risk_tier in
      let test : (IsForbidden request.side_effect ⊎ (tier ≡ RiskTier.r3))
          ↔ (contains GuardDenyReason.r3_deny_by_default reasons ≡ true) =
        rw among (r3_iff request.side_effect tier) in
      (
        λ (given, e, c). elim (Bool-cases (is_empty reasons)) [
          | inl h ↦ inr (tier-denied tier request context given (ground (arith, e, h)) c)
          | inr h ↦ test.1 (ground (arith, e, h, c))
        ],
        λ x. (
          reasons,
          rw (not_empty_of_contains GuardDenyReason.r3_deny_by_default reasons (test.0 x)),
          test.0 x,
        ),
      )
