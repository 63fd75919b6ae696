-- ===== src/Guard.antt =====
-- The guard policy, rust/ovca-runtime-core/src/guardrails.rs.
pub mod Tiers
pub mod Keys
pub mod Reasons
pub mod Decisions
mod Examples
use ovca_core.Prelude.{
  ℕ, String, Bool, true, false, not, ◌&&◌, ◌||◌, List, [], ◌∷◌, length, any, all, is_empty,
  is_blank, ◌==◌, if◌then◌else◌,
}
use ovca_core.Collections.Order.{◌=?◌, ◌<?◌, string_ord}
use ovca_core.Collections.BTreeSet.{BTreeSet, insert, collect}
use ovca_core.Collections.Slice.{SliceSearch, has_descent}
use ovca_core.Goal.Ids.{
  ApprovalRequestId, DateTime, RiskTier, risk_tier_ord, goal_runtime_contract_version,
}
use ovca_core.Goal.Policy.{
  PermissionProfile, GuardRequest, GuardDenyReason, deny_reason_ord, GuardRequirement,
  guard_requirement_ord, GuardOutcome, SideEffectClass, ApprovalRequest,
}

pub record GuardEvaluationContext : Type 0 where
  pub approval_request_id : ApprovalRequestId
  pub requested_at : DateTime

pub minimum_risk_tier : SideEffectClass → RiskTier
minimum_risk_tier SideEffectClass.read_only = RiskTier.r0
minimum_risk_tier SideEffectClass.reversible_local_write = RiskTier.r1
minimum_risk_tier SideEffectClass.repository_write = RiskTier.r2
minimum_risk_tier SideEffectClass.network_action = RiskTier.r2
minimum_risk_tier SideEffectClass.publication = RiskTier.r2
minimum_risk_tier SideEffectClass.external_side_effect = RiskTier.r2
minimum_risk_tier SideEffectClass.destructive = RiskTier.r3
minimum_risk_tier SideEffectClass.secret_bearing = RiskTier.r3
minimum_risk_tier SideEffectClass.irreversible = RiskTier.r3
minimum_risk_tier SideEffectClass.privileged = RiskTier.r3

-- `if test { reasons.insert(reason); }`
insert_if : Bool → GuardDenyReason → BTreeSet GuardDenyReason → BTreeSet GuardDenyReason
insert_if test reason reasons = if test then insert reason reasons else reasons

validate_keys : List String → BTreeSet GuardDenyReason → BTreeSet GuardDenyReason
validate_keys keys reasons =
    let r1 = insert_if (any is_blank keys) GuardDenyReason.blank_key reasons in
    let r2 =
      insert_if (not (length (collect keys) == length keys)) GuardDenyReason.duplicate_key r1 in
    insert_if (has_descent keys) GuardDenyReason.invalid_key r2

deny_missing_declaration : GuardOutcome
deny_missing_declaration =
    GuardOutcome.deny (collect (GuardDenyReason.missing_required_declaration ∷ []))

-- The effects at R2 that need an audit.
pub conditional_audit : SideEffectClass → Bool
conditional_audit SideEffectClass.network_action = true
conditional_audit SideEffectClass.publication = true
conditional_audit SideEffectClass.external_side_effect = true
conditional_audit _ = false

is_read_only : SideEffectClass → Bool
is_read_only SideEffectClass.read_only = true
is_read_only _ = false

evaluate_r2 : GuardRequest → GuardEvaluationContext → GuardOutcome
evaluate_r2 request context =
    let profile = request.permission_profile in
    if not profile.approval_required
      || not profile.review_required
      || (conditional_audit request.side_effect && not profile.audit_required)
    then deny_missing_declaration
    else let gates = collect (GuardRequirement.owner_approval ∷ GuardRequirement.reviewer ∷ []) in
      GuardOutcome.pause_for_approval
        (record {
          contract_version = goal_runtime_contract_version;
          id = context.approval_request_id;
          guard_request = request;
          requested_at = context.requested_at;
        })
        (if profile.audit_required then insert GuardRequirement.auditor gates else gates)

-- The `match` on the tier of a request with no reason against it.
evaluate_tier : RiskTier → GuardRequest → GuardEvaluationContext → GuardOutcome
evaluate_tier RiskTier.r0 request context = GuardOutcome.allow []
evaluate_tier RiskTier.r1 request context =
    if not request.permission_profile.review_required
    then deny_missing_declaration
    else GuardOutcome.allow (collect (GuardRequirement.reviewer ∷ []))
evaluate_tier RiskTier.r2 request context = evaluate_r2 request context
evaluate_tier RiskTier.r3 request context =
    GuardOutcome.deny (collect (GuardDenyReason.r3_deny_by_default ∷ []))

module _ (slices : SliceSearch) where
  is_subset : List String → List String → Bool
  is_subset requested permitted = all (λ key. slices.finds permitted key) requested

  validate_request : GuardRequest → BTreeSet GuardDenyReason
  validate_request request =
      let profile = request.permission_profile in
      let r1 = insert_if (is_blank request.id) GuardDenyReason.blank_guard_request_id [] in
      let r2 =
        insert_if
          (not (request.contract_version == goal_runtime_contract_version)
            || not (profile.contract_version == goal_runtime_contract_version))
          GuardDenyReason.unsupported_contract_version r1 in
      let r3 =
        insert_if (is_blank request.operation_label) GuardDenyReason.blank_operation_label r2 in
      let r4 = validate_keys request.resource_keys r3 in
      let r5 = validate_keys request.write_keys r4 in
      let r6 = validate_keys profile.resource_keys r5 in
      let r7 = validate_keys profile.write_keys r6 in
      let r8 =
        insert_if (not (is_subset request.resource_keys profile.resource_keys))
          GuardDenyReason.missing_resource_permission r7 in
      let r9 =
        insert_if (not (is_subset request.write_keys profile.write_keys))
          GuardDenyReason.missing_write_permission r8 in
      insert_if (is_read_only request.side_effect && not (is_empty request.write_keys))
        GuardDenyReason.missing_write_permission r9

  -- All that speaks against the request before its tier is looked at.
  pub deny_reasons : GuardRequest → GuardEvaluationContext → BTreeSet GuardDenyReason
  deny_reasons request context =
      let minimum_tier = minimum_risk_tier request.side_effect in
      let risk_tier = request.permission_profile.risk_tier in
      let r1 = validate_request request in
      let r2 =
        insert_if (is_blank context.approval_request_id) GuardDenyReason.blank_approval_request_id
          r1 in
      let r3 = insert_if (risk_tier <? minimum_tier) GuardDenyReason.risk_tier_mismatch r2 in
      insert_if (minimum_tier =? RiskTier.r3 || risk_tier =? RiskTier.r3)
        GuardDenyReason.r3_deny_by_default r3

  pub evaluate_guard_request : GuardRequest → GuardEvaluationContext → GuardOutcome
  evaluate_guard_request request context =
      let reasons = deny_reasons request context in
      if not (is_empty reasons)
      then GuardOutcome.deny reasons
      else evaluate_tier request.permission_profile.risk_tier request context
