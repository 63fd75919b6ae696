-- ===== src/Guard/Examples.antt =====
-- Requests that the guard policy is asked about.
use ovca_core.Prelude.{◌⊎◌, true, false, ◌≡◌, ◌↔◌, [], ◌∷◌, is_empty}
use ovca_core.Collections.Order.{string_ord}
use ovca_core.Collections.BTreeSet.{BTreeSet, contains, collect}
use ovca_core.Collections.BTreeSet.Membership.{contains-collect_iff}
use ovca_core.Collections.Slice.{SliceSearch}
use ovca_core.Goal.Ids.{RiskTier}
use ovca_core.Goal.Policy.{
  ApprovalRequest, GuardRequest, GuardOutcome, GuardRequirement, GuardDenyReason, GuardSurface,
  PermissionProfile, SideEffectClass, deny_reason_ord,
}
use ovca_core.Guard.{GuardEvaluationContext, evaluate_guard_request, deny_reasons}
use ovca_core.Guard.Tiers.{IsForbidden}
use ovca_core.Guard.Reasons.{IsAdmissible, deny_reasons-is_empty_iff}
use ovca_core.Guard.Decisions.{
  AllowedAt, PausedAt, evaluate-allow_iff, evaluate-pause_iff, evaluate-r3_denied_iff,
}

-- A search that finds the members of any slice.
abbrev searching : SliceSearch
searching = record {
  finds = λ xs x. contains x (collect xs);
  finds_iff = λ xs x ascending. contains-collect_iff x xs;
}

abbrev profile : PermissionProfile
profile = record {
  contract_version = 1;
  risk_tier = RiskTier.r1;
  resource_keys = "src" ∷ [];
  write_keys = "src" ∷ [];
  approval_required = true;
  review_required = true;
  audit_required = false;
}

abbrev writing : GuardRequest
writing = record {
  contract_version = 1;
  id = "request-1";
  surface = GuardSurface.tool;
  side_effect = SideEffectClass.reversible_local_write;
  operation_label = "write";
  resource_keys = "src" ∷ [];
  write_keys = "src" ∷ [];
  permission_profile = profile;
}

abbrev pushing : GuardRequest
pushing = record writing {
  side_effect = SideEffectClass.repository_write;
  permission_profile = record profile { risk_tier = RiskTier.r2 };
}

abbrev wiping : GuardRequest
wiping = record writing { side_effect = SideEffectClass.destructive }

abbrev context : GuardEvaluationContext
context = record { approval_request_id = "approval-1"; requested_at = 7 }

abbrev approval : ApprovalRequest
approval = record {
  contract_version = 1;
  id = "approval-1";
  guard_request = pushing;
  requested_at = 7;
}

deny_reasons-is_empty_iff_example :
    (is_empty (deny_reasons searching writing context) ≡ true)
    ↔ IsAdmissible searching writing context
deny_reasons-is_empty_iff_example = deny_reasons-is_empty_iff searching writing context

evaluate-allow_iff_example :
    (evaluate_guard_request searching writing context
      ≡ GuardOutcome.allow (GuardRequirement.reviewer ∷ []))
    ↔ (IsAdmissible searching writing context × AllowedAt writing (GuardRequirement.reviewer ∷ []))
evaluate-allow_iff_example =
    evaluate-allow_iff searching writing context (GuardRequirement.reviewer ∷ [])

evaluate-pause_iff_example :
    (evaluate_guard_request searching pushing context
      ≡ GuardOutcome.pause_for_approval approval
          (GuardRequirement.owner_approval ∷ GuardRequirement.reviewer ∷ []))
    ↔ (IsAdmissible searching pushing context
        × PausedAt pushing context approval
            (GuardRequirement.owner_approval ∷ GuardRequirement.reviewer ∷ []))
evaluate-pause_iff_example =
    evaluate-pause_iff searching pushing context approval
      (GuardRequirement.owner_approval ∷ GuardRequirement.reviewer ∷ [])

evaluate-r3_denied_iff_example :
    ((reasons : BTreeSet GuardDenyReason) × (evaluate_guard_request searching wiping context
        ≡ GuardOutcome.deny reasons)
      × (contains GuardDenyReason.r3_deny_by_default reasons ≡ true))
    ↔ (IsForbidden SideEffectClass.destructive ⊎ (RiskTier.r1 ≡ RiskTier.r3))
evaluate-r3_denied_iff_example = evaluate-r3_denied_iff searching wiping context
