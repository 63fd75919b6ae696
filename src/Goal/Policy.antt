-- ===== src/Goal/Policy.antt =====
-- Permissions, guard requests and approvals (rust/ovca-types/src/goal_runtime.rs).
use ovca_core.Prelude.{ℕ, String, Bool, ◌≡◌, List, arith}
use ovca_core.Collections.Order.{Ord, derived_ord}
use ovca_core.Collections.BTreeSet.{BTreeSet}
use ovca_core.Goal.Ids.{ContractVersion, RiskTier, GuardRequestId, ApprovalRequestId, DateTime}

pub record PermissionProfile : Type 0 where
  pub contract_version : ContractVersion
  pub risk_tier : RiskTier
  pub resource_keys : List String
  pub write_keys : List String
  pub approval_required : Bool
  pub review_required : Bool
  pub audit_required : Bool

pub data GuardSurface : Type 0 where
  input output tool : GuardSurface

pub data SideEffectClass : Type 0 where
  read_only reversible_local_write repository_write network_action publication : SideEffectClass
  external_side_effect destructive secret_bearing irreversible privileged : SideEffectClass

pub data GuardRequirement : Type 0 where
  owner_approval reviewer auditor : GuardRequirement

abbrev pub guard_requirement_position : GuardRequirement → ℕ
guard_requirement_position GuardRequirement.owner_approval = 0
guard_requirement_position GuardRequirement.reviewer = 1
guard_requirement_position GuardRequirement.auditor = 2

pub guard_requirement_position-injective :
    (a b : GuardRequirement) → guard_requirement_position a ≡ guard_requirement_position b → a ≡ b
guard_requirement_position-injective a b h = ground arith

instance abbrev pub guard_requirement_ord : Ord GuardRequirement
guard_requirement_ord = derived_ord guard_requirement_position guard_requirement_position-injective

pub data GuardDenyReason : Type 0 where
  unsupported_contract_version blank_guard_request_id blank_approval_request_id : GuardDenyReason
  blank_operation_label invalid_key duplicate_key blank_key risk_tier_mismatch : GuardDenyReason
  missing_resource_permission missing_write_permission : GuardDenyReason
  missing_required_declaration r3_deny_by_default : GuardDenyReason

abbrev pub deny_reason_position : GuardDenyReason → ℕ
deny_reason_position GuardDenyReason.unsupported_contract_version = 0
deny_reason_position GuardDenyReason.blank_guard_request_id = 1
deny_reason_position GuardDenyReason.blank_approval_request_id = 2
deny_reason_position GuardDenyReason.blank_operation_label = 3
deny_reason_position GuardDenyReason.invalid_key = 4
deny_reason_position GuardDenyReason.duplicate_key = 5
deny_reason_position GuardDenyReason.blank_key = 6
deny_reason_position GuardDenyReason.risk_tier_mismatch = 7
deny_reason_position GuardDenyReason.missing_resource_permission = 8
deny_reason_position GuardDenyReason.missing_write_permission = 9
deny_reason_position GuardDenyReason.missing_required_declaration = 10
deny_reason_position GuardDenyReason.r3_deny_by_default = 11

pub deny_reason_position-injective :
    (a b : GuardDenyReason) → deny_reason_position a ≡ deny_reason_position b → a ≡ b
deny_reason_position-injective a b h = ground arith

instance abbrev pub deny_reason_ord : Ord GuardDenyReason
deny_reason_ord = derived_ord deny_reason_position deny_reason_position-injective

pub data ApprovalAuthority : Type 0 where
  explicit_owner : ApprovalAuthority

pub data ApprovalDisposition : Type 0 where
  approved denied : ApprovalDisposition

pub data ApprovalState : Type 0 where
  pending approved denied consumed : ApprovalState

pub record GuardRequest : Type 0 where
  pub contract_version : ContractVersion
  pub id : GuardRequestId
  pub surface : GuardSurface
  pub side_effect : SideEffectClass
  pub operation_label : String
  pub resource_keys : List String
  pub write_keys : List String
  pub permission_profile : PermissionProfile

pub record ApprovalRequest : Type 0 where
  pub contract_version : ContractVersion
  pub id : ApprovalRequestId
  pub guard_request : GuardRequest
  pub requested_at : DateTime

pub record ApprovalDecisionRecord : Type 0 where
  pub contract_version : ContractVersion
  pub approval_request_id : ApprovalRequestId
  pub guard_request_id : GuardRequestId
  pub authority : ApprovalAuthority
  pub disposition : ApprovalDisposition
  pub decided_at : DateTime

pub data GuardOutcome : Type 0 where
  allow : BTreeSet GuardRequirement → GuardOutcome
  pause_for_approval : ApprovalRequest → BTreeSet GuardRequirement → GuardOutcome
  deny : BTreeSet GuardDenyReason → GuardOutcome

pub data RunGuardDecision : Type 0 where
  allow : BTreeSet GuardRequirement → RunGuardDecision
  pause : BTreeSet GuardRequirement → RunGuardDecision
  deny : BTreeSet GuardDenyReason → RunGuardDecision

pub record RunGuardProjection : Type 0 where
  pub contract_version : ContractVersion
  pub outcome : RunGuardDecision

pub record ReviewAuditRequirements : Type 0 where
  pub contract_version : ContractVersion
  pub guard_requirements : BTreeSet GuardRequirement
