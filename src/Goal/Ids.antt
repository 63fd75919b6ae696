-- ===== src/Goal/Ids.antt =====
-- Identifiers, versions and roles (rust/ovca-types/src/goal_runtime.rs). The identifier newtypes
-- hold one string each and are only compared, printed and tested for blankness.
use ovca_core.Prelude.{ℕ, String, ◌≡◌, arith}
use ovca_core.Collections.Order.{Ord, derived_ord}

-- u32
abbrev pub ContractVersion : Type 0
ContractVersion = ℕ

-- `ContractVersion::current()`
abbrev pub goal_runtime_contract_version : ContractVersion
goal_runtime_contract_version = 1

abbrev pub ProjectId : Type 0
ProjectId = String

abbrev pub GoalId : Type 0
GoalId = String

abbrev pub TaskId : Type 0
TaskId = String

abbrev pub RunId : Type 0
RunId = String

abbrev pub EvidenceId : Type 0
EvidenceId = String

abbrev pub EventId : Type 0
EventId = String

abbrev pub WorkerId : Type 0
WorkerId = String

abbrev pub LeaseId : Type 0
LeaseId = String

abbrev pub IdempotencyKey : Type 0
IdempotencyKey = String

abbrev pub GuardRequestId : Type 0
GuardRequestId = String

abbrev pub ApprovalRequestId : Type 0
ApprovalRequestId = String

abbrev pub ReviewDecisionId : Type 0
ReviewDecisionId = String

abbrev pub AuditDecisionId : Type 0
AuditDecisionId = String

-- `DateTime<Utc>`. The code compares instants and copies them; chrono has a least instant, and a
-- number stands for the distance from it.
abbrev pub DateTime : Type 0
DateTime = ℕ

pub data Role : Type 0 where
  coordinator engineer reviewer auditor : Role

abbrev pub role_position : Role → ℕ
role_position Role.coordinator = 0
role_position Role.engineer = 1
role_position Role.reviewer = 2
role_position Role.auditor = 3

pub role_position-injective : (a b : Role) → role_position a ≡ role_position b → a ≡ b
role_position-injective a b h = ground arith

instance abbrev pub role_ord : Ord Role
role_ord = derived_ord role_position role_position-injective

pub data RiskTier : Type 0 where
  r0 r1 r2 r3 : RiskTier

abbrev pub risk_tier_position : RiskTier → ℕ
risk_tier_position RiskTier.r0 = 0
risk_tier_position RiskTier.r1 = 1
risk_tier_position RiskTier.r2 = 2
risk_tier_position RiskTier.r3 = 3

pub risk_tier_position-injective :
    (a b : RiskTier) → risk_tier_position a ≡ risk_tier_position b → a ≡ b
risk_tier_position-injective a b h = ground arith

instance abbrev pub risk_tier_ord : Ord RiskTier
risk_tier_ord = derived_ord risk_tier_position risk_tier_position-injective
