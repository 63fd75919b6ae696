-- ===== src/Guard/Tiers.antt =====
-- The tier that an operation has to stand at, told by what its effect does.
use ovca_core.Prelude.{true, false, ◌≡◌, ◌≢◌, ◌↔◌, ◌⊎◌, ◌||◌, arith}
use ovca_core.Collections.Order.{◌=?◌, ◌<?◌}
use ovca_core.Goal.Ids.{RiskTier, risk_tier_ord}
use ovca_core.Goal.Policy.{SideEffectClass}
use ovca_core.Guard.{minimum_risk_tier, conditional_audit}

-- Effects that no request may have, whatever tier it declares.
abbrev pub IsForbidden : SideEffectClass → Type 0
IsForbidden e =
    (e ≡ SideEffectClass.destructive)
    ⊎ (e ≡ SideEffectClass.secret_bearing)
    ⊎ (e ≡ SideEffectClass.irreversible)
    ⊎ (e ≡ SideEffectClass.privileged)

-- Effects that leave the local machine.
abbrev pub IsOutward : SideEffectClass → Type 0
IsOutward e =
    (e ≡ SideEffectClass.network_action)
    ⊎ (e ≡ SideEffectClass.publication)
    ⊎ (e ≡ SideEffectClass.external_side_effect)

-- Effects that others than the local user see.
abbrev pub IsShared : SideEffectClass → Type 0
IsShared e = (e ≡ SideEffectClass.repository_write) ⊎ IsOutward e

-- Nothing forbidden is done and nothing at R3, R2 is declared for what others see, and R0 for
-- reading only.
pub record IsCovered (effect : SideEffectClass) (tier : RiskTier) : Type 0 where
  pub not_forbidden : ¬ IsForbidden effect
  pub below_r3 : tier ≢ RiskTier.r3
  pub shared_at_r2 : IsShared effect → tier ≡ RiskTier.r2
  pub only_reading : tier ≡ RiskTier.r0 → effect ≡ SideEffectClass.read_only

pub IsOutward-iff : (e : SideEffectClass) → (conditional_audit e ≡ true) ↔ IsOutward e
unfolding conditional_audit
IsOutward-iff e = ground arith

pub r3_iff :
    (e : SideEffectClass) (t : RiskTier)
    → (IsForbidden e ⊎ (t ≡ RiskTier.r3))
      ↔ ((minimum_risk_tier e =? RiskTier.r3 || t =? RiskTier.r3) ≡ true)
unfolding minimum_risk_tier
r3_iff e t = ground arith

-- The two tests of the policy on the tier, neither of which holds.
pub IsCovered-iff :
    (e : SideEffectClass) (t : RiskTier)
    → (((t <? minimum_risk_tier e) ≡ false)
        × ((minimum_risk_tier e =? RiskTier.r3 || t =? RiskTier.r3) ≡ false))
      ↔ IsCovered e t
unfolding minimum_risk_tier
IsCovered-iff e t = (
  λ (b, r). record {
    not_forbidden = λ f. ground arith;
    below_r3 = λ x. ground arith;
    shared_at_r2 = λ x. ground arith;
    only_reading = λ x. ground arith;
  },
  λ c. ground (arith, c.not_forbidden, c.below_r3, c.shared_at_r2, c.only_reading),
)
