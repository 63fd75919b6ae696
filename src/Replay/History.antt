-- ===== src/Replay/History.antt =====
-- What the events of a stream record, read off their payloads alone.
use mathlib.Core.List.{append-nil, append_assoc}
use ovca_core.Prelude.{
  ◌≡◌, refl, sym, ap, ◌∙◌, Option, none, some, List, [], ◌∷◌, ◌++◌, ◌||◌, arith,
}
use ovca_core.Collections.Order.{Ord, string_ord}
use ovca_core.Collections.BTreeSet.{BTreeSet, contains}
use ovca_core.Goal.Ids.{EvidenceId}
use ovca_core.Goal.Policy.{GuardRequirement, ReviewAuditRequirements}
use ovca_core.Goal.Evidence.{AuditDecision, CompletionEvidence, EvidenceRef, ReviewDecision}
use ovca_core.Goal.Run.{RunEvent, RunEventPayload, RunStatus}
use ovca_core.Replay.Steps.{first}

abbrev pub reviews_of : RunEventPayload → List ReviewDecision
reviews_of (RunEventPayload.review_decision_recorded d) = d ∷ []
reviews_of _ = []

abbrev pub audits_of : RunEventPayload → List AuditDecision
audits_of (RunEventPayload.audit_decision_recorded d) = d ∷ []
audits_of _ = []

abbrev pub evidence_of : RunEventPayload → List EvidenceRef
evidence_of (RunEventPayload.evidence_reference_recorded p) = p ∷ []
evidence_of _ = []

abbrev pub claims_of : RunEventPayload → List CompletionEvidence
claims_of (RunEventPayload.completion_evidence_recorded c) = c ∷ []
claims_of _ = []

abbrev pub requirements_in : RunEventPayload → List ReviewAuditRequirements
requirements_in (RunEventPayload.review_audit_requirements_recorded r) = r ∷ []
requirements_in _ = []

-- The evidence that an event attaches, by its identifier or with its record.
abbrev pub attached_by : RunEventPayload → List EvidenceId
attached_by (RunEventPayload.evidence_attached id) = id ∷ []
attached_by (RunEventPayload.evidence_reference_recorded p) = p.id ∷ []
attached_by _ = []

abbrev pub status_of : RunEventPayload → RunStatus → RunStatus
status_of (RunEventPayload.status_transition from to) status = to
status_of _ status = status

-- The gates that the first requirements ask for.
abbrev pub gates_of : List ReviewAuditRequirements → BTreeSet GuardRequirement
gates_of [] = []
gates_of (r ∷ rs) = r.guard_requirements

abbrev pub or_first : {A : Type 0} → Option A → List A → Option A
or_first o [] = o
or_first none (x ∷ xs) = some x
or_first (some a) (x ∷ xs) = some a

-- `xs ++ ys`, which is `xs` itself for an empty `ys`.
abbrev pub followed_by : {A : Type 0} → List A → List A → List A
followed_by xs [] = xs
followed_by xs (y ∷ ys) = xs ++ y ∷ ys

pub followed_by-append : {A : Type 0} → (xs ys : List A) → followed_by xs ys ≡ xs ++ ys
followed_by-append xs [] = sym (append-nil xs)
followed_by-append xs (y ∷ ys) = refl

pub first-append : {A : Type 0} → (xs ys : List A) → first (xs ++ ys) ≡ or_first (first xs) ys
first-append [] [] = refl
first-append [] (y ∷ ys) = refl
first-append (x ∷ xs) [] = refl
first-append (x ∷ xs) (y ∷ ys) = refl

pub contains-append :
    {A : Type 0} ⦃o : Ord A⦄ (a : A) (xs ys : List A)
    → contains a (xs ++ ys) ≡ (contains a xs || contains a ys)
unfolding contains
contains-append a [] ys = refl
contains-append a (x ∷ xs) ys = ground (arith, contains-append a xs ys)

module _ {Value : Type 0} where
  -- All that the events of a stream record of one kind, in their order.
  abbrev pub all_of : {A : Type 0} → (RunEventPayload → List A) → List (RunEvent Value) → List A
  all_of f [] = []
  all_of f (e ∷ events) = f e.payload ++ all_of f events

  -- The status that the transitions of a stream lead to.
  abbrev pub status_after : RunStatus → List (RunEvent Value) → RunStatus
  status_after status [] = status
  status_after status (e ∷ events) = status_after (status_of e.payload status) events

  pub all_of-append :
      {A : Type 0} (f : RunEventPayload → List A) (past : List (RunEvent Value))
      (e : RunEvent Value)
      → all_of f (past ++ e ∷ []) ≡ all_of f past ++ f e.payload
  all_of-append f [] e = append-nil (f e.payload)
  all_of-append f (x ∷ past) e =
      ap (λ r. f x.payload ++ r) (all_of-append f past e)
      ∙ sym (append_assoc (f x.payload) (all_of f past) (f e.payload))

  pub status_after-append :
      (status : RunStatus) (past : List (RunEvent Value)) (e : RunEvent Value)
      → status_after status (past ++ e ∷ []) ≡ status_of e.payload (status_after status past)
  status_after-append status [] e = refl
  status_after-append status (x ∷ past) e = status_after-append (status_of x.payload status) past e
