-- ===== src/Finalization/Once.antt =====
-- The final responses among the events of a run, against `replay` and `finalize`.
use ovca_core.Prelude.{
  Option, none, some, List, [], ◌∷◌, ◌++◌, Result, ok, ◌≡◌, ◌↔◌, ◌⊎◌, inl, inr, refl, sym, ap, ◌∙◌,
  arith, Bool-cases, Result-cases, ◌>>=◌,
}
use ovca_core.Collections.Order.{◌=?◌, =?_iff}
use ovca_core.Goal.Ids.{Role, role_ord}
use ovca_core.Goal.Run.{CoordinatorFinalResponse, RunEvent, RunEventPayload}
use ovca_core.Finalization.{
  FinalizationError, FinalizationKernel, new_kernel, accept, finalize, replay_event, replay_from,
  replay,
}

-- The final responses that an event carries, with the role that gave them.
abbrev final_of : Role → RunEventPayload → List (Role × CoordinatorFinalResponse)
final_of role (RunEventPayload.coordinator_final_response_recorded response) = (role, response) ∷ []
final_of role _ = []

abbrev pub finals :
    {Value : Type 0} → List (RunEvent Value) → List (Role × CoordinatorFinalResponse)
finals [] = []
finals (event ∷ events) = final_of event.producer_role event.payload ++ finals events

-- No answer was given, or one, by the Coordinator, which the kernel then has.
abbrev pub AtMostOnce : {Value : Type 0} → List (RunEvent Value) → FinalizationKernel → Type 0
AtMostOnce events k =
    ((finals events ≡ []) × (k.final_response ≡ none))
    ⊎ ((r : CoordinatorFinalResponse) × (finals events ≡ (Role.coordinator, r) ∷ [])
        × (k.final_response ≡ some r))

abbrev IsOther : Role → RunEventPayload → Type 0
IsOther role p = (final_of role p ≡ []) × ((k : FinalizationKernel) → replay_event k role p ≡ ok k)

abbrev IsFinal : Role → RunEventPayload → Type 0
IsFinal role p =
    (r : CoordinatorFinalResponse) × (final_of role p ≡ (role, r) ∷ [])
    × ((k : FinalizationKernel) → replay_event k role p ≡ accept k role r)

event-cases : (role : Role) (p : RunEventPayload) → IsOther role p ⊎ IsFinal role p
unfolding replay_event
event-cases role (RunEventPayload.coordinator_final_response_recorded r) = inr (r, refl, λ k. refl)
event-cases role (RunEventPayload.run_created x) = inl (refl, λ k. refl)
event-cases role (RunEventPayload.execution_plan_recorded x) = inl (refl, λ k. refl)
event-cases role (RunEventPayload.status_transition x y) = inl (refl, λ k. refl)
event-cases role (RunEventPayload.task_status_changed x y z) = inl (refl, λ k. refl)
event-cases role (RunEventPayload.evidence_attached x) = inl (refl, λ k. refl)
event-cases role (RunEventPayload.evidence_reference_recorded x) = inl (refl, λ k. refl)
event-cases role (RunEventPayload.guard_outcome_recorded x) = inl (refl, λ k. refl)
event-cases role (RunEventPayload.review_audit_requirements_recorded x) = inl (refl, λ k. refl)
event-cases role (RunEventPayload.review_decision_recorded x) = inl (refl, λ k. refl)
event-cases role (RunEventPayload.audit_decision_recorded x) = inl (refl, λ k. refl)
event-cases role (RunEventPayload.completion_evidence_recorded x) = inl (refl, λ k. refl)
event-cases role (RunEventPayload.specialist_output_recorded x) = inl (refl, λ k. refl)
event-cases role (RunEventPayload.note_recorded x) = inl (refl, λ k. refl)

abbrev given : CoordinatorFinalResponse → FinalizationKernel
given r = record { final_response = some r }

accepted :
    (role : Role) (r : CoordinatorFinalResponse) (k : FinalizationKernel)
    (f : FinalizationKernel → Result FinalizationError FinalizationKernel)
    → (accept new_kernel role r >>= f) ≡ ok k
    → (role ≡ Role.coordinator) × (f (given r) ≡ ok k)
unfolding accept
accepted role r k f h = elim (Bool-cases (role =? Role.coordinator)) [
  | inl same ↦ ((=?_iff role Role.coordinator).0 same, ground arith)
  | inr other ↦ absurd (ground arith)
]

of_response :
    (k : FinalizationKernel) (o : Option CoordinatorFinalResponse)
    → k.final_response ≡ o
    → record { final_response = o } ≡ k
of_response k o h = ap (λ x. record { final_response = x }) (sym h)

module _ {Value : Type 0} where
  -- Once there is an answer, the events carry no other.
  closed :
      (r : CoordinatorFinalResponse) (events : List (RunEvent Value)) (k : FinalizationKernel)
      → replay_from (given r) events ≡ ok k
      → (finals events ≡ []) × (k ≡ given r)
  unfolding replay_from accept
  closed r [] k h = (refl, cc h)
  closed r (e ∷ es) k h = elim (event-cases e.producer_role e.payload) [
    | inl (no_final, step) ↦
        let rest = closed r es k (rw (step (given r)) at h) in (rw (no_final) rest.0, rest.1)
    | inr (r', one, step) ↦ absurd (ground (arith, step (given r)))
  ]

  skipped :
      (k : FinalizationKernel) (events : List (RunEvent Value))
      → finals events ≡ []
      → replay_from k events ≡ ok k
  unfolding replay_from
  skipped k [] h = refl
  skipped k (e ∷ es) h = elim (event-cases e.producer_role e.payload) [
    | inl (no_final, step) ↦ rw (step k) (skipped k es (rw no_final at h))
    | inr (r', one, step) ↦ absurd (cc (rw one at h))
  ]

  replay-AtMostOnce :
      (events : List (RunEvent Value)) (k : FinalizationKernel)
      → replay_from new_kernel events ≡ ok k
      → AtMostOnce events k
  unfolding replay_from
  replay-AtMostOnce [] k h = let e : new_kernel ≡ k = cc h in rw (← e) (inl (refl, refl))
  replay-AtMostOnce (e ∷ es) k h = elim (event-cases e.producer_role e.payload) [
    | inl (no_final, step) ↦ rw no_final (replay-AtMostOnce es k (rw (step new_kernel) at h))
    | inr (r, one, step) ↦
        let (coordinator, next) =
          accepted e.producer_role r k (λ x. replay_from x es) (rw (step new_kernel) at h) in
        let (none_left, ek) = closed r es k next in
        inr (r, rw (one, none_left, coordinator) refl, rw ek refl)
  ]

  AtMostOnce-replay :
      (events : List (RunEvent Value)) (k : FinalizationKernel)
      → AtMostOnce events k
      → replay_from new_kernel events ≡ ok k
  unfolding replay_from accept
  AtMostOnce-replay [] k (inl (no_final, same)) = ap ok (of_response k none same)
  AtMostOnce-replay [] k (inr (r, one, same)) = absurd (cc one)
  AtMostOnce-replay (e ∷ es) k h = elim (event-cases e.producer_role e.payload) [
    | inl (no_final, step) ↦ rw (step new_kernel) (AtMostOnce-replay es k (rw no_final at h))
    | inr (r, one, step) ↦ elim (rw one at h) [
      | inl (no_final, same) ↦ absurd (cc no_final)
      | inr (r', only, same) ↦
          let role : e.producer_role ≡ Role.coordinator = cc only in
          let answer : r ≡ r' = cc only in
          let no_more : finals es ≡ [] = cc only in
          rw (step new_kernel, role)
            (skipped (given r) es no_more ∙ ap ok (ap given answer ∙ of_response k (some r') same))
    ]
  ]

  -- The events of a run can be replayed exactly when they carry no final response, which leaves the
  -- kernel without one, or one alone, which the Coordinator gave and the kernel then has.
  pub replay_iff_AtMostOnce :
      (events : List (RunEvent Value)) (k : FinalizationKernel)
      → (replay events ≡ ok k) ↔ AtMostOnce events k
  unfolding replay
  replay_iff_AtMostOnce events k = (replay-AtMostOnce events k, AtMostOnce-replay events k)

  replay_from-append :
      (k next : FinalizationKernel) (events : List (RunEvent Value)) (e : RunEvent Value)
      → replay_from k events ≡ ok next
      → replay_from k (events ++ e ∷ []) ≡ replay_from next (e ∷ [])
  unfolding replay_from
  replay_from-append k next [] e h = let same : k ≡ next = cc h in rw same refl
  replay_from-append k next (d ∷ events) e h =
      elim (Result-cases (replay_event k d.producer_role d.payload)) [
        | inl (mid, em) ↦ rw em (replay_from-append mid next events e (rw em at h))
        | inr (inl (x, ex)) ↦ absurd (cc (rw ex at h))
        | inr (inr ex) ↦ absurd (cc (rw ex at h))
      ]

  -- The kernel after a response that was accepted is the one that a replay makes of the events so
  -- far and one with the returned payload.
  pub replay-finalize :
      (events : List (RunEvent Value)) (k k' : FinalizationKernel) (r : CoordinatorFinalResponse)
      (event : RunEvent Value)
      → replay events ≡ ok k
      → finalize k event.producer_role r ≡ ok (event.payload, k')
      → replay (events ++ event ∷ []) ≡ ok k'
  unfolding replay replay_from finalize replay_event
  replay-finalize events k k' r event h f = elim (Result-cases (accept k event.producer_role r)) [
    | inl (next, en) ↦
        let payload : RunEventPayload.coordinator_final_response_recorded r ≡ event.payload =
          cc (rw en at f) in
        let same : next ≡ k' = cc (rw en at f) in
        replay_from-append new_kernel k events event h ∙ rw (← payload, en, same) refl
    | inr (inl (x, ex)) ↦ absurd (cc (rw ex at f))
    | inr (inr ex) ↦ absurd (cc (rw ex at f))
  ]
