-- ===== src/Replay/Transition.antt =====
-- What a transition that the replay accepts has gone through.
use ovca_core.Prelude.{
  ℕ, not, ◌≡◌, refl, Result, ok, err, panic, ◌>>◌, reject_if, map_err, arith, Option, if◌then◌else◌,
}
use ovca_core.Collections.Order.{◌=?◌, =?_iff, string_ord}
use ovca_core.Goal.Ids.{DateTime}
use ovca_core.Goal.Task.{GoalContract}
use ovca_core.Goal.Run.{RunStatus, run_status_ord, RunEventPayload}
use ovca_core.Replay.{ReplayError, Replayed}
use ovca_core.Replay.Steps.{
  ReplayState, transition_status, moved_record, validate_transition, check_completed,
}
use ovca_core.Replay.Records.{Records, unchanged}

then-ok :
    {B : Type 0} (m : Replayed (Unit {0})) (n : Replayed B) (b : B)
    → (m >> n) ≡ ok b
    → (m ≡ ok tt) × (n ≡ ok b)
then-ok (ok tt) n b h = (refl, h)
then-ok (err e) n b h = absurd (cc h)
then-ok panic n b h = absurd (cc h)

map_err-ok :
    {E : Type 0} (f : E → ReplayError) (m : Result E (Unit {0})) → map_err f m ≡ ok tt → m ≡ ok tt
map_err-ok f (ok tt) h = refl
map_err-ok f (err e) h = absurd (cc h)
map_err-ok f panic h = absurd (cc h)

same_of_not_rejected :
    (from current : RunStatus) (e : ReplayError)
    → reject_if (not (from =? current)) e ≡ ok tt
    → from ≡ current
same_of_not_rejected from current e h = (=?_iff from current).0 (ground arith)

module _ (sequence : ℕ) (occurred_at : DateTime) (goal : Option GoalContract) (from to : RunStatus)
    (s s' : ReplayState) where
  pub record IsMoved : Type 0 where
    pub from_current : from ≡ s.replayed.run_record.status
    pub validated : validate_transition from to goal s.replayed ≡ ok tt
    pub checked :
        (if to =? RunStatus.completed then check_completed sequence goal s else ok tt) ≡ ok tt
    pub moved :
        record s {
          replayed = record (s.replayed) {
            run_record = moved_record to occurred_at s.replayed.run_record;
          };
        }
        ≡ s'

  pub transition_status-IsMoved :
      transition_status sequence occurred_at goal from to s ≡ ok s' → IsMoved
  unfolding transition_status
  transition_status-IsMoved h =
      let (a, h1) = then-ok _ _ s' h in
      let (b, h2) = then-ok _ _ s' h1 in
      let (c, h3) = then-ok _ _ s' h2 in
      record {
        from_current = same_of_not_rejected from s.replayed.run_record.status _ a;
        validated = map_err-ok _ _ b;
        checked = c;
        moved = cc h3;
      }

  pub transition_status-Records : IsMoved → Records (RunEventPayload.status_transition from to) s s'
  unfolding moved_record
  transition_status-Records m = rw (← m.moved) (
      unchanged (RunEventPayload.status_transition from to) s _ (refl, refl, refl, refl, refl, refl)
        refl refl refl refl refl refl refl refl)
