-- ===== src/Workflow/Cancelling.antt =====
-- Cancelling a pay-out: `requestCancellation`, its review by the other side, and admin's ruling on
-- a disputed one (server/src/services/workflow.service.ts).
use flitepay.Prelude.{
  ℕ, ◌+◌, Bool, true, false, not, ◌&&◌, Option, none, some, get_or, [], ◌∷◌, Text, is_some,
  if◌then◌else◌, ◌==◌,
}
use flitepay.Prelude.Int.{pos, ◌+ℤ◌}
use flitepay.Prelude.Dict.{lookup, insert}
use flitepay.Errors.{
  ok, conflict, forbidden, not_found_with, invalid_state_transition, task_not_found,
}
use flitepay.Machine.Task.{
  TaskState, assigned, cancel_review, cancel_disputed, cancelled, assert_transition,
}
use flitepay.Store.{Action, pure, lift, or_raise, raise_if, ◌>>=◌, ◌>>◌}
use flitepay.Store.Tasks.{
  Role, ActorContext, Task, Cancellation, CancelSide, ReviewDecision, approve, reject,
  AdminResolution,
}
use flitepay.Store.Finding.{load_task}
use flitepay.Workflow.{
  event, claim_transition, already_decided, in_state, load_owned_task, release_payout_hold,
  when_held, charge,
}
use flitepay.Workflow.Recovery.{Ruling, approve_it, reassign_it, reassign_task_from}

-- `refundPartyForCancelledTask`
unfoldable pub refund_party_for_cancelled_task : Task → Action (Unit {0})
refund_party_for_cancelled_task task s = elim (lookup task.party_id s.parties) [
  | none ↦ (ok tt, s)
  | some p ↦ (
    ok tt,
    record s {
      parties =
          insert task.party_id
            (record p { dmc_balance = p.dmc_balance +ℤ pos (task.amount + charge task) }) s.parties;
    },
  )
]

abbrev pub with_cancel : (Cancellation → Cancellation) → Task → Task
with_cancel f t = record t { cancel = f t.cancel }

abbrev side_of : Role → CancelSide
side_of Role.captain = CancelSide.captain
side_of _ = CancelSide.party

abbrev requested : TaskState → ActorContext → Text → Cancellation → Cancellation
requested from actor reason c = record c {
  pre_cancel_status = some from;
  initiated_by = some (side_of actor.role);
  initiated_by_user_id = some actor.user_id;
  reason = some reason;
}

unfoldable pub after_cancellation : Task → Action Task
after_cancellation done = do refund_party_for_cancelled_task done; pure done

-- `requestCancellation` of a task that nobody held when it was read.
unfoldable pub cancel_outright : ℕ → TaskState → Text → ActorContext → ℕ → Action Task
unfolding claim_transition
cancel_outright id from reason actor now = do
  lift (assert_transition from cancelled)
  claimed ←
      claim_transition id (λ t. in_state from t && not (is_some t.captain_id)) cancelled (λ t. t)
        (event from cancelled actor (some reason) now ∷ [])
  done ← or_raise claimed already_decided
  after_cancellation done

-- `requestCancellation` of a task that a captain held when it was read.
unfoldable pub ask_to_cancel : ℕ → TaskState → Text → ActorContext → ℕ → Action Task
unfolding claim_transition
ask_to_cancel id from reason actor now = do
  lift (assert_transition from cancel_review)
  claimed ←
      claim_transition id (in_state from) cancel_review (with_cancel (requested from actor reason))
        (event from cancel_review actor (some reason) now ∷ [])
  or_raise claimed already_decided

-- `requestCancellation` once the task has been read.
unfoldable pub request_cancellation_from : ℕ → Task → Text → ActorContext → ℕ → Action Task
unfolding cancel_outright ask_to_cancel
request_cancellation_from id task reason actor now =
    if is_some task.captain_id
    then ask_to_cancel id task.status reason actor now
    else cancel_outright id task.status reason actor now

-- `requestCancellation`
unfoldable pub request_cancellation : ℕ → Text → ActorContext → ℕ → Action Task
unfolding request_cancellation_from
request_cancellation id reason actor now = do
  task ← load_task id
  request_cancellation_from id task reason actor now

abbrev pub review_outcome : ReviewDecision → TaskState
review_outcome approve = cancelled
review_outcome reject = cancel_disputed

abbrev pub reviewed : ReviewDecision → Option Text → Cancellation → Cancellation
reviewed decision reason c = record c { review_decision = some decision; review_reason = reason }

-- What an approved cancellation gives back: the hold and the party's charge.
unfoldable pub undo_task : ReviewDecision → Task → Action (Unit {0})
undo_task reject task = pure tt
undo_task approve task = do
  when_held task.captain_id (λ c. release_payout_hold c task.amount)
  refund_party_for_cancelled_task task

unfoldable pub after_decision : ReviewDecision → Task → Action Task
after_decision decision done = do undo_task decision done; pure done

-- `applyCancelReviewDecision` after its check of the state.
unfoldable pub decide_cancellation :
    ℕ → ReviewDecision → Option Text → ActorContext → ℕ → Action Task
unfolding claim_transition
decide_cancellation id decision reason actor now = do
  lift (assert_transition cancel_review (review_outcome decision))
  claimed ←
      claim_transition id (in_state cancel_review) (review_outcome decision)
        (with_cancel (reviewed decision reason))
        (event cancel_review (review_outcome decision) actor reason now ∷ [])
  done ← or_raise claimed already_decided
  after_decision decision done

abbrev initiated : CancelSide → Task → Bool
initiated CancelSide.party t = elim t.cancel.initiated_by [
  | some CancelSide.party ↦ true
  | _ ↦ false
]
initiated CancelSide.captain t = elim t.cancel.initiated_by [
  | some CancelSide.captain ↦ true
  | _ ↦ false
]

-- `applyCancelReviewDecision`
unfoldable pub apply_cancel_review_decision :
    ℕ → Task → ReviewDecision → Option Text → ActorContext → ℕ → Action Task
unfolding decide_cancellation
apply_cancel_review_decision id task decision reason actor now = do
  raise_if (not (in_state cancel_review task)) (conflict invalid_state_transition)
  decide_cancellation id decision reason actor now

-- `reviewCancellationAsCaptain`
unfoldable pub review_cancellation_as_captain :
    ℕ → ℕ → ReviewDecision → Option Text → ActorContext → ℕ → Action Task
unfolding load_owned_task apply_cancel_review_decision
review_cancellation_as_captain id captain_id decision reason actor now = do
  task ← load_owned_task id captain_id
  raise_if (not (initiated CancelSide.party task)) forbidden
  apply_cancel_review_decision id task decision reason actor now

-- `reviewCancellationAsParty`
unfoldable pub review_cancellation_as_party :
    ℕ → ℕ → ReviewDecision → Option Text → ActorContext → ℕ → Action Task
unfolding apply_cancel_review_decision
review_cancellation_as_party id party_id decision reason actor now = do
  task ← load_task id
  raise_if (not (task.party_id == party_id)) (not_found_with task_not_found)
  raise_if (not (initiated CancelSide.captain task)) forbidden
  apply_cancel_review_decision id task decision reason actor now

abbrev pub cancel_resolved : AdminResolution → Task → Task
cancel_resolved r = with_cancel λ c. record c { admin_resolution = some r }

-- Where a task goes that admin gives back to its captain.
abbrev pub restored_status : Task → TaskState
restored_status t = get_or t.cancel.pre_cancel_status assigned

-- `resolveCancelDispute` once the task has been read.
unfoldable pub resolve_cancel_dispute_from : ℕ → Task → Ruling → ActorContext → ℕ → Action Task
unfolding claim_transition
resolve_cancel_dispute_from id task reassign_it actor now =
    reassign_task_from id task actor (cancel_resolved AdminResolution.reassigned) now
resolve_cancel_dispute_from id task approve_it actor now = do
  lift (assert_transition cancel_disputed (restored_status task))
  claimed ←
      claim_transition id (in_state cancel_disputed) (restored_status task)
        (cancel_resolved AdminResolution.approved)
        (event cancel_disputed (restored_status task) actor none now ∷ [])
  or_raise claimed already_decided

-- `resolveCancelDispute`
unfoldable pub resolve_cancel_dispute : ℕ → Ruling → ActorContext → ℕ → Action Task
unfolding resolve_cancel_dispute_from
resolve_cancel_dispute id ruling actor now = do
  task ← load_task id
  raise_if (not (in_state cancel_disputed task)) (conflict invalid_state_transition)
  resolve_cancel_dispute_from id task ruling actor now
