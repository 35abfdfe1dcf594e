-- ===== src/Machine/TaskPaths.antt =====
-- What the task table implies of whole lives of a task.
use flitepay.Prelude.{◌≡◌, refl, ◌≢◌, ◌↔◌, ◌⊎◌, Bool, true, false, not, arith}
use flitepay.Errors.{ok}
use flitepay.Machine.Task.{
  TaskState, created, assigned, in_progress, proof_submitted, audit_pending, completed, rejected,
  reassigned, expired, cancel_review, cancel_disputed, cancelled, same, can_transition, is_terminal,
  is_claimable, holds_collateral, assert_transition, releases_collateral,
}

-- Legal moves one after the other, every state that is entered passing `via`.
pub data Moves (via : TaskState → Bool) : TaskState → TaskState → Type 0 where
  here : {s : TaskState} → Moves via s s
  next :
      {s t u : TaskState} → can_transition s t ≡ true → via t ≡ true → Moves via t u → Moves via s u

-- `assertTransition` lets exactly the moves of the table through.
assert_task_transition-ok_iff :
    (from to : TaskState) → (assert_transition from to ≡ ok tt) ↔ (can_transition from to ≡ true)
unfolding assert_transition can_transition
assert_task_transition-ok_iff created to = ground arith
assert_task_transition-ok_iff _ to = ground arith

-- The terminal states are exactly those without a move.
is_terminal_iff :
    (s : TaskState) → (is_terminal s ≡ true) ↔ ((t : TaskState) → can_transition s t ≡ false)
unfolding is_terminal can_transition
is_terminal_iff completed = (λ _ t. refl, λ _. refl)
is_terminal_iff cancelled = (λ _ t. refl, λ _. refl)
is_terminal_iff created = (λ h. cc, λ h. cc (h assigned))
is_terminal_iff assigned = (λ h. cc, λ h. cc (h in_progress))
is_terminal_iff in_progress = (λ h. cc, λ h. cc (h expired))
is_terminal_iff proof_submitted = (λ h. cc, λ h. cc (h audit_pending))
is_terminal_iff audit_pending = (λ h. cc, λ h. cc (h completed))
is_terminal_iff rejected = (λ h. cc, λ h. cc (h completed))
is_terminal_iff reassigned = (λ h. cc, λ h. cc (h assigned))
is_terminal_iff expired = (λ h. cc, λ h. cc (h rejected))
is_terminal_iff cancel_review = (λ h. cc, λ h. cc (h cancelled))
is_terminal_iff cancel_disputed = (λ h. cc, λ h. cc (h assigned))

-- The states that a started task passes through until it is back in the pool.
abbrev is_underway : TaskState → Bool
is_underway in_progress = true
is_underway proof_submitted = true
is_underway audit_pending = true
is_underway rejected = true
is_underway expired = true
is_underway completed = true
is_underway _ = false

is_underway-step :
    (s t : TaskState)
    → is_underway s ≡ true
    → can_transition s t ≡ true
    → not (same t reassigned) ≡ true
    → is_underway t ≡ true
unfolding can_transition
is_underway-step in_progress t u h v = ground arith
is_underway-step _ t u h v = ground arith

is_underway-Moves :
    {s t : TaskState}
    → Moves (λ x. not (same x reassigned)) s t
    → is_underway s ≡ true
    → is_underway t ≡ true
is_underway-Moves here u = u
is_underway-Moves (next {s = s} {t = m} h v rest) u =
    is_underway-Moves rest (is_underway-step s m u h v)

-- Once a captain has started the work, no legal moves cancel the task, and none puts it under a
-- cancellation review, before it has been reassigned.
started_not_cancelled :
    {t : TaskState}
    → Moves (λ x. not (same x reassigned)) in_progress t
    → (t ≢ cancelled) × (t ≢ cancel_review) × (t ≢ cancel_disputed)
started_not_cancelled {t} m =
    let u = is_underway-Moves m refl in (λ e. ground arith, λ e. ground arith, λ e. ground arith)

-- A move begins a hold on the captain's money only as a claim out of the pool, or as the
-- rejection of an expired task.
task_hold_begins :
    (s t : TaskState)
    → can_transition s t ≡ true
    → holds_collateral s ≡ false
    → holds_collateral t ≡ true
    → ((is_claimable s ≡ true) × (t ≡ assigned)) ⊎ ((s ≡ expired) × (t ≡ rejected))
unfolding can_transition holds_collateral is_claimable
task_hold_begins created t h a b = ground arith
task_hold_begins _ t h a b = ground arith

-- The moves that release a hold are the four exits: completion, reassignment, expiry and an
-- agreed cancellation.
task_hold_ends :
    (s t : TaskState)
    → can_transition s t ≡ true
    → (releases_collateral s t ≡ true) ↔ (
        (holds_collateral s ≡ true)
        × ((t ≡ completed) ⊎ (t ≡ reassigned) ⊎ (t ≡ expired) ⊎ (t ≡ cancelled)))
unfolding can_transition releases_collateral
task_hold_ends created t h = ground arith
task_hold_ends _ t h = ground arith

abbrev Leads : TaskState → Type 0
Leads s = Moves (λ _. true) s completed

from_proof : Leads proof_submitted
unfolding can_transition
from_proof = next {t = audit_pending} refl refl (next refl refl here)

from_assigned : Leads assigned
unfolding can_transition
from_assigned = next {t = in_progress} refl refl (next {t = proof_submitted} refl refl from_proof)

-- From every state that is not terminal, legal moves lead to COMPLETED.
completion_reachable : (s : TaskState) → is_terminal s ≡ false → Moves (λ _. true) s completed
unfolding is_terminal can_transition
completion_reachable created h = next {t = assigned} refl refl from_assigned
completion_reachable assigned h = from_assigned
completion_reachable in_progress h = next {t = proof_submitted} refl refl from_proof
completion_reachable proof_submitted h = from_proof
completion_reachable audit_pending h = next refl refl here
completion_reachable completed h = here
completion_reachable rejected h = next refl refl here
completion_reachable reassigned h = next {t = assigned} refl refl from_assigned
completion_reachable expired h = next {t = rejected} refl refl (next refl refl here)
completion_reachable cancel_review h =
    next {t = cancel_disputed} refl refl (next {t = assigned} refl refl from_assigned)
completion_reachable cancel_disputed h = next {t = assigned} refl refl from_assigned
completion_reachable cancelled h = cc
