-- ===== src/Workflow.antt =====
-- The life of a pay-out: server/src/services/workflow.service.ts. Every operation reads the task,
-- claims its change of state by a conditional write, and only then moves money. What it read may
-- be out of date when it claims, so an operation that uses what it read after its claim is split:
-- `…_from` has the document that was read as an argument. Audit records, notifications and
-- callbacks are left out; a fixed sentence that is only a reason in the
-- history is `none`, one that is a field of the task is an argument. An id that is no ObjectId is one that no document has.
pub mod Completion
pub mod Recovery
pub mod Cancelling
pub mod Overdue
pub mod Claiming
pub mod Creation
pub mod Worth
pub mod Flow
pub mod Money
pub mod Routed
pub mod Rules
pub mod Level
pub mod Refunds
pub mod Endings
pub mod Lapses
pub mod Payments
pub mod Taking
pub mod Making
pub mod Steps
pub mod Frame
pub mod Moving
pub mod Lifecycle
pub mod Births
pub mod Lives
pub mod Deadlines
pub mod Losing
pub mod Approvals
use flitepay.Prelude.{
  ℕ, ◌+◌, ◌*◌, Bool, true, false, not, ◌&&◌, Option, none, some, get_or, List, [], ◌∷◌, ◌++◌, Text,
  ltb, ◌==◌, if◌then◌else◌, is_some, length, trim,
}
use flitepay.Prelude.Dict.{lookup, insert}
use flitepay.Errors.{
  Result, ok, err, AppError, bad_request, conflict, forbidden, invalid_state_transition,
  proof_already_submitted, rejection_reason_required,
}
use flitepay.Machine.Task.{
  TaskState, assigned, in_progress, proof_submitted, audit_pending, same, assert_transition,
}
use flitepay.Store.{
  Captain, Store, Action, pure, raise, lift, or_raise, raise_if, modify, ◌>>=◌, ◌>>◌,
}
use flitepay.Store.Tasks.{
  Role, ActorContext, TaskStateEvent, Times, Confirmation, Task, Proof, ClockConfig,
}
use flitepay.Store.Finding.{reads, put_task, find_and_update, load_task}
use flitepay.Routing.Eligibility.{same_id}
use flitepay.Routing.Offers.{add_minutes}

-- An entry of `stateHistory` that a user's write makes.
abbrev pub event : TaskState → TaskState → ActorContext → Option Text → ℕ → TaskStateEvent
event from to actor reason at = record {
  from = some from;
  to = to;
  actor_user_id = some actor.user_id;
  actor_role = actor.role;
  reason = reason;
  captain_id = none;
  at = at;
}

-- One that the system makes.
abbrev pub system_event : TaskState → TaskState → Option Text → ℕ → TaskStateEvent
system_event from to reason at = record {
  from = some from;
  to = to;
  actor_user_id = none;
  actor_role = Role.system;
  reason = reason;
  captain_id = none;
  at = at;
}

-- The update of `claimTransition`: the fields, the new state and its history, newest entry first.
abbrev pub moved : TaskState → (Task → Task) → List TaskStateEvent → Task → Task
moved to set history t = record (set t) { status = to; state_history = history ++ t.state_history }

-- `claimTransition`; `claimed` where what follows needs the document: the error is `alreadyDecided`.
unfoldable pub claim_transition :
    ℕ → (Task → Bool) → TaskState → (Task → Task) → List TaskStateEvent → Action (Option Task)
claim_transition id precondition to set history =
    find_and_update id precondition (moved to set history)

abbrev pub already_decided : AppError
already_decided = conflict invalid_state_transition

abbrev pub in_state : TaskState → Task → Bool
in_state s t = same t.status s

-- `loadOwnedTask`
unfoldable pub load_owned_task : ℕ → ℕ → Action Task
load_owned_task id captain_id = do
  task ← load_task id
  raise_if (not (same_id task.captain_id captain_id)) forbidden
  pure task

abbrev pub with_times : (Times → Times) → Task → Task
with_times f t = record t { times = f t.times }

-- `startTask`; the document that is returned is the one that was read.
unfoldable pub start_task : ℕ → ℕ → ActorContext → ℕ → Action Task
unfolding load_owned_task claim_transition
start_task id captain_id actor now = do
  task ← load_owned_task id captain_id
  lift (assert_transition task.status in_progress)
  started ←
      claim_transition id (λ t. in_state assigned t && same_id t.captain_id captain_id) in_progress
        (with_times (λ x. record x { started_at = some now }))
        (event assigned in_progress actor none now ∷ [])
  or_raise started already_decided
  pure task

abbrev is_live : ℕ → Proof → Bool
is_live id p = p.task_id == id && not (is_some p.superseded_at)

-- Whether the task has a proof that is not superseded.
unfoldable pub has_live_proof : ℕ → List Proof → Bool
has_live_proof id [] = false
has_live_proof id (p ∷ ps) = if is_live id p then true else has_live_proof id ps

abbrev superseded : ℕ → Proof → Proof
superseded now p = record p { superseded_at = some now }

-- `supersedeProofFor`
unfoldable pub supersede_proofs : ℕ → ℕ → List Proof → List Proof
supersede_proofs id now [] = []
supersede_proofs id now (p ∷ ps) =
    (if is_live id p then superseded now p else p) ∷ supersede_proofs id now ps

unfoldable pub supersede_proof_for : ℕ → ℕ → Action (Unit {0})
unfolding supersede_proofs
supersede_proof_for id now = modify (λ s. record s { proofs = supersede_proofs id now s.proofs })

-- `SubmitProofInput`
pub record SubmitProofInput : Type 0 where
  pub captain_id : ℕ
  pub provider_reference : Text
  pub notes : Option Text

abbrev pub with_proof : SubmitProofInput → ℕ → Task → Task
with_proof input now t = record t {
  provider_reference = some input.provider_reference;
  times = record t.times { proof_submitted_at = some now };
}

abbrev pub new_proof : ℕ → SubmitProofInput → ℕ → Proof
new_proof id input now = record {
  task_id = id;
  captain_id = input.captain_id;
  provider_reference = input.provider_reference;
  notes = input.notes;
  submitted_at = now;
  superseded_at = none;
}

abbrev pub with_confirmation : Option ℕ → Option ℕ → Task → Task
with_confirmation deadline requested_at t = record t {
  confirmation = record { deadline = deadline; requested_at = requested_at };
}

-- The minutes of `clocksOf(task, config).confirmationMinutes`.
abbrev pub confirmation_minutes_of : Task → ClockConfig → ℕ
confirmation_minutes_of t c = get_or t.clocks.confirmation_minutes c.customer_confirmation_minutes

-- The end of `submitProof`: the party is asked, unless a deadline is set already.
unfoldable pub ask_party : ℕ → Task → ℕ → Action (Option Task)
ask_party id task now = do
  minutes ← reads (λ s. confirmation_minutes_of task s.clock_config)
  find_and_update id (λ t. in_state audit_pending t && not (is_some t.confirmation.deadline))
      (with_confirmation (some (add_minutes now minutes)) (some now))

-- `Proof.create`
unfoldable pub create_proof : Proof → Action (Unit {0})
create_proof p = modify (λ s. record s { proofs = p ∷ s.proofs })

-- `submitProof` once the task has been read.
unfoldable pub submit_proof_from : ℕ → Task → SubmitProofInput → ActorContext → ℕ → Action Task
unfolding claim_transition
submit_proof_from id task input actor now = do
  existing ← reads (λ s. has_live_proof id s.proofs)
  raise_if existing (conflict proof_already_submitted)
  claimed ←
      claim_transition id (λ t. in_state in_progress t && same_id t.captain_id input.captain_id)
        proof_submitted (with_proof input now)
        (event in_progress proof_submitted actor none now ∷ [])
  or_raise claimed (conflict proof_already_submitted)
  create_proof (new_proof id input now)
  lift (assert_transition proof_submitted audit_pending)
  queued ←
      claim_transition id (in_state proof_submitted) audit_pending (λ t. t)
        (system_event proof_submitted audit_pending none now ∷ [])
  or_raise queued already_decided
  ask_party id task now
  pure task

-- `submitProof`
unfoldable pub submit_proof : ℕ → SubmitProofInput → ActorContext → ℕ → Action Task
unfolding load_owned_task submit_proof_from
submit_proof id input actor now = do
  task ← load_owned_task id input.captain_id
  lift (assert_transition task.status proof_submitted)
  submit_proof_from id task input actor now

-- `Captain.updateOne({ _id }, { $inc: { dmcBalancePaise: amount } })`
unfoldable pub add_to_balance : ℕ → ℕ → Action (Unit {0})
add_to_balance captain_id amount s = elim (lookup captain_id s.captains) [
  | none ↦ (ok tt, s)
  | some c ↦ (
    ok tt,
    record s {
      captains = insert captain_id (record c { dmc_balance = c.dmc_balance + amount }) s.captains;
    },
  )
]

-- `releasePayoutHold` of server/src/services/task.service.ts.
unfoldable pub release_payout_hold : ℕ → ℕ → Action (Unit {0})
release_payout_hold captain_id amount s =
    if amount == 0 then (ok tt, s) else add_to_balance captain_id amount s

-- `if (captainId) await …`
abbrev pub when_held : Option ℕ → (ℕ → Action (Unit {0})) → Action (Unit {0})
when_held none act = pure tt
when_held (some captain_id) act = act captain_id

-- `commissionPaise ?? 0` and `adminCommissionPaise ?? 0`, and the two together.
abbrev pub captain_part : Task → ℕ
captain_part t = get_or t.price.commission 0

abbrev pub platform_part : Task → ℕ
platform_part t = get_or t.price.admin_commission 0

abbrev pub charge : Task → ℕ
charge t = captain_part t + platform_part t
