-- ===== src/Workflow/Completion.antt =====
-- Completing a pay-out and rejecting its proof: `completeTask`, `approveTask`, `rejectTask` and the
-- payments of a completion (server/src/services/workflow.service.ts), and `creditCommission` of
-- services/commission.service.ts. Ids of new rows are arguments.
use flitepay.Prelude.{
  ℕ, ◌+◌, ◌*◌, Bool, true, false, not, Option, none, some, get_or, [], ◌∷◌, Text, ltb, leb, ◌==◌,
  if◌then◌else◌, is_some, length, trim,
}
use flitepay.Prelude.Dict.{lookup, insert}
use flitepay.Errors.{
  ok, internal, bad_request, conflict, not_pending_audit, rejection_reason_required,
}
use flitepay.Machine.Task.{TaskState, audit_pending, rejected, completed, assert_transition}
use flitepay.Allocation.{OwnerType, create_allocation}
use flitepay.Store.{Action, pure, lift, or_raise, atomically, raise_if, modify, ◌>>=◌, ◌>>◌}
use flitepay.Store.Tasks.{ActorContext, Task, CommissionEntry, RejectionCategory, AdminResolution}
use flitepay.Store.Finding.{reads, load_task}
use flitepay.Pool.{collect_into_pool}
use flitepay.Balance.{pay_commission_to_captain}
use flitepay.Routing.Rating.{record_outcome, one_completed, one_proof_rejected}
use flitepay.Workflow.{
  event, claim_transition, already_decided, in_state, add_to_balance, when_held, captain_part,
  platform_part, charge,
}

-- `creditCommission`: whether the row was written. The second of two rows for one task is not.
unfoldable pub credit_commission : ℕ → CommissionEntry → Action Bool
credit_commission id entry s =
    if is_some (lookup id s.commissions)
    then (ok false, s)
    else (ok true, record s { commissions = insert id entry s.commissions })

-- `if (partyChargePaise > 0) await collectIntoPool(…)`
unfoldable pub collect_charge : ℕ → Action (Unit {0})
collect_charge amount s = if ltb 0 amount then collect_into_pool amount s else (ok tt, s)

-- `if (captainCommissionPaise > 0) await payCommissionToCaptain(…)`
unfoldable pub pay_share : Bool → ℕ → ℕ → ℕ → Action Bool
pay_share session id captain_id amount s =
    if ltb 0 amount
    then pay_commission_to_captain captain_id amount session (some id) s
    else (ok true, s)

-- `payCaptainForCompletedTask`
unfoldable pub pay_captain_for_completed_task : Bool → ℕ → Task → ℕ → Action Bool
pay_captain_for_completed_task session id task captain_id = do
  collect_charge (charge task)
  add_to_balance captain_id (task.amount * 2)
  pay_share session id captain_id (captain_part task)

-- `createAllocation` for the completion of a task.
unfoldable pub allocate : ℕ → OwnerType → ℕ → ℕ → ℕ → Task → ℕ → Action (Unit {0})
allocate new_id owner_type owner_id amount id task now = modify (λ s. record s {
  allocations =
      create_allocation new_id owner_type owner_id task.party_id task.label.customer_id id
        task.label.task_code task.label.customer_name amount now s.allocations;
})

-- `PLATFORM_OWNER_ID`
abbrev pub platform_owner_id : ℕ
platform_owner_id = 1

-- `createPlatformAllocation`
unfoldable pub create_platform_allocation : ℕ → ℕ → Task → ℕ → Action (Unit {0})
create_platform_allocation new_id id task now s =
    if platform_part task == 0
    then (ok tt, s)
    else allocate new_id OwnerType.admin platform_owner_id (platform_part task) id task now s

-- The two new rows of a completion.
pub record NewRows : Type 0 where
  pub captain_allocation : ℕ
  pub platform_allocation : ℕ

-- The fields of `claimCompletion`.
abbrev pub with_completion : Option AdminResolution → ActorContext → ℕ → Task → Task → Task
with_completion resolution actor now read t = record t {
  times = record t.times {
    completed_at = some now;
    audited_at = some now;
    audited_by = some actor.user_id;
  };
  price = record t.price { commission = some (captain_part read) };
  rejection = record t.rejection {
    admin_resolution = elim resolution [ none ↦ t.rejection.admin_resolution | some r ↦ some r ];
  };
}

-- `claimCompletion`
unfoldable pub claim_completion :
    ℕ → Task → TaskState → Option AdminResolution → ActorContext → ℕ → Action (Option Task)
unfolding claim_transition
claim_completion id read from resolution actor now =
    claim_transition id (in_state from) completed (with_completion resolution actor now read)
      (event from completed actor none now ∷ [])

-- The ledger row of a completion.
abbrev pub entry_for : Task → ℕ → ℕ → ℕ → CommissionEntry
entry_for task captain_id version now = record {
  captain_id = captain_id;
  party_id = task.party_id;
  task_amount = task.amount;
  commission = captain_part task;
  percentage_rate = get_or task.price.captain_rate 0;
  config_version = version;
  earned_at = now;
}

-- What a completion that is claimed writes: ledger, payments and allocations.
unfoldable pub pay_completion : Bool → NewRows → ℕ → Task → ℕ → ℕ → ℕ → Action (Unit {0})
pay_completion session rows id task captain_id version now = do
  credit_commission id (entry_for task captain_id version now)
  pay_captain_for_completed_task session id task captain_id
  allocate rows.captain_allocation OwnerType.captain captain_id (task.amount + captain_part task) id
      task now
  create_platform_allocation rows.platform_allocation id task now

unfoldable pub after_claim : Bool → NewRows → ℕ → Task → ℕ → ℕ → ℕ → Task → Action Task
after_claim session rows id task captain_id version now done = do
  pay_completion session rows id task captain_id version now
  pure done

-- The body that runs in a database transaction where there are any.
unfoldable pub completion_body :
    Bool
    → NewRows
    → ℕ
    → Task
    → ℕ
    → ℕ
    → TaskState
    → Option AdminResolution
    → ActorContext
    → ℕ
    → Action Task
unfolding claim_completion
completion_body session rows id task captain_id version from resolution actor now = do
  claimed ← claim_completion id task from resolution actor now
  done ← or_raise claimed (conflict not_pending_audit)
  after_claim session rows id task captain_id version now done

abbrev pub is_on_time : Option ℕ → ℕ → Bool
is_on_time none now = true
is_on_time (some until) now = leb now until

-- `completeTask` once the captain is known.
unfoldable pub complete_for :
    Bool
    → NewRows
    → ℕ
    → Task
    → ℕ
    → TaskState
    → Option AdminResolution
    → ActorContext
    → ℕ
    → Action Task
unfolding completion_body
complete_for supports rows id task captain_id from resolution actor now = do
  raise_if (not (is_some task.price.commission)) internal
  version ← reads (λ s. s.config.version)
  done ←
      atomically supports
        (completion_body supports rows id task captain_id version from resolution actor now)
  record_outcome captain_id (one_completed (is_on_time task.times.expires_at now))
  pure done

-- `completeTask`, on the document that was read.
unfoldable pub complete_task_from :
    Bool → NewRows → ℕ → Task → TaskState → Option AdminResolution → ActorContext → ℕ → Action Task
unfolding complete_for
complete_task_from supports rows id task from resolution actor now = do
  lift (assert_transition from completed)
  captain_id ← or_raise task.captain_id internal
  complete_for supports rows id task captain_id from resolution actor now

-- `approveTask`
unfoldable pub approve_task : Bool → NewRows → ℕ → ActorContext → ℕ → Action Task
approve_task supports rows id actor now = do
  task ← load_task id
  raise_if (not (in_state audit_pending task)) (conflict not_pending_audit)
  complete_task_from supports rows id task audit_pending none actor now

abbrev with_rejection : Text → RejectionCategory → ActorContext → ℕ → Task → Task → Task
with_rejection reason category actor now read t = record t {
  rejection = record t.rejection {
    reason = some reason;
    category = some category;
    rejected_captain_id = read.captain_id;
  };
  times = record t.times { audited_at = some now; audited_by = some actor.user_id };
}

-- `rejectTask` once the task has been read; the reason is trimmed.
unfoldable pub reject_task_from :
    ℕ → Task → Text → RejectionCategory → ActorContext → ℕ → Action Task
unfolding claim_transition
reject_task_from id task reason category actor now = do
  lift (assert_transition audit_pending rejected)
  claimed ←
      claim_transition id (in_state audit_pending) rejected
        (with_rejection reason category actor now task)
        (event audit_pending rejected actor (some reason) now ∷ [])
  done ← or_raise claimed already_decided
  when_held task.captain_id (λ c. record_outcome c one_proof_rejected)
  pure done

-- `!reason || reason.trim().length < 5`
abbrev pub long_enough : Text → Bool
long_enough reason = leb 5 (length (trim reason))

-- `rejectTask`
unfoldable pub reject_task : ℕ → Text → RejectionCategory → ActorContext → ℕ → Action Task
unfolding reject_task_from
reject_task id reason category actor now = do
  raise_if (not (long_enough reason)) (bad_request rejection_reason_required)
  task ← load_task id
  raise_if (not (in_state audit_pending task)) (conflict not_pending_audit)
  reject_task_from id task (trim reason) category actor now
