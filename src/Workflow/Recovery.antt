-- ===== src/Workflow/Recovery.antt =====
-- Taking a pay-out back into the pool: `reassignTask`, `resolveTaskRejection`,
-- `returnExpiredTaskToPool`, `rejectExpiredTask` and `reclaimUnacknowledgedExpiredTasks` of
-- server/src/services/workflow.service.ts. The routing that follows does not fail here.
use flitepay.Prelude.{
  ℕ, ◌+◌, Bool, true, false, not, ◌&&◌, Option, none, some, List, [], ◌∷◌, ◌++◌, Text, leb,
  if◌then◌else◌, trim,
}
use flitepay.Prelude.Dict.{Dict}
use flitepay.Errors.{
  ok, err, bad_request, conflict, invalid_state_transition, rejection_reason_required,
}
use flitepay.Machine.Task.{TaskState, rejected, reassigned, expired, assert_transition}
use flitepay.Store.{Action, pure, lift, or_raise, raise_if, ◌>>=◌, ◌>>◌}
use flitepay.Store.Tasks.{ActorContext, TaskStateEvent, Times, Task, AdminResolution, approved}
use flitepay.Store.Finding.{load_task}
use flitepay.Routing.Rating.{record_outcome, one_rejection_upheld}
use flitepay.Routing.Offers.{reset_routing_for_reassignment}
use flitepay.Workflow.{
  event, system_event, claim_transition, already_decided, in_state, load_owned_task,
  supersede_proof_for, release_payout_hold, when_held,
}
use flitepay.Workflow.Completion.{NewRows, complete_task_from, long_enough}

-- What every way back into the pool clears on the task.
abbrev unheld_times : Times → Times
unheld_times x = record x {
  claimed_at = none;
  started_at = none;
  proof_submitted_at = none;
  expires_at = none;
}

-- `$push: { previousCaptainIds }`, which is left out where there is no captain.
abbrev and_previous : Option ℕ → List ℕ → List ℕ
and_previous none ids = ids
and_previous (some c) ids = ids ++ c ∷ []

-- The fields of a way back into the pool, `captain_id` as it was read.
abbrev pub cleared : Option ℕ → Task → Task
cleared captain_id t = record t {
  captain_id = none;
  times = unheld_times t.times;
  provider_reference = none;
  reassignment_count = t.reassignment_count + 1;
  previous_captain_ids = and_previous captain_id t.previous_captain_ids;
}

abbrev pub let_go : Option ℕ → (Task → Task) → Task → Task
let_go captain_id extra t = extra (cleared captain_id t)

abbrev pub with_captain : Option ℕ → TaskStateEvent → TaskStateEvent
with_captain captain_id e = record e { captain_id = captain_id }

-- What `reassignTask` does once its claim is won: `done` is the document as it is then.
unfoldable pub after_reassignment : ℕ → Task → ℕ → Task → Action Task
after_reassignment id task now done = do
  supersede_proof_for id now
  when_held task.captain_id (λ c. release_payout_hold c task.amount)
  reset_routing_for_reassignment id now
  pure done

-- `reassignTask`, on the document that was read. Routing errors are caught there; here there are
-- none.
unfoldable pub reassign_task_from : ℕ → Task → ActorContext → (Task → Task) → ℕ → Action Task
unfolding claim_transition
reassign_task_from id task actor extra now = do
  lift (assert_transition task.status reassigned)
  claimed ←
      claim_transition id (in_state task.status) reassigned (let_go task.captain_id extra)
        (with_captain task.captain_id (event task.status reassigned actor none now) ∷ [])
  done ← or_raise claimed already_decided
  after_reassignment id task now done

abbrev pub rejection_resolved : Task → Task
rejection_resolved t = record t {
  rejection = record t.rejection { admin_resolution = some AdminResolution.reassigned };
}

pub data Ruling : Type 0 where
  approve_it reassign_it : Ruling

-- `resolveTaskRejection` once the task has been read.
unfoldable pub resolve_task_rejection_from :
    Bool → NewRows → ℕ → Task → Ruling → ActorContext → ℕ → Action Task
resolve_task_rejection_from supports rows id task approve_it actor now =
    complete_task_from supports rows id task rejected (some approved) actor now
resolve_task_rejection_from supports rows id task reassign_it actor now = do
  done ← reassign_task_from id task actor rejection_resolved now
  when_held task.captain_id (λ c. record_outcome c one_rejection_upheld)
  pure done

-- `resolveTaskRejection`
unfoldable pub resolve_task_rejection : Bool → NewRows → ℕ → Ruling → ActorContext → ℕ → Action Task
unfolding resolve_task_rejection_from
resolve_task_rejection supports rows id ruling actor now = do
  task ← load_task id
  raise_if (not (in_state rejected task)) (conflict invalid_state_transition)
  resolve_task_rejection_from supports rows id task ruling actor now

abbrev pub with_expiry_reason : Option Text → Task → Task
with_expiry_reason reason t = record t {
  rejection = record t.rejection { reason = reason };
  times = record t.times { expiry_ack_deadline = none };
}

abbrev pub actor_event :
    TaskState → TaskState → Option ActorContext → Option Text → ℕ → TaskStateEvent
actor_event from to none reason at = system_event from to reason at
actor_event from to (some actor) reason at = event from to actor reason at

unfoldable pub after_recovery : ℕ → ℕ → Task → Action Task
after_recovery id now done = do reset_routing_for_reassignment id now; pure done

-- `returnExpiredTaskToPool`, on the document that was read. Both hops are one write.
unfoldable pub return_expired_task_to_pool :
    ℕ → Task → Option Text → Option ActorContext → ℕ → Action Task
unfolding claim_transition
return_expired_task_to_pool id task reason actor now = do
  lift (assert_transition task.status rejected)
  lift (assert_transition rejected reassigned)
  claimed ←
      claim_transition id (in_state expired) reassigned
        (let_go task.captain_id (with_expiry_reason reason))
        (with_captain task.captain_id (system_event rejected reassigned none now)
          ∷ with_captain task.captain_id (actor_event expired rejected actor reason now)
          ∷ [])
  done ← or_raise claimed already_decided
  after_recovery id now done

-- `rejectExpiredTask`
unfoldable pub reject_expired_task : ℕ → ℕ → Text → ActorContext → ℕ → Action Task
unfolding load_owned_task return_expired_task_to_pool
reject_expired_task id captain_id reason actor now = do
  raise_if (not (long_enough reason)) (bad_request rejection_reason_required)
  task ← load_owned_task id captain_id
  return_expired_task_to_pool id task (some (trim reason)) (some actor) now

abbrev pub passed : ℕ → Option ℕ → Bool
passed now none = false
passed now (some deadline) = leb deadline now

abbrev is_abandoned : ℕ → Task → Bool
is_abandoned now t = in_state expired t && passed now t.times.expiry_ack_deadline

-- The tasks that pass a filter, before the limit of 200.
unfoldable pub find_tasks : (Task → Bool) → Dict Task → Dict Task
find_tasks filter [] = []
find_tasks filter ((id, t) ∷ d) =
    let rest = find_tasks filter d in if filter t then (id, t) ∷ rest else rest

-- A loop over rows that were read, which catches each error and passes on; it counts successes.
unfoldable pub for_each : (ℕ → Task → Action Bool) → Dict Task → ℕ → Action ℕ
for_each act [] count s = (ok count, s)
for_each act ((id, t) ∷ rows) count s =
    let (r, s') = act id t s in
    for_each act rows (elim r [ ok done ↦ if done then count + 1 else count | err e ↦ count ]) s'

-- `reclaimUnacknowledgedExpiredTasks`; how many it reclaimed.
unfoldable pub reclaim_unacknowledged_expired_tasks : Text → ℕ → Action ℕ
unfolding for_each find_tasks return_expired_task_to_pool
reclaim_unacknowledged_expired_tasks sentence now s =
    for_each (λ id t. return_expired_task_to_pool id t (some sentence) none now >> pure true)
      (find_tasks (is_abandoned now) s.tasks) 0 s
