-- ===== src/Workflow/Overdue.antt =====
-- The sweeps of server/src/services/workflow.service.ts over tasks whose time is up, and the
-- customer's answer of services/customerConfirmation.service.ts. The limit of 200 rows of one pass
-- is left out.
use flitepay.Prelude.{
  ℕ, Bool, true, false, not, ◌&&◌, ◌||◌, Option, none, some, get_or, [], ◌∷◌, Text, trim, leb, ◌==◌,
  is_some, if◌then◌else◌,
}
use flitepay.Errors.{
  bad_request, conflict, not_found_with, task_not_found, invalid_state_transition,
  rejection_reason_required,
}
use flitepay.Machine.Task.{
  created, assigned, in_progress, audit_pending, reassigned, expired, cancelled, assert_transition,
}
use flitepay.Store.{Action, pure, lift, or_raise, raise_if, ◌>>=◌, ◌>>◌}
use flitepay.Store.Tasks.{Role, ActorContext, Task, ClockConfig, not_received}
use flitepay.Store.Finding.{reads, find_and_update, load_task}
use flitepay.Routing.Rating.{record_outcome, one_expired}
use flitepay.Routing.Offers.{add_minutes, with_offer, no_offer, withdraw_open_offers}
use flitepay.Workflow.{
  system_event, claim_transition, in_state, with_times, with_confirmation, release_payout_hold,
  when_held,
}
use flitepay.Workflow.Completion.{NewRows, approve_task, reject_task, long_enough}
use flitepay.Workflow.Recovery.{passed, find_tasks, for_each}
use flitepay.Workflow.Cancelling.{refund_party_for_cancelled_task, with_cancel}

abbrev is_late : ℕ → Task → Bool
is_late now t = (in_state assigned t || in_state in_progress t) && passed now t.times.expires_at

abbrev pub with_ack : ℕ → Task → Task
with_ack deadline = with_times λ x. record x { expiry_ack_deadline = some deadline }

abbrev expiry_ack_minutes_of : Task → ClockConfig → ℕ
expiry_ack_minutes_of t c = get_or t.clocks.expiry_ack_minutes c.task_expiry_ack_minutes

-- What the sweep does for a task that it has expired: `captain_id` as it was read.
unfoldable pub let_expire : Option ℕ → ℕ → Action (Unit {0})
let_expire captain_id amount =
    when_held captain_id (λ c. do release_payout_hold c amount; record_outcome c one_expired)

-- The rest of a round, once the document that was read is expired, or another has changed it.
unfoldable pub after_expiry : Task → Option Task → Action Bool
after_expiry read none = pure false
after_expiry read (some t) = do let_expire read.captain_id read.amount; pure true

-- One round of `expireOverdueTasks`, on the document that was read: whether it expired the task.
unfoldable pub expire_task : ℕ → ℕ → Task → Action Bool
unfolding claim_transition
expire_task now id task = do
  lift (assert_transition task.status expired)
  minutes ← reads (λ s. expiry_ack_minutes_of task s.clock_config)
  claimed ←
      claim_transition id (in_state task.status) expired (with_ack (add_minutes now minutes))
        (system_event task.status expired none now ∷ [])
  after_expiry task claimed

-- `expireOverdueTasks`
unfoldable pub expire_overdue_tasks : ℕ → Action ℕ
unfolding for_each find_tasks expire_task
expire_overdue_tasks now s = for_each (expire_task now) (find_tasks (is_late now) s.tasks) 0 s

abbrev max_age_minutes_of : Task → ClockConfig → ℕ
max_age_minutes_of t c = get_or t.clocks.max_age_minutes c.task_max_age_minutes

abbrev is_stale : ℕ → ClockConfig → Task → Bool
is_stale now c t =
    (in_state created t || in_state reassigned t)
    && not (is_some t.captain_id)
    && leb (add_minutes t.times.created_at (max_age_minutes_of t c)) now

unfoldable pub after_stale : ℕ → ℕ → Option Task → Action Bool
after_stale id now none = pure false
after_stale id now (some t) = do
  withdraw_open_offers id none now
  refund_party_for_cancelled_task t
  pure true

-- One round of `expireStaleUnclaimedTasks`; the sentence names the minutes.
unfoldable pub cancel_stale_task : (ℕ → Text) → ℕ → ℕ → Task → Action Bool
unfolding claim_transition
cancel_stale_task sentence now id task = do
  lift (assert_transition task.status cancelled)
  minutes ← reads (λ s. max_age_minutes_of task s.clock_config)
  claimed ←
      claim_transition id (λ t. in_state task.status t && not (is_some t.captain_id)) cancelled
        (λ t.
          with_offer no_offer (with_cancel (λ c. record c { reason = some (sentence minutes) }) t))
        (system_event task.status cancelled (some (sentence minutes)) now ∷ [])
  after_stale id now claimed

-- `expireStaleUnclaimedTasks`
unfoldable pub expire_stale_unclaimed_tasks : (ℕ → Text) → ℕ → Action ℕ
unfolding for_each find_tasks cancel_stale_task
expire_stale_unclaimed_tasks sentence now s =
    for_each (cancel_stale_task sentence now) (find_tasks (is_stale now s.clock_config) s.tasks) 0 s

abbrev pub no_deadline : Task → Task
no_deadline t = with_confirmation none t.confirmation.requested_at t

abbrev pub owner_actor : ℕ → ActorContext
owner_actor user_id = record { user_id = user_id; role = Role.party }

-- The approval in the name of the party's user, `none` where there is no such party.
abbrev pub approve_as : Bool → NewRows → Option ℕ → ℕ → ℕ → Action (Option Task)
approve_as supports rows none now id = pure none
approve_as supports rows (some user_id) now id = do
  done ← approve_task supports rows id (owner_actor user_id) now
  pure (some done)

abbrev pub after_timeout : Bool → NewRows → Option ℕ → ℕ → ℕ → Option Task → Action (Option Task)
after_timeout supports rows owner now id none = pure none
after_timeout supports rows owner now id (some t) = approve_as supports rows owner now id

abbrev pub is_lapsed : ℕ → Task → Bool
is_lapsed now t = in_state audit_pending t && passed now t.confirmation.deadline

-- `autoApproveOnTimeout`
unfoldable pub auto_approve_on_timeout : Bool → NewRows → Option ℕ → ℕ → ℕ → Action (Option Task)
auto_approve_on_timeout supports rows owner now id = do
  claimed ← find_and_update id (is_lapsed now) no_deadline
  after_timeout supports rows owner now id claimed

-- `autoApproveUnconfirmedPayouts`; how many it approved.
unfoldable pub auto_approve_unconfirmed_payouts :
    Bool → (ℕ → NewRows) → (ℕ → Option ℕ) → ℕ → Action ℕ
unfolding for_each find_tasks auto_approve_on_timeout
auto_approve_unconfirmed_payouts supports rows owner now s =
    for_each
      (λ id t. do
        done ← auto_approve_on_timeout supports (rows id) (owner t.party_id) now id
        pure (is_some done))
      (find_tasks (is_lapsed now) s.tasks) 0 s

-- `applyCustomerConfirmation`; `user_id` is the party's user, or the actor's where there is none.
unfoldable pub apply_customer_confirmation :
    Bool → NewRows → ℕ → ℕ → Bool → Option Text → ℕ → ActorContext → ℕ → Action Task
unfolding approve_task reject_task
apply_customer_confirmation supports rows id party_id received reason user_id actor now = do
  task ← load_task id
  raise_if (not (task.party_id == party_id)) (not_found_with task_not_found)
  raise_if (not received && not (long_enough (get_or reason [])))
      (bad_request rejection_reason_required)
  claimed ←
      find_and_update id (λ t. in_state audit_pending t && is_some t.confirmation.deadline)
        no_deadline
  or_raise claimed (conflict invalid_state_transition)
  (if received
      then approve_task supports rows id (owner_actor user_id) now
      else reject_task id (trim (get_or reason [])) not_received actor now)
