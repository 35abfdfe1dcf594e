-- ===== src/Workflow/Creation.antt =====
-- Creating a pay-out: `createTask` of server/src/services/task.service.ts. Arguments stand for what
-- other collections and generators give: the bounds of the configuration, what the party has paid
-- out in the day and the month, the customer and the code of the task, its clocks, and the
-- references to try (one where the party supplies it, five generated ones where not).
use flitepay.Prelude.{
  ℕ, ◌+◌, Bool, true, false, ◌&&◌, none, some, List, [], ◌∷◌, Text, ltb, leb, ◌==◌, if◌then◌else◌,
}
use flitepay.Prelude.Int.{ℤ, pos, negsuc, ◌+ℤ◌, ◌-ℤ◌}
use flitepay.Prelude.Dict.{Dict, lookup, insert}
use flitepay.Errors.{
  Result, ok, err, AppError, internal, conflict, unprocessable, amount_below_minimum,
  amount_above_maximum, party_daily_limit_exceeded, party_monthly_limit_exceeded,
  insufficient_dmc_balance, duplicate_value,
}
use flitepay.Commission.{pay_out, DirectionalCommission, commission_for}
use flitepay.Machine.Task.{created}
use flitepay.Store.{Store, Action, pure, raise, lift, catch, modify, ◌>>=◌, ◌>>◌}
use flitepay.Store.Tasks.{ActorContext, StoredClocks, Task}
use flitepay.Store.Finding.{put_task}
use flitepay.Engine.Create.{same_text}
use flitepay.Routing.Offers.{offer_to_next_captain}
use flitepay.Workflow.Claiming.{Throughput}

-- `CreateTaskInput`, with what is resolved from it.
pub record CreateTaskInput : Type 0 where
  pub party_id : ℕ
  pub created_by : ℕ
  pub amount : ℕ
  pub task_code : Text
  pub customer_id : ℕ
  pub customer_name : Text
  pub clocks : StoredClocks

pub record Bounds : Type 0 where
  pub minimum : ℕ
  pub maximum : ℕ

-- `assertAmountWithinBounds`
unfoldable pub assert_amount_within_bounds : Bounds → ℕ → Result (Unit {0})
assert_amount_within_bounds bounds amount =
    if ltb amount bounds.minimum
    then err (unprocessable amount_below_minimum)
    else if ltb bounds.maximum amount
    then err (unprocessable amount_above_maximum)
    else ok tt

-- `assertPartyLimits`
unfoldable pub assert_party_limits : Throughput → ℕ → Result (Unit {0})
assert_party_limits used amount =
    if ltb used.daily_cap (used.daily + amount)
    then err (unprocessable party_daily_limit_exceeded)
    else if ltb used.monthly_cap (used.monthly + amount)
    then err (unprocessable party_monthly_limit_exceeded)
    else ok tt

abbrev pub covers : ℤ → ℕ → Bool
covers (pos balance) total = leb total balance
covers (negsuc debt) total = false

abbrev pub add_dmc : ℕ → ℤ → Store → Store
add_dmc party_id amount s = elim (lookup party_id s.parties) [
  | none ↦ s
  | some p ↦ record s {
    parties = insert party_id (record p { dmc_balance = p.dmc_balance +ℤ amount }) s.parties;
  }
]

-- `debitPartyDmcBalance`
unfoldable pub debit_party_dmc_balance : ℕ → ℕ → Action (Unit {0})
debit_party_dmc_balance party_id total s = elim (lookup party_id s.parties) [
  | none ↦ (err (unprocessable insufficient_dmc_balance), s)
  | some p ↦
      if covers p.dmc_balance total
      then (ok tt, add_dmc party_id (pos 0 -ℤ pos total) s)
      else (err (unprocessable insufficient_dmc_balance), s)
]

-- The row of `Task.create`.
abbrev pub new_task : CreateTaskInput → DirectionalCommission → ActorContext → ℕ → Text → Task
new_task input split actor now reference = record {
  party_id = input.party_id;
  amount = input.amount;
  status = created;
  captain_id = none;
  previous_captain_ids = [];
  reassignment_count = 0;
  provider_reference = none;
  label = record {
    task_code = input.task_code;
    customer_id = some input.customer_id;
    customer_name = input.customer_name;
    external_ref = reference;
  };
  price = record {
    party_commission = some split.party_paise;
    commission = some split.captain_paise;
    admin_commission = some split.platform_paise;
    party_rate = some split.party_rate;
    captain_rate = some split.captain_rate;
    captain_rate_agreed = some split.captain_rate_agreed;
  };
  clocks = input.clocks;
  times = record {
    created_at = now;
    claimed_at = none;
    started_at = none;
    proof_submitted_at = none;
    audited_at = none;
    audited_by = none;
    completed_at = none;
    expires_at = none;
    expiry_ack_deadline = none;
  };
  offer = record {
    offered_captain_id = none;
    offered_at = none;
    offer_expires_at = none;
    offered_captain_ids = [];
    open_pool_at = none;
    routing_stalled_at = none;
  };
  confirmation = record { deadline = none; requested_at = none };
  rejection = record {
    reason = none;
    category = none;
    rejected_captain_id = none;
    admin_resolution = none;
  };
  cancel = record {
    initiated_by = none;
    initiated_by_user_id = none;
    reason = none;
    pre_cancel_status = none;
    review_decision = none;
    review_reason = none;
    admin_resolution = none;
  };
  objection = record {
    disputed_at = none;
    reason = none;
    disputed_by = none;
    resolved_at = none;
    decision = none;
    resolution = none;
  };
  state_history =
      record {
        from = none;
        to = created;
        actor_user_id = some input.created_by;
        actor_role = actor.role;
        reason = none;
        captain_id = none;
        at = now;
      }
      ∷ [];
}

-- The unique index on party and reference.
unfoldable pub has_reference : ℕ → Text → Dict Task → Bool
has_reference party_id reference [] = false
has_reference party_id reference ((id, t) ∷ d) =
    if t.party_id == party_id && same_text t.label.external_ref reference
    then true
    else has_reference party_id reference d

-- The loop round `Task.create`: a reference that is taken is followed by the next.
unfoldable pub insert_task : ℕ → (Text → Task) → List Text → Action Task
unfolding has_reference
insert_task new_id row [] s = (err (conflict duplicate_value), s)
insert_task new_id row (reference ∷ references) s =
    let rest = insert_task new_id row references s in
    if has_reference (row reference).party_id reference s.tasks
    then rest
    else (ok (row reference), put_task new_id (row reference) s)

-- `refundDebit`, and the error again.
unfoldable pub refund_debit : Bool → ℕ → ℕ → AppError → Action Task
refund_debit true party_id total e = raise e
refund_debit false party_id total e = do modify (add_dmc party_id (pos total)); raise e

-- `createTask` once the charge is known. With a session, the database transaction around it undoes
-- the debit of a failure.
unfoldable pub create_task_from :
    Bool → ℕ → CreateTaskInput → DirectionalCommission → List Text → ActorContext → ℕ → Action Task
create_task_from session new_id input split references actor now = do
  debit_party_dmc_balance input.party_id (input.amount + split.party_paise)
  task ←
      catch (insert_task new_id (new_task input split actor now) references)
        (refund_debit session input.party_id (input.amount + split.party_paise))
  offer_to_next_captain new_id now
  pure task

-- `createTask` after its checks: the party's charge is priced at its rate, without a captain.
unfoldable pub create_priced :
    Bool → ℕ → CreateTaskInput → List Text → ActorContext → ℕ → Action Task
unfolding create_task_from
create_priced session new_id input references actor now s = elim (lookup input.party_id s.parties) [
  | none ↦ (err internal, s)
  | some p ↦
      (do
        split ← lift (commission_for pay_out input.amount s.config (some p.rates) none)
        create_task_from session new_id input split references actor now)
        s
]

-- `createTask`
unfoldable pub create_task :
    Bool → Bounds → Throughput → ℕ → CreateTaskInput → List Text → ActorContext → ℕ → Action Task
unfolding assert_amount_within_bounds assert_party_limits create_priced
create_task session bounds used new_id input references actor now = do
  lift (assert_amount_within_bounds bounds input.amount)
  lift (assert_party_limits used input.amount)
  create_priced session new_id input references actor now
