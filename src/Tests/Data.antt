-- ===== src/Tests/Data.antt =====
-- A small database: a captain, a party, a pool and a pay-in that is confirmed.
use flitepay.Prelude.{ℕ, true, false, Option, none, some, [], ◌∷◌}
use flitepay.Prelude.Int.{pos}
use flitepay.Commission.{RateConfig, PartyRates, CaptainRates}
use flitepay.Machine.Transaction.{TransactionState, created, assigned, awaiting_customer, confirmed}
use flitepay.Store.Tasks.{ClockConfig, StoredClocks, Label, Offering, Task}
use flitepay.Machine.Task.{audit_pending}
use flitepay.Workflow.Completion.{NewRows}
use flitepay.Store.{active, Record, Captain, Party, StateChange, Transaction, Store}
use flitepay.Routing.{CaptainWorkload, Candidate}

abbrev pub clean_record : Record
clean_record = record {
  tasks_completed = 3;
  tasks_on_time = 2;
  tasks_expired = 1;
  proofs_rejected = 0;
  rejections_upheld = 0;
  offers_missed = 1;
  offers_accepted = 2;
  accept_seconds = 100;
}

abbrev pub no_captain_rates : CaptainRates
no_captain_rates = record { pay_in = none; pay_out = none }

abbrev pub no_party_rates : PartyRates
no_party_rates = record { pay_in = none; pay_out = none }

-- 1 percent for the party, 0.6 percent for the captain, both ways.
abbrev pub rates : RateConfig
rates = record {
  pay_in_party = 1000000;
  pay_in_captain = 600000;
  pay_out_party = 1000000;
  pay_out_captain = 600000;
  version = 1;
}

abbrev pub ravi : Captain
ravi = record {
  status = active;
  is_online = true;
  collateral_balance = 500000;
  locked_amount = 0;
  dmc_balance = 90000;
  commission_earned_total = 400;
  credit_limit = none;
  rates = no_captain_rates;
  last_offered_at = none;
  track = clean_record;
  rating = 420;
}

abbrev pub shop : Party
shop = record { dmc_balance = pos 0; rates = no_party_rates }

abbrev pub step_of : Option TransactionState → TransactionState → ℕ → StateChange
step_of before after time = record {
  from = before;
  to = after;
  at = time;
  by = none;
  reason = none;
}

-- A pay-in of 100 rupees, charged one rupee, of which 60 paise are the captain's.
abbrev pub waiting : Transaction
waiting = record {
  party_id = 1;
  captain_id = none;
  party_reference = 65 ∷ [];
  amount = 10000;
  party_commission = 100;
  commission = 60;
  party_commission_rate = 1000000;
  commission_rate = 600000;
  commission_rate_agreed = 600000;
  commission_config_version = 1;
  commission_paid = false;
  status = created;
  state_history = step_of none created 0 ∷ [];
  gateway_order_id = none;
  gateway_qr_payload = none;
  settlement_reference = none;
  confirmed_at = none;
  settled_at = none;
  dispute_reason = none;
  failure_reason = none;
  previous_captain_ids = [];
  expires_at = 900000;
  callback_url = none;
  created_by_key_id = none;
}

abbrev pub paid_for : Transaction
paid_for = record waiting {
  captain_id = some 7;
  status = confirmed;
  state_history =
      step_of (some awaiting_customer) confirmed 3
      ∷ step_of (some assigned) awaiting_customer 2
      ∷ step_of (some created) assigned 1
      ∷ step_of none created 0
      ∷ [];
}

abbrev pub clocks : ClockConfig
clocks = record {
  task_acceptance_minutes = 5;
  task_completion_minutes = 15;
  task_max_age_minutes = 60;
  task_expiry_ack_minutes = 30;
  customer_confirmation_minutes = 20;
}

abbrev pub shop_store : Store
shop_store = record {
  captains = (7, ravi) ∷ [];
  parties = (1, shop) ∷ [];
  transactions = (4, paid_for) ∷ (5, waiting) ∷ [];
  platform = some (record { pool_balance = 1000; pool_funded_total = 1000 });
  wallet_entries = [];
  redemptions = [];
  config = rates;
  clock_config = clocks;
  tasks = [];
  proofs = [];
  offers = [];
  commissions = [];
  allocations = [];
}

abbrev pub idle : CaptainWorkload
idle = record { pending = 1; in_progress = 0; awaiting_audit = 0 }

abbrev pub offered : ℕ → ℕ → Candidate
offered id score = record { id = id; captain = ravi; score = score }

abbrev own_clocks : StoredClocks
own_clocks = record {
  acceptance_minutes = none;
  completion_minutes = none;
  max_age_minutes = none;
  expiry_ack_minutes = none;
  confirmation_minutes = none;
}

abbrev label : Label
label = record {
  task_code = 84 ∷ [];
  customer_id = none;
  customer_name = 67 ∷ [];
  external_ref = 82 ∷ [];
}

abbrev nobody : Offering
nobody = record {
  offered_captain_id = none;
  offered_at = none;
  offer_expires_at = none;
  offered_captain_ids = [];
  open_pool_at = none;
  routing_stalled_at = none;
}

-- A pay-out of 100 rupees whose proof waits for the party's answer.
abbrev pub payout : Task
payout = record {
  party_id = 1;
  amount = 10000;
  status = audit_pending;
  captain_id = some 7;
  previous_captain_ids = [];
  reassignment_count = 0;
  provider_reference = some (85 ∷ []);
  label = label;
  price = record {
    party_commission = some 100;
    commission = some 60;
    admin_commission = some 40;
    party_rate = some 1000000;
    captain_rate = some 600000;
    captain_rate_agreed = some 600000;
  };
  clocks = own_clocks;
  times = record {
    created_at = 0;
    claimed_at = some 1;
    started_at = some 2;
    proof_submitted_at = some 3;
    audited_at = none;
    audited_by = none;
    completed_at = none;
    expires_at = some 900000;
    expiry_ack_deadline = none;
  };
  offer = nobody;
  confirmation = record { deadline = some 1200003; requested_at = some 3 };
  rejection = record {
    reason = none;
    category = none;
    rejected_captain_id = none;
    admin_resolution = none;
  };
  cancel = record {
    initiated_by = none;
    initiated_by_user_id = none;
    reason = none;
    pre_cancel_status = none;
    review_decision = none;
    review_reason = none;
    admin_resolution = none;
  };
  objection = record {
    disputed_at = none;
    reason = none;
    disputed_by = none;
    resolved_at = none;
    decision = none;
    resolution = none;
  };
  state_history = [];
}

abbrev pub payout_store : Store
payout_store = record shop_store { tasks = (9, payout) ∷ [] }

abbrev pub two_rows : NewRows
two_rows = record { captain_allocation = 101; platform_allocation = 102 }
