-- ===== src/Store/Documents.antt =====
-- The documents of server/src/models that the money services share: Captain.ts, Party.ts,
-- Transaction.ts, PlatformAccount.ts, WalletEntry.ts, DmcRedemption.ts.
use flitepay.Prelude.{ℕ, Bool, Option, List, Text}
use flitepay.Prelude.Int.{ℤ}
use flitepay.Prelude.Dict.{Dict}
use flitepay.Commission.{RateConfig, PartyRates, CaptainRates}
use flitepay.Machine.Transaction.{TransactionState}
use flitepay.Allocation.{Allocation}
use flitepay.Store.Tasks.{Task, Proof, TaskOffer, CommissionEntry, ClockConfig}

pub data CaptainStatus : Type 0 where
  active suspended : CaptainStatus

-- The counters behind a captain's rating.
pub record Record : Type 0 where
  pub tasks_completed : ℕ
  pub tasks_on_time : ℕ
  pub tasks_expired : ℕ
  pub proofs_rejected : ℕ
  pub rejections_upheld : ℕ
  pub offers_missed : ℕ
  pub offers_accepted : ℕ
  pub accept_seconds : ℕ

-- No decrement of a captain's balances runs without a guard or a clamp at zero, so they are
-- natural numbers. `rating` is in hundredths.
pub record Captain : Type 0 where
  pub status : CaptainStatus
  pub is_online : Bool
  pub collateral_balance : ℕ
  pub locked_amount : ℕ
  pub dmc_balance : ℕ
  pub commission_earned_total : ℕ
  pub credit_limit : Option ℕ
  pub rates : CaptainRates
  pub last_offered_at : Option ℕ
  pub track : Record
  pub rating : ℕ

-- A party's balance is incremented by the amount less the commission, which no guard keeps from
-- being negative: an integer.
pub record Party : Type 0 where
  pub dmc_balance : ℤ
  pub rates : PartyRates

pub record StateChange : Type 0 where
  pub from : Option TransactionState
  pub to : TransactionState
  pub at : ℕ
  pub by : Option ℕ
  pub reason : Option Text

-- `stateHistory` holds its newest entry first.
pub record Transaction : Type 0 where
  pub party_id : ℕ
  pub captain_id : Option ℕ
  pub party_reference : Text
  pub amount : ℕ
  pub party_commission : ℕ
  pub commission : ℕ
  pub party_commission_rate : ℕ
  pub commission_rate : ℕ
  pub commission_rate_agreed : ℕ
  pub commission_config_version : ℕ
  pub commission_paid : Bool
  pub status : TransactionState
  pub state_history : List StateChange
  pub gateway_order_id : Option Text
  pub gateway_qr_payload : Option Text
  pub settlement_reference : Option Text
  pub confirmed_at : Option ℕ
  pub settled_at : Option ℕ
  pub dispute_reason : Option Text
  pub failure_reason : Option Text
  pub previous_captain_ids : List ℕ
  pub expires_at : ℕ
  pub callback_url : Option Text
  pub created_by_key_id : Option Text

pub record PlatformAccount : Type 0 where
  pub pool_balance : ℕ
  pub pool_funded_total : ℕ

-- An entry of kind COMMISSION_EARNED, the only kind that the modelled code writes.
pub record WalletEntry : Type 0 where
  pub captain_id : ℕ
  pub amount : ℕ
  pub balance_after : ℕ
  pub source_reference : Option ℕ

pub data RedemptionStatus : Type 0 where
  pending paid rejected : RedemptionStatus

pub data PayoutFields : Type 0 where
  to_upi : Text → PayoutFields
  to_bank : Text → Text → Text → PayoutFields

pub record Redemption : Type 0 where
  pub captain_id : ℕ
  pub amount : ℕ
  pub commission_consumed : ℕ
  pub status : RedemptionStatus
  pub payout : PayoutFields
  pub payment_reference : Option Text
  pub payment_notes : Option Text
  pub rejection_reason : Option Text
  pub decided_by : Option ℕ
  pub decided_at : Option ℕ

-- The database. The platform account is `none` until its first use creates it.
pub record Store : Type 0 where
  pub captains : Dict Captain
  pub parties : Dict Party
  pub transactions : Dict Transaction
  pub platform : Option PlatformAccount
  pub wallet_entries : List WalletEntry
  pub redemptions : Dict Redemption
  pub config : RateConfig
  pub clock_config : ClockConfig
  pub tasks : Dict Task
  pub proofs : List Proof
  pub offers : List TaskOffer
  pub commissions : Dict CommissionEntry
  pub allocations : Dict Allocation
