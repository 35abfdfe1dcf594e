-- ===== src/Store/Tasks.antt =====
-- The documents of the pay-out side: server/src/models/Task.ts, Proof.ts, TaskOffer.ts and
-- Commission.ts, and the clocks of services/taskClocks.service.ts. Fields of a task that are
-- written together stand together in a record of their own. The payout method, the receipt of a
-- proof, and where a callback goes are left out.
use flitepay.Prelude.{ℕ, Option, List, Text}
use flitepay.Machine.Task.{TaskState}

pub data Role : Type 0 where
  admin party captain system : Role

-- `ActorContext`
pub record ActorContext : Type 0 where
  pub user_id : ℕ
  pub role : Role

pub record TaskStateEvent : Type 0 where
  pub from : Option TaskState
  pub to : TaskState
  pub actor_user_id : Option ℕ
  pub actor_role : Role
  pub reason : Option Text
  pub captain_id : Option ℕ
  pub at : ℕ

-- Minutes; `none` where the task was written before tasks carried clocks.
pub record StoredClocks : Type 0 where
  pub acceptance_minutes : Option ℕ
  pub completion_minutes : Option ℕ
  pub max_age_minutes : Option ℕ
  pub expiry_ack_minutes : Option ℕ
  pub confirmation_minutes : Option ℕ

pub record ClockConfig : Type 0 where
  pub task_acceptance_minutes : ℕ
  pub task_completion_minutes : ℕ
  pub task_max_age_minutes : ℕ
  pub task_expiry_ack_minutes : ℕ
  pub customer_confirmation_minutes : ℕ

pub record Label : Type 0 where
  pub task_code : Text
  pub customer_id : Option ℕ
  pub customer_name : Text
  pub external_ref : Text

pub record Price : Type 0 where
  pub party_commission : Option ℕ
  pub commission : Option ℕ
  pub admin_commission : Option ℕ
  pub party_rate : Option ℕ
  pub captain_rate : Option ℕ
  pub captain_rate_agreed : Option ℕ

pub record Times : Type 0 where
  pub created_at : ℕ
  pub claimed_at : Option ℕ
  pub started_at : Option ℕ
  pub proof_submitted_at : Option ℕ
  pub audited_at : Option ℕ
  pub audited_by : Option ℕ
  pub completed_at : Option ℕ
  pub expires_at : Option ℕ
  pub expiry_ack_deadline : Option ℕ

-- Who the task is offered to, and who has had a turn.
pub record Offering : Type 0 where
  pub offered_captain_id : Option ℕ
  pub offered_at : Option ℕ
  pub offer_expires_at : Option ℕ
  pub offered_captain_ids : List ℕ
  pub open_pool_at : Option ℕ
  pub routing_stalled_at : Option ℕ

pub record Confirmation : Type 0 where
  pub deadline : Option ℕ
  pub requested_at : Option ℕ

pub data AdminResolution : Type 0 where
  approved reassigned : AdminResolution

-- server/src/utils/rejectionCategories.ts
pub data RejectionCategory : Type 0 where
  not_received wrong_destination wrong_amount proof_mismatch other : RejectionCategory

pub record Rejection : Type 0 where
  pub reason : Option Text
  pub category : Option RejectionCategory
  pub rejected_captain_id : Option ℕ
  pub admin_resolution : Option AdminResolution

pub data CancelSide : Type 0 where
  party captain : CancelSide

pub data ReviewDecision : Type 0 where
  approve reject : ReviewDecision

pub record Cancellation : Type 0 where
  pub initiated_by : Option CancelSide
  pub initiated_by_user_id : Option ℕ
  pub reason : Option Text
  pub pre_cancel_status : Option TaskState
  pub review_decision : Option ReviewDecision
  pub review_reason : Option Text
  pub admin_resolution : Option AdminResolution

pub data DisputeDecision : Type 0 where
  upheld rejected : DisputeDecision

-- A party's objection to a payout, and its answer.
pub record Objection : Type 0 where
  pub disputed_at : Option ℕ
  pub reason : Option Text
  pub disputed_by : Option ℕ
  pub resolved_at : Option ℕ
  pub decision : Option DisputeDecision
  pub resolution : Option Text

-- `state_history` holds its newest entry first.
pub record Task : Type 0 where
  pub party_id : ℕ
  pub amount : ℕ
  pub status : TaskState
  pub captain_id : Option ℕ
  pub previous_captain_ids : List ℕ
  pub reassignment_count : ℕ
  pub provider_reference : Option Text
  pub label : Label
  pub price : Price
  pub clocks : StoredClocks
  pub times : Times
  pub offer : Offering
  pub confirmation : Confirmation
  pub rejection : Rejection
  pub cancel : Cancellation
  pub objection : Objection
  pub state_history : List TaskStateEvent

pub record Proof : Type 0 where
  pub task_id : ℕ
  pub captain_id : ℕ
  pub provider_reference : Text
  pub notes : Option Text
  pub submitted_at : ℕ
  pub superseded_at : Option ℕ

pub data OfferStatus : Type 0 where
  offered accepted missed withdrawn : OfferStatus

pub record TaskOffer : Type 0 where
  pub task_id : ℕ
  pub captain_id : ℕ
  pub status : OfferStatus
  pub score : ℕ
  pub sequence : ℕ
  pub offered_at : ℕ
  pub expires_at : ℕ
  pub responded_at : Option ℕ
  pub response_seconds : Option ℕ

-- A row of the ledger of commissions; `taskId` is unique.
pub record CommissionEntry : Type 0 where
  pub captain_id : ℕ
  pub party_id : ℕ
  pub task_amount : ℕ
  pub commission : ℕ
  pub percentage_rate : ℕ
  pub config_version : ℕ
  pub earned_at : ℕ
