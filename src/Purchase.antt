-- ===== src/Purchase.antt =====
-- server/src/services/captainLimitPurchase.service.ts: a captain buys capacity. Of the payment
-- that is quoted, and of its proof, only the reference and the notes are kept; the address and the
-- USDT amount (`openPayment`), the receipt and the audit records are left out.
pub mod Approval
pub mod Ledger
use flitepay.Prelude.{
  ℕ, ◌+◌, Bool, true, false, not, ◌&&◌, ◌||◌, Option, none, some, List, [], ◌∷◌, Text, trim, ltb,
  ◌==◌, if◌then◌else◌, get_or,
}
use flitepay.Prelude.Dict.{Dict, lookup, insert}
use flitepay.Errors.{
  Result, ok, err, bad_request, not_found_with, conflict, unprocessable, forbidden,
  validation_error, not_found, captain_not_found, withdrawal_request_pending,
  withdrawal_already_decided,
}
use flitepay.Store.{CaptainStatus, Captain}
use flitepay.Capacity.{is_active}
use flitepay.Balance.{is_blank, filled}

pub data PurchaseStatus : Type 0 where
  awaiting_payment pending approved rejected : PurchaseStatus

pub record LimitPurchase : Type 0 where
  pub captain_id : ℕ
  pub amount : ℕ
  pub collateral_at_request : ℕ
  pub status : PurchaseStatus
  pub proof_reference : Option Text
  pub proof_notes : Option Text
  pub marked_paid_at : Option ℕ
  pub decided_by : Option ℕ
  pub decided_at : Option ℕ
  pub rejection_reason : Option Text
  pub credited : Option ℕ

-- The two collections that the service works on.
pub record Books : Type 0 where
  pub captains : Dict Captain
  pub purchases : Dict LimitPurchase

abbrev pub is_open : PurchaseStatus → Bool
is_open awaiting_payment = true
is_open pending = true
is_open _ = false

abbrev pub is_pending : PurchaseStatus → Bool
is_pending pending = true
is_pending _ = false

abbrev pub is_draft : PurchaseStatus → Bool
is_draft awaiting_payment = true
is_draft _ = false

-- The `exists` query for an open purchase of the captain.
unfoldable pub has_pending : ℕ → Dict LimitPurchase → Bool
has_pending captain_id [] = false
has_pending captain_id ((id, p) ∷ rows) =
    (p.captain_id == captain_id && is_open p.status) || has_pending captain_id rows

pub record LimitPurchaseAllowance : Type 0 where
  pub collateral : ℕ
  pub max_purchase : ℕ
  pub pending_already : Bool

-- `limitPurchaseAllowance`
unfoldable pub limit_purchase_allowance : ℕ → Books → Result LimitPurchaseAllowance
unfolding has_pending
limit_purchase_allowance captain_id b = elim (lookup captain_id b.captains) [
  | none ↦ err (not_found_with captain_not_found)
  | some c ↦ ok (record {
    collateral = c.collateral_balance;
    max_purchase = c.collateral_balance;
    pending_already = has_pending captain_id b.purchases;
  })
]

abbrev pub draft : ℕ → ℕ → Captain → LimitPurchase
draft captain_id amount c = record {
  captain_id = captain_id;
  amount = amount;
  collateral_at_request = c.collateral_balance;
  status = awaiting_payment;
  proof_reference = none;
  proof_notes = none;
  marked_paid_at = none;
  decided_by = none;
  decided_at = none;
  rejection_reason = none;
  credited = none;
}

abbrev pub put_purchase : ℕ → LimitPurchase → Books → Books
put_purchase id p b = record b { purchases = insert id p b.purchases }

-- `requestLimitPurchase`
unfoldable pub request_limit_purchase : ℕ → ℕ → ℕ → Books → Result ℕ × Books
unfolding has_pending
request_limit_purchase new_id captain_id amount b =
    if amount == 0
    then (err (bad_request validation_error), b)
    else elim (lookup captain_id b.captains) [
      | none ↦ (err (not_found_with captain_not_found), b)
      | some c ↦
          if not (is_active c.status)
          then (err forbidden, b)
          else if ltb c.collateral_balance amount
          then (err (unprocessable validation_error), b)
          else if has_pending captain_id b.purchases
          then (err (conflict withdrawal_request_pending), b)
          else (ok new_id, put_purchase new_id (draft captain_id amount c) b)
    ]

-- `notes?.trim() || null`
abbrev trimmed_or_none : Option Text → Option Text
trimmed_or_none none = none
trimmed_or_none (some t) = let u = trim t in if is_blank u then none else some u

abbrev pub paid_row : Text → Option Text → ℕ → LimitPurchase → LimitPurchase
paid_row reference notes now p = record p {
  proof_reference = some (trim reference);
  proof_notes = trimmed_or_none notes;
  marked_paid_at = some now;
  status = pending;
}

-- `markLimitPurchasePaid`
unfoldable pub mark_limit_purchase_paid :
    ℕ → ℕ → Text → Option Text → ℕ → Books → Result LimitPurchase × Books
mark_limit_purchase_paid id captain_id reference notes now b = elim (lookup id b.purchases) [
  | none ↦ (err (not_found_with not_found), b)
  | some p ↦
      if p.captain_id == captain_id && is_draft p.status
      then (ok (paid_row reference notes now p), put_purchase id (paid_row reference notes now p) b)
      else (err (not_found_with not_found), b)
]

-- The conditional update of a decision.
unfoldable pub decide_purchase :
    ℕ → (LimitPurchase → LimitPurchase) → Books → Result LimitPurchase × Books
decide_purchase id set b = elim (lookup id b.purchases) [
  | none ↦ (err (conflict withdrawal_already_decided), b)
  | some p ↦
      if is_pending p.status
      then (ok (set p), put_purchase id (set p) b)
      else (err (conflict withdrawal_already_decided), b)
]

abbrev pub approved_row : ℕ → ℕ → LimitPurchase → LimitPurchase
approved_row actor now p = record p {
  status = approved;
  decided_by = some actor;
  decided_at = some now;
}

-- The pipeline update of an approval: DMC and ceiling rise by the same figure.
abbrev pub enlarge : ℕ → Captain → Captain
enlarge amount c = record c {
  dmc_balance = c.dmc_balance + amount;
  credit_limit = some (get_or c.credit_limit c.collateral_balance + amount);
}

abbrev pub credited_row : LimitPurchase → LimitPurchase
credited_row p = record p { credited = some p.amount }

unfoldable pub credit_purchase : ℕ → LimitPurchase → Books → Result LimitPurchase × Books
credit_purchase id p b = elim (lookup p.captain_id b.captains) [
  | none ↦ (err (not_found_with captain_not_found), b)
  | some c ↦ (
    ok (credited_row p),
    put_purchase id (credited_row p)
        (record b { captains = insert p.captain_id (enlarge p.amount c) b.captains }),
  )
]

-- `approveLimitPurchase`; an id that is not one is `none`.
unfoldable pub approve_limit_purchase : Option ℕ → ℕ → ℕ → Books → Result LimitPurchase × Books
unfolding decide_purchase credit_purchase
approve_limit_purchase none actor now b = (err (not_found_with not_found), b)
approve_limit_purchase (some id) actor now b =
    let (r, b') = decide_purchase id (approved_row actor now) b in
    elim r [ err e ↦ (err e, b') | ok p ↦ credit_purchase id p b' ]

abbrev pub rejected_row : Text → ℕ → ℕ → LimitPurchase → LimitPurchase
rejected_row reason actor now p = record p {
  status = rejected;
  rejection_reason = some reason;
  decided_by = some actor;
  decided_at = some now;
}

-- `rejectLimitPurchase`
unfoldable pub reject_limit_purchase :
    Option ℕ → Option Text → ℕ → ℕ → Books → Result LimitPurchase × Books
unfolding decide_purchase
reject_limit_purchase none reason actor now b = (err (not_found_with not_found), b)
reject_limit_purchase (some id) reason actor now b = elim (filled reason) [
  | none ↦ (err (bad_request validation_error), b)
  | some trimmed ↦ decide_purchase id (rejected_row trimmed actor now) b
]
