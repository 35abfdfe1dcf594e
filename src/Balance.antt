-- ===== src/Balance.antt =====
-- server/src/services/captainBalance.service.ts: commission paid to a captain, and DMC back to
-- rupees. The three lists of requests and entries are plain reads and left out. An id that
-- arrives as a string is `none` where the source finds it to be no ObjectId. Creating a document
-- is a call of the database; `fault` says whether it fails.
pub mod Commission
pub mod Requests
use Prim.Native.Nat.{min}
use flitepay.Prelude.{
  ℕ, ◌+◌, ◌-◌, Bool, true, false, not, ◌||◌, Option, none, some, List, [], ◌∷◌, Text, trim, leb,
  ◌==◌, if◌then◌else◌,
}
use flitepay.Prelude.Dict.{lookup, insert}
use flitepay.Errors.{
  Result, ok, err, AppError, bad_request, not_found_with, conflict, internal, validation_error,
  captain_not_found, redemption_not_found, redemption_already_decided, insufficient_dmc_balance,
}
use flitepay.Store.{
  Captain, WalletEntry, RedemptionStatus, pending, paid, rejected, PayoutFields, to_upi, to_bank,
  Redemption, Store, Action, pure, raise, gets, lift, or_raise, catch, atomically, raise_if, modify,
  ◌>>=◌, ◌>>◌,
}
use flitepay.Pool.{pay_commission_from_pool, collect_into_pool}

-- `assertWholePaise`: a natural number is whole.
abbrev pub assert_whole_paise : ℕ → Action (Unit {0})
assert_whole_paise amount = raise_if (amount == 0) (bad_request validation_error)

abbrev pub put_captain : ℕ → Captain → Store → Store
put_captain id c s = record s { captains = insert id c s.captains }

abbrev pub earn : ℕ → Captain → Captain
earn amount c = record c {
  dmc_balance = c.dmc_balance + amount;
  commission_earned_total = c.commission_earned_total + amount;
}

-- The `try` of `payCommissionToCaptain`: the credit and its ledger entry.
credit_captain : ℕ → ℕ → Option ℕ → Action (Unit {0})
credit_captain captain_id amount source s = elim (lookup captain_id s.captains) [
  | none ↦ (err (not_found_with captain_not_found), s)
  | some c ↦ (
    ok tt,
    record s {
      captains = insert captain_id (earn amount c) s.captains;
      wallet_entries =
          record {
            captain_id = captain_id;
            amount = amount;
            balance_after = c.dmc_balance + amount;
            source_reference = source;
          }
          ∷ s.wallet_entries;
    },
  )
]

-- Its `catch`.
abbrev refill : Bool → ℕ → AppError → Action (Unit {0})
refill true amount e = raise e
refill false amount e = collect_into_pool amount >> raise e

-- `payCommissionToCaptain`. With a session, the database transaction around it undoes a failed
-- credit; without one the handler puts the money back into the pool.
unfoldable pub pay_commission_to_captain : ℕ → ℕ → Bool → Option ℕ → Action Bool
unfolding credit_captain
pay_commission_to_captain captain_id amount session source s =
    if amount == 0
    then (ok true, s)
    else let (r, s') = pay_commission_from_pool amount s in
      elim r [
        | err e ↦ (err e, s')
        | ok false ↦ (ok false, s')
        | ok true ↦
            (do catch (credit_captain captain_id amount source) (refill session amount); pure true)
              s'
      ]

abbrev pub is_blank : Text → Bool
is_blank [] = true
is_blank (c ∷ cs) = false

-- `value?.trim()`, which must not be missing or empty.
abbrev pub filled : Option Text → Option Text
filled none = none
filled (some t) = let u = trim t in if is_blank u then none else some u

-- `PayoutDestination`
pub data Destination : Type 0 where
  upi : Option Text → Destination
  bank : Option Text → Option Text → Option Text → Destination

abbrev bank_fields : Option Text → Option Text → Option Text → Result PayoutFields
bank_fields (some name) (some number) (some ifsc) = ok (to_bank name number ifsc)
bank_fields _ _ _ = err (bad_request validation_error)

-- `normaliseDestination`
unfoldable pub normalise_destination : Destination → Result PayoutFields
normalise_destination (upi id) = elim (filled id) [
  | some t ↦ ok (to_upi t)
  | none ↦ err (bad_request validation_error)
]
normalise_destination (bank name number ifsc) =
    bank_fields (filled name) (filled number) (filled ifsc)

-- The pipeline update of `requestRedemption`: the withdrawal eats retained commission first.
abbrev pub withdraw : ℕ → Captain → Captain
withdraw amount c = record c {
  dmc_balance = c.dmc_balance - amount;
  commission_earned_total = c.commission_earned_total - amount;
}

-- The first half of `hold`: the conditional debit. It returns the commission consumed.
debit_captain : ℕ → ℕ → Action ℕ
debit_captain captain_id amount s = elim (lookup captain_id s.captains) [
  | none ↦ (err (not_found_with captain_not_found), s)
  | some c ↦
      if leb amount c.dmc_balance
      then (
        ok (min amount c.commission_earned_total),
        record s { captains = insert captain_id (withdraw amount c) s.captains },
      )
      else (err (bad_request insufficient_dmc_balance), s)
]

-- The second half: the request's row.
create_redemption : Bool → ℕ → Redemption → Action ℕ
create_redemption fault new_id row s =
    if fault
    then (err internal, s)
    else (ok new_id, record s { redemptions = insert new_id row s.redemptions })

abbrev pub restore : ℕ → ℕ → Captain → Captain
restore amount consumed c = record c {
  dmc_balance = c.dmc_balance + amount;
  commission_earned_total = c.commission_earned_total + consumed;
}

-- `Captain.findByIdAndUpdate(id, { $inc: … })`: a captain who is not there is passed over.
give_back : ℕ → ℕ → ℕ → Action (Unit {0})
give_back captain_id amount consumed s = elim (lookup captain_id s.captains) [
  | none ↦ (ok tt, s)
  | some c ↦
      (ok tt, record s { captains = insert captain_id (restore amount consumed c) s.captains })
]

abbrev new_redemption : ℕ → ℕ → ℕ → PayoutFields → Redemption
new_redemption captain_id amount consumed payout = record {
  captain_id = captain_id;
  amount = amount;
  commission_consumed = consumed;
  status = pending;
  payout = payout;
  payment_reference = none;
  payment_notes = none;
  rejection_reason = none;
  decided_by = none;
  decided_at = none;
}

-- How `requestRedemption` holds the money. With transactions a failed insert rolls the debit
-- back; without them the `catch` gives both halves back.
hold_redemption : Bool → Bool → ℕ → ℕ → ℕ → PayoutFields → Action ℕ
unfolding debit_captain create_redemption give_back
hold_redemption true fault new_id captain_id amount payout = atomically true do
  consumed ← debit_captain captain_id amount
  create_redemption fault new_id (new_redemption captain_id amount consumed payout)
hold_redemption false fault new_id captain_id amount payout = do
  consumed ← debit_captain captain_id amount
  catch (create_redemption fault new_id (new_redemption captain_id amount consumed payout))
      (λ e. give_back captain_id amount consumed >> raise e)

-- `requestRedemption`: `supports` is `supportsTransactions()`, and `new_id` the id of the row.
unfoldable pub request_redemption : Bool → Bool → ℕ → ℕ → ℕ → Destination → Action ℕ
unfolding hold_redemption
request_redemption supports fault new_id captain_id amount destination = do
  assert_whole_paise amount
  payout ← lift (normalise_destination destination)
  hold_redemption supports fault new_id captain_id amount payout

abbrev is_pending : RedemptionStatus → Bool
is_pending pending = true
is_pending _ = false

-- `DmcRedemption.findOneAndUpdate({ _id, status: 'PENDING' }, …)`
claim_redemption : ℕ → (Redemption → Redemption) → Action Redemption
claim_redemption id update s = elim (lookup id s.redemptions) [
  | none ↦ (err (conflict redemption_already_decided), s)
  | some r ↦
      if is_pending r.status
      then (ok (update r), record s { redemptions = insert id (update r) s.redemptions })
      else (err (conflict redemption_already_decided), s)
]

abbrev pub pay_row : Text → Option Text → ℕ → ℕ → Redemption → Redemption
pay_row reference notes actor now r = record r {
  status = paid;
  payment_reference = some reference;
  payment_notes = elim notes [ none ↦ none | some t ↦ some (trim t) ];
  decided_by = some actor;
  decided_at = some now;
}

abbrev pub reject_row : Text → ℕ → ℕ → Redemption → Redemption
reject_row reason actor now r = record r {
  status = rejected;
  rejection_reason = some reason;
  decided_by = some actor;
  decided_at = some now;
}

-- `markRedemptionPaid`
unfoldable pub mark_redemption_paid :
    Option ℕ → Option Text → Option Text → ℕ → ℕ → Action Redemption
unfolding claim_redemption
mark_redemption_paid request_id reference notes actor now = do
  id ← or_raise request_id (not_found_with redemption_not_found)
  paid_by ← or_raise (filled reference) (bad_request validation_error)
  claim_redemption id (λ r. record r {
    status = paid;
    payment_reference = some paid_by;
    payment_notes = elim notes [ none ↦ none | some t ↦ some (trim t) ];
    decided_by = some actor;
    decided_at = some now;
  })

-- `rejectRedemption`
unfoldable pub reject_redemption : Option ℕ → Option Text → ℕ → ℕ → Action Redemption
unfolding claim_redemption give_back
reject_redemption request_id reason actor now = do
  id ← or_raise request_id (not_found_with redemption_not_found)
  why ← or_raise (filled reason) (bad_request validation_error)
  r ← claim_redemption id (λ r. record r {
    status = rejected;
    rejection_reason = some why;
    decided_by = some actor;
    decided_at = some now;
  })
  give_back r.captain_id r.amount r.commission_consumed
  pure r
