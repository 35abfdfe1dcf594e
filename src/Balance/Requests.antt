-- ===== src/Balance/Requests.antt =====
-- A redemption request holds the money once, and each of its ends moves what it says.
use Prim.Native.Nat.{min, max}
use flitepay.Prelude.{ℕ, ◌-◌, ◌≤◌, ◌<◌, ◌≡◌, true, false, Bool, none, some, arith, Text}
use flitepay.Prelude.Dict.{lookup, insert, lookup-insert, insert_back}
use flitepay.Errors.{
  ok, err, internal, conflict, redemption_already_decided, bad_request, insufficient_dmc_balance,
}
use flitepay.Store.{Captain, PayoutFields, Store, pending}
use flitepay.Capacity.{current_limit_paise, ceiling_paise}
use flitepay.Balance.{
  Destination, filled, normalise_destination, withdraw, restore, reject_row, new_redemption,
  request_redemption, mark_redemption_paid, reject_redemption,
}

-- The store once the request is made.
abbrev pub requested : ℕ → ℕ → ℕ → PayoutFields → Captain → Store → Store
requested new_id id amount payout c s = record s {
  captains =
      insert id
        (record c {
          dmc_balance = c.dmc_balance - amount;
          commission_earned_total = c.commission_earned_total - amount;
        })
        s.captains;
  redemptions =
      insert new_id
        (record {
          captain_id = id;
          amount = amount;
          commission_consumed = min amount c.commission_earned_total;
          status = pending;
          payout = payout;
          payment_reference = none;
          payment_notes = none;
          rejection_reason = none;
          decided_by = none;
          decided_at = none;
        })
        s.redemptions;
}

restore-withdraw :
    (amount : ℕ) (c : Captain)
    → amount ≤ c.dmc_balance
    → restore amount (min amount c.commission_earned_total) (withdraw amount c) ≡ c
restore-withdraw amount c h = ground arith

module _ (new_id id amount : ℕ) (destination : Destination) {payout : PayoutFields} (s : Store)
    {c : Captain} (positive : 0 < amount) (given : normalise_destination destination ≡ ok payout)
    (found : lookup id s.captains ≡ some c) where
  -- A request that the balance covers takes the amount out of the balance and out of the retained
  -- commission at once, as far as there is any, and puts a pending row on record for it with the
  -- commission that it consumed.
  pub request_redemption_ok :
      (supports : Bool)
      → amount ≤ c.dmc_balance
      → request_redemption supports false new_id id amount destination s
        ≡ (ok new_id, requested new_id id amount payout c s)
  unfolding request_redemption
  request_redemption_ok true covered = ground arith
  request_redemption_ok false covered = ground arith

  -- A request beyond the balance is refused and changes nothing.
  pub request_redemption_short :
      (supports fault : Bool)
      → c.dmc_balance < amount
      → request_redemption supports fault new_id id amount destination s
        ≡ (err (bad_request insufficient_dmc_balance), s)
  unfolding request_redemption
  request_redemption_short true fault short = ground arith
  request_redemption_short false fault short = ground arith

  -- Where the request's row cannot be written, the database is left exactly as it was, with
  -- transactions or without.
  pub request_redemption_fault :
      (supports : Bool)
      → amount ≤ c.dmc_balance
      → request_redemption supports true new_id id amount destination s ≡ (err internal, s)
  unfolding request_redemption
  request_redemption_fault true covered = ground arith
  request_redemption_fault false covered = ground (
    arith,
    restore-withdraw amount c,
    lookup-insert id id (withdraw amount c) s.captains,
    insert_back id c (withdraw amount c) s.captains,
  )

  -- After a rejection of the request every captain's document is what it was before the request,
  -- and the request is no longer pending: a second decision of either kind is refused and changes
  -- nothing.
  pub reject-request :
      (reason : Text) {why : Text} (actor now : ℕ)
      → amount ≤ c.dmc_balance
      → filled (some reason) ≡ some why
      → let s' =
          (reject_redemption
            (some new_id)
            (some reason)
            actor
            now
            (requested new_id id amount payout c s)).1 in
        (s'.captains ≡ s.captains)
        × (reject_redemption (some new_id) (some reason) actor now s'
            ≡ (err (conflict redemption_already_decided), s'))
        × (mark_redemption_paid (some new_id) (some reason) none actor now s'
            ≡ (err (conflict redemption_already_decided), s'))
  unfolding reject_redemption mark_redemption_paid
  reject-request reason {why} actor now covered said =
      let row = new_redemption id amount (min amount c.commission_earned_total) payout in
      let closed = reject_row why actor now row in
      ground (
        arith,
        restore-withdraw amount c,
        lookup-insert id id (withdraw amount c) s.captains,
        insert_back id c (withdraw amount c) s.captains,
        lookup-insert new_id new_id row s.redemptions,
        lookup-insert new_id new_id closed (insert new_id row s.redemptions),
      )

-- A withdrawal spends the captain's retained commission before their working capital: the limit
-- falls only by what the withdrawal takes beyond the commission.
pub current_limit-withdraw :
    (amount : ℕ) (c : Captain)
    → current_limit_paise (withdraw amount c)
      ≡ min (ceiling_paise c) (c.dmc_balance - max amount c.commission_earned_total)
unfolding current_limit_paise
current_limit-withdraw amount c = ground arith
