-- ===== src/Engine.antt =====
-- server/src/services/transaction.service.ts: the life of a pay-in. Every operation reads the
-- transaction, claims its state change against the state it read, and only then moves money.
-- What it read may be out of date when it claims, so each operation is split: `…_from` is the
-- claim and what follows, with the state that was read as an argument. `supports` is
-- `supportsTransactions()`, `actor` the id of the user who acts, `now` the time. The one-member
-- direction is left out, as are the code that numbers a transaction, the audit records and the
-- plain reads at the end.
pub mod Endings
pub mod Assign
pub mod Create
pub mod Worth
pub mod Claims
pub mod Money
pub mod Conservation
pub mod Refunds
pub mod Settling
pub mod Holding
pub mod Assigning
pub mod Creating
pub mod Steps
pub mod Rows
pub mod Lives
pub mod Changes
pub mod History
pub mod Outcomes
pub mod Payment
pub mod Idempotence
pub mod Sweep
pub mod FailedHold
use flitepay.Prelude.{
  ℕ, ◌+◌, ◌-◌, Bool, true, false, not, ◌&&◌, ◌||◌, Option, none, some, List, [], ◌∷◌, Text, trim,
  ltb, leb, ◌==◌, if◌then◌else◌, includes, ◌++◌,
}
use flitepay.Prelude.Int.{pos, ◌+ℤ◌, ◌-ℤ◌}
use flitepay.Prelude.Dict.{lookup, insert}
use flitepay.Errors.{
  Result, ok, err, bad_request, not_found_with, conflict, validation_error, transaction_not_found,
  invalid_state_transition,
}
use flitepay.Machine.Transaction.{
  TransactionState, created, assigned, awaiting_customer, confirmed, settled, expired, cancelled,
  disputed, same, assert_transition,
}
use flitepay.Store.{
  Captain, Party, StateChange, Transaction, Store, Action, pure, raise, gets, lift, or_raise,
  atomically, raise_if, modify, ◌>>=◌, ◌>>◌,
}
use flitepay.Pool.{collect_into_pool}
use flitepay.Balance.{filled, pay_commission_to_captain}

-- What a claim records beside the change of state.
abbrev pub change : TransactionState → TransactionState → Option ℕ → Option Text → ℕ → StateChange
change from to by reason at = record {
  from = some from;
  to = to;
  at = at;
  by = by;
  reason = reason;
}

abbrev pub put : ℕ → Transaction → Store → Store
put id t s = record s { transactions = insert id t s.transactions }

abbrev pub move :
    TransactionState
    → TransactionState
    → (Transaction → Transaction)
    → Option ℕ
    → Option Text
    → ℕ
    → Transaction
    → Transaction
move from to set by reason now t = record (set t) {
  status = to;
  state_history = change from to by reason now ∷ t.state_history;
}

-- `findOneAndUpdate({ _id, status: from }, …)`: `none` when somebody else got there first.
pub compare_and_move :
    ℕ → TransactionState → (Transaction → Transaction) → Action (Option Transaction)
compare_and_move id from update s = elim (lookup id s.transactions) [
  | none ↦ (ok none, s)
  | some t ↦
      if same t.status from then (ok (some (update t)), put id (update t) s) else (ok none, s)
]

-- `claim`
pub claim :
    ℕ
    → TransactionState
    → TransactionState
    → (Transaction → Transaction)
    → Option ℕ
    → Option Text
    → ℕ
    → Action (Option Transaction)
unfolding compare_and_move
claim id from to set by reason now = do
  lift (assert_transition from to)
  compare_and_move id from (move from to set by reason now)

-- `loadOrThrow`
pub load : ℕ → Action Transaction
load id s = or_raise (lookup id s.transactions) (not_found_with transaction_not_found) s

-- After a claim: the claimed document; or, if the claim was lost, the current one where its state
-- is what was wanted, and a conflict where it is not.
pub conclude : ℕ → (TransactionState → Bool) → Option Transaction → Action Transaction
unfolding load
conclude id wanted (some t) = pure t
conclude id wanted none = do
  current ← load id
  raise_if (not (wanted current.status)) (conflict invalid_state_transition)
  pure current

abbrev pub with_gateway : Option Text → Option Text → Transaction → Transaction
with_gateway order_id qr_payload t = record t {
  gateway_order_id = order_id;
  gateway_qr_payload = qr_payload;
}

abbrev pub with_confirmation : Text → ℕ → Transaction → Transaction
with_confirmation reference now t = record t {
  settlement_reference = some reference;
  confirmed_at = some now;
}

abbrev pub with_settlement : ℕ → Transaction → Transaction
with_settlement now t = record t { settled_at = some now }

-- `const won = await claim(…); if (won) { …; } return won;`, where what follows may replace the
-- document.
pub if_won :
    (Transaction → Action Transaction) → Action (Option Transaction) → Action (Option Transaction)
if_won k m s =
    let (r, s') = m s in
    elim r [
      | err e ↦ (err e, s')
      | ok none ↦ (ok none, s')
      | ok (some won) ↦ (do t ← k won; pure (some t)) s'
    ]

-- `openToCustomer`
unfoldable pub open_to_customer : ℕ → Option Text → Option Text → ℕ → Action Transaction
unfolding claim conclude
open_to_customer id order_id qr_payload now = do
  claimed ← claim id assigned awaiting_customer (with_gateway order_id qr_payload) none none now
  conclude id (same awaiting_customer) claimed

-- `confirmMovement`
unfoldable pub confirm_movement : ℕ → Option Text → Option ℕ → ℕ → Action Transaction
unfolding claim conclude
confirm_movement id settlement_reference actor now = do
  reference ← or_raise (filled settlement_reference) (bad_request validation_error)
  claimed ← claim id awaiting_customer confirmed (with_confirmation reference now) actor none now
  conclude id (λ st. same confirmed st || same settled st) claimed

-- `Captain.updateOne({ _id }, { $inc: { dmcBalancePaise: amount } })`
pub credit_captain : ℕ → ℕ → Action (Unit {0})
credit_captain captain_id amount s = elim (lookup captain_id s.captains) [
  | none ↦ (ok tt, s)
  | some c ↦ (
    ok tt,
    record s {
      captains = insert captain_id (record c { dmc_balance = c.dmc_balance + amount }) s.captains;
    },
  )
]

abbrev pub same_captain : Option ℕ → ℕ → Bool
same_captain none captain_id = false
same_captain (some c) captain_id = c == captain_id

-- `$addToSet`
abbrev add_to_set : ℕ → List ℕ → List ℕ
add_to_set x xs = if includes ◌==◌ xs x then xs else xs ++ x ∷ []

abbrev pub hand_back : ℕ → Option ℕ → Text → ℕ → Transaction → Transaction
hand_back captain_id by reason now t = record t {
  status = created;
  captain_id = none;
  previous_captain_ids = add_to_set captain_id t.previous_captain_ids;
  state_history = change assigned created by (some reason) now ∷ t.state_history;
}

-- The claim of `declineAsCaptain`, whose filter names the captain too.
pub claim_decline : ℕ → ℕ → Option ℕ → Text → ℕ → Action (Option Transaction)
claim_decline id captain_id by reason now s = elim (lookup id s.transactions) [
  | none ↦ (ok none, s)
  | some t ↦
      if same t.status assigned && same_captain t.captain_id captain_id
      then (
        ok (some (hand_back captain_id by reason now t)),
        put id (hand_back captain_id by reason now t) s,
      )
      else (ok none, s)
]

pub decline_body : ℕ → ℕ → Option ℕ → Text → ℕ → Action (Option Transaction)
decline_body id captain_id by reason now =
    if_won (λ won. do credit_captain captain_id won.amount; pure won)
      (claim_decline id captain_id by reason now)

-- What `declineAsCaptain` does once its checks have passed.
unfoldable pub decline_from : Bool → ℕ → ℕ → Text → Option ℕ → ℕ → Action Transaction
unfolding decline_body conclude
decline_from supports id captain_id reason actor now = do
  released ← atomically supports (decline_body id captain_id actor reason now)
  conclude id (λ _. false) released

-- `declineAsCaptain`
unfoldable pub decline_as_captain : Bool → ℕ → ℕ → Option Text → Option ℕ → ℕ → Action Transaction
unfolding load decline_from
decline_as_captain supports id captain_id reason actor now = do
  trimmed ← or_raise (filled reason) (bad_request validation_error)
  before ← load id
  raise_if (not (same_captain before.captain_id captain_id)) (not_found_with transaction_not_found)
  raise_if (not (same before.status assigned)) (conflict invalid_state_transition)
  decline_from supports id captain_id trimmed actor now

-- `Party.updateOne({ _id }, { $inc: { dmcBalancePaise: amount - commission } })`
pub credit_party : ℕ → ℕ → ℕ → Action (Unit {0})
credit_party party_id amount commission s = elim (lookup party_id s.parties) [
  | none ↦ (ok tt, s)
  | some p ↦ (
    ok tt,
    record s {
      parties =
          insert party_id
            (record p { dmc_balance = p.dmc_balance +ℤ (pos amount -ℤ pos commission) }) s.parties;
    },
  )
]

-- `if (won.partyCommissionPaise > 0) await collectIntoPool(…)`
pub collect_commission : ℕ → Action (Unit {0})
collect_commission commission s =
    if ltb 0 commission then collect_into_pool commission s else (ok tt, s)

-- Whether the captain's commission is paid.
pub pay_captain : Bool → ℕ → Transaction → Action Bool
pay_captain session id t s = if t.commission == 0 then (ok true, s) else elim t.captain_id [
  | none ↦ (ok false, s)
  | some c ↦ pay_commission_to_captain c t.commission session (some id) s
]

abbrev pub same_bool : Bool → Bool → Bool
same_bool true b = b
same_bool false b = not b

-- The flag is written where it differs.
pub note_paid : ℕ → Transaction → Bool → Action Transaction
note_paid id t paid s = if same_bool paid t.commission_paid then (ok t, s) else (
  ok (record t { commission_paid = paid }),
  elim (lookup id s.transactions) [
    | none ↦ s
    | some u ↦ put id (record u { commission_paid = paid }) s
  ],
)

-- The money of a settlement.
pub settle_money : Bool → ℕ → Transaction → Action Transaction
settle_money session id t = do
  credit_party t.party_id t.amount t.party_commission
  collect_commission t.party_commission
  paid ← pay_captain session id t
  note_paid id t paid

pub settle_body : Bool → ℕ → TransactionState → Option ℕ → ℕ → Action (Option Transaction)
settle_body session id from actor now =
    if_won (settle_money session id) (claim id from settled (with_settlement now) actor none now)

-- `settle` once the state has been read.
unfoldable pub settle_from : Bool → ℕ → TransactionState → Option ℕ → ℕ → Action Transaction
unfolding settle_body conclude
settle_from supports id from actor now = do
  outcome ← atomically supports (settle_body supports id from actor now)
  conclude id (same settled) outcome

-- `settle`
unfoldable pub settle : Bool → ℕ → Option ℕ → ℕ → Action Transaction
unfolding load settle_from
settle supports id actor now = do
  before ← load id
  settle_from supports id (if same before.status disputed then disputed else confirmed) actor now
