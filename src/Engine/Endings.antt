-- ===== src/Engine/Endings.antt =====
-- The ways a transaction ends without settling (server/src/services/transaction.service.ts), and
-- the sweep over overdue ones (services/transactionSweep.service.ts).
use flitepay.Prelude.{
  ℕ, Bool, not, ◌&&◌, Option, none, some, List, [], ◌∷◌, Text, leb, ◌+◌, if◌then◌else◌, includes,
  filter_by, map,
}
use flitepay.Prelude.Dict.{Dict}
use flitepay.Prelude.Sorting.{take, sort_by}
use flitepay.Errors.{ok, err, bad_request, conflict, validation_error, invalid_state_transition}
use flitepay.Machine.Transaction.{
  TransactionState, created, assigned, awaiting_customer, confirmed, expired, cancelled, disputed,
  same,
}
use flitepay.Store.{Transaction, Store, Action, pure, atomically, raise_if, ◌>>=◌, ◌>>◌}
use flitepay.Balance.{filled}
use flitepay.Engine.{claim, if_won, load, conclude, credit_captain, settle}

-- `releaseHold`
unfoldable pub release_hold : Transaction → TransactionState → Action (Unit {0})
unfolding credit_captain
release_hold t held_from s =
    if includes same (assigned ∷ awaiting_customer ∷ confirmed ∷ disputed ∷ []) held_from
    then elim t.captain_id [ none ↦ (ok tt, s) | some c ↦ credit_captain c t.amount s ]
    else (ok tt, s)

abbrev pub with_failure : Text → Transaction → Transaction
with_failure reason t = record t { failure_reason = some reason }

abbrev pub with_dispute : Text → Transaction → Transaction
with_dispute reason t = record t { dispute_reason = some reason }

-- The body that `expire` and `cancel` run: the claim, and the release of what was held.
unfoldable pub end_body :
    ℕ → TransactionState → TransactionState → Text → Option ℕ → ℕ → Action (Option Transaction)
end_body id from to reason actor now =
    if_won (λ won. do release_hold won from; pure won)
      (claim id from to (with_failure reason) actor (some reason) now)

-- `expire` or `cancel` once the state has been read.
unfoldable pub end_from :
    Bool → ℕ → TransactionState → TransactionState → Text → Option ℕ → ℕ → Action Transaction
unfolding end_body conclude
end_from supports id from to reason actor now = do
  claimed ← atomically supports (end_body id from to reason actor now)
  conclude id (same to) claimed

-- Reading the transaction, and returning it where it is there already.
unfoldable pub end_as : TransactionState → Bool → ℕ → Text → Option ℕ → ℕ → Action Transaction
unfolding load end_from
end_as to supports id reason actor now s =
    let (r, s') = load id s in
    elim r [
      | err e ↦ (err e, s')
      | ok before ↦
          if same before.status to
          then (ok before, s')
          else end_from supports id before.status to reason actor now s'
    ]

-- `expire`
unfoldable pub expire : Bool → ℕ → Text → Option ℕ → ℕ → Action Transaction
unfolding end_as
expire = end_as expired

-- `cancel`
unfoldable pub cancel : Bool → ℕ → Text → Option ℕ → ℕ → Action Transaction
unfolding end_as
cancel = end_as cancelled

-- `dispute` once the state has been read.
unfoldable pub dispute_from : ℕ → TransactionState → Text → Option ℕ → ℕ → Action Transaction
unfolding claim conclude
dispute_from id from reason actor now = do
  claimed ← claim id from disputed (with_dispute reason) actor (some reason) now
  conclude id (same disputed) claimed

-- `dispute`
unfoldable pub dispute : ℕ → Option Text → Option ℕ → ℕ → Action Transaction
unfolding load dispute_from
dispute id reason actor now s = elim (filled reason) [
  | none ↦ (err (bad_request validation_error), s)
  | some trimmed ↦
      let (r, s') = load id s in
      elim r [
        | err e ↦ (err e, s')
        | ok before ↦
            if same before.status disputed
            then (ok before, s')
            else dispute_from id before.status trimmed actor now s'
      ]
]

pub data Decision : Type 0 where
  settle_it release_it : Decision

abbrev decide : Decision → Bool → ℕ → Text → ℕ → ℕ → Action Transaction
decide settle_it supports id reason actor now = settle supports id (some actor) now
decide release_it supports id reason actor now = expire supports id reason (some actor) now

-- `resolveDispute`
unfoldable pub resolve_dispute : Bool → ℕ → Decision → Text → ℕ → ℕ → Action Transaction
unfolding load settle expire
resolve_dispute supports id decision reason actor now = do
  before ← load id
  raise_if (not (same before.status disputed)) (conflict invalid_state_transition)
  decide decision supports id reason actor now

abbrev pub is_overdue : ℕ → Transaction → Bool
is_overdue now t =
    includes same (created ∷ assigned ∷ awaiting_customer ∷ []) t.status && leb t.expires_at now

abbrev pub due : ℕ → Dict Transaction → Dict Transaction
due now = filter_by λ e. is_overdue now e.1

-- The query of `expireOverdueTransactions`: the first to run out come first, and no more than the
-- limit.
unfoldable pub overdue_rows : ℕ → ℕ → Dict Transaction → Dict Transaction
overdue_rows now limit d = take limit (sort_by (λ e. e.1.expires_at) (due now d))

abbrev pub overdue : ℕ → ℕ → Dict Transaction → List ℕ
overdue now limit d = map (λ e. e.0) (overdue_rows now limit d)

-- Its loop over those rows: an error is caught and the row passed over.
unfoldable pub expire_all : Bool → Text → ℕ → List ℕ → ℕ → Store → ℕ × Store
unfolding expire
expire_all supports reason now [] expired_count s = (expired_count, s)
expire_all supports reason now (id ∷ ids) expired_count s =
    let (r, s') = expire supports id reason none now s in
    expire_all supports reason now ids (elim r [ ok t ↦ expired_count + 1 | err e ↦ expired_count ])
      s'
