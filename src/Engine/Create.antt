-- ===== src/Engine/Create.antt =====
-- Creating a pay-in (server/src/services/transaction.service.ts: `createPayIn`,
-- `createTransaction`). The result is the id of the row and whether it was created by this call.
use flitepay.Prelude.{
  ℕ, ◌+◌, ◌*◌, Bool, true, false, ◌&&◌, Option, none, some, [], ◌∷◌, Text, ◌==◌, if◌then◌else◌,
}
use flitepay.Prelude.Dict.{Dict, lookup}
use flitepay.Errors.{Result, ok, err, bad_request, validation_error}
use flitepay.Commission.{PartyRates, pay_in, DirectionalCommission, commission_for}
use flitepay.Machine.Transaction.{created}
use flitepay.Store.{Party, Transaction, Store, Action}
use flitepay.Balance.{filled}
use flitepay.Engine.{put}

abbrev default_window_minutes : ℕ
default_window_minutes = 15

pub record CreateInput : Type 0 where
  pub party_reference : Option Text
  pub amount : ℕ
  pub callback_url : Option Text
  pub created_by_key_id : Option Text

abbrev pub same_text : Text → Text → Bool
same_text [] [] = true
same_text (x ∷ xs) (y ∷ ys) = x == y && same_text xs ys
same_text _ _ = false

-- `existingFor`
unfoldable pub existing_for : ℕ → Text → Dict Transaction → Option ℕ
existing_for party_id reference [] = none
existing_for party_id reference ((id, t) ∷ d) =
    if t.party_id == party_id && same_text t.party_reference reference
    then some id
    else existing_for party_id reference d

abbrev pub rates_of : Option Party → Option PartyRates
rates_of none = none
rates_of (some p) = some p.rates

-- The commission that a new pay-in is priced at: no captain is known yet.
unfoldable pub quote : ℕ → ℕ → Store → Result DirectionalCommission
quote party_id amount s =
    commission_for pay_in amount s.config (rates_of (lookup party_id s.parties)) none

abbrev pub new_transaction : ℕ → Text → CreateInput → DirectionalCommission → ℕ → Transaction
new_transaction party_id reference input c now = record {
  party_id = party_id;
  captain_id = none;
  party_reference = reference;
  amount = input.amount;
  party_commission = c.party_paise;
  commission = c.captain_paise;
  party_commission_rate = c.party_rate;
  commission_rate = c.captain_rate;
  commission_rate_agreed = c.captain_rate_agreed;
  commission_config_version = c.config_version;
  commission_paid = false;
  status = created;
  state_history = record { from = none; to = created; at = now; by = none; reason = none } ∷ [];
  gateway_order_id = none;
  gateway_qr_payload = none;
  settlement_reference = none;
  confirmed_at = none;
  settled_at = none;
  dispute_reason = none;
  failure_reason = none;
  previous_captain_ids = [];
  expires_at = now + default_window_minutes * 60000;
  callback_url = input.callback_url;
  created_by_key_id = input.created_by_key_id;
}

-- `Transaction.create`, and its `catch`: the unique index on party and reference refuses a second
-- row, and the loser of a race returns the winner's.
unfoldable pub create_row :
    ℕ → ℕ → Text → CreateInput → DirectionalCommission → ℕ → Action (ℕ × Bool)
unfolding existing_for
create_row new_id party_id reference input c now s =
    elim (existing_for party_id reference s.transactions) [
      | some winner ↦ (ok (winner, false), s)
      | none ↦ (ok (new_id, true), put new_id (new_transaction party_id reference input c now) s)
    ]

-- `createTransaction` once `existingFor` has answered: `already` is that answer, which may be out
-- of date.
unfoldable pub create_after : Option ℕ → ℕ → ℕ → Text → CreateInput → ℕ → Action (ℕ × Bool)
unfolding create_row quote
create_after (some already) new_id party_id reference input now s = (ok (already, false), s)
create_after none new_id party_id reference input now s = elim (quote party_id input.amount s) [
  | err e ↦ (err e, s)
  | ok c ↦ create_row new_id party_id reference input c now s
]

-- `createPayIn`
unfoldable pub create_pay_in : ℕ → ℕ → CreateInput → ℕ → Action (ℕ × Bool)
unfolding create_after existing_for
create_pay_in new_id party_id input now s =
    if input.amount == 0
    then (err (bad_request validation_error), s)
    else elim (filled input.party_reference) [
      | none ↦ (err (bad_request validation_error), s)
      | some reference ↦
          create_after (existing_for party_id reference s.transactions) new_id party_id reference
            input now s
    ]
