-- ===== src/Tests/Accounts.antt =====
-- The accounts of one captain and of the pool (services/captainBalance.service.ts,
-- platformAccount.service.ts, captainCapacity.service.ts, collateral.service.ts).
use Prim.Native.Nat.{min}
use flitepay.Prelude.{◌+◌}
use flitepay.Prelude.{
  ◌-◌, ◌≤◌, ◌<◌, ◌≡◌, ◌⊎◌, ◌↔◌, refl, arith, none, some, true, false, [], ◌∷◌, trim,
}
use flitepay.Prelude.Dict.{lookup, insert}
use flitepay.Errors.{
  ok, err, internal, conflict, not_found_with, captain_not_found, redemption_already_decided,
}
use flitepay.Store.{PayoutFields, to_upi}
use flitepay.Capacity.{
  ceiling_paise, current_limit_paise, within_current_limit, lock_collateral, release_collateral,
}
use flitepay.Capacity.Limits.{within_current_limit_iff, claim_keeps_commission, lock-release}
use flitepay.Pool.Laws.{pool_of, funded_of, with_pool}
use flitepay.Balance.{
  Destination, upi, normalise_destination, request_redemption, reject_redemption,
  mark_redemption_paid, pay_commission_to_captain,
}
use flitepay.Balance.Commission.{entry_of, pay_commission_to_captain_lem, pay_commission_no_captain}
use flitepay.Balance.Requests.{
  requested, request_redemption_ok, request_redemption_fault, reject-request,
}
use flitepay.Tests.Data.{ravi, shop_store}

within_current_limit_iff_example :
    (within_current_limit 10000 ravi ≡ true) ↔ (10000 ≤ current_limit_paise ravi)
within_current_limit_iff_example = within_current_limit_iff 10000 ravi (omega arith)

claim_keeps_commission_example :
    (10000 ≤ 90000)
    × (400 ≤ 90000 - 10000)
    × (current_limit_paise (record ravi { dmc_balance = 80000 })
        ≡ min (ceiling_paise ravi) (90000 - 400 - 10000))
unfolding within_current_limit
claim_keeps_commission_example = claim_keeps_commission 10000 ravi refl

lock-release_example :
    let locked = (lock_collateral 7 3000 shop_store).1 in
    (lookup 7 locked.captains ≡ some (record ravi { locked_amount = 3000 }))
    × (3000 ≤ ceiling_paise ravi)
    × (lookup 7 (release_collateral 7 3000 locked).1.captains ≡ some ravi)
unfolding lock_collateral
lock-release_example = lock-release 7 3000 shop_store {c = ravi} refl refl

pay_commission_to_captain_lem_example :
    ((60 ≤ pool_of shop_store)
      × (pay_commission_to_captain 7 60 true (some 4) shop_store ≡ (
        ok true,
        record shop_store {
          platform =
              (with_pool (pool_of shop_store - 60) (funded_of shop_store) shop_store).platform;
          captains =
              insert 7
                (record ravi {
                  dmc_balance = ravi.dmc_balance + 60;
                  commission_earned_total = ravi.commission_earned_total + 60;
                })
                shop_store.captains;
          wallet_entries = entry_of 7 60 (some 4) ravi ∷ [];
        },
      )))
    ⊎ ((pool_of shop_store < 60)
        × (pay_commission_to_captain 7 60 true (some 4) shop_store ≡ (ok false, shop_store)))
pay_commission_to_captain_lem_example =
    pay_commission_to_captain_lem 7 60 true (some 4) shop_store {c = ravi} (omega arith) refl

pay_commission_no_captain_example : pay_commission_to_captain 8 60 false none shop_store ≡ (
  err (not_found_with captain_not_found),
  with_pool (pool_of shop_store) (funded_of shop_store) shop_store,
)
pay_commission_no_captain_example =
    pay_commission_no_captain 8 60 none shop_store (omega arith) (omega arith) (omega arith) refl

abbrev wallet : Destination
wallet = upi (some (97 ∷ 64 ∷ 98 ∷ []))

abbrev wallet_fields : PayoutFields
wallet_fields = to_upi (97 ∷ 64 ∷ 98 ∷ [])

request_redemption_ok_example :
    request_redemption false false 1 7 500 wallet shop_store
    ≡ (ok 1, requested 1 7 500 wallet_fields ravi shop_store)
unfolding normalise_destination trim
request_redemption_ok_example =
    request_redemption_ok 1 7 500 wallet {payout = wallet_fields} shop_store {c = ravi}
      (omega arith) refl refl false (omega arith)

request_redemption_fault_example :
    request_redemption false true 1 7 500 wallet shop_store ≡ (err internal, shop_store)
unfolding normalise_destination trim
request_redemption_fault_example =
    request_redemption_fault 1 7 500 wallet {payout = wallet_fields} shop_store {c = ravi}
      (omega arith) refl refl false (omega arith)

reject-request_example :
    let s' =
      (reject_redemption
        (some 1)
        (some (120 ∷ []))
        9
        5
        (requested 1 7 500 wallet_fields ravi shop_store)).1 in
    (s'.captains ≡ shop_store.captains)
    × (reject_redemption (some 1) (some (120 ∷ [])) 9 5 s'
        ≡ (err (conflict redemption_already_decided), s'))
    × (mark_redemption_paid (some 1) (some (120 ∷ [])) none 9 5 s'
        ≡ (err (conflict redemption_already_decided), s'))
unfolding normalise_destination trim
reject-request_example =
    reject-request 1 7 500 wallet {payout = wallet_fields} shop_store {c = ravi} (omega arith) refl
      refl (120 ∷ []) {why = 120 ∷ []} 9 5 (omega arith) refl
