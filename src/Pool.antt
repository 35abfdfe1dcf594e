-- ===== src/Pool.antt =====
-- The platform's pool: server/src/services/platformAccount.service.ts. The account has one
-- document, created by its first upsert.
pub mod Laws
use flitepay.Prelude.{
  ℕ, ◌+◌, ◌-◌, Bool, true, false, not, ◌||◌, Option, none, some, leb, ◌==◌, if◌then◌else◌,
}
use flitepay.Errors.{
  ok, err, bad_request, unprocessable, validation_error, insufficient_platform_balance,
}
use flitepay.Money.{max_paise}
use flitepay.Store.{PlatformAccount, Store, Action, pure, raise_if, modify, gets, ◌>>=◌, ◌>>◌}

abbrev pub empty_account : PlatformAccount
empty_account = record { pool_balance = 0; pool_funded_total = 0 }

abbrev pub account_or_new : Option PlatformAccount → PlatformAccount
account_or_new none = empty_account
account_or_new (some a) = a

-- `getPlatformAccount`
unfoldable pub get_platform_account : Action PlatformAccount
get_platform_account = do
  modify (λ s. record s { platform = some (account_or_new s.platform) })
  gets (λ s. account_or_new s.platform)

-- The conditional decrement that two functions make: whether a document matched.
pub take_from_pool : ℕ → Action Bool
take_from_pool amount s = elim s.platform [
  | none ↦ (ok false, s)
  | some a ↦
      if leb amount a.pool_balance
      then (
        ok true,
        record s { platform = some (record a { pool_balance = a.pool_balance - amount }) },
      )
      else (ok false, s)
]

-- `debitPlatformCommission`
unfoldable pub debit_platform_commission : ℕ → Action (Unit {0})
unfolding take_from_pool
debit_platform_commission amount = do
  updated ← take_from_pool amount
  raise_if (not updated) (unprocessable insufficient_platform_balance)

abbrev add_to_pool : ℕ → ℕ → Store → Store
add_to_pool amount funded s =
    let a = account_or_new s.platform in
    record s {
      platform = some (record {
        pool_balance = a.pool_balance + amount;
        pool_funded_total = a.pool_funded_total + funded;
      });
    }

-- `collectIntoPool`
unfoldable pub collect_into_pool : ℕ → Action (Unit {0})
collect_into_pool amount = do
  raise_if (not (leb amount max_paise) || amount == 0) (bad_request validation_error)
  modify (add_to_pool amount 0)

-- `fundPlatformPool`
unfoldable pub fund_platform_pool : ℕ → Action (Unit {0})
fund_platform_pool amount = do
  raise_if (not (leb amount max_paise) || amount == 0) (bad_request validation_error)
  modify (add_to_pool amount amount)

-- `fundCommissionPool`, without its audit record.
unfoldable pub fund_commission_pool : ℕ → Action PlatformAccount
unfolding fund_platform_pool get_platform_account
fund_commission_pool amount = do fund_platform_pool amount; get_platform_account

-- `payCommissionFromPool`
unfoldable pub pay_commission_from_pool : ℕ → Action Bool
unfolding take_from_pool
pay_commission_from_pool amount s = if amount == 0 then (ok true, s) else take_from_pool amount s
