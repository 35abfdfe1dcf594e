-- ===== src/Pool/Laws.antt =====
-- The pool never goes below zero, pays only what it holds, and tells funding from collection.
use flitepay.Prelude.{ℕ, ◌+◌, ◌-◌, ◌≤◌, ◌<◌, ◌≡◌, ◌⊎◌, true, false, none, some, arith}
use flitepay.Errors.{
  ok, err, bad_request, unprocessable, validation_error, insufficient_platform_balance,
}
use flitepay.Money.{max_paise}
use flitepay.Store.{Store}
use flitepay.Pool.{
  account_or_new, debit_platform_commission, collect_into_pool, fund_platform_pool,
  pay_commission_from_pool,
}

abbrev pub pool_of : Store → ℕ
pool_of s = (account_or_new s.platform).pool_balance

abbrev pub funded_of : Store → ℕ
funded_of s = (account_or_new s.platform).pool_funded_total

-- The account of `s` with another balance, and every other document as it was.
abbrev pub with_pool : ℕ → ℕ → Store → Store
with_pool balance funded s = record s {
  platform = some (record { pool_balance = balance; pool_funded_total = funded });
}

-- A commission is paid exactly when the pool holds it, and then the pool falls by exactly that;
-- otherwise the answer is false and no document changes. A commission of zero is always paid.
pub pay_commission_from_pool_lem :
    (amount : ℕ) (s : Store)
    → ((amount ≤ pool_of s)
        × (0 < amount)
        × (pay_commission_from_pool amount s
            ≡ (ok true, with_pool (pool_of s - amount) (funded_of s) s)))
      ⊎ ((amount ≡ 0) × (pay_commission_from_pool amount s ≡ (ok true, s)))
      ⊎ ((pool_of s < amount) × (pay_commission_from_pool amount s ≡ (ok false, s)))
unfolding pay_commission_from_pool
pay_commission_from_pool_lem amount s = ground arith

-- A withdrawal that the pool does not cover, or before there is a pool, is refused and changes no
-- document; one that is let
-- through takes exactly its amount.
pub debit_platform_commission_lem :
    (amount : ℕ) (s : Store)
    → ((amount ≤ pool_of s)
        × (debit_platform_commission amount s
            ≡ (ok tt, with_pool (pool_of s - amount) (funded_of s) s)))
      ⊎ (((pool_of s < amount) ⊎ (s.platform ≡ none))
          × (debit_platform_commission amount s
              ≡ (err (unprocessable insufficient_platform_balance), s)))
unfolding debit_platform_commission
debit_platform_commission_lem amount s = ground arith

-- Collected money raises the balance alone, funding raises the total funded by the same amount;
-- an amount of zero or beyond the safe range is refused and changes nothing.
pub pool_credits :
    (amount : ℕ) (s : Store)
    → ((0 < amount)
        × (amount ≤ max_paise)
        × (collect_into_pool amount s ≡ (ok tt, with_pool (pool_of s + amount) (funded_of s) s))
        × (fund_platform_pool amount s
            ≡ (ok tt, with_pool (pool_of s + amount) (funded_of s + amount) s)))
      ⊎ (((amount ≡ 0) ⊎ (max_paise < amount))
          × (collect_into_pool amount s ≡ (err (bad_request validation_error), s))
          × (fund_platform_pool amount s ≡ (err (bad_request validation_error), s)))
unfolding collect_into_pool fund_platform_pool
pool_credits amount s = ground arith
