-- ===== src/Capacity/Limits.antt =====
-- The number that is shown and the filter that is enforced are one rule; a hold is within it.
use Prim.Native.Nat.{min}
use flitepay.Prelude.{ℕ, ◌+◌, ◌-◌, ◌≤◌, ◌<◌, ◌≡◌, ◌↔◌, true, false, ◌&&◌, some, arith}
use flitepay.Prelude.Int.{◌-ℤ◌, pos_part, neg_part}
use flitepay.Prelude.Dict.{lookup, insert, lookup-insert}
use flitepay.Errors.{ok}
use flitepay.Store.{Captain, Store}
use flitepay.Capacity.{
  ceiling_paise, current_limit_paise, within_current_limit, is_active, compute_available_limit,
  fits_under_task_limit, lock, release, lock_collateral, release_collateral,
}

-- For a positive amount the filter holds exactly when the amount is at most the limit shown.
pub within_current_limit_iff :
    (amount : ℕ) (c : Captain)
    → 0 < amount
    → (within_current_limit amount c ≡ true) ↔ (amount ≤ current_limit_paise c)
unfolding within_current_limit current_limit_paise
within_current_limit_iff amount c h = ground arith

-- A claim that the filter lets through is covered by the balance without the earned commission,
-- and leaves the commission in the balance: the limit after the claim is what is left of the
-- working capital, or the ceiling.
pub claim_keeps_commission :
    (amount : ℕ) (c : Captain)
    → within_current_limit amount c ≡ true
    → (amount ≤ c.dmc_balance)
      × (c.commission_earned_total ≤ c.dmc_balance - amount)
      × (current_limit_paise (record c { dmc_balance = c.dmc_balance - amount })
          ≡ min (ceiling_paise c) (c.dmc_balance - c.commission_earned_total - amount))
unfolding within_current_limit current_limit_paise
claim_keeps_commission amount c h = ground arith

-- The filter of the hold is the available limit that is shown: amount ≤ limit, over the integers.
pub fits_under_task_limit_iff :
    (amount : ℕ) (c : Captain)
    → let available = compute_available_limit c.collateral_balance c.locked_amount c.credit_limit in
      (fits_under_task_limit amount c ≡ true) ↔ (amount + neg_part available ≤ pos_part available)
unfolding fits_under_task_limit compute_available_limit ◌-ℤ◌
fits_under_task_limit_iff amount c = ground arith

-- A hold of a positive amount that reports success raises the locked amount by it and stays
-- within the ceiling, and its release puts the captain back as they were.
pub lock-release :
    (id amount : ℕ) (s : Store) {c : Captain}
    → lookup id s.captains ≡ some c
    → (lock_collateral id amount s).0 ≡ ok true
    → let locked = (lock_collateral id amount s).1 in
      (lookup id locked.captains ≡ some (record c { locked_amount = c.locked_amount + amount }))
      × (c.locked_amount + amount ≤ ceiling_paise c)
      × (lookup id (release_collateral id amount locked).1.captains ≡ some c)
unfolding lock_collateral release_collateral ceiling_paise
lock-release id amount s {c} found held = ground (
  arith,
  lookup-insert id id (lock amount c) s.captains,
  lookup-insert id id (release amount (lock amount c)) (insert id (lock amount c) s.captains),
)

-- A hold that does not fit, or of a captain who is not active, reports failure and changes no
-- document.
pub lock_refused :
    (id amount : ℕ) (s : Store) {c : Captain}
    → lookup id s.captains ≡ some c
    → (is_active c.status && fits_under_task_limit amount c) ≡ false
    → lock_collateral id amount s ≡ (ok false, s)
unfolding lock_collateral
lock_refused id amount s found refused = ground arith
