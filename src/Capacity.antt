-- ===== src/Capacity.antt =====
-- What a captain may take on: server/src/services/captainCapacity.service.ts, and the collateral
-- hold of server/src/services/collateral.service.ts. `captain.dmcBalancePaise -
-- commissionEarnedTotalPaise` may be negative; where it is compared, the model adds on the other
-- side, and under `Math.max(0, …)` the truncated difference is the same number.
pub mod Limits
use Prim.Native.Nat.{min}
use flitepay.Prelude.{
  ℕ, ◌+◌, ◌-◌, Bool, true, false, ◌&&◌, Option, none, some, get_or, ltb, leb, if◌then◌else◌,
}
use flitepay.Prelude.Int.{ℤ, pos, ◌-ℤ◌}
use flitepay.Prelude.Dict.{lookup, insert}
use flitepay.Store.{CaptainStatus, active, suspended, Captain, Store, Action}
use flitepay.Errors.{ok}

-- `ceilingPaise`
unfoldable pub ceiling_paise : Captain → ℕ
ceiling_paise c = get_or c.credit_limit c.collateral_balance

-- `currentLimitPaise`
unfoldable pub current_limit_paise : Captain → ℕ
unfolding ceiling_paise
current_limit_paise c = min (ceiling_paise c) (c.dmc_balance - c.commission_earned_total)

-- `withinCurrentLimit`, the filter of a conditional write.
unfoldable pub within_current_limit : ℕ → Captain → Bool
within_current_limit amount c =
    leb amount (get_or c.credit_limit c.collateral_balance)
    && leb (amount + c.commission_earned_total) c.dmc_balance

abbrev pub is_active : CaptainStatus → Bool
is_active active = true
is_active suspended = false

-- `computeAvailableLimit`
unfoldable pub compute_available_limit : ℕ → ℕ → Option ℕ → ℤ
compute_available_limit collateral_balance locked_amount credit_limit =
    pos (get_or credit_limit collateral_balance) -ℤ pos locked_amount

-- `fitsUnderTaskLimit`, the filter of a conditional write.
unfoldable pub fits_under_task_limit : ℕ → Captain → Bool
fits_under_task_limit amount c =
    leb (c.locked_amount + amount) (get_or c.credit_limit c.collateral_balance)

abbrev lock : ℕ → Captain → Captain
lock amount c = record c { locked_amount = c.locked_amount + amount }

-- `lockCollateral`: whether the conditional write has matched. `modifiedCount` does not count a
-- write that changes nothing, so an amount of zero reports false.
unfoldable pub lock_collateral : ℕ → ℕ → Action Bool
unfolding fits_under_task_limit
lock_collateral captain_id amount s = elim (lookup captain_id s.captains) [
  | none ↦ (ok false, s)
  | some c ↦
      if is_active c.status && fits_under_task_limit amount c
      then (ok (ltb 0 amount), record s { captains = insert captain_id (lock amount c) s.captains })
      else (ok false, s)
]

abbrev release : ℕ → Captain → Captain
release amount c = record c { locked_amount = c.locked_amount - amount }

-- `releaseCollateral`: clamped at zero.
unfoldable pub release_collateral : ℕ → ℕ → Action (Unit {0})
release_collateral captain_id amount s = elim (lookup captain_id s.captains) [
  | none ↦ (ok tt, s)
  | some c ↦ (ok tt, record s { captains = insert captain_id (release amount c) s.captains })
]
