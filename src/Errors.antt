-- ===== src/Errors.antt =====
-- The errors of server/src/utils/AppError.ts (with the codes of utils/errorCodes.ts that the
-- modelled services raise) and `MoneyError` of utils/money.ts; and the result of code that may
-- throw, with `do`. Messages and detail objects are left out.
use flitepay.Prelude.{ℕ, Bool, true, false, ◌≡◌, ◌⊎◌, inl, inr, refl}

pub data ErrorCode : Type 0 where
  validation_error not_found conflict_code internal_error : ErrorCode
  captain_not_found transaction_not_found redemption_not_found withdrawal_not_found : ErrorCode
  invalid_state_transition redemption_already_decided withdrawal_already_decided : ErrorCode
  withdrawal_request_pending rejection_reason_required : ErrorCode
  insufficient_dmc_balance insufficient_platform_balance insufficient_available_balance : ErrorCode
  insufficient_available_limit task_not_found task_already_claimed task_not_claimable : ErrorCode
  proof_already_submitted not_pending_audit captain_offline : ErrorCode
  captain_daily_limit_exceeded captain_monthly_limit_exceeded : ErrorCode
  amount_below_minimum amount_above_maximum : ErrorCode
  party_daily_limit_exceeded party_monthly_limit_exceeded duplicate_value : ErrorCode

-- One constructor for each factory of `AppError` that is used, and one for `MoneyError`.
pub data AppError : Type 0 where
  bad_request not_found_with conflict unprocessable : ErrorCode → AppError
  internal money_error forbidden : AppError

pub status_code : AppError → ℕ
status_code (bad_request c) = 400
status_code (not_found_with c) = 404
status_code (conflict c) = 409
status_code (unprocessable c) = 422
status_code forbidden = 403
status_code internal = 500
status_code money_error = 500

-- What a function that may throw returns.
pub data Result {ℓ} (A : Type ℓ) : Type ℓ where
  err : AppError → Result A
  ok : A → Result A

infixl 5 ◌>>=◌ ◌>>◌
abbrev pub ◌>>=◌ {ℓ κ} : {A : Type ℓ} {B : Type κ} → Result A → (A → Result B) → Result B
err thrown >>= next = err thrown
ok value >>= next = next value

abbrev pub ◌>>◌ {κ} : {B : Type κ} → Result (Unit {0}) → Result B → Result B
check >> next = check >>= λ _. next

-- `if (!test) throw error`.
abbrev pub require : Bool → AppError → Result (Unit {0})
require true e = ok tt
require false e = err e

pub result_cases :
    {A : Type 0} (r : Result A) → ((e : AppError) × (r ≡ err e)) ⊎ ((a : A) × (r ≡ ok a))
result_cases (ok a) = inr (a, refl)
result_cases (err e) = inl (e, refl)
