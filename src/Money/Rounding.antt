-- ===== src/Money/Rounding.antt =====
-- The amounts that `percentOfPaise` takes, and the charges that are safe integers again.
use flitepay.Prelude.{ℕ, ◌≤◌, ◌≡◌, arith}
use flitepay.Errors.{ok}
use flitepay.Money.{max_paise, percent_of_paise}

pub percent_of_paise-safe :
    (paise percent : ℕ) {r : ℕ} → percent_of_paise paise percent ≡ ok r → paise ≤ max_paise
unfolding percent_of_paise
percent_of_paise-safe paise percent h = ground arith

-- The percentage of the amount is a safe integer, as that of at most the whole of an amount in use.
abbrev pub IsSafeCharge : ℕ → ℕ → Type 0
IsSafeCharge amount rate =
    (charge : ℕ) → percent_of_paise amount rate ≡ ok charge → charge ≤ max_paise
