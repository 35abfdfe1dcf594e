-- ===== src/Money.antt =====
-- server/src/utils/money.ts. Amounts are whole paise, and here not negative. A percentage is a
-- number of millionths of a percent (`rate_unit`), the decimal that the source holds as a double.
-- The source computes in doubles, and so does the model (Money.Double), operation by operation.
pub mod Double
pub mod Rounding
use flitepay.Prelude.{
  ℕ, ◌+◌, ◌*◌, ◌/◌, ◌^◌, Bool, false, true, not, ◌&&◌, ◌||◌, List, [], ◌∷◌, ltb, leb, ◌==◌,
  if◌then◌else◌,
}
use flitepay.Money.Double.{double_of, double_mul, double_div, math_round}
use flitepay.Errors.{Result, ok, err, money_error, ◌>>=◌, ◌>>◌, require}

abbrev pub paise_per_rupee : ℕ
paise_per_rupee = 100

-- `Number.MAX_SAFE_INTEGER`
abbrev pub max_paise : ℕ
max_paise = 9007199254740991

abbrev pub rate_unit : ℕ
rate_unit = 1000000

abbrev pub micros_per_usdt : ℕ
micros_per_usdt = 1000000

unfoldable pub assert_integer_paise : ℕ → Result (Unit {0})
assert_integer_paise paise = require (leb paise max_paise) money_error

-- `percentOfPaise`. A rate in the model is never negative or infinite.
unfoldable pub percent_of_paise : ℕ → ℕ → Result ℕ
unfolding assert_integer_paise
percent_of_paise paise percent = do
  assert_integer_paise paise
  ok (math_round (double_div (double_mul paise (double_of percent rate_unit)) 100))

sum_from : ℕ → List ℕ → Result ℕ
unfolding assert_integer_paise
sum_from acc [] = ok acc
sum_from acc (v ∷ vs) = let rest = sum_from (acc + v) vs in assert_integer_paise v >> rest

-- `sumPaise`
unfoldable pub sum_paise : List ℕ → Result ℕ
unfolding sum_from
sum_paise values = do total ← sum_from 0 values; require (leb total max_paise) money_error; ok total

-- `dmcPaiseToUsdtMicros`
unfoldable pub dmc_paise_to_usdt_micros : ℕ → ℕ → Result ℕ
unfolding assert_integer_paise
dmc_paise_to_usdt_micros dmc_paise rate = do
  assert_integer_paise dmc_paise
  require (ltb 0 rate) money_error
  let micros = math_round (double_div (double_of (dmc_paise * micros_per_usdt) 1) rate)
  require (leb micros max_paise) money_error
  ok micros
