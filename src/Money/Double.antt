-- ===== src/Money/Double.antt =====
-- The doubles of server/src/utils/money.ts, with 53 significant bits, not negative. A double is
-- the number of its units of 2 ^ -128 (`grid`). The figures of money.ts are whole numbers,
-- rates of at least a millionth and their quotients: all that has bits below the unit would be
-- less than 2 ^ -75 and above nought, which none of them is. Infinity is not represented.
use flitepay.Prelude.{ℕ, zero, suc, ◌+◌, ◌*◌, ◌/◌, ◌%◌, true, false, ltb, ◌==◌, if◌then◌else◌}

-- 2 ^ 128: the double 1.
abbrev pub grid : ℕ
grid = 340282366920938463463374607431768211456

-- n / d to the nearest whole number, a half to the even one.
unfoldable pub nearest_even : ℕ → ℕ → ℕ
nearest_even n d =
    let q = n / d in
    let r = n % d in if ltb (2 * r) d then q else if ltb d (2 * r) then q + 1 else q + q % 2

-- The last place of a double of q units: the least power of two that leaves fewer than 54 bits.
-- Each round doubles it, so that as many rounds as the exponents of a double suffice.
unfoldable pub last_place : ℕ → ℕ → ℕ → ℕ
last_place zero place q = place
last_place (suc rounds) place q = elim (ltb q (9007199254740992 * place)) [
  | true ↦ place
  | false ↦ last_place rounds (2 * place) q
]

-- The double nearest to n / d units.
unfoldable pub round_units : ℕ → ℕ → ℕ
unfolding nearest_even last_place
round_units n d = let place = last_place 1100 1 (n / d) in nearest_even n (d * place) * place

-- The double nearest to n / d: what a decimal literal means, and an integer.
unfoldable pub double_of : ℕ → ℕ → ℕ
unfolding round_units
double_of n d = round_units (n * grid) d

-- A whole number, itself a double, times a double.
unfoldable pub double_mul : ℕ → ℕ → ℕ
unfolding round_units
double_mul n x = round_units (n * x) 1

-- A double over a whole number that is a double.
unfoldable pub double_div : ℕ → ℕ → ℕ
unfolding round_units
double_div x n = round_units x n

-- `Number.EPSILON`, 2 ^ -52
abbrev pub epsilon : ℕ
epsilon = 75557863725914323419136

-- `Math.round(x + Number.EPSILON * Math.sign(x))`: the sum is a double, and `Math.round` is the
-- floor of it and a half.
unfoldable pub math_round : ℕ → ℕ
unfolding round_units
math_round x =
    let y = if x == 0 then 0 else round_units (x + epsilon) 1 in (2 * y + grid) / (2 * grid)
