-- ===== src/Routing/Rating/Bounds.antt =====
-- The rating of a captain stays on its scale.
use flitepay.Prelude.{ℕ, ◌+◌, ◌*◌, ◌/◌, ◌≤◌, ◌<◌, arith, ◌==◌, Bool-cases, inl, inr}
use Prim.Native.Nat.{min}
use flitepay.Store.{Record}
use flitepay.Routing.{Frac}
use flitepay.Routing.Rating.{
  Outcomes, outcomes, smoothed, compute_on_time_rate, clamped, compute_rating,
}

-- A fraction of at most 500.
abbrev AtMost : Frac → Type 0
AtMost x = (0 < x.den) × (x.num ≤ 500 * x.den)

on_time_den : (r : Record) → 0 < (compute_on_time_rate r).den
unfolding compute_on_time_rate
on_time_den r = elim (Bool-cases (r.tasks_completed == 0)) [
  | inl none_done ↦ rw none_done (omega arith)
  | inr some_done ↦ let p : 0 < r.tasks_completed = ground arith in rw some_done p
]

smoothed_den : (o : Outcomes) → 0 < (smoothed o).den
unfolding smoothed
smoothed_den o = omega arith

min_right : (a b : ℕ) → min a b ≤ b
min_right a b = omega arith

mul_pos : (a b : ℕ) → 0 < a → 0 < b → 0 < a * b
mul_pos a b h k = grind arith

half_up_le : (n d : ℕ) → 0 < d → n ≤ 500 * d → (2 * n + d) / (2 * d) ≤ 500
half_up_le n d p h = grind arith

clamped-AtMost : (r : Record) → AtMost (clamped r)
unfolding clamped
clamped-AtMost r = elim (Bool-cases (r.tasks_completed == 0)) [
  | inl none_done ↦ rw none_done (smoothed_den (outcomes r), min_right _ _)
  | inr some_done ↦
      let p : 0 < r.tasks_completed = ground arith in
      rw some_done (mul_pos _ _ (omega arith) p, min_right _ _)
]

-- A rating is at most five points, which is 500 hundredths.
pub compute_rating_le : (r : Record) → compute_rating r ≤ 500
unfolding compute_rating
compute_rating_le r = let b = clamped-AtMost r in half_up_le (clamped r).num (clamped r).den b.0 b.1
