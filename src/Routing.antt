-- ===== src/Routing.antt =====
-- The ranking of captains: `scoreCaptain` and the sort of server/src/services/
-- taskRouting.service.ts (the same sort stands in transaction.service.ts), and
-- `computeSuccessRate` of captainRating.service.ts. Where the source computes in doubles, the
-- model computes the same expressions as exact fractions; a score is in ten-thousandths.
pub mod Score
pub mod Rating
pub mod Eligibility
pub mod Offers
use Prim.Native.Nat.{min}
use flitepay.Prelude.{
  ℕ, ◌+◌, ◌-◌, ◌*◌, ◌/◌, Bool, true, false, ◌&&◌, ◌||◌, Option, none, some, get_or, List, [], ◌∷◌,
  ltb, leb, ◌==◌, if◌then◌else◌,
}
use flitepay.Store.{Record, Captain}
use flitepay.Capacity.{current_limit_paise}

pub record Frac : Type 0 where
  pub num : ℕ
  pub den : ℕ

infixl 65 ◌⊞◌
unfoldable pub ◌⊞◌ : Frac → Frac → Frac
x ⊞ y = record { num = x.num * y.den + y.num * x.den; den = x.den * y.den }

-- A weight in hundredths times a fraction.
unfoldable pub weigh : ℕ → Frac → Frac
weigh w x = record { num = w * x.num; den = 100 * x.den }

abbrev frac : ℕ → ℕ → Frac
frac n d = record { num = n; den = d }

-- `computeSuccessRate`
unfoldable pub compute_success_rate : Record → Frac
compute_success_rate r =
    let finished = r.tasks_completed + r.tasks_expired + r.proofs_rejected + r.rejections_upheld in
    if finished == 0 then frac 0 1 else frac r.tasks_completed finished

pub record CaptainWorkload : Type 0 where
  pub pending : ℕ
  pub in_progress : ℕ
  pub awaiting_audit : ℕ

abbrev rating_part : Captain → Frac
rating_part c = frac (min c.rating 500) 500

success_part : Captain → Frac
success_part c =
    let r = c.track in
    if r.tasks_completed + r.tasks_expired + r.proofs_rejected == 0
    then rating_part c
    else compute_success_rate r

availability_part : CaptainWorkload → Frac
availability_part w = frac (5 - (w.pending + w.in_progress + w.awaiting_audit)) 5

responsiveness_part : Record → Frac
responsiveness_part r =
    if r.offers_accepted == 0
    then frac 1 2
    else frac (300 * r.offers_accepted - r.accept_seconds) (300 * r.offers_accepted)

headroom_part : Captain → ℕ → Frac
headroom_part c amount =
    if amount == 0 then frac 1 1 else frac (min amount (current_limit_paise c - amount)) amount

-- The weighted sum of `scoreCaptain`.
weighted : Captain → ℕ → CaptainWorkload → Frac
weighted c amount w =
    weigh 35 (rating_part c)
    ⊞ weigh 25 (success_part c)
    ⊞ weigh 25 (availability_part w)
    ⊞ weigh 10 (responsiveness_part c.track)
    ⊞ weigh 5 (headroom_part c amount)

-- `scoreCaptain`
unfoldable pub score_captain : Captain → ℕ → CaptainWorkload → ℕ
unfolding weighted weigh ◌⊞◌ success_part availability_part responsiveness_part headroom_part
    compute_success_rate current_limit_paise
score_captain c amount w =
    let s = weighted c amount w in (2 * (s.num * 10000) + s.den) / (2 * s.den)

pub record Candidate : Type 0 where
  pub id : ℕ
  pub captain : Captain
  pub score : ℕ

-- Whether the comparator of the sort puts `a` strictly before `b`.
unfoldable pub before : Candidate → Candidate → Bool
before a b =
    ltb b.score a.score
    || (a.score == b.score
        && ltb (get_or a.captain.last_offered_at 0) (get_or b.captain.last_offered_at 0))

-- The first element of the sorted list. The sort is stable, so the earliest of equals stays.
unfoldable pub best_from : Candidate → List Candidate → Candidate
best_from a [] = a
best_from a (b ∷ bs) = best_from (if before b a then b else a) bs

unfoldable pub best_of : List Candidate → Option Candidate
unfolding best_from
best_of [] = none
best_of (a ∷ rest) = some (best_from a rest)
