-- ===== src/Routing/Rating.antt =====
-- The rating of a captain: server/src/services/captainRating.service.ts. A rating is in hundredths
-- of a point. The weights and qualities are the source's, times a thousand in all; the quotient is
-- an exact fraction.
pub mod Bounds
use Prim.Native.Nat.{min}
use flitepay.Prelude.{
  ℕ, ◌+◌, ◌-◌, ◌*◌, ◌/◌, Bool, none, some, List, [], ◌∷◌, ◌++◌, leb, ltb, ◌&&◌, ◌==◌, if◌then◌else◌,
}
use flitepay.Prelude.Dict.{lookup, insert}
use flitepay.Errors.{ok}
use flitepay.Store.{Record, Captain, Action}
use flitepay.Routing.{Frac, compute_success_rate}

abbrev pub over : ℕ → ℕ → Frac
over x y = record { num = x; den = y }

-- `computeOnTimeRate`
unfoldable pub compute_on_time_rate : Record → Frac
compute_on_time_rate r =
    if r.tasks_completed == 0
    then over 0 1
    else over (min r.tasks_on_time r.tasks_completed) r.tasks_completed

-- The outcomes of a captain by kind, a rejection that admin upheld counted as such only.
pub record Outcomes : Type 0 where
  pub completed : ℕ
  pub expired : ℕ
  pub rejected : ℕ
  pub upheld : ℕ
  pub missed : ℕ

unfoldable pub outcomes : Record → Outcomes
outcomes r =
    let upheld = min r.rejections_upheld r.proofs_rejected in
    record {
      completed = r.tasks_completed;
      expired = r.tasks_expired;
      rejected = r.proofs_rejected - upheld;
      upheld = upheld;
      missed = r.offers_missed;
    }

-- `totalWeight`, in tenths.
unfoldable pub total_weight : Outcomes → ℕ
total_weight o = 10 * o.completed + 15 * o.expired + 15 * o.rejected + 30 * o.upheld + 4 * o.missed

-- `weightedQuality`, in thousandths.
unfoldable pub weighted_quality : Outcomes → ℕ
weighted_quality o = 1000 * o.completed + 225 * o.expired + 300 * o.rejected + 200 * o.missed

-- `smoothed`, in hundredths of a point: 3.5 points of weight 5, and the quality out of five.
unfoldable pub smoothed : Outcomes → Frac
unfolding total_weight weighted_quality
smoothed o = over (5 * weighted_quality o + 17500) (total_weight o + 50)

-- The sum of `smoothed` and `punctuality`, clamped at both ends; `punctuality` is half the on-time
-- rate less a quarter point, and 0 without completions.
unfoldable pub clamped : Record → Frac
unfolding outcomes smoothed compute_on_time_rate
clamped r =
    let x = smoothed (outcomes r) in
    if r.tasks_completed == 0
    then over (min x.num (500 * x.den)) x.den
    else let p = compute_on_time_rate r in
      let den = x.den * p.den in
      over (min (x.num * p.den + 50 * p.num * x.den - 25 * den) (500 * den)) den

-- `computeRating`, rounded half up.
unfoldable pub compute_rating : Record → ℕ
unfolding clamped
compute_rating r = let x = clamped r in (2 * x.num + x.den) / (2 * x.den)

pub data BadgeCode : Type 0 where
  new_captain top_rated on_time reliable fast_responder veteran : BadgeCode

abbrev badge_if : Bool → BadgeCode → List BadgeCode
badge_if earned code = if earned then code ∷ [] else []

-- `x >= n / 100`
abbrev at_least : Frac → ℕ → Bool
at_least x n = leb (n * x.den) (100 * x.num)

-- `computeBadges`, the codes without their texts.
unfoldable pub compute_badges : Captain → List BadgeCode
unfolding compute_success_rate compute_on_time_rate
compute_badges c =
    let r = c.track in
    badge_if (ltb r.tasks_completed 5) new_captain
    ++ (badge_if (leb 10 r.tasks_completed && leb 450 c.rating) top_rated
        ++ (badge_if (leb 10 r.tasks_completed && at_least (compute_on_time_rate r) 90) on_time
            ++ (badge_if (leb 20 r.tasks_completed && at_least (compute_success_rate r) 95) reliable
                ++ (badge_if
                      (leb 10 r.offers_accepted && leb r.accept_seconds (60 * r.offers_accepted))
                      fast_responder
                    ++ badge_if (leb 100 r.tasks_completed) veteran))))

abbrev pub rated : (Record → Record) → Captain → Captain
rated deltas c = record c { track = deltas c.track; rating = compute_rating (deltas c.track) }

-- `recordOutcome`; a rating that has not changed is written again.
unfoldable pub record_outcome : ℕ → (Record → Record) → Action (Unit {0})
record_outcome captain_id deltas s = elim (lookup captain_id s.captains) [
  | none ↦ (ok tt, s)
  | some c ↦ (ok tt, record s { captains = insert captain_id (rated deltas c) s.captains })
]

abbrev pub one_completed : Bool → Record → Record
one_completed in_time r = record r {
  tasks_completed = r.tasks_completed + 1;
  tasks_on_time = r.tasks_on_time + (if in_time then 1 else 0);
}

abbrev pub one_expired : Record → Record
one_expired r = record r { tasks_expired = r.tasks_expired + 1 }

abbrev pub one_proof_rejected : Record → Record
one_proof_rejected r = record r { proofs_rejected = r.proofs_rejected + 1 }

abbrev pub one_rejection_upheld : Record → Record
one_rejection_upheld r = record r { rejections_upheld = r.rejections_upheld + 1 }

abbrev pub one_offer_missed : Record → Record
one_offer_missed r = record r { offers_missed = r.offers_missed + 1 }

abbrev pub one_offer_accepted : ℕ → Record → Record
one_offer_accepted seconds r = record r {
  offers_accepted = r.offers_accepted + 1;
  accept_seconds = r.accept_seconds + seconds;
}
