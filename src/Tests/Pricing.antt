-- ===== src/Tests/Pricing.antt =====
-- The ranking of captains (services/taskRouting.service.ts).
use flitepay.Routing.Rating.{compute_rating}
use flitepay.Routing.Rating.Bounds.{compute_rating_le}
use flitepay.Prelude.{◌≤◌, ◌≡◌, [], ◌∷◌, All}
use flitepay.Routing.{score_captain, best_from}
use flitepay.Prelude.{get_or}
use flitepay.Prelude.Sorting.{In}
use flitepay.Routing.Score.{score_captain_bounds, best_from_first}
use flitepay.Tests.Data.{clean_record, ravi, idle, offered}

score_captain_bounds_example : score_captain ravi 10000 idle ≤ 10000
score_captain_bounds_example = score_captain_bounds ravi 10000 idle

best_from_first_example :
    let chosen = best_from (offered 1 50) (offered 2 70 ∷ offered 3 70 ∷ []) in
    In chosen (offered 1 50 ∷ offered 2 70 ∷ offered 3 70 ∷ [])
    × All
        (λ x.
          (x.score ≤ chosen.score)
          × (x.score ≡ chosen.score
              → get_or chosen.captain.last_offered_at 0 ≤ get_or x.captain.last_offered_at 0))
        (offered 1 50 ∷ offered 2 70 ∷ offered 3 70 ∷ [])
best_from_first_example = best_from_first (offered 1 50) (offered 2 70 ∷ offered 3 70 ∷ [])

compute_rating_le_example : compute_rating clean_record ≤ 500
compute_rating_le_example = compute_rating_le clean_record
