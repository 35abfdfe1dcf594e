-- ===== src/Tests/Proofs.antt =====
-- Proofs of pay-outs on small inputs.
use flitepay.Prelude.{Option, ℕ, is_some}
use flitepay.Prelude.{◌≡◌, ◌≤◌, ◌<◌, ◌⊎◌, refl, true, some, none, get_or, [], ◌∷◌, arith}
use flitepay.Prelude.Dict.{lookup}
use flitepay.Errors.{ok}
use flitepay.Machine.Task.{in_progress, audit_pending}
use flitepay.Store.{Store}
use flitepay.Store.Tasks.{Role, ActorContext, Task}
use flitepay.Routing.Offers.{add_minutes}
use flitepay.Workflow.{
  SubmitProofInput, submit_proof_from, new_proof, has_live_proof, confirmation_minutes_of,
}
use flitepay.Workflow.Overdue.{auto_approve_on_timeout}
use flitepay.Workflow.Deadlines.{submit_proof_from_ok}
use flitepay.Workflow.Approvals.{
  IsPayable, IsCompleted, auto_approve_on_timeout_cases, submit_proof_lapsed,
}
use flitepay.Tests.Data.{shop_store, payout, payout_store, two_rows}

-- The pay-out in the hands of its second captain, with the deadline of the first proof.
abbrev second_try : Task
second_try = record payout { status = in_progress }

abbrev second_store : Store
second_store = record shop_store { tasks = (9, second_try) ∷ [] }

abbrev receipt : SubmitProofInput
receipt = record { captain_id = 7; provider_reference = 86 ∷ []; notes = none }

abbrev the_captain : ActorContext
the_captain = record { user_id = 17; role = Role.captain }

submit_proof_from_ok_example :
    (r : Store) × (u : Task) × (submit_proof_from 9 second_try receipt the_captain 2000000
        second_store
      ≡ (ok second_try, r))
    × (lookup 9 r.tasks ≡ some u)
    × (u.status ≡ audit_pending)
    × (u.confirmation.deadline
        ≡ some (
            get_or second_try.confirmation.deadline
              (add_minutes 2000000 (confirmation_minutes_of second_try second_store.clock_config))))
    × (r.proofs ≡ new_proof 9 receipt 2000000 ∷ second_store.proofs)
unfolding has_live_proof
submit_proof_from_ok_example =
    submit_proof_from_ok 9 second_try second_try receipt the_captain 2000000 second_store refl refl
      refl refl

payout-IsPayable : IsPayable 7 payout payout_store
payout-IsPayable = (refl, refl, refl, omega arith)

auto_approve_on_timeout_cases_example :
    let owner : Option ℕ = some 31 in
    let run = auto_approve_on_timeout true two_rows owner 2000000 9 payout_store in
    ((2000000 < 1200003) × (run ≡ (ok none, payout_store)))
    ⊎ ((1200003 ≤ 2000000)
        × (is_some owner ≡ true)
        × ((done : Task) × (r : Store) × (run ≡ (ok (some done), r)) × IsCompleted 9 r))
    ⊎ ((1200003 ≤ 2000000)
        × (owner ≡ none)
        × ((r : Store) × (v : Task) × (run ≡ (ok none, r))
            × (lookup 9 r.tasks ≡ some v)
            × (v.status ≡ audit_pending)
            × (v.confirmation.deadline ≡ none)))
auto_approve_on_timeout_cases_example =
    auto_approve_on_timeout_cases true two_rows (some 31) 2000000 9 7 1200003 payout payout_store
      refl refl refl payout-IsPayable

second_try-IsPayable : IsPayable 7 second_try second_store
second_try-IsPayable = (refl, refl, refl, omega arith)

submit_proof_lapsed_example :
    (r : Store) × (u : Task) × (submit_proof_from 9 second_try receipt the_captain 2000000
        second_store
      ≡ (ok second_try, r))
    × (lookup 9 r.tasks ≡ some u)
    × (u.confirmation ≡ second_try.confirmation)
    × ((done : Task) × (q : Store) × (auto_approve_on_timeout true two_rows (some 31) 2000000 9 r
          ≡ (ok (some done), q))
        × IsCompleted 9 q)
unfolding has_live_proof
submit_proof_lapsed_example =
    submit_proof_lapsed true two_rows 9 7 1200003 31 second_try second_try receipt the_captain
      2000000 second_store refl refl refl refl refl (omega arith) second_try-IsPayable
