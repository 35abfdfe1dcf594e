-- ===== src/Tests/Tasks.antt =====
-- Pay-outs on small inputs.
use flitepay.Prelude.{
  ℕ, ◌≡◌, inl, inr, refl, sym, subst, true, false, none, some, [], ◌∷◌, arith, ◌==◌, is_some,
  Bool-cases,
}
use flitepay.Prelude.{List, ◌++◌}
use flitepay.Prelude.Dict.{lookup}
use flitepay.Machine.Task.{audit_pending, completed, holds_collateral, is_terminal}
use flitepay.Store.{Store}
use flitepay.Store.Tasks.{TaskStateEvent, Role, ActorContext, Task}
use flitepay.Workflow.Completion.{complete_task_from}
use flitepay.Workflow.Worth.{circulation, IsBacked, IsSound, IsSound-WasRead}
use flitepay.Workflow.Steps.{Run, start, then_step, completes, offers, Run-circulates}
use flitepay.Workflow.Frame.{Trail}
use flitepay.Workflow.Lives.{Run-refines, Run-final}
use flitepay.Routing.Offers.{offer_to_next_captain}
use flitepay.Workflow.Claiming.{claim_task_from}
use flitepay.Workflow.Losing.{claim_task_from_taken}
use flitepay.Machine.Task.{is_claimable}
use flitepay.Errors.{AppError, err}
use flitepay.Tests.Data.{shop_store, payout, payout_store, two_rows}

abbrev the_party : ActorContext
the_party = record { user_id = 31; role = Role.party }

only_payout : (id : ℕ) (t : Task) → lookup id payout_store.tasks ≡ some t → t ≡ payout
only_payout id t e = elim (Bool-cases (id == 9)) [
  | inl here ↦ ground arith
  | inr other ↦ ground arith
]

payout_store-IsSound : IsSound payout_store
unfolding holds_collateral
payout_store-IsSound id t e =
    subst (IsBacked payout_store) (sym (only_payout id t e))
      (refl, (λ _. omega arith), (λ c named. there c named), (λ _. refl), refl)
  where
    there : (c : ℕ) → payout.captain_id ≡ some c → is_some (lookup c payout_store.captains) ≡ true
    there c named =
        let seven : 7 ≡ c = ground arith in
        subst (λ x. is_some (lookup x payout_store.captains) ≡ true) seven refl

abbrev after_approval : Store
after_approval =
    (complete_task_from true two_rows 9 payout audit_pending none the_party 5 payout_store).1

approving : Run true payout_store after_approval
approving = then_step payout_store after_approval start (
    completes two_rows 9 payout audit_pending none the_party 5
      (IsSound-WasRead payout_store 9 payout payout_store-IsSound refl))

Run-circulates_example :
    (circulation after_approval ≡ circulation payout_store) × IsSound after_approval
Run-circulates_example =
    Run-circulates true payout_store after_approval approving payout_store-IsSound

Run-refines_example :
    (y : Task) × (lookup 9 after_approval.tasks ≡ some y)
    × ((es : List TaskStateEvent) × (y.state_history ≡ es ++ payout.state_history)
        × Trail audit_pending es y.status)
Run-refines_example = Run-refines true payout_store after_approval 9 payout approving refl

-- A pay-out that is over.
abbrev paid_out : Task
paid_out = record payout { status = completed }

abbrev paid_store : Store
paid_store = record shop_store { tasks = (9, paid_out) ∷ [] }

abbrev offered_again : Store
offered_again = (offer_to_next_captain 9 60 paid_store).1

Run-final_example : (y : Task) × (lookup 9 offered_again.tasks ≡ some y) × (y.status ≡ completed)
unfolding is_terminal
Run-final_example =
    Run-final true paid_store offered_again 9 paid_out
      (then_step paid_store offered_again start (offers 9 60)) refl refl

-- Captain 7 asks again for the pay-out that they have.
abbrev the_captain : ActorContext
the_captain = record { user_id = 7; role = Role.captain }

claim_task_from_taken_example :
    (e : AppError) × (r : Store) × (claim_task_from false 9 payout 7 the_captain 5 payout_store
      ≡ (err e, r))
    × (lookup 7 r.captains ≡ lookup 7 payout_store.captains)
    × (r.tasks ≡ payout_store.tasks)
unfolding is_claimable
claim_task_from_taken_example =
    claim_task_from_taken false 9 7 payout payout the_captain 5 payout_store refl refl
