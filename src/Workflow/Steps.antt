-- ===== src/Workflow/Steps.antt =====
-- The life of pay-outs as a system of steps. A step is an operation after it has read the task:
-- other steps may have run since, as long as the task, while it is open, still has the party,
-- amount and charge that were read (`WasRead`; `IsSound-WasRead` is the case without a delay).
-- A creation outside a session has a new id, and charges the party a safe amount.
use flitepay.Prelude.{
  ℕ, ◌≡◌, refl, Bool, false, Option, List, some, Text, is_some, Bool-cases, inl, inr,
}
use flitepay.Prelude.Int.{ℤ}
use flitepay.Machine.Task.{TaskState, rejected}
use flitepay.Store.{Store}
use flitepay.Store.Tasks.{
  ActorContext, Task, RejectionCategory, ReviewDecision, AdminResolution, approved,
}
use flitepay.Store.Finding.{find_and_update}
use flitepay.Routing.Rating.{one_rejection_upheld}
use flitepay.Routing.Offers.{offer_to_next_captain, pass_on}
use flitepay.Workflow.{SubmitProofInput, start_task, submit_proof_from}
use flitepay.Workflow.Completion.{NewRows, complete_task_from, reject_task_from}
use flitepay.Workflow.Recovery.{
  Ruling, approve_it, reassign_it, resolve_task_rejection_from, return_expired_task_to_pool,
  rejection_resolved,
}
use flitepay.Workflow.Cancelling.{
  request_cancellation_from, decide_cancellation, resolve_cancel_dispute_from, cancel_resolved,
}
use flitepay.Workflow.Overdue.{expire_task, cancel_stale_task, no_deadline}
use flitepay.Workflow.Claiming.{Throughput, claim_task_from}
use flitepay.Workflow.Creation.{CreateTaskInput, Bounds, create_task}
use flitepay.Workflow.Making.{MayCreate, create_task-Balanced}
use flitepay.Workflow.Worth.{circulation, IsSound, WasRead}
use flitepay.Workflow.Flow.{Balanced}
use flitepay.Workflow.Money.{record_outcome-Does}
use flitepay.Workflow.Routed.{offer_to_next_captain-Does, pass_on-Does}
use flitepay.Workflow.Rules.{
  Sustains, Sustains-run, Sustains-bind, Sustains-pure, Sustains-when_held, Leads, Leads-run,
  Leads-bind,
}
use flitepay.Workflow.Level.{
  start_task-Balanced, submit_proof_from-Balanced, reject_task_from-Balanced,
  ask_to_cancel-Balanced, give_back-Balanced, Sustains-Level, Sustains-Does, Does-Balanced,
}
use flitepay.Workflow.Refunds.{Ready, reassign_task_from-Balanced}
use flitepay.Workflow.Endings.{
  return_expired_task_to_pool-Balanced, cancel_outright-Balanced, decide_cancellation-Balanced,
}
use flitepay.Workflow.Lapses.{expire_task-Balanced, cancel_stale_task-Balanced}
use flitepay.Workflow.Payments.{complete_task_from-Balanced}
use flitepay.Workflow.Taking.{claim_task_from-Balanced}

-- One run of an operation on the document that it has read.
pub data Step (supports : Bool) (s : Store) : Store → Type 0 where
  creates :
      (bounds : Bounds) (used : Throughput) (id : ℕ) (input : CreateTaskInput)
      (references : List Text) (actor : ActorContext) (now : ℕ)
      → MayCreate id input s
      → Step supports s (create_task false bounds used id input references actor now s).1
  claims :
      (id : ℕ) (task : Task) (captain_id : ℕ) (actor : ActorContext) (now : ℕ)
      → WasRead s id task
      → Step supports s (claim_task_from supports id task captain_id actor now s).1
  starts :
      (id captain_id : ℕ) (actor : ActorContext) (now : ℕ)
      → Step supports s (start_task id captain_id actor now s).1
  submits :
      (id : ℕ) (task : Task) (input : SubmitProofInput) (actor : ActorContext) (now : ℕ)
      → Step supports s (submit_proof_from id task input actor now s).1
  answers :
      (id : ℕ) (filter : Task → Bool) → Step supports s (find_and_update id filter no_deadline s).1
  completes :
      (rows : NewRows) (id : ℕ) (task : Task) (from : TaskState)
      (resolution : Option AdminResolution) (actor : ActorContext) (now : ℕ)
      → WasRead s id task
      → Step supports s (complete_task_from supports rows id task from resolution actor now s).1
  rejects :
      (id : ℕ) (task : Task) (reason : Text) (category : RejectionCategory) (actor : ActorContext)
      (now : ℕ)
      → Step supports s (reject_task_from id task reason category actor now s).1
  resolves :
      (rows : NewRows) (id : ℕ) (task : Task) (ruling : Ruling) (actor : ActorContext) (now : ℕ)
      → WasRead s id task
      → Step supports s (resolve_task_rejection_from supports rows id task ruling actor now s).1
  requests :
      (id : ℕ) (task : Task) (reason : Text) (actor : ActorContext) (now : ℕ)
      → Step supports s (request_cancellation_from id task reason actor now s).1
  reviews :
      (id : ℕ) (decision : ReviewDecision) (reason : Option Text) (actor : ActorContext) (now : ℕ)
      → Step supports s (decide_cancellation id decision reason actor now s).1
  rules :
      (id : ℕ) (task : Task) (ruling : Ruling) (actor : ActorContext) (now : ℕ)
      → WasRead s id task
      → Step supports s (resolve_cancel_dispute_from id task ruling actor now s).1
  expires :
      (now id : ℕ) (task : Task) → WasRead s id task → Step supports s (expire_task now id task s).1
  recovers :
      (id : ℕ) (task : Task) (reason : Option Text) (actor : Option ActorContext) (now : ℕ)
      → Step supports s (return_expired_task_to_pool id task reason actor now s).1
  goes_stale :
      (sentence : ℕ → Text) (now id : ℕ) (task : Task)
      → Step supports s (cancel_stale_task sentence now id task s).1
  offers : (id now : ℕ) → Step supports s (offer_to_next_captain id now s).1
  passes_on : (id missed_by now : ℕ) → Step supports s (pass_on id missed_by now s).1

-- Any number of runs, one after the other.
pub data Run (supports : Bool) (s : Store) : Store → Type 0 where
  start : Run supports s s
  then_step : (t u : Store) → Run supports s t → Step supports t u → Run supports s u

resolve_task_rejection_from-Balanced :
    (w : ℤ) (supports : Bool) (rows : NewRows) (id : ℕ) (task : Task) (ruling : Ruling)
    (actor : ActorContext) (now : ℕ)
    → Leads
        (Ready w id task)
        (Balanced w)
        (resolve_task_rejection_from supports rows id task ruling actor now)
unfolding resolve_task_rejection_from
resolve_task_rejection_from-Balanced w supports rows id task approve_it actor now =
    complete_task_from-Balanced w supports rows id task rejected (some approved) actor now
resolve_task_rejection_from-Balanced w supports rows id task reassign_it actor now =
    Leads-bind
      (reassign_task_from-Balanced w id task actor rejection_resolved now
        (λ t. ((refl, refl, refl), refl, refl)))
      (λ done.
        Sustains-bind
          (Sustains-when_held task.captain_id _
            (λ c. Sustains-Does w (record_outcome-Does c one_rejection_upheld)))
          (λ _. Sustains-pure done))

request_cancellation_from-Balanced :
    (w : ℤ) (id : ℕ) (task : Task) (reason : Text) (actor : ActorContext) (now : ℕ)
    → Sustains (Balanced w) (request_cancellation_from id task reason actor now)
unfolding request_cancellation_from
request_cancellation_from-Balanced w id task reason actor now =
    elim (Bool-cases (is_some task.captain_id)) [
      | inl named ↦ rw named (ask_to_cancel-Balanced w id task.status reason actor now)
      | inr free ↦ rw free (cancel_outright-Balanced w id task.status reason actor now)
    ]

resolve_cancel_dispute_from-Balanced :
    (w : ℤ) (id : ℕ) (task : Task) (ruling : Ruling) (actor : ActorContext) (now : ℕ) (s : Store)
    → Ready w id task s
    → Balanced w (resolve_cancel_dispute_from id task ruling actor now s).1
unfolding resolve_cancel_dispute_from
resolve_cancel_dispute_from-Balanced w id task approve_it actor now s p =
    Sustains-run (give_back-Balanced w id task actor now p.1.2) s p.0
resolve_cancel_dispute_from-Balanced w id task reassign_it actor now s p =
    Leads-run
      (reassign_task_from-Balanced w id task actor (cancel_resolved AdminResolution.reassigned) now
        (λ t. ((refl, refl, refl), refl, refl)))
      s p

Step-Balanced :
    (w : ℤ) (supports : Bool) (s t : Store) → Step supports s t → Balanced w s → Balanced w t
Step-Balanced w supports s _ (creates bounds used id input references actor now may) b =
    Leads-run (create_task-Balanced w bounds used id input references actor now) s (b, may)
Step-Balanced w supports s _ (claims id task c actor now r) b =
    Leads-run (claim_task_from-Balanced w supports id task c actor now) s (b, r)
Step-Balanced w supports s _ (starts id c actor now) b =
    Sustains-run (start_task-Balanced w id c actor now) s b
Step-Balanced w supports s _ (submits id task input actor now) b =
    Sustains-run (submit_proof_from-Balanced w id task input actor now) s b
Step-Balanced w supports s _ (answers id filter) b =
    Sustains-run
      (Sustains-Level w id filter no_deadline (λ t _. ((refl, refl, refl), refl, refl, refl))) s b
Step-Balanced w supports s _ (completes rows id task from resolution actor now r) b =
    Leads-run (complete_task_from-Balanced w supports rows id task from resolution actor now) s
      (b, r)
Step-Balanced w supports s _ (rejects id task reason category actor now) b =
    Sustains-run (reject_task_from-Balanced w id task reason category actor now) s b
Step-Balanced w supports s _ (resolves rows id task ruling actor now r) b =
    Leads-run (resolve_task_rejection_from-Balanced w supports rows id task ruling actor now) s
      (b, r)
Step-Balanced w supports s _ (requests id task reason actor now) b =
    Sustains-run (request_cancellation_from-Balanced w id task reason actor now) s b
Step-Balanced w supports s _ (reviews id decision reason actor now) b =
    Sustains-run (decide_cancellation-Balanced w id decision reason actor now) s b
Step-Balanced w supports s _ (rules id task ruling actor now r) b =
    resolve_cancel_dispute_from-Balanced w id task ruling actor now s (b, r)
Step-Balanced w supports s _ (expires now id task r) b =
    Leads-run (expire_task-Balanced w now id task) s (b, r)
Step-Balanced w supports s _ (recovers id task reason actor now) b =
    Sustains-run (return_expired_task_to_pool-Balanced w id task reason actor now) s b
Step-Balanced w supports s _ (goes_stale sentence now id task) b =
    Leads-run (cancel_stale_task-Balanced w sentence now id task) s b
Step-Balanced w supports s _ (offers id now) b =
    Does-Balanced w (offer_to_next_captain id now) s b (offer_to_next_captain-Does id now s)
Step-Balanced w supports s _ (passes_on id missed_by now) b =
    Does-Balanced w (pass_on id missed_by now) s b (pass_on-Does id missed_by now s)

Run-Balanced :
    (w : ℤ) (supports : Bool) (s t : Store) → Run supports s t → Balanced w s → Balanced w t
Run-Balanced w supports s _ start b = b
Run-Balanced w supports s _ (then_step t u run step) b =
    Step-Balanced w supports t u step (Run-Balanced w supports s t run b)

-- No sequence of the operations of a pay-out creates or destroys DMC: captains, parties, pool, the
-- holds of transactions and what open pay-outs put aside are together worth the same at the end as
-- at the start, and every task is still backed, with every task backed at the start. Each
-- operation claims on the document that it has read, which may be out of date, and may end in an
-- error, in a database transaction or without one.
pub Run-circulates :
    (supports : Bool) (s t : Store)
    → Run supports s t
    → IsSound s
    → (circulation t ≡ circulation s) × IsSound t
Run-circulates supports s t run sound =
    let b = Run-Balanced (circulation s) supports s t run (sound, refl) in (b.1, b.0)
