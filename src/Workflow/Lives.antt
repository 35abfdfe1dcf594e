-- ===== src/Workflow/Lives.antt =====
-- Whole lives of pay-outs: what any number of steps makes of the status of a task.
use flitepay.Prelude.{ℕ, ◌≡◌, refl, sym, Bool, true, some, List, [], ◌∷◌, ◌++◌, arith}
use flitepay.Prelude.Dict.{lookup}
use flitepay.Machine.Task.{TaskState, completed, cancelled, can_transition, is_terminal}
use flitepay.Store.{Store}
use flitepay.Store.Tasks.{Task, TaskStateEvent}
use flitepay.Workflow.Overdue.{no_deadline}
use flitepay.Workflow.Rules.{Sustains-run, Leads-run}
use flitepay.Workflow.Births.{create_task-Tracks}
use flitepay.Workflow.Frame.{
  Trail, Follows, Tracks, find-Tracks, offer_to_next_captain-Tracks, pass_on-Tracks,
}
use flitepay.Workflow.Moving.{
  start_task-Tracks, submit_proof_from-Tracks, reject_task_from-Tracks, complete_task_from-Tracks,
}
use flitepay.Workflow.Lifecycle.{
  resolve_task_rejection_from-Tracks, return_expired_task_to_pool-Tracks,
  request_cancellation_from-Tracks, decide_cancellation-Tracks, resolve_cancel_dispute_from-Tracks,
  expire_task-Tracks, cancel_stale_task-Tracks, claim_task_from-Tracks,
}
use flitepay.Workflow.Steps.{
  Step, creates, claims, starts, submits, answers, completes, rejects, resolves, requests, reviews,
  rules, expires, recovers, goes_stale, offers, passes_on, Run, start, then_step,
}

module _ (id : ℕ) (from : Task) where
  Step-Tracks :
      (supports : Bool) (s t : Store) → Step supports s t → Tracks id from s → Tracks id from t
  Step-Tracks supports s _ (creates bounds used j input references actor now may) p =
      Leads-run (create_task-Tracks id from bounds used j input references actor now) s (may.0, p)
  Step-Tracks supports s _ (claims j task c actor now r) p =
      Sustains-run (claim_task_from-Tracks id from supports j task c actor now) s p
  Step-Tracks supports s _ (starts j c actor now) p =
      Sustains-run (start_task-Tracks id from j c actor now) s p
  Step-Tracks supports s _ (submits j task input actor now) p =
      Sustains-run (submit_proof_from-Tracks id from j task input actor now) s p
  Step-Tracks supports s _ (answers j filter) p =
      Sustains-run (find-Tracks id from j filter no_deadline (λ t _. ([], refl, refl))) s p
  Step-Tracks supports s _ (completes rows j task a resolution actor now r) p =
      Sustains-run (complete_task_from-Tracks id from supports rows j task a resolution actor now) s
        p
  Step-Tracks supports s _ (rejects j task reason category actor now) p =
      Sustains-run (reject_task_from-Tracks id from j task reason category actor now) s p
  Step-Tracks supports s _ (resolves rows j task ruling actor now r) p =
      Sustains-run
        (resolve_task_rejection_from-Tracks id from supports rows j task ruling actor now) s p
  Step-Tracks supports s _ (requests j task reason actor now) p =
      Sustains-run (request_cancellation_from-Tracks id from j task reason actor now) s p
  Step-Tracks supports s _ (reviews j decision reason actor now) p =
      Sustains-run (decide_cancellation-Tracks id from j decision reason actor now) s p
  Step-Tracks supports s _ (rules j task ruling actor now r) p =
      Sustains-run (resolve_cancel_dispute_from-Tracks id from j task ruling actor now) s p
  Step-Tracks supports s _ (expires now j task r) p =
      Sustains-run (expire_task-Tracks id from now j task) s p
  Step-Tracks supports s _ (recovers j task reason actor now) p =
      Sustains-run (return_expired_task_to_pool-Tracks id from j task reason actor now) s p
  Step-Tracks supports s _ (goes_stale sentence now j task) p =
      Sustains-run (cancel_stale_task-Tracks id from sentence now j task) s p
  Step-Tracks supports s _ (offers j now) p =
      Sustains-run (offer_to_next_captain-Tracks id from j now) s p
  Step-Tracks supports s _ (passes_on j missed_by now) p =
      Sustains-run (pass_on-Tracks id from j missed_by now) s p

  Run-Tracks :
      (supports : Bool) (s t : Store) → Run supports s t → Tracks id from s → Tracks id from t
  Run-Tracks supports s _ start p = p
  Run-Tracks supports s _ (then_step t u run step) p =
      Step-Tracks supports t u step (Run-Tracks supports s t run p)

-- Any sequence of operations, each on a document that may be out of date, leaves the task there
-- and only adds to its history: each new entry enters a state that the table allows from the one
-- before it, beginning at the status that the task had, and the last one is the status it has.
pub Run-refines :
    (supports : Bool) (s t : Store) (id : ℕ) (x : Task)
    → Run supports s t
    → lookup id s.tasks ≡ some x
    → (y : Task) × (lookup id t.tasks ≡ some y)
      × ((es : List TaskStateEvent) × (y.state_history ≡ es ++ x.state_history)
          × Trail x.status es y.status)
Run-refines supports s t id x run found =
    Run-Tracks id x supports s t run (x, found, ([], refl, refl))

closed : (a b : TaskState) → can_transition a b ≡ true → is_terminal a ≡ true → ⊥
unfolding is_terminal can_transition
closed completed b legal h = cc
closed cancelled b legal h = cc
closed _ b legal h = ground arith

Trail-ends :
    (a b : TaskState) (es : List TaskStateEvent) → Trail a es b → is_terminal a ≡ true → b ≡ a
Trail-ends a b [] p h = sym p
Trail-ends a b (e ∷ es) (_, (c, legal, p)) h =
    absurd (closed c b legal (rw (Trail-ends a c es p h) h))

pub terminal_stays : (t u : Task) → Follows t u → is_terminal t.status ≡ true → u.status ≡ t.status
terminal_stays t u (es, _, p) h = Trail-ends t.status u.status es p h

-- A pay-out that is COMPLETED or CANCELLED stays so, whatever operations run afterwards.
pub Run-final :
    (supports : Bool) (s t : Store) (id : ℕ) (x : Task)
    → Run supports s t
    → lookup id s.tasks ≡ some x
    → is_terminal x.status ≡ true
    → (y : Task) × (lookup id t.tasks ≡ some y) × (y.status ≡ x.status)
Run-final supports s t id x run found over =
    let (y, there, path) = Run-refines supports s t id x run found in
    (y, there, terminal_stays x y path over)
