-- ===== src/Workflow/Moving.antt =====
-- Each operation of a pay-out moves the tasks along the table of server/src/types/index.ts.
use flitepay.Prelude.{[], ◌∷◌, ◌∙◌}
use flitepay.Store.Tasks.{TaskStateEvent}
use flitepay.Prelude.{ℕ, ◌≡◌, refl, sym, subst, Bool, true, Option, Text}
use flitepay.Errors.{AppError, conflict, not_pending_audit, internal}
use flitepay.Machine.Task.{
  TaskState, assigned, in_progress, proof_submitted, audit_pending, rejected, completed, same,
  can_transition, assert_transition,
}
use flitepay.Store.{Action, or_raise, pure, ◌>>=◌}
use flitepay.Store.Tasks.{ActorContext, Task, RejectionCategory, AdminResolution}
use flitepay.Store.Finding.{find_and_update}
use flitepay.Routing.Rating.{one_completed, one_proof_rejected}
use flitepay.Workflow.{
  SubmitProofInput, start_task, submit_proof_from, ask_party, new_proof, already_decided,
  captain_part, charge,
}
use flitepay.Workflow.Completion.{
  NewRows, reject_task_from, pay_captain_for_completed_task, pay_completion, after_claim,
  completion_body, complete_for, complete_task_from, entry_for, is_on_time,
}
use flitepay.Workflow.Flow.{in_state_eq, assert_legal}
use flitepay.Workflow.Rules.{
  Sustains, Sustains-bind, Sustains-pure, Sustains-lift, Sustains-check, Sustains-when_held,
  Sustains-or_raise, Sustains-raise_if, Sustains-reads, Sustains-load_owned_task,
}
use flitepay.Workflow.Level.{both_left}
use flitepay.Workflow.Frame.{
  Follows, Tracks, Tracks-atomically, add_to_balance-Tracks, allocate-Tracks, collect_charge-Tracks,
  create_platform_allocation-Tracks, create_proof-Tracks, credit_commission-Tracks, find-Tracks,
  pay_share-Tracks, record_outcome-Tracks,
}

-- A write that enters a state and puts that on the history.
abbrev pub Enters : TaskState → Task → Task → Type 0
Enters b t u =
    (e : TaskStateEvent) × (u.state_history ≡ e ∷ t.state_history) × (e.to ≡ b) × (u.status ≡ b)

hop :
    (t u : Task) (a b : TaskState)
    → t.status ≡ a
    → can_transition a b ≡ true
    → Enters b t u
    → Follows t u
hop t u a b same_state legal (e, recorded, entered, arrived) = (
  e ∷ [],
  recorded,
  (
    entered ∙ sym arrived,
    (a, subst (λ x. can_transition a x ≡ true) (sym arrived) legal, same_state),
  ),
)

module _ (id : ℕ) (from : Task) where
  -- A conditional write that enters a state.
  pub enter-Tracks :
      (j : ℕ) (b : TaskState) (filter : Task → Bool) (update : Task → Task)
      → ((t : Task) → filter t ≡ true → can_transition t.status b ≡ true)
      → ((t : Task) → Enters b t (update t))
      → Sustains (Tracks id from) (find_and_update j filter update)
  enter-Tracks j b filter update legal target =
      find-Tracks id from j filter update
        (λ t passes. hop t (update t) t.status b refl (legal t passes) (target t))

  -- A claim from one state to another, and what follows it.
  pub claim-Tracks :
      {A : Type 0} (j : ℕ) (a b : TaskState) (filter : Task → Bool) (update : Task → Task)
      (e : AppError) (k : Task → Action A)
      → can_transition a b ≡ true
      → ((t : Task) → filter t ≡ true → t.status ≡ a)
      → ((t : Task) → Enters b t (update t))
      → ((t : Task) → Sustains (Tracks id from) (k t))
      → Sustains (Tracks id from) (find_and_update j filter update >>= λ o. or_raise o e >>= k)
  claim-Tracks j a b filter update e k legal only target h =
      Sustains-bind (enter-Tracks j b filter update (λ t passes. rw (only t passes) legal) target)
        (λ o. Sustains-bind (Sustains-or_raise o e) h)

  pub start_task-Tracks :
      (j c : ℕ) (actor : ActorContext) (now : ℕ)
      → Sustains (Tracks id from) (start_task j c actor now)
  unfolding start_task can_transition
  start_task-Tracks j c actor now = Sustains-bind (Sustains-load_owned_task j c) (λ task.
      Sustains-bind (Sustains-lift (assert_transition task.status in_progress)) (λ _.
        claim-Tracks j assigned in_progress _ _ already_decided (λ _. pure task) refl
          (λ t passes. in_state_eq t assigned (both_left (same t.status assigned) _ passes))
          (λ t. (_, refl, refl, refl)) (λ _. Sustains-pure task)))

  ask_party-Tracks :
      (j : ℕ) (task : Task) (now : ℕ) → Sustains (Tracks id from) (ask_party j task now)
  unfolding ask_party
  ask_party-Tracks j task now =
      Sustains-bind (Sustains-reads _)
        (λ minutes. find-Tracks id from j _ _ (λ t _. ([], refl, refl)))

  pub submit_proof_from-Tracks :
      (j : ℕ) (task : Task) (input : SubmitProofInput) (actor : ActorContext) (now : ℕ)
      → Sustains (Tracks id from) (submit_proof_from j task input actor now)
  unfolding submit_proof_from can_transition
  submit_proof_from-Tracks j task input actor now = Sustains-bind (Sustains-reads _) (λ existing.
      Sustains-bind (Sustains-raise_if existing _) (λ _.
        claim-Tracks j in_progress proof_submitted _ _ _ _ refl
          (λ t passes. in_state_eq t in_progress (both_left (same t.status in_progress) _ passes))
          (λ t. (_, refl, refl, refl))
          (λ _. Sustains-bind (create_proof-Tracks id from (new_proof j input now)) (λ _.
            Sustains-bind (Sustains-lift _) (λ _.
              claim-Tracks j proof_submitted audit_pending _ _ already_decided _ refl
                (λ t passes. in_state_eq t proof_submitted passes) (λ t. (_, refl, refl, refl))
                (λ _. Sustains-bind (ask_party-Tracks j task now) (λ _. Sustains-pure task)))))))

  pub reject_task_from-Tracks :
      (j : ℕ) (task : Task) (reason : Text) (category : RejectionCategory) (actor : ActorContext)
      (now : ℕ)
      → Sustains (Tracks id from) (reject_task_from j task reason category actor now)
  unfolding reject_task_from can_transition
  reject_task_from-Tracks j task reason category actor now =
      Sustains-bind (Sustains-lift (assert_transition audit_pending rejected)) (λ _.
        claim-Tracks j audit_pending rejected _ _ already_decided _ refl
          (λ t passes. in_state_eq t audit_pending passes) (λ t. (_, refl, refl, refl))
          (λ v.
            Sustains-bind
              (Sustains-when_held task.captain_id _
                (λ c. record_outcome-Tracks id from c one_proof_rejected))
              (λ _. Sustains-pure v)))

  pay_captain-Tracks :
      (session : Bool) (j : ℕ) (task : Task) (c : ℕ)
      → Sustains (Tracks id from) (pay_captain_for_completed_task session j task c)
  unfolding pay_captain_for_completed_task
  pay_captain-Tracks session j task c =
      Sustains-bind (collect_charge-Tracks id from (charge task)) (λ _.
        Sustains-bind (add_to_balance-Tracks id from c _)
          (λ _. pay_share-Tracks id from session j c (captain_part task)))

  pub after_claim-Tracks :
      (session : Bool) (rows : NewRows) (j : ℕ) (task : Task) (c version now : ℕ) (done : Task)
      → Sustains (Tracks id from) (after_claim session rows j task c version now done)
  unfolding after_claim pay_completion
  after_claim-Tracks session rows j task c version now done =
      Sustains-bind
        (Sustains-bind (credit_commission-Tracks id from j (entry_for task c version now)) (λ _.
          Sustains-bind (pay_captain-Tracks session j task c) (λ _.
            Sustains-bind (allocate-Tracks id from rows.captain_allocation _ c _ j task _)
              (λ _. create_platform_allocation-Tracks id from rows.platform_allocation j task _))))
        (λ _. Sustains-pure done)

  completion_body-Tracks :
      (session : Bool) (rows : NewRows) (j : ℕ) (task : Task) (c version : ℕ) (a : TaskState)
      (resolution : Option AdminResolution) (actor : ActorContext) (now : ℕ)
      → can_transition a completed ≡ true
      → Sustains
          (Tracks id from)
          (completion_body session rows j task c version a resolution actor now)
  unfolding completion_body
  completion_body-Tracks session rows j task c version a resolution actor now legal =
      claim-Tracks j a completed _ _ (conflict not_pending_audit)
        (after_claim session rows j task c version now) legal (λ t passes. in_state_eq t a passes)
        (λ t. (_, refl, refl, refl)) (after_claim-Tracks session rows j task c version now)

  complete_for-Tracks :
      (supports : Bool) (rows : NewRows) (j : ℕ) (task : Task) (c : ℕ) (a : TaskState)
      (resolution : Option AdminResolution) (actor : ActorContext) (now : ℕ)
      → can_transition a completed ≡ true
      → Sustains (Tracks id from) (complete_for supports rows j task c a resolution actor now)
  unfolding complete_for
  complete_for-Tracks supports rows j task c a resolution actor now legal =
      Sustains-bind (Sustains-raise_if _ internal) (λ _.
        Sustains-bind (Sustains-reads (λ s. s.config.version)) (λ version.
          Sustains-bind
            (Tracks-atomically id from supports
              (completion_body-Tracks supports rows j task c version a resolution actor now legal))
            (λ done.
              Sustains-bind
                (record_outcome-Tracks id from c
                  (one_completed (is_on_time task.times.expires_at now)))
                (λ _. Sustains-pure done))))

  pub complete_task_from-Tracks :
      (supports : Bool) (rows : NewRows) (j : ℕ) (task : Task) (a : TaskState)
      (resolution : Option AdminResolution) (actor : ActorContext) (now : ℕ)
      → Sustains (Tracks id from) (complete_task_from supports rows j task a resolution actor now)
  unfolding complete_task_from
  complete_task_from-Tracks supports rows j task a resolution actor now =
      Sustains-check (assert_transition a completed) _ (λ _ legal.
        Sustains-bind (Sustains-or_raise task.captain_id internal) (λ c.
          complete_for-Tracks supports rows j task c a resolution actor now
            (assert_legal a completed legal)))
