-- ===== src/Workflow/Lifecycle.antt =====
-- The statuses that a run of operations leaves are those of the table of server/src/types/index.ts.
use flitepay.Workflow.{system_event}
use flitepay.Workflow.Recovery.{actor_event, with_captain}
use flitepay.Prelude.{[], ◌∷◌}
use flitepay.Prelude.{
  ℕ, ◌≡◌, inl, inr, refl, Bool, true, false, not, Option, none, some, Text, arith, is_some,
  Bool-cases,
}
use flitepay.Errors.{conflict, task_already_claimed}
use flitepay.Commission.{CaptainShare}
use flitepay.Machine.Task.{
  TaskState, created, assigned, rejected, reassigned, expired, cancel_review, cancel_disputed,
  cancelled, same, can_transition, is_claimable, assert_transition,
}
use flitepay.Store.Tasks.{
  ActorContext, Task, ReviewDecision, approve, reject, AdminResolution, approved,
}
use flitepay.Routing.Rating.{one_rejection_upheld, one_expired, one_offer_accepted}
use flitepay.Workflow.{already_decided}
use flitepay.Workflow.Completion.{NewRows}
use flitepay.Workflow.Recovery.{
  Ruling, approve_it, reassign_it, after_reassignment, reassign_task_from, rejection_resolved,
  resolve_task_rejection_from, after_recovery, return_expired_task_to_pool,
}
use flitepay.Workflow.Cancelling.{
  after_cancellation, cancel_outright, ask_to_cancel, request_cancellation_from, undo_task,
  after_decision, decide_cancellation, cancel_resolved, restored_status,
  resolve_cancel_dispute_from, review_outcome,
}
use flitepay.Workflow.Overdue.{
  let_expire, after_expiry, expire_task, after_stale, cancel_stale_task,
}
use flitepay.Workflow.Claiming.{
  hold_for_payout, refuse_hold, claim_lost, after_swap, after_hold, claim_body, count_accepted,
  settle_offer, claim_at, claim_task_from,
}
use flitepay.Workflow.Flow.{in_state_eq, assert_legal}
use flitepay.Workflow.Rules.{
  Sustains, Sustains-bind, Sustains-pure, Sustains-raise, Sustains-lift, Sustains-check,
  Sustains-when_held, Sustains-or_raise, Sustains-reads,
}
use flitepay.Workflow.Level.{both_left, both_right}
use flitepay.Workflow.Frame.{
  Tracks, find-Tracks, Tracks-same, Tracks-atomically, release_payout_hold-Tracks,
  record_outcome-Tracks, refund-Tracks, supersede_proof_for-Tracks, withdraw_open_offers-Tracks,
  mark_offer_accepted-Tracks, reset_routing-Tracks, release-Tracks,
}
use flitepay.Workflow.Moving.{enter-Tracks, claim-Tracks, complete_task_from-Tracks}

actor_event_to :
    (a b : TaskState) (actor : Option ActorContext) (reason : Option Text) (now : ℕ)
    → (actor_event a b actor reason now).to ≡ b
actor_event_to a b none reason now = refl
actor_event_to a b (some x) reason now = refl

claimable_assigned : (s : TaskState) → is_claimable s ≡ true → can_transition s assigned ≡ true
unfolding is_claimable can_transition
claimable_assigned created h = refl
claimable_assigned _ h = ground arith

module _ (id : ℕ) (from : Task) where
  after_reassignment-Tracks :
      (j : ℕ) (task : Task) (now : ℕ) (done : Task)
      → Sustains (Tracks id from) (after_reassignment j task now done)
  unfolding after_reassignment
  after_reassignment-Tracks j task now done =
      Sustains-bind (supersede_proof_for-Tracks id from j now) (λ _.
        Sustains-bind (release-Tracks id from task.captain_id task.amount)
          (λ _. Sustains-bind (reset_routing-Tracks id from j now) (λ _. Sustains-pure done)))

  pub reassign_task_from-Tracks :
      (j : ℕ) (task : Task) (actor : ActorContext) (extra : Task → Task) (now : ℕ)
      → Sustains (Tracks id from) (reassign_task_from j task actor extra now)
  unfolding reassign_task_from
  reassign_task_from-Tracks j task actor extra now =
      Sustains-check (assert_transition task.status reassigned) _ (λ _ legal.
        claim-Tracks id from j task.status reassigned _ _ already_decided
          (after_reassignment j task now) (assert_legal task.status reassigned legal)
          (λ t passes. in_state_eq t task.status passes) (λ t. (_, refl, refl, refl))
          (after_reassignment-Tracks j task now))

  pub resolve_task_rejection_from-Tracks :
      (supports : Bool) (rows : NewRows) (j : ℕ) (task : Task) (ruling : Ruling)
      (actor : ActorContext) (now : ℕ)
      → Sustains
          (Tracks id from)
          (resolve_task_rejection_from supports rows j task ruling actor now)
  unfolding resolve_task_rejection_from
  resolve_task_rejection_from-Tracks supports rows j task approve_it actor now =
      complete_task_from-Tracks id from supports rows j task rejected (some approved) actor now
  resolve_task_rejection_from-Tracks supports rows j task reassign_it actor now =
      Sustains-bind (reassign_task_from-Tracks j task actor rejection_resolved now) (λ done.
        Sustains-bind
          (Sustains-when_held task.captain_id _
            (λ c. record_outcome-Tracks id from c one_rejection_upheld))
          (λ _. Sustains-pure done))

  after_recovery-Tracks :
      (j now : ℕ) (done : Task) → Sustains (Tracks id from) (after_recovery j now done)
  unfolding after_recovery
  after_recovery-Tracks j now done =
      Sustains-bind (reset_routing-Tracks id from j now) (λ _. Sustains-pure done)

  -- An expired task goes back by way of a rejection.
  pub return_expired_task_to_pool-Tracks :
      (j : ℕ) (task : Task) (reason : Option Text) (actor : Option ActorContext) (now : ℕ)
      → Sustains (Tracks id from) (return_expired_task_to_pool j task reason actor now)
  unfolding return_expired_task_to_pool can_transition
  return_expired_task_to_pool-Tracks j task reason actor now =
      Sustains-bind (Sustains-lift (assert_transition task.status rejected)) (λ _.
        Sustains-bind (Sustains-lift (assert_transition rejected reassigned)) (λ _.
          Sustains-bind
            (find-Tracks id from j _ _ (λ t passes. (
              with_captain task.captain_id (system_event rejected reassigned none now)
                  ∷ with_captain task.captain_id (actor_event expired rejected actor reason now)
                  ∷ [],
              refl,
              (
                refl,
                (
                  rejected,
                  refl,
                  (
                    actor_event_to expired rejected actor reason now,
                    (expired, refl, in_state_eq t expired passes),
                  ),
                ),
              ),
            )))
            (λ o.
              Sustains-bind (Sustains-or_raise o already_decided)
                (λ done. after_recovery-Tracks j now done))))

  after_cancellation-Tracks : (done : Task) → Sustains (Tracks id from) (after_cancellation done)
  unfolding after_cancellation
  after_cancellation-Tracks done =
      Sustains-bind (refund-Tracks id from done) (λ _. Sustains-pure done)

  cancel_outright-Tracks :
      (j : ℕ) (a : TaskState) (reason : Text) (actor : ActorContext) (now : ℕ)
      → Sustains (Tracks id from) (cancel_outright j a reason actor now)
  unfolding cancel_outright
  cancel_outright-Tracks j a reason actor now =
      Sustains-check (assert_transition a cancelled) _ (λ _ legal.
        claim-Tracks id from j a cancelled _ _ already_decided after_cancellation
          (assert_legal a cancelled legal)
          (λ t passes. in_state_eq t a (both_left (same t.status a) _ passes))
          (λ t. (_, refl, refl, refl)) after_cancellation-Tracks)

  ask_to_cancel-Tracks :
      (j : ℕ) (a : TaskState) (reason : Text) (actor : ActorContext) (now : ℕ)
      → Sustains (Tracks id from) (ask_to_cancel j a reason actor now)
  unfolding ask_to_cancel
  ask_to_cancel-Tracks j a reason actor now =
      Sustains-check (assert_transition a cancel_review) _ (λ _ legal.
        Sustains-bind
          (enter-Tracks id from j cancel_review _ _
            (λ t passes. rw (in_state_eq t a passes) (assert_legal a cancel_review legal))
            (λ t. (_, refl, refl, refl)))
          (λ o. Sustains-or_raise o already_decided))

  pub request_cancellation_from-Tracks :
      (j : ℕ) (task : Task) (reason : Text) (actor : ActorContext) (now : ℕ)
      → Sustains (Tracks id from) (request_cancellation_from j task reason actor now)
  unfolding request_cancellation_from
  request_cancellation_from-Tracks j task reason actor now =
      elim (Bool-cases (is_some task.captain_id)) [
        | inl named ↦ rw named (ask_to_cancel-Tracks j task.status reason actor now)
        | inr free ↦ rw free (cancel_outright-Tracks j task.status reason actor now)
      ]

  after_decision-Tracks :
      (decision : ReviewDecision) (done : Task)
      → Sustains (Tracks id from) (after_decision decision done)
  unfolding after_decision undo_task
  after_decision-Tracks reject done = Sustains-bind (Sustains-pure tt) (λ _. Sustains-pure done)
  after_decision-Tracks approve done =
      Sustains-bind
        (Sustains-bind (release-Tracks id from done.captain_id done.amount)
          (λ _. refund-Tracks id from done))
        (λ _. Sustains-pure done)

  pub decide_cancellation-Tracks :
      (j : ℕ) (decision : ReviewDecision) (reason : Option Text) (actor : ActorContext) (now : ℕ)
      → Sustains (Tracks id from) (decide_cancellation j decision reason actor now)
  unfolding decide_cancellation
  decide_cancellation-Tracks j decision reason actor now =
      Sustains-check (assert_transition cancel_review (review_outcome decision)) _ (λ _ legal.
        claim-Tracks id from j cancel_review (review_outcome decision) _ _ already_decided
          (after_decision decision) (assert_legal cancel_review (review_outcome decision) legal)
          (λ t passes. in_state_eq t cancel_review passes) (λ t. (_, refl, refl, refl))
          (after_decision-Tracks decision))

  pub resolve_cancel_dispute_from-Tracks :
      (j : ℕ) (task : Task) (ruling : Ruling) (actor : ActorContext) (now : ℕ)
      → Sustains (Tracks id from) (resolve_cancel_dispute_from j task ruling actor now)
  unfolding resolve_cancel_dispute_from
  resolve_cancel_dispute_from-Tracks j task reassign_it actor now =
      reassign_task_from-Tracks j task actor (cancel_resolved AdminResolution.reassigned) now
  resolve_cancel_dispute_from-Tracks j task approve_it actor now =
      let to = restored_status task in
      Sustains-check (assert_transition cancel_disputed to) _ (λ _ legal.
        Sustains-bind
          (enter-Tracks id from j to _ _
            (λ t passes.
              rw (in_state_eq t cancel_disputed passes) (assert_legal cancel_disputed to legal))
            (λ t. (_, refl, refl, refl)))
          (λ o. Sustains-or_raise o already_decided))

  let_expire-Tracks : (o : Option ℕ) (amount : ℕ) → Sustains (Tracks id from) (let_expire o amount)
  unfolding let_expire
  let_expire-Tracks o amount = Sustains-when_held o _ (λ c.
      Sustains-bind (release_payout_hold-Tracks id from c amount)
        (λ _. record_outcome-Tracks id from c one_expired))

  after_expiry-Tracks :
      (read : Task) (o : Option Task) → Sustains (Tracks id from) (after_expiry read o)
  unfolding after_expiry
  after_expiry-Tracks read none = Sustains-pure false
  after_expiry-Tracks read (some t) =
      Sustains-bind (let_expire-Tracks read.captain_id read.amount) (λ _. Sustains-pure true)

  pub expire_task-Tracks :
      (now j : ℕ) (task : Task) → Sustains (Tracks id from) (expire_task now j task)
  unfolding expire_task
  expire_task-Tracks now j task =
      Sustains-check (assert_transition task.status expired) _ (λ _ legal.
        Sustains-bind (Sustains-reads _) (λ minutes.
          Sustains-bind
            (enter-Tracks id from j expired _ _
              (λ t passes.
                rw (in_state_eq t task.status passes) (assert_legal task.status expired legal))
              (λ t. (_, refl, refl, refl)))
            (after_expiry-Tracks task)))

  after_stale-Tracks :
      (j now : ℕ) (o : Option Task) → Sustains (Tracks id from) (after_stale j now o)
  unfolding after_stale
  after_stale-Tracks j now none = Sustains-pure false
  after_stale-Tracks j now (some t) =
      Sustains-bind (withdraw_open_offers-Tracks id from j none now)
        (λ _. Sustains-bind (refund-Tracks id from t) (λ _. Sustains-pure true))

  pub cancel_stale_task-Tracks :
      (sentence : ℕ → Text) (now j : ℕ) (task : Task)
      → Sustains (Tracks id from) (cancel_stale_task sentence now j task)
  unfolding cancel_stale_task
  cancel_stale_task-Tracks sentence now j task =
      Sustains-check (assert_transition task.status cancelled) _ (λ _ legal.
        Sustains-bind (Sustains-reads _) (λ minutes.
          Sustains-bind
            (enter-Tracks id from j cancelled _ _
              (λ t passes.
                let as_read : t.status ≡ task.status =
                  in_state_eq t task.status (both_left (same t.status task.status) _ passes) in
                rw as_read (assert_legal task.status cancelled legal))
              (λ t. (_, refl, refl, refl)))
            (after_stale-Tracks j now)))

  hold_for_payout-Tracks : (c amount : ℕ) → Sustains (Tracks id from) (hold_for_payout c amount)
  unfolding hold_for_payout
  hold_for_payout-Tracks c amount = Tracks-same id from (λ s. ground arith)

  after_swap-Tracks :
      (supports : Bool) (c amount : ℕ) (o : Option Task)
      → Sustains (Tracks id from) (after_swap supports c amount o)
  unfolding after_swap claim_lost
  after_swap-Tracks supports c amount (some t) = Sustains-pure t
  after_swap-Tracks true c amount none = Sustains-raise (conflict task_already_claimed)
  after_swap-Tracks false c amount none =
      Sustains-bind (release_payout_hold-Tracks id from c amount)
        (λ _. Sustains-raise (conflict task_already_claimed))

  after_hold-Tracks :
      (supports : Bool) (j c amount : ℕ) (share : CaptainShare) (minutes : ℕ) (actor : ActorContext)
      (now : ℕ) (held : Bool)
      → Sustains (Tracks id from) (after_hold supports j c amount share minutes actor now held)
  unfolding after_hold refuse_hold
  after_hold-Tracks supports j c amount share minutes actor now false =
      Tracks-same id from (λ s. ground arith)
  after_hold-Tracks supports j c amount share minutes actor now true =
      Sustains-bind
        (enter-Tracks id from j assigned _ _
          (λ t passes.
            claimable_assigned t.status (both_right (not (is_some t.captain_id)) _ passes))
          (λ t. (_, refl, refl, refl)))
        (after_swap-Tracks supports c amount)

  count_accepted-Tracks : (c : ℕ) (o : Option ℕ) → Sustains (Tracks id from) (count_accepted c o)
  unfolding count_accepted
  count_accepted-Tracks c none = Sustains-pure tt
  count_accepted-Tracks c (some seconds) =
      record_outcome-Tracks id from c (one_offer_accepted seconds)

  settle_offer-Tracks : (j c now : ℕ) → Sustains (Tracks id from) (settle_offer j c now)
  unfolding settle_offer
  settle_offer-Tracks j c now = Sustains-bind (mark_offer_accepted-Tracks id from j c now) (λ o.
      Sustains-bind (count_accepted-Tracks c o)
        (λ _. withdraw_open_offers-Tracks id from j (some c) now))

  claim_at-Tracks :
      (supports : Bool) (j : ℕ) (task : Task) (c : ℕ) (actor : ActorContext) (now : ℕ)
      (share : CaptainShare)
      → Sustains (Tracks id from) (claim_at supports j task c actor now share)
  unfolding claim_at claim_body
  claim_at-Tracks supports j task c actor now share = Sustains-bind (Sustains-reads _) (λ minutes.
      Sustains-bind
        (Tracks-atomically id from supports (
          Sustains-bind (hold_for_payout-Tracks c task.amount)
            (after_hold-Tracks supports j c task.amount share minutes actor now)))
        (λ claimed. Sustains-bind (settle_offer-Tracks j c now) (λ _. Sustains-pure claimed)))

  pub claim_task_from-Tracks :
      (supports : Bool) (j : ℕ) (task : Task) (c : ℕ) (actor : ActorContext) (now : ℕ)
      → Sustains (Tracks id from) (claim_task_from supports j task c actor now)
  unfolding claim_task_from
  claim_task_from-Tracks supports j task c actor now =
      Sustains-bind (Sustains-reads _) (λ priced.
        Sustains-bind (Sustains-lift priced) (claim_at-Tracks supports j task c actor now))
