-- ===== src/Workflow/Endings.antt =====
-- The ways a pay-out ends without being completed, and the recovery of an expired one.
use flitepay.Prelude.{
  ℕ, ◌+◌, ◌≡◌, ◌⊎◌, inl, inr, refl, sym, ◌∙◌, true, false, Option, none, some, [], ◌∷◌, Text, arith,
  is_some, not,
}
use flitepay.Prelude.Int.{ℤ}
use flitepay.Prelude.Dict.{lookup}
use flitepay.Machine.Task.{
  TaskState, created, rejected, reassigned, expired, cancel_review, cancel_disputed, cancelled,
  same, can_transition, holds_collateral, assert_transition,
}
use flitepay.Store.{Store, pure, ◌>>◌}
use flitepay.Store.Tasks.{ActorContext, Task, ReviewDecision, approve, reject}
use flitepay.Store.Finding.{put_task}
use flitepay.Routing.Offers.{reset_routing_for_reassignment}
use flitepay.Workflow.{
  event, system_event, moved, release_payout_hold, when_held, charge, already_decided,
}
use flitepay.Workflow.Recovery.{
  let_go, with_captain, actor_event, with_expiry_reason, after_recovery,
  return_expired_task_to_pool,
}
use flitepay.Workflow.Cancelling.{
  restored_status, after_cancellation, after_decision, refund_party_for_cancelled_task,
  cancel_outright, undo_task, decide_cancellation, with_cancel, reviewed,
}
use flitepay.Workflow.Worth.{stake, is_waiting, is_live, IsBacked, NamesCaptain}
use flitepay.Workflow.Flow.{
  Does, Does-bind, Does-level, Does-pure, Balanced, in_state_eq, assert_legal,
}
use flitepay.Workflow.Money.{refund_party_for_cancelled_task-Does}
use flitepay.Workflow.Routed.{still-then, reset_routing_for_reassignment-Does}
use flitepay.Workflow.Rules.{
  Sustains, Sustains-bind, Sustains-pure, Sustains-lift, Sustains-or_raise, Sustains-check,
  Sustains-Leads, Leads-claim,
}
use flitepay.Workflow.Level.{stake_held, both_left, both_right, Sustains-Still}
use flitepay.Workflow.Refunds.{
  waiting_not_held, stake_waiting, live_waiting, gain-then, release-Does, let_go-IsBacked,
  reassigned_waits,
}

after_recovery-Does :
    (id now : ℕ) (done : Task) (s : Store) → Does (after_recovery id now done) s 0 0
unfolding after_recovery
after_recovery-Does id now done s =
    still-then (reset_routing_for_reassignment id now) (pure done) s
      (reset_routing_for_reassignment-Does id now s) (λ t. Does-pure done t)

pub expired_waits : is_waiting expired ≡ true
unfolding is_waiting
expired_waits = refl

-- Taking an expired task back into the pool: the hold was released when it expired.
pub return_expired_task_to_pool-Balanced :
    (w : ℤ) (id : ℕ) (task : Task) (reason : Option Text) (actor : Option ActorContext) (now : ℕ)
    → Sustains (Balanced w) (return_expired_task_to_pool id task reason actor now)
unfolding return_expired_task_to_pool
return_expired_task_to_pool-Balanced w id task reason actor now =
    Sustains-bind (Sustains-lift (assert_transition task.status rejected)) (λ _.
      Sustains-bind (Sustains-lift (assert_transition rejected reassigned)) (λ _. Sustains-Leads (
        Leads-claim w id already_decided (after_recovery id now) (λ s b. b)
          (λ s t b found passes.
            let here = in_state_eq t expired passes in
            let waits_t : is_waiting t.status ≡ true = rw here expired_waits in
            let history =
              with_captain task.captain_id (system_event rejected reassigned none now)
              ∷ with_captain task.captain_id (actor_event expired rejected actor reason now)
              ∷ [] in
            let u =
              moved reassigned (let_go task.captain_id (with_expiry_reason reason)) history t in
            (
              let_go-IsBacked s t u (b.0 id t found) (live_waiting t.status waits_t)
                  (refl, refl, refl) refl refl (waiting_not_held reassigned reassigned_waits),
              (
                0,
                0,
                after_recovery-Does id now u (put_task id u s),
                omega (arith, stake_waiting t waits_t, stake_waiting u reassigned_waits),
              ),
            )))))

pub stake_cancelled : (t : Task) → t.status ≡ cancelled → stake t ≡ 0
unfolding stake is_waiting holds_collateral
stake_cancelled t e = rw e refl

dead_cancelled : is_live cancelled ≡ false
unfolding is_waiting holds_collateral
dead_cancelled = refl

-- A task that is cancelled, and is otherwise as it was.
pub cancelled-IsBacked :
    (s : Store) (t u : Task)
    → IsBacked s t
    → u.status ≡ cancelled
    → u.party_id ≡ t.party_id
    → u.captain_id ≡ t.captain_id
    → restored_status u ≡ restored_status t
    → IsBacked s u
unfolding holds_collateral is_waiting
cancelled-IsBacked s t u b done party captain restored = (
  rw party b.0,
  λ h. absurd (ground arith),
  λ c named. b.2 c (sym captain ∙ named),
  λ h. absurd (ground arith),
  restored ∙ b.4,
)

after_cancellation-Does :
    (done : Task) (s : Store)
    → is_some (lookup done.party_id s.parties) ≡ true
    → Does (after_cancellation done) s (done.amount + charge done) 0
unfolding after_cancellation
after_cancellation-Does done s there =
    gain-then (refund_party_for_cancelled_task done) (pure done) s (done.amount + charge done)
      (refund_party_for_cancelled_task-Does done s there) (λ t _. Does-pure done t)

unclaimed_waits :
    (from : TaskState)
    → can_transition from cancelled ≡ true
    → (is_waiting from ≡ true) ⊎ (holds_collateral from ≡ true)
unfolding can_transition is_waiting holds_collateral
unclaimed_waits created h = inl refl
unclaimed_waits cancel_review h = inr refl
unclaimed_waits _ h = ground arith

-- A state that can be cancelled, in which no captain holds the task, is one that waits.
pub free_waits :
    (t : Task)
    → can_transition t.status cancelled ≡ true
    → (holds_collateral t.status ≡ true → is_some t.captain_id ≡ true)
    → not (is_some t.captain_id) ≡ true
    → is_waiting t.status ≡ true
free_waits t legal held free = elim (unclaimed_waits t.status legal) [
  | inl waits ↦ waits
  | inr holds ↦ let named = held holds in absurd (ground arith)
]

-- Cancelling a task that nobody holds.
pub cancel_outright-Balanced :
    (w : ℤ) (id : ℕ) (from : TaskState) (reason : Text) (actor : ActorContext) (now : ℕ)
    → Sustains (Balanced w) (cancel_outright id from reason actor now)
unfolding cancel_outright
cancel_outright-Balanced w id from reason actor now =
    Sustains-check (assert_transition from cancelled) _ (λ _ legal. Sustains-Leads (
      Leads-claim w id already_decided after_cancellation (λ s b. b)
        (λ s t b found passes.
          let here = in_state_eq t from (both_left (same t.status from) _ passes) in
          let old = b.0 id t found in
          let waits =
            free_waits t (rw here (assert_legal from cancelled legal)) old.3
              (both_right (same t.status from) (not (is_some t.captain_id)) passes) in
          let u = moved cancelled (λ x. x) (event from cancelled actor (some reason) now ∷ []) t in
          (
            cancelled-IsBacked s t u old refl refl refl refl,
            (
              u.amount + charge u,
              0,
              after_cancellation-Does u (put_task id u s) old.0,
              omega (arith, stake_waiting t waits, stake_cancelled u refl),
            ),
          ))))

after_decision-Does :
    (done : Task) (s : Store)
    → is_some (lookup done.party_id s.parties) ≡ true
    → is_some done.captain_id ≡ true
    → NamesCaptain s done
    → Does (after_decision approve done) s (done.amount + (done.amount + charge done)) 0
unfolding after_decision undo_task
after_decision-Does done s party held there =
    let g = done.amount + charge done in
    let release = when_held done.captain_id (λ c. release_payout_hold c done.amount) in
    let refund = refund_party_for_cancelled_task done in
    let both : Does (release >> refund) s (done.amount + g) 0 =
      Does-level (release >> refund) s (done.amount + g) (0 + 0) (done.amount + g) 0
        (Does-bind release (λ _. refund) s done.amount 0 g 0
          (release-Does done.captain_id done.amount s held there)
          (λ _ t e. refund_party_for_cancelled_task-Does done t (e.1 done.party_id party)))
        (omega arith) in
    gain-then (release >> refund) (pure done) s (done.amount + g) both (λ t _. Does-pure done t)

dispute_holds : holds_collateral cancel_disputed ≡ true
unfolding holds_collateral
dispute_holds = refl

after_dispute : (w : ℤ) (v : Task) → Sustains (Balanced w) (after_decision reject v)
unfolding after_decision undo_task
after_dispute w v = Sustains-bind (Sustains-pure tt) (λ _. Sustains-pure v)

review_holds : holds_collateral cancel_review ≡ true
unfolding holds_collateral
review_holds = refl

-- The review of a cancellation, either way.
pub decide_cancellation-Balanced :
    (w : ℤ) (id : ℕ) (decision : ReviewDecision) (reason : Option Text) (actor : ActorContext)
    (now : ℕ)
    → Sustains (Balanced w) (decide_cancellation id decision reason actor now)
unfolding decide_cancellation
decide_cancellation-Balanced w id approve reason actor now =
    Sustains-bind (Sustains-lift (assert_transition cancel_review cancelled)) (λ _. Sustains-Leads (
      Leads-claim w id already_decided (after_decision approve) (λ s b. b)
        (λ s t b found passes.
          let here = in_state_eq t cancel_review passes in
          let holds : holds_collateral t.status ≡ true = rw here review_holds in
          let old = b.0 id t found in
          let u =
            moved cancelled (with_cancel (reviewed approve reason))
              (event cancel_review cancelled actor reason now ∷ []) t in
          (
            cancelled-IsBacked s t u old refl refl refl refl,
            (
              u.amount + (u.amount + charge u),
              0,
              after_decision-Does u (put_task id u s) old.0 (old.3 holds) old.2,
              omega (arith, stake_held t holds, stake_cancelled u refl),
            ),
          ))))
decide_cancellation-Balanced w id reject reason actor now =
    Sustains-bind (Sustains-lift (assert_transition cancel_review cancel_disputed)) (λ _.
      Sustains-bind
        (Sustains-Still w id _ _ (λ t passes.
          let here = in_state_eq t cancel_review passes in
          ((refl, refl, refl), refl, λ r. r, rw here review_holds, dispute_holds)))
        (λ o. Sustains-bind (Sustains-or_raise o _) (λ v. after_dispute w v)))
