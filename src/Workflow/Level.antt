-- ===== src/Workflow/Level.antt =====
-- The operations that move no money: starting, submitting a proof, asking to cancel, rejecting a
-- proof, and giving a task back to its captain.
use flitepay.Prelude.{
  ℕ, ◌+◌, ◌*◌, ◌≡◌, ◌∷◌, inl, inr, refl, sym, ◌∙◌, Bool, true, false, ◌&&◌, Option, some, Text,
  arith,
}
use flitepay.Prelude.Int.{ℤ}
use flitepay.Prelude.Dict.{lookup}
use flitepay.Machine.Task.{
  TaskState, created, assigned, in_progress, proof_submitted, audit_pending, cancel_review,
  cancel_disputed, same, can_transition, holds_collateral, assert_transition,
}
use flitepay.Store.{Store, Action}
use flitepay.Store.Tasks.{ActorContext, Task, Proof, RejectionCategory}
use flitepay.Store.Finding.{put_task, find_and_update}
use flitepay.Workflow.{
  SubmitProofInput, start_task, submit_proof_from, ask_party, create_proof, new_proof,
  already_decided, charge,
}
use flitepay.Routing.Rating.{one_proof_rejected}
use flitepay.Workflow.Completion.{reject_task_from}
use flitepay.Workflow.Recovery.{approve_it}
use flitepay.Workflow.Cancelling.{ask_to_cancel, resolve_cancel_dispute_from, restored_status}
use flitepay.Workflow.Worth.{stake, is_live, Funds-put, Funds-none, IsBacked, IsSound-put, SameDeal}
use flitepay.Workflow.Rules.{
  Sustains, sustains, Sustains-bind, Sustains-pure, Sustains-lift, Sustains-or_raise,
  Sustains-raise_if, Sustains-check, Sustains-when_held, Sustains-reads, Sustains-load_owned_task,
}
use flitepay.Workflow.Money.{record_outcome-Does, rows-Flow}
use flitepay.Workflow.Flow.{Balanced, Does, find_cases, in_state_eq, assert_legal}

pub stake_held : (t : Task) → holds_collateral t.status ≡ true → stake t ≡ t.amount * 2 + charge t
unfolding stake
stake_held t h = rw h refl

-- A document that is changed in nothing but its state, and holds as before.
abbrev pub Still : Task → Task → Type 0
Still t u =
    SameDeal t u
    × (u.captain_id ≡ t.captain_id)
    × (restored_status t ≡ assigned → restored_status u ≡ assigned)
    × (holds_collateral t.status ≡ true)
    × (holds_collateral u.status ≡ true)

live_held : (s : TaskState) → holds_collateral s ≡ true → is_live s ≡ true
live_held s h = rw h refl

pub IsBacked-Still : (s : Store) (t u : Task) → IsBacked s t → Still t u → IsBacked s u
IsBacked-Still s t u b e = (
  rw e.0.0 b.0,
  λ h. rw e.0.2 (b.1 (live_held t.status e.3)),
  λ c named. b.2 c (sym e.1 ∙ named),
  λ h. rw e.1 (b.3 e.3),
  e.2 b.4,
)

pub stake-Still : (t u : Task) → Still t u → stake u ≡ stake t
stake-Still t u e = rw (stake_held u e.4, stake_held t e.3) (omega (arith, e.0.1, e.0.2))

-- A conditional write that leaves the stake.
pub find_kept :
    (w : ℤ) (id : ℕ) (filter : Task → Bool) (update : Task → Task) (s : Store)
    → Balanced w s
    → ((t : Task)
        → lookup id s.tasks ≡ some t
        → filter t ≡ true
        → IsBacked s (update t) × (stake (update t) ≡ stake t))
    → Balanced w (find_and_update id filter update s).1
find_kept w id filter update s b h = elim (find_cases id filter update s) [
  | inl lost ↦ rw lost b
  | inr (t, found, passes, won) ↦
      let u = update t in
      let (backed, level) = h t found passes in
      rw won (
        IsSound-put s id u b.0 backed,
        Funds-none s (put_task id u s) (stake u) (stake t) (Funds-put id t u s found) level ∙ b.1,
      )
]

-- One that keeps the hold.
pub find-Still :
    (w : ℤ) (id : ℕ) (filter : Task → Bool) (update : Task → Task) (s : Store)
    → Balanced w s
    → ((t : Task) → filter t ≡ true → Still t (update t))
    → Balanced w (find_and_update id filter update s).1
find-Still w id filter update s b h = find_kept w id filter update s b (λ t found passes. (
  IsBacked-Still s t (update t) (b.0 id t found) (h t passes),
  stake-Still t (update t) (h t passes),
))

pub Does-Balanced :
    {A : Type 0} (w : ℤ) (m : Action A) (s : Store)
    → Balanced w s
    → Does m s 0 0
    → Balanced w (m s).1
Does-Balanced w m s b (a, t, e, f) = rw e (f.2 b.0, Funds-none s t 0 0 f.0 refl ∙ b.1)

held_if : (s r : TaskState) → s ≡ r → holds_collateral r ≡ true → holds_collateral s ≡ true
held_if s r e h = rw e h

held_assigned : holds_collateral assigned ≡ true
unfolding holds_collateral
held_assigned = refl

held_in_progress : holds_collateral in_progress ≡ true
unfolding holds_collateral
held_in_progress = refl

held_proof_submitted : holds_collateral proof_submitted ≡ true
unfolding holds_collateral
held_proof_submitted = refl

held_audit_pending : holds_collateral audit_pending ≡ true
unfolding holds_collateral
held_audit_pending = refl

pub both_left : (a b : Bool) → a && b ≡ true → a ≡ true
both_left true b h = refl
both_left false b h = cc

pub both_right : (a b : Bool) → a && b ≡ true → b ≡ true
both_right true b h = h
both_right false b h = cc

pub Sustains-Still :
    (w : ℤ) (id : ℕ) (filter : Task → Bool) (update : Task → Task)
    → ((t : Task) → filter t ≡ true → Still t (update t))
    → Sustains (Balanced w) (find_and_update id filter update)
Sustains-Still w id filter update h = sustains (λ s b. find-Still w id filter update s b h)

-- A write that leaves the state as well.
abbrev pub Level : Task → Task → Type 0
Level t u =
    SameDeal t u
    × (u.captain_id ≡ t.captain_id)
    × (restored_status u ≡ restored_status t)
    × (u.status ≡ t.status)

stake-Level : (t u : Task) → Level t u → stake u ≡ stake t
unfolding stake
stake-Level t u e = rw (e.3, e.0.1, e.0.2) refl

pub Sustains-Level :
    (w : ℤ) (id : ℕ) (filter : Task → Bool) (update : Task → Task)
    → ((t : Task) → filter t ≡ true → Level t (update t))
    → Sustains (Balanced w) (find_and_update id filter update)
Sustains-Level w id filter update h = sustains (λ s b.
    find_kept w id filter update s b (λ t found passes.
      let e = h t passes in
      let old = b.0 id t found in
      (
        (
          rw e.0.0 old.0,
          λ k. rw e.0.2 (old.1 (rw (← e.3) k)),
          λ c named. old.2 c (sym e.1 ∙ named),
          λ k. rw e.1 (old.3 (rw (← e.3) k)),
          e.2 ∙ old.4,
        ),
        stake-Level t (update t) e,
      )))

-- Starting a task.
pub start_task-Balanced :
    (w : ℤ) (id captain_id : ℕ) (actor : ActorContext) (now : ℕ)
    → Sustains (Balanced w) (start_task id captain_id actor now)
unfolding start_task holds_collateral
start_task-Balanced w id captain_id actor now =
    Sustains-bind (Sustains-load_owned_task id captain_id) (λ task.
      Sustains-bind (Sustains-lift _) (λ _.
        Sustains-bind
          (Sustains-Still w id _ _ (λ t passes.
            let here = in_state_eq t assigned (both_left (same t.status assigned) _ passes) in
            ((refl, refl, refl), refl, λ r. r, held_if t.status assigned here refl, refl)))
          (λ o. Sustains-bind (Sustains-or_raise o _) (λ v. Sustains-pure task))))

pub Sustains-Does :
    {A : Type 0} (w : ℤ) {m : Action A} → ((s : Store) → Does m s 0 0) → Sustains (Balanced w) m
Sustains-Does w {m = m} h = sustains (λ s b. Does-Balanced w m s b (h s))

create_proof-Balanced : (w : ℤ) (p : Proof) → Sustains (Balanced w) (create_proof p)
unfolding create_proof
create_proof-Balanced w p = Sustains-Does w (λ s. (
  tt,
  record s { proofs = p ∷ s.proofs },
  refl,
  rows-Flow s (p ∷ s.proofs) s.offers s.commissions s.allocations,
))

ask_party-Balanced :
    (w : ℤ) (id : ℕ) (task : Task) (now : ℕ) → Sustains (Balanced w) (ask_party id task now)
unfolding ask_party
ask_party-Balanced w id task now =
    Sustains-bind (Sustains-reads _)
      (λ minutes. Sustains-Level w id _ _ (λ t passes. ((refl, refl, refl), refl, refl, refl)))

-- Submitting a proof.
pub submit_proof_from-Balanced :
    (w : ℤ) (id : ℕ) (task : Task) (input : SubmitProofInput) (actor : ActorContext) (now : ℕ)
    → Sustains (Balanced w) (submit_proof_from id task input actor now)
unfolding submit_proof_from holds_collateral
submit_proof_from-Balanced w id task input actor now =
    let finish = λ (o : Option Task).
      Sustains-bind (Sustains-or_raise {P = Balanced w} o already_decided)
        (λ _. Sustains-bind (ask_party-Balanced w id task now) (λ _. Sustains-pure task)) in
    let queue =
      Sustains-bind
        (Sustains-Still w id _ _ (λ t passes.
          let here = in_state_eq t proof_submitted passes in
          ((refl, refl, refl), refl, λ r. r, held_if t.status proof_submitted here refl, refl)))
        finish in
    Sustains-bind (Sustains-reads _) (λ existing. Sustains-bind (Sustains-raise_if existing _) (λ _.
      Sustains-bind
        (Sustains-Still w id _ _ (λ t passes.
          let here = in_state_eq t in_progress (both_left (same t.status in_progress) _ passes) in
          ((refl, refl, refl), refl, λ r. r, held_if t.status in_progress here refl, refl)))
        (λ o. Sustains-bind (Sustains-or_raise o _) (λ _.
          Sustains-bind (create_proof-Balanced w (new_proof id input now))
            (λ _. Sustains-bind (Sustains-lift _) (λ _. queue))))))

-- Rejecting a proof.
pub reject_task_from-Balanced :
    (w : ℤ) (id : ℕ) (task : Task) (reason : Text) (category : RejectionCategory)
    (actor : ActorContext) (now : ℕ)
    → Sustains (Balanced w) (reject_task_from id task reason category actor now)
unfolding reject_task_from holds_collateral
reject_task_from-Balanced w id task reason category actor now =
    Sustains-bind (Sustains-lift _) (λ _.
      Sustains-bind
        (Sustains-Still w id _ _ (λ t passes.
          let here = in_state_eq t audit_pending passes in
          ((refl, refl, refl), refl, λ r. r, held_if t.status audit_pending here refl, refl)))
        (λ o. Sustains-bind (Sustains-or_raise o _) (λ v.
          Sustains-bind
            (Sustains-when_held task.captain_id _
              (λ c. Sustains-Does w (record_outcome-Does c one_proof_rejected)))
            (λ _. Sustains-pure v))))

review_from_assigned :
    (from : TaskState) → can_transition from cancel_review ≡ true → from ≡ assigned
unfolding can_transition
review_from_assigned created h = cc
review_from_assigned _ h = ground arith

-- Asking to cancel a task that a captain holds.
pub ask_to_cancel-Balanced :
    (w : ℤ) (id : ℕ) (from : TaskState) (reason : Text) (actor : ActorContext) (now : ℕ)
    → Sustains (Balanced w) (ask_to_cancel id from reason actor now)
unfolding ask_to_cancel holds_collateral
ask_to_cancel-Balanced w id from reason actor now =
    Sustains-check (assert_transition from cancel_review) _ (λ _ legal.
      let start = review_from_assigned from (assert_legal from cancel_review legal) in
      Sustains-bind
        (Sustains-Still w id _ _ (λ t passes.
          let here = in_state_eq t from passes ∙ start in
          ((refl, refl, refl), refl, λ _. start, held_if t.status assigned here refl, refl)))
        (λ o. Sustains-or_raise o _))

-- Giving a task back to its captain.
pub give_back-Balanced :
    (w : ℤ) (id : ℕ) (task : Task) (actor : ActorContext) (now : ℕ)
    → restored_status task ≡ assigned
    → Sustains (Balanced w) (resolve_cancel_dispute_from id task approve_it actor now)
unfolding resolve_cancel_dispute_from holds_collateral
give_back-Balanced w id task actor now e = Sustains-bind (Sustains-lift _) (λ _.
    Sustains-bind
      (Sustains-Still w id _ _ (λ t passes.
        let here = in_state_eq t cancel_disputed passes in
        (
          (refl, refl, refl),
          refl,
          λ r. r,
          held_if t.status cancel_disputed here refl,
          held_if (restored_status task) assigned e refl,
        )))
      (λ o. Sustains-or_raise o _))
