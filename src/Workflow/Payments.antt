-- ===== src/Workflow/Payments.antt =====
-- What a completion writes, and that completing a pay-out keeps the DMC in circulation.
use flitepay.Prelude.{
  ℕ, ◌+◌, ◌*◌, ◌≤◌, ◌≡◌, inl, inr, refl, sym, ◌∙◌, Bool, true, false, not, Option, none, some, [],
  ◌∷◌, arith, ◌==◌, is_some, Bool-cases,
}
use flitepay.Prelude.Int.{ℤ}
use flitepay.Prelude.Dict.{lookup, insert}
use flitepay.Errors.{internal, conflict, not_pending_audit}
use flitepay.Money.{max_paise}
use flitepay.Allocation.{OwnerType, create_allocation}
use flitepay.Machine.Task.{
  TaskState, created, completed, can_transition, holds_collateral, assert_transition,
}
use flitepay.Store.{Store, pure, ◌>>◌}
use flitepay.Store.Tasks.{ActorContext, Task, CommissionEntry, AdminResolution}
use flitepay.Store.Finding.{put_task}
use flitepay.Routing.Rating.{one_completed}
use flitepay.Workflow.{event, moved, add_to_balance, captain_part, platform_part, charge}
use flitepay.Workflow.Completion.{
  NewRows, credit_commission, collect_charge, pay_share, pay_captain_for_completed_task, allocate,
  create_platform_allocation, entry_for, pay_completion, after_claim, completion_body, complete_for,
  complete_task_from, platform_owner_id, with_completion, is_on_time,
}
use flitepay.Workflow.Worth.{stake, is_waiting, IsBacked}
use flitepay.Workflow.Flow.{
  Balanced, Flow-refl, Does, Does-bind, Does-level, Does-pure, in_state_eq, assert_legal,
}
use flitepay.Workflow.Money.{
  add_to_balance-Does, collect_charge-Does, pay_share-Does, record_outcome-Does, rows-Flow,
}
use flitepay.Workflow.Routed.{still-then}
use flitepay.Workflow.Rules.{
  Sustains-bind, Sustains-pure, Leads, Leads-lift, Leads-or_raise, Leads-raise_if, Leads-reads,
  Leads-bind, Leads-claim, Leads-atomically,
}
use flitepay.Workflow.Level.{stake_held, Sustains-Does}
use flitepay.Workflow.Refunds.{live_held, gain-then, then-gain, Ready}

credit_commission-Does :
    (id : ℕ) (entry : CommissionEntry) (s : Store) → Does (credit_commission id entry) s 0 0
unfolding credit_commission
credit_commission-Does id entry s = elim (Bool-cases (is_some (lookup id s.commissions))) [
  | inl there ↦ (false, s, ground arith, Flow-refl s)
  | inr absent ↦
      let rows = insert id entry s.commissions in
      (
        true,
        record s { commissions = rows },
        ground arith,
        rows-Flow s s.proofs s.offers rows s.allocations,
      )
]

allocate-Does :
    (new_id : ℕ) (owner : OwnerType) (owner_id amount id : ℕ) (task : Task) (now : ℕ) (s : Store)
    → Does (allocate new_id owner owner_id amount id task now) s 0 0
unfolding allocate
allocate-Does new_id owner owner_id amount id task now s =
    let rows =
      create_allocation new_id owner owner_id task.party_id task.label.customer_id id
        task.label.task_code task.label.customer_name amount now s.allocations in
    (tt, record s { allocations = rows }, refl, rows-Flow s s.proofs s.offers s.commissions rows)

create_platform_allocation-Does :
    (new_id id : ℕ) (task : Task) (now : ℕ) (s : Store)
    → Does (create_platform_allocation new_id id task now) s 0 0
unfolding create_platform_allocation
create_platform_allocation-Does new_id id task now s = elim (Bool-cases (platform_part task == 0)) [
  | inl nothing ↦ (tt, s, ground arith, Flow-refl s)
  | inr some_part ↦
      let (a, t, e, f) =
        allocate-Does new_id OwnerType.admin platform_owner_id (platform_part task) id task now s in
      (a, t, ground arith, f)
]

-- The payments: the pool collects the charge, the captain gets the hold back and the party's
-- amount with it, and the pool pays the captain's share, or not.
pub pay_captain_for_completed_task-Does :
    (session : Bool) (id : ℕ) (task : Task) (c : ℕ) (s : Store)
    → is_some (lookup c s.captains) ≡ true
    → charge task ≤ max_paise
    → Does (pay_captain_for_completed_task session id task c) s (charge task + task.amount * 2) 0
unfolding pay_captain_for_completed_task
pay_captain_for_completed_task-Does session id task c s there safe =
    let collect = collect_charge (charge task) in
    let give = add_to_balance c (task.amount * 2) in
    let share = pay_share session id c (captain_part task) in
    Does-level (collect >> (give >> share)) s (charge task + task.amount * 2) (0 + 0)
      (charge task + task.amount * 2) 0
      (Does-bind collect (λ _. give >> share) s (charge task) 0 (task.amount * 2) 0
        (collect_charge-Does (charge task) s safe)
        (λ _ t e.
          gain-then give share t (task.amount * 2)
            (add_to_balance-Does c (task.amount * 2) t (e.0 c there))
            (λ r k. pay_share-Does session id c (captain_part task) r (k.0 c (e.0 c there)))))
      (omega arith)

pub after_claim-Does :
    (session : Bool) (rows : NewRows) (id : ℕ) (task : Task) (c version now : ℕ) (done : Task)
    (s : Store)
    → is_some (lookup c s.captains) ≡ true
    → charge task ≤ max_paise
    → Does (after_claim session rows id task c version now done) s (charge task + task.amount * 2) 0
unfolding after_claim pay_completion
after_claim-Does session rows id task c version now done s there safe =
    let credit = credit_commission id (entry_for task c version now) in
    let pay = pay_captain_for_completed_task session id task c in
    let own =
      allocate rows.captain_allocation OwnerType.captain c (task.amount + captain_part task) id task
        now in
    let other = create_platform_allocation rows.platform_allocation id task now in
    let g = charge task + task.amount * 2 in
    gain-then (credit >> (pay >> (own >> other))) (pure done) s g
      (then-gain credit (pay >> (own >> other)) s g
        (credit_commission-Does id (entry_for task c version now) s)
        (λ t e.
          gain-then pay (own >> other) t g
            (pay_captain_for_completed_task-Does session id task c t (e.0 c there) safe)
            (λ r _.
              still-then own other r
                (allocate-Does rows.captain_allocation OwnerType.captain c
                  (task.amount + captain_part task) id task now r)
                (λ x. create_platform_allocation-Does rows.platform_allocation id task now x))))
      (λ t _. Does-pure done t)

completed_from_held :
    (from : TaskState) → can_transition from completed ≡ true → holds_collateral from ≡ true
unfolding can_transition holds_collateral
completed_from_held created h = cc
completed_from_held _ h = ground arith

stake_completed : (t : Task) → t.status ≡ completed → stake t ≡ 0
unfolding stake is_waiting holds_collateral
stake_completed t e = rw e refl

completed-IsBacked :
    (s : Store) (t u : Task)
    → IsBacked s t
    → u.status ≡ completed
    → u.party_id ≡ t.party_id
    → u.captain_id ≡ t.captain_id
    → u.cancel ≡ t.cancel
    → IsBacked s u
unfolding holds_collateral is_waiting
completed-IsBacked s t u b done party captain cancel = (
  rw party b.0,
  λ h. absurd (ground arith),
  λ c named. b.2 c (sym captain ∙ named),
  λ h. absurd (ground arith),
  rw cancel b.4,
)

completion_body-Balanced :
    (w : ℤ) (session : Bool) (rows : NewRows) (id : ℕ) (task : Task) (c version : ℕ)
    (from : TaskState) (resolution : Option AdminResolution) (actor : ActorContext) (now : ℕ)
    → can_transition from completed ≡ true
    → task.captain_id ≡ some c
    → Leads
        (Ready w id task)
        (Balanced w)
        (completion_body session rows id task c version from resolution actor now)
unfolding completion_body
completion_body-Balanced w session rows id task c version from resolution actor now legal named =
    Leads-claim w id (conflict not_pending_audit) (after_claim session rows id task c version now)
      (λ s p. p.0)
      (λ s t p found passes.
        let here = in_state_eq t from passes in
        let held_t : holds_collateral t.status ≡ true = rw here (completed_from_held from legal) in
        let live = live_held t.status held_t in
        let old = p.0.0 id t found in
        let deal = p.1.3 t found live in
        let safe : charge task ≤ max_paise = rw deal.2 (old.1 live) in
        let u =
          moved completed (with_completion resolution actor now task)
            (event from completed actor none now ∷ []) t in
        (
          completed-IsBacked s t u old refl refl refl refl,
          (
            charge task + task.amount * 2,
            0,
            after_claim-Does session rows id task c version now u (put_task id u s) (p.1.0 c named)
                safe,
            omega (arith, stake_held t held_t, stake_completed u refl, deal.1, deal.2),
          ),
        ))

complete_for-Balanced :
    (w : ℤ) (supports : Bool) (rows : NewRows) (id : ℕ) (task : Task) (c : ℕ) (from : TaskState)
    (resolution : Option AdminResolution) (actor : ActorContext) (now : ℕ)
    → can_transition from completed ≡ true
    → task.captain_id ≡ some c
    → Leads
        (Ready w id task)
        (Balanced w)
        (complete_for supports rows id task c from resolution actor now)
unfolding complete_for
complete_for-Balanced w supports rows id task c from resolution actor now legal named =
    Leads-raise_if (λ s p. p.0) (not (is_some task.price.commission)) internal
      (λ _.
        Leads-reads (λ s p. p.0) (λ s. s.config.version)
          (λ version.
            Leads-bind
              (Leads-atomically supports (λ s p. p.0)
                (completion_body-Balanced w supports rows id task c version from resolution actor
                  now legal named))
              (λ done.
                Sustains-bind
                  (Sustains-Does w
                    (record_outcome-Does c (one_completed (is_on_time task.times.expires_at now))))
                  (λ _. Sustains-pure done))))

-- Completing a pay-out.
pub complete_task_from-Balanced :
    (w : ℤ) (supports : Bool) (rows : NewRows) (id : ℕ) (task : Task) (from : TaskState)
    (resolution : Option AdminResolution) (actor : ActorContext) (now : ℕ)
    → Leads
        (Ready w id task)
        (Balanced w)
        (complete_task_from supports rows id task from resolution actor now)
unfolding complete_task_from
complete_task_from-Balanced w supports rows id task from resolution actor now =
    Leads-lift (λ s p. p.0) (assert_transition from completed)
      (λ _ legal.
        Leads-or_raise (λ s p. p.0) task.captain_id internal
          (λ c named.
            complete_for-Balanced w supports rows id task c from resolution actor now
              (assert_legal from completed legal) named))
