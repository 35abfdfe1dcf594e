-- ===== src/Workflow/Refunds.antt =====
-- The operations that give money back: reassignment, cancellation, expiry, and the recovery of an
-- expired task.
use flitepay.Prelude.{
  ℕ, ◌+◌, ◌≡◌, refl, ◌∙◌, true, false, Option, none, some, [], ◌∷◌, arith, is_some,
}
use flitepay.Prelude.Int.{ℤ}
use flitepay.Prelude.Dict.{lookup}
use flitepay.Machine.Task.{
  TaskState, created, reassigned, can_transition, holds_collateral, assert_transition,
}
use flitepay.Store.{Store, Action, pure, ◌>>◌}
use flitepay.Store.Tasks.{ActorContext, Task}
use flitepay.Store.Finding.{put_task}
use flitepay.Engine.Worth.{Keeps}
use flitepay.Routing.Offers.{reset_routing_for_reassignment}
use flitepay.Workflow.{
  event, moved, supersede_proof_for, supersede_proofs, release_payout_hold, when_held, charge,
  already_decided,
}
use flitepay.Workflow.Recovery.{
  cleared, let_go, with_captain, after_reassignment, reassign_task_from,
}
use flitepay.Workflow.Cancelling.{restored_status}
use flitepay.Workflow.Worth.{stake, is_waiting, is_live, IsBacked, NamesCaptain, SameDeal, WasRead}
use flitepay.Workflow.Flow.{
  Does, Does-bind, Does-level, Does-pure, Balanced, in_state_eq, assert_legal,
}
use flitepay.Workflow.Money.{release_payout_hold-Does, rows-Flow}
use flitepay.Workflow.Routed.{still-then, reset_routing_for_reassignment-Does}
use flitepay.Workflow.Rules.{Leads, Leads-lift, Leads-claim}
use flitepay.Workflow.Level.{stake_held}

pub waiting_not_held : (s : TaskState) → is_waiting s ≡ true → holds_collateral s ≡ false
unfolding is_waiting holds_collateral
waiting_not_held created h = refl
waiting_not_held _ h = ground arith

pub stake_waiting : (t : Task) → is_waiting t.status ≡ true → stake t ≡ t.amount + charge t
unfolding stake
stake_waiting t h = rw (waiting_not_held t.status h, h) refl

pub live_waiting : (s : TaskState) → is_waiting s ≡ true → is_live s ≡ true
live_waiting s h = rw (waiting_not_held s h) h

pub live_held : (s : TaskState) → holds_collateral s ≡ true → is_live s ≡ true
live_held s h = rw h refl

-- An action with a gain, before one that moves nothing.
pub gain-then :
    {A B : Type 0} (m : Action A) (k : Action B) (s : Store) (g : ℕ)
    → Does m s g 0
    → ((t : Store) → Keeps s t → Does k t 0 0)
    → Does (m >> k) s g 0
gain-then m k s g h f =
    Does-level (m >> k) s (g + 0) (0 + 0) g 0 (Does-bind m (λ _. k) s g 0 0 0 h (λ _ t e. f t e))
      (omega arith)

-- One that moves nothing, before one with a gain.
pub then-gain :
    {A B : Type 0} (m : Action A) (k : Action B) (s : Store) (g : ℕ)
    → Does m s 0 0
    → ((t : Store) → Keeps s t → Does k t g 0)
    → Does (m >> k) s g 0
then-gain m k s g h f =
    Does-level (m >> k) s (0 + g) (0 + 0) g 0 (Does-bind m (λ _. k) s 0 0 g 0 h (λ _ t e. f t e))
      (omega arith)

supersede_proof_for-Does : (id now : ℕ) (s : Store) → Does (supersede_proof_for id now) s 0 0
unfolding supersede_proof_for
supersede_proof_for-Does id now s = (
  tt,
  record s { proofs = supersede_proofs id now s.proofs },
  refl,
  rows-Flow s (supersede_proofs id now s.proofs) s.offers s.commissions s.allocations,
)

-- The hold of a captain who is there.
pub release-Does :
    (o : Option ℕ) (amount : ℕ) (s : Store)
    → is_some o ≡ true
    → ((c : ℕ) → o ≡ some c → is_some (lookup c s.captains) ≡ true)
    → Does (when_held o (λ c. release_payout_hold c amount)) s amount 0
release-Does none amount s h there = cc
release-Does (some c) amount s h there = release_payout_hold-Does c amount s (there c refl)

-- What the extra fields of a reassignment leave alone.
abbrev pub Leaves : (Task → Task) → Type 0
Leaves extra =
    (t : Task)
    → SameDeal t (extra t)
      × ((extra t).captain_id ≡ t.captain_id)
      × (restored_status (extra t) ≡ restored_status t)

pub let_go-IsBacked :
    (s : Store) (t u : Task)
    → IsBacked s t
    → is_live t.status ≡ true
    → SameDeal t u
    → u.captain_id ≡ none
    → restored_status u ≡ restored_status t
    → holds_collateral u.status ≡ false
    → IsBacked s u
let_go-IsBacked s t u b live deal free restored idle =
    (rw deal.0 b.0, λ _. rw deal.2 (b.1 live), λ c named. cc, λ h. cc, restored ∙ b.4)

reassigned_from_held :
    (from : TaskState) → can_transition from reassigned ≡ true → holds_collateral from ≡ true
unfolding can_transition holds_collateral
reassigned_from_held created h = cc
reassigned_from_held _ h = ground arith

-- What an operation needs of the document that it has read.
abbrev pub Ready : ℤ → ℕ → Task → Store → Type 0
Ready w id task s = Balanced w s × WasRead s id task

pub reassigned_waits : is_waiting reassigned ≡ true
unfolding is_waiting
reassigned_waits = refl

after_reassignment-Does :
    (id : ℕ) (task : Task) (now : ℕ) (done : Task) (s : Store)
    → is_some task.captain_id ≡ true
    → NamesCaptain s task
    → Does (after_reassignment id task now done) s task.amount 0
unfolding after_reassignment
after_reassignment-Does id task now done s held there =
    let release = when_held task.captain_id (λ c. release_payout_hold c task.amount) in
    let rest = reset_routing_for_reassignment id now >> pure done in
    then-gain (supersede_proof_for id now) (release >> rest) s task.amount
      (supersede_proof_for-Does id now s)
      (λ r e.
        gain-then release rest r task.amount
          (release-Does task.captain_id task.amount r held (λ c named. e.0 c (there c named)))
          (λ x _.
            still-then (reset_routing_for_reassignment id now) (pure done) x
              (reset_routing_for_reassignment-Does id now x) (λ y. Does-pure done y)))

-- Taking a task back into the pool.
pub reassign_task_from-Balanced :
    (w : ℤ) (id : ℕ) (task : Task) (actor : ActorContext) (extra : Task → Task) (now : ℕ)
    → Leaves extra
    → Leads (Ready w id task) (Balanced w) (reassign_task_from id task actor extra now)
unfolding reassign_task_from
reassign_task_from-Balanced w id task actor extra now leaves =
    Leads-lift (λ s p. p.0) (assert_transition task.status reassigned)
      (λ _ legal.
        Leads-claim w id already_decided (after_reassignment id task now) (λ s p. p.0)
          (λ s t p found passes.
            let here = in_state_eq t task.status passes in
            let held_then =
              reassigned_from_held task.status (assert_legal task.status reassigned legal) in
            let held_t : holds_collateral t.status ≡ true = rw here held_then in
            let live = live_held t.status held_t in
            let deal = p.1.3 t found live in
            let history =
              with_captain task.captain_id (event task.status reassigned actor none now) ∷ [] in
            let u = moved reassigned (let_go task.captain_id extra) history t in
            let kept = leaves (cleared task.captain_id t) in
            (
              let_go-IsBacked s t u (p.0.0 id t found) live kept.0 kept.1 kept.2
                  (waiting_not_held reassigned reassigned_waits),
              (
                task.amount,
                0,
                after_reassignment-Does id task now u (put_task id u s) (p.1.1 held_then) p.1.0,
                omega (
                  arith,
                  stake_held t held_t,
                  stake_waiting u reassigned_waits,
                  deal.1,
                  kept.0.1,
                  kept.0.2,
                ),
              ),
            )))
