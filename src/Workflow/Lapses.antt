-- ===== src/Workflow/Lapses.antt =====
-- The sweeps over tasks whose time is up keep the DMC in circulation.
use flitepay.Prelude.{
  ℕ, ◌+◌, ◌≡◌, refl, true, not, Option, none, some, [], ◌∷◌, Text, arith, is_some,
}
use flitepay.Prelude.Int.{ℤ}
use flitepay.Prelude.Dict.{lookup}
use flitepay.Machine.Task.{
  TaskState, created, expired, cancelled, same, can_transition, holds_collateral, assert_transition,
}
use flitepay.Store.{Store, pure, ◌>>◌}
use flitepay.Store.Tasks.{Task}
use flitepay.Store.Finding.{put_task}
use flitepay.Routing.Rating.{record_outcome, one_expired}
use flitepay.Routing.Offers.{add_minutes, with_offer, no_offer, withdraw_open_offers}
use flitepay.Workflow.{system_event, moved, release_payout_hold, charge}
use flitepay.Workflow.Cancelling.{refund_party_for_cancelled_task, with_cancel}
use flitepay.Workflow.Overdue.{
  let_expire, after_expiry, expire_task, after_stale, cancel_stale_task, with_ack,
}
use flitepay.Workflow.Worth.{is_waiting, IsBacked, NamesCaptain}
use flitepay.Workflow.Flow.{Balanced, Does, Does-pure, in_state_eq, assert_legal}
use flitepay.Workflow.Money.{
  release_payout_hold-Does, record_outcome-Does, refund_party_for_cancelled_task-Does,
}
use flitepay.Workflow.Routed.{withdraw_open_offers-Does}
use flitepay.Workflow.Rules.{Leads, Leads-lift, Leads-reads, Leads-attempt}
use flitepay.Workflow.Level.{stake_held, both_left, both_right}
use flitepay.Workflow.Refunds.{stake_waiting, live_held, gain-then, then-gain, Ready}
use flitepay.Workflow.Endings.{expired_waits, cancelled-IsBacked, stake_cancelled, free_waits}

let_expire-Does :
    (o : Option ℕ) (amount : ℕ) (s : Store)
    → is_some o ≡ true
    → ((c : ℕ) → o ≡ some c → is_some (lookup c s.captains) ≡ true)
    → Does (let_expire o amount) s amount 0
unfolding let_expire
let_expire-Does none amount s h there = cc
let_expire-Does (some c) amount s h there =
    gain-then (release_payout_hold c amount) (record_outcome c one_expired) s amount
      (release_payout_hold-Does c amount s (there c refl))
      (λ t _. record_outcome-Does c one_expired t)

after_expiry-Does :
    (read u : Task) (s : Store)
    → is_some read.captain_id ≡ true
    → NamesCaptain s read
    → Does (after_expiry read (some u)) s read.amount 0
unfolding after_expiry
after_expiry-Does read u s held there =
    gain-then (let_expire read.captain_id read.amount) (pure true) s read.amount
      (let_expire-Does read.captain_id read.amount s held there) (λ t _. Does-pure true t)

lost_expiry :
    (w : ℤ) (read : Task) (s : Store) → Balanced w s → Balanced w (after_expiry read none s).1
unfolding after_expiry
lost_expiry w read s b = b

lost_stale :
    (w : ℤ) (id now : ℕ) (s : Store) → Balanced w s → Balanced w (after_stale id now none s).1
unfolding after_stale
lost_stale w id now s b = b

expired_from_held :
    (from : TaskState) → can_transition from expired ≡ true → holds_collateral from ≡ true
unfolding can_transition holds_collateral
expired_from_held created h = cc
expired_from_held _ h = ground arith

lapsed-IsBacked :
    (s : Store) (t : Task) (deadline : ℕ) (u : Task)
    → IsBacked s t
    → holds_collateral t.status ≡ true
    → u ≡ record (with_ack deadline t) { status = expired; state_history = u.state_history }
    → IsBacked s u
unfolding holds_collateral is_waiting
lapsed-IsBacked s t deadline u b held e =
    rw e (b.0, (λ _. b.1 (live_held t.status held)), b.2, (λ h. absurd (ground arith)), b.4)

-- One round of the sweep that expires tasks.
pub expire_task-Balanced :
    (w : ℤ) (now id : ℕ) (task : Task)
    → Leads (Ready w id task) (Balanced w) (expire_task now id task)
unfolding expire_task
expire_task-Balanced w now id task =
    Leads-lift (λ s p. p.0) (assert_transition task.status expired)
      (λ _ legal.
        Leads-reads (λ s p. p.0) _
          (λ minutes.
            Leads-attempt w id (after_expiry task) (λ s p. p.0) (lost_expiry w task)
              (λ s t p found passes.
                let here = in_state_eq t task.status passes in
                let held_then =
                  expired_from_held task.status (assert_legal task.status expired legal) in
                let held_t : holds_collateral t.status ≡ true = rw here held_then in
                let deal = p.1.3 t found (live_held t.status held_t) in
                let deadline = add_minutes now minutes in
                let u =
                  moved expired (with_ack deadline) (system_event task.status expired none now ∷ [])
                    t in
                (
                  lapsed-IsBacked s t deadline u (p.0.0 id t found) held_t refl,
                  (
                    task.amount,
                    0,
                    after_expiry-Does task u (put_task id u s) (p.1.1 held_then) p.1.0,
                    omega (arith, stake_held t held_t, stake_waiting u expired_waits, deal.1),
                  ),
                ))))

after_stale-Does :
    (id now : ℕ) (u : Task) (s : Store)
    → is_some (lookup u.party_id s.parties) ≡ true
    → Does (after_stale id now (some u)) s (u.amount + charge u) 0
unfolding after_stale
after_stale-Does id now u s there =
    let refund = refund_party_for_cancelled_task u in
    then-gain (withdraw_open_offers id none now) (refund >> pure true) s (u.amount + charge u)
      (withdraw_open_offers-Does id none now s)
      (λ t e.
        gain-then refund (pure true) t (u.amount + charge u)
          (refund_party_for_cancelled_task-Does u t (e.1 u.party_id there))
          (λ r _. Does-pure true r))

-- One round of the sweep that cancels what nobody took.
pub cancel_stale_task-Balanced :
    (w : ℤ) (sentence : ℕ → Text) (now id : ℕ) (task : Task)
    → Leads (Balanced w) (Balanced w) (cancel_stale_task sentence now id task)
unfolding cancel_stale_task
cancel_stale_task-Balanced w sentence now id task =
    Leads-lift (λ s b. b) (assert_transition task.status cancelled)
      (λ _ legal.
        Leads-reads (λ s b. b) _
          (λ minutes.
            Leads-attempt w id (after_stale id now) (λ s b. b) (lost_stale w id now)
              (λ s t b found passes.
                let here =
                  in_state_eq t task.status (both_left (same t.status task.status) _ passes) in
                let old = b.0 id t found in
                let waits =
                  free_waits t (rw here (assert_legal task.status cancelled legal)) old.3
                    (both_right (same t.status task.status) (not (is_some t.captain_id)) passes) in
                let why = some (sentence minutes) in
                let u =
                  moved cancelled
                    (λ x. with_offer no_offer (with_cancel (λ c. record c { reason = why }) x))
                    (system_event task.status cancelled why now ∷ []) t in
                (
                  cancelled-IsBacked s t u old refl refl refl refl,
                  (
                    u.amount + charge u,
                    0,
                    after_stale-Does id now u (put_task id u s) old.0,
                    omega (arith, stake_waiting t waits, stake_cancelled u refl),
                  ),
                ))))
