-- ===== src/Workflow/Approvals.antt =====
-- What comes of a proof that nobody answers (`autoApproveOnTimeout` of
-- server/src/services/customerConfirmation.service.ts), down to the completion by `completeTask`.
use flitepay.Prelude.{
  ℕ, ◌≡◌, ◌≤◌, ◌<◌, ◌⊎◌, inl, inr, refl, ap, subst, ◌∙◌, Bool, true, false, not, Option, none, some,
  [], ◌∷◌, arith, leb, is_some, Bool-cases, Option-cases,
}
use flitepay.Prelude.Dict.{lookup}
use flitepay.Errors.{
  AppError, Result, ok, internal, conflict, not_pending_audit, not_found_with, task_not_found,
}
use flitepay.Money.{max_paise}
use flitepay.Machine.Task.{
  in_progress, audit_pending, completed, assert_transition, can_transition, is_terminal,
}
use flitepay.Store.{Store, Action, pure, atomically, finish, or_raise, raise_if, ◌>>=◌, ◌>>◌}
use flitepay.Store.Tasks.{ActorContext, Task}
use flitepay.Store.Finding.{put_task, find_and_update, load_task, reads}
use flitepay.Routing.Rating.{record_outcome, one_completed}
use flitepay.Workflow.{
  SubmitProofInput, event, moved, in_state, charge, has_live_proof, submit_proof_from,
}
use flitepay.Workflow.Completion.{
  NewRows, claim_completion, with_completion, after_claim, completion_body, complete_for,
  complete_task_from, approve_task, is_on_time,
}
use flitepay.Workflow.Overdue.{
  auto_approve_on_timeout, after_timeout, approve_as, owner_actor, is_lapsed, no_deadline,
}
use flitepay.Workflow.Flow.{bind_ok}
use flitepay.Workflow.Money.{record_outcome-Does}
use flitepay.Workflow.Payments.{after_claim-Does}
use flitepay.Workflow.Rules.{Sustains-run}
use flitepay.Workflow.Frame.{Tracks, record_outcome-Tracks}
use flitepay.Workflow.Moving.{after_claim-Tracks}
use flitepay.Workflow.Lives.{terminal_stays}
use flitepay.Workflow.Deadlines.{
  find_won, find_lost, claimed_ok, found_there, proof_submitted_lem, raise_if_ok,
}

-- The task `id` is COMPLETED.
abbrev pub IsCompleted : ℕ → Store → Type 0
IsCompleted id s = (v : Task) × (lookup id s.tasks ≡ some v) × (v.status ≡ completed)

-- A pay-out that can be completed: its captain is there, and its price is set and safe.
abbrev pub IsPayable : ℕ → Task → Store → Type 0
IsPayable c t s =
    (t.captain_id ≡ some c)
    × (is_some (lookup c s.captains) ≡ true)
    × (is_some t.price.commission ≡ true)
    × (charge t ≤ max_paise)

completed_now :
    (id : ℕ) (u : Task) (s : Store) → u.status ≡ completed → Tracks id u s → IsCompleted id s
unfolding is_terminal
completed_now id u s over (v, there, path) =
    (v, there, terminal_stays u v path (rw over refl) ∙ over)

after :
    {A : Type 0} (id : ℕ) (u : Task) (m : Action A) (s r : Store) (x : Result A)
    → m s ≡ (x, r)
    → Tracks id u (m s).1
    → Tracks id u r
after {A} id u m s r x e h = subst (λ (y : Result A × Store). Tracks id u y.1) e h

or_raise_ok :
    {A B : Type 0} (o : Option B) (b : B) (e : AppError) (k : B → Action A) (s : Store)
    → o ≡ some b
    → (or_raise o e >>= k) s ≡ k b s
or_raise_ok o b e k s h = rw h refl

complete_ok :
    (supports : Bool) (rows : NewRows) (id c : ℕ) (t : Task) (actor : ActorContext) (now : ℕ)
    (s : Store)
    → lookup id s.tasks ≡ some t
    → t.status ≡ audit_pending
    → IsPayable c t s
    → (done : Task) × (r : Store) × (complete_task_from supports rows id t audit_pending none actor
          now s
        ≡ (ok done, r))
      × IsCompleted id r
unfolding complete_task_from complete_for completion_body claim_completion reads assert_transition
    can_transition
complete_ok supports rows id c t actor now s found waits (named, there, priced, safe) =
    let version = s.config.version in
    let update =
      moved completed (with_completion none actor now t)
        (event audit_pending completed actor none now ∷ []) in
    let u = update t in
    let s1 = put_task id u s in
    let pay = after_claim supports rows id t c version now in
    let body = completion_body supports rows id t c version audit_pending none actor now in
    let (done, s2, paid, _) = after_claim-Does supports rows id t c version now u s1 there safe in
    let claimed : body s ≡ (ok done, s2) =
      claimed_ok id (in_state audit_pending) update s t (conflict not_pending_audit) pay found
        (rw waits refl)
      ∙ paid in
    let outcome = record_outcome c (one_completed (is_on_time t.times.expires_at now)) in
    let (_, s3, recorded, _) =
      record_outcome-Does c (one_completed (is_on_time t.times.expires_at now)) s2 in
    let won = after id u (pay u) s1 s2 (ok done) paid (
      Sustains-run (after_claim-Tracks id u supports rows id t c version now u) s1
        (u, found_there id u s, ([], refl, refl))) in
    let kept = after id u outcome s2 s3 (ok tt) recorded (
      Sustains-run
        (record_outcome-Tracks id u c (one_completed (is_on_time t.times.expires_at now))) s2
        won) in
    let for_captain = λ (x : ℕ). complete_for supports rows id t x audit_pending none actor now in
    let rest = reads (λ s. s.config.version) >>= λ (v : ℕ).
    atomically supports (completion_body supports rows id t c v audit_pending none actor now)
    >>= λ (x : Task). outcome >> pure x in
    (
      done,
      s3,
      or_raise_ok t.captain_id c internal for_captain s named
          ∙ raise_if_ok (not (is_some t.price.commission)) internal rest s (rw priced refl)
          ∙ bind_ok (atomically supports body) (λ (x : Task). outcome >> pure x) s s2 done
              (ap (finish supports s) claimed)
          ∙ bind_ok outcome (λ _. pure done) s2 s3 tt recorded,
      completed_now id u s3 refl kept,
    )

unmoved :
    (t : Task) (c : ℕ) (s r : Store) (u : Task)
    → r.captains ≡ s.captains
    → u.captain_id ≡ t.captain_id
    → u.price ≡ t.price
    → IsPayable c t s
    → IsPayable c u r
unmoved t c s r u captains named price (captain, there, priced, safe) =
    (named ∙ captain, rw captains there, rw price priced, rw price safe)

-- The approval in the name of a user.
approve_ok :
    (supports : Bool) (rows : NewRows) (id c user : ℕ) (t : Task) (now : ℕ) (s : Store)
    → lookup id s.tasks ≡ some t
    → t.status ≡ audit_pending
    → IsPayable c t s
    → (done : Task) × (r : Store) × (approve_as supports rows (some user) now id s
        ≡ (ok (some done), r))
      × IsCompleted id r
unfolding approve_task load_task
approve_ok supports rows id c user t now s found waits payable =
    let actor = owner_actor user in
    let (done, r, completes, over) =
      complete_ok supports rows id c t actor now s found waits payable in
    let complete = λ (x : Task).
      raise_if (not (in_state audit_pending x)) (conflict not_pending_audit)
      >> complete_task_from supports rows id x audit_pending none actor now in
    let approved : approve_task supports rows id actor now s ≡ (ok done, r) =
      or_raise_ok (lookup id s.tasks) t (not_found_with task_not_found) complete s found
      ∙ raise_if_ok (not (in_state audit_pending t)) (conflict not_pending_audit)
          (complete_task_from supports rows id t audit_pending none actor now) s (rw waits refl)
      ∙ completes in
    (
      done,
      r,
      bind_ok (approve_task supports rows id actor now) (λ (x : Task). pure (some x)) s r done
          approved,
      over,
    )

-- The time-out of a pay-out that waits for its party, whose captain is there and whose price is
-- set. Before the deadline nothing happens. From the deadline on it is approved: it is COMPLETED.
-- But where the party's user is not found, the deadline is cleared and it waits on.
pub auto_approve_on_timeout_cases :
    (supports : Bool) (rows : NewRows) (owner : Option ℕ) (now id c deadline : ℕ) (t : Task)
    (s : Store)
    → lookup id s.tasks ≡ some t
    → t.status ≡ audit_pending
    → t.confirmation.deadline ≡ some deadline
    → IsPayable c t s
    → ((now < deadline) × (auto_approve_on_timeout supports rows owner now id s ≡ (ok none, s)))
      ⊎ ((deadline ≤ now)
          × (is_some owner ≡ true)
          × ((done : Task) × (r : Store) × (auto_approve_on_timeout supports rows owner now id s
                ≡ (ok (some done), r))
              × IsCompleted id r))
      ⊎ ((deadline ≤ now)
          × (owner ≡ none)
          × ((r : Store) × (v : Task) × (auto_approve_on_timeout supports rows owner now id s
                ≡ (ok none, r))
              × (lookup id r.tasks ≡ some v)
              × (v.status ≡ audit_pending)
              × (v.confirmation.deadline ≡ none)))
unfolding auto_approve_on_timeout
auto_approve_on_timeout_cases supports rows owner now id c deadline t s found waits set payable =
    let m = find_and_update id (is_lapsed now) no_deadline in
    let rest = after_timeout supports rows owner now id in
    let u = no_deadline t in
    let s1 = put_task id u s in
    elim (Bool-cases (leb deadline now)) [
      | inr early ↦ inl (
        ground arith,
        bind_ok m rest s s none
            (find_lost id (is_lapsed now) no_deadline s t found (rw (waits, set, early) refl)),
      )
      | inl due ↦
          let claimed =
            bind_ok m rest s s1 (some u)
              (find_won id (is_lapsed now) no_deadline s t found (rw (waits, set, due) refl)) in
          elim (Option-cases owner) [
            | inl nobody ↦ inr (
                inr (
                  ground arith,
                  nobody,
                  (s1, u, claimed ∙ rw nobody refl, found_there id u s, waits, refl),
                ))
            | inr (user, owned) ↦
                let (done, r, approved, over) =
                  approve_ok supports rows id c user u now s1 (found_there id u s) waits
                    (unmoved t c s s1 u refl refl refl payable) in
                inr
                  (inl (ground arith, rw owned refl, (done, r, claimed ∙ rw owned approved, over)))
          ]
    ]

-- A proof that is submitted while an earlier deadline is set and has lapsed is not put to the
-- party, whose question and deadline stay as they were; and the time-out at that same moment
-- completes the pay-out in the name of the party's user.
pub submit_proof_lapsed :
    (supports : Bool) (rows : NewRows) (id c deadline user : ℕ) (task t : Task)
    (input : SubmitProofInput) (actor : ActorContext) (now : ℕ) (s : Store)
    → lookup id s.tasks ≡ some t
    → t.status ≡ in_progress
    → t.captain_id ≡ some input.captain_id
    → has_live_proof id s.proofs ≡ false
    → t.confirmation.deadline ≡ some deadline
    → deadline ≤ now
    → IsPayable c t s
    → (r : Store) × (u : Task) × (submit_proof_from id task input actor now s ≡ (ok task, r))
      × (lookup id r.tasks ≡ some u)
      × (u.confirmation ≡ t.confirmation)
      × ((done : Task) × (q : Store) × (auto_approve_on_timeout supports rows (some user) now id r
            ≡ (ok (some done), q))
          × IsCompleted id q)
submit_proof_lapsed supports rows id c deadline user task t input actor now s found works holds
      none_live set late payable =
    let (r, u, done, there, waits, _, _, captains, (named, price, unasked)) =
      proof_submitted_lem id task t input actor now s found works holds none_live in
    let same_question : u.confirmation ≡ t.confirmation = unasked (rw set refl) in
    let kept : u.confirmation.deadline ≡ some deadline = rw same_question set in
    elim (auto_approve_on_timeout_cases supports rows (some user) now id c deadline u r there waits
      kept (unmoved t c s r u captains named price payable)) [
        | inl (early, _) ↦ absurd (omega arith)
        | inr (inl (_, _, approved)) ↦ (r, u, done, there, same_question, approved)
        | inr (inr (_, nobody, _)) ↦ cc
      ]
