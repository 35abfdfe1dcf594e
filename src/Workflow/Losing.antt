-- ===== src/Workflow/Losing.antt =====
-- A claim of a task that another captain has taken.
use flitepay.Prelude.{
  ℕ, ◌+◌, ◌-◌, ◌≤◌, ◌≡◌, ◌⊎◌, inl, inr, refl, sym, ap, ◌∙◌, Bool, true, false, ◌&&◌, none, some,
  get_or, arith, ◌==◌, Bool-cases, Option-cases,
}
use flitepay.Prelude.Dict.{lookup, insert, lookup-insert}
use flitepay.Errors.{AppError, ok, err, conflict, not_found_with, not_found, task_already_claimed}
use flitepay.Commission.{CaptainShare}
use flitepay.Store.{Captain, Store, Action, lift, raise, pure, atomically, finish, ◌>>=◌, ◌>>◌}
use flitepay.Store.Tasks.{ActorContext, Task}
use flitepay.Store.Finding.{reads}
use flitepay.Capacity.{within_current_limit, is_active}
use flitepay.Routing.Eligibility.{unheld}
use flitepay.Errors.{result_cases}
use flitepay.Workflow.{release_payout_hold, add_to_balance}
use flitepay.Workflow.Claiming.{
  hold_for_payout, refuse_hold, compare_and_swap_claim, claim_lost, after_swap, after_hold,
  claim_body, insufficient_limit_error, settle_offer, price_claim, claim_at, claim_task_from,
}
use flitepay.Workflow.Flow.{bind_ok}
use flitepay.Workflow.Making.{bind_err}
use flitepay.Workflow.Deadlines.{find_lost}
use flitepay.Workflow.Taking.{after_hold-false, after_swap-none}

-- The captain and the tasks are as they were.
abbrev Unmoved : ℕ → Store → Store → Type 0
Unmoved c s r = (lookup c r.captains ≡ lookup c s.captains) × (r.tasks ≡ s.tasks)

-- An action that fails and leaves the captain and the tasks.
abbrev Fails : {A : Type 0} → ℕ → Action A → Store → Type 0
Fails {A} c m s = (e : AppError) × (r : Store) × (m s ≡ (err e, r)) × Unmoved c s r

refuse_hold-Fails : (c : ℕ) (s : Store) → Fails c (refuse_hold c) s
unfolding refuse_hold
refuse_hold-Fails c s = elim (Option-cases (lookup c s.captains)) [
  | inl missing ↦ (not_found_with not_found, s, ground arith, (refl, refl))
  | inr (taker, found) ↦ (insufficient_limit_error, s, ground arith, (refl, refl))
]

abbrev less : ℕ → Captain → Captain
less amount c = record c { dmc_balance = c.dmc_balance - amount }

hold_taken :
    (c amount : ℕ) (s : Store)
    → (hold_for_payout c amount s ≡ (ok false, s))
      ⊎ ((taker : Captain) × (lookup c s.captains ≡ some taker)
          × (amount ≤ taker.dmc_balance)
          × (hold_for_payout c amount s
              ≡ (ok true, record s { captains = insert c (less amount taker) s.captains })))
unfolding hold_for_payout within_current_limit
hold_taken c amount s = elim (Option-cases (lookup c s.captains)) [
  | inl missing ↦ inl (ground arith)
  | inr (taker, found) ↦
      elim (Bool-cases (is_active taker.status && within_current_limit amount taker)) [
        | inr refused ↦ inl (ground arith)
        | inl fits ↦ inr (taker, found, ground arith, ground arith)
      ]
]

-- A hold that is released again is none.
release_undoes :
    (c amount : ℕ) (taker : Captain) (s : Store)
    → lookup c s.captains ≡ some taker
    → amount ≤ taker.dmc_balance
    → (r : Store) × (release_payout_hold c amount
          (record s { captains = insert c (less amount taker) s.captains })
        ≡ (ok tt, r))
      × Unmoved c s r
unfolding release_payout_hold add_to_balance
release_undoes c amount taker s found covered =
    let t = record s { captains = insert c (less amount taker) s.captains } in
    let there : lookup c t.captains ≡ some (less amount taker) =
      ground (arith, lookup-insert c c (less amount taker) s.captains) in
    elim (Bool-cases (amount == 0)) [
      | inl nothing ↦
          let same_captain : less amount taker ≡ taker = ground arith in
          (t, ground arith, (there ∙ ap some same_captain ∙ sym found, refl))
      | inr something ↦
          let back = record taker { dmc_balance = taker.dmc_balance - amount + amount } in
          let same_captain : back ≡ taker = ground arith in
          let put_back : lookup c (insert c back t.captains) ≡ some back =
            ground (arith, lookup-insert c c back t.captains) in
          (
            record t { captains = insert c back t.captains },
            ground arith,
            (put_back ∙ ap some same_captain ∙ sym found, refl),
          )
    ]

swap_fails :
    (id c : ℕ) (share : CaptainShare) (minutes : ℕ) (actor : ActorContext) (now : ℕ) (s : Store)
    (t : Task)
    → lookup id s.tasks ≡ some t
    → unheld t ≡ false
    → compare_and_swap_claim id c share minutes actor now s ≡ (ok none, s)
unfolding compare_and_swap_claim
swap_fails id c share minutes actor now s t found taken = find_lost id unheld _ s t found taken

after_hold-true :
    (supports : Bool) (id c amount : ℕ) (share : CaptainShare) (minutes : ℕ) (actor : ActorContext)
    (now : ℕ) (s : Store)
    → after_hold supports id c amount share minutes actor now true s
      ≡ (compare_and_swap_claim id c share minutes actor now >>= after_swap supports c amount) s
unfolding after_hold
after_hold-true supports id c amount share minutes actor now s = refl

-- A failure in a database transaction leaves nothing behind.
atomically-Fails :
    {A : Type 0} (c : ℕ) (supports : Bool) (body : Action A) (s r : Store) (e : AppError)
    → body s ≡ (err e, r)
    → (supports ≡ false → Unmoved c s r)
    → Fails c (atomically supports body) s
atomically-Fails c true body s r e h kept = (e, s, ap (finish true s) h, (refl, refl))
atomically-Fails c false body s r e h kept = (e, r, ap (finish false s) h, kept refl)

-- The claim that finds the task held, after a hold of the captain's balance.
swap_lost :
    (supports : Bool) (c amount : ℕ) (taker : Captain) (s : Store)
    → lookup c s.captains ≡ some taker
    → amount ≤ taker.dmc_balance
    → (e : AppError) × (r : Store) × (claim_lost supports c amount
          (record s { captains = insert c (less amount taker) s.captains })
        ≡ (err e, r))
      × (supports ≡ false → Unmoved c s r)
unfolding claim_lost
swap_lost true c amount taker s found covered = (_, _, refl, λ h. cc)
swap_lost false c amount taker s found covered =
    let (r, released, kept) = release_undoes c amount taker s found covered in
    (
      conflict task_already_claimed,
      r,
      bind_ok (release_payout_hold c amount) (λ _. raise (conflict task_already_claimed)) _ r tt
          released,
      λ _. kept,
    )

-- The hold and the claim, where the task is held already.
body-Fails :
    (supports : Bool) (id c amount : ℕ) (share : CaptainShare) (minutes : ℕ) (actor : ActorContext)
    (now : ℕ) (s : Store) (t : Task)
    → lookup id s.tasks ≡ some t
    → unheld t ≡ false
    → Fails c (atomically supports (claim_body supports id c amount share minutes actor now)) s
unfolding claim_body
body-Fails supports id c amount share minutes actor now s t found taken =
    let hold = hold_for_payout c amount in
    let next = after_hold supports id c amount share minutes actor now in
    let body = claim_body supports id c amount share minutes actor now in
    elim (hold_taken c amount s) [
      | inl refused ↦
          let (e, r, failed, kept) = refuse_hold-Fails c s in
          atomically-Fails c supports body s r e
            (bind_ok hold next s s false refused
              ∙ after_hold-false supports id c amount share minutes actor now s
              ∙ failed)
            (λ _. kept)
      | inr (taker, there, covered, holds) ↦
          let s1 = record s { captains = insert c (less amount taker) s.captains } in
          let swap = compare_and_swap_claim id c share minutes actor now in
          let lost = swap_fails id c share minutes actor now s1 t found taken in
          let (e, r, failed, kept) = swap_lost supports c amount taker s there covered in
          atomically-Fails c supports body s r e
            (bind_ok hold next s s1 true holds
              ∙ after_hold-true supports id c amount share minutes actor now s1
              ∙ bind_ok swap (after_swap supports c amount) s1 s1 none lost
              ∙ after_swap-none supports c amount s1
              ∙ failed)
            kept
    ]

-- A captain cannot take a task that another has taken, or that is not up for a claim: whatever
-- document the claim has read, with database transactions or without, it ends in an error, the
-- captain's balance is what it was, and no task has changed.
pub claim_task_from_taken :
    (supports : Bool) (id c : ℕ) (task t : Task) (actor : ActorContext) (now : ℕ) (s : Store)
    → lookup id s.tasks ≡ some t
    → unheld t ≡ false
    → (e : AppError) × (r : Store) × (claim_task_from supports id task c actor now s ≡ (err e, r))
      × (lookup c r.captains ≡ lookup c s.captains)
      × (r.tasks ≡ s.tasks)
unfolding claim_task_from claim_at reads
claim_task_from_taken supports id c task t actor now s found taken =
    let price = price_claim s.config task (lookup c s.captains) in
    let next = claim_at supports id task c actor now in
    elim (result_cases price) [
      | inl (e, refused) ↦ (e, s, bind_err (lift price) next s s e (rw refused refl), refl, refl)
      | inr (share, priced) ↦
          let minutes =
            get_or task.clocks.completion_minutes s.clock_config.task_completion_minutes in
          let (e, r, failed, kept) =
            body-Fails supports id c task.amount share minutes actor now s t found taken in
          (
            e,
            r,
            bind_ok (lift price) next s s share (rw priced refl)
                ∙ bind_err
                    (atomically supports
                      (claim_body supports id c task.amount share minutes actor now))
                    (λ (u : Task). settle_offer id c now >> pure u) s r e failed,
            kept.0,
            kept.1,
          )
    ]
