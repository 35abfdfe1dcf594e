-- ===== src/Workflow/Taking.antt =====
-- A claim keeps the DMC in circulation: the hold goes with the claim, and a claim that is lost
-- gives it back.
use flitepay.Prelude.{
  ℕ, ◌+◌, ◌-◌, ◌≤◌, ◌≡◌, ◌⊎◌, inl, inr, refl, sym, subst, ◌∙◌, Bool, true, false, ◌&&◌, Option,
  none, some, [], ◌∷◌, arith, is_some, Bool-cases, Option-cases,
}
use flitepay.Prelude.Int.{ℤ}
use flitepay.Prelude.Dict.{lookup, insert}
use flitepay.Errors.{Result, AppError, ok, err, conflict, task_already_claimed}
use flitepay.Commission.{RateConfig, CaptainShare}
use flitepay.Commission.Shares.{reprice_captain_share-sum}
use flitepay.Machine.Task.{created, assigned, holds_collateral, is_claimable}
use flitepay.Store.{Captain, Store, Action, lift, atomically, finish, raise, ◌>>=◌, ◌>>◌}
use flitepay.Store.Tasks.{ActorContext, Task}
use flitepay.Store.Finding.{put_task}
use flitepay.Capacity.{within_current_limit, is_active}
use flitepay.Routing.Eligibility.{unheld}
use flitepay.Routing.Offers.{mark_offer_accepted, withdraw_open_offers, accept_offer}
use flitepay.Routing.Rating.{one_offer_accepted}
use flitepay.Workflow.{event, moved, release_payout_hold, charge}
use flitepay.Workflow.Claiming.{
  hold_for_payout, taken_by, compare_and_swap_claim, refuse_hold, claim_lost, after_swap,
  after_hold, claim_body, count_accepted, settle_offer, price_claim, claim_at, claim_task_from,
}
use flitepay.Workflow.Worth.{
  stake, is_waiting, Funds-put, Funds-Funds, Funds-none, IsBacked, IsSound-put, SameDeal,
}
use flitepay.Workflow.Flow.{Balanced, Flow, Does, Does-pure, bind_ok, find_cases}
use flitepay.Workflow.Money.{captain-Flow, release_payout_hold-Does, record_outcome-Does, rows-Flow}
use flitepay.Workflow.Routed.{still-bind, still-then, withdraw_open_offers-Does}
use flitepay.Workflow.Rules.{
  Sustains-bind, Sustains-pure, Leads, leads, Leads-lift, Leads-reads, Leads-reads_at, Leads-bind,
}
use flitepay.Workflow.Level.{stake_held, Sustains-Does}
use flitepay.Workflow.Refunds.{stake_waiting, live_waiting, Ready}

-- A hold is refused and nothing changes, or it is taken from a captain who is there.
pub hold_for_payout_cases :
    (c amount : ℕ) (s : Store)
    → (hold_for_payout c amount s ≡ (ok false, s))
      ⊎ ((t : Store) × (hold_for_payout c amount s ≡ (ok true, t))
          × Flow s t 0 amount
          × (is_some (lookup c t.captains) ≡ true)
          × (t.tasks ≡ s.tasks))
unfolding hold_for_payout within_current_limit
hold_for_payout_cases c amount s = elim (Option-cases (lookup c s.captains)) [
  | inl missing ↦ inl (ground arith)
  | inr (cap, found) ↦ elim (Bool-cases (is_active cap.status && within_current_limit amount cap)) [
    | inr refused ↦ inl (ground arith)
    | inl fits ↦
        let d = record cap { dmc_balance = cap.dmc_balance - amount } in
        let covered : amount ≤ cap.dmc_balance = ground arith in
        let f = captain-Flow c cap d s 0 amount found (omega arith) in
        inr (
          record s { captains = insert c d s.captains },
          ground arith,
          f,
          f.1.0 c (rw found refl),
          refl,
        )
  ]
]

refuse_hold_same : (c : ℕ) (s : Store) → (refuse_hold c s).1 ≡ s
unfolding refuse_hold
refuse_hold_same c s = elim (Option-cases (lookup c s.captains)) [
  | inl missing ↦ ground arith
  | inr (cap, found) ↦ ground arith
]

-- The books balance, or an error in a database transaction undoes what was done.
abbrev Settled : {A : Type 0} → ℤ → Bool → Result A × Store → Type 0
Settled {A} w supports p = Balanced w p.1 ⊎ ((supports ≡ true) × ((e : AppError) × (p.0 ≡ err e)))

atomically_settles :
    {A : Type 0} (w : ℤ) (supports : Bool) (body : Action A) (s : Store)
    → Balanced w s
    → Settled w supports (body s)
    → Balanced w (atomically supports body s).1
atomically_settles {A = A} w supports body s before after =
    go supports (body s).0 (body s).1 before after
  where
    go :
        (b : Bool) (r : Result A) (t : Store)
        → Balanced w s
        → Settled w b (r, t)
        → Balanced w (finish b s (r, t)).1
    go b (ok a) t h (inl k) = k
    go b (ok a) t h (inr (_, (e, failed))) = cc
    go true (err e) t h k = h
    go false (err e) t h (inl k) = k
    go false (err e) t h (inr (undone, _)) = cc

claim_lost-Settled :
    (w : ℤ) (supports : Bool) (c amount : ℕ) (s t : Store)
    → Balanced w s
    → Flow s t 0 amount
    → is_some (lookup c t.captains) ≡ true
    → Settled w supports (claim_lost supports c amount t)
unfolding claim_lost
claim_lost-Settled w true c amount s t b f there = inr (refl, (_, refl))
claim_lost-Settled w false c amount s t b f there =
    let (a, r, e, g) = release_payout_hold-Does c amount t there in
    let done : Balanced w r = (
      g.2 (f.2 b.0),
      Funds-none s r (0 + amount) (amount + 0) (Funds-Funds s t r 0 amount amount 0 f.0 g.0)
            (omega arith)
          ∙ b.1,
    ) in
    let at =
      bind_ok (release_payout_hold c amount) (λ _. raise (conflict task_already_claimed)) t r a e in
    inl (subst (λ (p : Result Task × Store). Balanced w p.1) (sym at) done)

unheld_waits : (t : Task) → unheld t ≡ true → is_waiting t.status ≡ true
unfolding is_claimable is_waiting
unheld_waits t h = ground arith

assigned_holds : holds_collateral assigned ≡ true
unfolding holds_collateral
assigned_holds = refl

-- The claim that is won: the captain's hold is the other half of the stake.
taken-Balanced :
    (w : ℤ) (id : ℕ) (t u : Task) (c amount : ℕ) (s r : Store)
    → Balanced w s
    → Flow s r 0 amount
    → is_some (lookup c r.captains) ≡ true
    → lookup id r.tasks ≡ some t
    → is_waiting t.status ≡ true
    → u.status ≡ assigned
    → u.captain_id ≡ some c
    → SameDeal t u
    → u.cancel ≡ t.cancel
    → amount ≡ t.amount
    → Balanced w (put_task id u r)
taken-Balanced w id t u c amount s r b f there found waits now named deal cancel same_amount =
    let sound = f.2 b.0 in
    let old = sound id t found in
    let holds : holds_collateral u.status ≡ true = rw now assigned_holds in
    let backed : IsBacked r u = (
      rw deal.0 old.0,
      λ _. rw deal.2 (old.1 (live_waiting t.status waits)),
      λ c' is. subst (λ x. is_some (lookup x r.captains) ≡ true) (ground arith) there,
      λ _. rw named refl,
      rw cancel old.4,
    ) in
    let at =
      Funds-Funds s r (put_task id u r) 0 amount (stake u) (stake t) f.0
        (Funds-put id t u r found) in
    (
      IsSound-put r id u sound backed,
      Funds-none s (put_task id u r) (0 + stake u) (amount + stake t) at
            (omega (arith, stake_held u holds, stake_waiting t waits, deal.1, deal.2, same_amount))
          ∙ b.1,
    )

abbrev taken_task : ℕ → CaptainShare → ℕ → ℕ → ActorContext → Task → Task
taken_task c share now minutes actor =
    moved assigned (taken_by c share now minutes)
      (record (event created assigned actor none now) { captain_id = some c } ∷ [])

Settled-at :
    {A : Type 0} (w : ℤ) (supports : Bool) {p q : Result A × Store}
    → p ≡ q
    → Settled w supports q
    → Settled w supports p
Settled-at {A = A} w supports e h = subst (λ (x : Result A × Store). Settled w supports x) (sym e) h

pub after_swap-none :
    (supports : Bool) (c amount : ℕ) (s : Store)
    → after_swap supports c amount none s ≡ claim_lost supports c amount s
unfolding after_swap
after_swap-none supports c amount s = refl

after_swap-some :
    (supports : Bool) (c amount : ℕ) (t : Task) (s : Store)
    → after_swap supports c amount (some t) s ≡ (ok t, s)
unfolding after_swap
after_swap-some supports c amount t s = refl

pub after_hold-false :
    (supports : Bool) (id c amount : ℕ) (share : CaptainShare) (minutes : ℕ) (actor : ActorContext)
    (now : ℕ) (s : Store)
    → after_hold supports id c amount share minutes actor now false s ≡ refuse_hold c s
unfolding after_hold
after_hold-false supports id c amount share minutes actor now s = refl

-- The claim after a hold.
after_hold-Settled :
    (w : ℤ) (supports : Bool) (id : ℕ) (task : Task) (c : ℕ) (share : CaptainShare) (minutes : ℕ)
    (actor : ActorContext) (now : ℕ) (s t : Store)
    → Ready w id task s
    → share.captain_paise + share.platform_paise ≡ charge task
    → Flow s t 0 task.amount
    → is_some (lookup c t.captains) ≡ true
    → t.tasks ≡ s.tasks
    → Settled w supports (after_hold supports id c task.amount share minutes actor now true t)
unfolding after_hold
after_hold-Settled w supports id task c share minutes actor now s t p sums f there same_tasks =
    let swap = compare_and_swap_claim id c share minutes actor now in
    let k = after_swap supports c task.amount in
    elim (find_cases id unheld (taken_task c share now minutes actor) t) [
      | inl lost ↦
          Settled-at w supports
            (bind_ok swap k t t none lost ∙ after_swap-none supports c task.amount t)
            (claim_lost-Settled w supports c task.amount s t p.0 f there)
      | inr (x, found, passes, won) ↦
          let u = taken_task c share now minutes actor x in
          let waits = unheld_waits x passes in
          let deal =
            p.1.3 x (subst (λ d. lookup id d ≡ some x) same_tasks found)
              (live_waiting x.status waits) in
          let same_deal : SameDeal x u = (refl, refl, sums ∙ deal.2) in
          let r = put_task id u t in
          Settled-at w supports
            (bind_ok swap k t r (some u) won ∙ after_swap-some supports c task.amount u r)
            (inl (
              taken-Balanced w id x u c task.amount s t p.0 f there found waits refl refl same_deal
                refl deal.1))
    ]

claim_body-Settled :
    (w : ℤ) (supports : Bool) (id : ℕ) (task : Task) (c : ℕ) (share : CaptainShare) (minutes : ℕ)
    (actor : ActorContext) (now : ℕ) (s : Store)
    → Ready w id task s
    → share.captain_paise + share.platform_paise ≡ charge task
    → Settled w supports (claim_body supports id c task.amount share minutes actor now s)
unfolding claim_body
claim_body-Settled w supports id task c share minutes actor now s p sums =
    let hold = hold_for_payout c task.amount in
    let next = after_hold supports id c task.amount share minutes actor now in
    elim (hold_for_payout_cases c task.amount s) [
      | inl refused ↦
          Settled-at w supports
            (bind_ok hold next s s false refused
              ∙ after_hold-false supports id c task.amount share minutes actor now s)
            (inl (rw (refuse_hold_same c s) p.0))
      | inr (t, taken, f, there, same_tasks) ↦
          Settled-at w supports (bind_ok hold next s t true taken) (
            after_hold-Settled w supports id task c share minutes actor now s t p sums f there
              same_tasks)
    ]

count_accepted-Does : (c : ℕ) (o : Option ℕ) (s : Store) → Does (count_accepted c o) s 0 0
unfolding count_accepted
count_accepted-Does c none s = Does-pure tt s
count_accepted-Does c (some seconds) s = record_outcome-Does c (one_offer_accepted seconds) s

mark_offer_accepted-Does : (id c now : ℕ) (s : Store) → Does (mark_offer_accepted id c now) s 0 0
unfolding mark_offer_accepted
mark_offer_accepted-Does id c now s =
    let r = accept_offer id c now s.offers in
    (r.0, record s { offers = r.1 }, refl, rows-Flow s s.proofs r.1 s.commissions s.allocations)

settle_offer-Does : (id c now : ℕ) (s : Store) → Does (settle_offer id c now) s 0 0
unfolding settle_offer
settle_offer-Does id c now s =
    still-bind (mark_offer_accepted id c now)
      (λ o. count_accepted c o >> withdraw_open_offers id (some c) now) s
      (mark_offer_accepted-Does id c now s)
      (λ o t.
        still-then (count_accepted c o) (withdraw_open_offers id (some c) now) t
          (count_accepted-Does c o t) (λ r. withdraw_open_offers-Does id (some c) now r))

price_claim-sum :
    (config : RateConfig) (task : Task) (captain : Option Captain) (share : CaptainShare)
    → price_claim config task captain ≡ ok share
    → share.captain_paise + share.platform_paise ≡ charge task
unfolding price_claim
price_claim-sum config task captain share h = reprice_captain_share-sum _ _ _ _ h

claim_at-Balanced :
    (w : ℤ) (supports : Bool) (id : ℕ) (task : Task) (c : ℕ) (actor : ActorContext) (now : ℕ)
    (share : CaptainShare)
    → share.captain_paise + share.platform_paise ≡ charge task
    → Leads (Ready w id task) (Balanced w) (claim_at supports id task c actor now share)
unfolding claim_at
claim_at-Balanced w supports id task c actor now share sums =
    Leads-reads (λ s p. p.0) _
      (λ minutes.
        Leads-bind
          {m = atomically supports (claim_body supports id c task.amount share minutes actor now)}
          (leads (λ s p.
            atomically_settles w supports
              (claim_body supports id c task.amount share minutes actor now) s p.0
              (claim_body-Settled w supports id task c share minutes actor now s p sums)))
          (λ claimed.
            Sustains-bind (Sustains-Does w (settle_offer-Does id c now))
              (λ _. Sustains-pure claimed)))

-- A captain takes a pay-out.
pub claim_task_from-Balanced :
    (w : ℤ) (supports : Bool) (id : ℕ) (task : Task) (c : ℕ) (actor : ActorContext) (now : ℕ)
    → Leads (Ready w id task) (Balanced w) (claim_task_from supports id task c actor now)
unfolding claim_task_from
claim_task_from-Balanced w supports id task c actor now =
    Leads-reads_at (λ s p. p.0) (λ s. price_claim s.config task (lookup c s.captains))
      (λ r. lift r >>= claim_at supports id task c actor now)
      (λ s.
        Leads-lift (λ s p. p.0) (price_claim s.config task (lookup c s.captains))
          (λ share priced.
            claim_at-Balanced w supports id task c actor now share
              (price_claim-sum s.config task (lookup c s.captains) share priced)))
