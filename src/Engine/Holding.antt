-- ===== src/Engine/Holding.antt =====
-- The steps of an assignment, and what each of them leaves in the database.
use flitepay.Prelude.{
  ℕ, ◌-◌, ◌≡◌, ◌⊎◌, inl, inr, refl, sym, subst, Bool, true, false, Option, none, some, arith,
  is_some, Bool-cases, Option-cases,
}
use flitepay.Prelude.Dict.{lookup, insert}
use flitepay.Errors.{AppError, Result, ok, err}
use flitepay.Machine.Transaction.{created, assigned, same}
use flitepay.Store.{Captain, Transaction, Store}
use flitepay.Engine.{put, claim, load}
use flitepay.Engine.Worth.{Keeps-refl}
use flitepay.Engine.Money.{Moved}
use flitepay.Commission.{CaptainShare, RateConfig}
use flitepay.Routing.{CaptainWorkload, Candidate, best_of}
use flitepay.Engine.Assign.{price, eligible, placeable}
use flitepay.Capacity.{within_current_limit, is_active}
use flitepay.Capacity.Limits.{claim_keeps_commission}
use flitepay.Engine.Assign.{
  assign_body, assign_chosen, after_assignment, take_on, put_back, hold_captain, stamp_offer,
  release_assignment, assign_best, assign_captain,
}
use flitepay.Engine.Worth.{Shift-captain, insert_keeps}
use flitepay.Engine.Money.{Shift-level}

pub hold_cases :
    (c amount : ℕ) (s : Store)
    → (hold_captain c amount s ≡ (ok false, s))
      ⊎ ((t : Store) × (hold_captain c amount s ≡ (ok true, t))
          × Moved s t 0 amount
          × (is_some (lookup c s.captains) ≡ true))
unfolding hold_captain
hold_cases c amount s = elim (Option-cases (lookup c s.captains)) [
  | inl missing ↦ inl (ground arith)
  | inr (x, found) ↦ elim (Bool-cases (is_active x.status)) [
    | inr inactive ↦ inl (ground arith)
    | inl active ↦ elim (Bool-cases (within_current_limit amount x)) [
      | inr outside ↦ inl (ground arith)
      | inl within ↦
          let d = record x { dmc_balance = x.dmc_balance - amount } in
          let t = record s { captains = insert c d s.captains } in
          let covered = (claim_keeps_commission amount x within).0 in
          inr (
            t,
            ground arith,
            (
              Shift-level s t _ _ 0 amount (Shift-captain c x d s found) (omega arith),
              (insert_keeps c d s.captains, λ id h. h),
              refl,
              refl,
            ),
            rw found refl,
          )
    ]
  ]
]

pub stamp_offer-Moved : (c now : ℕ) (s : Store) → Moved s (stamp_offer c now s) 0 0
unfolding stamp_offer
stamp_offer-Moved c now s = elim (Option-cases (lookup c s.captains)) [
  | inl missing ↦
      let at : stamp_offer c now s ≡ s = ground arith in
      let m : Moved s s 0 0 = (refl, Keeps-refl s, refl, refl) in
      subst (λ t. Moved s t 0 0) (sym at) m
  | inr (x, found) ↦
      let d = record x { last_offered_at = some now } in
      let t = record s { captains = insert c d s.captains } in
      let m : Moved s t 0 0 = (
        Shift-level s t _ _ 0 0 (Shift-captain c x d s found) (omega arith),
        (insert_keeps c d s.captains, λ id h. h),
        refl,
        refl,
      ) in
      let at : stamp_offer c now s ≡ t = ground arith in subst (λ r. Moved s r 0 0) (sym at) m
]

module _ (supports : Bool) (id captain_id amount : ℕ) (share : CaptainShare) (open_to now : ℕ)
    (s : Store) where
  pub chosen_ok :
      (won : Option Transaction × Bool) (t : Store)
      → assign_body id captain_id amount share now s ≡ (ok won, t)
      → assign_chosen supports id captain_id amount share open_to now s
        ≡ after_assignment id captain_id open_to now won t
  unfolding assign_chosen
  chosen_ok won t e = ground arith

  pub chosen_err :
      (x : AppError)
      → assign_body id captain_id amount share now s ≡ (err x, s)
      → (assign_chosen supports id captain_id amount share open_to now s).1 ≡ s
  unfolding assign_chosen
  chosen_err x e = ground arith

  pub body_refused :
      (x : AppError)
      → claim id created assigned (take_on captain_id share) none none now s ≡ (err x, s)
      → assign_body id captain_id amount share now s ≡ (err x, s)
  unfolding assign_body
  body_refused x e = ground arith

  pub body_lost :
      claim id created assigned (take_on captain_id share) none none now s ≡ (ok none, s)
      → assign_body id captain_id amount share now s ≡ (ok (none, true), s)
  unfolding assign_body
  body_lost e = ground arith

  pub body_won :
      (u : Transaction) (h : Bool) (t r : Store)
      → claim id created assigned (take_on captain_id share) none none now s ≡ (ok (some u), t)
      → hold_captain captain_id amount t ≡ (ok h, r)
      → assign_body id captain_id amount share now s ≡ (ok (some u, h), r)
  unfolding assign_body
  body_won u h t r e k = ground arith

  pub after_nobody :
      (b : Bool) (t : Store) → (after_assignment id captain_id open_to now (none, b) t).1 ≡ t
  unfolding after_assignment load
  after_nobody b t = ground arith

  pub after_held :
      (u : Transaction) (t : Store)
      → (after_assignment id captain_id open_to now (some u, true) t).1
        ≡ stamp_offer captain_id now t
  unfolding after_assignment
  after_held u t = refl

  pub after_failed :
      (u v : Transaction) (t : Store)
      → lookup id (stamp_offer captain_id now t).transactions ≡ some v
      → v.status ≡ assigned
      → (after_assignment id captain_id open_to now (some u, false) t).1
        ≡ put id (put_back captain_id now v) (stamp_offer captain_id now t)
  unfolding after_assignment release_assignment
  after_failed u v t found here =
      let yes : same v.status assigned ≡ true = rw here refl in ground arith

price_cases :
    (config : RateConfig) (t : Transaction) (c : Captain)
    → ((e : AppError) × (price config t c ≡ err e))
      ⊎ ((share : CaptainShare) × (price config t c ≡ ok share))
price_cases config t c = go (price config t c)
  where
    go :
        (r : Result CaptainShare)
        → ((e : AppError) × (r ≡ err e)) ⊎ ((share : CaptainShare) × (r ≡ ok share))
    go (ok share) = inr (share, refl)
    go (err e) = inl (e, refl)

pub some-injective : (t u : Transaction) → some t ≡ some u → t ≡ u
some-injective t u e = cc

-- `assignCaptain` either writes nothing, or assigns a chosen captain at a price.
pub assign_captain_cases :
    (supports : Bool) (workloads : ℕ → CaptainWorkload) (id now : ℕ) (s : Store)
    → ((assign_captain supports workloads id now s).1 ≡ s)
      ⊎ ((t : Transaction) × (best : Candidate) × (share : CaptainShare) × (open_to : ℕ) × (lookup
              id s.transactions
            ≡ some t)
          × ((assign_captain supports workloads id now s).1
              ≡ (assign_chosen supports id best.id t.amount share open_to now s).1))
unfolding assign_captain assign_best load
assign_captain_cases supports workloads id now s = elim (Option-cases (lookup id s.transactions)) [
  | inl missing ↦ inl (ground arith)
  | inr (t, found) ↦ elim (Bool-cases (same t.status created)) [
    | inr elsewhere ↦ inl (ground arith)
    | inl new ↦ elim (Option-cases (best_of (eligible t workloads s.captains))) [
      | inl nobody ↦ inl (ground arith)
      | inr (best, chosen) ↦ elim (price_cases s.config t best.captain) [
        | inl (e, refused) ↦ inl (ground arith)
        | inr (share, priced) ↦ inr (t, best, share, placeable t s.captains, found, ground arith)
      ]
    ]
  ]
]
