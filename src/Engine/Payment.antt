-- ===== src/Engine/Payment.antt =====
-- The money of one settlement, to the paise.
use flitepay.Prelude.{
  ℕ, ◌+◌, ◌-◌, ◌≤◌, ◌<◌, ◌≡◌, inl, inr, refl, sym, ap, ◌∙◌, subst, Bool, true, Option, none, some,
  ◌∷◌, arith, Bool-cases, Option-cases,
}
use flitepay.Prelude.Int.{pos, ◌+ℤ◌, ◌-ℤ◌}
use flitepay.Prelude.Dict.{lookup, insert, lookup-insert}
use flitepay.Errors.{Result, ok}
use flitepay.Money.{max_paise}
use flitepay.Machine.Transaction.{confirmed, settled, same, can_transition, assert_transition}
use flitepay.Store.{Captain, Party, Transaction, Store, atomically, ◌>>=◌}
use flitepay.Pool.Laws.{pool_of, funded_of, with_pool, pool_credits}
use flitepay.Pool.{account_or_new}
use flitepay.Store.{PlatformAccount}
use flitepay.Balance.{earn}
use flitepay.Balance.Commission.{entry_of, pay_commission_to_captain_lem}
use flitepay.Engine.{
  put, move, compare_and_move, claim, load, conclude, with_settlement, credit_party,
  collect_commission, pay_captain, note_paid, settle_money, settle_body, settle_from, settle,
}
use flitepay.Engine.Claims.{if_won_won}
use flitepay.Engine.Outcomes.{finished_some}

abbrev credited_of : Transaction → Party → Party
credited_of t p = record p {
  dmc_balance = p.dmc_balance +ℤ (pos t.amount -ℤ pos t.party_commission);
}

abbrev pool_in : Option PlatformAccount → ℕ
pool_in account = (account_or_new account).pool_balance

module _ (supports : Bool) (id : ℕ) (u : Transaction) (s : Store) {p : Party} {c : Captain}
    {captain_id : ℕ} (named : u.captain_id ≡ some captain_id)
    (party : lookup u.party_id s.parties ≡ some p) (captain : lookup captain_id s.captains ≡ some c)
    (charged : 0 < u.party_commission) (safe : u.party_commission ≤ max_paise)
    (owed : 0 < u.commission) (covered : u.commission ≤ pool_of s + u.party_commission) where
  abbrev credited : Party
  credited = credited_of u p

  abbrev after_credit : Store
  after_credit = record s { parties = insert u.party_id credited s.parties }

  abbrev after_collect : Store
  after_collect = with_pool (pool_of s + u.party_commission) (funded_of s) after_credit

  abbrev after_pay : Store
  after_pay = record after_collect {
    platform =
        (with_pool (pool_of s + u.party_commission - u.commission) (funded_of s)
          after_credit).platform;
    captains = insert captain_id (earn u.commission c) s.captains;
    wallet_entries = entry_of captain_id u.commission (some id) c ∷ s.wallet_entries;
  }

  collected : collect_commission u.party_commission after_credit ≡ (ok tt, after_collect)
  unfolding collect_commission
  collected = elim (pool_credits u.party_commission after_credit) [
    | inl (_, _, done, _) ↦ ground arith
    | inr (refused, _, _) ↦ absurd (omega arith)
  ]

  captain_paid : pay_captain supports id u after_collect ≡ (ok true, after_pay)
  unfolding pay_captain
  captain_paid =
      elim (pay_commission_to_captain_lem captain_id u.commission supports (some id) after_collect
        {c = c} owed captain) [
          | inl (_, done) ↦ ground arith
          | inr (short, _) ↦ absurd (omega arith)
        ]

  settle_money_lem : settle_money supports id u s ≡ note_paid id u true after_pay
  unfolding settle_money credit_party
  settle_money_lem = ground (arith, collected, captain_paid)

noted :
    (id : ℕ) (u : Transaction) (r : Store)
    → (v : Transaction) × (r' : Store) × (note_paid id u true r ≡ (ok v, r'))
      × (v.status ≡ u.status)
      × (v.commission_paid ≡ true)
      × (r'.parties ≡ r.parties)
      × (r'.captains ≡ r.captains)
      × (r'.platform ≡ r.platform)
unfolding note_paid
noted id u r = elim (Bool-cases u.commission_paid) [
  | inl already ↦ (u, r, ground arith, refl, already, refl, refl, refl)
  | inr not_yet ↦ elim (Option-cases (lookup id r.transactions)) [
    | inl missing ↦
        (record u { commission_paid = true }, r, ground arith, refl, refl, refl, refl, refl)
    | inr (t, found) ↦ (
      record u { commission_paid = true },
      put id (record t { commission_paid = true }) r,
      ground arith,
      refl,
      refl,
      refl,
      refl,
      refl,
    )
  ]
]

claim_confirmed :
    (id : ℕ) (actor : Option ℕ) (now : ℕ) (s : Store) (t : Transaction)
    → lookup id s.transactions ≡ some t
    → t.status ≡ confirmed
    → let u = move confirmed settled (with_settlement now) actor none now t in
      claim id confirmed settled (with_settlement now) actor none now s ≡ (ok (some u), put id u s)
unfolding claim compare_and_move assert_transition can_transition
claim_confirmed id actor now s t found here = ground arith

settle_confirmed :
    (supports : Bool) (id : ℕ) (actor : Option ℕ) (now : ℕ) (s : Store) (t : Transaction)
    → lookup id s.transactions ≡ some t
    → t.status ≡ confirmed
    → settle supports id actor now s
      ≡ (atomically supports (settle_body supports id confirmed actor now)
            >>= conclude id (same settled))
          s
unfolding settle load settle_from
settle_confirmed supports id actor now s t found here = ground arith

body_won :
    (supports : Bool) (id : ℕ) (actor : Option ℕ) (now : ℕ) (s : Store) (u v : Transaction)
    (t r : Store)
    → claim id confirmed settled (with_settlement now) actor none now s ≡ (ok (some u), t)
    → settle_money supports id u t ≡ (ok v, r)
    → settle_body supports id confirmed actor now s ≡ (ok (some v), r)
unfolding settle_body
body_won supports id actor now s u v t r =
    if_won_won (settle_money supports id)
      (claim id confirmed settled (with_settlement now) actor none now) s u v t r

module _ (supports : Bool) (id : ℕ) (actor : Option ℕ) (now : ℕ) (s : Store) {t : Transaction}
    {p : Party} {c : Captain} {captain_id : ℕ} (found : lookup id s.transactions ≡ some t)
    (named : t.captain_id ≡ some captain_id) (party : lookup t.party_id s.parties ≡ some p)
    (captain : lookup captain_id s.captains ≡ some c) (charged : 0 < t.party_commission)
    (safe : t.party_commission ≤ max_paise) (owed : 0 < t.commission)
    (covered : t.commission ≤ pool_of s + t.party_commission) where
  -- A settlement of a confirmed transaction gives the party the amount less its charge, the
  -- charge to the pool, and the captain's commission out of the pool to the captain, who gets no
  -- part of the amount back; it answers with the transaction.
  pub settle_pays :
      t.status ≡ confirmed
      → let (r, s') = settle supports id actor now s in
        ((v : Transaction) × (r ≡ ok v) × (v.status ≡ settled) × (v.commission_paid ≡ true))
        × (lookup t.party_id s'.parties
            ≡ some (record p {
              dmc_balance = p.dmc_balance +ℤ (pos t.amount -ℤ pos t.party_commission);
            }))
        × (lookup captain_id s'.captains
            ≡ some (record c {
              dmc_balance = c.dmc_balance + t.commission;
              commission_earned_total = c.commission_earned_total + t.commission;
            }))
        × (pool_of s' ≡ pool_of s + t.party_commission - t.commission)
  settle_pays here =
      let u = move confirmed settled (with_settlement now) actor none now t in
      let s1 = put id u s in
      let m = claim id confirmed settled (with_settlement now) actor none now in
      let body = settle_body supports id confirmed actor now in
      let money =
        settle_money_lem supports id u s1 {p = p} {c = c} {captain_id = captain_id} named party
          captain charged safe owed covered in
      let r =
        after_pay supports id u s1 {p = p} {c = c} {captain_id = captain_id} named party captain
          charged safe owed covered in
      let (v, r', done, same_status, paid, parties, captains, platform) = noted id u r in
      let whole : settle supports id actor now s ≡ (ok v, r') =
        settle_confirmed supports id actor now s t found here
        ∙ finished_some supports body id (same settled) s r' v (
            body_won supports id actor now s u v s1 r' (claim_confirmed id actor now s t found here)
              (money ∙ done)) in
      let at : (f : Store → Type 0) → f r' → f (settle supports id actor now s).1 =
        λ f h. subst (λ (x : Result Transaction × Store). f x.1) (sym whole) h in
      (
        (v, ap (λ (x : Result Transaction × Store). x.0) whole, same_status, paid),
        at (λ x. lookup t.party_id x.parties ≡ some (credited_of t p))
            (ap (lookup t.party_id) parties
              ∙ ground (arith, lookup-insert t.party_id t.party_id (credited_of t p) s.parties)),
        at (λ x. lookup captain_id x.captains ≡ some (earn t.commission c))
            (ap (lookup captain_id) captains
              ∙ ground
                  (arith, lookup-insert captain_id captain_id (earn t.commission c) s.captains)),
        at (λ x. pool_of x ≡ pool_of s + t.party_commission - t.commission) (ap pool_in platform),
      )
