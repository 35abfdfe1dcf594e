-- ===== src/Engine/Settling.antt =====
-- Settling: the party is credited, the charge goes into the pool and the captain is paid out of
-- the pool, all of it once.
use flitepay.Prelude.{
  ℕ, ◌+◌, ◌≤◌, ◌≡◌, inl, inr, refl, ap, ◌∙◌, Bool, true, false, Option, none, some, arith, is_some,
  Bool-cases, Option-cases,
}
use flitepay.Prelude.Int.{ℤ}
use flitepay.Prelude.Dict.{lookup}
use flitepay.Errors.{ok}
use flitepay.Money.{max_paise}
use flitepay.Machine.Transaction.{
  TransactionState, created, settled, same, can_transition, holds_funds,
}
use flitepay.Store.{Transaction, Store, atomically}
use flitepay.Engine.{
  put, move, claim, conclude, with_settlement, settle_money, settle_body, settle_from, note_paid,
  same_bool,
}
use flitepay.Engine.Worth.{held, IsBacked, HasCaptain, Keeps}
use flitepay.Engine.Claims.{
  claim_cases, if_won_refused, if_won_lost, if_won_won, Balanced, Balanced-put, IsBacked-Alike,
  atomically_keeps,
}
use flitepay.Engine.Money.{
  Moved, Moved-trans, Shift-level, credit_party-Moved, collect_commission-Moved, pay_captain-Moved,
}
use flitepay.Engine.Worth.{Keeps-trans}
use flitepay.Engine.Claims.{if_won_refused, if_won_lost, if_won_won}
use flitepay.Engine.Conservation.{bind_keeps, conclude-Balanced, settled_up}
use flitepay.Engine.Refunds.{store_at}

-- Noting on the row whether the captain was paid moves nothing.
note_paid-Balanced :
    (w : ℤ) (id : ℕ) (t : Transaction) (paid : Bool) (s : Store)
    → Balanced w s
    → (v : Transaction) × (r : Store) × (note_paid id t paid s ≡ (ok v, r)) × Balanced w r
unfolding note_paid
note_paid-Balanced w id t paid s b = elim (Bool-cases (same_bool paid t.commission_paid)) [
  | inl already ↦ (t, s, ground arith, b)
  | inr differs ↦ elim (Option-cases (lookup id s.transactions)) [
    | inl missing ↦ (record t { commission_paid = paid }, s, ground arith, b)
    | inr (u, found) ↦
        let v = record u { commission_paid = paid } in
        (
          record t { commission_paid = paid },
          put id v s,
          ground arith,
          Balanced-put w id u v s b found
              (IsBacked-Alike s u v (b.0 id u found) (refl, refl, refl, refl) (λ e. e)) refl,
        )
  ]
]

HasCaptain-Keeps : (s t : Store) (o : Option ℕ) → Keeps s t → HasCaptain s o → HasCaptain t o
HasCaptain-Keeps s t none k h = h
HasCaptain-Keeps s t (some c) k h = k.0 c h

-- The money of a settlement, before the note on the row: `amount` is paid out for what was held.
settle_money_cases :
    (session : Bool) (id : ℕ) (u : Transaction) (s : Store)
    → is_some (lookup u.party_id s.parties) ≡ true
    → u.party_commission ≤ max_paise
    → HasCaptain s u.captain_id
    → (paid : Bool) × (r : Store) × (settle_money session id u s ≡ note_paid id u paid r)
      × Moved s r (u.amount + u.party_commission) u.party_commission
unfolding settle_money
settle_money_cases session id u s there safe has =
    let (r1, e1, m1) = credit_party-Moved u.party_id u.amount u.party_commission s there in
    let (r2, e2, m2) = collect_commission-Moved u.party_commission r1 safe in
    let (paid, r3, e3, m3) =
      pay_captain-Moved session id u r2
        (HasCaptain-Keeps s r2 u.captain_id (Keeps-trans s r1 r2 m1.1 m2.1) has) in
    let m = Moved-trans s r2 r3 _ _ 0 0 (Moved-trans s r1 r2 _ _ u.party_commission 0 m1 m2) m3 in
    (
      paid,
      r3,
      ground arith,
      (
        Shift-level s r3 _ _ (u.amount + u.party_commission) u.party_commission m.0 (omega arith),
        m.1,
        m.2,
        m.3,
      ),
    )

settled_from_held :
    (from : TransactionState) → can_transition from settled ≡ true → holds_funds from ≡ true
unfolding can_transition holds_funds
settled_from_held created h = cc
settled_from_held _ h = ground arith

over : holds_funds settled ≡ false
unfolding holds_funds
over = refl

closed : holds_funds settled ≡ true → ⊥
unfolding holds_funds
closed e = cc

settle_body-Balanced :
    (w : ℤ) (session : Bool) (id : ℕ) (from : TransactionState) (actor : Option ℕ) (now : ℕ)
    (s : Store)
    → Balanced w s
    → Balanced w (settle_body session id from actor now s).1
unfolding settle_body
settle_body-Balanced w session id from actor now s b =
    let m = claim id from settled (with_settlement now) actor none now in
    let k = settle_money session id in
    elim (claim_cases id from settled (with_settlement now) actor none now s) [
      | inl refused ↦ store_at w _ _ s (if_won_refused k m s _ s refused) b
      | inr (inl lost) ↦ store_at w _ _ s (if_won_lost k m s s lost) b
      | inr (inr (t, found, here, legal, won)) ↦
          let u = move from settled (with_settlement now) actor none now t in
          let old = b.0 id t found in
          let held_t : holds_funds t.status ≡ true =
            ap holds_funds here ∙ settled_from_held from legal in
          let backed : IsBacked s u = (old.0, old.1, λ e. absurd (closed e)) in
          let (paid, r, e, moved) =
            settle_money_cases session id u (put id u s) old.0 old.1 (old.2 held_t) in
          let level : held u + (u.amount + u.party_commission) ≡ held t + u.party_commission =
            rw (held_t, over) (omega arith) in
          let br =
            settled_up w id (u.amount + u.party_commission) u.party_commission t u s r b found
              backed moved level in
          let (v, r', e', done) = note_paid-Balanced w id u paid r br in
          store_at w _ _ r' (if_won_won k m s u v (put id u s) r' won (e ∙ e')) done
    ]

-- Settling keeps the invariant, whatever state it was settled from.
pub settle_from-Balanced :
    (w : ℤ) (supports : Bool) (id : ℕ) (from : TransactionState) (actor : Option ℕ) (now : ℕ)
    (s : Store)
    → Balanced w s
    → Balanced w (settle_from supports id from actor now s).1
unfolding settle_from
settle_from-Balanced w supports id from actor now s b =
    bind_keeps (Balanced w) (atomically supports (settle_body supports id from actor now))
      (conclude id (same settled)) s
      (atomically_keeps (Balanced w) supports (settle_body supports id from actor now) s b
        (settle_body-Balanced w supports id from actor now s b))
      (λ o t. conclude-Balanced w id (same settled) o t)
