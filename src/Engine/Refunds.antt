-- ===== src/Engine/Refunds.antt =====
-- The ways out of a transaction without settling it: expiry, cancellation and the decline of a
-- captain, each of which gives back what was put aside, once.
use flitepay.Prelude.{
  ℕ, ◌+◌, ◌≡◌, ◌⊎◌, inl, inr, refl, ap, ◌∙◌, subst, Bool, true, false, Option, none, some, Text,
  arith, Bool-cases, Option-cases,
}
use flitepay.Prelude.Int.{ℤ}
use flitepay.Prelude.Dict.{lookup}
use flitepay.Errors.{Result, ok}
use flitepay.Machine.Transaction.{TransactionState, assigned, same, holds_funds}
use flitepay.Store.{Transaction, Store, Action, atomically, pure, ◌>>=◌}
use flitepay.Engine.{put, move, claim, conclude, credit_captain}
use flitepay.Engine.Endings.{with_failure, release_hold, end_body, end_from}
use flitepay.Engine.Worth.{held, IsBacked, HasCaptain}
use flitepay.Engine.Claims.{
  same_eq, claim_cases, if_won_refused, if_won_lost, if_won_won, Balanced, Balanced-put,
  IsBacked-Alike, atomically_keeps, bind_ok,
}
use flitepay.Engine.Money.{Moved, credit_captain-Moved}
use flitepay.Engine.{hand_back, claim_decline, decline_body, decline_from, same_captain}
use flitepay.Engine.Conservation.{bind_keeps, conclude-Balanced, settled_up}

release_nothing :
    (u : Transaction) (from : TransactionState) (s : Store)
    → holds_funds from ≡ false
    → release_hold u from s ≡ (ok tt, s)
unfolding release_hold holds_funds
release_nothing u from s no_hold = ground arith

pub release_held :
    (u : Transaction) (from : TransactionState) (s : Store)
    → holds_funds from ≡ true
    → HasCaptain s u.captain_id
    → (r : Store) × (release_hold u from s ≡ (ok tt, r)) × Moved s r u.amount 0
unfolding release_hold holds_funds
release_held u from s holds has = elim (Option-cases u.captain_id) [
  | inl nobody ↦ absurd (subst (HasCaptain s) nobody has)
  | inr (c, named) ↦
      let (r, e, m) = credit_captain-Moved c u.amount s (subst (HasCaptain s) named has) in
      (r, ground arith, m)
]

pub store_at :
    {A : Type 0} (w : ℤ) (x : Result A × Store) (a : Result A) (r : Store)
    → x ≡ (a, r)
    → Balanced w r
    → Balanced w x.1
store_at w x a r e b = rw e b

-- The body of `expire` and `cancel`, for any state that it is run from.
end_body-Balanced :
    (w : ℤ) (id : ℕ) (from to : TransactionState) (reason : Text) (actor : Option ℕ) (now : ℕ)
    (s : Store)
    → holds_funds to ≡ false
    → Balanced w s
    → Balanced w (end_body id from to reason actor now s).1
unfolding end_body
end_body-Balanced w id from to reason actor now s over b =
    let m = claim id from to (with_failure reason) actor (some reason) now in
    let k : Transaction → Action Transaction = λ won. (release_hold won from >>= λ _. pure won) in
    elim (claim_cases id from to (with_failure reason) actor (some reason) now s) [
      | inl refused ↦ store_at w _ _ s (if_won_refused k m s _ s refused) b
      | inr (inl lost) ↦ store_at w _ _ s (if_won_lost k m s s lost) b
      | inr (inr (t, found, here, legal, won)) ↦
          let u = move from to (with_failure reason) actor (some reason) now t in
          let backed =
            IsBacked-Alike s t u (b.0 id t found) (refl, refl, refl, refl) (λ e. absurd (cc)) in
          elim (Bool-cases (holds_funds from)) [
            | inl holds ↦
                let (r, e, moved) =
                  release_held u from (put id u s) holds
                    ((b.0 id t found).2 (ap holds_funds here ∙ holds)) in
                let level : held u + u.amount ≡ held t + 0 = rw (here, holds, over) (omega arith) in
                store_at w _ _ r
                  (if_won_won k m s u u (put id u s) r won
                    (bind_ok (release_hold u from) (λ _. pure u) (put id u s) r tt e))
                  (settled_up w id u.amount 0 t u s r b found backed moved level)
            | inr no_hold ↦
                let level : held u ≡ held t = rw (here, no_hold, over) refl in
                store_at w _ _ (put id u s)
                  (if_won_won k m s u u (put id u s) (put id u s) won (
                    bind_ok (release_hold u from) (λ _. pure u) (put id u s) (put id u s) tt
                      (release_nothing u from (put id u s) no_hold)))
                  (Balanced-put w id t u s b found backed level)
          ]
    ]

-- Ending a transaction, by expiry or by cancellation, keeps the invariant, whatever state it was
-- read in.
pub end_from-Balanced :
    (w : ℤ) (supports : Bool) (id : ℕ) (from to : TransactionState) (reason : Text)
    (actor : Option ℕ) (now : ℕ) (s : Store)
    → holds_funds to ≡ false
    → Balanced w s
    → Balanced w (end_from supports id from to reason actor now s).1
unfolding end_from
end_from-Balanced w supports id from to reason actor now s over b =
    bind_keeps (Balanced w) (atomically supports (end_body id from to reason actor now))
      (conclude id (same to)) s
      (atomically_keeps (Balanced w) supports (end_body id from to reason actor now) s b
        (end_body-Balanced w id from to reason actor now s over b))
      (λ o t. conclude-Balanced w id (same to) o t)

same_captain_eq : (o : Option ℕ) (c : ℕ) → same_captain o c ≡ true → o ≡ some c
same_captain_eq none c h = cc
same_captain_eq (some d) c h = ap some (ground arith)

pub decline_cases :
    (id captain_id : ℕ) (by : Option ℕ) (reason : Text) (now : ℕ) (s : Store)
    → (claim_decline id captain_id by reason now s ≡ (ok none, s))
      ⊎ ((t : Transaction) × (lookup id s.transactions ≡ some t)
          × (t.status ≡ assigned)
          × (t.captain_id ≡ some captain_id)
          × (claim_decline id captain_id by reason now s ≡ (
            ok (some (hand_back captain_id by reason now t)),
            put id (hand_back captain_id by reason now t) s,
          )))
unfolding claim_decline
decline_cases id captain_id by reason now s = elim (Option-cases (lookup id s.transactions)) [
  | inl missing ↦ inl (ground arith)
  | inr (t, found) ↦ elim (Bool-cases (same t.status assigned)) [
    | inl here ↦ elim (Bool-cases (same_captain t.captain_id captain_id)) [
      | inl mine ↦ inr (
        t,
        found,
        same_eq t.status assigned here,
        same_captain_eq t.captain_id captain_id mine,
        ground arith,
      )
      | inr other ↦ inl (ground arith)
    ]
    | inr moved ↦ inl (ground arith)
  ]
]

decline_body-Balanced :
    (w : ℤ) (id captain_id : ℕ) (by : Option ℕ) (reason : Text) (now : ℕ) (s : Store)
    → Balanced w s
    → Balanced w (decline_body id captain_id by reason now s).1
unfolding decline_body holds_funds
decline_body-Balanced w id captain_id by reason now s b =
    let m = claim_decline id captain_id by reason now in
    let k : Transaction → Action Transaction =
      λ won. (credit_captain captain_id won.amount >>= λ _. pure won) in
    elim (decline_cases id captain_id by reason now s) [
      | inl lost ↦ store_at w _ _ s (if_won_lost k m s s lost) b
      | inr (t, found, here, mine, won) ↦
          let u = hand_back captain_id by reason now t in
          let old = b.0 id t found in
          let backed : IsBacked s u = (old.0, old.1, λ e. absurd (cc)) in
          let holds : holds_funds t.status ≡ true = rw here refl in
          let (r, e, moved) =
            credit_captain-Moved captain_id u.amount (put id u s)
              (subst (HasCaptain s) mine (old.2 holds)) in
          let level : held u + u.amount ≡ held t + 0 = rw holds (omega arith) in
          store_at w _ _ r
            (if_won_won k m s u u (put id u s) r won
              (bind_ok (credit_captain captain_id u.amount) (λ _. pure u) (put id u s) r tt e))
            (settled_up w id u.amount 0 t u s r b found backed moved level)
    ]

-- A captain's decline keeps the invariant.
pub decline_from-Balanced :
    (w : ℤ) (supports : Bool) (id captain_id : ℕ) (reason : Text) (actor : Option ℕ) (now : ℕ)
    (s : Store)
    → Balanced w s
    → Balanced w (decline_from supports id captain_id reason actor now s).1
unfolding decline_from
decline_from-Balanced w supports id captain_id reason actor now s b =
    bind_keeps (Balanced w) (atomically supports (decline_body id captain_id actor reason now))
      (conclude id (λ _. false)) s
      (atomically_keeps (Balanced w) supports (decline_body id captain_id actor reason now) s b
        (decline_body-Balanced w id captain_id actor reason now s b))
      (λ o t. conclude-Balanced w id (λ _. false) o t)
