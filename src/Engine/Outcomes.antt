-- ===== src/Engine/Outcomes.antt =====
-- What a settlement does, once and never twice.
use flitepay.Prelude.{
  ℕ, ◌≡◌, ◌⊎◌, inl, inr, refl, sym, ap, ◌∙◌, subst, Bool, true, false, Option, none, some, arith,
  if◌then◌else◌, Bool-cases, Option-cases,
}
use flitepay.Prelude.Dict.{lookup, lookup-insert}
use flitepay.Errors.{AppError, Result, ok, err, not_found_with, transaction_not_found}
use flitepay.Machine.Transaction.{
  TransactionState, confirmed, settled, disputed, same, can_transition, is_terminal,
  assert_transition,
}
use flitepay.Store.{Transaction, Store, Action, atomically, ◌>>=◌}
use flitepay.Engine.{
  put, move, claim, load, conclude, if_won, with_settlement, settle_money, settle_body, settle_from,
  settle,
}
use flitepay.Engine.Claims.{
  claim_cases, if_won_refused, if_won_lost, if_won_won, if_won_failed, same_eq,
}
use flitepay.Engine.Rows.{Rows-refl}
use flitepay.Engine.Changes.{settle_money-Rows}
use flitepay.Engine.History.{Follows-terminal}

-- A settled row.
abbrev pub IsSettled : ℕ → Store → Type 0
IsSettled id s = (b : Transaction) × (lookup id s.transactions ≡ some b) × (b.status ≡ settled)

settled_terminal : is_terminal settled ≡ true
unfolding is_terminal
settled_terminal = refl

-- Settling a transaction that is settled returns it and writes nothing.
settle_again :
    (supports : Bool) (id : ℕ) (actor : Option ℕ) (now : ℕ) (s : Store) (b : Transaction)
    → lookup id s.transactions ≡ some b
    → b.status ≡ settled
    → settle supports id actor now s ≡ (ok b, s)
unfolding settle settle_from settle_body if_won claim conclude load assert_transition can_transition
settle_again true id actor now s b found here = ground arith
settle_again false id actor now s b found here = ground arith

pub pair_cases :
    {A : Type 0} (x : Result A × Store)
    → ((e : AppError) × (t : Store) × (x ≡ (err e, t))) ⊎ ((a : A) × (t : Store) × (x ≡ (ok a, t)))
pair_cases (ok a, t) = inr (a, t, refl)
pair_cases (err e, t) = inl (e, t, refl)

-- The body of a settlement fails, or loses its claim, or leaves the row settled.
body_outcomes :
    (session : Bool) (id : ℕ) (from : TransactionState) (actor : Option ℕ) (now : ℕ) (s : Store)
    → ((e : AppError) × (t : Store) × (settle_body session id from actor now s ≡ (err e, t)))
      ⊎ (settle_body session id from actor now s ≡ (ok none, s))
      ⊎ ((v : Transaction) × (t : Store) × (settle_body session id from actor now s
            ≡ (ok (some v), t))
          × IsSettled id t)
unfolding settle_body
body_outcomes session id from actor now s =
    let m = claim id from settled (with_settlement now) actor none now in
    let k = settle_money session id in
    elim (claim_cases id from settled (with_settlement now) actor none now s) [
      | inl refused ↦ inl (_, s, if_won_refused k m s _ s refused)
      | inr (inl lost) ↦ inr (inl (if_won_lost k m s s lost))
      | inr (inr (t, found, here, legal, won)) ↦
          let u = move from settled (with_settlement now) actor none now t in
          let s1 = put id u s in
          elim (pair_cases (k u s1)) [
            | inl (e, r, failed) ↦ inl (e, r, if_won_failed k m s u s1 r e won failed)
            | inr (v, r, done) ↦
                let rows = settle_money-Rows s1 session id u s1 (Rows-refl s1) in
                let (b, at, f) =
                  rows.0 id u (ground (arith, lookup-insert id id u s.transactions)) in
                let (same_status, _) = Follows-terminal u b f settled_terminal in
                inr (
                  inr (
                    v,
                    r,
                    if_won_won k m s u v s1 r won done,
                    (
                      b,
                      ap (λ (x : Result Transaction × Store). lookup id x.1.transactions) (sym done)
                          ∙ at,
                      same_status,
                    ),
                  ))
          ]
    ]

pub finished_some :
    (supports : Bool) (body : Action (Option Transaction)) (id : ℕ)
    (wanted : TransactionState → Bool) (s t : Store) (v : Transaction)
    → body s ≡ (ok (some v), t)
    → (atomically supports body >>= conclude id wanted) s ≡ (ok v, t)
unfolding conclude
finished_some true body id wanted s t v e = ground arith
finished_some false body id wanted s t v e = ground arith

finished_none :
    (supports : Bool) (body : Action (Option Transaction)) (id : ℕ) (s : Store)
    → body s ≡ (ok none, s)
    → (atomically supports body >>= conclude id (same settled)) s
      ≡ conclude id (same settled) none s
finished_none true body id s e = ground arith
finished_none false body id s e = ground arith

concluded_settled :
    (id : ℕ) (s : Store) (v : Transaction)
    → (conclude id (same settled) none s).0 ≡ ok v
    → IsSettled id (conclude id (same settled) none s).1
unfolding conclude load
concluded_settled id s v h = elim (Option-cases (lookup id s.transactions)) [
  | inl missing ↦ absurd (ground arith)
  | inr (b, found) ↦ elim (Bool-cases (same settled b.status)) [
    | inl here ↦ (b, ground arith, sym (same_eq settled b.status here))
    | inr other ↦ absurd (ground arith)
  ]
]

finished_err :
    (supports : Bool) (body : Action (Option Transaction)) (id : ℕ) (s t : Store) (x : AppError)
    (v : Transaction)
    → body s ≡ (err x, t)
    → ((atomically supports body >>= conclude id (same settled)) s).0 ≡ ok v
    → ⊥
finished_err true body id s t x v e h = ground arith
finished_err false body id s t x v e h = ground arith

-- A settlement that answers with a transaction leaves its row settled, whoever settled it.
settle_from-IsSettled :
    (supports : Bool) (id : ℕ) (from : TransactionState) (actor : Option ℕ) (now : ℕ) (s : Store)
    (v : Transaction)
    → (settle_from supports id from actor now s).0 ≡ ok v
    → IsSettled id (settle_from supports id from actor now s).1
unfolding settle_from
settle_from-IsSettled supports id from actor now s v h =
    let body = settle_body supports id from actor now in
    elim (body_outcomes supports id from actor now s) [
      | inl (e, t, failed) ↦ absurd (finished_err supports body id s t e v failed h)
      | inr (inl lost) ↦
          let at = finished_none supports body id s lost in
          subst (λ (x : Result Transaction × Store). IsSettled id x.1) (sym at)
            (concluded_settled id s v (ap (λ (x : Result Transaction × Store). x.0) (sym at) ∙ h))
      | inr (inr (u, t, done, is_settled)) ↦
          subst (λ (x : Result Transaction × Store). IsSettled id x.1)
            (sym (finished_some supports body id (same settled) s t u done)) is_settled
    ]

settle_cases :
    (supports : Bool) (id : ℕ) (actor : Option ℕ) (now : ℕ) (s : Store)
    → ((e : AppError) × (settle supports id actor now s ≡ (err e, s)))
      ⊎ ((from : TransactionState) × (settle supports id actor now s
            ≡ settle_from supports id from actor now s))
unfolding settle load
settle_cases supports id actor now s = elim (Option-cases (lookup id s.transactions)) [
  | inl missing ↦ inl (not_found_with transaction_not_found, ground arith)
  | inr (b, found) ↦ inr ((if same b.status disputed then disputed else confirmed), ground arith)
]

-- Settling can be asked for any number of times and settles once: after a settlement that has
-- answered with a transaction, the row is settled, and a further one answers with that row and
-- writes nothing, so that no money moves again.
pub settle_once :
    (supports : Bool) (id : ℕ) (actor other : Option ℕ) (now later : ℕ) (s : Store)
    {v : Transaction}
    → (settle supports id actor now s).0 ≡ ok v
    → let s' = (settle supports id actor now s).1 in
      (b : Transaction) × (b.status ≡ settled)
      × (lookup id s'.transactions ≡ some b)
      × (settle supports id other later s' ≡ (ok b, s'))
settle_once supports id actor other now later s {v} h =
    let settled_row : IsSettled id (settle supports id actor now s).1 =
      elim (settle_cases supports id actor now s) [
        | inl (e, failed) ↦ absurd (cc)
        | inr (from, at) ↦
            subst (λ (x : Result Transaction × Store). IsSettled id x.1) (sym at)
              (settle_from-IsSettled supports id from actor now s v
                (ap (λ (x : Result Transaction × Store). x.0) (sym at) ∙ h))
      ] in
    let (b, found, here) = settled_row in
    (
      b,
      here,
      found,
      settle_again supports id other later (settle supports id actor now s).1 b found here,
    )
