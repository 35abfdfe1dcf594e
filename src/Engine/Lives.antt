-- ===== src/Engine/Lives.antt =====
-- Each operation of the engine changes rows only as `Rows` says, whatever it has read before.
use flitepay.Prelude.{ℕ, ◌≡◌, inl, inr, refl, sym, ap, Bool, Option, none, some, Text, arith}
use flitepay.Errors.{Result, ok, err}
use flitepay.Machine.Transaction.{TransactionState}
use flitepay.Store.{Transaction, Store, Action, pure, ◌>>=◌}
use flitepay.Pool.{pay_commission_from_pool, collect_into_pool}
use flitepay.Balance.{pay_commission_to_captain}
use flitepay.Engine.{
  put, move, claim, if_won, conclude, credit_captain, credit_party, collect_commission, pay_captain,
}
use flitepay.Engine.Endings.{release_hold}
use flitepay.Engine.Claims.{claim_cases, conclude_store}
use flitepay.Engine.Conservation.{bind_keeps}
use flitepay.Engine.Rows.{SameDeal, stays, moves, Rows, Rows-write}

pub if_won_keeps :
    (P : Store → Type 0) (k : Transaction → Action Transaction) (m : Action (Option Transaction))
    (s : Store)
    → P (m s).1
    → ((u : Transaction) (t : Store) → P t → P (k u t).1)
    → P (if_won k m s).1
unfolding if_won
if_won_keeps P k m s before after = go (m s).0 (m s).1 before
  where
    go :
        (r : Result (Option Transaction)) (t : Store)
        → P t
        → P (if_won k (λ (_ : Store). (r, t)) s).1
    go (err e) t h = h
    go (ok none) t h = h
    go (ok (some u)) t h = third (k u t).0 (k u t).1 (after u t h)
      where
        third :
            (r : Result Transaction) (v : Store)
            → P v
            → P (((λ (_ : Store). (r, v)) >>= λ x. pure (some x)) t).1
        third (ok x) v h = h
        third (err e) v h = h

pub claim-Rows :
    (s0 : Store) (id : ℕ) (from to : TransactionState) (set : Transaction → Transaction)
    (by : Option ℕ) (reason : Option Text) (now : ℕ) (s : Store)
    → ((t : Transaction) → SameDeal t (set t))
    → Rows s0 s
    → Rows s0 (claim id from to set by reason now s).1
claim-Rows s0 id from to set by reason now s deal r =
    elim (claim_cases id from to set by reason now s) [
      | inl refused ↦ rw refused r
      | inr (inl lost) ↦ rw lost r
      | inr (inr (t, found, here, legal, won)) ↦
          let u = move from to set by reason now t in
          rw won (
            Rows-write s0 s (put id u s) id t u r found
              (moves t u _ stays (rw here legal) (ap some (sym here)) refl refl (deal t)) refl)
    ]

pub conclude-Rows :
    (s0 : Store) (id : ℕ) (wanted : TransactionState → Bool) (o : Option Transaction) (s : Store)
    → Rows s0 s
    → Rows s0 (conclude id wanted o s).1
conclude-Rows s0 id wanted o s r = rw (conclude_store id wanted o s) r

pub claimed-Rows :
    (s0 : Store) (id : ℕ) (from to : TransactionState) (set : Transaction → Transaction)
    (by : Option ℕ) (reason : Option Text) (now : ℕ) (wanted : TransactionState → Bool) (s : Store)
    → ((t : Transaction) → SameDeal t (set t))
    → Rows s0 s
    → Rows s0 ((claim id from to set by reason now >>= conclude id wanted) s).1
claimed-Rows s0 id from to set by reason now wanted s deal r =
    bind_keeps (Rows s0) (claim id from to set by reason now) (conclude id wanted) s
      (claim-Rows s0 id from to set by reason now s deal r) (λ o t. conclude-Rows s0 id wanted o t)

pub credit_captain_rows :
    (c amount : ℕ) (s : Store) → (credit_captain c amount s).1.transactions ≡ s.transactions
unfolding credit_captain
credit_captain_rows c amount s = ground arith

pub release_hold_rows :
    (u : Transaction) (from : TransactionState) (s : Store)
    → (release_hold u from s).1.transactions ≡ s.transactions
unfolding release_hold credit_captain
release_hold_rows u from s = ground arith

pub credit_party_rows :
    (p amount commission : ℕ) (s : Store)
    → (credit_party p amount commission s).1.transactions ≡ s.transactions
unfolding credit_party
credit_party_rows p amount commission s = ground arith

pub collect_commission_rows :
    (commission : ℕ) (s : Store) → (collect_commission commission s).1.transactions ≡ s.transactions
unfolding collect_commission collect_into_pool
collect_commission_rows commission s = ground arith

pub pay_captain_rows :
    (session : Bool) (id : ℕ) (u : Transaction) (s : Store)
    → (pay_captain session id u s).1.transactions ≡ s.transactions
unfolding pay_captain pay_commission_to_captain collect_into_pool pay_commission_from_pool
pay_captain_rows session id u s = ground arith
