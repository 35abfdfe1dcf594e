-- ===== src/Engine/Conservation.antt =====
-- No operation of the engine creates or destroys DMC: each keeps the invariant, on every branch
-- and every error, with database transactions or without, and whatever state it has read before.
use flitepay.Prelude.{ℕ, ◌+◌, ◌≡◌, refl, ◌∙◌, Bool, true, Option, none, some, Text, arith, ◌||◌}
use flitepay.Prelude.Int.{ℤ}
use flitepay.Prelude.Dict.{lookup}
use flitepay.Errors.{AppError, Result, ok, err, bad_request, validation_error}
use flitepay.Machine.Transaction.{
  TransactionState, created, assigned, awaiting_customer, confirmed, settled, disputed, same,
  can_transition, holds_funds,
}
use flitepay.Store.{Transaction, Store, Action, or_raise, ◌>>=◌}
use flitepay.Balance.{filled}
use flitepay.Engine.{
  put, claim, load, conclude, open_to_customer, confirm_movement, with_gateway, with_confirmation,
}
use flitepay.Engine.Endings.{with_dispute, dispute_from}
use flitepay.Engine.Worth.{
  held, Shift-transaction, Shift-Shift, Shift-none, IsBacked, IsSound-write,
}
use flitepay.Engine.Claims.{Alike, Balanced, claim-Balanced, conclude_store}
use flitepay.Engine.Money.{Moved}

pub bind_keeps :
    {A B : Type 0} (P : Store → Type 0) (m : Action A) (f : A → Action B) (s : Store)
    → P (m s).1
    → ((a : A) (t : Store) → P t → P (f a t).1)
    → P ((m >>= f) s).1
bind_keeps {A = A} {B = B} P m f s before after = go (m s).0 (m s).1 before
  where
    go : (r : Result A) (t : Store) → P t → P (((λ (_ : Store). (r, t)) >>= f) s).1
    go (ok a) t h = after a t h
    go (err e) t h = h

pub or_raise_keeps :
    {A : Type 0} (P : Store → Type 0) (o : Option A) (e : AppError) (s : Store)
    → P s
    → P (or_raise o e s).1
or_raise_keeps P none e s h = h
or_raise_keeps P (some a) e s h = h

pub conclude-Balanced :
    (w : ℤ) (id : ℕ) (wanted : TransactionState → Bool) (o : Option Transaction) (s : Store)
    → Balanced w s
    → Balanced w (conclude id wanted o s).1
conclude-Balanced w id wanted o s b = rw (conclude_store id wanted o s) b

pub load_store : (id : ℕ) (s : Store) → (load id s).1 ≡ s
unfolding load
load_store id s = ground arith

-- A money-moving write of the transaction `t`, followed by steps that make good for it.
pub settled_up :
    (w : ℤ) (id g l : ℕ) (t u : Transaction) (s r : Store)
    → Balanced w s
    → lookup id s.transactions ≡ some t
    → IsBacked s u
    → Moved (put id u s) r g l
    → held u + g ≡ held t + l
    → Balanced w r
settled_up w id g l t u s r b found backed m level = (
  IsSound-write s r id u b.0 m.1 m.2 backed,
  Shift-none s r (held u + g) (held t + l)
        (Shift-Shift s (put id u s) r (held u) (held t) g l (Shift-transaction id t u s found) m.0)
        level
      ∙ b.1,
)

claimed-Balanced :
    (w : ℤ) (id : ℕ) (from to : TransactionState) (set : Transaction → Transaction) (by : Option ℕ)
    (reason : Option Text) (now : ℕ) (wanted : TransactionState → Bool) (s : Store)
    → ((t : Transaction) → Alike t (set t))
    → (can_transition from to ≡ true → holds_funds from ≡ holds_funds to)
    → Balanced w s
    → Balanced w ((claim id from to set by reason now >>= conclude id wanted) s).1
claimed-Balanced w id from to set by reason now wanted s alike level b =
    bind_keeps (Balanced w) (claim id from to set by reason now) (conclude id wanted) s
      (claim-Balanced w id from to set by reason now s alike level b)
      (λ o t. conclude-Balanced w id wanted o t)

open_level : holds_funds assigned ≡ holds_funds awaiting_customer
unfolding holds_funds
open_level = refl

confirm_level : holds_funds awaiting_customer ≡ holds_funds confirmed
unfolding holds_funds
confirm_level = refl

dispute_level :
    (from : TransactionState)
    → can_transition from disputed ≡ true
    → holds_funds from ≡ holds_funds disputed
unfolding can_transition holds_funds
dispute_level created h = cc
dispute_level _ h = ground arith

-- Opening a transaction to the customer keeps the invariant.
pub open_to_customer-Balanced :
    (w : ℤ) (id : ℕ) (order_id qr_payload : Option Text) (now : ℕ) (s : Store)
    → Balanced w s
    → Balanced w (open_to_customer id order_id qr_payload now s).1
unfolding open_to_customer
open_to_customer-Balanced w id order_id qr_payload now s b =
    claimed-Balanced w id assigned awaiting_customer (with_gateway order_id qr_payload) none none
      now (same awaiting_customer) s (λ t. (refl, refl, refl, refl)) (λ _. open_level) b

-- Confirming that the money moved keeps the invariant.
pub confirm_movement-Balanced :
    (w : ℤ) (id : ℕ) (reference : Option Text) (actor : Option ℕ) (now : ℕ) (s : Store)
    → Balanced w s
    → Balanced w (confirm_movement id reference actor now s).1
unfolding confirm_movement
confirm_movement-Balanced w id reference actor now s b =
    bind_keeps (Balanced w) (or_raise (filled reference) (bad_request validation_error))
      (λ r.
        claim id awaiting_customer confirmed (with_confirmation r now) actor none now
        >>= conclude id (λ st. same confirmed st || same settled st))
      s (or_raise_keeps (Balanced w) (filled reference) (bad_request validation_error) s b)
      (λ r t bt.
        claimed-Balanced w id awaiting_customer confirmed (with_confirmation r now) actor none now
          (λ st. same confirmed st || same settled st) t (λ u. (refl, refl, refl, refl))
          (λ _. confirm_level) bt)

-- Raising a dispute keeps the invariant, whatever state it was raised from.
pub dispute_from-Balanced :
    (w : ℤ) (id : ℕ) (from : TransactionState) (reason : Text) (actor : Option ℕ) (now : ℕ)
    (s : Store)
    → Balanced w s
    → Balanced w (dispute_from id from reason actor now s).1
unfolding dispute_from
dispute_from-Balanced w id from reason actor now s b =
    claimed-Balanced w id from disputed (with_dispute reason) actor (some reason) now
      (same disputed) s (λ t. (refl, refl, refl, refl)) (dispute_level from) b
