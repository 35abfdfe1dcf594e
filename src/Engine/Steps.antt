-- ===== src/Engine/Steps.antt =====
-- The engine as a system of steps. An operation runs as a step of its own; the state it has read
-- before it claims, `from`, may be any: other operations may have run since it read.
use flitepay.Prelude.{ℕ, ◌≡◌, refl, Bool, true, Option, none, Text, is_some}
use flitepay.Prelude.Int.{ℤ}
use flitepay.Prelude.Dict.{lookup}
use flitepay.Commission.{pay_in, party_rate_for}
use flitepay.Money.Rounding.{IsSafeCharge}
use flitepay.Machine.Transaction.{TransactionState, expired, cancelled, holds_funds}
use flitepay.Store.{Store}
use flitepay.Routing.{CaptainWorkload}
use flitepay.Engine.{open_to_customer, confirm_movement, decline_from, settle_from}
use flitepay.Engine.Endings.{end_from, dispute_from}
use flitepay.Engine.Assign.{assign_captain}
use flitepay.Engine.Create.{CreateInput, rates_of, create_after}
use flitepay.Engine.Worth.{worth, IsSound}
use flitepay.Engine.Claims.{Balanced}
use flitepay.Engine.Conservation.{
  open_to_customer-Balanced, confirm_movement-Balanced, dispute_from-Balanced,
}
use flitepay.Engine.Refunds.{end_from-Balanced, decline_from-Balanced}
use flitepay.Engine.Settling.{settle_from-Balanced}
use flitepay.Engine.Assigning.{assign_captain-Balanced}
use flitepay.Engine.Creating.{create_after-Balanced}

-- One run of an operation. A new row has a new id, and its party is there with a charge that is a
-- safe amount.
pub data Step (supports : Bool) (s : Store) : Store → Type 0 where
  creates :
      (already : Option ℕ) (new_id party_id : ℕ) (reference : Text) (input : CreateInput) (now : ℕ)
      → lookup new_id s.transactions ≡ none
      → is_some (lookup party_id s.parties) ≡ true
      → IsSafeCharge input.amount
          (party_rate_for pay_in s.config (rates_of (lookup party_id s.parties)))
      → Step supports s (create_after already new_id party_id reference input now s).1
  assigns :
      (workloads : ℕ → CaptainWorkload) (id now : ℕ)
      → Step supports s (assign_captain supports workloads id now s).1
  opens :
      (id : ℕ) (order_id qr_payload : Option Text) (now : ℕ)
      → Step supports s (open_to_customer id order_id qr_payload now s).1
  confirms :
      (id : ℕ) (reference : Option Text) (actor : Option ℕ) (now : ℕ)
      → Step supports s (confirm_movement id reference actor now s).1
  settles :
      (id : ℕ) (from : TransactionState) (actor : Option ℕ) (now : ℕ)
      → Step supports s (settle_from supports id from actor now s).1
  declines :
      (id captain_id : ℕ) (reason : Text) (actor : Option ℕ) (now : ℕ)
      → Step supports s (decline_from supports id captain_id reason actor now s).1
  expires :
      (id : ℕ) (from : TransactionState) (reason : Text) (actor : Option ℕ) (now : ℕ)
      → Step supports s (end_from supports id from expired reason actor now s).1
  cancels :
      (id : ℕ) (from : TransactionState) (reason : Text) (actor : Option ℕ) (now : ℕ)
      → Step supports s (end_from supports id from cancelled reason actor now s).1
  disputes :
      (id : ℕ) (from : TransactionState) (reason : Text) (actor : Option ℕ) (now : ℕ)
      → Step supports s (dispute_from id from reason actor now s).1

-- Any number of runs, one after the other.
pub data Run (supports : Bool) (s : Store) : Store → Type 0 where
  start : Run supports s s
  then_step : (t u : Store) → Run supports s t → Step supports t u → Run supports s u

Step-Balanced :
    (w : ℤ) (supports : Bool) (s t : Store) → Step supports s t → Balanced w s → Balanced w t
unfolding holds_funds
Step-Balanced w supports s _ (creates already new_id party_id reference input now f h r) b =
    create_after-Balanced w already new_id party_id reference input now s f h r b
Step-Balanced w supports s _ (assigns workloads id now) b =
    assign_captain-Balanced w supports workloads id now s b
Step-Balanced w supports s _ (opens id order_id qr_payload now) b =
    open_to_customer-Balanced w id order_id qr_payload now s b
Step-Balanced w supports s _ (confirms id reference actor now) b =
    confirm_movement-Balanced w id reference actor now s b
Step-Balanced w supports s _ (settles id from actor now) b =
    settle_from-Balanced w supports id from actor now s b
Step-Balanced w supports s _ (declines id captain_id reason actor now) b =
    decline_from-Balanced w supports id captain_id reason actor now s b
Step-Balanced w supports s _ (expires id from reason actor now) b =
    end_from-Balanced w supports id from expired reason actor now s refl b
Step-Balanced w supports s _ (cancels id from reason actor now) b =
    end_from-Balanced w supports id from cancelled reason actor now s refl b
Step-Balanced w supports s _ (disputes id from reason actor now) b =
    dispute_from-Balanced w id from reason actor now s b

Run-Balanced :
    (w : ℤ) (supports : Bool) (s t : Store) → Run supports s t → Balanced w s → Balanced w t
Run-Balanced w supports s _ start b = b
Run-Balanced w supports s _ (then_step t u run step) b =
    Step-Balanced w supports t u step (Run-Balanced w supports s t run b)

-- No sequence of operations creates or destroys DMC: with every transaction backed at the start,
-- at the end captains, parties, pool and the holds of open transactions are together worth what
-- they were worth, and every transaction is still backed. Each operation claims from any state
-- that it may have read, in time or late, and may end in an error.
pub Run-conserves :
    (supports : Bool) (s t : Store) → Run supports s t → IsSound s → (worth t ≡ worth s) × IsSound t
Run-conserves supports s t run sound =
    let b = Run-Balanced (worth s) supports s t run (sound, refl) in (b.1, b.0)
