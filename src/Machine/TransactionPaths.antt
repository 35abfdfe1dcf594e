-- ===== src/Machine/TransactionPaths.antt =====
-- What the transaction table implies of whole lives of a transaction.
use flitepay.Prelude.{◌≡◌, refl, ◌↔◌, ◌⊎◌, Bool, true, false, not, ◌||◌, arith}
use flitepay.Errors.{ok}
use flitepay.Machine.Transaction.{
  TransactionState, created, assigned, awaiting_customer, confirmed, settled, expired, cancelled,
  disputed, same, can_transition, is_terminal, holds_funds, releases_hold, assert_transition,
}

-- Legal moves one after the other, every state that is entered passing `via`.
data Moves (via : TransactionState → Bool) : TransactionState → TransactionState → Type 0 where
  here : {s : TransactionState} → Moves via s s
  next :
      {s t u : TransactionState}
      → can_transition s t ≡ true
      → via t ≡ true
      → Moves via t u
      → Moves via s u

-- `assertTransactionTransition` lets exactly the moves of the table through.
assert_transition-ok_iff :
    (from to : TransactionState)
    → (assert_transition from to ≡ ok tt) ↔ (can_transition from to ≡ true)
unfolding assert_transition can_transition
assert_transition-ok_iff created to = ground arith
assert_transition-ok_iff _ to = ground arith

-- A terminal state is never left: legal moves from it lead nowhere else.
terminal_stays : (s t : TransactionState) → is_terminal s ≡ true → Moves (λ _. true) s t → s ≡ t
unfolding is_terminal can_transition
terminal_stays s t h here = refl
terminal_stays s t h (next {t = m} step v rest) = absurd (dead s m h step)
  where
    dead : (a b : TransactionState) → is_terminal a ≡ true → can_transition a b ≡ true → ⊥
    dead created b p q = ground arith
    dead _ b p q = ground arith

-- A move begins a hold exactly as the assignment of a created transaction: the captain's money
-- is taken at one place.
hold_begins_iff :
    (s t : TransactionState)
    → can_transition s t ≡ true
    → ((holds_funds s ≡ false) × (holds_funds t ≡ true)) ↔ ((s ≡ created) × (t ≡ assigned))
unfolding can_transition holds_funds
hold_begins_iff created t h = ground arith
hold_begins_iff _ t h = ground arith

-- A move releases the hold exactly when it settles, expires or cancels the transaction, or hands
-- it back, out of a state that held one.
hold_ends_iff :
    (s t : TransactionState)
    → can_transition s t ≡ true
    → (releases_hold s t ≡ true)
      ↔ ((holds_funds s ≡ true) × ((is_terminal t ≡ true) ⊎ (t ≡ created)))
unfolding can_transition releases_hold is_terminal
hold_ends_iff created t h = ground arith
hold_ends_iff _ t h = ground arith

-- The states before anybody has said that the money moved.
abbrev is_early : TransactionState → Bool
is_early created = true
is_early assigned = true
is_early awaiting_customer = true
is_early expired = true
is_early cancelled = true
is_early _ = false

abbrev unclaimed : TransactionState → Bool
unclaimed t = not (same t confirmed || same t disputed)

is_early-step :
    (s t : TransactionState)
    → is_early s ≡ true
    → can_transition s t ≡ true
    → unclaimed t ≡ true
    → is_early t ≡ true
unfolding can_transition
is_early-step created t e h v = ground arith
is_early-step _ t e h v = ground arith

is_early-Moves :
    {s t : TransactionState} → Moves unclaimed s t → is_early s ≡ true → is_early t ≡ true
is_early-Moves here e = e
is_early-Moves (next {s = s} {t = m} h v rest) e = is_early-Moves rest (is_early-step s m e h v)

-- A created transaction is not settled by legal moves that enter neither CONFIRMED nor DISPUTED.
settled_needs_claim :
    {t : TransactionState}
    → Moves (λ x. not (same x confirmed || same x disputed)) created t
    → ¬ (t ≡ settled)
settled_needs_claim m e = let u = is_early-Moves m refl in ground arith

-- From CREATED every state is reached by legal moves, so none is dead code in the table.
all_reachable : (t : TransactionState) → Moves (λ _. true) created t
unfolding can_transition
all_reachable created = here
all_reachable assigned = next refl refl here
all_reachable awaiting_customer = next {t = assigned} refl refl (next refl refl here)
all_reachable confirmed =
    next {t = assigned} refl refl (next {t = awaiting_customer} refl refl (next refl refl here))
all_reachable settled =
    next {t = assigned} refl refl (
      next {t = awaiting_customer} refl refl (next {t = confirmed} refl refl (next refl refl here)))
all_reachable expired = next refl refl here
all_reachable cancelled = next refl refl here
all_reachable disputed =
    next {t = assigned} refl refl (next {t = awaiting_customer} refl refl (next refl refl here))
