-- ===== src/Machine/Transaction.antt =====
-- Transaction states, their transition table (server/src/types/transaction.ts) and the state
-- machine over it (server/src/services/transactionStateMachine.ts).
use flitepay.Prelude.{ℕ, Bool, not, ◌&&◌, List, [], ◌∷◌, ◌==◌, includes, if◌then◌else◌}
use flitepay.Errors.{Result, ok, err, conflict, invalid_state_transition}

pub data TransactionState : Type 0 where
  created assigned awaiting_customer confirmed settled expired cancelled disputed : TransactionState

-- The position in `TRANSACTION_STATES`.
abbrev pub index : TransactionState → ℕ
index created = 0
index assigned = 1
index awaiting_customer = 2
index confirmed = 3
index settled = 4
index expired = 5
index cancelled = 6
index disputed = 7

-- `===` on states.
abbrev pub same : TransactionState → TransactionState → Bool
same s t = index s == index t

-- `TRANSACTION_TRANSITIONS`
unfoldable pub allowed_transitions : TransactionState → List TransactionState
allowed_transitions created = assigned ∷ cancelled ∷ expired ∷ []
allowed_transitions assigned = awaiting_customer ∷ created ∷ cancelled ∷ expired ∷ []
allowed_transitions awaiting_customer = confirmed ∷ expired ∷ disputed ∷ []
allowed_transitions confirmed = settled ∷ disputed ∷ []
allowed_transitions settled = []
allowed_transitions expired = []
allowed_transitions cancelled = []
allowed_transitions disputed = settled ∷ expired ∷ []

abbrev pub terminal_states : List TransactionState
terminal_states = settled ∷ expired ∷ cancelled ∷ []

abbrev pub routable_states : List TransactionState
routable_states = created ∷ []

abbrev pub held_states : List TransactionState
held_states = assigned ∷ awaiting_customer ∷ confirmed ∷ disputed ∷ []

unfoldable pub can_transition : TransactionState → TransactionState → Bool
unfolding allowed_transitions
can_transition from to = includes same (allowed_transitions from) to

unfoldable pub is_terminal : TransactionState → Bool
is_terminal s = includes same terminal_states s

unfoldable pub is_routable : TransactionState → Bool
is_routable s = includes same routable_states s

unfoldable pub holds_funds : TransactionState → Bool
holds_funds s = includes same held_states s

unfoldable pub releases_hold : TransactionState → TransactionState → Bool
unfolding holds_funds
releases_hold from to = holds_funds from && not (holds_funds to)

unfoldable pub assert_transition : TransactionState → TransactionState → Result (Unit {0})
unfolding can_transition
assert_transition from to =
    if same from to
    then err (conflict invalid_state_transition)
    else if not (can_transition from to)
    then err (conflict invalid_state_transition)
    else ok tt
