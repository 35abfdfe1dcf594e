-- ===== src/Machine/Task.antt =====
-- Task states, their transition table (server/src/types/index.ts) and the state machine over it
-- (server/src/services/taskStateMachine.ts).
use flitepay.Prelude.{ℕ, Bool, not, ◌&&◌, List, [], ◌∷◌, ◌==◌, includes, if◌then◌else◌}
use flitepay.Errors.{Result, ok, err, conflict, invalid_state_transition}

pub data TaskState : Type 0 where
  created assigned in_progress proof_submitted audit_pending completed : TaskState
  rejected reassigned expired cancel_review cancel_disputed cancelled : TaskState

-- The position in `TASK_STATES`.
abbrev pub index : TaskState → ℕ
index created = 0
index assigned = 1
index in_progress = 2
index proof_submitted = 3
index audit_pending = 4
index completed = 5
index rejected = 6
index reassigned = 7
index expired = 8
index cancel_review = 9
index cancel_disputed = 10
index cancelled = 11

-- `===` on states.
abbrev pub same : TaskState → TaskState → Bool
same s t = index s == index t

-- `TASK_TRANSITIONS`
unfoldable pub allowed_transitions : TaskState → List TaskState
allowed_transitions created = assigned ∷ cancelled ∷ []
allowed_transitions assigned = in_progress ∷ cancel_review ∷ expired ∷ []
allowed_transitions in_progress = proof_submitted ∷ expired ∷ []
allowed_transitions proof_submitted = audit_pending ∷ []
allowed_transitions audit_pending = completed ∷ rejected ∷ []
allowed_transitions completed = []
allowed_transitions rejected = reassigned ∷ completed ∷ []
allowed_transitions reassigned = assigned ∷ cancelled ∷ []
allowed_transitions expired = rejected ∷ []
allowed_transitions cancel_review = cancelled ∷ cancel_disputed ∷ []
allowed_transitions cancel_disputed = assigned ∷ in_progress ∷ reassigned ∷ []
allowed_transitions cancelled = []

abbrev pub claimable_states : List TaskState
claimable_states = created ∷ reassigned ∷ []

abbrev pub dmc_held_states : List TaskState
dmc_held_states =
    assigned ∷ in_progress ∷ proof_submitted ∷ audit_pending ∷ rejected ∷ cancel_review
    ∷ cancel_disputed ∷ []

abbrev pub terminal_states : List TaskState
terminal_states = completed ∷ cancelled ∷ []

unfoldable pub can_transition : TaskState → TaskState → Bool
unfolding allowed_transitions
can_transition from to = includes same (allowed_transitions from) to

unfoldable pub is_terminal : TaskState → Bool
is_terminal s = includes same terminal_states s

unfoldable pub is_claimable : TaskState → Bool
is_claimable s = includes same claimable_states s

unfoldable pub holds_collateral : TaskState → Bool
holds_collateral s = includes same dmc_held_states s

unfoldable pub assert_transition : TaskState → TaskState → Result (Unit {0})
unfolding can_transition
assert_transition from to =
    if same from to
    then err (conflict invalid_state_transition)
    else if not (can_transition from to)
    then err (conflict invalid_state_transition)
    else ok tt

unfoldable pub releases_collateral : TaskState → TaskState → Bool
unfolding holds_collateral
releases_collateral from to = holds_collateral from && not (holds_collateral to)
