-- ===== src/Routing/Eligibility.antt =====
-- Who may be offered a task: `getWorkloads` and `rankEligibleCaptains` of
-- server/src/services/taskRouting.service.ts.
use flitepay.Prelude.{
  ℕ, ◌+◌, Bool, false, not, ◌&&◌, Option, none, some, [], ◌∷◌, map, includes, filter_by, is_some,
  leb, ◌==◌, if◌then◌else◌,
}
use flitepay.Prelude.Dict.{Dict}
use flitepay.Machine.Task.{TaskState, assigned, in_progress, audit_pending, same, is_claimable}
use flitepay.Store.{Captain, Store}
use flitepay.Store.Tasks.{Task}
use flitepay.Capacity.{current_limit_paise, is_active}
use flitepay.Routing.{CaptainWorkload, Candidate, score_captain, best_of}

abbrev pub same_id : Option ℕ → ℕ → Bool
same_id none id = false
same_id (some x) id = x == id

abbrev pub same_ids : Option ℕ → Option ℕ → Bool
same_ids none o = not (is_some o)
same_ids (some x) o = same_id o x

-- The tasks of a captain in a state.
count_in : TaskState → ℕ → Dict Task → ℕ
count_in state captain_id [] = 0
count_in state captain_id ((id, t) ∷ d) =
    (if same_id t.captain_id captain_id && same t.status state then 1 else 0)
    + count_in state captain_id d

-- `getWorkloads`, at one captain.
unfoldable pub get_workload : Dict Task → ℕ → CaptainWorkload
unfolding count_in
get_workload tasks captain_id = record {
  pending = count_in assigned captain_id tasks;
  in_progress = count_in in_progress captain_id tasks;
  awaiting_audit = count_in audit_pending captain_id tasks;
}

abbrev pub rejected_off : Task → ℕ → Bool
rejected_off t id = includes ◌==◌ t.previous_captain_ids id

-- `affordable`
unfoldable pub affordable : Task → Dict Captain → Dict Captain
affordable t [] = []
affordable t ((id, c) ∷ d) =
    let rest = affordable t d in
    if is_active c.status
      && c.is_online
      && not (rejected_off t id)
      && leb t.amount (current_limit_paise c)
    then (id, c) ∷ rest
    else rest

-- `placeableCount`
unfoldable pub placeable_count : Task → Dict Captain → ℕ
placeable_count t [] = 0
placeable_count t ((id, c) ∷ d) =
    (if is_active c.status && not (rejected_off t id) then 1 else 0) + placeable_count t d

abbrev pub untried : Task → Dict Captain → Dict Captain
untried t = filter_by λ e. not (includes ◌==◌ t.offer.offered_captain_ids e.0)

abbrev scored : Task → Dict Task → ℕ × Captain → Candidate
scored t tasks e = record {
  id = e.0;
  captain = e.1;
  score = score_captain e.1 t.amount (get_workload tasks e.0);
}

-- `rankEligibleCaptains(task).ranked[0]`
unfoldable pub best_captain : Task → Store → Option Candidate
unfolding affordable
best_captain t s = best_of (map (scored t s.tasks) (untried t (affordable t s.captains)))

-- The filter of every write that offers a task.
abbrev pub unheld : Task → Bool
unheld t = not (is_some t.captain_id) && is_claimable t.status
