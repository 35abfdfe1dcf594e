-- ===== src/Store/Finding.antt =====
-- Conditional writes of the collection of tasks, which everything on the pay-out side goes through.
use flitepay.Prelude.{ℕ, Bool, Option, none, some, if◌then◌else◌}
use flitepay.Prelude.Dict.{lookup, insert}
use flitepay.Errors.{ok, not_found_with, task_not_found}
use flitepay.Store.Tasks.{Task}
use flitepay.Store.Documents.{Store}
use flitepay.Store.Monad.{Action, or_raise}

-- A figure that is read off the database.
unfoldable pub reads : {A : Type 0} → (Store → A) → Action A
reads f s = (ok (f s), s)

abbrev pub put_task : ℕ → Task → Store → Store
put_task id t s = record s { tasks = insert id t s.tasks }

-- `Task.findOneAndUpdate({ _id: id, …filter }, update, { new: true })`
unfoldable pub find_and_update : ℕ → (Task → Bool) → (Task → Task) → Action (Option Task)
find_and_update id filter update s = elim (lookup id s.tasks) [
  | none ↦ (ok none, s)
  | some t ↦ if filter t then (ok (some (update t)), put_task id (update t) s) else (ok none, s)
]

-- `Task.findById`, and the error where there is none.
unfoldable pub load_task : ℕ → Action Task
load_task id s = or_raise (lookup id s.tasks) (not_found_with task_not_found) s
