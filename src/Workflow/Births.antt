-- ===== src/Workflow/Births.antt =====
-- The creation of a pay-out leaves the other tasks where they are.
use flitepay.Prelude.{
  ℕ, ◌≡◌, inl, inr, sym, subst, Bool, true, false, none, some, List, Text, arith, ◌==◌, ◌+◌,
  Bool-cases, Option-cases,
}
use flitepay.Prelude.Int.{pos, ◌-ℤ◌}
use flitepay.Prelude.Dict.{lookup, lookup-insert}
use flitepay.Errors.{AppError, Result}
use flitepay.Commission.{pay_out, DirectionalCommission, commission_for}
use flitepay.Store.{Store, lift, catch, modify, ◌>>=◌}
use flitepay.Store.Tasks.{ActorContext, Task}
use flitepay.Store.Finding.{put_task}
use flitepay.Workflow.Claiming.{Throughput}
use flitepay.Workflow.Creation.{
  CreateTaskInput, Bounds, add_dmc, debit_party_dmc_balance, new_task, insert_task, refund_debit,
  create_task_from, create_priced, create_task, assert_amount_within_bounds, assert_party_limits,
}
use flitepay.Workflow.Making.{add_dmc_tasks, debit_cases, insert_cases, catch_ok, catch_err}
use flitepay.Workflow.Rules.{
  Sustains, Sustains-run, Sustains-bind, Sustains-pure, Sustains-raise, Leads, leads, Leads-run,
  Leads-lift, Leads-bind, Leads-then,
}
use flitepay.Workflow.Frame.{Tracks, Tracks-same, offer_to_next_captain-Tracks}

-- The id of the new task is free, and another task is tracked.
abbrev pub Room : ℕ → ℕ → Task → Store → Type 0
Room j id from s = (lookup j s.tasks ≡ none) × Tracks id from s

module _ (id : ℕ) (from : Task) where
  debit-Room :
      (j p total : ℕ) → Leads (Room j id from) (Room j id from) (debit_party_dmc_balance p total)
  debit-Room j p total = leads {m = debit_party_dmc_balance p total} (λ s room.
      elim (debit_cases p total s) [
        | inl (e, refused) ↦
            subst (λ (r : Result (Unit {0}) × Store). Room j id from r.1) (sym refused) room
        | inr (taken, _) ↦
            let t = add_dmc p (pos 0 -ℤ pos total) s in
            let same_tasks = add_dmc_tasks p (pos 0 -ℤ pos total) s in
            let (free, (u, found, path)) = room in
            subst (λ (r : Result (Unit {0}) × Store). Room j id from r.1) (sym taken)
              (
                subst (λ d. lookup j d ≡ none) (sym same_tasks) free,
                (u, subst (λ d. lookup id d ≡ some u) (sym same_tasks) found, path),
              )
      ])

  refund_debit-Tracks :
      (session : Bool) (p total : ℕ) (e : AppError)
      → Sustains (Tracks id from) (refund_debit session p total e)
  unfolding refund_debit
  refund_debit-Tracks true p total e = Sustains-raise e
  refund_debit-Tracks false p total e =
      Sustains-bind
        (Tracks-same id from {m = modify (add_dmc p (pos total))}
          (λ s. add_dmc_tasks p (pos total) s))
        (λ _. Sustains-raise e)

  -- A new task beside the one that is tracked.
  beside : (j : ℕ) (t : Task) (s : Store) → Room j id from s → Tracks id from (put_task j t s)
  beside j t s (free, (u, found, path)) =
      let other : (id == j) ≡ false = elim (Bool-cases (id == j)) [
        | inl same_id ↦ absurd (ground arith)
        | inr distinct ↦ distinct
      ] in
      (u, ground (arith, lookup-insert id j t s.tasks), path)

  -- The row, or the refund.
  insertion-Tracks :
      (j : ℕ) (row : Text → Task) (references : List Text) (p total : ℕ)
      → Leads
          (Room j id from)
          (Tracks id from)
          (catch (insert_task j row references) (refund_debit false p total))
  insertion-Tracks j row references p total =
      let m = insert_task j row references in
      let h = refund_debit false p total in
      leads {m = catch m h} (λ s room. elim (insert_cases j row references s) [
        | inl (e, failed) ↦
            subst (λ (r : Result Task × Store). Tracks id from r.1)
              (sym (catch_err m h s s e failed))
              (Sustains-run (refund_debit-Tracks false p total e) s room.1)
        | inr (reference, written) ↦
            let t = put_task j (row reference) s in
            subst (λ (r : Result Task × Store). Tracks id from r.1)
              (sym (catch_ok m h s t (row reference) written)) (beside j (row reference) s room)
      ])

  create_task_from-Tracks :
      (j : ℕ) (input : CreateTaskInput) (split : DirectionalCommission) (references : List Text)
      (actor : ActorContext) (now : ℕ)
      → Leads
          (Room j id from)
          (Tracks id from)
          (create_task_from false j input split references actor now)
  unfolding create_task_from
  create_task_from-Tracks j input split references actor now =
      let total = input.amount + split.party_paise in
      let row = new_task input split actor now in
      Leads-then (debit-Room j input.party_id total) (λ s room. room.1)
        (λ _. Leads-bind (insertion-Tracks j row references input.party_id total) (λ task.
          Sustains-bind (offer_to_next_captain-Tracks id from j now) (λ _. Sustains-pure task)))

  create_priced-Tracks :
      (j : ℕ) (input : CreateTaskInput) (references : List Text) (actor : ActorContext) (now : ℕ)
      → Leads (Room j id from) (Tracks id from) (create_priced false j input references actor now)
  unfolding create_priced
  create_priced-Tracks j input references actor now =
      leads {m = create_priced false j input references actor now} (λ s room.
        elim (Option-cases (lookup input.party_id s.parties)) [
          | inl missing ↦
              let at : (create_priced false j input references actor now s).1 ≡ s = ground arith in
              subst (Tracks id from) (sym at) room.1
          | inr (p, found) ↦
              let price = commission_for pay_out input.amount s.config (some p.rates) none in
              let priced = lift price >>= λ (x : DirectionalCommission).
              create_task_from false j input x references actor now in
              let at : create_priced false j input references actor now s ≡ priced s =
                ground arith in
              subst (λ (r : Result Task × Store). Tracks id from r.1) (sym at)
                (Leads-run {P = Room j id from}
                  (Leads-lift (λ t r. r.1) price
                    (λ x _. create_task_from-Tracks j input x references actor now))
                  s room)
        ])

  -- Creating a task.
  pub create_task-Tracks :
      (bounds : Bounds) (used : Throughput) (j : ℕ) (input : CreateTaskInput)
      (references : List Text) (actor : ActorContext) (now : ℕ)
      → Leads
          (Room j id from)
          (Tracks id from)
          (create_task false bounds used j input references actor now)
  unfolding create_task
  create_task-Tracks bounds used j input references actor now =
      Leads-lift (λ s r. r.1) (assert_amount_within_bounds bounds input.amount)
        (λ _ _.
          Leads-lift (λ s r. r.1) (assert_party_limits used input.amount)
            (λ _ _. create_priced-Tracks j input references actor now))
