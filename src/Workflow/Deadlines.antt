-- ===== src/Workflow/Deadlines.antt =====
-- The party's answer to a proof: when it is asked, and what comes of no answer (`submitProof`,
-- server/src/services/customerConfirmation.service.ts).
use flitepay.Prelude.{
  ℕ, ◌≡◌, inl, inr, refl, ◌∙◌, Bool, true, false, ◌&&◌, Option, none, some, get_or, [], ◌∷◌, arith,
  Option-cases, is_some,
}
use flitepay.Prelude.Dict.{lookup, lookup-insert}
use flitepay.Errors.{AppError, ok, conflict, proof_already_submitted}
use flitepay.Machine.Task.{
  TaskState, in_progress, proof_submitted, audit_pending, same, assert_transition, can_transition,
}
use flitepay.Store.{Store, Action, lift, or_raise, raise_if, pure, ◌>>=◌, ◌>>◌}
use flitepay.Store.Tasks.{ActorContext, Task}
use flitepay.Store.Finding.{reads, put_task, find_and_update}
use flitepay.Routing.Eligibility.{same_id}
use flitepay.Routing.Offers.{add_minutes}
use flitepay.Workflow.{
  SubmitProofInput, event, system_event, moved, in_state, with_proof, new_proof, create_proof,
  with_confirmation, confirmation_minutes_of, ask_party, has_live_proof, already_decided,
  submit_proof_from,
}
use flitepay.Workflow.Flow.{bind_ok}

same_self : (s : TaskState) → same s s ≡ true
same_self s = ground arith

-- A conditional write whose filter passes.
pub find_won :
    (id : ℕ) (filter : Task → Bool) (update : Task → Task) (s : Store) (t : Task)
    → lookup id s.tasks ≡ some t
    → filter t ≡ true
    → find_and_update id filter update s ≡ (ok (some (update t)), put_task id (update t) s)
unfolding find_and_update
find_won id filter update s t found passes = ground arith

-- One whose filter does not.
pub find_lost :
    (id : ℕ) (filter : Task → Bool) (update : Task → Task) (s : Store) (t : Task)
    → lookup id s.tasks ≡ some t
    → filter t ≡ false
    → find_and_update id filter update s ≡ (ok none, s)
unfolding find_and_update
find_lost id filter update s t found fails = ground arith

-- A claim that is won, and the rest.
pub claimed_ok :
    {A : Type 0} (id : ℕ) (filter : Task → Bool) (update : Task → Task) (s : Store) (t : Task)
    (e : AppError) (k : Task → Action A)
    → lookup id s.tasks ≡ some t
    → filter t ≡ true
    → (find_and_update id filter update >>= λ o. or_raise o e >>= k) s
      ≡ k (update t) (put_task id (update t) s)
claimed_ok id filter update s t e k found passes =
    bind_ok (find_and_update id filter update) (λ o. or_raise o e >>= k) s
      (put_task id (update t) s) (some (update t)) (find_won id filter update s t found passes)

pub found_there : (id : ℕ) (u : Task) (s : Store) → lookup id (put_task id u s).tasks ≡ some u
found_there id u s = ground (arith, lookup-insert id id u s.tasks)

pub raise_if_ok :
    {A : Type 0} (b : Bool) (e : AppError) (k : Action A) (s : Store)
    → b ≡ false
    → (raise_if b e >> k) s ≡ k s
raise_if_ok b e k s h = rw h refl

-- The same captain at the same price, and nothing new for the party where it had a deadline.
abbrev pub Handed : Task → Task → Type 0
Handed t u =
    (u.captain_id ≡ t.captain_id)
    × (u.price ≡ t.price)
    × (is_some t.confirmation.deadline ≡ true → u.confirmation ≡ t.confirmation)

-- The party is asked once: with a deadline set, the deadline stays.
ask_party_cases :
    (id : ℕ) (task : Task) (now : ℕ) (s : Store) (t : Task)
    → lookup id s.tasks ≡ some t
    → t.status ≡ audit_pending
    → (o : Option Task) × (r : Store) × (u : Task) × (ask_party id task now s ≡ (ok o, r))
      × (lookup id r.tasks ≡ some u)
      × (u.status ≡ audit_pending)
      × (u.confirmation.deadline
          ≡ some (
              get_or t.confirmation.deadline
                (add_minutes now (confirmation_minutes_of task s.clock_config))))
      × (r.proofs ≡ s.proofs)
      × (r.captains ≡ s.captains)
      × Handed t u
unfolding ask_party reads
ask_party_cases id task now s t found waits =
    let until = add_minutes now (confirmation_minutes_of task s.clock_config) in
    let update = with_confirmation (some until) (some now) in
    elim (Option-cases t.confirmation.deadline) [
      | inl unset ↦
          let u = update t in
          (
            some u,
            put_task id u s,
            u,
            find_won id _ update s t found (rw (waits, unset) refl),
            found_there id u s,
            waits,
            rw unset refl,
            refl,
            refl,
            (refl, refl, λ h. cc),
          )
      | inr (deadline, set) ↦ (
        none,
        s,
        t,
        find_lost id _ update s t found (rw (waits, set) refl),
        found,
        waits,
        rw set refl,
        refl,
        refl,
        (refl, refl, λ _. refl),
      )
    ]

-- A proof that is accepted, and what it leaves as it was.
pub proof_submitted_lem :
    (id : ℕ) (task t : Task) (input : SubmitProofInput) (actor : ActorContext) (now : ℕ) (s : Store)
    → lookup id s.tasks ≡ some t
    → t.status ≡ in_progress
    → t.captain_id ≡ some input.captain_id
    → has_live_proof id s.proofs ≡ false
    → (r : Store) × (u : Task) × (submit_proof_from id task input actor now s ≡ (ok task, r))
      × (lookup id r.tasks ≡ some u)
      × (u.status ≡ audit_pending)
      × (u.confirmation.deadline
          ≡ some (
              get_or t.confirmation.deadline
                (add_minutes now (confirmation_minutes_of task s.clock_config))))
      × (r.proofs ≡ new_proof id input now ∷ s.proofs)
      × (r.captains ≡ s.captains)
      × Handed t u
unfolding submit_proof_from create_proof reads can_transition assert_transition
proof_submitted_lem id task t input actor now s found works holds none_live =
    let u1 =
      moved proof_submitted (with_proof input now)
        (event in_progress proof_submitted actor none now ∷ []) t in
    let s1 = put_task id u1 s in
    let s2 = record s1 { proofs = new_proof id input now ∷ s.proofs } in
    let u2 =
      moved audit_pending (λ x. x) (system_event proof_submitted audit_pending none now ∷ []) u1 in
    let s3 = put_task id u2 s2 in
    let (o, r, u, asked, there, waits, deadline, proofs, captains, handed) =
      ask_party_cases id task now s3 u2 (found_there id u2 s2) refl in
    let in_work : in_state in_progress t && same_id t.captain_id input.captain_id ≡ true =
      rw (works, holds) (ground arith) in
    let filter = λ (x : Task). in_state in_progress x && same_id x.captain_id input.captain_id in
    let first =
      moved proof_submitted (with_proof input now)
        (event in_progress proof_submitted actor none now ∷ []) in
    let second =
      moved audit_pending (λ x. x) (system_event proof_submitted audit_pending none now ∷ []) in
    let lost = conflict proof_already_submitted in
    let ask = λ (_ : Task). ask_party id task now >> pure task in
    let queue = find_and_update id (in_state proof_submitted) second >>= λ (o : Option Task).
    or_raise o already_decided >>= ask in
    let record_it = λ (_ : Task).
      create_proof (new_proof id input now)
      >> (lift (assert_transition proof_submitted audit_pending) >> queue) in
    let claim =
      find_and_update id filter first >>= λ (o : Option Task). or_raise o lost >>= record_it in
    let to_claim : submit_proof_from id task input actor now s ≡ claim s =
      raise_if_ok (has_live_proof id s.proofs) lost claim s none_live in
    (
      r,
      u,
      to_claim
          ∙ claimed_ok id filter first s t lost record_it found in_work
          ∙ claimed_ok id (in_state proof_submitted) second s2 u1 already_decided ask
              (found_there id u1 s) refl
          ∙ bind_ok (ask_party id task now) (λ _. pure task) s3 r o asked,
      there,
      waits,
      deadline,
      proofs,
      captains,
      handed,
    )

-- A captain's proof of a task in progress is accepted where there is no other: it goes to the
-- audit, the proof is on record, and the party has the configured minutes to answer; but where a
-- deadline is set already, from an earlier proof, it stays as it is, lapsed or not.
pub submit_proof_from_ok :
    (id : ℕ) (task t : Task) (input : SubmitProofInput) (actor : ActorContext) (now : ℕ) (s : Store)
    → lookup id s.tasks ≡ some t
    → t.status ≡ in_progress
    → t.captain_id ≡ some input.captain_id
    → has_live_proof id s.proofs ≡ false
    → (r : Store) × (u : Task) × (submit_proof_from id task input actor now s ≡ (ok task, r))
      × (lookup id r.tasks ≡ some u)
      × (u.status ≡ audit_pending)
      × (u.confirmation.deadline
          ≡ some (
              get_or t.confirmation.deadline
                (add_minutes now (confirmation_minutes_of task s.clock_config))))
      × (r.proofs ≡ new_proof id input now ∷ s.proofs)
submit_proof_from_ok id task t input actor now s found works holds none_live =
    let (r, u, done, there, waits, deadline, proofs, _, _) =
      proof_submitted_lem id task t input actor now s found works holds none_live in
    (r, u, done, there, waits, deadline, proofs)
