-- ===== src/Workflow/Frame.antt =====
-- What does not move a task: the money steps, the rows beside it, and its offers. `Tracks id from`
-- is that the task `id` is there, and its history has led on by legal moves from that of `from`.
use flitepay.Prelude.{
  ℕ, ◌≡◌, inl, inr, refl, sym, ap, subst, ◌∙◌, append_assoc, ◌++◌, [], Bool, true, false, not, ◌&&◌,
  Option, none, some, List, ◌∷◌, arith, ◌==◌, is_some, length, Bool-cases, Option-cases,
}
use flitepay.Prelude.Dict.{lookup, lookup-insert}
use flitepay.Errors.{Result}
use flitepay.Machine.Task.{TaskState, can_transition}
use flitepay.Pool.{collect_into_pool, pay_commission_from_pool}
use flitepay.Balance.{pay_commission_to_captain}
use flitepay.Allocation.{OwnerType}
use flitepay.Store.{Record, Store, Action, atomically, modify, pure, ◌>>=◌, ◌>>◌}
use flitepay.Store.Tasks.{Task, TaskStateEvent, TaskOffer, CommissionEntry, Proof, Offering}
use flitepay.Store.Finding.{find_and_update}
use flitepay.Engine.Claims.{atomically_keeps}
use flitepay.Routing.{Candidate}
use flitepay.Routing.Rating.{record_outcome, one_offer_missed}
use flitepay.Routing.Eligibility.{best_captain, affordable, placeable_count, unheld}
use flitepay.Routing.Offers.{
  with_offer, opened, new_offer, offer_result, change_offers, stamp_captain, clear_routing_stalled,
  mark_routing_stalled, after_offer, offer_to_best, offer_to_nobody, offer_to_next_captain,
  withdraw_open_offers, mark_offer_accepted, reset_routing_for_reassignment, after_release, pass_on,
}
use flitepay.Workflow.{
  add_to_balance, release_payout_hold, supersede_proof_for, create_proof, when_held,
}
use flitepay.Workflow.Completion.{
  credit_commission, collect_charge, pay_share, allocate, create_platform_allocation,
}
use flitepay.Workflow.Cancelling.{refund_party_for_cancelled_task}
use flitepay.Workflow.Flow.{find_cases}
use flitepay.Workflow.Rules.{
  Sustains, sustains, Sustains-run, Sustains-bind, Sustains-pure, Sustains-when_held,
}

-- The states that events enter, the latest event first, are legal moves from one to the next.
abbrev pub Trail : TaskState → List TaskStateEvent → TaskState → Type 0
Trail a [] b = a ≡ b
Trail a (e ∷ es) b = (e.to ≡ b) × ((c : TaskState) × (can_transition c b ≡ true) × Trail a es c)

-- The history of `u` is that of `t` and a trail of new events, which leads to its state.
abbrev pub Follows : Task → Task → Type 0
Follows t u =
    (es : List TaskStateEvent) × (u.state_history ≡ es ++ t.state_history)
    × Trail t.status es u.status

Trail-trans :
    (a b c : TaskState) (es fs : List TaskStateEvent)
    → Trail a es b
    → Trail b fs c
    → Trail a (fs ++ es) c
Trail-trans a b c es [] p q = subst (Trail a es) q p
Trail-trans a b c es (f ∷ fs) p (entered, (d, legal, q)) =
    (entered, (d, legal, Trail-trans a b d es fs p q))

Follows-trans : (s t u : Task) → Follows s t → Follows t u → Follows s u
Follows-trans s t u (es, h, p) (fs, k, q) = (
  fs ++ es,
  k ∙ ap (λ x. fs ++ x) h ∙ sym (append_assoc fs es s.state_history),
  Trail-trans s.status t.status u.status es fs p q,
)

abbrev pub Tracks : ℕ → Task → Store → Type 0
Tracks id from s = (u : Task) × (lookup id s.tasks ≡ some u) × Follows from u

module _ (id : ℕ) (from : Task) where
  -- A conditional write along legal moves.
  pub find-Tracks :
      (j : ℕ) (filter : Task → Bool) (update : Task → Task)
      → ((t : Task) → filter t ≡ true → Follows t (update t))
      → Sustains (Tracks id from) (find_and_update j filter update)
  find-Tracks j filter update h = sustains (λ s (u, found, path).
      elim (find_cases j filter update s) [
        | inl lost ↦ rw lost (u, found, path)
        | inr (t, there, passes, won) ↦ elim (Bool-cases (id == j)) [
          | inl same_id ↦
              let same_task : t ≡ u = ground arith in
              rw won (
                update t,
                ground (arith, lookup-insert id j (update t) s.tasks),
                Follows-trans from u (update t) path
                    (subst (λ x. Follows x (update t)) same_task (h t passes)),
              )
          | inr other ↦ rw won (u, ground (arith, lookup-insert id j (update t) s.tasks), path)
        ]
      ])

  -- An action that writes no task.
  pub Tracks-same :
      {A : Type 0} {m : Action A}
      → ((s : Store) → (m s).1.tasks ≡ s.tasks)
      → Sustains (Tracks id from) m
  Tracks-same h =
      sustains
        (λ s (u, found, path). (u, subst (λ d. lookup id d ≡ some u) (sym (h s)) found, path))

  pub Tracks-atomically :
      {A : Type 0} (supports : Bool) {m : Action A}
      → Sustains (Tracks id from) m
      → Sustains (Tracks id from) (atomically supports m)
  Tracks-atomically supports {m = m} h =
      sustains (λ s p. atomically_keeps (Tracks id from) supports m s p (Sustains-run h s p))

  -- At a state, an action may be known to be another one.
  Tracks-at :
      {A : Type 0} (m k : Action A) (s : Store)
      → m s ≡ k s
      → Sustains (Tracks id from) k
      → Tracks id from s
      → Tracks id from (m s).1
  Tracks-at {A} m k s e h p =
      subst (λ (r : Result A × Store). Tracks id from r.1) (sym e) (Sustains-run h s p)

  pub add_to_balance-Tracks : (c amount : ℕ) → Sustains (Tracks id from) (add_to_balance c amount)
  unfolding add_to_balance
  add_to_balance-Tracks c amount = Tracks-same (λ s. ground arith)

  pub release_payout_hold-Tracks :
      (c amount : ℕ) → Sustains (Tracks id from) (release_payout_hold c amount)
  unfolding release_payout_hold add_to_balance
  release_payout_hold-Tracks c amount = Tracks-same (λ s. ground arith)

  pub record_outcome-Tracks :
      (c : ℕ) (deltas : Record → Record) → Sustains (Tracks id from) (record_outcome c deltas)
  unfolding record_outcome
  record_outcome-Tracks c deltas = Tracks-same (λ s. ground arith)

  pub refund-Tracks : (t : Task) → Sustains (Tracks id from) (refund_party_for_cancelled_task t)
  unfolding refund_party_for_cancelled_task
  refund-Tracks t = Tracks-same (λ s. ground arith)

  pub collect_charge-Tracks : (amount : ℕ) → Sustains (Tracks id from) (collect_charge amount)
  unfolding collect_charge collect_into_pool
  collect_charge-Tracks amount = Tracks-same (λ s. ground arith)

  pub pay_share-Tracks :
      (session : Bool) (j c amount : ℕ) → Sustains (Tracks id from) (pay_share session j c amount)
  unfolding pay_share pay_commission_to_captain collect_into_pool pay_commission_from_pool
  pay_share-Tracks session j c amount = Tracks-same (λ s. ground arith)

  pub credit_commission-Tracks :
      (j : ℕ) (entry : CommissionEntry) → Sustains (Tracks id from) (credit_commission j entry)
  unfolding credit_commission
  credit_commission-Tracks j entry = Tracks-same (λ s. ground arith)

  pub allocate-Tracks :
      (new_id : ℕ) (owner : OwnerType) (owner_id amount j : ℕ) (t : Task) (now : ℕ)
      → Sustains (Tracks id from) (allocate new_id owner owner_id amount j t now)
  unfolding allocate
  allocate-Tracks new_id owner owner_id amount j t now = Tracks-same (λ s. refl)

  pub create_platform_allocation-Tracks :
      (new_id j : ℕ) (t : Task) (now : ℕ)
      → Sustains (Tracks id from) (create_platform_allocation new_id j t now)
  unfolding create_platform_allocation allocate
  create_platform_allocation-Tracks new_id j t now = Tracks-same (λ s. ground arith)

  pub supersede_proof_for-Tracks :
      (j now : ℕ) → Sustains (Tracks id from) (supersede_proof_for j now)
  unfolding supersede_proof_for
  supersede_proof_for-Tracks j now = Tracks-same (λ s. refl)

  pub create_proof-Tracks : (p : Proof) → Sustains (Tracks id from) (create_proof p)
  unfolding create_proof
  create_proof-Tracks p = Tracks-same (λ s. refl)

  change_offers-Tracks :
      (f : List TaskOffer → List TaskOffer) → Sustains (Tracks id from) (change_offers f)
  unfolding change_offers
  change_offers-Tracks f = Tracks-same (λ s. refl)

  pub withdraw_open_offers-Tracks :
      (j : ℕ) (except : Option ℕ) (now : ℕ)
      → Sustains (Tracks id from) (withdraw_open_offers j except now)
  unfolding withdraw_open_offers change_offers
  withdraw_open_offers-Tracks j except now = Tracks-same (λ s. refl)

  pub mark_offer_accepted-Tracks :
      (j c now : ℕ) → Sustains (Tracks id from) (mark_offer_accepted j c now)
  unfolding mark_offer_accepted
  mark_offer_accepted-Tracks j c now = Tracks-same (λ s. refl)

  stamp_captain-Tracks : (c now : ℕ) → Sustains (Tracks id from) (modify (stamp_captain c now))
  unfolding stamp_captain
  stamp_captain-Tracks c now = Tracks-same (λ s. ground arith)

  -- A write of the offer of a task.
  with_offer-Tracks :
      (j : ℕ) (filter : Task → Bool) (f : Offering → Offering)
      → Sustains (Tracks id from) (find_and_update j filter (with_offer f))
  with_offer-Tracks j filter f = find-Tracks j filter (with_offer f) (λ t _. ([], refl, refl))

  clear_routing_stalled-Tracks : (j : ℕ) → Sustains (Tracks id from) (clear_routing_stalled j)
  unfolding clear_routing_stalled
  clear_routing_stalled-Tracks j = with_offer-Tracks j _ _

  mark_routing_stalled-Tracks : (j now : ℕ) → Sustains (Tracks id from) (mark_routing_stalled j now)
  unfolding mark_routing_stalled
  mark_routing_stalled-Tracks j now = with_offer-Tracks j _ _

  after_offer-Tracks :
      (j : ℕ) (best : Candidate) (now until : ℕ) (o : Option Task)
      → Sustains (Tracks id from) (after_offer j best now until o)
  unfolding after_offer
  after_offer-Tracks j best now until none = Sustains-pure (offer_result none false)
  after_offer-Tracks j best now until (some u) =
      let add = λ (os : List TaskOffer).
        new_offer j best (length u.offer.offered_captain_ids) now until ∷ os in
      Sustains-bind {m = clear_routing_stalled j} (clear_routing_stalled-Tracks j) (λ _.
        Sustains-bind (change_offers-Tracks add) (λ _.
          Sustains-bind (stamp_captain-Tracks best.id now)
            (λ _. Sustains-pure (offer_result (some best.id) false))))

  offer_to_best-Tracks :
      (j : ℕ) (t : Task) (best : Candidate) (now : ℕ)
      → Sustains (Tracks id from) (offer_to_best j t best now)
  unfolding offer_to_best
  offer_to_best-Tracks j t best now = sustains {m = offer_to_best j t best now} (λ s p.
      Sustains-run (Sustains-bind (with_offer-Tracks j _ _) (after_offer-Tracks j best now _)) s p)

  offer_to_nobody-Tracks :
      (j : ℕ) (t : Task) (now : ℕ) → Sustains (Tracks id from) (offer_to_nobody j t now)
  unfolding offer_to_nobody
  offer_to_nobody-Tracks j t now =
      let end = pure (offer_result none false) in
      let open_pool =
        find_and_update j (λ x. unheld x && not (is_some x.offer.open_pool_at))
          (with_offer (opened now))
        >>= λ (o : Option Task). pure (offer_result none (is_some o)) in
      let m = offer_to_nobody j t now in
      sustains (λ s p. elim (Bool-cases (length (affordable t s.captains) == 0)) [
        | inr some_left ↦
            Tracks-at m open_pool s (rw some_left refl)
              (Sustains-bind (with_offer-Tracks j _ (opened now)) (λ o. Sustains-pure _)) p
        | inl nobody ↦ elim (Bool-cases (placeable_count t s.captains == 0)) [
          | inl never ↦
              Tracks-at m (mark_routing_stalled j now >> end) s (rw (nobody, never) refl)
                (Sustains-bind {m = mark_routing_stalled j now} (mark_routing_stalled-Tracks j now)
                  (λ _. Sustains-pure (offer_result none false)))
                p
          | inr later ↦
              Tracks-at m (clear_routing_stalled j >> end) s (rw (nobody, later) refl)
                (Sustains-bind {m = clear_routing_stalled j} (clear_routing_stalled-Tracks j)
                  (λ _. Sustains-pure (offer_result none false)))
                p
        ]
      ])

  pub offer_to_next_captain-Tracks :
      (j now : ℕ) → Sustains (Tracks id from) (offer_to_next_captain j now)
  unfolding offer_to_next_captain
  offer_to_next_captain-Tracks j now =
      let m = offer_to_next_captain j now in
      let end = Sustains-pure {P = Tracks id from} (offer_result none false) in
      sustains (λ s p. elim (Option-cases (lookup j s.tasks)) [
        | inl missing ↦ Tracks-at m (pure (offer_result none false)) s (ground arith) end p
        | inr (t, found) ↦ elim (Bool-cases (unheld t)) [
          | inr taken ↦ Tracks-at m (pure (offer_result none false)) s (ground arith) end p
          | inl free ↦ elim (Bool-cases (is_some t.offer.open_pool_at)) [
            | inl pool ↦
                Tracks-at m (pure (offer_result none true)) s (ground arith) (Sustains-pure _) p
            | inr exclusive ↦ elim (Option-cases (best_captain t s)) [
              | inl nobody ↦
                  Tracks-at m (offer_to_nobody j t now) s (ground arith)
                    (offer_to_nobody-Tracks j t now) p
              | inr (best, chosen) ↦
                  Tracks-at m (offer_to_best j t best now) s (ground arith)
                    (offer_to_best-Tracks j t best now) p
            ]
          ]
        ]
      ])

  pub reset_routing-Tracks :
      (j now : ℕ) → Sustains (Tracks id from) (reset_routing_for_reassignment j now)
  unfolding reset_routing_for_reassignment
  reset_routing-Tracks j now = Sustains-bind (with_offer-Tracks j _ _) (λ _.
      Sustains-bind (withdraw_open_offers-Tracks j none now)
        (λ _. offer_to_next_captain-Tracks j now))

  after_release-Tracks :
      (j missed_by now : ℕ) (o : Option Task)
      → Sustains (Tracks id from) (after_release j missed_by now o)
  unfolding after_release
  after_release-Tracks j missed_by now none = Sustains-pure _
  after_release-Tracks j missed_by now (some u) = Sustains-bind (change_offers-Tracks _) (λ _.
      Sustains-bind (record_outcome-Tracks missed_by one_offer_missed)
        (λ _. offer_to_next_captain-Tracks j now))

  pub pass_on-Tracks : (j missed_by now : ℕ) → Sustains (Tracks id from) (pass_on j missed_by now)
  unfolding pass_on
  pass_on-Tracks j missed_by now =
      Sustains-bind (with_offer-Tracks j _ _) (after_release-Tracks j missed_by now)

  -- The hold of a captain, where there is one.
  pub release-Tracks :
      (o : Option ℕ) (amount : ℕ)
      → Sustains (Tracks id from) (when_held o (λ c. release_payout_hold c amount))
  release-Tracks o amount = Sustains-when_held o _ (λ c. release_payout_hold-Tracks c amount)
