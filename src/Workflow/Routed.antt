-- ===== src/Workflow/Routed.antt =====
-- Routing a task moves no money: the offers of server/src/services/taskRouting.service.ts.
use flitepay.Prelude.{
  ℕ, ◌+◌, ◌≡◌, inl, inr, refl, Bool, true, false, not, Option, none, some, List, ◌∷◌, ◌&&◌, get_or,
  arith, ◌==◌, length, is_some, Bool-cases, Option-cases,
}
use flitepay.Prelude.Dict.{lookup, insert}
use flitepay.Store.{Store, Action, modify, pure, ◌>>=◌, ◌>>◌}
use flitepay.Store.Tasks.{Offering, Task, TaskOffer, withdrawn, missed}
use flitepay.Store.Finding.{put_task, find_and_update}
use flitepay.Routing.{Candidate}
use flitepay.Routing.Eligibility.{
  same_id, same_ids, affordable, placeable_count, best_captain, unheld,
}
use flitepay.Routing.Rating.{record_outcome, one_offer_missed}
use flitepay.Routing.Offers.{
  with_offer, no_offer, mark_routing_stalled, clear_routing_stalled, stamp_captain, offer_result,
  after_offer, offer_to_best, offer_to_nobody, offer_to_next_captain, withdraw_open_offers,
  close_offers, reset_routing_for_reassignment, change_offers, add_minutes, opened, stalled,
  not_stalled, offered_to, new_offer, after_release, pass_on,
}
use flitepay.Engine.Worth.{Keeps-refl}
use flitepay.Workflow.Worth.{stake, Funds-put, Funds-level, IsSound-put}
use flitepay.Workflow.Flow.{Flow-refl, Does, Does-bind, Does-level, Does-pure, find_cases}
use flitepay.Workflow.Money.{captain-Flow, record_outcome-Does, rows-Flow}

stake-with_offer : (f : Offering → Offering) (t : Task) → stake (with_offer f t) ≡ stake t
unfolding stake
stake-with_offer f t = refl

-- A conditional write of the offer of a task.
pub write_offer-Does :
    (id : ℕ) (filter : Task → Bool) (f : Offering → Offering) (s : Store)
    → Does (find_and_update id filter (with_offer f)) s 0 0
write_offer-Does id filter f s = elim (find_cases id filter (with_offer f) s) [
  | inl lost ↦ (none, s, lost, Flow-refl s)
  | inr (t, found, passes, won) ↦
      let u = with_offer f t in
      (
        some u,
        put_task id u s,
        won,
        (
          Funds-level s (put_task id u s) (stake u) (stake t) 0 0 (Funds-put id t u s found)
              (omega (arith, stake-with_offer f t)),
          Keeps-refl s,
          λ sound. IsSound-put s id u sound (sound id t found),
        ),
      )
]

-- Two steps that move nothing.
pub still-bind :
    {A B : Type 0} (m : Action A) (f : A → Action B) (s : Store)
    → Does m s 0 0
    → ((a : A) (t : Store) → Does (f a) t 0 0)
    → Does (m >>= f) s 0 0
still-bind m f s h k =
    Does-level (m >>= f) s (0 + 0) (0 + 0) 0 0 (Does-bind m f s 0 0 0 0 h (λ a t _. k a t))
      (omega arith)

stamp_captain-Does : (c now : ℕ) (s : Store) → Does (modify (stamp_captain c now)) s 0 0
unfolding stamp_captain
stamp_captain-Does c now s = elim (Option-cases (lookup c s.captains)) [
  | inl missing ↦ (tt, s, ground arith, Flow-refl s)
  | inr (cap, found) ↦
      let d = record cap { last_offered_at = some now } in
      (
        tt,
        record s { captains = insert c d s.captains },
        ground arith,
        captain-Flow c cap d s 0 0 found (omega arith),
      )
]

change_offers-Does :
    (f : List TaskOffer → List TaskOffer) (s : Store) → Does (change_offers f) s 0 0
unfolding change_offers
change_offers-Does f s = (
  tt,
  record s { offers = f s.offers },
  refl,
  rows-Flow s s.proofs (f s.offers) s.commissions s.allocations,
)

pub withdraw_open_offers-Does :
    (id : ℕ) (except : Option ℕ) (now : ℕ) (s : Store)
    → Does (withdraw_open_offers id except now) s 0 0
unfolding withdraw_open_offers
withdraw_open_offers-Does id except now s =
    change_offers-Does (close_offers id (λ c. not (same_id except c)) withdrawn now) s

-- A step that moves nothing, before another.
pub still-then :
    {A B : Type 0} (m : Action A) (k : Action B) (s : Store)
    → Does m s 0 0
    → ((t : Store) → Does k t 0 0)
    → Does (m >> k) s 0 0
still-then m k s h g = still-bind m (λ _. k) s h (λ _ t. g t)

after_offer-Does :
    (id : ℕ) (best : Candidate) (now until : ℕ) (o : Option Task) (s : Store)
    → Does (after_offer id best now until o) s 0 0
unfolding after_offer
after_offer-Does id best now until none s = Does-pure (offer_result none false) s
after_offer-Does id best now until (some u) s =
    let add = λ (os : List TaskOffer).
      new_offer id best (length u.offer.offered_captain_ids) now until ∷ os in
    let end = pure (offer_result (some best.id) false) in
    let stamp = modify (stamp_captain best.id now) in
    still-then (clear_routing_stalled id) (change_offers add >> (stamp >> end)) s
      (write_offer-Does id (λ t. is_some t.offer.routing_stalled_at) not_stalled s)
      (λ t. still-then (change_offers add) (stamp >> end) t (change_offers-Does add t) (λ r.
        still-then stamp end r (stamp_captain-Does best.id now r)
          (λ x. Does-pure (offer_result (some best.id) false) x)))

offer_to_best-Does :
    (id : ℕ) (t : Task) (best : Candidate) (now : ℕ) (s : Store)
    → Does (offer_to_best id t best now) s 0 0
unfolding offer_to_best
offer_to_best-Does id t best now s =
    let until =
      add_minutes now (get_or t.clocks.acceptance_minutes s.clock_config.task_acceptance_minutes) in
    let filter =
      λ (x : Task). unheld x && same_ids x.offer.offered_captain_id t.offer.offered_captain_id in
    still-bind (find_and_update id filter (with_offer (offered_to best.id now until)))
      (after_offer id best now until) s
      (write_offer-Does id filter (offered_to best.id now until) s)
      (λ o r. after_offer-Does id best now until o r)

offer_to_nobody-Does :
    (id : ℕ) (t : Task) (now : ℕ) (s : Store) → Does (offer_to_nobody id t now) s 0 0
unfolding offer_to_nobody
offer_to_nobody-Does id t now s =
    let end = pure (offer_result none false) in
    elim (Bool-cases (length (affordable t s.captains) == 0)) [
      | inr some_left ↦
          let filter = λ (x : Task). unheld x && not (is_some x.offer.open_pool_at) in
          rw some_left (
            still-bind (find_and_update id filter (with_offer (opened now)))
              (λ (o : Option Task). pure (offer_result none (is_some o))) s
              (write_offer-Does id filter (opened now) s)
              (λ o r. Does-pure (offer_result none (is_some o)) r))
      | inl nobody ↦ elim (Bool-cases (placeable_count t s.captains == 0)) [
        | inl never ↦
            rw (nobody, never)
              (still-then (mark_routing_stalled id now) end s
                (write_offer-Does id (λ x. not (is_some x.offer.routing_stalled_at)) (stalled now)
                  s)
                (λ r. Does-pure (offer_result none false) r))
        | inr later ↦
            rw (nobody, later)
              (still-then (clear_routing_stalled id) end s
                (write_offer-Does id (λ x. is_some x.offer.routing_stalled_at) not_stalled s)
                (λ r. Does-pure (offer_result none false) r))
      ]
    ]

-- Offering a task to the next captain moves no money, and does not fail.
pub offer_to_next_captain-Does :
    (id now : ℕ) (s : Store) → Does (offer_to_next_captain id now) s 0 0
unfolding offer_to_next_captain
offer_to_next_captain-Does id now s = elim (Option-cases (lookup id s.tasks)) [
  | inl missing ↦ (offer_result none false, s, ground arith, Flow-refl s)
  | inr (t, found) ↦ elim (Bool-cases (unheld t)) [
    | inr taken ↦ (offer_result none false, s, ground arith, Flow-refl s)
    | inl free ↦ elim (Bool-cases (is_some t.offer.open_pool_at)) [
      | inl pool ↦ (offer_result none true, s, ground arith, Flow-refl s)
      | inr exclusive ↦ elim (Option-cases (best_captain t s)) [
        | inl nobody ↦ let (a, r, e, f) = offer_to_nobody-Does id t now s in (a, r, ground arith, f)
        | inr (best, chosen) ↦
            let (a, r, e, f) = offer_to_best-Does id t best now s in (a, r, ground arith, f)
      ]
    ]
  ]
]

after_release-Does :
    (id missed_by now : ℕ) (o : Option Task) (s : Store)
    → Does (after_release id missed_by now o) s 0 0
unfolding after_release
after_release-Does id missed_by now none s = Does-pure (offer_result none false) s
after_release-Does id missed_by now (some u) s =
    let close = change_offers (close_offers id (λ c. c == missed_by) missed now) in
    let count = record_outcome missed_by one_offer_missed in
    let rest = offer_to_next_captain id now in
    still-then close (count >> rest) s
      (change_offers-Does (close_offers id (λ c. c == missed_by) missed now) s)
      (λ t.
        still-then count rest t (record_outcome-Does missed_by one_offer_missed t)
          (λ r. offer_to_next_captain-Does id now r))

pub reset_routing_for_reassignment-Does :
    (id now : ℕ) (s : Store) → Does (reset_routing_for_reassignment id now) s 0 0
unfolding reset_routing_for_reassignment
reset_routing_for_reassignment-Does id now s =
    let rest = offer_to_next_captain id now in
    still-then (find_and_update id (λ _. true) (with_offer no_offer))
      (withdraw_open_offers id none now >> rest) s (write_offer-Does id (λ _. true) no_offer s)
      (λ t.
        still-then (withdraw_open_offers id none now) rest t
          (withdraw_open_offers-Does id none now t) (λ r. offer_to_next_captain-Does id now r))

-- A lapsed offer is passed on.
pub pass_on-Does : (id missed_by now : ℕ) (s : Store) → Does (pass_on id missed_by now) s 0 0
unfolding pass_on
pass_on-Does id missed_by now s =
    let filter =
      λ (t : Task). same_id t.offer.offered_captain_id missed_by && not (is_some t.captain_id) in
    still-bind (find_and_update id filter (with_offer no_offer)) (after_release id missed_by now) s
      (write_offer-Does id filter no_offer s) (after_release-Does id missed_by now)
