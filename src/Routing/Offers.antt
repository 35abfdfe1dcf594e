-- ===== src/Routing/Offers.antt =====
-- Offering a task to one captain at a time: server/src/services/taskRouting.service.ts. Writing a
-- document here does not fail.
use flitepay.Prelude.{
  ℕ, ◌+◌, ◌-◌, ◌*◌, ◌/◌, Bool, true, false, not, ◌&&◌, Option, none, some, List, [], ◌∷◌, ◌++◌,
  length, includes, get_or, is_some, leb, ◌==◌, if◌then◌else◌,
}
use flitepay.Prelude.Dict.{lookup, insert}
use flitepay.Errors.{ok}
use flitepay.Store.{Store, Action, pure, modify, ◌>>=◌, ◌>>◌}
use flitepay.Store.Tasks.{
  ClockConfig, Offering, Task, OfferStatus, offered, accepted, missed, withdrawn, TaskOffer,
}
use flitepay.Store.Finding.{find_and_update}
use flitepay.Routing.{Candidate}
use flitepay.Routing.Eligibility.{
  same_id, same_ids, affordable, placeable_count, best_captain, unheld,
}
use flitepay.Routing.Rating.{record_outcome, one_offer_missed}

abbrev pub with_offer : (Offering → Offering) → Task → Task
with_offer f t = record t { offer = f t.offer }

abbrev pub no_offer : Offering → Offering
no_offer o = record o { offered_captain_id = none; offered_at = none; offer_expires_at = none }

abbrev pub opened : ℕ → Offering → Offering
opened now o = record (no_offer o) { open_pool_at = some now }

abbrev pub stalled : ℕ → Offering → Offering
stalled now o = record o { routing_stalled_at = some now }

abbrev pub not_stalled : Offering → Offering
not_stalled o = record o { routing_stalled_at = none }

abbrev pub offered_to : ℕ → ℕ → ℕ → Offering → Offering
offered_to captain_id now until o = record o {
  offered_captain_id = some captain_id;
  offered_at = some now;
  offer_expires_at = some until;
  offered_captain_ids =
      if includes ◌==◌ o.offered_captain_ids captain_id
      then o.offered_captain_ids
      else o.offered_captain_ids ++ captain_id ∷ [];
}

-- `markRoutingStalled`, without its announcement.
unfoldable pub mark_routing_stalled : ℕ → ℕ → Action (Option Task)
mark_routing_stalled id now =
    find_and_update id (λ t. not (is_some t.offer.routing_stalled_at)) (with_offer (stalled now))

-- `clearRoutingStalled`
unfoldable pub clear_routing_stalled : ℕ → Action (Option Task)
clear_routing_stalled id =
    find_and_update id (λ t. is_some t.offer.routing_stalled_at) (with_offer not_stalled)

-- A time some minutes later, in milliseconds.
abbrev pub add_minutes : ℕ → ℕ → ℕ
add_minutes now minutes = now + minutes * 60000

-- `acceptanceMinutesFor`
abbrev acceptance_minutes_for : Task → ClockConfig → ℕ
acceptance_minutes_for t c = get_or t.clocks.acceptance_minutes c.task_acceptance_minutes

abbrev pub new_offer : ℕ → Candidate → ℕ → ℕ → ℕ → TaskOffer
new_offer id best sequence now until = record {
  task_id = id;
  captain_id = best.id;
  status = offered;
  score = best.score;
  sequence = sequence;
  offered_at = now;
  expires_at = until;
  responded_at = none;
  response_seconds = none;
}

unfoldable pub stamp_captain : ℕ → ℕ → Store → Store
stamp_captain captain_id now s = elim (lookup captain_id s.captains) [
  | none ↦ s
  | some c ↦ record s {
    captains = insert captain_id (record c { last_offered_at = some now }) s.captains;
  }
]

-- `OfferResult`; when the offer ends is a plain read of the task.
pub record OfferResult : Type 0 where
  pub captain_id : Option ℕ
  pub opened_to_pool : Bool

abbrev pub offer_result : Option ℕ → Bool → OfferResult
offer_result c o = record { captain_id = c; opened_to_pool = o }

-- A write of the collection of offers.
unfoldable pub change_offers : (List TaskOffer → List TaskOffer) → Action (Unit {0})
change_offers f = modify (λ s. record s { offers = f s.offers })

-- What follows the write of an offer.
unfoldable pub offer_written : ℕ → Candidate → ℕ → ℕ → Task → Action OfferResult
unfolding clear_routing_stalled stamp_captain change_offers
offer_written id best now until updated = do
  clear_routing_stalled id
  change_offers (λ os. new_offer id best (length updated.offer.offered_captain_ids) now until ∷ os)
  modify (stamp_captain best.id now)
  pure (offer_result (some best.id) false)

unfoldable pub after_offer : ℕ → Candidate → ℕ → ℕ → Option Task → Action OfferResult
unfolding offer_written
after_offer id best now until none = pure (offer_result none false)
after_offer id best now until (some updated) = offer_written id best now until updated

-- `offerToNextCaptain` where there is a captain to try.
unfoldable pub offer_to_best : ℕ → Task → Candidate → ℕ → Action OfferResult
unfolding after_offer
offer_to_best id t best now s =
    let until = add_minutes now (acceptance_minutes_for t s.clock_config) in
    (do
      updated ←
          find_and_update id
            (λ x. unheld x && same_ids x.offer.offered_captain_id t.offer.offered_captain_id)
            (with_offer (offered_to best.id now until))
      after_offer id best now until updated)
      s

-- `offerToNextCaptain` where nobody is left to try.
unfoldable pub offer_to_nobody : ℕ → Task → ℕ → Action OfferResult
unfolding mark_routing_stalled clear_routing_stalled affordable
offer_to_nobody id t now s =
    if length (affordable t s.captains) == 0
    then if placeable_count t s.captains == 0
      then (do mark_routing_stalled id now; pure (offer_result none false)) s
      else (do clear_routing_stalled id; pure (offer_result none false)) s
    else (do
      done ←
          find_and_update id (λ x. unheld x && not (is_some x.offer.open_pool_at))
            (with_offer (opened now))
      pure (offer_result none (is_some done)))
        s

-- `offerToNextCaptain`
unfoldable pub offer_to_next_captain : ℕ → ℕ → Action OfferResult
unfolding offer_to_best offer_to_nobody best_captain
offer_to_next_captain id now s = elim (lookup id s.tasks) [
  | none ↦ (ok (offer_result none false), s)
  | some t ↦
      if not (unheld t)
      then (ok (offer_result none false), s)
      else if is_some t.offer.open_pool_at
      then (ok (offer_result none true), s)
      else elim (best_captain t s) [
        | none ↦ offer_to_nobody id t now s
        | some best ↦ offer_to_best id t best now s
      ]
]

abbrev is_open_offer : ℕ → TaskOffer → Bool
is_open_offer id o = o.task_id == id && (elim o.status [ offered ↦ true | _ ↦ false ])

abbrev closed : OfferStatus → ℕ → TaskOffer → TaskOffer
closed status now o = record o { status = status; responded_at = some now }

-- `updateMany` of the open offers of a task that pass the filter.
unfoldable pub close_offers : ℕ → (ℕ → Bool) → OfferStatus → ℕ → List TaskOffer → List TaskOffer
close_offers id filter status now [] = []
close_offers id filter status now (o ∷ os) =
    (if is_open_offer id o && filter o.captain_id then closed status now o else o)
    ∷ close_offers id filter status now os

-- `withdrawOpenOffers`
unfoldable pub withdraw_open_offers : ℕ → Option ℕ → ℕ → Action (Unit {0})
unfolding close_offers change_offers
withdraw_open_offers id except now =
    change_offers (close_offers id (λ c. not (same_id except c)) withdrawn now)

abbrev accepted_offer : ℕ → TaskOffer → TaskOffer
accepted_offer now o = record o {
  status = accepted;
  responded_at = some now;
  response_seconds = some ((now - o.offered_at + 500) / 1000);
}

-- `markOfferAccepted`: the first open offer of the captain, and the seconds it took.
unfoldable pub accept_offer : ℕ → ℕ → ℕ → List TaskOffer → Option ℕ × List TaskOffer
accept_offer id captain_id now [] = (none, [])
accept_offer id captain_id now (o ∷ os) =
    let (seconds, rest) = accept_offer id captain_id now os in
    if is_open_offer id o && o.captain_id == captain_id
    then ((accepted_offer now o).response_seconds, accepted_offer now o ∷ os)
    else (seconds, o ∷ rest)

unfoldable pub mark_offer_accepted : ℕ → ℕ → ℕ → Action (Option ℕ)
unfolding accept_offer
mark_offer_accepted id captain_id now s =
    let (seconds, os) = accept_offer id captain_id now s.offers in
    (ok seconds, record s { offers = os })

-- `resetRoutingForReassignment`
unfoldable pub reset_routing_for_reassignment : ℕ → ℕ → Action OfferResult
unfolding withdraw_open_offers offer_to_next_captain
reset_routing_for_reassignment id now = do
  find_and_update id (λ _. true) (with_offer no_offer)
  withdraw_open_offers id none now
  offer_to_next_captain id now

abbrev lapsed : ℕ → Task → Bool
lapsed now t =
    unheld t
    && is_some t.offer.offered_captain_id
    && (elim t.offer.offer_expires_at [ none ↦ false | some until ↦ leb until now ])

-- The rest of a round of `sweepOffers`: another has changed the task, or it is offered on.
unfoldable pub after_release : ℕ → ℕ → ℕ → Option Task → Action OfferResult
unfolding close_offers change_offers record_outcome offer_to_next_captain
after_release id missed_by now none = pure (offer_result none false)
after_release id missed_by now (some released) = do
  change_offers (close_offers id (λ c. c == missed_by) missed now)
  record_outcome missed_by one_offer_missed
  offer_to_next_captain id now

-- A lapsed offer of `sweepOffers`, with the captain that the query read.
unfoldable pub pass_on : ℕ → ℕ → ℕ → Action OfferResult
unfolding after_release
pass_on id missed_by now = do
  released ←
      find_and_update id
        (λ t. same_id t.offer.offered_captain_id missed_by && not (is_some t.captain_id))
        (with_offer no_offer)
  after_release id missed_by now released
