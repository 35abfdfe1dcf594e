-- ===== src/Engine/Assign.antt =====
-- Finding a captain (server/src/services/transaction.service.ts: `eligibleCaptains`,
-- `assignCaptain`). The open tasks of each captain, which the ranking reads from another
-- collection, are the argument `workloads`.
use flitepay.Prelude.{
  ℕ, ◌-◌, Bool, true, false, not, ◌&&◌, Option, none, some, List, [], ◌∷◌, Text, ltb, leb, ◌==◌,
  if◌then◌else◌, includes, get_or, ◌+◌,
}
use flitepay.Prelude.Dict.{Dict, lookup, insert}
use flitepay.Errors.{Result, ok, err}
use flitepay.Commission.{RateConfig, pay_in, CaptainShare, captain_rate_for, reprice_captain_share}
use flitepay.Machine.Transaction.{created, assigned, same}
use flitepay.Store.{Captain, Transaction, Store, Action, pure, atomically, ◌>>=◌}
use flitepay.Capacity.{current_limit_paise, within_current_limit, is_active}
use flitepay.Routing.{CaptainWorkload, Candidate, score_captain, best_of}
use flitepay.Engine.{change, put, add_to_set, claim, load}

abbrev pub excluded : Transaction → ℕ → Bool
excluded t id = includes ◌==◌ t.previous_captain_ids id

-- The captains that `eligibleCaptains` returns, ranked by their scores.
unfoldable pub eligible : Transaction → (ℕ → CaptainWorkload) → Dict Captain → List Candidate
eligible t workloads [] = []
eligible t workloads ((id, c) ∷ d) =
    let rest = eligible t workloads d in
    if is_active c.status
      && c.is_online
      && not (excluded t id)
      && leb t.amount (current_limit_paise c)
    then record { id = id; captain = c; score = score_captain c t.amount (workloads id) } ∷ rest
    else rest

-- Its `countDocuments`.
unfoldable pub placeable : Transaction → Dict Captain → ℕ
placeable t [] = 0
placeable t ((id, c) ∷ d) =
    (if is_active c.status && not (excluded t id) then 1 else 0) + placeable t d

pub record AssignmentResult : Type 0 where
  pub transaction : Transaction
  pub captain_id : Option ℕ
  pub waiting : Bool
  pub stalled : Bool

abbrev pub outcome : Transaction → Option ℕ → Bool → Bool → AssignmentResult
outcome t captain waiting stalled = record {
  transaction = t;
  captain_id = captain;
  waiting = waiting;
  stalled = stalled;
}

-- The captain's half of the charge that the party was quoted.
unfoldable pub price : RateConfig → Transaction → Captain → Result CaptainShare
price config t c =
    reprice_captain_share t.party_commission t.amount
      (captain_rate_for pay_in config (some c.rates) (some t.commission_rate_agreed))
      t.party_commission_rate

abbrev pub take_on : ℕ → CaptainShare → Transaction → Transaction
take_on captain_id share t = record t {
  captain_id = some captain_id;
  commission = share.captain_paise;
  commission_rate = share.captain_rate;
  commission_rate_agreed = share.captain_rate_agreed;
}

-- The conditional decrement of the captain's balance.
unfoldable pub hold_captain : ℕ → ℕ → Action Bool
hold_captain captain_id amount s = elim (lookup captain_id s.captains) [
  | none ↦ (ok false, s)
  | some c ↦
      if is_active c.status && within_current_limit amount c
      then (
        ok true,
        record s {
          captains =
              insert captain_id (record c { dmc_balance = c.dmc_balance - amount }) s.captains;
        },
      )
      else (ok false, s)
]

-- The claim and the hold.
unfoldable pub assign_body : ℕ → ℕ → ℕ → CaptainShare → ℕ → Action (Option Transaction × Bool)
assign_body id captain_id amount share now s =
    let (r, s') = claim id created assigned (take_on captain_id share) none none now s in
    elim r [
      | err e ↦ (err e, s')
      | ok none ↦ (ok (none, true), s')
      | ok (some won) ↦ (do held ← hold_captain captain_id amount; pure (some won, held)) s'
    ]

-- `lastOfferedAt`, once the assignment has stuck.
unfoldable pub stamp_offer : ℕ → ℕ → Store → Store
stamp_offer captain_id now s = elim (lookup captain_id s.captains) [
  | none ↦ s
  | some c ↦ record s {
    captains = insert captain_id (record c { last_offered_at = some now }) s.captains;
  }
]

abbrev no_cover : Text
no_cover =
    -- "Captain could no longer cover the amount"
    67 ∷ 97 ∷ 112 ∷ 116 ∷ 97 ∷ 105 ∷ 110 ∷ 32 ∷ 99 ∷ 111 ∷ 117 ∷ 108 ∷ 100 ∷ 32 ∷ 110 ∷ 111 ∷ 32
    ∷ 108 ∷ 111 ∷ 110 ∷ 103 ∷ 101 ∷ 114 ∷ 32 ∷ 99 ∷ 111 ∷ 118 ∷ 101 ∷ 114 ∷ 32 ∷ 116 ∷ 104 ∷ 101
    ∷ 32 ∷ 97 ∷ 109 ∷ 111 ∷ 117 ∷ 110 ∷ 116 ∷ []

abbrev pub put_back : ℕ → ℕ → Transaction → Transaction
put_back captain_id now t = record t {
  status = created;
  captain_id = none;
  previous_captain_ids = add_to_set captain_id t.previous_captain_ids;
  state_history = change assigned created none (some no_cover) now ∷ t.state_history;
}

-- The transaction goes back to CREATED, with the captain marked as tried.
unfoldable pub release_assignment : ℕ → ℕ → ℕ → Action (Option Transaction)
release_assignment id captain_id now s = elim (lookup id s.transactions) [
  | none ↦ (ok none, s)
  | some t ↦
      if same t.status assigned
      then (ok (some (put_back captain_id now t)), put id (put_back captain_id now t) s)
      else (ok none, s)
]

-- What `assignCaptain` does with the outcome of its body.
unfoldable pub after_assignment :
    ℕ → ℕ → ℕ → ℕ → Option Transaction × Bool → Action AssignmentResult
unfolding load stamp_offer release_assignment
after_assignment id captain_id open_to now (none, held) s =
    (do current ← load id; pure (outcome current current.captain_id false false)) s
after_assignment id captain_id open_to now (some claimed, true) s =
    (ok (outcome claimed (some captain_id) false false), stamp_offer captain_id now s)
after_assignment id captain_id open_to now (some claimed, false) s =
    (do
      released ← release_assignment id captain_id now
      pure (outcome (get_or released claimed) none (ltb 1 open_to) false))
      (stamp_offer captain_id now s)

-- `assignCaptain` once the captain is chosen and priced: `amount` is the amount that was read,
-- `open_to` the number of captains that were placeable.
unfoldable pub assign_chosen : Bool → ℕ → ℕ → ℕ → CaptainShare → ℕ → ℕ → Action AssignmentResult
unfolding assign_body after_assignment
assign_chosen supports id captain_id amount share open_to now s =
    let (r, s') = atomically supports (assign_body id captain_id amount share now) s in
    elim r [ err e ↦ (err e, s') | ok won ↦ after_assignment id captain_id open_to now won s' ]

-- The rest of `assignCaptain`, for the best candidate.
unfoldable pub assign_best : Bool → ℕ → Transaction → ℕ → ℕ → Candidate → Action AssignmentResult
unfolding assign_chosen price
assign_best supports id t open_to now best s = elim (price s.config t best.captain) [
  | err e ↦ (err e, s)
  | ok share ↦ assign_chosen supports id best.id t.amount share open_to now s
]

-- `assignCaptain`
unfoldable pub assign_captain : Bool → (ℕ → CaptainWorkload) → ℕ → ℕ → Action AssignmentResult
unfolding load assign_best eligible placeable
assign_captain supports workloads id now s =
    let (r, s') = load id s in
    elim r [
      | err e ↦ (err e, s')
      | ok t ↦
          if not (same t.status created)
          then (ok (outcome t t.captain_id false false), s')
          else let open_to = placeable t s'.captains in
            elim (best_of (eligible t workloads s'.captains)) [
              | none ↦ (ok (outcome t none (ltb 0 open_to) (open_to == 0)), s')
              | some best ↦ assign_best supports id t open_to now best s'
            ]
    ]
