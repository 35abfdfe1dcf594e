-- ===== src/Workflow/Claiming.antt =====
-- A captain takes a pay-out: `claimTask` of server/src/services/task.service.ts, without its Redis
-- lock, which the source does not rely on. What the captain has done today and this month is a
-- query over other collections and an argument.
use flitepay.Prelude.{
  ℕ, ◌+◌, ◌-◌, Bool, true, false, not, ◌&&◌, ◌||◌, Option, none, some, get_or, [], ◌∷◌, ltb, ◌==◌,
  includes, is_some, if◌then◌else◌,
}
use flitepay.Prelude.Dict.{lookup, insert}
use flitepay.Errors.{
  Result, ok, err, AppError, conflict, forbidden, not_found_with, unprocessable, not_found,
  task_already_claimed, task_not_claimable, captain_offline, captain_daily_limit_exceeded,
  captain_monthly_limit_exceeded, insufficient_available_limit,
}
use flitepay.Commission.{RateConfig, pay_out, CaptainShare, captain_rate_for, reprice_captain_share}
use flitepay.Machine.Task.{created, assigned, is_claimable}
use flitepay.Store.{Captain, Action, pure, raise, lift, atomically, raise_if, ◌>>=◌, ◌>>◌}
use flitepay.Store.Tasks.{ActorContext, Task}
use flitepay.Store.Finding.{reads, load_task}
use flitepay.Capacity.{current_limit_paise, within_current_limit, is_active}
use flitepay.Routing.Eligibility.{same_id, unheld}
use flitepay.Routing.Rating.{record_outcome, one_offer_accepted}
use flitepay.Routing.Offers.{add_minutes, no_offer, mark_offer_accepted, withdraw_open_offers}
use flitepay.Workflow.{event, claim_transition, release_payout_hold, charge}

-- What the captain has taken on, and may.
pub record Throughput : Type 0 where
  pub daily : ℕ
  pub monthly : ℕ
  pub daily_cap : ℕ
  pub monthly_cap : ℕ

abbrev pub insufficient_limit_error : AppError
insufficient_limit_error = unprocessable insufficient_available_limit

-- `assertCaptainEligible`
unfoldable pub assert_captain_eligible : ℕ → ℕ → Throughput → Action (Unit {0})
unfolding current_limit_paise
assert_captain_eligible captain_id amount used s = elim (lookup captain_id s.captains) [
  | none ↦ (err (not_found_with not_found), s)
  | some c ↦
      if not (is_active c.status)
      then (err forbidden, s)
      else if not c.is_online
      then (err (unprocessable captain_offline), s)
      else if ltb (current_limit_paise c) amount
      then (err insufficient_limit_error, s)
      else if ltb used.daily_cap (used.daily + amount)
      then (err (unprocessable captain_daily_limit_exceeded), s)
      else if ltb used.monthly_cap (used.monthly + amount)
      then (err (unprocessable captain_monthly_limit_exceeded), s)
      else (ok tt, s)
]

-- `holdForPayout`
unfoldable pub hold_for_payout : ℕ → ℕ → Action Bool
unfolding within_current_limit
hold_for_payout captain_id amount s = elim (lookup captain_id s.captains) [
  | none ↦ (ok false, s)
  | some c ↦
      if is_active c.status && within_current_limit amount c
      then (
        ok true,
        record s {
          captains =
              insert captain_id (record c { dmc_balance = c.dmc_balance - amount }) s.captains;
        },
      )
      else (ok false, s)
]

-- The fields of `compareAndSwapClaim`: the captain, the clock, the end of the offer and the price.
abbrev pub taken_by : ℕ → CaptainShare → ℕ → ℕ → Task → Task
taken_by captain_id share now minutes t = record t {
  captain_id = some captain_id;
  times = record t.times { claimed_at = some now; expires_at = some (add_minutes now minutes) };
  offer = no_offer t.offer;
  price = record t.price {
    commission = some share.captain_paise;
    admin_commission = some share.platform_paise;
    captain_rate = some share.captain_rate;
    captain_rate_agreed = some share.captain_rate_agreed;
  };
}

-- `compareAndSwapClaim`. The history says that the task comes from CREATED, also where it was
-- reassigned.
unfoldable pub compare_and_swap_claim :
    ℕ → ℕ → CaptainShare → ℕ → ActorContext → ℕ → Action (Option Task)
unfolding claim_transition
compare_and_swap_claim id captain_id share minutes actor now =
    claim_transition id unheld assigned (taken_by captain_id share now minutes)
      (record (event created assigned actor none now) { captain_id = some captain_id } ∷ [])

-- A hold that does not fit: `assertFitsTaskLimit` and the error after it. Where the captain is
-- gone, it is not found.
unfoldable pub refuse_hold : ℕ → Action Task
refuse_hold captain_id s = elim (lookup captain_id s.captains) [
  | none ↦ (err (not_found_with not_found), s)
  | some c ↦ (err insufficient_limit_error, s)
]

-- What becomes of a hold whose claim is lost. In a database transaction the error undoes it.
unfoldable pub claim_lost : Bool → ℕ → ℕ → Action Task
claim_lost true captain_id amount = raise (conflict task_already_claimed)
claim_lost false captain_id amount = do
  release_payout_hold captain_id amount
  raise (conflict task_already_claimed)

unfoldable pub after_swap : Bool → ℕ → ℕ → Option Task → Action Task
after_swap supports captain_id amount none = claim_lost supports captain_id amount
after_swap supports captain_id amount (some t) = pure t

-- The claim of the task, once the hold is made or refused.
unfoldable pub after_hold :
    Bool → ℕ → ℕ → ℕ → CaptainShare → ℕ → ActorContext → ℕ → Bool → Action Task
unfolding compare_and_swap_claim
after_hold supports id captain_id amount share minutes actor now false = refuse_hold captain_id
after_hold supports id captain_id amount share minutes actor now true = do
  claimed ← compare_and_swap_claim id captain_id share minutes actor now
  after_swap supports captain_id amount claimed

-- The hold, and the claim of the task.
unfoldable pub claim_body : Bool → ℕ → ℕ → ℕ → CaptainShare → ℕ → ActorContext → ℕ → Action Task
claim_body supports id captain_id amount share minutes actor now = do
  held ← hold_for_payout captain_id amount
  after_hold supports id captain_id amount share minutes actor now held

-- The captain's record of accepted offers, where an offer was open.
unfoldable pub count_accepted : ℕ → Option ℕ → Action (Unit {0})
count_accepted captain_id none = pure tt
count_accepted captain_id (some seconds) = record_outcome captain_id (one_offer_accepted seconds)

-- The end of a claim: the offer is settled and other offers are withdrawn.
unfoldable pub settle_offer : ℕ → ℕ → ℕ → Action (Unit {0})
settle_offer id captain_id now = do
  seconds ← mark_offer_accepted id captain_id now
  count_accepted captain_id seconds
  withdraw_open_offers id (some captain_id) now

-- The captain's share of the charge that is on the row.
unfoldable pub price_claim : RateConfig → Task → Option Captain → Result CaptainShare
unfolding captain_rate_for reprice_captain_share
price_claim config task captain =
    reprice_captain_share (charge task) task.amount
      (captain_rate_for pay_out config (elim captain [ none ↦ none | some c ↦ some c.rates ])
        task.price.captain_rate_agreed)
      (get_or task.price.party_rate 0)

-- `claimTask` once the share is priced.
unfoldable pub claim_at : Bool → ℕ → Task → ℕ → ActorContext → ℕ → CaptainShare → Action Task
unfolding claim_body
claim_at supports id task captain_id actor now share = do
  minutes ←
      reads (λ s. get_or task.clocks.completion_minutes s.clock_config.task_completion_minutes)
  claimed ←
      atomically supports (claim_body supports id captain_id task.amount share minutes actor now)
  settle_offer id captain_id now
  pure claimed

-- `claimTask` after its checks of the task and the captain.
unfoldable pub claim_task_from : Bool → ℕ → Task → ℕ → ActorContext → ℕ → Action Task
unfolding claim_at
claim_task_from supports id task captain_id actor now = do
  priced ← reads (λ s. price_claim s.config task (lookup captain_id s.captains))
  share ← lift priced
  claim_at supports id task captain_id actor now share

abbrev pub still_open : Option ℕ → ℕ → Bool
still_open none now = false
still_open (some until) now = ltb now until

-- The open pool, or an offer to this captain that has not lapsed.
unfoldable pub may_claim : Task → ℕ → ℕ → Bool
may_claim t captain_id now =
    is_some t.offer.open_pool_at
    || (same_id t.offer.offered_captain_id captain_id && still_open t.offer.offer_expires_at now)

-- `claimTask`
unfoldable pub claim_task : Bool → ℕ → ℕ → Throughput → ActorContext → ℕ → Action Task
unfolding may_claim assert_captain_eligible claim_task_from
claim_task supports id captain_id used actor now = do
  task ← load_task id
  raise_if (is_some task.captain_id) (conflict task_already_claimed)
  raise_if (not (is_claimable task.status)) (conflict task_not_claimable)
  raise_if (includes ◌==◌ task.previous_captain_ids captain_id) (conflict task_not_claimable)
  raise_if (not (may_claim task captain_id now)) (conflict task_not_claimable)
  assert_captain_eligible captain_id task.amount used
  claim_task_from supports id task captain_id actor now
