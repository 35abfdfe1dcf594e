-- ===== src/Tests/Allocations.antt =====
-- Two rows of one owner and one of another (services/dmcAllocation.service.ts), and an assignment
-- to a captain who cannot cover it.
use flitepay.Prelude.{
  ℕ, ◌<◌, ◌≡◌, refl, none, some, true, false, get_or, List, [], ◌∷◌, ◌==◌, filter_by,
}
use flitepay.Prelude.{◌-◌, arith, inl, inr, Bool-cases}
use flitepay.Prelude.Int.{pos, ◌+ℤ◌}
use flitepay.Prelude.Dict.{Dict, lookup, insert}
use flitepay.Errors.{ok}
use flitepay.Allocation.{
  captain, admin, available, Allocation, Slice, candidates, usable, consume_loop, draw_row,
  consume_allocations_fifo, release_allocations, slice_of, group_slices_by_party,
}
use flitepay.Allocation.Release.{open_status, release_allocations-consume}
use flitepay.Allocation.Groups.{group_slices_by_party_lem}
use flitepay.Commission.{CaptainShare}
use flitepay.Machine.Transaction.{assigned, expired}
use flitepay.Store.{Store}
use flitepay.Capacity.{within_current_limit}
use flitepay.Engine.Assign.{assign_body}
use flitepay.Engine.Endings.{end_from}
use flitepay.Engine.Worth.{worth}
use flitepay.Engine.FailedHold.{failed_hold-expires}
use flitepay.Tests.Data.{ravi, waiting, shop_store}

abbrev earned : ℕ → ℕ → Allocation
earned party amount = record {
  owner_type = captain;
  owner_id = 7;
  source_party_id = party;
  customer_id = none;
  task_id = 1;
  task_code = [];
  customer_name = [];
  amount = amount;
  available_amount = amount;
  used_amount = 0;
  status = available;
  created_at = 100 - party;
}

abbrev rows : Dict Allocation
rows = (1, earned 3 100) ∷ (2, record (earned 3 500) { owner_type = admin }) ∷ (4, earned 5 60) ∷ []

-- The second of the captain's rows is the older one, and is drawn from first.
abbrev drawn_slices : List Slice
drawn_slices = slice_of 4 60 (earned 5 60) ∷ slice_of 1 60 (earned 3 100) ∷ []

all_open :
    (j : ℕ) (a : Allocation)
    → lookup j rows ≡ some a
    → 0 < a.available_amount
    → a.status ≡ open_status a
all_open j a found left = elim (Bool-cases (j == 1)) [
  | inl first ↦ ground arith
  | inr later ↦ elim (Bool-cases (j == 2)) [
    | inl second ↦ ground arith
    | inr other ↦ elim (Bool-cases (j == 4)) [
      | inl third ↦ ground arith
      | inr none_left ↦ ground arith
    ]
  ]
]

release_allocations-consume_example :
    (rows'' : Dict Allocation) × (release_allocations drawn_slices
        (consume_allocations_fifo captain 7 120 rows).1
      ≡ (ok tt, rows''))
    × ((j : ℕ) (a : Allocation)
        → lookup j rows ≡ some a
        → (c : Allocation) × (lookup j rows'' ≡ some c)
          × (c.available_amount ≡ a.available_amount)
          × (c.used_amount ≡ a.used_amount)
          × (c.status ≡ a.status))
unfolding consume_allocations_fifo candidates usable consume_loop draw_row insert
release_allocations-consume_example =
    release_allocations-consume captain 7 120 rows {slices = drawn_slices} all_open refl

group_slices_by_party_lem_example :
    let slices = slice_of 1 100 (earned 3 100) ∷ slice_of 4 20 (earned 5 60) ∷ [] in
    get_or (lookup 5 (group_slices_by_party slices)) []
    ≡ filter_by (λ x. x.source_party_id == 5) slices
group_slices_by_party_lem_example =
    group_slices_by_party_lem (slice_of 1 100 (earned 3 100) ∷ slice_of 4 20 (earned 5 60) ∷ []) 5

abbrev poor_store : Store
poor_store = record shop_store { captains = (7, record ravi { dmc_balance = 900 }) ∷ [] }

abbrev share : CaptainShare
share = record {
  captain_paise = 60;
  platform_paise = 40;
  captain_rate = 600000;
  captain_rate_agreed = 600000;
  capped = false;
}

failed_hold-expires_example :
    worth
      (end_from true 5 assigned expired [] none 9 (assign_body 5 7 10000 share 8 poor_store).1).1
    ≡ worth poor_store +ℤ pos 10000
unfolding within_current_limit
failed_hold-expires_example =
    failed_hold-expires true 5 7 share [] none 8 9 poor_store {t = waiting}
      {c = record ravi { dmc_balance = 900 }} refl refl refl refl
