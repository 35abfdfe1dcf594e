-- ===== src/Allocation.antt =====
-- server/src/services/dmcAllocation.service.ts: the rows behind a balance, consumed oldest first.
-- The version check of `save` is left out.
pub mod Consume
pub mod Release
pub mod Groups
use Prim.Native.Nat.{min}
use flitepay.Prelude.{
  ℕ, ◌+◌, ◌-◌, Bool, true, false, not, ◌&&◌, Option, none, some, List, [], ◌∷◌, Text, ltb, leb,
  ◌==◌, if◌then◌else◌, sum_by, ◌++◌,
}
use flitepay.Prelude.Dict.{Dict, lookup, insert}
use flitepay.Prelude.Sorting.{sort_by}
use flitepay.Errors.{
  Result, ok, err, conflict, unprocessable, internal, insufficient_available_balance, conflict_code,
}

pub data OwnerType : Type 0 where
  party captain admin : OwnerType

pub data AllocationStatus : Type 0 where
  available partially_used settled void : AllocationStatus

pub record Allocation : Type 0 where
  pub owner_type : OwnerType
  pub owner_id : ℕ
  pub source_party_id : ℕ
  pub customer_id : Option ℕ
  pub task_id : ℕ
  pub task_code : Text
  pub customer_name : Text
  pub amount : ℕ
  pub available_amount : ℕ
  pub used_amount : ℕ
  pub status : AllocationStatus
  pub created_at : ℕ

pub record Slice : Type 0 where
  pub allocation_id : ℕ
  pub amount : ℕ
  pub source_party_id : ℕ
  pub customer_id : Option ℕ
  pub task_id : ℕ
  pub task_code : Text
  pub customer_name : Text

abbrev same_owner : OwnerType → OwnerType → Bool
same_owner party party = true
same_owner captain captain = true
same_owner admin admin = true
same_owner _ _ = false

abbrev is_settled : AllocationStatus → Bool
is_settled settled = true
is_settled _ = false

-- `createAllocation`
unfoldable pub create_allocation :
    ℕ → OwnerType → ℕ → ℕ → Option ℕ → ℕ → Text → Text → ℕ → ℕ → Dict Allocation → Dict Allocation
create_allocation new_id owner_type owner_id source customer task code name amount now rows =
    insert new_id
      (record {
        owner_type = owner_type;
        owner_id = owner_id;
        source_party_id = source;
        customer_id = customer;
        task_id = task;
        task_code = code;
        customer_name = name;
        amount = amount;
        available_amount = amount;
        used_amount = 0;
        status = available;
        created_at = now;
      })
      rows

-- The filter of the query of `consumeAllocationsFifo`: VOID rows are not left out.
unfoldable pub usable : OwnerType → ℕ → Dict Allocation → Dict Allocation
usable owner_type owner_id [] = []
usable owner_type owner_id ((id, a) ∷ rows) =
    let rest = usable owner_type owner_id rows in
    if same_owner a.owner_type owner_type && a.owner_id == owner_id && not (is_settled a.status)
    then (id, a) ∷ rest
    else rest

-- That query, sorted by `createdAt`.
unfoldable pub candidates : OwnerType → ℕ → Dict Allocation → Dict Allocation
unfolding usable
candidates owner_type owner_id rows =
    sort_by (λ e. e.1.created_at) (usable owner_type owner_id rows)

abbrev pub available_of : Dict Allocation → ℕ
available_of = sum_by λ e. e.1.available_amount

-- What a draw leaves of a row, its status included.
abbrev pub drawn : ℕ → Allocation → Allocation
drawn draw a = record a {
  available_amount = a.available_amount - draw;
  used_amount = a.used_amount + draw;
  status = if a.available_amount - draw == 0 then settled else partially_used;
}

-- The conditional update: `none` when another consumer has drawn in between.
unfoldable pub draw_row : ℕ → ℕ → Dict Allocation → Option (Dict Allocation)
draw_row id draw rows = elim (lookup id rows) [
  | none ↦ none
  | some a ↦ if leb draw a.available_amount then some (insert id (drawn draw a) rows) else none
]

abbrev pub slice_of : ℕ → ℕ → Allocation → Slice
slice_of id draw a = record {
  allocation_id = id;
  amount = draw;
  source_party_id = a.source_party_id;
  customer_id = a.customer_id;
  task_id = a.task_id;
  task_code = a.task_code;
  customer_name = a.customer_name;
}

abbrev pub push :
    Slice → Result (List Slice) × Dict Allocation → Result (List Slice) × Dict Allocation
push slice (ok slices, rows) = (ok (slice ∷ slices), rows)
push slice (err e, rows) = (err e, rows)

-- The loop of `consumeAllocationsFifo`.
unfoldable pub consume_loop :
    ℕ → Dict Allocation → Dict Allocation → Result (List Slice) × Dict Allocation
consume_loop remaining [] rows = (ok [], rows)
consume_loop remaining ((id, a) ∷ rest) rows = elim (remaining == 0) [
  | true ↦ (ok [], rows)
  | false ↦ elim (a.available_amount == 0) [
    | true ↦ consume_loop remaining rest rows
    | false ↦
        let draw = min remaining a.available_amount in
        elim (draw_row id draw rows) [
          | none ↦ (err (conflict conflict_code), rows)
          | some rows' ↦ push (slice_of id draw a) (consume_loop (remaining - draw) rest rows')
        ]
  ]
]

-- `consumeAllocationsFifo`
unfoldable pub consume_allocations_fifo :
    OwnerType → ℕ → ℕ → Dict Allocation → Result (List Slice) × Dict Allocation
unfolding consume_loop candidates usable
consume_allocations_fifo owner_type owner_id amount rows =
    let found = candidates owner_type owner_id rows in
    if ltb (available_of found) amount
    then (err (unprocessable insufficient_available_balance), rows)
    else consume_loop amount found rows

-- What `releaseAllocations` leaves of a row.
abbrev pub returned : ℕ → Allocation → Allocation
returned amount a = record a {
  available_amount = a.available_amount + amount;
  used_amount = a.used_amount - amount;
  status = if a.used_amount - amount == 0 then available else partially_used;
}

-- `releaseAllocations`. A slice of more than the row has used makes the source's `save` fail its
-- validation, and what its `$inc` has written then is not represented.
unfoldable pub release_allocations :
    List Slice → Dict Allocation → Result (Unit {0}) × Dict Allocation
release_allocations [] rows = (ok tt, rows)
release_allocations (slice ∷ slices) rows = elim (lookup slice.allocation_id rows) [
  | none ↦ release_allocations slices rows
  | some a ↦ elim (leb slice.amount a.used_amount) [
    | true ↦ release_allocations slices (insert slice.allocation_id (returned slice.amount a) rows)
    | false ↦ (err internal, rows)
  ]
]

-- The body of the loop of `groupSlicesByParty`: a `Map` keeps its keys in the order in which they
-- came.
unfoldable pub add_to_group : Slice → Dict (List Slice) → Dict (List Slice)
add_to_group slice [] = (slice.source_party_id, slice ∷ []) ∷ []
add_to_group slice ((key, existing) ∷ groups) =
    if key == slice.source_party_id
    then (key, existing ++ slice ∷ []) ∷ groups
    else (key, existing) ∷ add_to_group slice groups

unfoldable pub group_into : List Slice → Dict (List Slice) → Dict (List Slice)
group_into [] groups = groups
group_into (slice ∷ slices) groups = group_into slices (add_to_group slice groups)

-- `groupSlicesByParty`
unfoldable pub group_slices_by_party : List Slice → Dict (List Slice)
unfolding group_into add_to_group
group_slices_by_party slices = group_into slices []
