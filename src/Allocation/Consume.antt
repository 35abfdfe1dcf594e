-- ===== src/Allocation/Consume.antt =====
-- Consumption (`consumeAllocationsFifo` of server/src/services/dmcAllocation.service.ts): the rows
-- of an owner by age, and what is drawn from each.
use Prim.Native.Nat.{min}
use flitepay.Prelude.{
  ℕ, ◌-◌, ◌≡◌, ◌⊎◌, true, false, some, List, [], ◌∷◌, if◌then◌else◌, ◌==◌, sum_by, All, includes,
  map,
}
use flitepay.Prelude.Dict.{Dict, lookup}
use flitepay.Allocation.{Allocation, settled, partially_used, Slice}

abbrev pub slices_total : List Slice → ℕ
slices_total = sum_by λ x. x.amount

abbrev age : ℕ × Allocation → ℕ
age e = e.1.created_at

-- No id stands twice.
abbrev pub Distinct : Dict Allocation → Type 0
Distinct [] = Unit {0}
Distinct (e ∷ rows) = (includes ◌==◌ (map (λ x. x.0) rows) e.0 ≡ false) × Distinct rows

-- The rows that were found are in the collection as they were found.
abbrev Found : Dict Allocation → Dict Allocation → Type 0
Found found rows = All (λ e. lookup e.0 rows ≡ some e.1) found

-- The plan of a draw from the rows in their order: which row gives what, leaving out rows that
-- have nothing.
abbrev pub plan : ℕ → Dict Allocation → List (ℕ × ℕ)
plan amount [] = []
plan amount ((id, a) ∷ rest) = elim (amount == 0) [
  | true ↦ []
  | false ↦ elim (a.available_amount == 0) [
    | true ↦ plan amount rest
    | false ↦
        (id, min amount a.available_amount) ∷ plan (amount - min amount a.available_amount) rest
  ]
]

abbrev pub amounts : List Slice → List (ℕ × ℕ)
amounts = map λ x. (x.allocation_id, x.amount)

-- A row is as it was, or it is drawn from and says whether it is used up.
abbrev pub IsMarked : Dict Allocation → ℕ → Allocation → Type 0
IsMarked rows j b =
    (lookup j rows ≡ some b)
    ⊎ (b.status ≡ (if b.available_amount == 0 then settled else partially_used))
