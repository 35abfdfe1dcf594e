-- ===== src/Allocation/Release.antt =====
-- Releasing what a consumption drew puts every row's figures back.
use Prim.Native.Nat.{min}
use flitepay.Prelude.{
  ℕ, ◌+◌, ◌-◌, ◌≤◌, ◌<◌, ◌≡◌, ◌∙◌, Bool, true, ◌||◌, ◌⊎◌, inl, inr, refl, sym, ap, false, none,
  some, List, [], ◌∷◌, arith, ltb, leb, ◌==◌, if◌then◌else◌, Bool-cases, Option-cases,
}
use flitepay.Prelude.Dict.{Dict, lookup, insert, lookup-insert}
use flitepay.Errors.{AppError, Result, ok, err}
use flitepay.Allocation.{
  OwnerType, AllocationStatus, available, partially_used, Allocation, Slice, candidates,
  available_of, drawn, draw_row, slice_of, returned, consume_loop, consume_allocations_fifo,
  release_allocations,
}

-- What slices have drawn from one row.
abbrev drawn_from : ℕ → List Slice → ℕ
drawn_from id [] = 0
drawn_from id (x ∷ slices) = (if id == x.allocation_id then x.amount else 0) + drawn_from id slices

-- Whether one of the slices is of the row.
abbrev is_named : ℕ → List Slice → Bool
is_named id [] = false
is_named id (x ∷ slices) = id == x.allocation_id || is_named id slices

drawn_from-unnamed :
    (id : ℕ) (slices : List Slice) → is_named id slices ≡ false → drawn_from id slices ≡ 0
drawn_from-unnamed id [] h = refl
drawn_from-unnamed id (x ∷ slices) h = ground (arith, drawn_from-unnamed id slices)

-- The status of a row that is not used up, by what is used of it.
abbrev pub open_status : Allocation → AllocationStatus
open_status a = if a.used_amount == 0 then available else partially_used

-- Only a row with something available is drawn from, and another keeps its status.
abbrev Marks : ℕ → List Slice → Allocation → Allocation → Type 0
Marks id slices a b =
    (is_named id slices ≡ true → 0 < a.available_amount)
    × (is_named id slices ≡ false → b.status ≡ a.status)

-- `b` is `a` with `d` of its available amount used.
abbrev Drawn : ℕ → Allocation → Allocation → Type 0
Drawn d a b = (b.available_amount + d ≡ a.available_amount) × (b.used_amount ≡ a.used_amount + d)

draw_cases :
    (id draw : ℕ) (rows : Dict Allocation)
    → (draw_row id draw rows ≡ none)
      ⊎ ((c : Allocation) × (lookup id rows ≡ some c)
          × (draw ≤ c.available_amount)
          × (draw_row id draw rows ≡ some (insert id (drawn draw c) rows)))
unfolding draw_row
draw_cases id draw rows = elim (Option-cases (lookup id rows)) [
  | inl missing ↦ inl (ground arith)
  | inr (c, found) ↦ elim (Bool-cases (leb draw c.available_amount)) [
    | inl covered ↦ inr (c, found, ground arith, ground arith)
    | inr short ↦ inl (ground arith)
  ]
]

loop_cases :
    (x : Result (List Slice) × Dict Allocation)
    → ((e : AppError) × (rows : Dict Allocation) × (x ≡ (err e, rows)))
      ⊎ ((slices : List Slice) × (rows : Dict Allocation) × (x ≡ (ok slices, rows)))
loop_cases (ok slices, rows) = inr (slices, rows, refl)
loop_cases (err e, rows) = inl (e, rows, refl)

-- What a loop that ends with `slices` has drawn from the row of `j`.
abbrev Effect : ℕ → Dict Allocation → List Slice → Dict Allocation → Type 0
Effect j rows slices rows' =
    ((a : Allocation)
      → lookup j rows ≡ some a
      → (b : Allocation) × (lookup j rows' ≡ some b)
        × Drawn (drawn_from j slices) a b
        × Marks j slices a b)
    × (lookup j rows ≡ none → lookup j rows' ≡ none)

stopped :
    (rows rows' : Dict Allocation) (slices : List Slice) (j : ℕ)
    → ◌≡◌ {A = Result (List Slice) × Dict Allocation} (ok [], rows) (ok slices, rows')
    → Effect j rows slices rows'
stopped rows rows' slices j e =
    let none_drawn : slices ≡ [] = cc in
    let same_rows : rows' ≡ rows =
      ap (λ (x : Result (List Slice) × Dict Allocation). x.1) (sym e) in
    (
      λ a h. (
        a,
        rw same_rows h,
        (rw none_drawn (omega arith), rw none_drawn (omega arith)),
        (rw none_drawn (λ k. cc), rw none_drawn (λ k. refl)),
      ),
      λ h. rw same_rows h,
    )

elsewhere :
    (there gone : ℕ) (rows : Dict Allocation) (b : Allocation)
    → lookup there rows ≡ some b
    → lookup gone rows ≡ none
    → (gone == there) ≡ false
elsewhere there gone rows b h missing = ground arith

elsewhere_of :
    (there gone : ℕ) (rows : Dict Allocation) (b : Allocation)
    → lookup there rows ≡ some b
    → lookup gone rows ≡ none
    → (there == gone) ≡ false
elsewhere_of there gone rows b h missing = ground arith

drawn_step :
    (id draw j : ℕ) (c c0 : Allocation) (rows rows' : Dict Allocation) (slices : List Slice)
    → lookup id rows ≡ some c0
    → 0 < draw
    → draw ≤ c0.available_amount
    → Effect j (insert id (drawn draw c0) rows) slices rows'
    → Effect j rows (slice_of id draw c ∷ slices) rows'
drawn_step id draw j c c0 rows rows' slices found some_draw covered ih = (drew, none_left)
  where
    drew :
        (a : Allocation)
        → lookup j rows ≡ some a
        → (b : Allocation) × (lookup j rows' ≡ some b)
          × Drawn (drawn_from j (slice_of id draw c ∷ slices)) a b
          × Marks j (slice_of id draw c ∷ slices) a b
    drew a h = elim (Bool-cases (j == id)) [
      | inl here ↦
          let same_row : a ≡ c0 = ground arith in
          let (b, at, (less, more), _) =
            ih.0 (drawn draw c0) (ground (arith, lookup-insert j id (drawn draw c0) rows)) in
          (
            b,
            at,
            (rw (here, same_row) (omega arith), rw (here, same_row) (omega arith)),
            (rw same_row (λ _. omega arith), rw here (λ k. cc)),
          )
      | inr other ↦
          let (b, at, (less, more), (marked, kept)) =
            ih.0 a (ground (arith, lookup-insert j id (drawn draw c0) rows)) in
          (
            b,
            at,
            (rw other (omega arith), rw other (omega arith)),
            (rw other marked, rw other kept),
          )
    ]

    none_left : lookup j rows ≡ none → lookup j rows' ≡ none
    none_left missing =
        let other : (j == id) ≡ false = elsewhere id j rows c0 found missing in
        ih.1 (ground (arith, lookup-insert j id (drawn draw c0) rows))

loop_draws :
    (amount : ℕ) (found rows rows' : Dict Allocation) (slices : List Slice) (j : ℕ)
    → consume_loop amount found rows ≡ (ok slices, rows')
    → Effect j rows slices rows'
unfolding consume_loop
loop_draws amount [] rows rows' slices j e = stopped rows rows' slices j e
loop_draws amount ((id, c) ∷ rest) rows rows' slices j e = elim (Bool-cases (amount == 0)) [
  | inl nothing ↦ stopped rows rows' slices j (ground arith)
  | inr something ↦ elim (Bool-cases (c.available_amount == 0)) [
    | inl empty ↦ loop_draws amount rest rows rows' slices j (ground arith)
    | inr full ↦
        let draw = min amount c.available_amount in
        elim (draw_cases id draw rows) [
          | inl lost ↦ absurd (ground arith)
          | inr (c0, found, covered, drew) ↦
              let rows1 = insert id (drawn draw c0) rows in
              elim (loop_cases (consume_loop (amount - draw) rest rows1)) [
                | inl (x, r, failed) ↦ absurd (ground arith)
                | inr (more, r, done) ↦
                    let whole : ◌≡◌ {A = Result (List Slice) × Dict Allocation}
                        (ok (slice_of id draw c ∷ more), r) (ok slices, rows') =
                      ground arith in
                    let slices_eq : slices ≡ slice_of id draw c ∷ more = cc in
                    let rows_eq : rows' ≡ r =
                      ap (λ (x : Result (List Slice) × Dict Allocation). x.1) (sym whole) in
                    rw (slices_eq, rows_eq)
                      (drawn_step id draw j c c0 rows r more found (ground arith) covered
                        (loop_draws (amount - draw) rest rows1 r more j done))
              ]
        ]
  ]
]

-- A row that is released is open again, and another keeps its status.
abbrev Reopens : ℕ → List Slice → Allocation → Allocation → Type 0
Reopens id slices b c =
    (is_named id slices ≡ true → c.status ≡ open_status c)
    × (is_named id slices ≡ false → c.status ≡ b.status)

reopened :
    (id amount : ℕ) (slices : List Slice) (a c : Allocation)
    → Drawn (drawn_from id slices) c (returned amount a)
    → Reopens id slices (returned amount a) c
    → c.status ≡ open_status c
reopened id amount slices a c (less, more) (open_again, kept) =
    elim (Bool-cases (is_named id slices)) [
      | inl named ↦ open_again named
      | inr unnamed ↦
          let same_use : c.used_amount ≡ a.used_amount - amount =
            omega (arith, more, drawn_from-unnamed id slices unnamed) in
          kept unnamed ∙ rw same_use refl
    ]

release_returns :
    (slices : List Slice) (rows : Dict Allocation)
    → ((i : ℕ) (b : Allocation) → lookup i rows ≡ some b → drawn_from i slices ≤ b.used_amount)
    → (rows' : Dict Allocation) × (release_allocations slices rows ≡ (ok tt, rows'))
      × ((j : ℕ) (b : Allocation)
          → lookup j rows ≡ some b
          → (c : Allocation) × (lookup j rows' ≡ some c)
            × Drawn (drawn_from j slices) c b
            × Reopens j slices b c)
unfolding release_allocations
release_returns [] rows covered =
    (rows, refl, λ j b h. (b, h, (omega arith, omega arith), (λ k. cc, λ k. refl)))
release_returns (x ∷ slices) rows covered = elim (Option-cases (lookup x.allocation_id rows)) [
  | inl missing ↦
      let (rows', e, back) = release_returns slices rows (λ i b h. ground (arith, covered i b h)) in
      (
        rows',
        ground arith,
        λ j b h.
            let other : (j == x.allocation_id) ≡ false =
              elsewhere_of j x.allocation_id rows b h missing in
            let (c, at, (less, more), (open_again, kept)) = back j b h in
            (
              c,
              at,
              (rw other (omega arith), rw other (omega arith)),
              (rw other open_again, rw other kept),
            ),
      )
  | inr (a, found) ↦
      let id = x.allocation_id in
      let rows1 = insert id (returned x.amount a) rows in
      let enough : x.amount ≤ a.used_amount = ground (arith, covered id a found) in
      let (rows', e, back) = release_returns slices rows1 (λ i b h. elim (Bool-cases (i == id)) [
        | inl here ↦
            let same_row : b ≡ returned x.amount a =
              ground (arith, lookup-insert i id (returned x.amount a) rows) in
            let old : lookup i rows ≡ some a = ground arith in
            let bound = covered i a old in rw same_row (ground (arith, bound))
        | inr other ↦
            let old : lookup i rows ≡ some b =
              ground (arith, lookup-insert i id (returned x.amount a) rows) in
            ground (arith, covered i b old)
      ]) in
      (
        rows',
        ground arith,
        λ j b h. elim (Bool-cases (j == id)) [
          | inl here ↦
              let same_row : b ≡ a = ground arith in
              let (c, at, (less, more), marks) =
                back j (returned x.amount a)
                  (ground (arith, lookup-insert j id (returned x.amount a) rows)) in
              (
                c,
                at,
                (rw (here, same_row) (omega arith), rw (here, same_row) (omega arith)),
                (λ _. reopened j x.amount slices a c (less, more) marks, rw here (λ k. cc)),
              )
          | inr other ↦
              let (c, at, (less, more), (open_again, kept)) =
                back j b (ground (arith, lookup-insert j id (returned x.amount a) rows)) in
              (
                c,
                at,
                (rw other (omega arith), rw other (omega arith)),
                (rw other open_again, rw other kept),
              )
        ],
      )
]

gone :
    (rows : Dict Allocation) (i : ℕ) (b : Allocation)
    → lookup i rows ≡ some b
    → lookup i rows ≡ none
    → ⊥
gone rows i b h k = cc

consumed :
    (owner_type : OwnerType) (owner_id amount : ℕ) (rows rows' : Dict Allocation)
    (slices : List Slice) (j : ℕ)
    → consume_allocations_fifo owner_type owner_id amount rows ≡ (ok slices, rows')
    → Effect j rows slices rows'
unfolding consume_allocations_fifo
consumed owner_type owner_id amount rows rows' slices j e =
    let found = candidates owner_type owner_id rows in
    elim (Bool-cases (ltb (available_of found) amount)) [
      | inl short ↦ absurd (ground arith)
      | inr enough ↦ loop_draws amount found rows rows' slices j (ground arith)
    ]

-- Releasing the slices of a consumption succeeds and gives every row the available and the used
-- amount and the status that it had before the consumption, whoever's row it is and whatever the
-- ids are, where every row with something available was AVAILABLE, if nothing of it was used, and
-- PARTIALLY_USED otherwise.
pub release_allocations-consume :
    (owner_type : OwnerType) (owner_id amount : ℕ) (rows : Dict Allocation)
    {rows' : Dict Allocation} {slices : List Slice}
    → ((j : ℕ) (a : Allocation)
        → lookup j rows ≡ some a
        → 0 < a.available_amount
        → a.status ≡ open_status a)
    → consume_allocations_fifo owner_type owner_id amount rows ≡ (ok slices, rows')
    → (rows'' : Dict Allocation) × (release_allocations slices rows' ≡ (ok tt, rows''))
      × ((j : ℕ) (a : Allocation)
          → lookup j rows ≡ some a
          → (c : Allocation) × (lookup j rows'' ≡ some c)
            × (c.available_amount ≡ a.available_amount)
            × (c.used_amount ≡ a.used_amount)
            × (c.status ≡ a.status))
release_allocations-consume owner_type owner_id amount rows {rows'} {slices} fits e =
    let effect = λ (j : ℕ). consumed owner_type owner_id amount rows rows' slices j e in
    let (rows'', released, back) = release_returns slices rows' (λ i b h.
      elim (Option-cases (lookup i rows)) [
        | inl missing ↦ absurd (gone rows' i b h ((effect i).1 missing))
        | inr (a, there) ↦
            let (b', at, (less, more), _) = (effect i).0 a there in
            let same_row : b ≡ b' = ground arith in rw same_row (omega arith)
      ]) in
    (
      rows'',
      released,
      λ j a h.
          let (b, at, (less, more), (marked, kept)) = (effect j).0 a h in
          let (c, found, (less', more'), (open_again, kept')) = back j b at in
          let same_use : c.used_amount ≡ a.used_amount = omega arith in
          (
            c,
            found,
            omega arith,
            same_use,
            elim (Bool-cases (is_named j slices)) [
              | inr unnamed ↦ kept' unnamed ∙ kept unnamed
              | inl named ↦ open_again named ∙ rw same_use (sym (fits j a h (marked named)))
            ],
          ),
    )
