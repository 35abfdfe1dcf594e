-- ===== src/Workflow/Money.antt =====
-- The money steps of a pay-out, one lemma each: that they succeed, and what they add to and take
-- from the DMC in circulation.
use flitepay.Prelude.{
  ℕ, ◌+◌, ◌≤◌, ◌≡◌, inl, inr, refl, subst, Bool, true, false, some, List, ◌∷◌, arith, ◌==◌, ltb,
  is_some, Bool-cases, Option-cases,
}
use flitepay.Prelude.Int.{ℤ, pos, ◌+ℤ◌, ◌-ℤ◌, int_laws}
use flitepay.Prelude.Dict.{Dict, lookup, insert}
use flitepay.Money.{max_paise}
use flitepay.Allocation.{Allocation}
use flitepay.Store.{Captain, Record, Store}
use flitepay.Store.Tasks.{Task, Proof, TaskOffer, CommissionEntry}
use flitepay.Pool.Laws.{pool_of, funded_of, with_pool, pool_credits}
use flitepay.Balance.Commission.{entry_of, pay_commission_to_captain_lem}
use flitepay.Routing.Rating.{rated, record_outcome}
use flitepay.Engine.Worth.{Shift-captain, Shift-party, Keeps-refl, insert_keeps, worth-rows}
use flitepay.Engine.Money.{Shift-level, some_of, with_pool-Moved, paid_store, paid-Moved}
use flitepay.Workflow.{add_to_balance, release_payout_hold, charge}
use flitepay.Workflow.Completion.{collect_charge, pay_share}
use flitepay.Workflow.Cancelling.{refund_party_for_cancelled_task}
use flitepay.Workflow.Flow.{Flow, Flow-Moved, Flow-refl, Does}

-- A captain's document with another balance.
pub captain-Flow :
    (c : ℕ) (cap d : Captain) (s : Store) (g l : ℕ)
    → lookup c s.captains ≡ some cap
    → d.dmc_balance + l ≡ g + cap.dmc_balance
    → Flow s (record s { captains = insert c d s.captains }) g l
captain-Flow c cap d s g l found level =
    Flow-Moved s (record s { captains = insert c d s.captains }) g l
      (
        Shift-level _ _ _ _ g l (Shift-captain c cap d s found) level,
        (insert_keeps c d s.captains, λ id h. h),
        refl,
        refl,
      )

pub add_to_balance-Does :
    (c amount : ℕ) (s : Store)
    → is_some (lookup c s.captains) ≡ true
    → Does (add_to_balance c amount) s amount 0
unfolding add_to_balance
add_to_balance-Does c amount s there =
    let (cap, found) = some_of (lookup c s.captains) there in
    let d = record cap { dmc_balance = cap.dmc_balance + amount } in
    (
      tt,
      record s { captains = insert c d s.captains },
      ground arith,
      captain-Flow c cap d s amount 0 found (omega arith),
    )

pub release_payout_hold-Does :
    (c amount : ℕ) (s : Store)
    → is_some (lookup c s.captains) ≡ true
    → Does (release_payout_hold c amount) s amount 0
unfolding release_payout_hold
release_payout_hold-Does c amount s there = elim (Bool-cases (amount == 0)) [
  | inl nothing ↦
      let zero_amount : amount ≡ 0 = ground arith in
      (tt, s, ground arith, rw zero_amount (Flow-refl s))
  | inr something ↦
      let (a, t, e, f) = add_to_balance-Does c amount s there in (a, t, ground arith, f)
]

-- A captain's rating is not money.
pub record_outcome-Does :
    (c : ℕ) (deltas : Record → Record) (s : Store) → Does (record_outcome c deltas) s 0 0
unfolding record_outcome
record_outcome-Does c deltas s = elim (Option-cases (lookup c s.captains)) [
  | inl missing ↦ (tt, s, ground arith, Flow-refl s)
  | inr (cap, found) ↦
      let d = rated deltas cap in
      (
        tt,
        record s { captains = insert c d s.captains },
        ground arith,
        captain-Flow c cap d s 0 0 found (omega arith),
      )
]

pub refund_party_for_cancelled_task-Does :
    (task : Task) (s : Store)
    → is_some (lookup task.party_id s.parties) ≡ true
    → Does (refund_party_for_cancelled_task task) s (task.amount + charge task) 0
unfolding refund_party_for_cancelled_task
refund_party_for_cancelled_task-Does task s there =
    let (p, found) = some_of (lookup task.party_id s.parties) there in
    let g = task.amount + charge task in
    let credited : ℤ → Store =
      λ b. record s { parties = insert task.party_id (record p { dmc_balance = b }) s.parties } in
    let b = p.dmc_balance +ℤ (pos g -ℤ pos 0) in
    let same_balance : b ≡ p.dmc_balance +ℤ pos g = omega int_laws in
    let flow : Flow s (credited b) g 0 = Flow-Moved s (credited b) g 0 (
      Shift-party task.party_id g 0 p s found,
      (λ id h. h, insert_keeps task.party_id (record p { dmc_balance = b }) s.parties),
      refl,
      refl,
    ) in
    (
      tt,
      credited (p.dmc_balance +ℤ pos g),
      ground arith,
      subst (λ x. Flow s (credited x) g 0) same_balance flow,
    )

pub collect_charge-Does :
    (amount : ℕ) (s : Store) → amount ≤ max_paise → Does (collect_charge amount) s amount 0
unfolding collect_charge
collect_charge-Does amount s safe = elim (pool_credits amount s) [
  | inl (positive, _, collected, _) ↦
      let m = with_pool-Moved (pool_of s + amount) (funded_of s) s in
      (
        tt,
        with_pool (pool_of s + amount) (funded_of s) s,
        ground arith,
        Flow-Moved _ _ amount 0 (Shift-level _ _ _ _ amount 0 m.0 (omega arith), m.1, m.2, m.3),
      )
  | inr (refused, _, _) ↦
      let zero_amount : amount ≡ 0 = omega arith in
      (tt, s, ground arith, rw zero_amount (Flow-refl s))
]

pub pay_share-Does :
    (session : Bool) (id c amount : ℕ) (s : Store)
    → is_some (lookup c s.captains) ≡ true
    → Does (pay_share session id c amount) s 0 0
unfolding pay_share
pay_share-Does session id c amount s there =
    let (cap, found) = some_of (lookup c s.captains) there in
    elim (Bool-cases (ltb 0 amount)) [
      | inr free ↦ (true, s, ground arith, Flow-refl s)
      | inl owed ↦
          elim (pay_commission_to_captain_lem c amount session (some id) s (ground arith) found) [
            | inl (covered, done) ↦
                let es = entry_of c amount (some id) cap ∷ s.wallet_entries in
                (
                  true,
                  paid_store c amount cap es s,
                  ground arith,
                  Flow-Moved _ _ 0 0 (paid-Moved c amount cap s es covered found),
                )
            | inr (short, kept) ↦ (false, s, ground arith, Flow-refl s)
          ]
    ]

-- Rows that hold no money.
pub rows-Flow :
    (s : Store) (ps : List Proof) (os : List TaskOffer) (cs : Dict CommissionEntry)
    (rows : Dict Allocation)
    → Flow s (record s { proofs = ps; offers = os; commissions = cs; allocations = rows }) 0 0
rows-Flow s ps os cs rows =
    Flow-Moved s (record s { proofs = ps; offers = os; commissions = cs; allocations = rows }) 0 0
      (rw (worth-rows s ps os cs rows) refl, Keeps-refl s, refl, refl)
