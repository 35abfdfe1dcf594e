-- ===== src/Tests/Payments.antt =====
-- Lives of a confirmed and of a waiting pay-in (services/transaction.service.ts).
use flitepay.Prelude.{
  ℕ, ◌+◌, ◌-◌, ◌≡◌, ◌⊎◌, refl, sym, subst, arith, none, some, true, false, [], ◌∷◌, trim, ◌==◌,
  Bool-cases, inl, inr,
}
use flitepay.Prelude.Int.{pos, ◌+ℤ◌, ◌-ℤ◌}
use flitepay.Prelude.Dict.{lookup}
use flitepay.Errors.{ok}
use flitepay.Money.{percent_of_paise}
use flitepay.Money.Double.{double_of, double_mul, double_div, math_round}
use flitepay.Engine.Endings.{overdue_rows}
use flitepay.Prelude.{length, All, ◌≤◌}
use flitepay.Commission.{commission_for, party_rate_for, captain_rate_for}
use flitepay.Machine.Transaction.{
  created, assigned, awaiting_customer, confirmed, settled, expired, can_transition, is_terminal,
  holds_funds,
}
use flitepay.Pool.Laws.{pool_of}
use flitepay.Store.{Transaction, Store}
use flitepay.Engine.{settle, settle_from}
use flitepay.Engine.Endings.{end_from, expire_all, overdue}
use flitepay.Engine.Create.{
  CreateInput, create_pay_in, create_after, create_row, quote, existing_for,
}
use flitepay.Engine.Worth.{worth, IsBacked, IsSound}
use flitepay.Engine.Rows.{SameDeal}
use flitepay.Engine.Steps.{Run, start, then_step, settles, expires, Run-conserves}
use flitepay.Engine.History.{IsRecorded, opened, grew, Run-history, Run-keeps_deal, Run-terminal}
use flitepay.Engine.Outcomes.{settle_once}
use flitepay.Engine.Payment.{settle_pays}
use flitepay.Engine.Idempotence.{create_pay_in_twice}
use flitepay.Engine.Sweep.{expire_all_others, expire_all-overdue}
use flitepay.Tests.Data.{ravi, shop, waiting, paid_for, shop_store, step_of}

abbrev after_settle : Store
after_settle = (settle_from true 4 confirmed none 9 shop_store).1

settling : Run true shop_store after_settle
settling = then_step shop_store after_settle start (settles 4 confirmed none 9)

row_cases :
    (id : ℕ) (t : Transaction)
    → lookup id shop_store.transactions ≡ some t
    → (t ≡ paid_for) ⊎ (t ≡ waiting)
row_cases id t e = elim (Bool-cases (id == 4)) [
  | inl four ↦ inl (ground arith)
  | inr not_four ↦ elim (Bool-cases (id == 5)) [
    | inl five ↦ inr (ground arith)
    | inr not_five ↦
        let gone : lookup id shop_store.transactions ≡ none = rw (not_four, not_five) refl in
        absurd (cc)
  ]
]

shop_store-IsSound : IsSound shop_store
unfolding holds_funds
shop_store-IsSound id t e = elim (row_cases id t e) [
  | inl first ↦ subst (IsBacked shop_store) (sym first) (refl, omega arith, λ _. refl)
  | inr second ↦ subst (IsBacked shop_store) (sym second) (refl, omega arith, λ h. absurd (cc))
]

Run-conserves_example : (worth after_settle ≡ worth shop_store) × IsSound after_settle
Run-conserves_example = Run-conserves true shop_store after_settle settling shop_store-IsSound

waiting-IsRecorded : IsRecorded waiting
waiting-IsRecorded = opened (step_of none created 0) refl refl

paid_for-IsRecorded : IsRecorded paid_for
unfolding can_transition
paid_for-IsRecorded =
    grew awaiting_customer confirmed (step_of (some awaiting_customer) confirmed 3) _
      (grew assigned awaiting_customer (step_of (some assigned) awaiting_customer 2) _
        (grew created assigned (step_of (some created) assigned 1) _ waiting-IsRecorded refl refl
          refl)
        refl refl refl)
      refl refl refl

shop_store-IsRecorded :
    (id : ℕ) (a : Transaction) → lookup id shop_store.transactions ≡ some a → IsRecorded a
shop_store-IsRecorded id t e = elim (row_cases id t e) [
  | inl first ↦ subst IsRecorded (sym first) paid_for-IsRecorded
  | inr second ↦ subst IsRecorded (sym second) waiting-IsRecorded
]

Run-keeps_deal_example :
    (b : Transaction) × (lookup 4 after_settle.transactions ≡ some b) × SameDeal paid_for b
Run-keeps_deal_example = Run-keeps_deal true shop_store after_settle settling 4 paid_for refl

Run-history_example : IsRecorded Run-keeps_deal_example.0
Run-history_example =
    Run-history true shop_store after_settle settling shop_store-IsRecorded 4
      Run-keeps_deal_example.0 Run-keeps_deal_example.1

abbrev lapsed : Transaction
lapsed = record waiting { status = expired }

abbrev lapsed_store : Store
lapsed_store = record shop_store { transactions = (6, lapsed) ∷ [] }

abbrev after_late : Store
after_late = (end_from true 6 expired expired [] none 9 lapsed_store).1

Run-terminal_example :
    (b : Transaction) × (lookup 6 after_late.transactions ≡ some b)
    × (b.status ≡ expired)
    × (b.state_history ≡ lapsed.state_history)
unfolding is_terminal
Run-terminal_example =
    Run-terminal true lapsed_store after_late
      (then_step lapsed_store after_late start (expires 6 expired [] none 9)) 6 lapsed refl refl

settle_pays_example :
    let (r, s') = settle true 4 none 9 shop_store in
    ((v : Transaction) × (r ≡ ok v) × (v.status ≡ settled) × (v.commission_paid ≡ true))
    × (lookup 1 s'.parties ≡ some (record shop { dmc_balance = pos 0 +ℤ (pos 10000 -ℤ pos 100) }))
    × (lookup 7 s'.captains
        ≡ some (record ravi { dmc_balance = 90000 + 60; commission_earned_total = 400 + 60 }))
    × (pool_of s' ≡ pool_of shop_store + 100 - 60)
settle_pays_example =
    settle_pays true 4 none 9 shop_store {t = paid_for} {p = shop} {c = ravi} {captain_id = 7} refl
      refl refl refl (omega arith) (omega arith) (omega arith) (omega arith) refl

settle_once_example :
    let s' = (settle true 4 none 9 shop_store).1 in
    (b : Transaction) × (b.status ≡ settled)
    × (lookup 4 s'.transactions ≡ some b)
    × (settle true 4 (some 2) 12 s' ≡ (ok b, s'))
settle_once_example = settle_once true 4 none (some 2) 9 12 shop_store settle_pays_example.0.1

abbrev order : CreateInput
order = record {
  party_reference = some (66 ∷ []);
  amount = 20000;
  callback_url = none;
  created_by_key_id = none;
}

abbrev ordered : Store
ordered = (create_pay_in 8 1 order 0 shop_store).1

create_pay_in_twice_example : create_pay_in 9 1 order 50 ordered ≡ (ok (8, false), ordered)
unfolding create_pay_in create_after create_row existing_for quote commission_for party_rate_for
    captain_rate_for percent_of_paise math_round double_of double_mul double_div trim
create_pay_in_twice_example =
    create_pay_in_twice 8 9 1 order order 0 50 shop_store {reference = 66 ∷ []} {id = 8}
      {made = true} refl (omega arith) refl (omega arith) refl refl

expire_all_others_example :
    lookup 4 (expire_all true [] 900000 (5 ∷ []) 0 shop_store).1.transactions
    ≡ lookup 4 shop_store.transactions
expire_all_others_example = expire_all_others true [] 900000 (5 ∷ []) 0 shop_store 4 refl

expire_all-overdue_example :
    let rows = shop_store.transactions in
    let s' = (expire_all true [] 900000 (overdue 900000 100 rows) 0 shop_store).1 in
    ((b : Transaction) × (lookup 5 s'.transactions ≡ some b) × (b.status ≡ expired))
    ⊎ ((length (overdue_rows 900000 100 rows) ≡ 100)
        × All (λ e. e.1.expires_at ≤ waiting.expires_at) (overdue_rows 900000 100 rows))
expire_all-overdue_example =
    expire_all-overdue true [] 900000 100 shop_store 5 {a = waiting} refl refl
