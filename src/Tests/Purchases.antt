-- ===== src/Tests/Purchases.antt =====
-- A captain buys capacity (services/captainLimitPurchase.service.ts).
use flitepay.Prelude.{
  ℕ, ◌≤◌, ◌<◌, ◌≡◌, ◌≢◌, refl, arith, some, true, false, [], ◌∷◌, trim, Bool-cases, inl, inr, ◌==◌,
}
use flitepay.Prelude.Dict.{lookup}
use flitepay.Errors.{ok, err, conflict, withdrawal_already_decided}
use flitepay.Store.{Captain}
use flitepay.Capacity.{is_active}
use flitepay.Purchase.{
  LimitPurchase, pending, approved, Books, draft, enlarge, has_pending, approve_limit_purchase,
  reject_limit_purchase, request_limit_purchase,
}
use flitepay.Purchase.Approval.{approve_limit_purchase_once, request_limit_purchase_ok}
use flitepay.Purchase.Ledger.{IsClean, Explains, start, then_step, approves, Run-Explains}
use flitepay.Tests.Data.{ravi}

abbrev sent : LimitPurchase
sent = record (draft 7 5000 ravi) { status = pending; proof_reference = some (90 ∷ []) }

abbrev books : Books
books = record { captains = (7, ravi) ∷ []; purchases = (1, sent) ∷ [] }

abbrev no_purchases : Books
no_purchases = record { captains = (7, ravi) ∷ []; purchases = [] }

approve_limit_purchase_once_example :
    let b' = (approve_limit_purchase (some 1) 9 3 books).1 in
    ((q : LimitPurchase) × (lookup 1 b'.purchases ≡ some q)
      × (q.status ≡ approved)
      × (q.credited ≡ some 5000))
    × (lookup 7 b'.captains ≡ some (enlarge 5000 ravi))
    × (approve_limit_purchase (some 1) 8 4 b' ≡ (err (conflict withdrawal_already_decided), b'))
    × (reject_limit_purchase (some 1) (some (120 ∷ [])) 8 4 b'
        ≡ (err (conflict withdrawal_already_decided), b'))
unfolding trim
approve_limit_purchase_once_example =
    approve_limit_purchase_once 1 9 3 books {p = sent} {c = ravi} refl refl refl (some (120 ∷ []))
      {why = 120 ∷ []} 8 4 refl

request_limit_purchase_ok_example :
    let b' = (request_limit_purchase 2 7 5000 no_purchases).1 in
    ((c : Captain) × (lookup 7 no_purchases.captains ≡ some c)
      × (0 < 5000)
      × (5000 ≤ c.collateral_balance)
      × (is_active c.status ≡ true))
    × (has_pending 7 no_purchases.purchases ≡ false)
    × (has_pending 7 b'.purchases ≡ true)
    × ((n : ℕ) → (request_limit_purchase 3 7 100 b').0 ≢ ok n)
unfolding request_limit_purchase has_pending
request_limit_purchase_ok_example =
    request_limit_purchase_ok 2 3 7 5000 100 no_purchases {r = 2} refl refl

books-IsClean : IsClean books
books-IsClean id p found open_now = elim (Bool-cases (id == 1)) [
  | inl one ↦ ground arith
  | inr other ↦ absurd (ground arith)
]

Run-Explains_example :
    let b' = (approve_limit_purchase (some 1) 9 3 books).1 in IsClean b' × Explains books b'
Run-Explains_example =
    Run-Explains books (approve_limit_purchase (some 1) 9 3 books).1
      (then_step books (approve_limit_purchase (some 1) 9 3 books).1 start (approves (some 1) 9 3))
      books-IsClean
