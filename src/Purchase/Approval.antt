-- ===== src/Purchase/Approval.antt =====
-- server/src/services/captainLimitPurchase.service.ts: the decisions on a purchase, and its request.
use flitepay.Prelude.{
  ℕ, ◌+◌, ◌≤◌, ◌<◌, ◌≡◌, ◌≢◌, inl, inr, refl, ap, ◌∙◌, true, false, Option, none, some, [], ◌∷◌,
  Text, arith, Option-cases,
}
use flitepay.Prelude.Dict.{Dict, lookup, insert, lookup-insert}
use flitepay.Errors.{ok, err, conflict, withdrawal_already_decided}
use flitepay.Store.{Captain}
use flitepay.Capacity.{current_limit_paise, is_active}
use flitepay.Balance.{filled}
use flitepay.Purchase.{
  LimitPurchase, pending, approved, Books, has_pending, draft, put_purchase, request_limit_purchase,
  mark_limit_purchase_paid, approved_row, enlarge, credited_row, approve_limit_purchase,
  reject_limit_purchase,
}

-- An approval raises the captain's limit by exactly the amount, where the earned commission is
-- within the balance: what was bought can be used, and nothing else can.
current_limit-enlarge :
    (amount : ℕ) (c : Captain)
    → c.commission_earned_total ≤ c.dmc_balance
    → current_limit_paise (enlarge amount c) ≡ current_limit_paise c + amount
unfolding current_limit_paise
current_limit-enlarge amount c h = ground arith

-- A purchase that is approved is not decided again.
approved_stays :
    (id : ℕ) (b : Books) (q : LimitPurchase) (reason : Option Text) {why : Text} (actor now : ℕ)
    → lookup id b.purchases ≡ some q
    → q.status ≡ approved
    → filled reason ≡ some why
    → (approve_limit_purchase (some id) actor now b
        ≡ (err (conflict withdrawal_already_decided), b))
      × (reject_limit_purchase (some id) reason actor now b
          ≡ (err (conflict withdrawal_already_decided), b))
unfolding approve_limit_purchase reject_limit_purchase
approved_stays id b q reason actor now found decided said = (ground arith, ground arith)

module _ (id actor now : ℕ) (b : Books) {p : LimitPurchase} {c : Captain}
    (found : lookup id b.purchases ≡ some p) (waiting : p.status ≡ pending)
    (there : lookup p.captain_id b.captains ≡ some c) where
  abbrev final_row : LimitPurchase
  final_row = credited_row (approved_row actor now p)

  abbrev credited_books : Books
  credited_books = record b {
    captains = insert p.captain_id (enlarge p.amount c) b.captains;
    purchases = insert id final_row (insert id (approved_row actor now p) b.purchases);
  }

  approves : approve_limit_purchase (some id) actor now b ≡ (ok final_row, credited_books)
  unfolding approve_limit_purchase
  approves = ground arith

  -- The approval of a pending purchase credits the captain with its amount and marks it approved;
  -- a further approval, or a rejection with a reason, is refused and changes nothing.
  pub approve_limit_purchase_once :
      (reason : Option Text) {why : Text} (other later : ℕ)
      → filled reason ≡ some why
      → let b' = (approve_limit_purchase (some id) actor now b).1 in
        ((q : LimitPurchase) × (lookup id b'.purchases ≡ some q)
          × (q.status ≡ approved)
          × (q.credited ≡ some p.amount))
        × (lookup p.captain_id b'.captains ≡ some (enlarge p.amount c))
        × (approve_limit_purchase (some id) other later b'
            ≡ (err (conflict withdrawal_already_decided), b'))
        × (reject_limit_purchase (some id) reason other later b'
            ≡ (err (conflict withdrawal_already_decided), b'))
  approve_limit_purchase_once reason {why} other later said =
      let row : lookup id credited_books.purchases ≡ some final_row =
        ground (
          arith,
          lookup-insert id id final_row (insert id (approved_row actor now p) b.purchases),
        ) in
      let again = approved_stays id credited_books final_row reason other later row refl said in
      rw approves (
        (final_row, row, refl, refl),
        ground (arith, lookup-insert p.captain_id p.captain_id (enlarge p.amount c) b.captains),
        again.0,
        again.1,
      )

-- Asking for capacity, marking it as paid and rejecting it credit nobody: every captain's document
-- stays as it is, whatever the outcome.
pub purchase_credits_none :
    (new_id captain_id amount : ℕ) (b : Books) (id : ℕ) (reference : Text) (notes : Option Text)
    (decision : Option ℕ) (reason : Option Text) (actor now : ℕ)
    → ((request_limit_purchase new_id captain_id amount b).1.captains ≡ b.captains)
      × ((mark_limit_purchase_paid id captain_id reference notes now b).1.captains ≡ b.captains)
      × ((reject_limit_purchase decision reason actor now b).1.captains ≡ b.captains)
unfolding request_limit_purchase mark_limit_purchase_paid reject_limit_purchase
purchase_credits_none new_id captain_id amount b id reference notes none reason actor now =
    (ground arith, ground arith, refl)
purchase_credits_none new_id captain_id amount b id reference notes (some row) reason actor now =
    (ground arith, ground arith, ground arith)

has_pending-insert :
    (id captain_id amount : ℕ) (c : Captain) (rows : Dict LimitPurchase)
    → lookup id rows ≡ none
    → has_pending captain_id (insert id (draft captain_id amount c) rows) ≡ true
unfolding has_pending insert
has_pending-insert id captain_id amount c [] h = ground arith
has_pending-insert id captain_id amount c ((j, p) ∷ rows) h =
    ground (arith, has_pending-insert id captain_id amount c rows)

accepted :
    (new_id captain_id amount : ℕ) (b : Books) (c : Captain) (r : ℕ)
    → lookup captain_id b.captains ≡ some c
    → (request_limit_purchase new_id captain_id amount b).0 ≡ ok r
    → (0 < amount)
      × (amount ≤ c.collateral_balance)
      × (is_active c.status ≡ true)
      × (has_pending captain_id b.purchases ≡ false)
      × ((request_limit_purchase new_id captain_id amount b).1
          ≡ put_purchase new_id (draft captain_id amount c) b)
unfolding request_limit_purchase
accepted new_id captain_id amount b c r found h = ground arith

pending_refused :
    (other_id captain_id more : ℕ) (b : Books) (n : ℕ)
    → has_pending captain_id b.purchases ≡ true
    → (request_limit_purchase other_id captain_id more b).0 ≢ ok n
unfolding request_limit_purchase
pending_refused other_id captain_id more b n h e =
    elim (Option-cases (lookup captain_id b.captains)) [
      | inl missing ↦ absurd (ground arith)
      | inr (c, found) ↦ absurd (ground arith)
    ]

missing_refused :
    (new_id captain_id amount : ℕ) (b : Books) (r : ℕ)
    → lookup captain_id b.captains ≡ none
    → (request_limit_purchase new_id captain_id amount b).0 ≢ ok r
unfolding request_limit_purchase
missing_refused new_id captain_id amount b r h e = ground arith

-- A request that is accepted is positive and at most the collateral of a captain who is active and
-- had no open purchase; from then on the captain has one, and a further request of any amount is
-- not accepted.
pub request_limit_purchase_ok :
    (new_id other_id captain_id amount more : ℕ) (b : Books) {r : ℕ}
    → lookup new_id b.purchases ≡ none
    → (request_limit_purchase new_id captain_id amount b).0 ≡ ok r
    → let b' = (request_limit_purchase new_id captain_id amount b).1 in
      ((c : Captain) × (lookup captain_id b.captains ≡ some c)
        × (0 < amount)
        × (amount ≤ c.collateral_balance)
        × (is_active c.status ≡ true))
      × (has_pending captain_id b.purchases ≡ false)
      × (has_pending captain_id b'.purchases ≡ true)
      × ((n : ℕ) → (request_limit_purchase other_id captain_id more b').0 ≢ ok n)
request_limit_purchase_ok new_id other_id captain_id amount more b {r} fresh h =
    elim (Option-cases (lookup captain_id b.captains)) [
      | inl missing ↦ absurd (missing_refused new_id captain_id amount b r missing h)
      | inr (c, found) ↦
          let (positive, bounded, is_on, none_open, at) =
            accepted new_id captain_id amount b c r found h in
          let open_now : has_pending captain_id
                (request_limit_purchase new_id captain_id amount b).1.purchases
              ≡ true =
            ap (λ (x : Books). has_pending captain_id x.purchases) at
            ∙ has_pending-insert new_id captain_id amount c b.purchases fresh in
          (
            (c, found, positive, bounded, is_on),
            none_open,
            open_now,
            λ n.
                pending_refused other_id captain_id more
                  (request_limit_purchase new_id captain_id amount b).1 n open_now,
          )
    ]
