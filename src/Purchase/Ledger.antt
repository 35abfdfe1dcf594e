-- ===== src/Purchase/Ledger.antt =====
-- server/src/services/captainLimitPurchase.service.ts: runs of the service, and the accounts that
-- the captains and the purchases keep of what was credited.
use flitepay.Prelude.{
  ℕ, ◌≡◌, Bool, not, ◌&&◌, ltb, inl, inr, refl, sym, subst, true, false, Option, none, some, Text,
  arith, ◌==◌, Option-cases, get_or, if◌then◌else◌,
}
use flitepay.Prelude.Int.{ℤ, pos, ◌+ℤ◌, int_laws, parts_of_eq}
use flitepay.Prelude.Dict.{
  Dict, lookup, insert, lookup-insert, insert-insert, total, total-insert, total-insert_new,
}
use flitepay.Store.{Captain}
use flitepay.Capacity.{is_active}
use flitepay.Balance.{filled}
use flitepay.Purchase.{
  LimitPurchase, Books, is_open, is_pending, is_draft, has_pending, draft, put_purchase,
  request_limit_purchase, mark_limit_purchase_paid, paid_row, approved_row, rejected_row, enlarge,
  credited_row, approve_limit_purchase, reject_limit_purchase,
}

abbrev captain_dmc : Captain → ℤ
captain_dmc c = pos c.dmc_balance

abbrev given : LimitPurchase → ℤ
given p = pos (get_or p.credited 0)

-- No purchase that is still open says that it was credited.
abbrev pub IsClean : Books → Type 0
IsClean b =
    (id : ℕ) (p : LimitPurchase)
    → lookup id b.purchases ≡ some p
    → is_open p.status ≡ true
    → p.credited ≡ none

-- From `b` to `b'` the captains' DMC has grown as the credited amounts have.
abbrev pub Explains : Books → Books → Type 0
Explains b b' =
    total captain_dmc b'.captains +ℤ total given b.purchases
    ≡ total captain_dmc b.captains +ℤ total given b'.purchases

pending-is_open : (p : LimitPurchase) → is_pending p.status ≡ true → is_open p.status ≡ true
pending-is_open p h = ground arith

draft-is_open :
    (p : LimitPurchase) (mine : Bool) → mine && is_draft p.status ≡ true → is_open p.status ≡ true
draft-is_open p mine h = ground arith

abbrev Good : Books → Books → Type 0
Good b b' = IsClean b' × Explains b b'

put-IsClean :
    (id : ℕ) (q : LimitPurchase) (cs : Dict Captain) (b : Books)
    → IsClean b
    → (is_open q.status ≡ true → q.credited ≡ none)
    → IsClean (record { captains = cs; purchases = insert id q b.purchases })
put-IsClean id q cs b clean h j p found open_now =
    ground (arith, lookup-insert j id q b.purchases, clean j p)

put_uncredited :
    (id : ℕ) (p q : LimitPurchase) (b : Books)
    → IsClean b
    → lookup id b.purchases ≡ some p
    → p.credited ≡ none
    → q.credited ≡ none
    → Good b (put_purchase id q b)
put_uncredited id p q b clean found before after = (
  put-IsClean id q b.captains b clean (λ h. after),
  grind (int_laws, total-insert given id q p b.purchases found),
)

credited-Good :
    (id actor now : ℕ) (p : LimitPurchase) (c : Captain) (b : Books)
    → IsClean b
    → lookup id b.purchases ≡ some p
    → p.credited ≡ none
    → lookup p.captain_id b.captains ≡ some c
    → Good b (record {
      captains = insert p.captain_id (enlarge p.amount c) b.captains;
      purchases = insert id (credited_row (approved_row actor now p)) b.purchases;
    })
credited-Good id actor now p c b clean found before there =
    let q = credited_row (approved_row actor now p) in
    let d = enlarge p.amount c in
    (
      put-IsClean id q (insert p.captain_id d b.captains) b clean (λ h. absurd (ground arith)),
      grind (
        int_laws,
        total-insert given id q p b.purchases found,
        total-insert captain_dmc p.captain_id d c b.captains there,
      ),
    )

module _ (b : Books) (clean : IsClean b) where
  stays : {b' : Books} → b' ≡ b → Good b b'
  stays e = subst (Good b) (sym e) (clean, refl)

  Good-if : (t : Bool) (x : Books) → (t ≡ true → Good b x) → Good b (if t then x else b)
  Good-if true x h = h refl
  Good-if false x h = (clean, refl)

  Good-request :
      (id captain_id amount : ℕ)
      → lookup id b.purchases ≡ none
      → Good b (request_limit_purchase id captain_id amount b).1
  unfolding request_limit_purchase
  Good-request id captain_id amount fresh = elim (Option-cases (lookup captain_id b.captains)) [
    | inl missing ↦ stays (ground arith)
    | inr (c, found) ↦
        let q = draft captain_id amount c in
        let allowed =
          not (amount == 0)
          && is_active c.status
          && not (ltb c.collateral_balance amount)
          && not (has_pending captain_id b.purchases) in
        let result : (request_limit_purchase id captain_id amount b).1
            ≡ (if allowed then put_purchase id q b else b) =
          ground arith in
        subst (Good b) (sym result) (
          Good-if allowed (put_purchase id q b) (λ h. (
            put-IsClean id q b.captains b clean (λ o. refl),
            grind (int_laws, total-insert_new given id q b.purchases fresh),
          )))
  ]

  Good-paid :
      (id captain_id : ℕ) (reference : Text) (notes : Option Text) (now : ℕ)
      → Good b (mark_limit_purchase_paid id captain_id reference notes now b).1
  unfolding mark_limit_purchase_paid
  Good-paid id captain_id reference notes now = elim (Option-cases (lookup id b.purchases)) [
    | inl missing ↦ stays (ground arith)
    | inr (p, found) ↦
        let q = paid_row reference notes now p in
        let mine = p.captain_id == captain_id && is_draft p.status in
        let result : (mark_limit_purchase_paid id captain_id reference notes now b).1
            ≡ (if mine then put_purchase id q b else b) =
          ground arith in
        subst (Good b) (sym result) (
          Good-if mine (put_purchase id q b) (λ h.
            let none_given : p.credited ≡ none =
              clean id p found (draft-is_open p (p.captain_id == captain_id) h) in
            put_uncredited id p q b clean found none_given none_given))
  ]

  Good-pending :
      (id : ℕ) (p q : LimitPurchase)
      → lookup id b.purchases ≡ some p
      → (p.credited ≡ none → q.credited ≡ none)
      → Good b (if is_pending p.status then put_purchase id q b else b)
  Good-pending id p q found kept = Good-if (is_pending p.status) (put_purchase id q b) (λ h.
      let none_given = clean id p found (pending-is_open p h) in
      put_uncredited id p q b clean found none_given (kept none_given))

  Good-reject :
      (decision : Option ℕ) (reason : Option Text) (actor now : ℕ)
      → Good b (reject_limit_purchase decision reason actor now b).1
  unfolding reject_limit_purchase
  Good-reject none reason actor now = (clean, refl)
  Good-reject (some id) reason actor now = elim (Option-cases (filled reason)) [
    | inl unsaid ↦ stays (ground arith)
    | inr (why, said) ↦ elim (Option-cases (lookup id b.purchases)) [
      | inl missing ↦ stays (ground arith)
      | inr (p, found) ↦
          let q = rejected_row why actor now p in
          let result : (reject_limit_purchase (some id) reason actor now b).1
              ≡ (if is_pending p.status then put_purchase id q b else b) =
            ground arith in
          subst (Good b) (sym result) (Good-pending id p q found (λ h. h))
    ]
  ]

  Good-approve :
      (decision : Option ℕ) (actor now : ℕ) → Good b (approve_limit_purchase decision actor now b).1
  unfolding approve_limit_purchase
  Good-approve none actor now = (clean, refl)
  Good-approve (some id) actor now = elim (Option-cases (lookup id b.purchases)) [
    | inl missing ↦ stays (ground arith)
    | inr (p, found) ↦
        let q = approved_row actor now p in
        elim (Option-cases (lookup p.captain_id b.captains)) [
          | inl gone ↦
              let result : (approve_limit_purchase (some id) actor now b).1
                  ≡ (if is_pending p.status then put_purchase id q b else b) =
                ground arith in
              subst (Good b) (sym result) (Good-pending id p q found (λ h. h))
          | inr (c, there) ↦
              let after : Books = record {
                captains = insert p.captain_id (enlarge p.amount c) b.captains;
                purchases = insert id (credited_row q) b.purchases;
              } in
              let result : (approve_limit_purchase (some id) actor now b).1
                  ≡ (if is_pending p.status then after else b) =
                ground (arith, insert-insert id (credited_row q) q b.purchases) in
              subst (Good b) (sym result) (
                Good-if (is_pending p.status) after (λ h.
                  credited-Good id actor now p c b clean found
                    (clean id p found (pending-is_open p h)) there))
        ]
  ]

-- One call of the service, whatever its outcome; a new purchase has an id of its own.
pub data Step (b : Books) : Books → Type 0 where
  requests :
      (id captain_id amount : ℕ)
      → lookup id b.purchases ≡ none
      → Step b (request_limit_purchase id captain_id amount b).1
  pays :
      (id captain_id : ℕ) (reference : Text) (notes : Option Text) (now : ℕ)
      → Step b (mark_limit_purchase_paid id captain_id reference notes now b).1
  approves :
      (decision : Option ℕ) (actor now : ℕ) → Step b (approve_limit_purchase decision actor now b).1
  rejects :
      (decision : Option ℕ) (reason : Option Text) (actor now : ℕ)
      → Step b (reject_limit_purchase decision reason actor now b).1

pub data Run (b : Books) : Books → Type 0 where
  start : Run b b
  then_step : (m z : Books) → Run b m → Step m z → Run b z

Step-Good : (b z : Books) → Step b z → IsClean b → Good b z
Step-Good b _ (requests id captain_id amount fresh) clean =
    Good-request b clean id captain_id amount fresh
Step-Good b _ (pays id captain_id reference notes now) clean =
    Good-paid b clean id captain_id reference notes now
Step-Good b _ (approves decision actor now) clean = Good-approve b clean decision actor now
Step-Good b _ (rejects decision reason actor now) clean =
    Good-reject b clean decision reason actor now

Good-Good : (b m z : Books) → Good b m → Good m z → Good b z
Good-Good b m z (_, first) (clean, second) =
    (clean, omega (int_laws, parts_of_eq _ _ first, parts_of_eq _ _ second))

-- Over any sequence of requests, payments, approvals and rejections, with whatever outcomes, that
-- begins where no open purchase is marked as credited: none is at the end, and the DMC of all
-- captains together has grown by exactly what the purchases say was credited.
pub Run-Explains : (b z : Books) → Run b z → IsClean b → IsClean z × Explains b z
Run-Explains b _ start clean = (clean, refl)
Run-Explains b _ (then_step m z run step) clean =
    let before = Run-Explains b m run clean in Good-Good b m z before (Step-Good m z step before.0)
