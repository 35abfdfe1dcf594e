-- ===== src/Engine/Changes.antt =====
-- Each whole operation of the engine changes rows only as `Rows` says.
use flitepay.Prelude.{
  ℕ, ◌≡◌, inl, inr, refl, sym, ap, Bool, true, false, Option, none, some, Text, arith, Bool-cases,
  Option-cases, ◌||◌,
}
use flitepay.Prelude.Dict.{lookup, insert}
use flitepay.Errors.{bad_request, validation_error}
use flitepay.Machine.Transaction.{
  TransactionState, created, assigned, awaiting_customer, confirmed, settled, disputed, same,
  can_transition,
}
use flitepay.Store.{Transaction, Store, Action, or_raise, pure, atomically, ◌>>=◌, ◌>>◌}
use flitepay.Balance.{filled}
use flitepay.Engine.{
  put, claim, conclude, open_to_customer, confirm_movement, credit_captain, claim_decline,
  decline_body, decline_from, with_gateway, with_confirmation, with_settlement, hand_back,
  credit_party, collect_commission, pay_captain, note_paid, same_bool, settle_money, settle_body,
  settle_from,
}
use flitepay.Engine.Endings.{
  with_failure, with_dispute, release_hold, end_body, end_from, dispute_from,
}
use flitepay.Engine.Create.{
  CreateInput, new_transaction, create_row, create_after, existing_for, quote,
}
use flitepay.Engine.Claims.{atomically_keeps}
use flitepay.Engine.Conservation.{bind_keeps, or_raise_keeps}
use flitepay.Engine.Refunds.{decline_cases}
use flitepay.Errors.{result_cases}
use flitepay.Engine.Rows.{stays, moves, notes, Rows, Rows-same, Rows-write, Rows-new}
use flitepay.Engine.Lives.{
  if_won_keeps, claim-Rows, conclude-Rows, claimed-Rows, credit_captain_rows, release_hold_rows,
  credit_party_rows, collect_commission_rows, pay_captain_rows,
}

pub open_to_customer-Rows :
    (s0 : Store) (id : ℕ) (order_id qr_payload : Option Text) (now : ℕ) (s : Store)
    → Rows s0 s
    → Rows s0 (open_to_customer id order_id qr_payload now s).1
unfolding open_to_customer
open_to_customer-Rows s0 id order_id qr_payload now s r =
    claimed-Rows s0 id assigned awaiting_customer (with_gateway order_id qr_payload) none none now
      (same awaiting_customer) s (λ t. (refl, refl, refl, refl)) r

pub confirm_movement-Rows :
    (s0 : Store) (id : ℕ) (reference : Option Text) (actor : Option ℕ) (now : ℕ) (s : Store)
    → Rows s0 s
    → Rows s0 (confirm_movement id reference actor now s).1
unfolding confirm_movement
confirm_movement-Rows s0 id reference actor now s r =
    bind_keeps (Rows s0) (or_raise (filled reference) (bad_request validation_error))
      (λ x.
        claim id awaiting_customer confirmed (with_confirmation x now) actor none now
        >>= conclude id (λ st. same confirmed st || same settled st))
      s (or_raise_keeps (Rows s0) (filled reference) (bad_request validation_error) s r)
      (λ x t rt.
        claimed-Rows s0 id awaiting_customer confirmed (with_confirmation x now) actor none now
          (λ st. same confirmed st || same settled st) t (λ u. (refl, refl, refl, refl)) rt)

pub dispute_from-Rows :
    (s0 : Store) (id : ℕ) (from : TransactionState) (reason : Text) (actor : Option ℕ) (now : ℕ)
    (s : Store)
    → Rows s0 s
    → Rows s0 (dispute_from id from reason actor now s).1
unfolding dispute_from
dispute_from-Rows s0 id from reason actor now s r =
    claimed-Rows s0 id from disputed (with_dispute reason) actor (some reason) now (same disputed) s
      (λ t. (refl, refl, refl, refl)) r

-- A database transaction whose body keeps the rows, and what is concluded from it.
concluded-Rows :
    (s0 : Store) (supports : Bool) (body : Action (Option Transaction)) (id : ℕ)
    (wanted : TransactionState → Bool) (s : Store)
    → Rows s0 s
    → Rows s0 (body s).1
    → Rows s0 ((atomically supports body >>= conclude id wanted) s).1
concluded-Rows s0 supports body id wanted s before after =
    bind_keeps (Rows s0) (atomically supports body) (conclude id wanted) s
      (atomically_keeps (Rows s0) supports body s before after)
      (λ o t. conclude-Rows s0 id wanted o t)

pub end_from-Rows :
    (s0 : Store) (supports : Bool) (id : ℕ) (from to : TransactionState) (reason : Text)
    (actor : Option ℕ) (now : ℕ) (s : Store)
    → Rows s0 s
    → Rows s0 (end_from supports id from to reason actor now s).1
unfolding end_from end_body
end_from-Rows s0 supports id from to reason actor now s r =
    concluded-Rows s0 supports (end_body id from to reason actor now) id (same to) s r (
      if_won_keeps (Rows s0) (λ won. release_hold won from >>= λ _. pure won)
        (claim id from to (with_failure reason) actor (some reason) now) s
        (claim-Rows s0 id from to (with_failure reason) actor (some reason) now s
          (λ t. (refl, refl, refl, refl)) r)
        (λ u t rt.
          bind_keeps (Rows s0) (release_hold u from) (λ _. pure u) t
            (Rows-same s0 t (release_hold u from t).1 rt (release_hold_rows u from t))
            (λ _ v rv. rv)))

hand_back_legal : can_transition assigned created ≡ true
unfolding can_transition
hand_back_legal = refl

claim_decline-Rows :
    (s0 : Store) (id captain_id : ℕ) (by : Option ℕ) (reason : Text) (now : ℕ) (s : Store)
    → Rows s0 s
    → Rows s0 (claim_decline id captain_id by reason now s).1
claim_decline-Rows s0 id captain_id by reason now s r =
    elim (decline_cases id captain_id by reason now s) [
      | inl lost ↦ rw lost r
      | inr (t, found, here, mine, won) ↦
          let u = hand_back captain_id by reason now t in
          rw won (
            Rows-write s0 s (put id u s) id t u r found
              (moves t u _ stays (rw here hand_back_legal) (ap some (sym here)) refl refl
                (refl, refl, refl, refl))
              refl)
    ]

pub decline_from-Rows :
    (s0 : Store) (supports : Bool) (id captain_id : ℕ) (reason : Text) (actor : Option ℕ) (now : ℕ)
    (s : Store)
    → Rows s0 s
    → Rows s0 (decline_from supports id captain_id reason actor now s).1
unfolding decline_from decline_body
decline_from-Rows s0 supports id captain_id reason actor now s r =
    concluded-Rows s0 supports (decline_body id captain_id actor reason now) id (λ _. false) s r
      (if_won_keeps (Rows s0) (λ won. credit_captain captain_id won.amount >>= λ _. pure won)
        (claim_decline id captain_id actor reason now) s
        (claim_decline-Rows s0 id captain_id actor reason now s r)
        (λ u t rt.
          bind_keeps (Rows s0) (credit_captain captain_id u.amount) (λ _. pure u) t
            (Rows-same s0 t (credit_captain captain_id u.amount t).1 rt
              (credit_captain_rows captain_id u.amount t))
            (λ _ v rv. rv)))

note_paid-Rows :
    (s0 : Store) (id : ℕ) (u : Transaction) (paid : Bool) (s : Store)
    → Rows s0 s
    → Rows s0 (note_paid id u paid s).1
unfolding note_paid
note_paid-Rows s0 id u paid s r = elim (Option-cases (lookup id s.transactions)) [
  | inl missing ↦
      let same_rows : (note_paid id u paid s).1.transactions ≡ s.transactions = ground arith in
      Rows-same s0 s (note_paid id u paid s).1 r same_rows
  | inr (t, found) ↦ elim (Bool-cases (same_bool paid u.commission_paid)) [
    | inl already ↦
        let same_rows : (note_paid id u paid s).1.transactions ≡ s.transactions = ground arith in
        Rows-same s0 s (note_paid id u paid s).1 r same_rows
    | inr differs ↦
        let v = record t { commission_paid = paid } in
        let rows : (note_paid id u paid s).1.transactions ≡ insert id v s.transactions =
          ground arith in
        Rows-write s0 s (note_paid id u paid s).1 id t v r found (notes t paid stays) rows
  ]
]

pub settle_money-Rows :
    (s0 : Store) (session : Bool) (id : ℕ) (u : Transaction) (s : Store)
    → Rows s0 s
    → Rows s0 (settle_money session id u s).1
unfolding settle_money
settle_money-Rows s0 session id u s r =
    bind_keeps (Rows s0) (credit_party u.party_id u.amount u.party_commission)
      (λ _. collect_commission u.party_commission >> (pay_captain session id u >>= note_paid id u))
      s
      (Rows-same s0 s (credit_party u.party_id u.amount u.party_commission s).1 r
        (credit_party_rows u.party_id u.amount u.party_commission s))
      (λ _ t rt.
        bind_keeps (Rows s0) (collect_commission u.party_commission)
          (λ _. pay_captain session id u >>= note_paid id u) t
          (Rows-same s0 t (collect_commission u.party_commission t).1 rt
            (collect_commission_rows u.party_commission t))
          (λ _ v rv.
            bind_keeps (Rows s0) (pay_captain session id u) (note_paid id u) v
              (Rows-same s0 v (pay_captain session id u v).1 rv (pay_captain_rows session id u v))
              (λ paid x rx. note_paid-Rows s0 id u paid x rx)))

pub settle_from-Rows :
    (s0 : Store) (supports : Bool) (id : ℕ) (from : TransactionState) (actor : Option ℕ) (now : ℕ)
    (s : Store)
    → Rows s0 s
    → Rows s0 (settle_from supports id from actor now s).1
unfolding settle_from settle_body
settle_from-Rows s0 supports id from actor now s r =
    concluded-Rows s0 supports (settle_body supports id from actor now) id (same settled) s r (
      if_won_keeps (Rows s0) (settle_money supports id)
        (claim id from settled (with_settlement now) actor none now) s
        (claim-Rows s0 id from settled (with_settlement now) actor none now s
          (λ t. (refl, refl, refl, refl)) r)
        (settle_money-Rows s0 supports id))

pub create_after-Rows :
    (s0 : Store) (already : Option ℕ) (new_id party_id : ℕ) (reference : Text) (input : CreateInput)
    (now : ℕ) (s : Store)
    → lookup new_id s.transactions ≡ none
    → Rows s0 s
    → Rows s0 (create_after already new_id party_id reference input now s).1
unfolding create_after create_row
create_after-Rows s0 (some old) new_id party_id reference input now s fresh r = r
create_after-Rows s0 none new_id party_id reference input now s fresh r =
    elim (result_cases (quote party_id input.amount s)) [
      | inl (e, refused) ↦
          let rows : (create_after none new_id party_id reference input now s).1.transactions
              ≡ s.transactions =
            ground arith in
          Rows-same s0 s (create_after none new_id party_id reference input now s).1 r rows
      | inr (c, quoted) ↦ elim (Option-cases (existing_for party_id reference s.transactions)) [
        | inr (winner, taken) ↦
            let rows : (create_after none new_id party_id reference input now s).1.transactions
                ≡ s.transactions =
              ground arith in
            Rows-same s0 s (create_after none new_id party_id reference input now s).1 r rows
        | inl free ↦
            let u = new_transaction party_id reference input c now in
            let rows : (create_after none new_id party_id reference input now s).1.transactions
                ≡ insert new_id u s.transactions =
              ground arith in
            Rows-new s0 s (create_after none new_id party_id reference input now s).1 new_id u r
              fresh
              (
                refl,
                (
                  record { from = none; to = created; at = now; by = none; reason = none },
                  refl,
                  refl,
                  refl,
                ),
              )
              rows
      ]
    ]
