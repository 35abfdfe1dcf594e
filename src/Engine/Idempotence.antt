-- ===== src/Engine/Idempotence.antt =====
-- The same reference twice is the same payment, and the sweep touches no row it has not listed.
use flitepay.Prelude.{
  ℕ, ◌<◌, ◌≡◌, inl, inr, refl, sym, ap, ◌∙◌, subst, Bool, true, false, none, some, [], ◌∷◌, Text,
  arith, Option-cases,
}
use flitepay.Prelude.Dict.{Dict, lookup, insert}
use flitepay.Errors.{Result, ok}
use flitepay.Store.{Transaction, Store}
use flitepay.Balance.{filled}
use flitepay.Engine.Create.{
  CreateInput, same_text, existing_for, quote, new_transaction, create_row, create_after,
  create_pay_in,
}
use flitepay.Errors.{result_cases}

same_text_refl : (x : Text) → same_text x x ≡ true
same_text_refl [] = refl
same_text_refl (c ∷ cs) = ground (arith, same_text_refl cs)

existing_for-insert :
    (party_id : ℕ) (reference : Text) (id : ℕ) (t : Transaction) (d : Dict Transaction)
    → existing_for party_id reference d ≡ none
    → lookup id d ≡ none
    → t.party_id ≡ party_id
    → t.party_reference ≡ reference
    → existing_for party_id reference (insert id t d) ≡ some id
unfolding existing_for insert
existing_for-insert party_id reference id t [] none_yet missing party ref =
    ground (arith, same_text_refl reference)
existing_for-insert party_id reference id t ((j, u) ∷ d) none_yet missing party ref =
    ground (arith, existing_for-insert party_id reference id t d)

-- What `createPayIn` does with an amount and a reference that pass its checks.
create_checked :
    (new_id party_id : ℕ) (input : CreateInput) (now : ℕ) (s : Store) {reference : Text}
    → 0 < input.amount
    → filled input.party_reference ≡ some reference
    → create_pay_in new_id party_id input now s
      ≡ create_after
          (existing_for party_id reference s.transactions)
          new_id
          party_id
          reference
          input
          now
          s
unfolding create_pay_in
create_checked new_id party_id input now s positive given = ground arith

create_after_found :
    (new_id party_id : ℕ) (reference : Text) (input : CreateInput) (now : ℕ) (s : Store) (id : ℕ)
    (made : Bool)
    → lookup new_id s.transactions ≡ none
    → (create_after
        (existing_for party_id reference s.transactions)
        new_id
        party_id
        reference
        input
        now
        s).0
      ≡ ok (id, made)
    → existing_for party_id reference
        (create_after
          (existing_for party_id reference s.transactions)
          new_id
          party_id
          reference
          input
          now
          s).1.transactions
      ≡ some id
unfolding create_after create_row
create_after_found new_id party_id reference input now s id made fresh h =
    elim (Option-cases (existing_for party_id reference s.transactions)) [
      | inr (old, there) ↦ ground arith
      | inl free ↦ elim (result_cases (quote party_id input.amount s)) [
        | inl (e, refused) ↦ absurd (ground arith)
        | inr (c, quoted) ↦ ground (
          arith,
          existing_for-insert party_id reference new_id
              (new_transaction party_id reference input c now) s.transactions free fresh refl refl,
        )
      ]
    ]

found_already :
    (n p : ℕ) (r : Text) (i : CreateInput) (now : ℕ) (s : Store) (id : ℕ)
    → create_after (some id) n p r i now s ≡ (ok (id, false), s)
unfolding create_after
found_already n p r i now s id = refl

-- A call to create a pay-in that is repeated, with the same party and a reference that is the same
-- once trimmed, answers with the row of the first call, says that it has not created it, and
-- writes nothing, whatever positive amount it asks for.
pub create_pay_in_twice :
    (new_id other_id party_id : ℕ) (input again : CreateInput) (now later : ℕ) (s : Store)
    {reference : Text} {id : ℕ} {made : Bool}
    → lookup new_id s.transactions ≡ none
    → 0 < input.amount
    → filled input.party_reference ≡ some reference
    → 0 < again.amount
    → filled again.party_reference ≡ some reference
    → (create_pay_in new_id party_id input now s).0 ≡ ok (id, made)
    → let s' = (create_pay_in new_id party_id input now s).1 in
      create_pay_in other_id party_id again later s' ≡ (ok (id, false), s')
create_pay_in_twice new_id other_id party_id input again now later s {reference} {id} {made} fresh
      positive given positive2 given2 h =
    let at = create_checked new_id party_id input now s positive given in
    let s1 = (create_pay_in new_id party_id input now s).1 in
    let there : existing_for party_id reference s1.transactions ≡ some id =
      subst
        (λ (x : Result (ℕ × Bool) × Store).
          existing_for party_id reference x.1.transactions ≡ some id)
        (sym at)
        (create_after_found new_id party_id reference input now s id made fresh
          (ap (λ (x : Result (ℕ × Bool) × Store). x.0) (sym at) ∙ h)) in
    create_checked other_id party_id again later s1 positive2 given2
    ∙ ap (λ o. create_after o other_id party_id reference again later s1) there
    ∙ found_already other_id party_id reference again later s1 id
