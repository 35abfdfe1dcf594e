-- ===== src/Engine/Creating.antt =====
-- Creating a pay-in: a row that holds nothing yet, and never a second one for a reference.
use flitepay.Prelude.{
  ℕ, ◌≤◌, ◌≡◌, inl, inr, refl, sym, ◌∙◌, subst, true, false, Option, none, some, Text, arith,
  is_some, Option-cases,
}
use flitepay.Prelude.Int.{ℤ}
use flitepay.Prelude.Dict.{lookup}
use flitepay.Errors.{result_cases, ok}
use flitepay.Money.{max_paise, percent_of_paise}
use flitepay.Machine.Transaction.{created, holds_funds}
use flitepay.Store.{Store}
use flitepay.Engine.{put}
use flitepay.Engine.Worth.{held, Shift-none, IsBacked, IsSound-write, Keeps-refl}
use flitepay.Engine.Claims.{Balanced}
use flitepay.Commission.{pay_in, party_rate_for, DirectionalCommission}
use flitepay.Commission.Shares.{commission_for-share}
use flitepay.Money.Rounding.{IsSafeCharge}
use flitepay.Engine.Create.{
  CreateInput, existing_for, rates_of, quote, new_transaction, create_row, create_after,
}
use flitepay.Engine.Worth.{worth_new_transaction, Shift-none, IsSound-write}

created_holds : holds_funds created ≡ false
unfolding holds_funds
created_holds = refl

closed : holds_funds created ≡ true → ⊥
unfolding holds_funds
closed e = cc

create_row-Balanced :
    (w : ℤ) (new_id party_id : ℕ) (reference : Text) (input : CreateInput)
    (c : DirectionalCommission) (now : ℕ) (s : Store)
    → lookup new_id s.transactions ≡ none
    → is_some (lookup party_id s.parties) ≡ true
    → c.party_paise ≤ max_paise
    → Balanced w s
    → Balanced w (create_row new_id party_id reference input c now s).1
unfolding create_row
create_row-Balanced w new_id party_id reference input c now s fresh there safe b =
    let u = new_transaction party_id reference input c now in
    elim (Option-cases (existing_for party_id reference s.transactions)) [
      | inr (winner, taken) ↦
          let at : (create_row new_id party_id reference input c now s).1 ≡ s = ground arith in
          subst (Balanced w) (sym at) b
      | inl free ↦
          let at : (create_row new_id party_id reference input c now s).1 ≡ put new_id u s =
            ground arith in
          let backed : IsBacked s u = (there, safe, λ e. absurd (closed e)) in
          let nothing : held u ≡ 0 = rw created_holds refl in
          subst (Balanced w) (sym at) (
            IsSound-write s (put new_id u s) new_id u b.0 (Keeps-refl s) refl backed,
            Shift-none s (put new_id u s) (held u) 0 (worth_new_transaction new_id u s fresh)
                  nothing
                ∙ b.1,
          )
    ]

-- What the party is charged is a safe amount.
quote_safe :
    (party_id amount : ℕ) (s : Store) {c : DirectionalCommission}
    → IsSafeCharge amount (party_rate_for pay_in s.config (rates_of (lookup party_id s.parties)))
    → quote party_id amount s ≡ ok c
    → c.party_paise ≤ max_paise
unfolding quote
quote_safe party_id amount s {c} safe h =
    let share =
      commission_for-share pay_in amount s.config (rates_of (lookup party_id s.parties)) none h in
    safe c.party_paise
      (subst (λ rate. percent_of_paise amount rate ≡ ok c.party_paise) share.2 share.0)

-- Creating a pay-in keeps the invariant, whatever the look-up before it has answered.
pub create_after-Balanced :
    (w : ℤ) (already : Option ℕ) (new_id party_id : ℕ) (reference : Text) (input : CreateInput)
    (now : ℕ) (s : Store)
    → lookup new_id s.transactions ≡ none
    → is_some (lookup party_id s.parties) ≡ true
    → IsSafeCharge input.amount
        (party_rate_for pay_in s.config (rates_of (lookup party_id s.parties)))
    → Balanced w s
    → Balanced w (create_after already new_id party_id reference input now s).1
unfolding create_after
create_after-Balanced w (some old) new_id party_id reference input now s fresh there top b = b
create_after-Balanced w none new_id party_id reference input now s fresh there top b =
    elim (result_cases (quote party_id input.amount s)) [
      | inl (e, refused) ↦
          let at : (create_after none new_id party_id reference input now s).1 ≡ s = ground arith in
          subst (Balanced w) (sym at) b
      | inr (c, quoted) ↦
          let at : create_after none new_id party_id reference input now s
              ≡ create_row new_id party_id reference input c now s =
            ground arith in
          rw at (
            create_row-Balanced w new_id party_id reference input c now s fresh there
              (quote_safe party_id input.amount s top quoted) b)
    ]
