-- ===== src/Balance/Commission.antt =====
-- Paying commission moves money from the pool to the captain and creates none.
use flitepay.Prelude.{
  ℕ, ◌+◌, ◌-◌, ◌≤◌, ◌<◌, ◌≡◌, ◌⊎◌, true, false, Bool, Option, none, some, arith, ◌∷◌, inl, inr,
}
use flitepay.Prelude.Dict.{lookup, insert}
use flitepay.Errors.{ok, err, not_found_with, captain_not_found}
use flitepay.Money.{max_paise}
use flitepay.Store.{Captain, WalletEntry, Store}
use flitepay.Pool.Laws.{pool_of, funded_of, with_pool, pay_commission_from_pool_lem, pool_credits}
use flitepay.Balance.{pay_commission_to_captain}

abbrev pub entry_of : ℕ → ℕ → Option ℕ → Captain → WalletEntry
entry_of id amount source c = record {
  captain_id = id;
  amount = amount;
  balance_after = c.dmc_balance + amount;
  source_reference = source;
}

-- A positive commission for a captain who is there is paid exactly when the pool covers it: the
-- pool falls by the amount, the captain's balance and earned total rise by it, and the ledger
-- records the balance that the credit produced. Otherwise the answer is false and nothing moves.
pub pay_commission_to_captain_lem :
    (id amount : ℕ) (session : Bool) (source : Option ℕ) (s : Store) {c : Captain}
    → 0 < amount
    → lookup id s.captains ≡ some c
    → ((amount ≤ pool_of s)
        × (pay_commission_to_captain id amount session source s ≡ (
          ok true,
          record s {
            platform = (with_pool (pool_of s - amount) (funded_of s) s).platform;
            captains =
                insert id
                  (record c {
                    dmc_balance = c.dmc_balance + amount;
                    commission_earned_total = c.commission_earned_total + amount;
                  })
                  s.captains;
            wallet_entries = entry_of id amount source c ∷ s.wallet_entries;
          },
        )))
      ⊎ ((pool_of s < amount)
          × (pay_commission_to_captain id amount session source s ≡ (ok false, s)))
unfolding pay_commission_to_captain
pay_commission_to_captain_lem id amount session source s {c} positive found =
    elim (pay_commission_from_pool_lem amount s) [
      | inl (covered, _, e) ↦ inl (covered, ground arith)
      | inr (inl (zero_amount, e)) ↦ absurd (omega arith)
      | inr (inr (short, e)) ↦ inr (short, ground arith)
    ]

-- For a captain who is not there, without a session, the money that left the pool is put back
-- before the error is thrown: the pool is as it was.
pub pay_commission_no_captain :
    (id amount : ℕ) (source : Option ℕ) (s : Store)
    → 0 < amount
    → amount ≤ max_paise
    → amount ≤ pool_of s
    → lookup id s.captains ≡ none
    → pay_commission_to_captain id amount false source s
      ≡ (err (not_found_with captain_not_found), with_pool (pool_of s) (funded_of s) s)
unfolding pay_commission_to_captain
pay_commission_no_captain id amount source s positive safe covered missing =
    elim (pay_commission_from_pool_lem amount s) [
      | inl (_, _, e) ↦
          elim (pool_credits amount (with_pool (pool_of s - amount) (funded_of s) s)) [
            | inl (_, _, collected, _) ↦ rw (e, pay_commission_to_captain) (ground arith)
            | inr (refused, _, _) ↦ absurd (omega arith)
          ]
      | inr (inl (zero_amount, e)) ↦ absurd (omega arith)
      | inr (inr (short, e)) ↦ absurd (omega arith)
    ]
