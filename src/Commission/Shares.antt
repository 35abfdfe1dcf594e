-- ===== src/Commission/Shares.antt =====
-- The split of a charge adds up, and re-pricing moves the split but never the total.
use flitepay.Prelude.{
  ℕ, ◌+◌, ◌≤◌, ◌<◌, ◌≡◌, ◌⊎◌, inl, inr, true, false, ltb, Bool-cases, Option, none, some, arith,
}
use flitepay.Errors.{ok, result_cases}
use flitepay.Money.{percent_of_paise}
use flitepay.Commission.{
  PaymentDirection, RateConfig, PartyRates, CaptainRates, DirectionalCommission, CaptainShare,
  party_rate_for, captain_rate_for, commission_for, reprice_captain_share,
}

-- The captain and the platform share exactly what the party is charged: no paise is lost.
pub commission_for-sum :
    (d : PaymentDirection) (amount : ℕ) (config : RateConfig) (party : Option PartyRates)
    (captain : Option CaptainRates) {c : DirectionalCommission}
    → commission_for d amount config party captain ≡ ok c
    → c.captain_paise + c.platform_paise ≡ c.party_paise
unfolding commission_for
commission_for-sum d amount config party captain h = ground arith

-- The captain's share is what their agreed rate gives, unless that is more than the party is
-- charged: then it is the whole charge, and the rate shown is the party's.
pub commission_for-share :
    (d : PaymentDirection) (amount : ℕ) (config : RateConfig) (party : Option PartyRates)
    (captain : Option CaptainRates) {c : DirectionalCommission}
    → commission_for d amount config party captain ≡ ok c
    → (percent_of_paise amount c.party_rate ≡ ok c.party_paise)
      × (c.captain_rate_agreed ≡ captain_rate_for d config captain none)
      × (c.party_rate ≡ party_rate_for d config party)
      × ((asked : ℕ) × (percent_of_paise amount c.captain_rate_agreed ≡ ok asked)
          × (((asked ≤ c.party_paise)
                × (c.capped ≡ false)
                × (c.captain_rate ≡ c.captain_rate_agreed)
                × (c.captain_paise ≡ asked))
              ⊎ ((c.party_paise < asked)
                  × (c.capped ≡ true)
                  × (c.captain_rate ≡ c.party_rate)
                  × (c.captain_paise ≡ c.party_paise)
                  × (c.platform_paise ≡ 0))))
unfolding commission_for
commission_for-share d amount config party captain {c} h =
    let agreed = captain_rate_for d config captain none in
    let charged = percent_of_paise amount (party_rate_for d config party) in
    elim (result_cases charged) [
      | inl (e, failed) ↦ absurd (ground arith)
      | inr (whole, priced) ↦ elim (result_cases (percent_of_paise amount agreed)) [
        | inl (e, failed) ↦ absurd (ground arith)
        | inr (asked, wanted) ↦ elim (Bool-cases (ltb whole asked)) [
          | inl more ↦
              (ground arith, ground arith, ground arith, (asked, ground arith, inr (ground arith)))
          | inr less ↦
              (ground arith, ground arith, ground arith, (asked, ground arith, inl (ground arith)))
        ]
      ]
    ]

-- Re-pricing divides the pool between the captain and the platform and leaves its total alone.
pub reprice_captain_share-sum :
    (pool amount agreed_rate party_rate : ℕ) {s : CaptainShare}
    → reprice_captain_share pool amount agreed_rate party_rate ≡ ok s
    → s.captain_paise + s.platform_paise ≡ pool
unfolding reprice_captain_share
reprice_captain_share-sum pool amount agreed_rate party_rate h = ground arith

abbrev pub share_of : DirectionalCommission → CaptainShare
share_of c = record {
  captain_paise = c.captain_paise;
  platform_paise = c.platform_paise;
  captain_rate = c.captain_rate;
  captain_rate_agreed = c.captain_rate_agreed;
  capped = c.capped;
}

-- A row that is priced before its captain is known keeps the default rate of that time. Re-pricing
-- it for the captain, with that rate locked and whatever configuration is in force by then, gives
-- the same five figures as pricing with that captain from the start.
pub reprice-commission_for :
    (d : PaymentDirection) (amount : ℕ) (config later : RateConfig) (party : Option PartyRates)
    (captain : Option CaptainRates) {c e : DirectionalCommission}
    → commission_for d amount config party none ≡ ok c
    → commission_for d amount config party captain ≡ ok e
    → reprice_captain_share c.party_paise amount
        (captain_rate_for d later captain (some c.captain_rate_agreed))
        c.party_rate
      ≡ ok (share_of e)
unfolding commission_for reprice_captain_share captain_rate_for
reprice-commission_for d amount config later party captain h k = ground arith
