-- ===== src/Tests/Money.antt =====
-- Amounts and shares on small figures (utils/money.ts, services/commission.service.ts).
use flitepay.Prelude.{◌≤◌, ◌<◌, ◌≡◌, ◌⊎◌, refl, none, some, ℕ, true, false}
use flitepay.Errors.{ok}
use flitepay.Money.{percent_of_paise, dmc_paise_to_usdt_micros}
use flitepay.Money.Double.{double_of, double_mul, double_div, math_round}
use flitepay.Commission.{
  pay_in, commission_for, reprice_captain_share, captain_rate_for, CaptainRates,
  DirectionalCommission, party_rate_for,
}
use flitepay.Commission.Shares.{commission_for-share, reprice-commission_for, share_of}
use flitepay.Tests.Data.{rates}

-- Exactly 38.5, and exactly 72.5: the doubles fall below the half.
percent_of_paise_11000 : percent_of_paise 11000 350000 ≡ ok 38
unfolding percent_of_paise math_round double_of double_mul double_div
percent_of_paise_11000 = refl

percent_of_paise_25000 : percent_of_paise 25000 290000 ≡ ok 72
unfolding percent_of_paise math_round double_of double_mul double_div
percent_of_paise_25000 = refl

usdt_for_10000 : dmc_paise_to_usdt_micros 10000 9000 ≡ ok 1111111
unfolding dmc_paise_to_usdt_micros math_round double_of double_div
usdt_for_10000 = refl

abbrev quoted : DirectionalCommission
quoted = record {
  party_paise = 100;
  captain_paise = 60;
  platform_paise = 40;
  party_rate = 1000000;
  captain_rate = 600000;
  captain_rate_agreed = 600000;
  capped = false;
  config_version = 1;
}

commission_for-share_example :
    (percent_of_paise 10000 quoted.party_rate ≡ ok quoted.party_paise)
    × (quoted.captain_rate_agreed ≡ captain_rate_for pay_in rates none none)
    × (quoted.party_rate ≡ party_rate_for pay_in rates none)
    × ((asked : ℕ) × (percent_of_paise 10000 quoted.captain_rate_agreed ≡ ok asked)
        × (((asked ≤ quoted.party_paise)
              × (quoted.capped ≡ false)
              × (quoted.captain_rate ≡ quoted.captain_rate_agreed)
              × (quoted.captain_paise ≡ asked))
            ⊎ ((quoted.party_paise < asked)
                × (quoted.capped ≡ true)
                × (quoted.captain_rate ≡ quoted.party_rate)
                × (quoted.captain_paise ≡ quoted.party_paise)
                × (quoted.platform_paise ≡ 0))))
unfolding commission_for percent_of_paise math_round double_of double_mul double_div party_rate_for
    captain_rate_for
commission_for-share_example = commission_for-share pay_in 10000 rates none none {c = quoted} refl

-- The same charge, with a captain who has agreed to 1.5 percent.
abbrev dear : CaptainRates
dear = record { pay_in = some 1500000; pay_out = none }

abbrev capped_quote : DirectionalCommission
capped_quote = record {
  party_paise = 100;
  captain_paise = 100;
  platform_paise = 0;
  party_rate = 1000000;
  captain_rate = 1000000;
  captain_rate_agreed = 1500000;
  capped = true;
  config_version = 1;
}

reprice-commission_for_example :
    reprice_captain_share 100 10000
      (captain_rate_for pay_in (record rates { pay_in_captain = 1 }) (some dear) (some 600000))
      1000000
    ≡ ok (share_of capped_quote)
unfolding commission_for percent_of_paise math_round double_of double_mul double_div party_rate_for
    captain_rate_for
reprice-commission_for_example =
    reprice-commission_for pay_in 10000 rates (record rates { pay_in_captain = 1 }) none (some dear)
      {c = quoted} {e = capped_quote} refl refl
