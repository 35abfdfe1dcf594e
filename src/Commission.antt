-- ===== src/Commission.antt =====
-- server/src/services/commission.service.ts: the rates of a party and a captain, the split of a
-- charge, and its re-pricing when the captain is known. `creditCommission` stands with
-- the completion of a task.
pub mod Shares
use flitepay.Prelude.{ℕ, ◌-◌, Bool, Option, none, some, get_or, ltb, leb, if◌then◌else◌}
use Prim.Native.Nat.{min}
use flitepay.Errors.{Result, ok, err, ◌>>=◌}
use flitepay.Money.{percent_of_paise}

pub data PaymentDirection : Type 0 where
  pay_in pay_out : PaymentDirection

pub record DirectionalCommission : Type 0 where
  pub party_paise : ℕ
  pub captain_paise : ℕ
  pub platform_paise : ℕ
  pub party_rate : ℕ
  pub captain_rate : ℕ
  pub captain_rate_agreed : ℕ
  pub capped : Bool
  pub config_version : ℕ

pub record RateConfig : Type 0 where
  pub pay_in_party : ℕ
  pub pay_in_captain : ℕ
  pub pay_out_party : ℕ
  pub pay_out_captain : ℕ
  pub version : ℕ

-- `null` and `undefined` are `none`: no rate of their own.
pub record PartyRates : Type 0 where
  pub pay_in : Option ℕ
  pub pay_out : Option ℕ

pub record CaptainRates : Type 0 where
  pub pay_in : Option ℕ
  pub pay_out : Option ℕ

abbrev party_own : PaymentDirection → Option PartyRates → Option ℕ
party_own d none = none
party_own pay_in (some p) = p.pay_in
party_own pay_out (some p) = p.pay_out

abbrev party_default : PaymentDirection → RateConfig → ℕ
party_default pay_in config = config.pay_in_party
party_default pay_out config = config.pay_out_party

abbrev captain_own : PaymentDirection → Option CaptainRates → Option ℕ
captain_own d none = none
captain_own pay_in (some c) = c.pay_in
captain_own pay_out (some c) = c.pay_out

abbrev captain_default : PaymentDirection → RateConfig → ℕ
captain_default pay_in config = config.pay_in_captain
captain_default pay_out config = config.pay_out_captain

-- `partyRateFor`
unfoldable pub party_rate_for : PaymentDirection → RateConfig → Option PartyRates → ℕ
party_rate_for direction config party = elim (party_own direction party) [
  | some own ↦ own
  | none ↦ party_default direction config
]

-- `captainRateFor`
unfoldable pub captain_rate_for : PaymentDirection → RateConfig → Option CaptainRates → Option ℕ → ℕ
captain_rate_for direction config captain locked_default = elim (captain_own direction captain) [
  | some own ↦ own
  | none ↦ elim locked_default [ some locked ↦ locked | none ↦ captain_default direction config ]
]

-- `commissionFor`. The captain's share is capped, so the platform's difference is exact.
unfoldable pub commission_for :
    PaymentDirection
    → ℕ
    → RateConfig
    → Option PartyRates
    → Option CaptainRates
    → Result DirectionalCommission
commission_for direction amount config party captain = do
  let party_rate = party_rate_for direction config party
  let agreed_rate = captain_rate_for direction config captain none
  party_paise ← percent_of_paise amount party_rate
  uncapped ← percent_of_paise amount agreed_rate
  let captain_paise = min uncapped party_paise
  let capped = ltb captain_paise uncapped
  ok (record {
    party_paise = party_paise;
    captain_paise = captain_paise;
    platform_paise = party_paise - captain_paise;
    party_rate = party_rate;
    captain_rate = if capped then party_rate else agreed_rate;
    captain_rate_agreed = agreed_rate;
    capped = capped;
    config_version = config.version;
  })

pub record CaptainShare : Type 0 where
  pub captain_paise : ℕ
  pub platform_paise : ℕ
  pub captain_rate : ℕ
  pub captain_rate_agreed : ℕ
  pub capped : Bool

-- `repriceCaptainShare`
unfoldable pub reprice_captain_share : ℕ → ℕ → ℕ → ℕ → Result CaptainShare
reprice_captain_share pool amount agreed_rate party_rate = do
  uncapped ← percent_of_paise amount agreed_rate
  let captain_paise = min uncapped pool
  let capped = ltb captain_paise uncapped
  ok (record {
    captain_paise = captain_paise;
    platform_paise = pool - captain_paise;
    captain_rate = if capped then party_rate else agreed_rate;
    captain_rate_agreed = agreed_rate;
    capped = capped;
  })
