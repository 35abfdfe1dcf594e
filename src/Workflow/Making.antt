-- ===== src/Workflow/Making.antt =====
-- Creating a pay-out reserves the party's money, or gives it back.
use flitepay.Prelude.{
  ℕ, ◌+◌, ◌≤◌, ◌≡◌, ◌⊎◌, inl, inr, refl, sym, subst, ◌∙◌, true, false, Option, none, some, List, [],
  ◌∷◌, Text, arith, is_some, Bool-cases, Option-cases,
}
use flitepay.Prelude.Int.{ℤ, pos, ◌+ℤ◌, ◌-ℤ◌, int_laws}
use flitepay.Prelude.Dict.{lookup, insert}
use flitepay.Errors.{AppError, Result, ok, err, internal, unprocessable, insufficient_dmc_balance}
use flitepay.Money.{max_paise}
use flitepay.Commission.{
  pay_out, RateConfig, PartyRates, DirectionalCommission, party_rate_for, commission_for,
}
use flitepay.Commission.Shares.{commission_for-share, commission_for-sum}
use flitepay.Money.Rounding.{IsSafeCharge}
use flitepay.Money.{percent_of_paise}
use flitepay.Machine.Task.{created, holds_collateral}
use flitepay.Store.{Store, Action, lift, pure, catch, ◌>>=◌, ◌>>◌}
use flitepay.Store.Tasks.{ActorContext, Task}
use flitepay.Store.Finding.{put_task}
use flitepay.Engine.Worth.{Shift-party, insert_keeps}
use flitepay.Routing.Offers.{offer_to_next_captain}
use flitepay.Workflow.Creation.{
  CreateTaskInput, covers, add_dmc, debit_party_dmc_balance, new_task, insert_task, has_reference,
  refund_debit, create_task_from, create_task, create_priced, Bounds, assert_amount_within_bounds,
  assert_party_limits,
}
use flitepay.Workflow.Worth.{
  stake, is_waiting, Funds-new, Funds-Funds, Funds-none, IsBacked, IsSound-put,
}
use flitepay.Workflow.Flow.{Balanced, Flow, Flow-Moved, Does-pure, bind_ok}
use flitepay.Workflow.Routed.{still-then, offer_to_next_captain-Does}
use flitepay.Workflow.Refunds.{stake_waiting}
use flitepay.Workflow.Level.{Does-Balanced}
use flitepay.Workflow.Claiming.{Throughput}
use flitepay.Engine.Create.{rates_of}
use flitepay.Workflow.Rules.{Leads, leads, Leads-lift}
use flitepay.Errors.{result_cases}

-- A credit of a party and a debit, for one who is there.
add_dmc-Flow :
    (p g l : ℕ) (amount : ℤ) (s : Store)
    → is_some (lookup p s.parties) ≡ true
    → amount ≡ pos g -ℤ pos l
    → Flow s (add_dmc p amount s) g l
add_dmc-Flow p g l amount s there e = elim (Option-cases (lookup p s.parties)) [
  | inl missing ↦ absurd (ground arith)
  | inr (party, found) ↦
      let t : ℤ → Store = λ b. record s {
        parties = insert p (record party { dmc_balance = party.dmc_balance +ℤ b }) s.parties;
      } in
      let at : add_dmc p amount s ≡ t amount = ground arith in
      let moved : Flow s (t (pos g -ℤ pos l)) g l = Flow-Moved s (t (pos g -ℤ pos l)) g l (
        Shift-party p g l party s found,
        (
          λ id h. h,
          insert_keeps p (record party { dmc_balance = party.dmc_balance +ℤ (pos g -ℤ pos l) })
              s.parties,
        ),
        refl,
        refl,
      ) in
      subst (λ x. Flow s x g l) (sym at) (subst (λ b. Flow s (t b) g l) (sym e) moved)
]

pub debit_cases :
    (p total : ℕ) (s : Store)
    → ((e : AppError) × (debit_party_dmc_balance p total s ≡ (err e, s)))
      ⊎ ((debit_party_dmc_balance p total s ≡ (ok tt, add_dmc p (pos 0 -ℤ pos total) s))
          × (is_some (lookup p s.parties) ≡ true))
unfolding debit_party_dmc_balance
debit_cases p total s = elim (Option-cases (lookup p s.parties)) [
  | inl missing ↦ inl (unprocessable insufficient_dmc_balance, ground arith)
  | inr (party, found) ↦ elim (Bool-cases (covers party.dmc_balance total)) [
    | inl enough ↦ inr (ground arith, rw found refl)
    | inr short ↦ inl (unprocessable insufficient_dmc_balance, ground arith)
  ]
]

-- The insert writes one row, of the first reference that is free, or fails.
pub insert_cases :
    (id : ℕ) (row : Text → Task) (references : List Text) (s : Store)
    → ((e : AppError) × (insert_task id row references s ≡ (err e, s)))
      ⊎ ((reference : Text) × (insert_task id row references s
            ≡ (ok (row reference), put_task id (row reference) s)))
unfolding insert_task
insert_cases id row [] s = inl (_, refl)
insert_cases id row (reference ∷ rest) s =
    elim (Bool-cases (has_reference (row reference).party_id reference s.tasks)) [
      | inl taken ↦ rw taken (insert_cases id row rest s)
      | inr free ↦ inr (reference, rw free refl)
    ]

pub add_dmc_tasks : (p : ℕ) (amount : ℤ) (s : Store) → (add_dmc p amount s).tasks ≡ s.tasks
add_dmc_tasks p amount s = elim (Option-cases (lookup p s.parties)) [
  | inl missing ↦ ground arith
  | inr (party, found) ↦ ground arith
]

created_waits : is_waiting created ≡ true
unfolding is_waiting
created_waits = refl

created_free : holds_collateral created ≡ false
unfolding holds_collateral
created_free = refl

-- The row of a new task, in a database where its party is there.
new-IsBacked :
    (s : Store) (input : CreateTaskInput) (split : DirectionalCommission) (actor : ActorContext)
    (now : ℕ) (reference : Text)
    → is_some (lookup input.party_id s.parties) ≡ true
    → split.captain_paise + split.platform_paise ≤ max_paise
    → IsBacked s (new_task input split actor now reference)
new-IsBacked s input split actor now reference there safe =
    (there, (λ _. safe), (λ c named. cc), (λ h. let f = created_free in absurd (cc)), refl)

pub bind_err :
    {A B : Type 0} (m : Action A) (f : A → Action B) (s t : Store) (e : AppError)
    → m s ≡ (err e, t)
    → (m >>= f) s ≡ (err e, t)
bind_err m f s t e h = ground arith

pub catch_ok :
    {A : Type 0} (m : Action A) (h : AppError → Action A) (s t : Store) (a : A)
    → m s ≡ (ok a, t)
    → catch m h s ≡ (ok a, t)
catch_ok m h s t a e = ground arith

pub catch_err :
    {A : Type 0} (m : Action A) (h : AppError → Action A) (s t : Store) (e : AppError)
    → m s ≡ (err e, t)
    → catch m h s ≡ h e t
catch_err m h s t e k = ground arith

Balanced-at :
    {A : Type 0} (w : ℤ) {p q : Result A × Store} → p ≡ q → Balanced w q.1 → Balanced w p.1
Balanced-at {A} w e b = subst (λ (x : Result A × Store). Balanced w x.1) (sym e) b

-- What follows the debit: the row, or the refund.
after_debit-Balanced :
    (w : ℤ) (id : ℕ) (input : CreateTaskInput) (split : DirectionalCommission)
    (references : List Text) (actor : ActorContext) (now : ℕ) (s r : Store)
    → Balanced w s
    → Flow s r 0 (input.amount + split.party_paise)
    → lookup id r.tasks ≡ none
    → is_some (lookup input.party_id r.parties) ≡ true
    → split.captain_paise + split.platform_paise ≡ split.party_paise
    → split.party_paise ≤ max_paise
    → Balanced w
        ((catch
              (insert_task id (new_task input split actor now) references)
              (refund_debit false input.party_id (input.amount + split.party_paise))
            >>= λ task. offer_to_next_captain id now >> pure task)
          r).1
unfolding refund_debit
after_debit-Balanced w id input split references actor now s r b f fresh there sums safe =
    let total = input.amount + split.party_paise in
    let row = new_task input split actor now in
    let insertion = insert_task id row references in
    let refund = refund_debit false input.party_id total in
    let end = λ (task : Task). offer_to_next_captain id now >> pure task in
    elim (insert_cases id row references r) [
      | inl (e, failed) ↦
          let back = add_dmc-Flow input.party_id total 0 (pos total) r there (omega int_laws) in
          let t = add_dmc input.party_id (pos total) r in
          Balanced-at w
            (bind_err (catch insertion refund) end r t e (catch_err insertion refund r r e failed))
            (
              back.2 (f.2 b.0),
              Funds-none s t (0 + total) (total + 0) (Funds-Funds s r t 0 total total 0 f.0 back.0)
                    (omega arith)
                  ∙ b.1,
            )
      | inr (reference, written) ↦
          let u = row reference in
          let t = put_task id u r in
          let backed = new-IsBacked r input split actor now reference there (rw sums safe) in
          let funds = Funds-Funds s r t 0 total (stake u) 0 f.0 (Funds-new id u r fresh) in
          let done : Balanced w t = (
            IsSound-put r id u (f.2 b.0) backed,
            Funds-none s t (0 + stake u) (total + 0) funds
                  (omega (arith, stake_waiting u created_waits, sums))
                ∙ b.1,
          ) in
          Balanced-at w
            (bind_ok (catch insertion refund) end r t u (catch_ok insertion refund r t u written))
            (Does-Balanced w (end u) t done (
              still-then (offer_to_next_captain id now) (pure u) t
                (offer_to_next_captain-Does id now t) (λ x. Does-pure u x)))
    ]

-- Creating a pay-out, outside a session.
pub create_task_from-Balanced :
    (w : ℤ) (id : ℕ) (input : CreateTaskInput) (split : DirectionalCommission)
    (references : List Text) (actor : ActorContext) (now : ℕ) (s : Store)
    → Balanced w s
    → lookup id s.tasks ≡ none
    → split.captain_paise + split.platform_paise ≡ split.party_paise
    → split.party_paise ≤ max_paise
    → Balanced w (create_task_from false id input split references actor now s).1
unfolding create_task_from
create_task_from-Balanced w id input split references actor now s b fresh sums safe =
    let total = input.amount + split.party_paise in
    let debit = debit_party_dmc_balance input.party_id total in
    let row = new_task input split actor now in
    let rest =
      catch (insert_task id row references) (refund_debit false input.party_id total)
      >>= λ (task : Task). offer_to_next_captain id now >> pure task in
    elim (debit_cases input.party_id total s) [
      | inl (e, refused) ↦ Balanced-at w (bind_err debit (λ _. rest) s s e refused) b
      | inr (taken, there) ↦
          let r = add_dmc input.party_id (pos 0 -ℤ pos total) s in
          let f = add_dmc-Flow input.party_id 0 total (pos 0 -ℤ pos total) s there refl in
          let fresh_then : lookup id r.tasks ≡ none =
            subst (λ d. lookup id d ≡ none)
              (sym (add_dmc_tasks input.party_id (pos 0 -ℤ pos total) s)) fresh in
          Balanced-at w (bind_ok debit (λ _. rest) s r tt taken) (
            after_debit-Balanced w id input split references actor now s r b f fresh_then
              (f.1.1 input.party_id there) sums safe)
    ]

-- What the party is charged is split without loss, and is a safe amount.
split_safe :
    (amount : ℕ) (config : RateConfig) (rates : Option PartyRates) (split : DirectionalCommission)
    → IsSafeCharge amount (party_rate_for pay_out config rates)
    → commission_for pay_out amount config rates none ≡ ok split
    → (split.captain_paise + split.platform_paise ≡ split.party_paise)
      × (split.party_paise ≤ max_paise)
split_safe amount config rates split safe h =
    let share = commission_for-share pay_out amount config rates none h in
    (
      commission_for-sum pay_out amount config rates none h,
      safe split.party_paise
          (subst (λ rate. percent_of_paise amount rate ≡ ok split.party_paise) share.2 share.0),
    )

-- What a creation needs of the database: a new id, and a rate of the party that charges a safe
-- amount.
abbrev pub MayCreate : ℕ → CreateTaskInput → Store → Type 0
MayCreate id input s =
    (lookup id s.tasks ≡ none)
    × IsSafeCharge input.amount
        (party_rate_for pay_out s.config (rates_of (lookup input.party_id s.parties)))

create_priced-Balanced :
    (w : ℤ) (id : ℕ) (input : CreateTaskInput) (references : List Text) (actor : ActorContext)
    (now : ℕ) (s : Store)
    → Balanced w s
    → MayCreate id input s
    → Balanced w (create_priced false id input references actor now s).1
unfolding create_priced
create_priced-Balanced w id input references actor now s b (fresh, top) =
    elim (Option-cases (lookup input.party_id s.parties)) [
      | inl missing ↦
          let at : create_priced false id input references actor now s ≡ (err internal, s) =
            ground arith in
          Balanced-at w at b
      | inr (p, found) ↦
          let price = commission_for pay_out input.amount s.config (some p.rates) none in
          let cheap : IsSafeCharge input.amount (party_rate_for pay_out s.config (some p.rates)) =
            subst (λ o. IsSafeCharge input.amount (party_rate_for pay_out s.config (rates_of o)))
              found top in
          let next =
            λ (x : DirectionalCommission). create_task_from false id input x references actor now in
          let priced = lift price >>= next in
          let at : create_priced false id input references actor now s ≡ priced s = ground arith in
          Balanced-at w at (elim (result_cases price) [
            | inl (e, refused) ↦
                Balanced-at w (bind_err (lift price) next s s e (rw refused refl)) b
            | inr (split, quoted) ↦
                let sums = split_safe input.amount s.config (some p.rates) split cheap quoted in
                Balanced-at w (bind_ok (lift price) next s s split (rw quoted refl)) (
                  create_task_from-Balanced w id input split references actor now s b fresh sums.0
                    sums.1)
          ])
    ]

-- Creating a pay-out, with its checks.
pub create_task-Balanced :
    (w : ℤ) (bounds : Bounds) (used : Throughput) (id : ℕ) (input : CreateTaskInput)
    (references : List Text) (actor : ActorContext) (now : ℕ)
    → Leads
        (λ s. Balanced w s × MayCreate id input s)
        (Balanced w)
        (create_task false bounds used id input references actor now)
unfolding create_task
create_task-Balanced w bounds used id input references actor now =
    Leads-lift (λ s p. p.0) (assert_amount_within_bounds bounds input.amount)
      (λ _ _.
        Leads-lift (λ s p. p.0) (assert_party_limits used input.amount)
          (λ _ _.
            leads {m = create_priced false id input references actor now}
              (λ s p. create_priced-Balanced w id input references actor now s p.0 p.1)))
