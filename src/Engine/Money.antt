-- ===== src/Engine/Money.antt =====
-- The money steps of a settlement and of a refund, one lemma each: where they lead, and what they
-- add to and take from the DMC in circulation.
use flitepay.Prelude.{
  ℕ, ◌+◌, ◌-◌, ◌≤◌, ◌≡◌, inl, inr, refl, ◌∙◌, subst, Bool, true, false, Option, none, some, List,
  ◌∷◌, arith, ◌==◌, is_some, Bool-cases, Option-cases,
}
use flitepay.Prelude.Int.{pos, ◌+ℤ◌, ◌-ℤ◌, int_laws, parts_of_eq}
use flitepay.Prelude.Dict.{lookup, insert}
use flitepay.Errors.{ok}
use flitepay.Money.{max_paise}
use flitepay.Store.{Captain, Transaction, WalletEntry, Store}
use flitepay.Pool.Laws.{pool_of, funded_of, with_pool, pool_credits}
use flitepay.Balance.{earn}
use flitepay.Balance.Commission.{entry_of, pay_commission_to_captain_lem}
use flitepay.Engine.{credit_captain, credit_party, collect_commission, pay_captain}
use flitepay.Engine.Worth.{
  Shift, Shift-captain, Shift-party, Shift-pool, Shift-Shift, HasCaptain, Keeps, Keeps-refl,
  Keeps-trans, insert_keeps, worth-wallet_entries,
}

-- From `s` to `t` no account is lost, no transaction and no task changes, and the worth shifts.
abbrev pub Moved : Store → Store → ℕ → ℕ → Type 0
Moved s t gain loss =
    Shift s t gain loss × Keeps s t × (t.transactions ≡ s.transactions) × (t.tasks ≡ s.tasks)

pub Moved-trans :
    (s t u : Store) (g l g' l' : ℕ) → Moved s t g l → Moved t u g' l' → Moved s u (g + g') (l + l')
Moved-trans s t u g l g' l' h k =
    (Shift-Shift s t u g l g' l' h.0 k.0, Keeps-trans s t u h.1 k.1, k.2 ∙ h.2, k.3 ∙ h.3)

pub Shift-level : (s t : Store) (g l g' l' : ℕ) → Shift s t g l → g + l' ≡ g' + l → Shift s t g' l'
Shift-level s t g l g' l' h e = omega (int_laws, parts_of_eq _ _ h)

pub some_of : {A : Type 0} (o : Option A) → is_some o ≡ true → (a : A) × (o ≡ some a)
some_of none h = cc
some_of (some a) h = (a, refl)

-- A refund to a captain who is there.
pub credit_captain-Moved :
    (c amount : ℕ) (s : Store)
    → is_some (lookup c s.captains) ≡ true
    → (t : Store) × (credit_captain c amount s ≡ (ok tt, t)) × Moved s t amount 0
unfolding credit_captain
credit_captain-Moved c amount s there =
    let (cap, found) = some_of (lookup c s.captains) there in
    let d = record cap { dmc_balance = cap.dmc_balance + amount } in
    (
      record s { captains = insert c d s.captains },
      ground arith,
      (
        Shift-level _ _ _ _ amount 0 (Shift-captain c cap d s found) (omega arith),
        (insert_keeps c d s.captains, λ id h. h),
        refl,
        refl,
      ),
    )

-- The party's credit, less what it is charged.
pub credit_party-Moved :
    (p amount commission : ℕ) (s : Store)
    → is_some (lookup p s.parties) ≡ true
    → (t : Store) × (credit_party p amount commission s ≡ (ok tt, t)) × Moved s t amount commission
unfolding credit_party
credit_party-Moved p amount commission s there =
    let (party, found) = some_of (lookup p s.parties) there in
    let q = record party { dmc_balance = party.dmc_balance +ℤ (pos amount -ℤ pos commission) } in
    (
      record s { parties = insert p q s.parties },
      ground arith,
      (
        Shift-party p amount commission party s found,
        (λ id h. h, insert_keeps p q s.parties),
        refl,
        refl,
      ),
    )

pub with_pool-Moved :
    (balance funded : ℕ) (s : Store) → Moved s (with_pool balance funded s) balance (pool_of s)
with_pool-Moved balance funded s = (Shift-pool balance funded s, (λ id h. h, λ id h. h), refl, refl)

-- What the party is charged goes into the pool.
pub collect_commission-Moved :
    (commission : ℕ) (s : Store)
    → commission ≤ max_paise
    → (t : Store) × (collect_commission commission s ≡ (ok tt, t)) × Moved s t commission 0
unfolding collect_commission
collect_commission-Moved commission s safe = elim (pool_credits commission s) [
  | inl (positive, _, collected, _) ↦
      let m = with_pool-Moved (pool_of s + commission) (funded_of s) s in
      (
        with_pool (pool_of s + commission) (funded_of s) s,
        ground arith,
        (Shift-level _ _ _ _ commission 0 m.0 (omega arith), m.1, m.2, m.3),
      )
  | inr (refused, _, _) ↦
      let zero_commission : commission ≡ 0 = omega arith in
      (s, ground arith, (rw zero_commission refl, Keeps-refl s, refl, refl))
]

abbrev pub paid_store : ℕ → ℕ → Captain → List WalletEntry → Store → Store
paid_store c amount cap es s = record s {
  platform = (with_pool (pool_of s - amount) (funded_of s) s).platform;
  captains = insert c (earn amount cap) s.captains;
  wallet_entries = es;
}

pub paid-Moved :
    (c amount : ℕ) (cap : Captain) (s : Store) (es : List WalletEntry)
    → amount ≤ pool_of s
    → lookup c s.captains ≡ some cap
    → Moved s (paid_store c amount cap es s) 0 0
paid-Moved c amount cap s es covered found =
    let s1 = with_pool (pool_of s - amount) (funded_of s) s in
    let s2 = record s1 { captains = insert c (earn amount cap) s1.captains } in
    let m =
      Shift-Shift s s1 s2 (pool_of s - amount) (pool_of s) (cap.dmc_balance + amount)
        cap.dmc_balance (Shift-pool (pool_of s - amount) (funded_of s) s)
        (Shift-captain c cap (earn amount cap) s1 found) in
    (
      rw (worth-wallet_entries s2 es) (Shift-level s s2 _ _ 0 0 m (omega arith)),
      (insert_keeps c (earn amount cap) s.captains, λ id h. h),
      refl,
      refl,
    )

-- The captain's commission moves from the pool to the captain, or stays where it is.
pub pay_captain-Moved :
    (session : Bool) (id : ℕ) (u : Transaction) (s : Store)
    → HasCaptain s u.captain_id
    → (b : Bool) × (t : Store) × (pay_captain session id u s ≡ (ok b, t)) × Moved s t 0 0
unfolding pay_captain
pay_captain-Moved session id u s has = elim (Bool-cases (u.commission == 0)) [
  | inl free ↦ (true, s, ground arith, (refl, Keeps-refl s, refl, refl))
  | inr owed ↦ elim (Option-cases u.captain_id) [
    | inl nobody ↦ absurd (subst (HasCaptain s) nobody has)
    | inr (c, named) ↦
        let (cap, found) = some_of (lookup c s.captains) (subst (HasCaptain s) named has) in
        elim (pay_commission_to_captain_lem c u.commission session (some id) s (ground arith)
          found) [
            | inl (covered, done) ↦
                let es = entry_of c u.commission (some id) cap ∷ s.wallet_entries in
                (
                  true,
                  paid_store c u.commission cap es s,
                  ground arith,
                  paid-Moved c u.commission cap s es covered found,
                )
            | inr (short, kept) ↦ (false, s, ground arith, (refl, Keeps-refl s, refl, refl))
          ]
  ]
]
