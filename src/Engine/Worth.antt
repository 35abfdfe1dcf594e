-- ===== src/Engine/Worth.antt =====
-- The DMC in circulation: what the captains, the parties and the pool hold, and what transactions
-- hold aside; and what each write of the engine does to it.
use flitepay.Prelude.{
  ℕ, ◌+◌, ◌≤◌, ◌≡◌, inl, inr, ◌∙◌, refl, true, Option, none, some, List, arith, ◌==◌, is_some,
  if◌then◌else◌, ap, sym, subst, Bool-cases,
}
use flitepay.Prelude.Int.{ℤ, pos, ◌+ℤ◌, ◌-ℤ◌, int_laws, parts_of_eq}
use flitepay.Prelude.Dict.{
  Dict, lookup, insert, lookup-insert, total, total-insert, total-insert_new,
}
use flitepay.Money.{max_paise}
use flitepay.Machine.Transaction.{holds_funds}
use flitepay.Store.{Captain, Party, Transaction, WalletEntry, Store}
use flitepay.Store.Tasks.{Task, Proof, TaskOffer, CommissionEntry}
use flitepay.Allocation.{Allocation}
use flitepay.Pool.Laws.{pool_of, with_pool}

abbrev pub captain_dmc : Captain → ℤ
captain_dmc c = pos c.dmc_balance

abbrev pub party_dmc : Party → ℤ
party_dmc p = p.dmc_balance

-- What is put aside for a transaction.
abbrev pub held : Transaction → ℕ
held t = if holds_funds t.status then t.amount else 0

abbrev held_dmc : Transaction → ℤ
held_dmc t = pos (held t)

pub worth : Store → ℤ
worth s =
    total captain_dmc s.captains
    +ℤ total party_dmc s.parties
    +ℤ pos (pool_of s)
    +ℤ total held_dmc s.transactions

-- The ledger is no money.
pub worth-wallet_entries :
    (s : Store) (es : List WalletEntry) → worth (record s { wallet_entries = es }) ≡ worth s
unfolding worth
worth-wallet_entries s es = refl

-- Nor is a task, where the engine counts.
pub worth-tasks : (s : Store) (d : Dict Task) → worth (record s { tasks = d }) ≡ worth s
unfolding worth
worth-tasks s d = refl

-- Nor are proofs, offers, the ledger of commissions and allocations.
pub worth-rows :
    (s : Store) (ps : List Proof) (os : List TaskOffer) (cs : Dict CommissionEntry)
    (rows : Dict Allocation)
    → worth (record s { proofs = ps; offers = os; commissions = cs; allocations = rows }) ≡ worth s
unfolding worth
worth-rows s ps os cs rows = refl

-- From `s` to `t` the worth has risen by `gain` and fallen by `loss`.
abbrev pub Shift : Store → Store → ℕ → ℕ → Type 0
Shift s t gain loss = worth t +ℤ pos loss ≡ worth s +ℤ pos gain

pub Shift-captain :
    (id : ℕ) (c d : Captain) (s : Store)
    → lookup id s.captains ≡ some c
    → Shift s (record s { captains = insert id d s.captains }) d.dmc_balance c.dmc_balance
unfolding worth
Shift-captain id c d s e =
    omega (int_laws, parts_of_eq _ _ (total-insert captain_dmc id d c s.captains e))

pub Shift-transaction :
    (id : ℕ) (t u : Transaction) (s : Store)
    → lookup id s.transactions ≡ some t
    → Shift s (record s { transactions = insert id u s.transactions }) (held u) (held t)
unfolding worth
Shift-transaction id t u s e =
    omega (int_laws, parts_of_eq _ _ (total-insert held_dmc id u t s.transactions e))

pub worth_new_transaction :
    (id : ℕ) (u : Transaction) (s : Store)
    → lookup id s.transactions ≡ none
    → Shift s (record s { transactions = insert id u s.transactions }) (held u) 0
unfolding worth
worth_new_transaction id u s e =
    omega (int_laws, parts_of_eq _ _ (total-insert_new held_dmc id u s.transactions e))

pub Shift-party :
    (id amount commission : ℕ) (p : Party) (s : Store)
    → lookup id s.parties ≡ some p
    → Shift s
        (record s {
          parties =
              insert id
                (record p { dmc_balance = p.dmc_balance +ℤ (pos amount -ℤ pos commission) })
                s.parties;
        })
        amount
        commission
unfolding worth
Shift-party id amount commission p s e = omega (
  int_laws,
  parts_of_eq _ _ (
      total-insert party_dmc id
        (record p { dmc_balance = p.dmc_balance +ℤ (pos amount -ℤ pos commission) }) p s.parties e),
)

pub Shift-pool :
    (balance funded : ℕ) (s : Store) → Shift s (with_pool balance funded s) balance (pool_of s)
unfolding worth
Shift-pool balance funded s = omega int_laws

pub Shift-Shift :
    (s t u : Store) (g l g' l' : ℕ) → Shift s t g l → Shift t u g' l' → Shift s u (g + g') (l + l')
Shift-Shift s t u g l g' l' h k = omega (int_laws, parts_of_eq _ _ h, parts_of_eq _ _ k)

pub Shift-none : (s t : Store) (g l : ℕ) → Shift s t g l → g ≡ l → worth t ≡ worth s
Shift-none s t g l h e = omega (int_laws, parts_of_eq _ _ h)

-- A captain who is named is there.
abbrev pub HasCaptain : Store → Option ℕ → Type 0
HasCaptain s none = ⊥
HasCaptain s (some c) = is_some (lookup c s.captains) ≡ true

-- A transaction whose party is there, whose charge is a safe amount, and whose captain is there
-- while it holds funds.
abbrev pub IsBacked : Store → Transaction → Type 0
IsBacked s t =
    (is_some (lookup t.party_id s.parties) ≡ true)
    × (t.party_commission ≤ max_paise)
    × (holds_funds t.status ≡ true → HasCaptain s t.captain_id)

abbrev pub IsSound : Store → Type 0
IsSound s = (id : ℕ) (t : Transaction) → lookup id s.transactions ≡ some t → IsBacked s t

-- A write that keeps every account keeps what backs a transaction.
abbrev pub Keeps : Store → Store → Type 0
Keeps s t =
    ((id : ℕ) → is_some (lookup id s.captains) ≡ true → is_some (lookup id t.captains) ≡ true)
    × ((id : ℕ) → is_some (lookup id s.parties) ≡ true → is_some (lookup id t.parties) ≡ true)

IsBacked-Keeps : (s t : Store) (u : Transaction) → Keeps s t → IsBacked s u → IsBacked t u
IsBacked-Keeps s t u k b = (k.1 u.party_id b.0, b.1, λ h. has u.captain_id (b.2 h))
  where
    has : (o : Option ℕ) → HasCaptain s o → HasCaptain t o
    has none h = h
    has (some c) h = k.0 c h

pub Keeps-refl : (s : Store) → Keeps s s
Keeps-refl s = (λ id h. h, λ id h. h)

pub Keeps-trans : (s t u : Store) → Keeps s t → Keeps t u → Keeps s u
Keeps-trans s t u h k = (λ id e. k.0 id (h.0 id e), λ id e. k.1 id (h.1 id e))

-- An account that is replaced is still there.
pub insert_keeps {ℓ} :
    {V : Type ℓ} (k : ℕ) (v : V) (d : Dict V) (id : ℕ)
    → is_some (lookup id d) ≡ true
    → is_some (lookup id (insert k v d)) ≡ true
insert_keeps k v d id h = ground (arith, lookup-insert id k v d)

-- The transactions of `s` with at most one of them replaced by one that is backed.
pub IsSound-write :
    (s t : Store) (id : ℕ) (u : Transaction)
    → IsSound s
    → Keeps s t
    → t.transactions ≡ insert id u s.transactions
    → IsBacked s u
    → IsSound t
IsSound-write s t id u sound k e b j v found =
    let at : (if j == id then some u else lookup j s.transactions) ≡ some v =
      sym (lookup-insert j id u s.transactions) ∙ sym (ap (lookup j) e) ∙ found in
    elim (Bool-cases (j == id)) [
      | inl here ↦
          let same : u ≡ v = ground arith in subst (IsBacked t) same (IsBacked-Keeps s t u k b)
      | inr elsewhere ↦
          let old : lookup j s.transactions ≡ some v = ground arith in
          IsBacked-Keeps s t v k (sound j v old)
    ]

pub IsSound-same :
    (s t : Store) → IsSound s → Keeps s t → t.transactions ≡ s.transactions → IsSound t
IsSound-same s t sound k e j v found =
    IsBacked-Keeps s t v k (sound j v (ap (lookup j) (sym e) ∙ found))
