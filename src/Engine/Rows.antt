-- ===== src/Engine/Rows.antt =====
-- How the row of a transaction changes: by moves of the table, each recorded in its history, and
-- by the note that the captain was paid. Its party, its reference, its amount and its charge stay.
use flitepay.Prelude.{
  ℕ, ◌≡◌, ◌⊎◌, inl, inr, sym, ap, ◌∙◌, subst, Bool, true, none, some, [], ◌∷◌, arith, ◌==◌,
  if◌then◌else◌, Bool-cases, Option-cases,
}
use flitepay.Prelude.Dict.{lookup, insert, lookup-insert}
use flitepay.Machine.Transaction.{created, can_transition}
use flitepay.Store.{StateChange, Transaction, Store}

-- What never changes.
abbrev pub SameDeal : Transaction → Transaction → Type 0
SameDeal a b =
    (b.party_id ≡ a.party_id)
    × (b.party_reference ≡ a.party_reference)
    × (b.amount ≡ a.amount)
    × (b.party_commission ≡ a.party_commission)

-- The row `b` comes from the row `a`.
pub data Follows (a : Transaction) : Transaction → Type 0 where
  stays : Follows a a
  moves :
      (b c : Transaction) (entry : StateChange)
      → Follows a b
      → can_transition b.status c.status ≡ true
      → entry.from ≡ some b.status
      → entry.to ≡ c.status
      → c.state_history ≡ entry ∷ b.state_history
      → SameDeal b c
      → Follows a c
  notes :
      (b : Transaction) (paid : Bool)
      → Follows a b
      → Follows a (record b { commission_paid = paid })

pub Follows-trans : (a b c : Transaction) → Follows a b → Follows b c → Follows a c
Follows-trans a b _ h stays = h
Follows-trans a b c h (moves d _ entry k legal before after recorded deal) =
    moves d c entry (Follows-trans a b d h k) legal before after recorded deal
Follows-trans a b _ h (notes d paid k) = notes d paid (Follows-trans a b d h k)

abbrev pub IsNew : Transaction → Type 0
IsNew a =
    (a.status ≡ created)
    × ((entry : StateChange) × (a.state_history ≡ entry ∷ [])
        × (entry.from ≡ none)
        × (entry.to ≡ created))

-- Where the row `b` under `id` comes from: a row of `s`, or one that is new.
abbrev pub Origin : Store → ℕ → Transaction → Type 0
Origin s id b =
    (a : Transaction) × ((lookup id s.transactions ≡ some a)
      ⊎ ((lookup id s.transactions ≡ none) × IsNew a))
    × Follows a b

-- From `s` to `t` no row is lost, and every row comes from one of `s` or is new.
abbrev pub Rows : Store → Store → Type 0
Rows s t =
    ((id : ℕ) (a : Transaction)
      → lookup id s.transactions ≡ some a
      → (b : Transaction) × (lookup id t.transactions ≡ some b) × Follows a b)
    × ((id : ℕ) (b : Transaction) → lookup id t.transactions ≡ some b → Origin s id b)

pub Rows-refl : (s : Store) → Rows s s
Rows-refl s = (λ id a e. (a, e, stays), λ id b e. (b, inl e, stays))

-- A write to other documents.
pub Rows-same : (s t u : Store) → Rows s t → u.transactions ≡ t.transactions → Rows s u
Rows-same s t u r e = (
  λ id a h. let (b, at, f) = r.0 id a h in (b, ap (lookup id) e ∙ at, f),
  λ id b h. r.1 id b (ap (lookup id) (sym e) ∙ h),
)

written :
    (j id : ℕ) (c : Transaction) (t u : Store)
    → u.transactions ≡ insert id c t.transactions
    → lookup j u.transactions ≡ (if j == id then some c else lookup j t.transactions)
written j id c t u e = ap (lookup j) e ∙ lookup-insert j id c t.transactions

-- A write that replaces a row by one that follows from it.
pub Rows-write :
    (s t u : Store) (id : ℕ) (b c : Transaction)
    → Rows s t
    → lookup id t.transactions ≡ some b
    → Follows b c
    → u.transactions ≡ insert id c t.transactions
    → Rows s u
Rows-write s t u id b c r found f e = (kept, from)
  where
    kept :
        (j : ℕ) (a : Transaction)
        → lookup j s.transactions ≡ some a
        → (d : Transaction) × (lookup j u.transactions ≡ some d) × Follows a d
    kept j a h =
        let (d, at, g) = r.0 j a h in
        elim (Bool-cases (j == id)) [
          | inr elsewhere ↦ (d, written j id c t u e ∙ ground arith, g)
          | inl here ↦
              let same : d ≡ b = ground arith in
              (
                c,
                written j id c t u e ∙ ground arith,
                Follows-trans a b c (subst (Follows a) same g) f,
              )
        ]

    from : (j : ℕ) (d : Transaction) → lookup j u.transactions ≡ some d → Origin s j d
    from j d h =
        let at = sym (written j id c t u e) ∙ h in
        elim (Bool-cases (j == id)) [
          | inr elsewhere ↦ r.1 j d (ground arith)
          | inl here ↦
              let same : c ≡ d = ground arith in
              let (a, o, g) = r.1 j b (ground arith) in
              (a, o, subst (Follows a) same (Follows-trans a b c g f))
        ]

taken :
    (j id : ℕ) (d : Transaction) (t : Store)
    → (j == id) ≡ true
    → lookup j t.transactions ≡ some d
    → lookup id t.transactions ≡ none
    → ⊥
taken j id d t here at missing = ground arith

-- A write that adds a row.
pub Rows-new :
    (s t u : Store) (id : ℕ) (c : Transaction)
    → Rows s t
    → lookup id t.transactions ≡ none
    → IsNew c
    → u.transactions ≡ insert id c t.transactions
    → Rows s u
Rows-new s t u id c r missing new e = (kept, from)
  where
    kept :
        (j : ℕ) (a : Transaction)
        → lookup j s.transactions ≡ some a
        → (d : Transaction) × (lookup j u.transactions ≡ some d) × Follows a d
    kept j a h =
        let (d, at, g) = r.0 j a h in
        elim (Bool-cases (j == id)) [
          | inr elsewhere ↦ (d, written j id c t u e ∙ ground arith, g)
          | inl here ↦ absurd (taken j id d t here at missing)
        ]

    from : (j : ℕ) (d : Transaction) → lookup j u.transactions ≡ some d → Origin s j d
    from j d h =
        let at = sym (written j id c t u e) ∙ h in
        elim (Bool-cases (j == id)) [
          | inr elsewhere ↦ r.1 j d (ground arith)
          | inl here ↦
              let same : c ≡ d = ground arith in
              elim (Option-cases (lookup j s.transactions)) [
                | inl gone ↦ (c, inr (gone, new), subst (Follows c) same stays)
                | inr (a, there) ↦
                    let (b, at_t, g) = r.0 j a there in absurd (taken j id b t here at_t missing)
              ]
        ]
