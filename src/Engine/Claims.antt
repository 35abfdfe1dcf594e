-- ===== src/Engine/Claims.antt =====
-- The three outcomes of a claim, and what a hand-over of control leaves alone.
use flitepay.Prelude.{
  ℕ, ◌≡◌, ◌⊎◌, inl, inr, refl, sym, ap, subst, ◌∙◌, Bool, true, false, Option, none, some, Text,
  arith, Bool-cases, Option-cases,
}
use flitepay.Prelude.Int.{ℤ}
use flitepay.Prelude.Dict.{lookup}
use flitepay.Errors.{AppError, Result, ok, err, conflict, invalid_state_transition}
use flitepay.Machine.Transaction.{
  TransactionState, created, same, can_transition, holds_funds, assert_transition,
}
use flitepay.Store.{Transaction, Store, Action, atomically, finish, ◌>>=◌}
use flitepay.Engine.{put, move, compare_and_move, claim, if_won, conclude}
use flitepay.Engine.Worth.{
  worth, held, Shift-transaction, Shift-none, IsBacked, HasCaptain, IsSound, IsSound-write,
  Keeps-refl,
}

pub same_eq : (s t : TransactionState) → same s t ≡ true → s ≡ t
same_eq created t h = ground arith
same_eq _ t h = ground arith

pub assert_cases :
    (from to : TransactionState)
    → ((can_transition from to ≡ true) × (assert_transition from to ≡ ok tt))
      ⊎ ((can_transition from to ≡ false)
          × (assert_transition from to ≡ err (conflict invalid_state_transition)))
unfolding assert_transition can_transition
assert_cases created to = ground arith
assert_cases _ to = ground arith

module _ (id : ℕ) (from : TransactionState) (update : Transaction → Transaction) (s : Store) where
  pub compare_cases :
      (compare_and_move id from update s ≡ (ok none, s))
      ⊎ ((t : Transaction) × (lookup id s.transactions ≡ some t)
          × (t.status ≡ from)
          × (compare_and_move id from update s ≡ (ok (some (update t)), put id (update t) s)))
  unfolding compare_and_move
  compare_cases = elim (Option-cases (lookup id s.transactions)) [
    | inl missing ↦ inl (ground arith)
    | inr (t, found) ↦ elim (Bool-cases (same t.status from)) [
      | inl here ↦ inr (t, found, same_eq t.status from here, ground arith)
      | inr moved ↦ inl (ground arith)
    ]
  ]

module _ (id : ℕ) (from to : TransactionState) (set : Transaction → Transaction) (by : Option ℕ)
    (reason : Option Text) (now : ℕ) (s : Store) where
  -- A claim is refused by the table, or lost, or won from the state it was made against.
  pub claim_cases :
      (claim id from to set by reason now s ≡ (err (conflict invalid_state_transition), s))
      ⊎ (claim id from to set by reason now s ≡ (ok none, s))
      ⊎ ((t : Transaction) × (lookup id s.transactions ≡ some t)
          × (t.status ≡ from)
          × (can_transition from to ≡ true)
          × (claim id from to set by reason now s ≡ (
            ok (some (move from to set by reason now t)),
            put id (move from to set by reason now t) s,
          )))
  unfolding claim
  claim_cases = elim (assert_cases from to) [
    | inr (_, e) ↦ inl (rw e)
    | inl (legal, e) ↦ elim (compare_cases id from (move from to set by reason now) s) [
      | inl lost ↦ inr (inl (rw e lost))
      | inr (t, found, here, won) ↦ inr (inr (t, found, here, legal, rw e won))
    ]
  ]

pub same_refl : (s : TransactionState) → same s s ≡ true
same_refl created = refl
same_refl _ = refl

-- A claim against the state that the row is in, along a move of the table, is won.
pub claim_won :
    (id : ℕ) (from to : TransactionState) (set : Transaction → Transaction) (by : Option ℕ)
    (reason : Option Text) (now : ℕ) (s : Store) (t : Transaction)
    → lookup id s.transactions ≡ some t
    → t.status ≡ from
    → can_transition from to ≡ true
    → claim id from to set by reason now s
      ≡ (ok (some (move from to set by reason now t)), put id (move from to set by reason now t) s)
unfolding claim compare_and_move
claim_won id from to set by reason now s t found here legal = elim (assert_cases from to) [
  | inr (illegal, _) ↦ absurd (ground arith)
  | inl (_, e) ↦ ground (arith, same_refl from)
]

-- What no claim of the engine changes beside the state.
abbrev pub Alike : Transaction → Transaction → Type 0
Alike t u =
    (u.party_id ≡ t.party_id)
    × (u.captain_id ≡ t.captain_id)
    × (u.amount ≡ t.amount)
    × (u.party_commission ≡ t.party_commission)

-- The invariant: every transaction is backed, and the DMC in circulation is `w`.
abbrev pub Balanced : ℤ → Store → Type 0
Balanced w s = IsSound s × (worth s ≡ w)

-- A transaction that is replaced by one that is backed and holds as much.
pub Balanced-put :
    (w : ℤ) (id : ℕ) (t u : Transaction) (s : Store)
    → Balanced w s
    → lookup id s.transactions ≡ some t
    → IsBacked s u
    → held u ≡ held t
    → Balanced w (put id u s)
Balanced-put w id t u s b found backed same_hold = (
  IsSound-write s (put id u s) id u b.0 (Keeps-refl s) refl backed,
  Shift-none s (put id u s) (held u) (held t) (Shift-transaction id t u s found) same_hold ∙ b.1,
)

pub IsBacked-Alike :
    (s : Store) (t u : Transaction)
    → IsBacked s t
    → Alike t u
    → (holds_funds u.status ≡ true → holds_funds t.status ≡ true)
    → IsBacked s u
IsBacked-Alike s t u b a h =
    (rw a.0 b.0, rw a.3 b.1, λ e. subst (HasCaptain s) (sym a.1) (b.2 (h e)))

pub held-Alike :
    (t u : Transaction) → Alike t u → holds_funds u.status ≡ holds_funds t.status → held u ≡ held t
held-Alike t u a h = rw (h, a.2)

-- A claim between two states that both hold, or both do not, moves no money.
pub claim-Balanced :
    (w : ℤ) (id : ℕ) (from to : TransactionState) (set : Transaction → Transaction) (by : Option ℕ)
    (reason : Option Text) (now : ℕ) (s : Store)
    → ((t : Transaction) → Alike t (set t))
    → (can_transition from to ≡ true → holds_funds from ≡ holds_funds to)
    → Balanced w s
    → Balanced w (claim id from to set by reason now s).1
claim-Balanced w id from to set by reason now s alike level b =
    elim (claim_cases id from to set by reason now s) [
      | inl refused ↦ rw refused b
      | inr (inl lost) ↦ rw lost b
      | inr (inr (t, found, here, legal, won)) ↦
          let u = move from to set by reason now t in
          let same_hold : holds_funds to ≡ holds_funds t.status =
            sym (level legal) ∙ ap holds_funds (sym here) in
          rw won (
            Balanced-put w id t u s b found
              (IsBacked-Alike s t u (b.0 id t found) (alike t) (λ e. sym same_hold ∙ e))
              (held-Alike t u (alike t) same_hold))
    ]

pub conclude_store :
    (id : ℕ) (wanted : TransactionState → Bool) (o : Option Transaction) (s : Store)
    → (conclude id wanted o s).1 ≡ s
unfolding conclude
conclude_store id wanted (some t) s = refl
conclude_store id wanted none s = ground arith

-- What holds before and after the body holds after the database transaction round it.
pub atomically_keeps :
    {A : Type 0} (P : Store → Type 0) (supports : Bool) (body : Action A) (s : Store)
    → P s
    → P (body s).1
    → P (atomically supports body s).1
atomically_keeps {A = A} P supports body s before after =
    go supports (body s).0 (body s).1 before after
  where
    go : (b : Bool) (r : Result A) (s' : Store) → P s → P s' → P (finish b s (r, s')).1
    go b (ok a) s' h k = k
    go true (err e) s' h k = h
    go false (err e) s' h k = k

module _ (k : Transaction → Action Transaction) (m : Action (Option Transaction)) (s : Store) where
  pub if_won_refused : (e : AppError) (t : Store) → m s ≡ (err e, t) → if_won k m s ≡ (err e, t)
  unfolding if_won
  if_won_refused e t h = ground arith

  pub if_won_lost : (t : Store) → m s ≡ (ok none, t) → if_won k m s ≡ (ok none, t)
  unfolding if_won
  if_won_lost t h = ground arith

  pub if_won_won :
      (u v : Transaction) (t r : Store)
      → m s ≡ (ok (some u), t)
      → k u t ≡ (ok v, r)
      → if_won k m s ≡ (ok (some v), r)
  unfolding if_won
  if_won_won u v t r h g = ground arith

pub if_won_failed :
    (k : Transaction → Action Transaction) (m : Action (Option Transaction)) (s : Store)
    (u : Transaction) (t r : Store) (e : AppError)
    → m s ≡ (ok (some u), t)
    → k u t ≡ (err e, r)
    → if_won k m s ≡ (err e, r)
unfolding if_won
if_won_failed k m s u t r e h g = ground arith

pub bind_ok :
    {A B : Type 0} (m : Action A) (f : A → Action B) (s t : Store) (a : A)
    → m s ≡ (ok a, t)
    → (m >>= f) s ≡ f a t
bind_ok m f s t a e = ground arith
