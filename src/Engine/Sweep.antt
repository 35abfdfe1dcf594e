-- ===== src/Engine/Sweep.antt =====
-- The sweep over overdue transactions expires each of them and touches no other row.
use flitepay.Prelude.{
  ℕ, ◌+◌, ◌≡◌, inl, inr, refl, sym, ap, ◌∙◌, subst, Bool, true, false, Option, none, some, List, [],
  ◌∷◌, Text, arith, ◌==◌, Bool-cases, Option-cases, includes, ◌≤◌, ◌⊎◌, All, map, length,
}
use flitepay.Prelude.Sorting.{In, take, sort_by, sort-Ascending, In-sort, take-cases}
use flitepay.Prelude.Dict.{Dict, lookup, lookup-insert}
use flitepay.Errors.{AppError, Result, ok, err}
use flitepay.Machine.Transaction.{TransactionState, expired, same, can_transition}
use flitepay.Store.{Transaction, Store, Action, pure, atomically, ◌>>=◌}
use flitepay.Engine.{put, move, claim, load, conclude, credit_captain}
use flitepay.Engine.Endings.{
  with_failure, release_hold, end_body, end_from, end_as, expire, is_overdue, due, overdue_rows,
  overdue, expire_all,
}
use flitepay.Engine.Claims.{
  claim_cases, claim_won, conclude_store, atomically_keeps, if_won_won, bind_ok,
}
use flitepay.Engine.Conservation.{bind_keeps}
use flitepay.Engine.Lives.{if_won_keeps, release_hold_rows}
use flitepay.Engine.Outcomes.{pair_cases, finished_some}

-- The row of `id` is as it is in `s`.
abbrev Untouched : ℕ → Store → Store → Type 0
Untouched id s t = lookup id t.transactions ≡ lookup id s.transactions

end_from_others :
    (supports : Bool) (id j : ℕ) (from : TransactionState) (reason : Text) (actor : Option ℕ)
    (now : ℕ) (s : Store)
    → (id == j) ≡ false
    → Untouched id s (end_from supports j from expired reason actor now s).1
unfolding end_from end_body
end_from_others supports id j from reason actor now s other =
    let m = claim j from expired (with_failure reason) actor (some reason) now in
    bind_keeps (Untouched id s) (atomically supports (end_body j from expired reason actor now))
      (conclude j (same expired)) s
      (atomically_keeps (Untouched id s) supports (end_body j from expired reason actor now) s refl
        (if_won_keeps (Untouched id s) (λ won. release_hold won from >>= λ _. pure won) m s
          (elim (claim_cases j from expired (with_failure reason) actor (some reason) now s) [
            | inl refused ↦ rw refused refl
            | inr (inl lost) ↦ rw lost refl
            | inr (inr (t, found, here, legal, won)) ↦ rw won (
                ground (
                  arith,
                  lookup-insert id j
                      (move from expired (with_failure reason) actor (some reason) now t)
                      s.transactions,
                ))
          ])
          (λ u t ht.
            bind_keeps (Untouched id s) (release_hold u from) (λ _. pure u) t
              (ap (lookup id) (release_hold_rows u from t) ∙ ht) (λ _ v hv. hv))))
      (λ o t ht.
        ap (λ (x : Store). lookup id x.transactions) (conclude_store j (same expired) o t) ∙ ht)

expire_others :
    (supports : Bool) (id j : ℕ) (reason : Text) (actor : Option ℕ) (now : ℕ) (s : Store)
    → (id == j) ≡ false
    → Untouched id s (expire supports j reason actor now s).1
unfolding expire end_as load
expire_others supports id j reason actor now s other =
    elim (Option-cases (lookup j s.transactions)) [
      | inl missing ↦ ground arith
      | inr (b, found) ↦ elim (Bool-cases (same b.status expired)) [
        | inl already ↦ ground arith
        | inr live ↦ ground (arith, end_from_others supports id j b.status reason actor now s other)
      ]
    ]

-- The sweep leaves every row alone that is not among those it has listed.
pub expire_all_others :
    (supports : Bool) (reason : Text) (now : ℕ) (ids : List ℕ) (count : ℕ) (s : Store) (id : ℕ)
    → includes ◌==◌ ids id ≡ false
    → lookup id (expire_all supports reason now ids count s).1.transactions
      ≡ lookup id s.transactions
unfolding expire_all
expire_all_others supports reason now [] count s id h = refl
expire_all_others supports reason now (j ∷ ids) count s id h =
    let s1 = (expire supports j reason none now s).1 in
    expire_all_others supports reason now ids
      (elim (expire supports j reason none now s).0 [ ok t ↦ count + 1 | err e ↦ count ]) s1 id
      (ground arith)
    ∙ expire_others supports id j reason none now s (ground arith)

expire_again :
    (supports : Bool) (id : ℕ) (reason : Text) (actor : Option ℕ) (now : ℕ) (s : Store)
    (b : Transaction)
    → lookup id s.transactions ≡ some b
    → b.status ≡ expired
    → (expire supports id reason actor now s).1 ≡ s
unfolding expire end_as load
expire_again supports id reason actor now s b found here = ground arith

never :
    (u : Transaction) (from : TransactionState) (s : Store) (e : AppError) (r : Store)
    → release_hold u from s ≡ (err e, r)
    → ⊥
unfolding release_hold credit_captain
never u from s e r h = ground arith

release_total :
    (u : Transaction) (from : TransactionState) (s : Store)
    → (r : Store) × (release_hold u from s ≡ (ok tt, r)) × (r.transactions ≡ s.transactions)
release_total u from s = elim (pair_cases (release_hold u from s)) [
  | inl (e, r, failed) ↦ absurd (never u from s e r failed)
  | inr (x, r, done) ↦ (
    r,
    done,
    ap (λ (y : Result (Unit {0}) × Store). y.1.transactions) (sym done)
        ∙ release_hold_rows u from s,
  )
]

early_live :
    (now : ℕ) (a : Transaction)
    → is_overdue now a ≡ true
    → (same a.status expired ≡ false) × (can_transition a.status expired ≡ true)
unfolding can_transition
early_live now a h = ground arith

abbrev Expired : ℕ → Store → Type 0
Expired id s = (b : Transaction) × (lookup id s.transactions ≡ some b) × (b.status ≡ expired)

expire_reads :
    (supports : Bool) (id : ℕ) (reason : Text) (actor : Option ℕ) (now : ℕ) (s : Store)
    (a : Transaction)
    → lookup id s.transactions ≡ some a
    → same a.status expired ≡ false
    → expire supports id reason actor now s
      ≡ end_from supports id a.status expired reason actor now s
unfolding expire end_as load
expire_reads supports id reason actor now s a found live = ground arith

expire_live :
    (supports : Bool) (id : ℕ) (reason : Text) (actor : Option ℕ) (now : ℕ) (s : Store)
    (a : Transaction)
    → lookup id s.transactions ≡ some a
    → is_overdue now a ≡ true
    → Expired id (expire supports id reason actor now s).1
unfolding end_from end_body
expire_live supports id reason actor now s a found late =
    let (live, legal) = early_live now a late in
    let u = move a.status expired (with_failure reason) actor (some reason) now a in
    let s1 = put id u s in
    let m = claim id a.status expired (with_failure reason) actor (some reason) now in
    let k : Transaction → Action Transaction =
      λ won. (release_hold won a.status >>= λ _. pure won) in
    let (r, done, rows) = release_total u a.status s1 in
    let won =
      claim_won id a.status expired (with_failure reason) actor (some reason) now s a found refl
        legal in
    let body : end_body id a.status expired reason actor now s ≡ (ok (some u), r) =
      if_won_won k m s u u s1 r won
        (bind_ok (release_hold u a.status) (λ _. pure u) s1 r tt done) in
    let whole : (expire supports id reason actor now s).1 ≡ r =
      ap (λ (x : Result Transaction × Store). x.1)
        (expire_reads supports id reason actor now s a found live
          ∙ finished_some supports (end_body id a.status expired reason actor now) id (same expired)
              s r u body) in
    (
      u,
      ap (λ (x : Store). lookup id x.transactions) whole
          ∙ ap (lookup id) rows
          ∙ ground (arith, lookup-insert id id u s.transactions),
      refl,
    )

expire_keeps_Expired :
    (supports : Bool) (id j : ℕ) (reason : Text) (actor : Option ℕ) (now : ℕ) (s : Store)
    → Expired id s
    → Expired id (expire supports j reason actor now s).1
expire_keeps_Expired supports id j reason actor now s (b, found, over) =
    elim (Bool-cases (id == j)) [
      | inr other ↦ (b, expire_others supports id j reason actor now s other ∙ found, over)
      | inl here ↦
          let same_row : j ≡ id = ground arith in
          (b, rw (same_row, expire_again supports id reason actor now s b found over) found, over)
    ]

all_keep-Expired :
    (supports : Bool) (reason : Text) (now : ℕ) (ids : List ℕ) (count : ℕ) (s : Store) (id : ℕ)
    → Expired id s
    → Expired id (expire_all supports reason now ids count s).1
unfolding expire_all
all_keep-Expired supports reason now [] count s id h = h
all_keep-Expired supports reason now (j ∷ ids) count s id h =
    all_keep-Expired supports reason now ids
      (elim (expire supports j reason none now s).0 [ ok t ↦ count + 1 | err e ↦ count ])
      (expire supports j reason none now s).1 id
      (expire_keeps_Expired supports id j reason none now s h)

all_expire :
    (supports : Bool) (reason : Text) (now : ℕ) (ids : List ℕ) (count : ℕ) (s : Store) (id : ℕ)
    (a : Transaction)
    → includes ◌==◌ ids id ≡ true
    → lookup id s.transactions ≡ some a
    → is_overdue now a ≡ true
    → Expired id (expire_all supports reason now ids count s).1
unfolding expire_all
all_expire supports reason now [] count s id a listed found late = cc
all_expire supports reason now (j ∷ ids) count s id a listed found late =
    let s1 = (expire supports j reason none now s).1 in
    let n = elim (expire supports j reason none now s).0 as (λ _. ℕ) [
      | ok t ↦ count + 1
      | err e ↦ count
    ] in
    elim (Bool-cases (id == j)) [
      | inr other ↦
          all_expire supports reason now ids n s1 id a (ground arith)
            (expire_others supports id j reason none now s other ∙ found) late
      | inl here ↦
          let same_row : id ≡ j = ground arith in
          all_keep-Expired supports reason now ids n s1 id (
            subst (λ i. Expired id (expire supports i reason none now s).1) same_row
              (expire_live supports id reason none now s a found late))
    ]

In-due :
    (now id : ℕ) (d : Dict Transaction) (a : Transaction)
    → lookup id d ≡ some a
    → is_overdue now a ≡ true
    → In (id, a) (due now d)
In-due now id [] a found late = cc
In-due now id ((j, t) ∷ d) a found late = elim (Bool-cases (id == j)) [
  | inl here ↦
      let same_id : id ≡ j = ground arith in
      let same_row : t ≡ a = ground arith in
      let is_late : is_overdue now t ≡ true = rw same_row late in
      let this : (id, a) ≡ (j, t) = cc in rw is_late (inl this)
  | inr other ↦
      let rest = In-due now id d a (ground arith) late in
      elim (Bool-cases (is_overdue now t)) [
        | inl listed ↦ rw listed (inr rest)
        | inr passed ↦ rw passed rest
      ]
]

In-includes :
    (id : ℕ) (a : Transaction) (d : Dict Transaction)
    → In (id, a) d
    → includes ◌==◌ (map (λ e. e.0) d) id ≡ true
In-includes id a [] h = absurd h
In-includes id a (e ∷ d) (inl same_entry) =
    let same_id : id ≡ e.0 = ap (λ (x : ℕ × Transaction). x.0) same_entry in ground arith
In-includes id a (e ∷ d) (inr h) = ground (arith, In-includes id a d h)

-- A sweep leaves every transaction EXPIRED that was overdue when it began: created, assigned or
-- awaiting its customer, and past its time. Otherwise as many rows as the limit allows were
-- before it, none of which ran out later.
pub expire_all-overdue :
    (supports : Bool) (reason : Text) (now limit : ℕ) (s : Store) (id : ℕ) {a : Transaction}
    → lookup id s.transactions ≡ some a
    → is_overdue now a ≡ true
    → let s' = (expire_all supports reason now (overdue now limit s.transactions) 0 s).1 in
      ((b : Transaction) × (lookup id s'.transactions ≡ some b) × (b.status ≡ expired))
      ⊎ ((length (overdue_rows now limit s.transactions) ≡ limit)
          × All (λ e. e.1.expires_at ≤ a.expires_at) (overdue_rows now limit s.transactions))
unfolding overdue_rows
expire_all-overdue supports reason now limit s id {a} found late =
    let key = λ (e : ℕ × Transaction). e.1.expires_at in
    let rows = due now s.transactions in
    elim (take-cases key limit (id, a) (sort_by key rows) (sort-Ascending key rows)
      (In-sort key (id, a) rows (In-due now id s.transactions a found late))) [
        | inl listed ↦ inl (
            all_expire supports reason now (overdue now limit s.transactions) 0 s id a
              (In-includes id a (take limit (sort_by key rows)) listed) found late)
        | inr others ↦ inr others
      ]
