-- ===== src/Workflow/Worth.antt =====
-- The DMC in circulation with what pay-outs hold aside, and what a write of a task does to it.
use flitepay.Prelude.{
  ℕ, ◌+◌, ◌*◌, ◌≤◌, ◌≡◌, inl, inr, refl, sym, ap, subst, Bool, true, ◌||◌, none, some, arith, ◌==◌,
  is_some, if◌then◌else◌, Bool-cases,
}
use flitepay.Prelude.Int.{ℤ, pos, ◌+ℤ◌, int_laws, parts_of_eq}
use flitepay.Prelude.Dict.{lookup, insert, lookup-insert, total, total-insert, total-insert_new}
use flitepay.Money.{max_paise}
use flitepay.Machine.Task.{
  TaskState, created, assigned, reassigned, expired, same, holds_collateral,
}
use flitepay.Store.{Store}
use flitepay.Store.Tasks.{Task}
use flitepay.Store.Finding.{put_task}
use flitepay.Engine.Worth.{worth, worth-tasks, Keeps}
use flitepay.Engine.Money.{Moved}
use flitepay.Workflow.{charge}
use flitepay.Workflow.Cancelling.{restored_status}

-- No captain has put anything aside, and the party's money is reserved.
unfoldable pub is_waiting : TaskState → Bool
is_waiting s = same s created || same s reassigned || same s expired

-- What is put aside for a task: the party's amount and charge, and the captain's hold.
unfoldable pub stake : Task → ℕ
unfolding is_waiting holds_collateral
stake t =
    if holds_collateral t.status
    then t.amount * 2 + charge t
    else if is_waiting t.status
    then t.amount + charge t
    else 0

abbrev stake_dmc : Task → ℤ
stake_dmc t = pos (stake t)

pub circulation : Store → ℤ
circulation s = worth s +ℤ total stake_dmc s.tasks

-- From `s` to `t` the circulation has risen by `gain` and fallen by `loss`.
abbrev pub Funds : Store → Store → ℕ → ℕ → Type 0
Funds s t gain loss = circulation t +ℤ pos loss ≡ circulation s +ℤ pos gain

pub Funds-put :
    (id : ℕ) (t u : Task) (s : Store)
    → lookup id s.tasks ≡ some t
    → Funds s (put_task id u s) (stake u) (stake t)
unfolding circulation
Funds-put id t u s e =
    let unmoved = worth-tasks s (insert id u s.tasks) in
    omega
      (int_laws, parts_of_eq _ _ unmoved, parts_of_eq _ _ (total-insert stake_dmc id u t s.tasks e))

-- A task with a new id.
pub Funds-new :
    (id : ℕ) (u : Task) (s : Store)
    → lookup id s.tasks ≡ none
    → Funds s (put_task id u s) (stake u) 0
unfolding circulation
Funds-new id u s fresh =
    let unmoved = worth-tasks s (insert id u s.tasks) in
    omega (
      int_laws,
      parts_of_eq _ _ unmoved,
      parts_of_eq _ _ (total-insert_new (λ t. pos (stake t)) id u s.tasks fresh),
    )

pub Funds-Moved : (s t : Store) (g l : ℕ) → Moved s t g l → Funds s t g l
unfolding circulation
Funds-Moved s t g l m =
    let same_tasks = ap (total stake_dmc) m.3 in
    omega (int_laws, parts_of_eq _ _ m.0, parts_of_eq _ _ same_tasks)

pub Funds-Funds :
    (s t u : Store) (g l g' l' : ℕ) → Funds s t g l → Funds t u g' l' → Funds s u (g + g') (l + l')
Funds-Funds s t u g l g' l' h k = omega (int_laws, parts_of_eq _ _ h, parts_of_eq _ _ k)

pub Funds-level : (s t : Store) (g l g' l' : ℕ) → Funds s t g l → g + l' ≡ g' + l → Funds s t g' l'
Funds-level s t g l g' l' h e = omega (int_laws, parts_of_eq _ _ h)

pub Funds-none : (s t : Store) (g l : ℕ) → Funds s t g l → g ≡ l → circulation t ≡ circulation s
Funds-none s t g l h e = omega (int_laws, parts_of_eq _ _ h)

abbrev pub is_live : TaskState → Bool
is_live s = holds_collateral s || is_waiting s

-- The captain that is named, if one is, is there.
abbrev pub NamesCaptain : Store → Task → Type 0
NamesCaptain s t = (c : ℕ) → t.captain_id ≡ some c → is_some (lookup c s.captains) ≡ true

-- A task whose party and captain are there; whose charge is a safe amount while it is open; that
-- has a captain while it holds; and that an admin's ruling gives back as ASSIGNED.
abbrev pub IsBacked : Store → Task → Type 0
IsBacked s t =
    (is_some (lookup t.party_id s.parties) ≡ true)
    × (is_live t.status ≡ true → charge t ≤ max_paise)
    × NamesCaptain s t
    × (holds_collateral t.status ≡ true → is_some t.captain_id ≡ true)
    × (restored_status t ≡ assigned)

abbrev pub IsSound : Store → Type 0
IsSound s = (id : ℕ) (t : Task) → lookup id s.tasks ≡ some t → IsBacked s t

pub IsBacked-Keeps : (s r : Store) (t : Task) → Keeps s r → IsBacked s t → IsBacked r t
IsBacked-Keeps s r t k b = (k.1 t.party_id b.0, b.1, λ c e. k.0 c (b.2 c e), b.3, b.4)

pub IsSound-Keeps : (s r : Store) → Keeps s r → r.tasks ≡ s.tasks → IsSound s → IsSound r
IsSound-Keeps s r k e h id t found =
    IsBacked-Keeps s r t k (h id t (subst (λ d. lookup id d ≡ some t) e found))

pub IsSound-put :
    (s : Store) (id : ℕ) (u : Task) → IsSound s → IsBacked s u → IsSound (put_task id u s)
IsSound-put s id u h b j t found = elim (Bool-cases (j == id)) [
  | inl here ↦
      let e : u ≡ t = ground (arith, lookup-insert j id u s.tasks) in subst (IsBacked s) e b
  | inr other ↦ h j t (ground (arith, lookup-insert j id u s.tasks))
]

-- What no change of a task's state touches.
abbrev pub SameDeal : Task → Task → Type 0
SameDeal t u = (u.party_id ≡ t.party_id) × (u.amount ≡ t.amount) × (charge u ≡ charge t)

-- A document of the task `id` that may have been read before: its captain is there, and while the
-- task is open its deal is what it was.
abbrev pub WasRead : Store → ℕ → Task → Type 0
WasRead s id read =
    NamesCaptain s read
    × (holds_collateral read.status ≡ true → is_some read.captain_id ≡ true)
    × (restored_status read ≡ assigned)
    × ((t : Task) → lookup id s.tasks ≡ some t → is_live t.status ≡ true → SameDeal t read)

-- What is there now has been read.
pub IsSound-WasRead :
    (s : Store) (id : ℕ) (t : Task) → IsSound s → lookup id s.tasks ≡ some t → WasRead s id t
IsSound-WasRead s id t sound found =
    let b = sound id t found in
    (
      b.2,
      b.3,
      b.4,
      λ u there _.
          let e : u ≡ t = ground arith in subst (λ x. SameDeal x t) (sym e) (refl, refl, refl),
    )
