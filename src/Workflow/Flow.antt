-- ===== src/Workflow/Flow.antt =====
-- Rules for the operations: a conditional write, the checks before it, and the money after it.
use flitepay.Prelude.{
  ℕ, ◌+◌, ◌≡◌, ◌⊎◌, inl, inr, refl, sym, subst, ◌∙◌, Bool, true, false, Option, none, some, arith,
  Bool-cases, Option-cases,
}
use flitepay.Prelude.Int.{ℤ}
use flitepay.Prelude.Dict.{lookup}
use flitepay.Errors.{AppError, Result, ok, err}
use flitepay.Machine.Task.{TaskState, created, same, can_transition, assert_transition}
use flitepay.Store.{Store, Action, lift, or_raise, raise_if, pure, ◌>>=◌}
use flitepay.Store.Tasks.{Task}
use flitepay.Store.Finding.{put_task, find_and_update}
use flitepay.Engine.Worth.{Keeps, Keeps-refl, Keeps-trans}
use flitepay.Engine.Money.{Moved}
use flitepay.Workflow.Worth.{
  circulation, stake, Funds, Funds-put, Funds-Moved, Funds-Funds, Funds-level, Funds-none, IsBacked,
  IsSound, IsSound-Keeps, IsSound-put,
}

-- The invariant: every task is backed, and the DMC in circulation is `w`.
abbrev pub Balanced : ℤ → Store → Type 0
Balanced w s = IsSound s × (circulation s ≡ w)

abbrev pub Flow : Store → Store → ℕ → ℕ → Type 0
Flow s t gain loss = Funds s t gain loss × Keeps s t × (IsSound s → IsSound t)

pub Flow-Moved : (s t : Store) (g l : ℕ) → Moved s t g l → Flow s t g l
Flow-Moved s t g l m = (Funds-Moved s t g l m, m.1, IsSound-Keeps s t m.1 m.3)

pub Flow-refl : (s : Store) → Flow s s 0 0
Flow-refl s = (refl, Keeps-refl s, λ h. h)

pub Flow-trans :
    (s t u : Store) (g l g' l' : ℕ) → Flow s t g l → Flow t u g' l' → Flow s u (g + g') (l + l')
Flow-trans s t u g l g' l' h k =
    (Funds-Funds s t u g l g' l' h.0 k.0, Keeps-trans s t u h.1 k.1, λ x. k.2 (h.2 x))

-- An action that succeeds, and moves the circulation so.
abbrev pub Does : {A : Type 0} → Action A → Store → ℕ → ℕ → Type 0
Does {A} m s gain loss = (a : A) × (t : Store) × (m s ≡ (ok a, t)) × Flow s t gain loss

pub bind_ok :
    {A B : Type 0} (m : Action A) (f : A → Action B) (s t : Store) (a : A)
    → m s ≡ (ok a, t)
    → (m >>= f) s ≡ f a t
bind_ok m f s t a e = ground arith

pub Does-bind :
    {A B : Type 0} (m : Action A) (f : A → Action B) (s : Store) (g l g' l' : ℕ)
    → Does m s g l
    → ((a : A) (t : Store) → Keeps s t → Does (f a) t g' l')
    → Does (m >>= f) s (g + g') (l + l')
Does-bind m f s g l g' l' (a, t, e, h) k =
    let (b, u, e', h') = k a t h.1 in
    (b, u, bind_ok m f s t a e ∙ e', Flow-trans s t u g l g' l' h h')

pub Does-level :
    {A : Type 0} (m : Action A) (s : Store) (g l g' l' : ℕ)
    → Does m s g l
    → g + l' ≡ g' + l
    → Does m s g' l'
Does-level m s g l g' l' (a, t, e, h) level =
    (a, t, e, (Funds-level s t g l g' l' h.0 level, h.1, h.2))

pub Does-pure : {A : Type 0} (a : A) (s : Store) → Does (pure a) s 0 0
Does-pure a s = (a, s, refl, Flow-refl s)

module _ (id : ℕ) (filter : Task → Bool) (update : Task → Task) (s : Store) where
  -- A conditional write matches nothing, or the document that is there.
  pub find_cases :
      (find_and_update id filter update s ≡ (ok none, s))
      ⊎ ((t : Task) × (lookup id s.tasks ≡ some t)
          × (filter t ≡ true)
          × (find_and_update id filter update s ≡ (ok (some (update t)), put_task id (update t) s)))
  unfolding find_and_update
  find_cases = elim (Option-cases (lookup id s.tasks)) [
    | inl missing ↦ inl (ground arith)
    | inr (t, found) ↦ elim (Bool-cases (filter t)) [
      | inl passes ↦ inr (t, found, passes, ground arith)
      | inr fails ↦ inl (ground arith)
    ]
  ]

module _ {A : Type 0} (P : Store → Type 0) (s : Store) (before : P s) where
  pub lift_keeps :
      (r : Result (Unit {0})) (k : Unit {0} → Action A)
      → (r ≡ ok tt → P (k tt s).1)
      → P ((lift r >>= k) s).1
  lift_keeps (ok tt) k h = h refl
  lift_keeps (err e) k h = before

  pub raise_if_keeps :
      (b : Bool) (e : AppError) (k : Unit {0} → Action A)
      → (b ≡ false → P (k tt s).1)
      → P ((raise_if b e >>= k) s).1
  raise_if_keeps true e k h = before
  raise_if_keeps false e k h = h refl

  pub or_raise_keeps :
      {B : Type 0} (o : Option B) (e : AppError) (k : B → Action A)
      → ((b : B) → o ≡ some b → P (k b s).1)
      → P ((or_raise o e >>= k) s).1
  or_raise_keeps none e k h = before
  or_raise_keeps (some b) e k h = h b refl

same_eq : (s t : TaskState) → same s t ≡ true → s ≡ t
same_eq created t h = ground arith
same_eq _ t h = ground arith

pub in_state_eq : (t : Task) (s : TaskState) → same t.status s ≡ true → t.status ≡ s
in_state_eq t s = same_eq t.status s

pub assert_legal :
    (from to : TaskState) → assert_transition from to ≡ ok tt → can_transition from to ≡ true
unfolding assert_transition can_transition
assert_legal created to h = ground arith
assert_legal _ to h = ground arith

-- A claim that is won, and the money that follows.
pub put-Balanced :
    {A : Type 0} (w : ℤ) (id : ℕ) (t u : Task) (k : Action A) (s : Store) (g l : ℕ)
    → Balanced w s
    → lookup id s.tasks ≡ some t
    → IsBacked s u
    → Does k (put_task id u s) g l
    → stake u + g ≡ stake t + l
    → Balanced w (k (put_task id u s)).1
put-Balanced {A = A} w id t u k s g l b found backed (a, r, e, flow) level =
    let done : Balanced w r = (
      flow.2 (IsSound-put s id u b.0 backed),
      Funds-none s r (stake u + g) (stake t + l)
            (Funds-Funds s (put_task id u s) r (stake u) (stake t) g l (Funds-put id t u s found)
              flow.0)
            level
          ∙ b.1,
    ) in
    subst (λ (p : Result A × Store). Balanced w p.1) (sym e) done

-- What has to be shown of an operation that claims its change of state and throws if it is lost.
abbrev pub MakesGood : {A : Type 0} → ℕ → Store → Task → Task → Action A → Type 0
MakesGood id s t u k =
    IsBacked s u × ((g : ℕ) × (l : ℕ) × Does k (put_task id u s) g l × (stake u + g ≡ stake t + l))

-- A conditional write, and what follows whether or not it wrote.
pub attempt-Balanced :
    {A : Type 0} (w : ℤ) (id : ℕ) (filter : Task → Bool) (update : Task → Task)
    (k : Option Task → Action A) (s : Store)
    → Balanced w s
    → Balanced w (k none s).1
    → ((t : Task)
        → lookup id s.tasks ≡ some t
        → filter t ≡ true
        → MakesGood id s t (update t) (k (some (update t))))
    → Balanced w ((find_and_update id filter update >>= k) s).1
attempt-Balanced {A = A} w id filter update k s b unchanged h =
    elim (find_cases id filter update s) [
      | inl lost ↦
          let at = bind_ok (find_and_update id filter update) k s s none lost in
          subst (λ (p : Result A × Store). Balanced w p.1) (sym at) unchanged
      | inr (t, found, passes, won) ↦
          let u = update t in
          let at = bind_ok (find_and_update id filter update) k s (put_task id u s) (some u) won in
          let (backed, (g, l, does, level)) = h t found passes in
          subst (λ (p : Result A × Store). Balanced w p.1) (sym at)
            (put-Balanced w id t u (k (some u)) s g l b found backed does level)
    ]

pub claim_then-Balanced :
    {A : Type 0} (w : ℤ) (id : ℕ) (filter : Task → Bool) (update : Task → Task) (e : AppError)
    (k : Task → Action A) (s : Store)
    → Balanced w s
    → ((t : Task)
        → lookup id s.tasks ≡ some t
        → filter t ≡ true
        → MakesGood id s t (update t) (k (update t)))
    → Balanced w ((find_and_update id filter update >>= λ o. or_raise o e >>= k) s).1
claim_then-Balanced w id filter update e k s b h =
    attempt-Balanced w id filter update (λ o. or_raise o e >>= k) s b b h
