-- ===== src/Workflow/Rules.antt =====
-- Rules for `do` blocks of the workflow: what an action keeps, and what it leads to.
use flitepay.Prelude.{◌≡◌, refl, Bool, true, false, Option, none, some, ℕ}
use flitepay.Prelude.Int.{ℤ}
use flitepay.Prelude.Dict.{lookup}
use flitepay.Errors.{AppError, Result, ok, err}
use flitepay.Store.{Store, Action, lift, or_raise, raise, raise_if, pure, atomically, ◌>>=◌, ◌>>◌}
use flitepay.Store.Tasks.{Task}
use flitepay.Store.Finding.{reads, find_and_update, load_task}
use flitepay.Engine.Conservation.{bind_keeps}
use flitepay.Engine.Claims.{atomically_keeps}
use flitepay.Workflow.{load_owned_task, when_held}
use flitepay.Workflow.Flow.{Balanced, MakesGood, claim_then-Balanced, attempt-Balanced}

-- An action that keeps a property of the database, whether it returns or throws.
pub data Sustains (P : Store → Type 0) {A : Type 0} : Action A → Type 0 where
  sustains : {m : Action A} → ((s : Store) → P s → P (m s).1) → Sustains P m

pub Sustains-run :
    {A : Type 0} {P : Store → Type 0} {m : Action A} → Sustains P m → (s : Store) → P s → P (m s).1
Sustains-run (sustains h) = h

module _ {P : Store → Type 0} where
  pub Sustains-bind :
      {A B : Type 0} {m : Action A} {f : A → Action B}
      → Sustains P m
      → ((a : A) → Sustains P (f a))
      → Sustains P (m >>= f)
  Sustains-bind {m = m} {f = f} h k =
      sustains (λ s b. bind_keeps P m f s (Sustains-run h s b) (λ a t c. Sustains-run (k a) t c))

  pub Sustains-pure : {A : Type 0} (a : A) → Sustains P (pure a)
  Sustains-pure a = sustains (λ s b. b)

  pub Sustains-raise : {A : Type 0} (e : AppError) → Sustains P (raise {A = A} e)
  Sustains-raise e = sustains (λ s b. b)

  pub Sustains-lift : {A : Type 0} (r : Result A) → Sustains P (lift r)
  Sustains-lift r = sustains (λ s b. b)

  pub Sustains-check :
      {A B : Type 0} (r : Result A) (k : A → Action B)
      → ((a : A) → r ≡ ok a → Sustains P (k a))
      → Sustains P (lift r >>= k)
  Sustains-check (ok a) k h = h a refl
  Sustains-check (err e) k h = sustains (λ s b. b)

  pub Sustains-when_held :
      (o : Option ℕ) (act : ℕ → Action (Unit {0}))
      → ((c : ℕ) → Sustains P (act c))
      → Sustains P (when_held o act)
  Sustains-when_held none act h = sustains (λ s b. b)
  Sustains-when_held (some c) act h = h c

  pub Sustains-or_raise : {A : Type 0} (o : Option A) (e : AppError) → Sustains P (or_raise o e)
  Sustains-or_raise none e = sustains (λ s b. b)
  Sustains-or_raise (some a) e = sustains (λ s b. b)

  pub Sustains-raise_if : (c : Bool) (e : AppError) → Sustains P (raise_if c e)
  Sustains-raise_if c e = sustains (λ s b. b)

  pub Sustains-reads : {A : Type 0} (f : Store → A) → Sustains P (reads f)
  unfolding reads
  Sustains-reads f = sustains (λ s b. b)

  pub Sustains-load_task : (id : ℕ) → Sustains P (load_task id)
  unfolding load_task
  Sustains-load_task id =
      sustains (λ s b. Sustains-run (Sustains-or_raise (lookup id s.tasks) _) s b)

  pub Sustains-load_owned_task : (id captain_id : ℕ) → Sustains P (load_owned_task id captain_id)
  unfolding load_owned_task
  Sustains-load_owned_task id captain_id =
      Sustains-bind (Sustains-load_task id)
        (λ t. Sustains-bind (Sustains-raise_if _ _) (λ _. Sustains-pure t))

-- An action that leads from one property to another, whether it returns or throws.
pub data Leads (P Q : Store → Type 0) {A : Type 0} : Action A → Type 0 where
  leads : {m : Action A} → ((s : Store) → P s → Q (m s).1) → Leads P Q m

pub Leads-run :
    {A : Type 0} {P Q : Store → Type 0} {m : Action A} → Leads P Q m → (s : Store) → P s → Q (m s).1
Leads-run (leads h) = h

pub Sustains-Leads : {A : Type 0} {P : Store → Type 0} {m : Action A} → Leads P P m → Sustains P m
Sustains-Leads (leads h) = sustains h

module _ {P Q : Store → Type 0} (weaker : (s : Store) → P s → Q s) where
  -- A check before an action, which may throw.
  pub Leads-lift :
      {A B : Type 0} (r : Result A) {k : A → Action B}
      → ((a : A) → r ≡ ok a → Leads P Q (k a))
      → Leads P Q (lift r >>= k)
  Leads-lift (ok a) h = leads (Leads-run (h a refl))
  Leads-lift (err e) h = leads weaker

  pub Leads-or_raise :
      {A B : Type 0} (o : Option A) (e : AppError) {k : A → Action B}
      → ((a : A) → o ≡ some a → Leads P Q (k a))
      → Leads P Q (or_raise o e >>= k)
  Leads-or_raise (some a) e h = leads (Leads-run (h a refl))
  Leads-or_raise none e h = leads weaker

  pub Leads-raise_if :
      {B : Type 0} (c : Bool) (e : AppError) {k : Action B}
      → (c ≡ false → Leads P Q k)
      → Leads P Q (raise_if c e >> k)
  Leads-raise_if false e h = leads (Leads-run (h refl))
  Leads-raise_if true e h = leads weaker

  pub Leads-reads :
      {A B : Type 0} (f : Store → A) {k : A → Action B}
      → ((a : A) → Leads P Q (k a))
      → Leads P Q (reads f >>= k)
  unfolding reads
  Leads-reads f h = leads (λ s p. Leads-run (h (f s)) s p)

  -- The same, where what was read matters.
  pub Leads-reads_at :
      {A B : Type 0} (f : Store → A) (k : A → Action B)
      → ((s : Store) → Leads P Q (k (f s)))
      → Leads P Q (reads f >>= k)
  unfolding reads
  Leads-reads_at f k h = leads (λ s p. Leads-run (h s) s p)

pub Leads-bind :
    {A B : Type 0} {P Q : Store → Type 0} {m : Action A} {f : A → Action B}
    → Leads P Q m
    → ((a : A) → Sustains Q (f a))
    → Leads P Q (m >>= f)
Leads-bind {P = P} {Q = Q} {m = m} {f = f} h k =
    leads (λ s p. bind_keeps Q m f s (Leads-run h s p) (λ a t c. Sustains-run (k a) t c))

pub Leads-claim :
    {A : Type 0} {P : Store → Type 0} (w : ℤ) (id : ℕ) {filter : Task → Bool} {update : Task → Task}
    (e : AppError) (k : Task → Action A)
    → ((s : Store) → P s → Balanced w s)
    → ((s : Store) (t : Task)
        → P s
        → lookup id s.tasks ≡ some t
        → filter t ≡ true
        → MakesGood id s t (update t) (k (update t)))
    → Leads P (Balanced w) (find_and_update id filter update >>= λ o. or_raise o e >>= k)
Leads-claim w id {filter = filter} {update = update} e k weaker h =
    leads (λ s p. claim_then-Balanced w id filter update e k s (weaker s p) (λ t. h s t p))

-- A conditional write that is looked at afterwards.
pub Leads-attempt :
    {A : Type 0} {P : Store → Type 0} (w : ℤ) (id : ℕ) {filter : Task → Bool} {update : Task → Task}
    (k : Option Task → Action A)
    → ((s : Store) → P s → Balanced w s)
    → ((s : Store) → Balanced w s → Balanced w (k none s).1)
    → ((s : Store) (t : Task)
        → P s
        → lookup id s.tasks ≡ some t
        → filter t ≡ true
        → MakesGood id s t (update t) (k (some (update t))))
    → Leads P (Balanced w) (find_and_update id filter update >>= k)
Leads-attempt w id {filter = filter} {update = update} k weaker unchanged h = leads (λ s p.
    attempt-Balanced w id filter update k s (weaker s p) (unchanged s (weaker s p)) (λ t. h s t p))

-- A database transaction, or its body where there are none.
pub Leads-atomically :
    {A : Type 0} {P Q : Store → Type 0} (supports : Bool) {m : Action A}
    → ((s : Store) → P s → Q s)
    → Leads P Q m
    → Leads P Q (atomically supports m)
Leads-atomically {Q = Q} supports {m = m} weaker h =
    leads (λ s p. atomically_keeps Q supports m s (weaker s p) (Leads-run h s p))

-- One action after another, by way of a third property.
pub Leads-then :
    {A B : Type 0} {P R Q : Store → Type 0} {m : Action A} {f : A → Action B}
    → Leads P R m
    → ((s : Store) → R s → Q s)
    → ((a : A) → Leads R Q (f a))
    → Leads P Q (m >>= f)
Leads-then {A} {B} {P} {R} {Q} {m} {f} h weaker k =
    leads (λ s p. go (m s).0 (m s).1 (Leads-run h s p))
  where
    go :
        (r : Result A) (t : Store)
        → R t
        → Q (elim r as (λ _. Result B × Store) [ err e ↦ raise e t | ok a ↦ f a t ]).1
    go (err e) t c = weaker t c
    go (ok a) t c = Leads-run (k a) t c
