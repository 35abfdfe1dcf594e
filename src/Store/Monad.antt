-- ===== src/Store/Monad.antt =====
-- Code that reads and writes the database and may throw. What was written stays written when an
-- error is thrown, unless the code runs inside a database transaction that is rolled back.
use flitepay.Prelude.{Bool, true, false, Option, none, some, if◌then◌else◌}
use flitepay.Errors.{Result, ok, err, AppError}
use flitepay.Store.Documents.{Store}

abbrev pub Action : Type 0 → Type 0
Action A = Store → Result A × Store

module _ {A : Type 0} where
  abbrev pub pure : A → Action A
  pure a s = (ok a, s)

  abbrev pub raise : AppError → Action A
  raise e s = (err e, s)

  abbrev pub gets : (Store → A) → Action A
  gets f s = (ok (f s), s)

  abbrev pub lift : Result A → Action A
  lift r s = (r, s)

  abbrev pub or_raise : Option A → AppError → Action A
  or_raise none e = raise e
  or_raise (some a) _ = pure a

  -- `try { body } catch (err) { handler }`
  abbrev pub catch : Action A → (AppError → Action A) → Action A
  catch body handler s = let (r, s') = body s in elim r [ ok a ↦ (ok a, s') | err e ↦ handler e s' ]

  abbrev pub finish : Bool → Store → Result A × Store → Result A × Store
  finish supports s (ok a, s') = (ok a, s')
  finish true s (err e, s') = (err e, s)
  finish false s (err e, s') = (err e, s')

  -- `atomically` and `session.withTransaction`: where the deployment supports transactions, an
  -- error undoes every write of the body.
  abbrev pub atomically : Bool → Action A → Action A
  atomically supports body s = finish supports s (body s)

infixl 5 ◌>>=◌ ◌>>◌
abbrev pub ◌>>=◌ : {A B : Type 0} → Action A → (A → Action B) → Action B
◌>>=◌ m f s = let (r, s') = m s in elim r [ ok a ↦ f a s' | err e ↦ raise e s' ]

abbrev pub ◌>>◌ : {A B : Type 0} → Action A → Action B → Action B
m >> k = m >>= λ _. k

abbrev pub raise_if : Bool → AppError → Action (Unit {0})
raise_if c e s = (if c then err e else ok tt, s)

abbrev pub modify : (Store → Store) → Action (Unit {0})
modify f s = (ok tt, f s)
