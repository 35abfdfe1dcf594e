-- ===== src/Engine/FailedHold.antt =====
-- What becomes of the money when another operation runs between the two halves of an assignment
-- whose hold has failed: the body of `assignCaptain` has committed, the put-back has not run.
use flitepay.Prelude.{
  ℕ, ◌+◌, ◌≡◌, refl, sym, ap, subst, Bool, true, false, Option, none, some, Text, arith, ◌&&◌,
  is_some,
}
use flitepay.Prelude.Int.{pos, ◌+ℤ◌, int_laws, parts_of_eq}
use flitepay.Prelude.Dict.{lookup, lookup-insert}
use flitepay.Errors.{Result, ok}
use flitepay.Commission.{CaptainShare}
use flitepay.Machine.Transaction.{created, assigned, expired, same, can_transition, holds_funds}
use flitepay.Store.{Captain, Transaction, Store, Action, pure, ◌>>=◌}
use flitepay.Capacity.{within_current_limit, is_active}
use flitepay.Engine.{put, move, claim}
use flitepay.Engine.Endings.{with_failure, release_hold, end_body, end_from}
use flitepay.Engine.Assign.{assign_body, take_on, hold_captain}
use flitepay.Engine.Worth.{worth, held, Shift, Shift-transaction, Shift-Shift}
use flitepay.Engine.Claims.{claim_won, if_won_won, bind_ok}
use flitepay.Engine.Money.{Shift-level}
use flitepay.Engine.Refunds.{release_held}
use flitepay.Engine.Holding.{body_won}
use flitepay.Engine.Outcomes.{finished_some}

legal_assign : can_transition created assigned ≡ true
unfolding can_transition
legal_assign = refl

legal_expiry : can_transition assigned expired ≡ true
unfolding can_transition
legal_expiry = refl

holding :
    (holds_funds created ≡ false) × (holds_funds assigned ≡ true) × (holds_funds expired ≡ false)
unfolding holds_funds
holding = (refl, refl, refl)

hold_fails :
    (captain_id amount : ℕ) (s : Store) {c : Captain}
    → lookup captain_id s.captains ≡ some c
    → (is_active c.status && within_current_limit amount c) ≡ false
    → hold_captain captain_id amount s ≡ (ok false, s)
unfolding hold_captain
hold_fails captain_id amount s found refused = ground arith

-- Expiring the row `u`, which is assigned to a captain who is there, in the state `s`.
expired_from :
    (supports : Bool) (id : ℕ) (reason : Text) (actor : Option ℕ) (now : ℕ) (s : Store)
    (u : Transaction) (captain_id : ℕ)
    → lookup id s.transactions ≡ some u
    → u.status ≡ assigned
    → u.captain_id ≡ some captain_id
    → is_some (lookup captain_id s.captains) ≡ true
    → Shift s
        (end_from supports id assigned expired reason actor now s).1
        (0 + u.amount)
        (u.amount + 0)
unfolding end_from end_body
expired_from supports id reason actor now s u captain_id found here named there =
    let v = move assigned expired (with_failure reason) actor (some reason) now u in
    let s1 = put id v s in
    let m = claim id assigned expired (with_failure reason) actor (some reason) now in
    let k : Transaction → Action Transaction =
      λ won. (release_hold won assigned >>= λ _. pure won) in
    let (r, done, moved) = release_held v assigned s1 holding.1 (rw named there) in
    let won =
      claim_won id assigned expired (with_failure reason) actor (some reason) now s u found here
        legal_expiry in
    let body : end_body id assigned expired reason actor now s ≡ (ok (some v), r) =
      if_won_won k m s v v s1 r won
        (bind_ok (release_hold v assigned) (λ _. pure v) s1 r tt done) in
    let whole : (end_from supports id assigned expired reason actor now s).1 ≡ r =
      ap (λ (x : Result Transaction × Store). x.1)
        (finished_some supports (end_body id assigned expired reason actor now) id (same expired) s
          r v body) in
    let nothing : held v ≡ 0 = rw holding.2 refl in
    let all : held u ≡ u.amount = rw (here, holding.1) refl in
    let row : Shift s s1 0 u.amount =
      Shift-level s s1 (held v) (held u) 0 u.amount (Shift-transaction id u v s found)
        (rw (nothing, all) (omega arith)) in
    subst (λ x. Shift s x (0 + u.amount) (u.amount + 0)) (sym whole)
      (Shift-Shift s s1 r 0 u.amount u.amount 0 row moved.0)

-- An assignment whose hold fails commits the transaction as ASSIGNED with nothing taken from the
-- captain. If it expires before it is put back, the captain is credited with the amount all the
-- same: the DMC in circulation rises by it.
pub failed_hold-expires :
    (supports : Bool) (id captain_id : ℕ) (share : CaptainShare) (reason : Text) (actor : Option ℕ)
    (now later : ℕ) (s : Store) {t : Transaction} {c : Captain}
    → lookup id s.transactions ≡ some t
    → t.status ≡ created
    → lookup captain_id s.captains ≡ some c
    → (is_active c.status && within_current_limit t.amount c) ≡ false
    → let assigned_store = (assign_body id captain_id t.amount share now s).1 in
      worth (end_from supports id assigned expired reason actor later assigned_store).1
      ≡ worth s +ℤ pos t.amount
failed_hold-expires supports id captain_id share reason actor now later s {t} {c} found here captain
      refused =
    let u = move created assigned (take_on captain_id share) none none now t in
    let s1 = put id u s in
    let won =
      claim_won id created assigned (take_on captain_id share) none none now s t found here
        legal_assign in
    let body =
      body_won supports id captain_id t.amount share 0 now s u false s1 s1 won
        (hold_fails captain_id t.amount s1 {c = c} captain refused) in
    let nothing : held t ≡ 0 = rw (here, holding.0) refl in
    let all : held u ≡ t.amount = rw holding.1 refl in
    let first : Shift s s1 t.amount 0 =
      Shift-level s s1 (held u) (held t) t.amount 0 (Shift-transaction id t u s found)
        (rw (nothing, all) (omega arith)) in
    let r = (end_from supports id assigned expired reason actor later s1).1 in
    let second : Shift s1 r (0 + t.amount) (t.amount + 0) =
      expired_from supports id reason actor later s1 u captain_id
        (ground (arith, lookup-insert id id u s.transactions)) refl refl (rw captain refl) in
    subst
      (λ (x : Result (Option Transaction × Bool) × Store).
        worth (end_from supports id assigned expired reason actor later x.1).1
        ≡ worth s +ℤ pos t.amount)
      (sym body) (omega (int_laws, parts_of_eq _ _ first, parts_of_eq _ _ second))
