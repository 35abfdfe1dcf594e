-- ===== src/Engine/History.antt =====
-- Whole lives of transactions: what any sequence of operations leaves of each row.
use flitepay.Prelude.{
  ℕ, ◌≡◌, inl, inr, refl, sym, ap, ◌∙◌, subst, Bool, true, false, none, some, List, [], ◌∷◌, arith,
}
use flitepay.Prelude.Dict.{lookup, lookup-insert}
use flitepay.Machine.Transaction.{
  TransactionState, created, assigned, expired, cancelled, can_transition, is_terminal,
}
use flitepay.Store.{StateChange, Transaction, Store}
use flitepay.Routing.{CaptainWorkload}
use flitepay.Commission.{CaptainShare}
use flitepay.Engine.{put, move}
use flitepay.Engine.Assign.{
  assign_captain, assign_chosen, take_on, put_back, stamp_offer, after_assignment,
}
use flitepay.Engine.Claims.{claim_cases}
use flitepay.Engine.Holding.{
  hold_cases, stamp_offer-Moved, chosen_ok, chosen_err, body_refused, body_lost, body_won,
  after_nobody, after_held, after_failed, assign_captain_cases,
}
use flitepay.Engine.Rows.{
  SameDeal, Follows, stays, moves, notes, Rows, Rows-refl, Rows-same, Rows-write,
}
use flitepay.Engine.Changes.{
  open_to_customer-Rows, confirm_movement-Rows, dispute_from-Rows, end_from-Rows, decline_from-Rows,
  settle_from-Rows, create_after-Rows,
}
use flitepay.Engine.Steps.{
  Step, creates, assigns, opens, confirms, settles, declines, expires, cancels, disputes, Run,
  start, then_step,
}

put_back_legal : can_transition assigned created ≡ true
unfolding can_transition
put_back_legal = refl

module _ (s0 : Store) (supports : Bool) (id captain_id amount : ℕ) (share : CaptainShare)
    (open_to now : ℕ) (s : Store) where
  failed-Rows :
      (u : Transaction)
      → Rows s0 (put id u s)
      → u.status ≡ assigned
      → Rows s0 (after_assignment id captain_id open_to now (some u, false) (put id u s)).1
  failed-Rows u r here =
      let s1 = put id u s in
      let s2 = stamp_offer captain_id now s1 in
      let v = put_back captain_id now u in
      let m = stamp_offer-Moved captain_id now s1 in
      let found : lookup id s2.transactions ≡ some u =
        ap (lookup id) m.2 ∙ ground (arith, lookup-insert id id u s.transactions) in
      subst (Rows s0)
        (sym (after_failed supports id captain_id amount share open_to now s u u s1 found here))
        (Rows-write s0 s2 (put id v s2) id u v (Rows-same s0 s1 s2 r m.2) found
          (moves u v _ stays (rw here put_back_legal) (ap some (sym here)) refl refl
            (refl, refl, refl, refl))
          refl)

  assign_chosen-Rows :
      Rows s0 s → Rows s0 (assign_chosen supports id captain_id amount share open_to now s).1
  assign_chosen-Rows r =
      elim (claim_cases id created assigned (take_on captain_id share) none none now s) [
        | inl refused ↦
            subst (Rows s0)
              (sym (
                chosen_err supports id captain_id amount share open_to now s _
                  (body_refused supports id captain_id amount share open_to now s _ refused)))
              r
        | inr (inl lost) ↦
            rw
              (chosen_ok supports id captain_id amount share open_to now s (none, true) s
                (body_lost supports id captain_id amount share open_to now s lost))
              (subst (Rows s0)
                (sym (after_nobody supports id captain_id amount share open_to now s true s)) r)
        | inr (inr (t, found, here, legal, won)) ↦
            let u = move created assigned (take_on captain_id share) none none now t in
            let r1 =
              Rows-write s0 s (put id u s) id t u r found
                (moves t u _ stays (rw here legal) (ap some (sym here)) refl refl
                  (refl, refl, refl, refl))
                refl in
            elim (hold_cases captain_id amount (put id u s)) [
              | inl failed ↦
                  rw
                    (chosen_ok supports id captain_id amount share open_to now s (some u, false)
                      (put id u s)
                      (body_won supports id captain_id amount share open_to now s u false _ _ won
                        failed))
                    (failed-Rows u r1 refl)
              | inr (x, done, moved, there) ↦
                  rw
                    (chosen_ok supports id captain_id amount share open_to now s (some u, true) x
                      (body_won supports id captain_id amount share open_to now s u true _ _ won
                        done))
                    (subst (Rows s0)
                      (sym (after_held supports id captain_id amount share open_to now s u x))
                      (Rows-same s0 x (stamp_offer captain_id now x)
                        (Rows-same s0 (put id u s) x r1 moved.2)
                        (stamp_offer-Moved captain_id now x).2))
            ]
      ]

assign_captain-Rows :
    (s0 : Store) (supports : Bool) (workloads : ℕ → CaptainWorkload) (id now : ℕ) (s : Store)
    → Rows s0 s
    → Rows s0 (assign_captain supports workloads id now s).1
assign_captain-Rows s0 supports workloads id now s r =
    elim (assign_captain_cases supports workloads id now s) [
      | inl nothing ↦ subst (Rows s0) (sym nothing) r
      | inr (t, best, share, open_to, found, at) ↦
          subst (Rows s0) (sym at)
            (assign_chosen-Rows s0 supports id best.id t.amount share open_to now s r)
    ]

Step-Rows : (s0 : Store) (supports : Bool) (s t : Store) → Step supports s t → Rows s0 s → Rows s0 t
Step-Rows s0 supports s _ (creates already new_id party_id reference input now f h top) r =
    create_after-Rows s0 already new_id party_id reference input now s f r
Step-Rows s0 supports s _ (assigns workloads id now) r =
    assign_captain-Rows s0 supports workloads id now s r
Step-Rows s0 supports s _ (opens id order_id qr_payload now) r =
    open_to_customer-Rows s0 id order_id qr_payload now s r
Step-Rows s0 supports s _ (confirms id reference actor now) r =
    confirm_movement-Rows s0 id reference actor now s r
Step-Rows s0 supports s _ (settles id from actor now) r =
    settle_from-Rows s0 supports id from actor now s r
Step-Rows s0 supports s _ (declines id captain_id reason actor now) r =
    decline_from-Rows s0 supports id captain_id reason actor now s r
Step-Rows s0 supports s _ (expires id from reason actor now) r =
    end_from-Rows s0 supports id from expired reason actor now s r
Step-Rows s0 supports s _ (cancels id from reason actor now) r =
    end_from-Rows s0 supports id from cancelled reason actor now s r
Step-Rows s0 supports s _ (disputes id from reason actor now) r =
    dispute_from-Rows s0 id from reason actor now s r

Run-Rows : (supports : Bool) (s t : Store) → Run supports s t → Rows s t
Run-Rows supports s _ start = Rows-refl s
Run-Rows supports s _ (then_step t u run step) =
    Step-Rows s supports t u step (Run-Rows supports s t run)

-- A history is a legal path from CREATED to the status: newest entry first, each entry's `from`
-- being the status before it.
pub data Recorded : TransactionState → List StateChange → Type 0 where
  opened :
      (entry : StateChange) → entry.from ≡ none → entry.to ≡ created → Recorded created (entry ∷ [])
  grew :
      (before after : TransactionState) (entry : StateChange) (history : List StateChange)
      → Recorded before history
      → can_transition before after ≡ true
      → entry.from ≡ some before
      → entry.to ≡ after
      → Recorded after (entry ∷ history)

abbrev pub IsRecorded : Transaction → Type 0
IsRecorded t = Recorded t.status t.state_history

Follows-IsRecorded : (a b : Transaction) → Follows a b → IsRecorded a → IsRecorded b
Follows-IsRecorded a _ stays h = h
Follows-IsRecorded a _ (moves b c entry f legal before after recorded deal) h =
    subst (Recorded c.status) (sym recorded)
      (grew b.status c.status entry b.state_history (Follows-IsRecorded a b f h) legal before after)
Follows-IsRecorded a _ (notes b paid f) h = Follows-IsRecorded a b f h

-- After any sequence of operations, the history of every transaction is a legal path from CREATED
-- to its status, where it was so for every transaction at the start.
pub Run-history :
    (supports : Bool) (s t : Store)
    → Run supports s t
    → ((id : ℕ) (a : Transaction) → lookup id s.transactions ≡ some a → IsRecorded a)
    → (id : ℕ) (b : Transaction) → lookup id t.transactions ≡ some b
    → IsRecorded b
Run-history supports s t run recorded id b found =
    let (a, origin, f) = (Run-Rows supports s t run).1 id b found in
    Follows-IsRecorded a b f (elim origin [
      | inl old ↦ recorded id a old
      | inr (missing, new) ↦
          subst (λ st. Recorded st a.state_history) (sym new.0)
            (subst (Recorded created) (sym new.1.1) (opened new.1.0 new.1.2 new.1.3))
    ])

Follows-SameDeal : (a b : Transaction) → Follows a b → SameDeal a b
Follows-SameDeal a _ stays = (refl, refl, refl, refl)
Follows-SameDeal a _ (moves b c entry f legal before after recorded deal) =
    let d = Follows-SameDeal a b f in (deal.0 ∙ d.0, deal.1 ∙ d.1, deal.2 ∙ d.2, deal.3 ∙ d.3)
Follows-SameDeal a _ (notes b paid f) = Follows-SameDeal a b f

-- No sequence of operations loses a transaction or changes its party, its reference, its amount
-- or what the party is charged.
pub Run-keeps_deal :
    (supports : Bool) (s t : Store)
    → Run supports s t
    → (id : ℕ) (a : Transaction) → lookup id s.transactions ≡ some a
    → (b : Transaction) × (lookup id t.transactions ≡ some b) × SameDeal a b
Run-keeps_deal supports s t run id a found =
    let (b, at, f) = (Run-Rows supports s t run).0 id a found in (b, at, Follows-SameDeal a b f)

terminal_stuck : (a b : TransactionState) → is_terminal a ≡ true → can_transition a b ≡ true → ⊥
unfolding is_terminal can_transition
terminal_stuck created b p q = ground arith
terminal_stuck _ b p q = ground arith

pub Follows-terminal :
    (a b : Transaction)
    → Follows a b
    → is_terminal a.status ≡ true
    → (b.status ≡ a.status) × (b.state_history ≡ a.state_history)
Follows-terminal a _ stays h = (refl, refl)
Follows-terminal a _ (moves b c entry f legal before after recorded deal) h =
    let (same_status, _) = Follows-terminal a b f h in
    absurd (terminal_stuck b.status c.status (rw same_status h) legal)
Follows-terminal a _ (notes b paid f) h = Follows-terminal a b f h

-- A transaction that is settled, expired or cancelled keeps its status and its history through any
-- sequence of operations.
pub Run-terminal :
    (supports : Bool) (s t : Store)
    → Run supports s t
    → (id : ℕ) (a : Transaction) → lookup id s.transactions ≡ some a
    → is_terminal a.status ≡ true
    → (b : Transaction) × (lookup id t.transactions ≡ some b)
      × (b.status ≡ a.status)
      × (b.state_history ≡ a.state_history)
Run-terminal supports s t run id a found over =
    let (b, at, f) = (Run-Rows supports s t run).0 id a found in
    let (same_status, same_history) = Follows-terminal a b f over in
    (b, at, same_status, same_history)
