-- ===== src/Engine/Assigning.antt =====
-- Assigning a captain: what leaves the captain's balance is put aside for the transaction, and
-- where the hold fails the transaction goes back without a captain.
use flitepay.Prelude.{
  ℕ, ◌+◌, ◌≡◌, inl, inr, refl, sym, ap, ◌∙◌, subst, Bool, true, false, none, some, arith,
}
use flitepay.Prelude.Int.{ℤ}
use flitepay.Prelude.Dict.{lookup, insert}
use flitepay.Machine.Transaction.{created, assigned, holds_funds}
use flitepay.Store.{Transaction, Store}
use flitepay.Engine.{put, move}
use flitepay.Engine.Worth.{held, Shift-transaction, Shift-Shift, Shift-none, IsSound-write}
use flitepay.Engine.Claims.{claim_cases, Balanced}
use flitepay.Engine.Money.{Moved-trans}
use flitepay.Commission.{CaptainShare}
use flitepay.Routing.{CaptainWorkload}
use flitepay.Prelude.Dict.{insert-insert, lookup-insert}
use flitepay.Engine.Assign.{
  assign_chosen, after_assignment, take_on, put_back, stamp_offer, assign_captain,
}
use flitepay.Engine.Conservation.{settled_up}
use flitepay.Engine.Holding.{
  hold_cases, stamp_offer-Moved, chosen_ok, chosen_err, body_refused, body_lost, body_won,
  after_nobody, after_held, after_failed, assign_captain_cases, some-injective,
}

closed : holds_funds created ≡ true → ⊥
unfolding holds_funds
closed e = cc

created_holds : holds_funds created ≡ false
unfolding holds_funds
created_holds = refl

assigned_holds : holds_funds assigned ≡ true
unfolding holds_funds
assigned_holds = refl

module _ (supports : Bool) (id captain_id amount : ℕ) (share : CaptainShare) (open_to now : ℕ)
    (s : Store) where
  -- A hold that fails: the transaction is back where it was, without a captain.
  failed-Balanced :
      (w : ℤ) (t u : Transaction)
      → Balanced w s
      → lookup id s.transactions ≡ some t
      → u.status ≡ assigned
      → u.party_id ≡ t.party_id
      → u.party_commission ≡ t.party_commission
      → held t ≡ 0
      → Balanced w (after_assignment id captain_id open_to now (some u, false) (put id u s)).1
  failed-Balanced w t u b found here same_party same_charge nothing =
      let s1 = put id u s in
      let v = put_back captain_id now u in
      let s2 = stamp_offer captain_id now s1 in
      let m = stamp_offer-Moved captain_id now s1 in
      let there : lookup id s1.transactions ≡ some u =
        ground (arith, lookup-insert id id u s.transactions) in
      let there2 : lookup id s2.transactions ≡ some u = ap (lookup id) m.2 ∙ there in
      let same_rows : (put id v s2).transactions ≡ (put id v s).transactions =
        ap (insert id v) m.2 ∙ insert-insert id v u s.transactions in
      let old = b.0 id t found in
      let shifts =
        Shift-Shift s s2 (put id v s2) _ _ _ _
          (Shift-Shift s s1 s2 _ _ 0 0 (Shift-transaction id t u s found) m.0)
          (Shift-transaction id u v s2 there2) in
      let level : Balanced w (put id v s2) = (
        IsSound-write s (put id v s2) id v b.0 m.1 same_rows
            (rw same_party old.0, rw same_charge old.1, λ e. absurd (closed e)),
        Shift-none s (put id v s2) _ _ shifts (rw (nothing, created_holds) (omega arith)) ∙ b.1,
      ) in
      subst (Balanced w)
        (sym (after_failed supports id captain_id amount share open_to now s u u s1 there2 here))
        level

  -- Assigning a chosen captain keeps the invariant, where the amount that was read is that of the
  -- transaction.
  pub assign_chosen-Balanced :
      (w : ℤ)
      → ((t : Transaction) → lookup id s.transactions ≡ some t → t.amount ≡ amount)
      → Balanced w s
      → Balanced w (assign_chosen supports id captain_id amount share open_to now s).1
  assign_chosen-Balanced w right b =
      elim (claim_cases id created assigned (take_on captain_id share) none none now s) [
        | inl refused ↦
            subst (Balanced w)
              (sym (
                chosen_err supports id captain_id amount share open_to now s _
                  (body_refused supports id captain_id amount share open_to now s _ refused)))
              b
        | inr (inl lost) ↦
            rw
              (chosen_ok supports id captain_id amount share open_to now s (none, true) s
                (body_lost supports id captain_id amount share open_to now s lost))
              (subst (Balanced w)
                (sym (after_nobody supports id captain_id amount share open_to now s true s)) b)
        | inr (inr (t, found, here, legal, won)) ↦
            let u = move created assigned (take_on captain_id share) none none now t in
            let nothing : held t ≡ 0 = rw (here, created_holds) refl in
            elim (hold_cases captain_id amount (put id u s)) [
              | inl failed ↦
                  rw
                    (chosen_ok supports id captain_id amount share open_to now s (some u, false)
                      (put id u s)
                      (body_won supports id captain_id amount share open_to now s u false _ _ won
                        failed))
                    (failed-Balanced w t u b found refl refl refl nothing)
              | inr (r, done, moved, there) ↦
                  let m =
                    Moved-trans (put id u s) r (stamp_offer captain_id now r) 0 amount 0 0 moved
                      (stamp_offer-Moved captain_id now r) in
                  let old = b.0 id t found in
                  let level : held u + 0 ≡ held t + (amount + 0) =
                    rw (nothing, assigned_holds) (omega (arith, right t found)) in
                  rw
                    (chosen_ok supports id captain_id amount share open_to now s (some u, true) r
                      (body_won supports id captain_id amount share open_to now s u true _ _ won
                        done))
                    (subst (Balanced w)
                      (sym (after_held supports id captain_id amount share open_to now s u r))
                      (settled_up w id 0 (amount + 0) t u s (stamp_offer captain_id now r) b found
                        (old.0, old.1, λ _. there) m level))
            ]
      ]

-- The whole of `assignCaptain` keeps the invariant: whatever captain it finds and however it ends.
pub assign_captain-Balanced :
    (w : ℤ) (supports : Bool) (workloads : ℕ → CaptainWorkload) (id now : ℕ) (s : Store)
    → Balanced w s
    → Balanced w (assign_captain supports workloads id now s).1
assign_captain-Balanced w supports workloads id now s b =
    elim (assign_captain_cases supports workloads id now s) [
      | inl nothing ↦ subst (Balanced w) (sym nothing) b
      | inr (t, best, share, open_to, found, at) ↦ subst (Balanced w) (sym at) (
          assign_chosen-Balanced supports id best.id t.amount share open_to now s w
            (λ u e. ap (λ (v : Transaction). v.amount) (some-injective u t (sym e ∙ found))) b)
    ]
