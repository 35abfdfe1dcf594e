-- ===== src/Routing/Score.antt =====
-- The score is a number from 0 to 1, and the best candidate is preceded by none.
use flitepay.Prelude.{
  ℕ, ◌+◌, ◌*◌, ◌/◌, ◌≤◌, ◌<◌, ◌≡◌, refl, true, false, List, [], ◌∷◌, arith, All, Bool-cases, inl,
  inr, subst, sym, get_or,
}
use flitepay.Prelude.Sorting.{In}
use flitepay.Store.{Record, Captain}
use flitepay.Routing.{
  Frac, ◌⊞◌, weigh, compute_success_rate, CaptainWorkload, rating_part, success_part,
  availability_part, responsiveness_part, headroom_part, weighted, score_captain, Candidate, before,
  best_from,
}

-- A proper fraction of at most w hundredths.
abbrev Within : ℕ → Frac → Type 0
Within w x = (0 < x.den) × (100 * x.num ≤ w * x.den)

weigh-Within : (w : ℕ) (x : Frac) → 0 < x.den → x.num ≤ x.den → Within w (weigh w x)
unfolding weigh
weigh-Within w x p h = (omega arith, grind arith)

mul_le : (a b k : ℕ) → a ≤ b → a * k ≤ b * k
mul_le a b k h = grind arith

mul_pos : (a b : ℕ) → 0 < a → 0 < b → 0 < a * b
mul_pos a b h k = grind arith

⊞-Within : (v w : ℕ) (x y : Frac) → Within v x → Within w y → Within (v + w) (x ⊞ y)
unfolding ◌⊞◌
⊞-Within v w x y hx hy = (
  mul_pos x.den y.den hx.0 hy.0,
  omega (
    arith,
    mul_le (100 * x.num) (v * x.den) y.den hx.1,
    mul_le (100 * y.num) (w * y.den) x.den hy.1,
  ),
)

-- The success rate of any record is a fraction from 0 to 1.
pub compute_success_rate_bounds :
    (r : Record)
    → (0 < (compute_success_rate r).den)
      × ((compute_success_rate r).num ≤ (compute_success_rate r).den)
unfolding compute_success_rate
compute_success_rate_bounds r = ground arith

success_part_bounds :
    (c : Captain) → (0 < (success_part c).den) × ((success_part c).num ≤ (success_part c).den)
unfolding success_part
success_part_bounds c = ground (arith, compute_success_rate_bounds c.track)

responsiveness_part_bounds :
    (r : Record)
    → (0 < (responsiveness_part r).den)
      × ((responsiveness_part r).num ≤ (responsiveness_part r).den)
unfolding responsiveness_part
responsiveness_part_bounds r = ground arith

headroom_part_bounds :
    (c : Captain) (amount : ℕ)
    → (0 < (headroom_part c amount).den)
      × ((headroom_part c amount).num ≤ (headroom_part c amount).den)
unfolding headroom_part
headroom_part_bounds c amount = ground arith

weighted-Within :
    (c : Captain) (amount : ℕ) (w : CaptainWorkload) → Within 100 (weighted c amount w)
unfolding weighted
weighted-Within c amount w =
    let s = success_part_bounds c in
    let r = responsiveness_part_bounds c.track in
    let h = headroom_part_bounds c amount in
    ⊞-Within 95 5 _ _
      (⊞-Within 85 10 _ _
        (⊞-Within 60 25 _ _
          (⊞-Within 35 25 _ _ (weigh-Within 35 (rating_part c) (omega arith) (omega arith))
            (weigh-Within 25 (success_part c) s.0 s.1))
          (weigh-Within 25 (availability_part w) (unfold availability_part in omega arith)
            (unfold availability_part in omega arith)))
        (weigh-Within 10 (responsiveness_part c.track) r.0 r.1))
      (weigh-Within 5 (headroom_part c amount) h.0 h.1)

round_le : (n d : ℕ) → 0 < d → n ≤ d → (2 * (n * 10000) + d) / (2 * d) ≤ 10000
round_le n d p h = grind arith

-- A captain's score is from 0 to 1, whatever their record, their rating and their open work.
pub score_captain_bounds :
    (c : Captain) (amount : ℕ) (w : CaptainWorkload) → score_captain c amount w ≤ 10000
unfolding score_captain
score_captain_bounds c amount w =
    let b = weighted-Within c amount w in
    round_le (weighted c amount w).num (weighted c amount w).den b.0 (omega (arith, b))

before_trans : (a b c : Candidate) → before b a ≡ false → before c b ≡ false → before c a ≡ false
unfolding before
before_trans a b c h k = ground arith

before_irrefl : (a : Candidate) → before a a ≡ false
unfolding before
before_irrefl a = ground arith

before_asym : (a b : Candidate) → before a b ≡ true → before b a ≡ false
unfolding before
before_asym a b h = ground arith

-- `x` has no higher score than `m`, nor the same and an earlier last offer.
abbrev Behind : Candidate → Candidate → Type 0
Behind x m =
    (x.score ≤ m.score)
    × (x.score ≡ m.score → get_or m.captain.last_offered_at 0 ≤ get_or x.captain.last_offered_at 0)

-- Nobody stands strictly before the one chosen.
best_from-least :
    (a : Candidate) (bs : List Candidate) → All (λ x. before x (best_from a bs) ≡ false) (a ∷ bs)
unfolding best_from
best_from-least a [] = (before_irrefl a, tt)
best_from-least a (b ∷ bs) = elim (Bool-cases (before b a)) [
  | inl ahead ↦
      let ih = best_from-least b bs in
      let e : best_from a (b ∷ bs) ≡ best_from b bs = rw ahead refl in
      subst (λ m. All (λ x. before x m ≡ false) (a ∷ b ∷ bs)) (sym e)
        (before_trans (best_from b bs) b a ih.0 (before_asym b a ahead), (ih.0, ih.1))
  | inr behind ↦
      let ih = best_from-least a bs in
      let e : best_from a (b ∷ bs) ≡ best_from a bs = rw behind refl in
      subst (λ m. All (λ x. before x m ≡ false) (a ∷ b ∷ bs)) (sym e)
        (ih.0, (before_trans (best_from a bs) a b ih.0 behind, ih.1))
]

ahead_of : (x m : Candidate) → before x m ≡ false → Behind x m
unfolding before
ahead_of x m h = ground arith

All-Behind :
    (m : Candidate) (bs : List Candidate)
    → All (λ x. before x m ≡ false) bs
    → All (λ x. Behind x m) bs
All-Behind m [] h = tt
All-Behind m (b ∷ bs) h = (ahead_of b m h.0, All-Behind m bs h.1)

one_of : (a : Candidate) (bs : List Candidate) → In (best_from a bs) (a ∷ bs)
unfolding best_from
one_of a [] = inl refl
one_of a (b ∷ bs) = elim (Bool-cases (before b a)) [
  | inl ahead ↦
      let e : best_from a (b ∷ bs) ≡ best_from b bs = rw ahead refl in
      subst (λ m. In m (a ∷ b ∷ bs)) (sym e) (inr (one_of b bs))
  | inr behind ↦
      let e : best_from a (b ∷ bs) ≡ best_from a bs = rw behind refl in
      subst (λ m. In m (a ∷ b ∷ bs)) (sym e)
        (elim (one_of a bs) [ inl first ↦ inl first | inr later ↦ inr (inr later) ])
]

-- The one chosen is one of the candidates; none of them has a higher score, and none of the same
-- score has waited longer since their last offer, where never counts as longest.
pub best_from_first :
    (a : Candidate) (bs : List Candidate)
    → In (best_from a bs) (a ∷ bs)
      × All
          (λ x.
            (x.score ≤ (best_from a bs).score)
            × (x.score ≡ (best_from a bs).score
                → get_or (best_from a bs).captain.last_offered_at 0
                  ≤ get_or x.captain.last_offered_at 0))
          (a ∷ bs)
best_from_first a bs = (one_of a bs, All-Behind (best_from a bs) (a ∷ bs) (best_from-least a bs))
