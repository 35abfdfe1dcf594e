-- ===== src/Allocation/Groups.antt =====
-- Each party's group is its slices, in the order in which they were drawn.
use flitepay.Prelude.{
  ℕ, ◌≡◌, sym, ap, ◌∙◌, Bool, true, false, get_or, List, [], ◌∷◌, ◌++◌, arith, ◌==◌, filter_by,
  Bool-cases, inl, inr, append-nil, append_assoc,
}
use flitepay.Prelude.Dict.{Dict, lookup}
use flitepay.Allocation.{Slice, add_to_group, group_into, group_slices_by_party}

abbrev of_party : ℕ → Slice → Bool
of_party party x = x.source_party_id == party

abbrev group_of : ℕ → Dict (List Slice) → List Slice
group_of party groups = get_or (lookup party groups) []

add_to_group-own :
    (x : Slice) (groups : Dict (List Slice)) (party : ℕ)
    → (x.source_party_id == party) ≡ true
    → group_of party (add_to_group x groups) ≡ group_of party groups ++ x ∷ []
unfolding add_to_group
add_to_group-own x [] party own = ground arith
add_to_group-own x ((key, g) ∷ groups) party own = ground (arith, add_to_group-own x groups party)

add_to_group-other :
    (x : Slice) (groups : Dict (List Slice)) (party : ℕ)
    → (x.source_party_id == party) ≡ false
    → group_of party (add_to_group x groups) ≡ group_of party groups
unfolding add_to_group
add_to_group-other x [] party other = ground arith
add_to_group-other x ((key, g) ∷ groups) party other =
    ground (arith, add_to_group-other x groups party)

group_into_lem :
    (slices : List Slice) (groups : Dict (List Slice)) (party : ℕ)
    → group_of party (group_into slices groups)
      ≡ group_of party groups ++ filter_by (of_party party) slices
unfolding group_into
group_into_lem [] groups party = sym (append-nil (group_of party groups))
group_into_lem (x ∷ slices) groups party =
    let ih = group_into_lem slices (add_to_group x groups) party in
    elim (Bool-cases (x.source_party_id == party)) [
      | inl own ↦ rw own (
          ih
          ∙ ap (λ g. g ++ filter_by (of_party party) slices) (add_to_group-own x groups party own)
          ∙ append_assoc (group_of party groups) (x ∷ []) (filter_by (of_party party) slices))
      | inr other ↦ rw other (
          ih
          ∙ ap (λ g. g ++ filter_by (of_party party) slices)
              (add_to_group-other x groups party other))
    ]

-- A party's group holds exactly the slices that came from it, in the order of consumption; a party
-- without slices has no group, or an empty one.
pub group_slices_by_party_lem :
    (slices : List Slice) (party : ℕ)
    → get_or (lookup party (group_slices_by_party slices)) []
      ≡ filter_by (λ x. x.source_party_id == party) slices
unfolding group_slices_by_party
group_slices_by_party_lem slices party = group_into_lem slices [] party
