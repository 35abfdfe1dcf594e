-- ===== src/Prelude/Dict.antt =====
-- A collection of documents by id, with `findById`, an update in place, and the total of a
-- figure over all documents.
use flitepay.Prelude.{ℕ, ◌≡◌, ◌∙◌, Option, none, some, List, [], ◌∷◌, arith, ◌==◌, if◌then◌else◌}
use flitepay.Prelude.Int.{ℤ, pos, ◌+ℤ◌, int_laws}

abbrev pub Dict {ℓ} : Type ℓ → Type ℓ
Dict V = List (ℕ × V)

module _ {ℓ} {V : Type ℓ} where
  abbrev pub lookup : ℕ → Dict V → Option V
  lookup k [] = none
  lookup k ((j, v) ∷ d) = if k == j then some v else lookup k d

  -- Replaces the document, or adds it at the end.
  unfoldable pub insert : ℕ → V → Dict V → Dict V
  insert key value [] = (key, value) ∷ []
  insert key value (row ∷ rows) =
      if key == row.0 then (key, value) ∷ rows else row ∷ insert key value rows

  pub lookup-insert :
      (j k : ℕ) (v : V) (d : Dict V)
      → lookup j (insert k v d) ≡ (if j == k then some v else lookup j d)
  unfolding insert
  lookup-insert j k v [] = ground arith
  lookup-insert j k v (e ∷ d) = ground (arith, lookup-insert j k v d)

  abbrev pub total : (V → ℤ) → Dict V → ℤ
  total f [] = pos 0
  total f ((j, v) ∷ d) = f v +ℤ total f d

  pub total-insert :
      (f : V → ℤ) (k : ℕ) (v old : V) (d : Dict V)
      → lookup k d ≡ some old
      → total f (insert k v d) +ℤ f old ≡ total f d +ℤ f v
  unfolding insert
  total-insert f k v old [] e = grind arith
  total-insert f k v old (x ∷ d) e = grind (int_laws, total-insert f k v old d)

  pub total-insert_new :
      (f : V → ℤ) (k : ℕ) (v : V) (d : Dict V)
      → lookup k d ≡ none
      → total f (insert k v d) ≡ total f d +ℤ f v
  unfolding insert
  total-insert_new f k v [] e = omega int_laws
  total-insert_new f k v (x ∷ d) e = grind (int_laws, total-insert_new f k v d)

module _ {ℓ} {V : Type ℓ} where
  pub insert-insert : (k : ℕ) (v w : V) (d : Dict V) → insert k v (insert k w d) ≡ insert k v d
  unfolding insert
  insert-insert k v w [] = ground arith
  insert-insert k v w (e ∷ d) = ground (arith, insert-insert k v w d)

  pub insert_same : (k : ℕ) (v : V) (d : Dict V) → lookup k d ≡ some v → insert k v d ≡ d
  unfolding insert
  insert_same k v [] h = cc
  insert_same k v (e ∷ d) h = ground (arith, insert_same k v d)

  -- Putting a document back undoes the write before it.
  pub insert_back :
      (k : ℕ) (v w : V) (d : Dict V) → lookup k d ≡ some v → insert k v (insert k w d) ≡ d
  insert_back k v w d h = insert-insert k v w d ∙ insert_same k v d h
