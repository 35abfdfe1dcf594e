-- ===== src/Prelude/Sorting.antt =====
-- `sort({ key: 1 })` and `limit` of a query: a stable sort by a number, and the first elements.
use flitepay.Prelude.{
  ℕ, zero, suc, ◌≤◌, ◌≡◌, ◌⊎◌, inl, inr, refl, ap, List, [], ◌∷◌, arith, Bool-cases, leb,
  if◌then◌else◌, All, length,
}

module _ {ℓ} {A : Type ℓ} where
  abbrev pub take : ℕ → List A → List A
  take zero xs = []
  take (suc n) [] = []
  take (suc n) (x ∷ xs) = x ∷ take n xs

module _ {A : Type 0} where
  abbrev pub In : A → List A → Type 0
  In x [] = ⊥
  In x (y ∷ ys) = (x ≡ y) ⊎ In x ys

module _ {A : Type 0} (key : A → ℕ) where
  abbrev pub insert_by : A → List A → List A
  insert_by x [] = x ∷ []
  insert_by x (y ∷ ys) = if leb (key x) (key y) then x ∷ y ∷ ys else y ∷ insert_by x ys

  abbrev pub sort_by : List A → List A
  sort_by [] = []
  sort_by (x ∷ xs) = insert_by x (sort_by xs)

  abbrev pub Ascending : List A → Type 0
  Ascending [] = Unit
  Ascending (x ∷ xs) = All (λ y. key x ≤ key y) xs × Ascending xs

  All-insert {κ} : (P : A → Type κ) (x : A) (xs : List A) → P x → All P xs → All P (insert_by x xs)
  All-insert P x [] hx h = (hx, tt)
  All-insert P x (y ∷ ys) hx h = elim (Bool-cases (leb (key x) (key y))) [
    | inl first ↦ rw first (hx, h)
    | inr later ↦ rw later (h.0, All-insert P x ys hx h.1)
  ]

  pub All-sort {κ} : (P : A → Type κ) (xs : List A) → All P xs → All P (sort_by xs)
  All-sort P [] h = tt
  All-sort P (x ∷ xs) h = All-insert P x (sort_by xs) h.0 (All-sort P xs h.1)

  All-le : (m n : ℕ) (xs : List A) → m ≤ n → All (λ y. n ≤ key y) xs → All (λ y. m ≤ key y) xs
  All-le m n [] h a = tt
  All-le m n (x ∷ xs) h a = (omega (arith, a.0), All-le m n xs h a.1)

  insert-Ascending : (x : A) (xs : List A) → Ascending xs → Ascending (insert_by x xs)
  insert-Ascending x [] h = (tt, tt)
  insert-Ascending x (y ∷ ys) h = elim (Bool-cases (leb (key x) (key y))) [
    | inl first ↦ rw first ((ground arith, All-le (key x) (key y) ys (ground arith) h.0), h)
    | inr later ↦
        rw later
          (All-insert (λ z. key y ≤ key z) x ys (ground arith) h.0, insert-Ascending x ys h.1)
  ]

  pub sort-Ascending : (xs : List A) → Ascending (sort_by xs)
  sort-Ascending [] = tt
  sort-Ascending (x ∷ xs) = insert-Ascending x (sort_by xs) (sort-Ascending xs)

  insert-here : (x : A) (xs : List A) → In x (insert_by x xs)
  insert-here x [] = inl refl
  insert-here x (y ∷ ys) = elim (Bool-cases (leb (key x) (key y))) [
    | inl first ↦ rw first (inl refl)
    | inr later ↦ rw later (inr (insert-here x ys))
  ]

  insert-there : (x z : A) (xs : List A) → In z xs → In z (insert_by x xs)
  insert-there x z [] h = absurd h
  insert-there x z (y ∷ ys) (inl e) = elim (Bool-cases (leb (key x) (key y))) [
    | inl first ↦ rw first (inr (inl e))
    | inr later ↦ rw later (inl e)
  ]
  insert-there x z (y ∷ ys) (inr h) = elim (Bool-cases (leb (key x) (key y))) [
    | inl first ↦ rw first (inr (inr h))
    | inr later ↦ rw later (inr (insert-there x z ys h))
  ]

  pub In-sort : (z : A) (xs : List A) → In z xs → In z (sort_by xs)
  In-sort z [] h = h
  In-sort z (x ∷ xs) (inl e) = rw e (insert-here x (sort_by xs))
  In-sort z (x ∷ xs) (inr h) = insert-there x z (sort_by xs) (In-sort z xs h)

  le_of_In : (n : ℕ) (z : A) (xs : List A) → All (λ y. n ≤ key y) xs → In z xs → n ≤ key z
  le_of_In n z [] a h = absurd h
  le_of_In n z (x ∷ xs) a (inl e) = rw e a.0
  le_of_In n z (x ∷ xs) a (inr h) = le_of_In n z xs a.1 h

  -- What the first elements of an ascending list leave out comes after all of them.
  pub take-cases :
      (n : ℕ) (z : A) (xs : List A)
      → Ascending xs
      → In z xs
      → In z (take n xs) ⊎ ((length (take n xs) ≡ n) × All (λ y. key y ≤ key z) (take n xs))
  take-cases zero z xs up h = inr (refl, tt)
  take-cases (suc n) z [] up h = absurd h
  take-cases (suc n) z (x ∷ xs) up (inl e) = inl (inl e)
  take-cases (suc n) z (x ∷ xs) up (inr h) = elim (take-cases n z xs up.1 h) [
    | inl taken ↦ inl (inr taken)
    | inr (full, before_it) ↦ inr (ap suc full, (le_of_In (key x) z xs up.0 h, before_it))
  ]
