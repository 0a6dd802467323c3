-- ===== src/Table/Order.antt =====
-- ORDER BY as insertion sort by a comparison, and what its first row is.
use tc_backend.Prelude.{
  length, ◌+◌, refl, subst, ◌≡◌, Bool, true, some, List, [], ◌∷◌, arith, if◌then◌else◌, first, All,
  Has, Bool-cases, inl, inr, ◌⊎◌,
}
use tc_backend.Table.Rows.{Has→All, All→Has}

-- a total preorder, as a Boolean test
pub record IsOrder {ℓ} {A : Type ℓ} (le : A → A → Bool) : Type ℓ where
  pub total : (x y : A) → (le x y ≡ true) ⊎ (le y x ≡ true)
  pub trans : (x y z : A) → le x y ≡ true → le y z ≡ true → le x z ≡ true

module _ {A : Type 0} (le : A → A → Bool) where
  unfoldable pub insert_by : A → List A → List A
  insert_by x [] = x ∷ []
  insert_by x (y ∷ ys) = if le x y then x ∷ y ∷ ys else y ∷ insert_by x ys

  -- SELECT ... ORDER BY le
  unfoldable pub order_by : List A → List A
  unfolding insert_by
  order_by [] = []
  order_by (x ∷ xs) = insert_by x (order_by xs)

  abbrev pub IsSorted : List A → Type 0
  IsSorted [] = Unit
  IsSorted (x ∷ xs) = All (λ y. le x y ≡ true) xs × IsSorted xs

module _ {A : Type 0} (le : A → A → Bool) where
  pub All-insert_by :
      (P : A → Type 0) (x : A) (ys : List A) → P x → All P ys → All P (insert_by le x ys)
  unfolding insert_by
  All-insert_by P x [] p a = (p, tt)
  All-insert_by P x (y ∷ ys) p a = elim (Bool-cases (le x y)) [
    | inl e ↦ rw e (p, a)
    | inr e ↦ rw e (a.0, All-insert_by P x ys p a.1)
  ]

  length-insert_by : (x : A) (xs : List A) → length (insert_by le x xs) ≡ length xs + 1
  unfolding insert_by
  length-insert_by x [] = refl
  length-insert_by x (y ∷ ys) = ground (arith, length-insert_by x ys)

  pub length-order_by : (xs : List A) → length (order_by le xs) ≡ length xs
  unfolding order_by
  length-order_by [] = refl
  length-order_by (x ∷ xs) = ground (arith, length-insert_by x (order_by le xs), length-order_by xs)

  pub All-order_by : (P : A → Type 0) (xs : List A) → All P xs → All P (order_by le xs)
  unfolding order_by
  All-order_by P [] a = tt
  All-order_by P (x ∷ xs) a = All-insert_by P x (order_by le xs) a.0 (All-order_by P xs a.1)

  insert_by-All :
      (P : A → Type 0) (x : A) (ys : List A) → All P (insert_by le x ys) → P x × All P ys
  unfolding insert_by
  insert_by-All P x [] a = a
  insert_by-All P x (y ∷ ys) a = elim (Bool-cases (le x y)) [
    | inl e ↦ let b : All P (x ∷ y ∷ ys) = rw e at a in b
    | inr e ↦
        let b : All P (y ∷ insert_by le x ys) = rw e at a in
        let r = insert_by-All P x ys b.1 in (r.0, (b.0, r.1))
  ]

  -- The ordered rows are the rows: what holds of all of one holds of all of the other.
  pub order_by-All : (P : A → Type 0) (xs : List A) → All P (order_by le xs) → All P xs
  unfolding order_by
  order_by-All P [] a = tt
  order_by-All P (x ∷ xs) a =
      let r = insert_by-All P x (order_by le xs) a in (r.0, order_by-All P xs r.1)

  pub Has-order_by : (xs : List A) (x : A) → Has x (order_by le xs) → Has x xs
  Has-order_by xs x m =
      All→Has (λ y. Has y xs) (order_by le xs) x
        (All-order_by (λ y. Has y xs) xs (Has→All _ xs (λ y h. h))) m

module _ {A : Type 0} (le : A → A → Bool) (o : IsOrder le) where
  insert_by-IsSorted : (x : A) (ys : List A) → IsSorted le ys → IsSorted le (insert_by le x ys)
  unfolding insert_by
  insert_by-IsSorted x [] s = (tt, tt)
  insert_by-IsSorted x (y ∷ ys) s = elim (Bool-cases (le x y)) [
    | inl e ↦ rw e ((e, Has→All _ ys (λ z m. o.trans x y z e (All→Has _ ys z s.0 m))), s)
    | inr e ↦ rw e (
      All-insert_by le (λ z. le y z ≡ true) x ys
          (elim (o.total x y) [ inl h ↦ absurd (ground arith) | inr h ↦ h ]) s.0,
      insert_by-IsSorted x ys s.1,
    )
  ]

  pub order_by-IsSorted : (xs : List A) → IsSorted le (order_by le xs)
  unfolding order_by
  order_by-IsSorted [] = tt
  order_by-IsSorted (x ∷ xs) = insert_by-IsSorted x (order_by le xs) (order_by-IsSorted xs)

  first-least :
      (xs : List A) (m : A) → IsSorted le xs → first xs ≡ some m → All (λ y. le m y ≡ true) xs
  first-least [] m s h = tt
  first-least (x ∷ xs) m s h =
      let same : x ≡ m = ground arith in
      subst (λ v. All (λ y. le v y ≡ true) (x ∷ xs)) same
        (elim (o.total x x) [ inl e ↦ e | inr e ↦ e ], s.0)

  -- The first ordered row is least among all the rows.
  pub first-order_by :
      (xs : List A) (m : A) → first (order_by le xs) ≡ some m → All (λ y. le m y ≡ true) xs
  first-order_by xs m h =
      order_by-All le (λ y. le m y ≡ true) xs
        (first-least (order_by le xs) m (order_by-IsSorted xs) h)
