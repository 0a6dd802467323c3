-- ===== src/Table/Rows.antt =====
-- Selecting and updating the rows that satisfy a condition.
use tc_backend.Prelude.{
  length, ◌&&◌, ◌<◌, false, ℕ, ◌+◌, ◌≡◌, refl, Bool, true, Option, none, some, List, [], ◌∷◌, ◌++◌,
  arith, if◌then◌else◌, All, Has, Bool-cases, inl, inr,
}

-- what a function makes of a value that may be missing
abbrev pub map_some {ℓ κ} : {A : Type ℓ} {B : Type κ} → (A → B) → Option A → Option B
map_some f none = none
map_some f (some a) = some (f a)

module _ {ℓ} {A : Type ℓ} where
  -- SELECT ... WHERE p
  unfoldable pub select : (A → Bool) → List A → List A
  select p [] = []
  select p (x ∷ xs) = let rest = select p xs in if p x then x ∷ rest else rest

  -- SELECT ... WHERE p with `.first()`, in the order of the rows
  unfoldable pub first_where : (A → Bool) → List A → Option A
  first_where p [] = none
  first_where p (x ∷ xs) = if p x then some x else first_where p xs

  -- UPDATE ... WHERE p
  unfoldable pub update_where : (A → Bool) → (A → A) → List A → List A
  update_where p f [] = []
  update_where p f (x ∷ xs) = (if p x then f x else x) ∷ update_where p f xs

  -- the `rowcount` of an UPDATE, or SELECT count(*)
  unfoldable pub count_where : (A → Bool) → List A → ℕ
  count_where p [] = 0
  count_where p (x ∷ xs) = (if p x then 1 else 0) + count_where p xs

  -- A lookup whose condition the update leaves alone finds the updated row.
  pub first_where-update_where :
      (q p : A → Bool) (f : A → A) (xs : List A)
      → ((x : A) → q (f x) ≡ q x)
      → first_where q (update_where p f xs)
        ≡ map_some (λ x. if p x then f x else x) (first_where q xs)
  unfolding first_where update_where
  first_where-update_where q p f [] h = refl
  first_where-update_where q p f (x ∷ xs) h =
      ground (arith, h x, first_where-update_where q p f xs h)

  pub first_where-append :
      (q : A → Bool) (xs ys : List A)
      → first_where q (xs ++ ys)
        ≡ (elim (first_where q xs) [ none ↦ first_where q ys | some x ↦ some x ])
  unfolding first_where
  first_where-append q [] ys = refl
  first_where-append q (x ∷ xs) ys = ground (arith, first_where-append q xs ys)

  -- The row that a lookup finds satisfies its condition.
  pub first_where_sound :
      (q : A → Bool) (xs : List A) (x : A) → first_where q xs ≡ some x → q x ≡ true
  unfolding first_where
  first_where_sound q (y ∷ ys) x h = ground (arith, first_where_sound q ys x)
  first_where_sound q [] x h = ground arith

  pub update_where_none :
      (p : A → Bool) (f : A → A) (xs : List A) → count_where p xs ≡ 0 → update_where p f xs ≡ xs
  unfolding update_where count_where
  update_where_none p f [] h = refl
  update_where_none p f (x ∷ xs) h = ground (arith, update_where_none p f xs)

  pub All-update_where {κ} :
      (P : A → Type κ) (p : A → Bool) (f : A → A) (xs : List A)
      → ((x : A) → p x ≡ true → P x → P (f x))
      → All P xs
      → All P (update_where p f xs)
  unfolding update_where
  All-update_where P p f [] h a = tt
  All-update_where P p f (x ∷ xs) h a = (
    elim (Bool-cases (p x)) [ inl e ↦ rw e (h x e a.0) | inr e ↦ rw e a.0 ],
    All-update_where P p f xs h a.1,
  )

  pub update_where-false : (f : A → A) (xs : List A) → update_where (λ _. false) f xs ≡ xs
  unfolding update_where
  update_where-false f [] = refl
  update_where-false f (x ∷ xs) = rw (update_where-false f xs)

  -- Two updates that agree on each row are one.
  pub update_where-cong :
      (p q : A → Bool) (f g : A → A) (xs : List A)
      → All (λ x. (if p x then f x else x) ≡ (if q x then g x else x)) xs
      → update_where p f xs ≡ update_where q g xs
  unfolding update_where
  update_where-cong p q f g [] a = refl
  update_where-cong p q f g (x ∷ xs) a = cc (a.0, update_where-cong p q f g xs a.1)

  -- An update after an update is one update, row by row.
  pub update_where-fuse :
      (p q r : A → Bool) (f g h : A → A) (xs : List A)
      → All
          (λ x.
            (let y = if p x then f x else x in if q y then g y else y) ≡ (if r x then h x else x))
          xs
      → update_where q g (update_where p f xs) ≡ update_where r h xs
  unfolding update_where
  update_where-fuse p q r f g h [] a = refl
  update_where-fuse p q r f g h (x ∷ xs) a = cc (a.0, update_where-fuse p q r f g h xs a.1)

  -- An UPDATE that makes its own condition false has a rowcount of 0 the second time.
  pub count_where-update_where :
      (p : A → Bool) (f : A → A) (xs : List A)
      → ((x : A) → p (f x) ≡ false)
      → count_where p (update_where p f xs) ≡ 0
  unfolding count_where update_where
  count_where-update_where p f [] h = refl
  count_where-update_where p f (x ∷ xs) h = ground (arith, h x, count_where-update_where p f xs h)

  pub count_where-update_same :
      (p q : A → Bool) (f : A → A) (xs : List A)
      → ((x : A) → p (f x) ≡ p x)
      → count_where p (update_where q f xs) ≡ count_where p xs
  unfolding count_where update_where
  count_where-update_same p q f [] h = refl
  count_where-update_same p q f (x ∷ xs) h = ground (arith, h x, count_where-update_same p q f xs h)

  pub count_where-cong :
      (p q : A → Bool) (xs : List A) → ((x : A) → p x ≡ q x) → count_where p xs ≡ count_where q xs
  unfolding count_where
  count_where-cong p q [] h = refl
  count_where-cong p q (x ∷ xs) h = ground (arith, h x, count_where-cong p q xs h)

  pub count_where-zero :
      (p : A → Bool) (xs : List A) → All (λ x. p x ≡ false) xs → count_where p xs ≡ 0
  unfolding count_where
  count_where-zero p [] a = refl
  count_where-zero p (x ∷ xs) a = ground (arith, a.0, count_where-zero p xs a.1)

  -- A row that is found and counts makes the count positive.
  pub count_where-found :
      (q p : A → Bool) (xs : List A) (x : A)
      → first_where q xs ≡ some x
      → p x ≡ true
      → 0 < count_where p xs
  unfolding first_where count_where
  count_where-found q p [] x h e = absurd (ground arith)
  count_where-found q p (y ∷ ys) x h e = elim (Bool-cases (q y)) [
    | inl t ↦ let same : y ≡ x = ground arith in rw (same, e) (omega arith)
    | inr t ↦ let ih = count_where-found q p ys x (ground arith) e in omega arith
  ]

  count_where-and-zero :
      (p q : A → Bool) (xs : List A) → count_where p xs ≡ 0 → count_where (λ y. p y && q y) xs ≡ 0
  unfolding count_where
  count_where-and-zero p q [] h = refl
  count_where-and-zero p q (x ∷ xs) h = ground (arith, count_where-and-zero p q xs)

  -- Where one row satisfies a condition, a further condition is counted at that row.
  pub count_where-and :
      (p q : A → Bool) (xs : List A) (x : A)
      → count_where p xs ≡ 1
      → first_where p xs ≡ some x
      → count_where (λ y. p y && q y) xs ≡ (if q x then 1 else 0)
  unfolding first_where count_where
  count_where-and p q [] x h e = absurd (ground arith)
  count_where-and p q (y ∷ ys) x h e = elim (Bool-cases (p y)) [
    | inl t ↦
        let same : y ≡ x = ground arith in
        let rest = count_where-and-zero p q ys (ground arith) in
        rw (← same) (rw (t, rest) (ground arith))
    | inr t ↦ let ih = count_where-and p q ys x (ground arith) (ground arith) in rw t (omega arith)
  ]

  -- A positive count has a first row.
  pub first_where-counted :
      (p : A → Bool) (xs : List A) → 0 < count_where p xs → (x : A) × (first_where p xs ≡ some x)
  unfolding first_where count_where
  first_where-counted p [] h = absurd (omega arith)
  first_where-counted p (y ∷ ys) h = elim (Bool-cases (p y)) [
    | inl t ↦ (y, rw t refl)
    | inr t ↦ rw t (first_where-counted p ys (ground arith))
  ]

  pub count_where-append :
      (p : A → Bool) (xs ys : List A)
      → count_where p (xs ++ ys) ≡ count_where p xs + count_where p ys
  unfolding count_where
  count_where-append p [] ys = omega arith
  count_where-append p (x ∷ xs) ys = omega (arith, count_where-append p xs ys)

  pub select-cong :
      (p q : A → Bool) (xs : List A) → ((x : A) → p x ≡ q x) → select p xs ≡ select q xs
  unfolding select
  select-cong p q [] h = refl
  select-cong p q (x ∷ xs) h = ground (arith, h x, select-cong p q xs h)

  pub All-append {κ} : (P : A → Type κ) (xs ys : List A) → All P xs → All P ys → All P (xs ++ ys)
  All-append P [] ys a b = b
  All-append P (x ∷ xs) ys a b = (a.0, All-append P xs ys a.1 b)

  pub All-first_where {κ} :
      (P : A → Type κ) (q : A → Bool) (xs : List A) (x : A)
      → All P xs
      → first_where q xs ≡ some x
      → P x
  unfolding first_where
  All-first_where P q [] x a h = absurd (ground arith)
  All-first_where P q (y ∷ ys) x a h = elim (Bool-cases (q y)) [
    | inl e ↦ let same : y ≡ x = ground arith in rw (← same) a.0
    | inr e ↦ All-first_where P q ys x a.1 (ground arith)
  ]

module _ {A : Type 0} where
  pub Has→All : (P : A → Type 0) (xs : List A) → ((x : A) → Has x xs → P x) → All P xs
  Has→All P [] h = tt
  Has→All P (x ∷ xs) h = (h x (inl refl), Has→All P xs (λ y m. h y (inr m)))

  pub All→Has : (P : A → Type 0) (xs : List A) (x : A) → All P xs → Has x xs → P x
  All→Has P [] x a m = elim m [ ]
  All→Has P (y ∷ ys) x a m = elim m [ inl e ↦ rw e a.0 | inr r ↦ All→Has P ys x a.1 r ]

  -- A selected row is a row, and satisfies the condition.
  pub length-select : (p : A → Bool) (xs : List A) → length (select p xs) ≡ count_where p xs
  unfolding select count_where
  length-select p [] = refl
  length-select p (x ∷ xs) = ground (arith, length-select p xs)

  pub Has-select :
      (p : A → Bool) (xs : List A) (x : A) → Has x (select p xs) → Has x xs × (p x ≡ true)
  unfolding select
  Has-select p [] x m = elim m [ ]
  Has-select p (y ∷ ys) x m = ground (arith, Has-select p ys x)

  pub select-Has :
      (p : A → Bool) (xs : List A) (x : A) → Has x xs → p x ≡ true → Has x (select p xs)
  unfolding select
  select-Has p [] x m h = elim m [ ]
  select-Has p (y ∷ ys) x m h = ground (arith, select-Has p ys x)

  pub Has-update_where :
      (p : A → Bool) (f : A → A) (xs : List A) (x : A)
      → Has x xs
      → p x ≡ false
      → Has x (update_where p f xs)
  unfolding update_where
  Has-update_where p f [] x m h = elim m [ ]
  Has-update_where p f (y ∷ ys) x m h = elim m [
    | inl e ↦ inl (rw (← e) (rw h refl))
    | inr r ↦ inr (Has-update_where p f ys x r h)
  ]

  -- A row that a lookup finds is a row.
  pub first_where-Has : (q : A → Bool) (xs : List A) (x : A) → first_where q xs ≡ some x → Has x xs
  first_where-Has q xs x h = All-first_where (λ y. Has y xs) q xs x (Has→All _ xs (λ y m. m)) h
