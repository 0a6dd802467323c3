-- ===== src/Table/Keys.antt =====
-- Primary keys: rows with pairwise different keys, found by their key.
use tc_backend.Prelude.{
  if◌then◌else◌, Option-cases, subst, ◌∙◌, ◌&&◌, ◌≡◌, refl, sym, ap, ◌≢◌, ◌↔◌, Bool, true, some,
  List, [], ◌∷◌, ◌++◌, arith, All, Has, Unique, Bool-cases, inl, inr,
}
use tc_backend.Table.Rows.{
  first_where-update_where, first_where_sound, Has→All, update_where-cong, select, first_where,
  update_where, count_where, All→Has, All-append, All-update_where,
}
use tc_backend.Table.Order.{insert_by, order_by, All-insert_by, All-order_by}

module _ {A K : Type 0} (key : A → K) where
  All-key-update_where :
      (k : K) (p : A → Bool) (f : A → A) (xs : List A)
      → ((x : A) → key (f x) ≡ key x)
      → All (λ y. k ≢ key y) xs
      → All (λ y. k ≢ key y) (update_where p f xs)
  All-key-update_where k p f xs h = All-update_where (λ y. k ≢ key y) p f xs (λ x _ ne. rw (h x) ne)

  -- An UPDATE that writes no key leaves the keys different.
  pub Unique-update_where :
      (p : A → Bool) (f : A → A) (xs : List A)
      → ((x : A) → key (f x) ≡ key x)
      → Unique key xs
      → Unique key (update_where p f xs)
  unfolding update_where
  Unique-update_where p f [] h u = tt
  Unique-update_where p f (x ∷ xs) h u = (
    elim (Bool-cases (p x)) [
      | inl e ↦ rw (e, h x) (All-key-update_where (key x) p f xs h u.0)
      | inr e ↦ rw e (All-key-update_where (key x) p f xs h u.0)
    ],
    Unique-update_where p f xs h u.1,
  )

  -- An INSERT of a row with a new key.
  pub Unique-append :
      (xs : List A) (n : A)
      → All (λ y. key y ≢ key n) xs
      → Unique key xs
      → Unique key (xs ++ n ∷ [])
  Unique-append [] n a u = (tt, tt)
  Unique-append (x ∷ xs) n a u =
      (All-append (λ y. key x ≢ key y) xs (n ∷ []) u.0 (a.0, tt), Unique-append xs n a.1 u.1)

  Unique-select-All :
      (k : K) (p : A → Bool) (xs : List A)
      → All (λ y. k ≢ key y) xs
      → All (λ y. k ≢ key y) (select p xs)
  unfolding select
  Unique-select-All k p [] a = tt
  Unique-select-All k p (x ∷ xs) a = elim (Bool-cases (p x)) [
    | inl e ↦ rw e (a.0, Unique-select-All k p xs a.1)
    | inr e ↦ rw e (Unique-select-All k p xs a.1)
  ]

  pub Unique-select : (p : A → Bool) (xs : List A) → Unique key xs → Unique key (select p xs)
  unfolding select
  Unique-select p [] u = tt
  Unique-select p (x ∷ xs) u = elim (Bool-cases (p x)) [
    | inl e ↦ rw e (Unique-select-All (key x) p xs u.0, Unique-select p xs u.1)
    | inr e ↦ rw e (Unique-select p xs u.1)
  ]

  Unique-insert_by :
      (le : A → A → Bool) (x : A) (ys : List A)
      → All (λ y. key x ≢ key y) ys
      → Unique key ys
      → Unique key (insert_by le x ys)
  unfolding insert_by
  Unique-insert_by le x [] a u = (tt, tt)
  Unique-insert_by le x (y ∷ ys) a u = elim (Bool-cases (le x y)) [
    | inl e ↦ rw e (a, u)
    | inr e ↦ rw e (
      All-insert_by le (λ z. key y ≢ key z) x ys (λ p. a.0 (sym p)) u.0,
      Unique-insert_by le x ys a.1 u.1,
    )
  ]

  pub Unique-order_by :
      (le : A → A → Bool) (xs : List A) → Unique key xs → Unique key (order_by le xs)
  unfolding order_by
  Unique-order_by le [] u = tt
  Unique-order_by le (x ∷ xs) u =
      Unique-insert_by le x (order_by le xs) (All-order_by le (λ y. key x ≢ key y) xs u.0)
        (Unique-order_by le xs u.1)

  -- Rows with the same key are the same row.
  pub Unique-eq :
      (xs : List A) (x y : A) → Unique key xs → Has x xs → Has y xs → key x ≡ key y → x ≡ y
  Unique-eq [] x y u m n e = elim m [ ]
  Unique-eq (z ∷ zs) x y u m n e = elim m [
    | inl p ↦ elim n [
      | inl q ↦ p ∙ sym q
      | inr q ↦ absurd (All→Has (λ w. key z ≢ key w) zs y u.0 q (ap key (sym p) ∙ e))
    ]
    | inr p ↦ elim n [
      | inl q ↦ absurd (All→Has (λ w. key z ≢ key w) zs x u.0 p (ap key (sym q) ∙ sym e))
      | inr q ↦ Unique-eq zs x y u.1 p q e
    ]
  ]

-- Lookup by key, where `same` decides whether two keys are equal.
module _ {A K : Type 0} (key : A → K) (same : K → K → Bool)
    (same_iff : (a b : K) → (same a b ≡ true) ↔ (a ≡ b)) where
  -- A row of the table is found by its key.
  pub first_where-key :
      (xs : List A) (x : A)
      → Unique key xs
      → Has x xs
      → first_where (λ y. same (key y) (key x)) xs ≡ some x
  unfolding first_where
  first_where-key [] x u m = elim m [ ]
  first_where-key (y ∷ ys) x u m = elim m [
    | inl e ↦ rw ((same_iff (key y) (key x)).1 (ap key (sym e))) (ap some (sym e))
    | inr r ↦ elim (Bool-cases (same (key y) (key x))) [
      | inl h ↦ absurd (All→Has (λ z. key y ≢ key z) ys x u.0 r ((same_iff _ _).0 h))
      | inr h ↦ rw h (first_where-key ys x u.1 r)
    ]
  ]

  pub first_where-key_and :
      (q : A → Bool) (xs : List A) (x : A)
      → Unique key xs
      → Has x xs
      → q x ≡ true
      → first_where (λ y. same (key y) (key x) && q y) xs ≡ some x
  unfolding first_where
  first_where-key_and q [] x u m h = elim m [ ]
  first_where-key_and q (y ∷ ys) x u m h = elim m [
    | inl e ↦
        let here : same (key y) (key x) ≡ true = (same_iff (key y) (key x)).1 (ap key (sym e)) in
        let there : q y ≡ true = rw (← e) h in rw (here, there) (ap some (sym e))
    | inr r ↦ elim (Bool-cases (same (key y) (key x))) [
      | inl t ↦ absurd (All→Has (λ z. key y ≢ key z) ys x u.0 r ((same_iff _ _).0 t))
      | inr t ↦ rw t (first_where-key_and q ys x u.1 r h)
    ]
  ]

  count_where-absent :
      (k : K) (p : A → Bool) (xs : List A)
      → ((x : A) → p x ≡ true → key x ≡ k)
      → All (λ y. k ≢ key y) xs
      → count_where p xs ≡ 0
  unfolding count_where
  count_where-absent k p [] h a = refl
  count_where-absent k p (x ∷ xs) h a = elim (Bool-cases (p x)) [
    | inl e ↦ absurd (a.0 (sym (h x e)))
    | inr e ↦ rw e (omega (arith, count_where-absent k p xs h a.1))
  ]

  -- Where the row with a key satisfies a further condition, testing that condition too changes
  -- nothing in an UPDATE by the key.
  pub update_where-key :
      (q : A → Bool) (f : A → A) (xs : List A) (x : A)
      → Unique key xs
      → Has x xs
      → q x ≡ true
      → update_where (λ y. same (key y) (key x) && q y) f xs
        ≡ update_where (λ y. same (key y) (key x)) f xs
  update_where-key q f xs x u m h = update_where-cong _ _ f f xs (
      Has→All _ xs (λ y n. elim (Bool-cases (same (key y) (key x))) [
        | inl e ↦
            let eq : y ≡ x = Unique-eq key xs y x u n m ((same_iff _ _).0 e) in rw e (rw eq (rw h))
        | inr e ↦ rw e
      ]))

  pub count_where-key :
      (q : A → Bool) (xs : List A) (x : A)
      → Unique key xs
      → Has x xs
      → q x ≡ true
      → count_where (λ y. same (key y) (key x) && q y) xs ≡ 1
  unfolding count_where
  count_where-key q [] x u m h = elim m [ ]
  count_where-key q (y ∷ ys) x u m h = elim m [
    | inl e ↦
        let none_left =
          count_where-absent (key x) (λ y. same (key y) (key x) && q y) ys
            (λ z t. (same_iff _ _).0 (ground arith)) (rw e u.0) in
        let here : same (key y) (key x) ≡ true = (same_iff (key y) (key x)).1 (ap key (sym e)) in
        let there : q y ≡ true = rw (← e) h in rw (here, there, none_left) (omega arith)
    | inr r ↦ elim (Bool-cases (same (key y) (key x))) [
      | inl t ↦ absurd (All→Has (λ z. key y ≢ key z) ys x u.0 r ((same_iff _ _).0 t))
      | inr t ↦ rw t (omega (arith, count_where-key q ys x u.1 r h))
    ]
  ]

  -- After an UPDATE of the row with one key, the lookup of that key gives the written row, and the
  -- lookup of any other key what it gave before.
  pub first_where-update_key :
      (f : A → A) (xs : List A) (x : A) (k : K)
      → Unique key xs
      → Has x xs
      → ((y : A) → key (f y) ≡ key y)
      → first_where (λ y. same (key y) k) (update_where (λ y. same (key y) (key x)) f xs)
        ≡ (if same (key x) k then some (f x) else first_where (λ y. same (key y) k) xs)
  first_where-update_key f xs x k u m h =
      rw
        (first_where-update_where (λ y. same (key y) k) (λ y. same (key y) (key x)) f xs
          (λ y. rw (h y)))
        (elim (Bool-cases (same (key x) k)) [
          | inl t ↦
              let e = (same_iff (key x) k).0 t in
              let found : first_where (λ y. same (key y) k) xs ≡ some x =
                subst (λ v. first_where (λ y. same (key y) v) xs ≡ some x) e
                  (first_where-key xs x u m) in
              rw (found, t) (rw ((same_iff (key x) (key x)).1 refl))
          | inr t ↦ rw t (elim (Option-cases (first_where (λ y. same (key y) k) xs)) [
            | inl e ↦ rw e
            | inr (y, e) ↦
                let hit = first_where_sound (λ y. same (key y) k) xs y e in
                rw e
                  (ground (arith, same_iff (key y) k, same_iff (key y) (key x), same_iff (key x) k))
          ])
        ])
