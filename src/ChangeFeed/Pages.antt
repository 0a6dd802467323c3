-- ===== src/ChangeFeed/Pages.antt =====
-- A client that follows the cursor of app/common/services/changes_service.py from page to page.
use tc_backend.Table.Rows.{Has-select, All→Has, select}
use tc_backend.Table.Order.{insert_by, IsSorted, order_by}
use tc_backend.ChangeFeed.{list_after, last_cursor, id_le, is_after, list_changes, ChangeEvent}
use mathlib.Core.List.{append-nil}
use tc_backend.Prelude.{
  ℕ, zero, suc, ◌+◌, ◌≤◌, ◌<◌, ◌≡◌, refl, ap, subst, ◌∙◌, inl, inr, Bool, true, false, Option, List,
  [], ◌∷◌, ◌++◌, arith, String, ltb, if◌then◌else◌, Bool-cases, length, take, drop, All, Has,
  All-map,
}

-- The ids of the events increase.
abbrev pub Increasing : List ChangeEvent → Type 0
Increasing [] = Unit
Increasing (e ∷ es) = All (λ f. e.id < f.id) es × Increasing es

-- a client that asks for the next page while there is one, at most `fuel` times
abbrev pub follow : ℕ → ℕ → ℕ → Option String → List ChangeEvent → List ChangeEvent
follow zero cursor limit service events = []
follow (suc fuel) cursor limit service events =
    let page = list_changes cursor limit service events in
    let rest = follow fuel page.next_cursor limit service events in
    page.items ++ (if page.has_more then rest else [])

module _ {A : Type 0} where
  take-take : (n : ℕ) (xs : List A) → take n (take (suc n) xs) ≡ take n xs
  take-take zero xs = refl
  take-take (suc n) [] = refl
  take-take (suc n) (x ∷ xs) = ap (λ l. x ∷ l) (take-take n xs)

  length-take_more : (n : ℕ) (xs : List A) → ltb n (length (take (suc n) xs)) ≡ ltb n (length xs)
  length-take_more zero [] = refl
  length-take_more zero (x ∷ xs) = ground arith
  length-take_more (suc n) [] = refl
  length-take_more (suc n) (x ∷ xs) = ground (arith, length-take_more n xs)

  take_whole : (n : ℕ) (xs : List A) → ltb n (length xs) ≡ false → take n xs ≡ xs
  take_whole zero [] h = refl
  take_whole zero (x ∷ xs) h = absurd (ground arith)
  take_whole (suc n) [] h = refl
  take_whole (suc n) (x ∷ xs) h = ap (λ l. x ∷ l) (take_whole n xs (ground arith))

  take-drop : (n : ℕ) (xs : List A) → take n xs ++ drop n xs ≡ xs
  take-drop zero xs = refl
  take-drop (suc n) [] = refl
  take-drop (suc n) (x ∷ xs) = ap (λ l. x ∷ l) (take-drop n xs)

  length-drop_shorter : (n : ℕ) (xs : List A) → length (drop n xs) ≤ length xs
  length-drop_shorter zero xs = omega arith
  length-drop_shorter (suc n) [] = omega arith
  length-drop_shorter (suc n) (x ∷ xs) = omega (arith, length-drop_shorter n xs)

  length-drop_lt : (n : ℕ) (xs : List A) → 0 < n → 0 < length xs → length (drop n xs) < length xs
  length-drop_lt zero xs p h = absurd (omega arith)
  length-drop_lt (suc n) [] p h = absurd (omega arith)
  length-drop_lt (suc n) (x ∷ xs) p h = omega (arith, length-drop_shorter n xs)

Increasing-IsSorted : (es : List ChangeEvent) → Increasing es → IsSorted id_le es
Increasing-IsSorted [] h = tt
Increasing-IsSorted (e ∷ es) h =
    (All-map _ _ es (λ f k. ground arith) h.0, Increasing-IsSorted es h.1)

All-selected_from :
    (P : ChangeEvent → Type 0) (p : ChangeEvent → Bool) (es : List ChangeEvent)
    → All P es
    → All P (select p es)
unfolding select
All-selected_from P p [] a = tt
All-selected_from P p (x ∷ xs) a = elim (Bool-cases (p x)) [
  | inl e ↦ rw e (a.0, All-selected_from P p xs a.1)
  | inr e ↦ rw e (All-selected_from P p xs a.1)
]

Increasing-select :
    (p : ChangeEvent → Bool) (es : List ChangeEvent) → Increasing es → Increasing (select p es)
unfolding select
Increasing-select p [] h = tt
Increasing-select p (e ∷ es) h = elim (Bool-cases (p e)) [
  | inl k ↦ rw k (All-selected_from (λ f. e.id < f.id) p es h.0, Increasing-select p es h.1)
  | inr k ↦ rw k (Increasing-select p es h.1)
]

order_by-sorted : (es : List ChangeEvent) → IsSorted id_le es → order_by id_le es ≡ es
unfolding order_by insert_by
order_by-sorted [] h = refl
order_by-sorted (e ∷ []) h = refl
order_by-sorted (e ∷ f ∷ es) h = rw (order_by-sorted (f ∷ es) h.1, insert_by) (rw h.0.0)

select-same :
    (p q : ChangeEvent → Bool) (es : List ChangeEvent)
    → All (λ e. p e ≡ q e) es
    → select p es ≡ select q es
unfolding select
select-same p q [] a = refl
select-same p q (e ∷ es) a = rw (a.0, select-same p q es a.1)

module _ (service : Option String) where
  not_after_self : (e : ChangeEvent) → is_after service e.id e ≡ false
  unfolding is_after
  not_after_self e = ground arith

  not_after_later : (e f : ChangeEvent) → e.id < f.id → is_after service f.id e ≡ false
  unfolding is_after
  not_after_later e f h = ground arith

  after_either :
      (cursor : ℕ) (e f : ChangeEvent)
      → is_after service cursor e ≡ true
      → e.id < f.id
      → is_after service e.id f ≡ is_after service cursor f
  unfolding is_after
  after_either cursor e f h k = ground arith

  -- After the first event, the rest comes under that event's id.
  next_after :
      (cursor : ℕ) (events : List ChangeEvent) (x : ChangeEvent) (rest : List ChangeEvent)
      → Increasing events
      → select (is_after service cursor) events ≡ x ∷ rest
      → select (is_after service x.id) events ≡ rest
  unfolding select
  next_after cursor [] x rest h e = absurd (ground arith)
  next_after cursor (y ∷ ys) x rest h e = elim (Bool-cases (is_after service cursor y)) [
    | inl k ↦
        let at : y ≡ x = ground arith in
        let tail : select (is_after service cursor) ys ≡ rest = ground arith in
        subst (λ i. select (is_after service i) (y ∷ ys) ≡ rest) (ap (λ (e : ChangeEvent). e.id) at)
          (rw (not_after_self y)
            (select-same _ _ ys (All-map _ _ ys (λ f l. after_either cursor y f k l) h.0) ∙ tail))
    | inr k ↦
        let later : select (is_after service cursor) ys ≡ x ∷ rest = ground arith in
        let m : Has x (select (is_after service cursor) ys) = rw later (inl refl) in
        let l : y.id < x.id =
          All→Has (λ f. y.id < f.id) ys x h.0 (Has-select (is_after service cursor) ys x m).0 in
        rw (not_after_later y x l, select) (next_after cursor ys x rest h.1 later)
  ]

  after_page :
      (n cursor : ℕ) (events xs : List ChangeEvent)
      → Increasing events
      → select (is_after service cursor) events ≡ xs
      → select (is_after service (last_cursor cursor (take n xs))) events ≡ drop n xs
  after_page zero cursor events xs h e = e
  after_page (suc n) cursor events [] h e = e
  after_page (suc n) cursor events (x ∷ xs) h e =
      after_page n x.id events xs h (next_after cursor events x xs h e)

  page_lem :
      (cursor limit : ℕ) (events : List ChangeEvent)
      → Increasing events
      → let xs = select (is_after service cursor) events in
        list_changes cursor limit service events ≡ record {
          items = take limit xs;
          next_cursor = last_cursor cursor (take limit xs);
          has_more = ltb limit (length xs);
        }
  unfolding list_changes list_after
  page_lem cursor limit events h =
      let xs = select (is_after service cursor) events in
      let more : limit + 1 ≡ suc limit = omega arith in
      rw (
        order_by-sorted xs (Increasing-IsSorted xs (Increasing-select _ events h)),
        more,
        take-take limit xs,
        length-take_more limit xs,
      )

-- A client that starts from any cursor and follows the pages, of any positive size, gets every
-- event of the service after that cursor exactly once and in order; as many requests as there are
-- such events, and one more, are enough.
pub follow_lem :
    (service : Option String) (fuel cursor limit : ℕ) (events : List ChangeEvent)
    → Increasing events
    → 0 < limit
    → length (select (is_after service cursor) events) < fuel
    → follow fuel cursor limit service events ≡ select (is_after service cursor) events
follow_lem service zero cursor limit events h p f = absurd (omega arith)
follow_lem service (suc fuel) cursor limit events h p f =
    let xs = select (is_after service cursor) events in
    rw (page_lem service cursor limit events h) (elim (Bool-cases (ltb limit (length xs))) [
      | inl more ↦
          let after = after_page service limit cursor events xs h refl in
          let shorter : length (drop limit xs) < length xs =
            length-drop_lt limit xs p (ground arith) in
          let fewer : length (select (is_after service (last_cursor cursor (take limit xs))) events)
              < fuel =
            rw after (omega arith) in
          rw more (
            ap (λ l. take limit xs ++ l)
              (follow_lem service fuel (last_cursor cursor (take limit xs)) limit events h p fewer
                ∙ after)
            ∙ take-drop limit xs)
      | inr last ↦ rw last (append-nil _ ∙ take_whole limit xs last)
    ])
