-- ===== src/Metadata/Latest.antt =====
-- The latest history of a field.
use tc_backend.Metadata.{is_field, latest_history, newer, HistoryRow}
use tc_backend.Prelude.{
  ℕ, ◌≤◌, ◌<◌, ◌≡◌, refl, subst, ◌∙◌, ◌≢◌, ◌⊎◌, inl, inr, true, false, Option, none, some, List, [],
  ◌∷◌, ◌++◌, arith, String, ltb, Bool-cases, Option-cases, All,
}

-- Rows that are added at the end, with greater ids, are looked at first.
abbrev pub or_else : Option HistoryRow → Option HistoryRow → Option HistoryRow
or_else none other = other
or_else (some row) other = some row

newer-cases :
    (row : HistoryRow) (later : Option HistoryRow)
    → (newer row later ≡ some row) ⊎ (newer row later ≡ later)
unfolding newer
newer-cases row none = inl refl
newer-cases row (some other) = elim (Bool-cases (ltb other.id row.id)) [
  | inl e ↦ inl (rw e refl)
  | inr e ↦ inr (rw e refl)
]

-- What holds of all rows of a field holds of its latest.
pub All-latest_history :
    (P : HistoryRow → Type 0) (file : ℕ) (field : String) (rows : List HistoryRow)
    (row : HistoryRow)
    → All (λ r. is_field file field r ≡ true → P r) rows
    → latest_history file field rows ≡ some row
    → P row
unfolding latest_history
All-latest_history P file field [] row a e = absurd (ground arith)
All-latest_history P file field (x ∷ xs) row a e = elim (Bool-cases (is_field file field x)) [
  | inl t ↦ elim (newer-cases x (latest_history file field xs)) [
    | inl n ↦ let same : x ≡ row = ground arith in subst P same (a.0 t)
    | inr n ↦ All-latest_history P file field xs row a.1 (ground arith)
  ]
  | inr t ↦ All-latest_history P file field xs row a.1 (ground arith)
]

newer-greater :
    (x : HistoryRow) (b : ℕ) (later : Option HistoryRow) (row : HistoryRow)
    → x.id < b
    → later ≡ some row
    → b ≤ row.id
    → newer x later ≡ some row
unfolding newer
newer-greater x b later row h e g =
    rw e (let no : ltb row.id x.id ≡ false = ground arith in rw no refl)

All-under :
    (file : ℕ) (field : String) (b : ℕ) (ys : List HistoryRow)
    → All (λ r. b ≤ r.id) ys
    → All (λ r. is_field file field r ≡ true → b ≤ r.id) ys
All-under file field b [] g = tt
All-under file field b (y ∷ ys) g = (λ _. g.0, All-under file field b ys g.1)

pub latest_history-append :
    (file : ℕ) (field : String) (b : ℕ) (xs ys : List HistoryRow)
    → All (λ r. r.id < b) xs
    → All (λ r. b ≤ r.id) ys
    → latest_history file field (xs ++ ys)
      ≡ or_else (latest_history file field ys) (latest_history file field xs)
unfolding latest_history
latest_history-append file field b [] ys h g = elim (Option-cases (latest_history file field ys)) [
  | inl e ↦ rw e refl
  | inr (r, e) ↦ rw e refl
]
latest_history-append file field b (x ∷ xs) ys h g =
    let ih = latest_history-append file field b xs ys h.1 g in
    elim (Option-cases (latest_history file field ys)) [
      | inl e ↦
          let same : latest_history file field (xs ++ ys) ≡ latest_history file field xs =
            ih ∙ rw e refl in
          rw (same, e) refl
      | inr (r, e) ↦
          let same : latest_history file field (xs ++ ys) ≡ some r = ih ∙ rw e refl in
          let bound =
            All-latest_history (λ y. b ≤ y.id) file field ys r (All-under file field b ys g) e in
          rw (same, e)
            (elim (Bool-cases (is_field file field x)) [
              | inl t ↦ rw t (newer-greater x b (some r) r h.0 refl bound)
              | inr t ↦ rw t refl
            ])
    ]

newer-ne-none : (row : HistoryRow) (later : Option HistoryRow) → newer row later ≢ none
unfolding newer
newer-ne-none row none e = absurd (ground arith)
newer-ne-none row (some other) e = absurd (ground arith)

-- Where there is no latest history of a field, there is none at all.
pub latest_history-none :
    (file : ℕ) (field : String) (rows : List HistoryRow)
    → latest_history file field rows ≡ none
    → All (λ r. is_field file field r ≡ false) rows
unfolding latest_history
latest_history-none file field [] e = tt
latest_history-none file field (x ∷ xs) e = elim (Bool-cases (is_field file field x)) [
  | inl t ↦ absurd (newer-ne-none x (latest_history file field xs) (ground arith))
  | inr t ↦ (t, latest_history-none file field xs (ground arith))
]

pub latest_history-silent :
    (file : ℕ) (field : String) (rows : List HistoryRow)
    → All (λ r. is_field file field r ≡ false) rows
    → latest_history file field rows ≡ none
unfolding latest_history
latest_history-silent file field [] a = refl
latest_history-silent file field (x ∷ xs) a = rw a.0 (latest_history-silent file field xs a.1)
