-- ===== src/ApiUsage/Keys.antt =====
-- The rows of a period: the unique constraint, and what an INSERT or an UPDATE makes of the units.
use tc_backend.Table.Rows.{count_where-append, first_where-append, first_where, count_where}
use tc_backend.ApiUsage.{
  new_usage, is_period, first_where, count_where, Period, same_period, create_if_absent, UsageRow,
}
use tc_backend.Prelude.{
  ℕ, ◌+◌, ◌≤◌, ◌≡◌, refl, sym, ap, ◌∙◌, ◌↔◌, inl, inr, true, false, Option, none, some, List, [],
  ◌∷◌, ◌++◌, arith, eq_iff, ◌==◌, if◌then◌else◌, Bool-cases, Option-cases,
}

pub same_period_lem : (p q : Period) → (same_period p q ≡ true) ↔ (p ≡ q)
unfolding same_period
same_period_lem p q = (
  λ e.
      let a : p.provider ≡ q.provider = (eq_iff _ _).0 (ground arith) in
      let b : p.api_name ≡ q.api_name = (eq_iff _ _).0 (ground arith) in
      let c : p.year ≡ q.year = ground arith in
      let d : p.month ≡ q.month = ground arith in
      λ i. record { provider = a i; api_name = b i; year = c i; month = d i },
  λ e.
      rw (e, (eq_iff q.provider q.provider).1 refl, (eq_iff q.api_name q.api_name).1 refl)
        (ground arith),
)

-- a table with at most one row for each period
abbrev pub OnePerPeriod : List UsageRow → Type 0
OnePerPeriod rows = (k : Period) → count_where (is_period k) rows ≤ 1

-- the units that are used in a period
abbrev pub units_of : Option UsageRow → ℕ
units_of none = 0
units_of (some row) = row.used_unit

abbrev pub used_of : List UsageRow → Period → ℕ
used_of rows k = units_of (first_where (is_period k) rows)

pub same_period_refl : (k : Period) → same_period k k ≡ true
same_period_refl k = (same_period_lem k k).1 refl

count-new :
    (q k : Period) (limit : ℕ) (rows : List UsageRow)
    → count_where (is_period q) (rows ++ new_usage k limit ∷ [])
      ≡ count_where (is_period q) rows + (if same_period k q then 1 else 0)
unfolding is_period new_usage
count-new q k limit rows =
    count_where-append (is_period q) rows (new_usage k limit ∷ [])
    ∙ (unfold count_where in ground arith)

pub create-OnePerPeriod :
    (k : Period) (limit : ℕ) (rows : List UsageRow)
    → count_where (is_period k) rows ≡ 0
    → OnePerPeriod rows
    → OnePerPeriod (rows ++ new_usage k limit ∷ [])
create-OnePerPeriod k limit rows absent h q =
    rw (count-new q k limit rows) (elim (Bool-cases (same_period k q)) [
      | inl t ↦
          let same : k ≡ q = (same_period_lem k q).0 t in
          rw t (rw (← same) (rw absent (omega arith)))
      | inr t ↦ rw t (omega (arith, h q))
    ])

new_units :
    (q k : Period) (limit : ℕ) → units_of (first_where (is_period q) (new_usage k limit ∷ [])) ≡ 0
unfolding first_where new_usage
new_units q k limit = ground arith

pub used_of-create :
    (q k : Period) (limit : ℕ) (rows : List UsageRow)
    → used_of (rows ++ new_usage k limit ∷ []) q ≡ used_of rows q
used_of-create q k limit rows =
    ap units_of (first_where-append (is_period q) rows (new_usage k limit ∷ []))
    ∙ (elim (Option-cases (first_where (is_period q) rows)) [
      | inl e ↦ rw e (new_units q k limit)
      | inr (r, e) ↦ rw e refl
    ])

pub create_if_absent-OnePerPeriod :
    (k : Period) (limit : ℕ) (rows : List UsageRow)
    → OnePerPeriod rows
    → OnePerPeriod (create_if_absent k limit rows)
unfolding create_if_absent
create_if_absent-OnePerPeriod k limit rows h =
    elim (Bool-cases (count_where (is_period k) rows == 0)) [
      | inl e ↦ rw e (create-OnePerPeriod k limit rows (ground arith) h)
      | inr e ↦ rw e h
    ]

pub create_if_absent-present :
    (k : Period) (limit : ℕ) (rows : List UsageRow)
    → OnePerPeriod rows
    → count_where (is_period k) (create_if_absent k limit rows) ≡ 1
unfolding create_if_absent
create_if_absent-present k limit rows h = elim (Bool-cases (count_where (is_period k) rows == 0)) [
  | inl e ↦ rw e (rw (count-new k k limit rows) (rw (same_period_refl k) (ground arith)))
  | inr e ↦ let one = h k in rw e (ground arith)
]

pub create_if_absent-used_of :
    (q k : Period) (limit : ℕ) (rows : List UsageRow)
    → used_of (create_if_absent k limit rows) q ≡ used_of rows q
unfolding create_if_absent
create_if_absent-used_of q k limit rows = elim (Bool-cases (count_where (is_period k) rows == 0)) [
  | inl e ↦ rw e (used_of-create q k limit rows)
  | inr e ↦ rw e refl
]

-- A row of another period is not a row of this one.
pub is_period-ne :
    (k q : Period) (row : UsageRow)
    → same_period k q ≡ false
    → is_period q row ≡ true
    → is_period k row ≡ false
unfolding is_period
is_period-ne k q row t e = elim (Bool-cases (same_period row.period k)) [
  | inl m ↦
      let same : k ≡ q =
        sym ((same_period_lem row.period k).0 m) ∙ (same_period_lem row.period q).0 e in
      absurd (let both = (same_period_lem k q).1 same in ground arith)
  | inr m ↦ m
]
