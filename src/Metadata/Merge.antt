-- ===== src/Metadata/Merge.antt =====
-- What the loop over the candidates makes of one field, and of the history.
use tc_backend.Metadata.{
  is_user, history_item, stringify, write_field, is_field, is_written, merge_fields, MetadataItem,
  HistoryRow, Change, Values,
}
use tc_backend.Prelude.{
  ℕ, suc, ◌+◌, ◌≤◌, ◌<◌, ◌≡◌, refl, sym, ◌∙◌, ◌≢◌, inl, inr, Bool, true, false, Option, some, List,
  [], ◌∷◌, arith, String, str_eq, eq_iff, Bool-cases, length, All, Unique, All-map,
}

-- The loop as a relation of what it is given and what it gives: a candidate is passed over, or
-- written under the conditions of the code.
pub data Merges {V : Type 0} (ops : Values V) (file : ℕ) (change : Change) (restore : Bool)
    (histories : List HistoryRow)
    : ℕ → List (String × V) → MetadataItem V → MetadataItem V → List HistoryRow → Type 0 where
  merges_end :
      (next : ℕ) (item : MetadataItem V)
      → Merges ops file change restore histories next [] item item []
  merges_skip :
      (next : ℕ) (field : String) (value : V) (entries : List (String × V))
      (item merged : MetadataItem V) (rows : List HistoryRow)
      → Merges ops file change restore histories next entries item merged rows
      → Merges ops file change restore histories next ((field, value) ∷ entries) item merged rows
  merges_write :
      (next : ℕ) (field : String) (value : V) (entries : List (String × V))
      (item merged : MetadataItem V) (rows : List HistoryRow)
      → is_written ops file change restore histories field (item.fields field) value ≡ true
      → Merges ops file change restore histories
          (suc next)
          entries
          (write_field change field value item)
          merged
          rows
      → Merges ops file change restore histories next
          ((field, value) ∷ entries)
          item
          merged
          (history_item ops file change field (item.fields field) value next ∷ rows)

str_ne : (a b : String) → a ≢ b → str_eq a b ≡ false
str_ne a b h = elim (Bool-cases (str_eq a b)) [ inl e ↦ absurd (h ((eq_iff a b).0 e)) | inr e ↦ e ]

module _ {V : Type 0} (ops : Values V) (file : ℕ) (change : Change) (restore : Bool)
    (histories : List HistoryRow) where
  pub merge_fields-Merges :
      (next : ℕ) (entries : List (String × V)) (item : MetadataItem V)
      → let (merged, rows) = merge_fields ops file change restore histories next entries item in
        Merges ops file change restore histories next entries item merged rows
  unfolding merge_fields
  merge_fields-Merges next [] item = merges_end next item
  merge_fields-Merges next ((field, value) ∷ entries) item =
      elim (Bool-cases
        (is_written ops file change restore histories field (item.fields field) value)) [
          | inl w ↦ rw w (
              merges_write next field value entries item _ _ w
                (merge_fields-Merges (suc next) entries (write_field change field value item)))
          | inr w ↦ rw w (
              merges_skip next field value entries item _ _ (merge_fields-Merges next entries item))
        ]

  -- The ids of the new rows are the next ones.
  pub Merges-ids :
      {next : ℕ} {entries : List (String × V)} {item merged : MetadataItem V}
      {rows : List HistoryRow}
      → Merges ops file change restore histories next entries item merged rows
      → All (λ r. (next ≤ r.id) × (r.id < next + length rows)) rows
  Merges-ids (merges_end next item) = tt
  Merges-ids (merges_skip next field value entries item merged rows m) = Merges-ids m
  Merges-ids (merges_write next field value entries item merged rows w m) = (
    (omega arith, omega arith),
    All-map _ _ rows (λ r b. (omega (arith, b), omega (arith, b))) (Merges-ids m),
  )

  pub write_field-other :
      (name field : String) (value : V) (item : MetadataItem V)
      → name ≢ field
      → (write_field change field value item).fields name ≡ item.fields name
  write_field-other name field value item h = elim (Bool-cases (is_user change.source)) [
    | inl e ↦ rw (e, str_ne name field h) refl
    | inr e ↦ rw (e, str_ne name field h) refl
  ]

  pub write_field-same :
      (field : String) (value : V) (item : MetadataItem V)
      → (write_field change field value item).fields field ≡ some value
  write_field-same field value item = elim (Bool-cases (is_user change.source)) [
    | inl e ↦ rw (e, (eq_iff field field).1 refl) refl
    | inr e ↦ rw (e, (eq_iff field field).1 refl) refl
  ]

  item-other :
      (name field : String) (old : Option V) (value : V) (id : ℕ)
      → name ≢ field
      → is_field file name (history_item ops file change field old value id) ≡ false
  unfolding is_field
  item-other name field old value id h = rw (str_ne field name (λ e. h (sym e))) (ground arith)

  pub item-name :
      (name field : String) (old : Option V) (value : V) (id : ℕ)
      → is_field file name (history_item ops file change field old value id) ≡ true
      → field ≡ name
  unfolding is_field
  item-name name field old value id t = (eq_iff field name).0 (ground arith)

  item-field :
      (name field : String) (old : Option V) (value : V) (id : ℕ)
      → is_field file name (history_item ops file change field old value id) ≡ false
      → name ≢ field
  unfolding is_field
  item-field name field old value id t e =
      let self : str_eq field name ≡ true = (eq_iff field name).1 (sym e) in absurd (ground arith)

  -- A field that is no candidate keeps its value and gets no history.
  pub Merges-absent :
      {next : ℕ} {entries : List (String × V)} {item merged : MetadataItem V}
      {rows : List HistoryRow} (name : String)
      → Merges ops file change restore histories next entries item merged rows
      → All (λ e. name ≢ e.0) entries
      → (merged.fields name ≡ item.fields name) × All (λ r. is_field file name r ≡ false) rows
  Merges-absent name (merges_end next item) a = (refl, tt)
  Merges-absent name (merges_skip next field value entries item merged rows m) a =
      Merges-absent name m a.1
  Merges-absent name (merges_write next field value entries item merged rows w m) a =
      let (same, none_there) = Merges-absent name m a.1 in
      (
        same ∙ write_field-other name field value item a.0,
        (item-other name field (item.fields field) value next a.0, none_there),
      )

  -- A field that gets no history keeps its value.
  pub Merges-kept :
      {next : ℕ} {entries : List (String × V)} {item merged : MetadataItem V}
      {rows : List HistoryRow} (name : String)
      → Merges ops file change restore histories next entries item merged rows
      → All (λ r. is_field file name r ≡ false) rows
      → merged.fields name ≡ item.fields name
  Merges-kept name (merges_end next item) a = refl
  Merges-kept name (merges_skip next field value entries item merged rows m) a =
      Merges-kept name m a
  Merges-kept name (merges_write next field value entries item merged rows w m) a =
      Merges-kept name m a.1
      ∙ write_field-other name field value item
          (item-field name field (item.fields field) value next a.0)

  -- The history that a field gets has its new value.
  pub Merges-recorded :
      {next : ℕ} {entries : List (String × V)} {item merged : MetadataItem V}
      {rows : List HistoryRow} (name : String)
      → Merges ops file change restore histories next entries item merged rows
      → Unique (λ e. e.0) entries
      → All
          (λ r. is_field file name r ≡ true → r.new_value ≡ stringify ops (merged.fields name))
          rows
  Merges-recorded name (merges_end next item) u = tt
  Merges-recorded name (merges_skip next field value entries item merged rows m) u =
      Merges-recorded name m u.1
  Merges-recorded name (merges_write next field value entries item merged rows w m) u = (
    λ t.
        let here : field ≡ name = item-name name field (item.fields field) value next t in
        let (kept, _) = Merges-absent field m u.0 in
        rw (← here) (rw (kept ∙ write_field-same field value item) (unfold stringify in refl)),
    Merges-recorded name m u.1,
  )

  -- The row keeps its file.
  pub Merges-file :
      {next : ℕ} {entries : List (String × V)} {item merged : MetadataItem V}
      {rows : List HistoryRow}
      → Merges ops file change restore histories next entries item merged rows
      → merged.file_id ≡ item.file_id
  Merges-file (merges_end next item) = refl
  Merges-file (merges_skip next field value entries item merged rows m) = Merges-file m
  Merges-file (merges_write next field value entries item merged rows w m) =
      Merges-file m
      ∙ (elim (Bool-cases (is_user change.source)) [ inl e ↦ rw e refl | inr e ↦ rw e refl ])
