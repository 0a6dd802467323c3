-- ===== src/Metadata/Override.antt =====
-- Which source may replace the value of another.
use tc_backend.Metadata.Latest.{All-latest_history, latest_history-none, latest_history-append}
use tc_backend.Metadata.Merge.{
  Merges-recorded, Merges-file, merge_fields-Merges, Merges-kept, Merges-ids, item-name,
  merges_write, merges_skip, merges_end, Merges,
}
use tc_backend.Table.Rows.{
  All-append, first_where-append, first_where_sound, update_where, first_where,
}
use tc_backend.Metadata.{
  store_merged, no_entries, MetadataDb, is_update_blocked, stringify, merge_candidates,
  upsert_fields, latest_history, new_item, found_or_new, is_same, is_field, is_file,
  latest_priority, is_written, MetadataItem, allowed_fields, is_user, get_metadata, update_where,
  is_allowed, HistoryRow, priority_of, Values, get_or_create, candidates_of, Change,
}
use tc_backend.Prelude.{
  ℕ, ◌+◌, ◌≤◌, ◌<◌, ◌≡◌, refl, ◌∙◌, ◌≢◌, ◌⊎◌, inl, inr, Bool, true, false, not, ◌&&◌, ◌||◌, Option,
  none, some, List, [], ◌∷◌, ◌++◌, arith, String, ltb, ◌==◌, if◌then◌else◌, Bool-cases,
  Option-cases, length, All, Unique, All-map,
}

-- A change replaces a value of a lower priority; the user's also one of the same.
abbrev pub Outranks : Change → ℕ → Type 0
Outranks change current =
    (current < priority_of change.source)
    ⊎ ((is_user change.source ≡ true) × (current ≤ priority_of change.source))

-- The names of a dictionary are different.
abbrev pub Names : {V : Type 0} → List (String × V) → Type 0
Names entries = Unique (λ e. e.0) entries

outranks :
    (p current : ℕ) (user differs : Bool)
    → (if ltb p current || (p == current && not user) then false else differs) ≡ true
    → (current < p) ⊎ ((user ≡ true) × (current ≤ p))
outranks p current true differs e = inr (refl, ground arith)
outranks p current false differs e = inl (ground arith)

module _ {V : Type 0} (ops : Values V) (file : ℕ) (change : Change)
    (histories : List HistoryRow) where
  is_written-Outranks :
      (field : String) (old : Option V) (value : V)
      → is_written ops file change false histories field old value ≡ true
      → Outranks change (latest_priority file field histories)
  unfolding is_written
  is_written-Outranks field old value w =
      outranks (priority_of change.source) (latest_priority file field histories)
        (is_user change.source) (not (is_same ops old value)) w

  Merges-Outranks :
      {next : ℕ} {entries : List (String × V)} {item merged : MetadataItem V}
      {rows : List HistoryRow} (name : String)
      → Merges ops file change false histories next entries item merged rows
      → All
          (λ r.
            is_field file name r ≡ true
            → (r.source ≡ change.source) × Outranks change (latest_priority file name histories))
          rows
  Merges-Outranks name (merges_end next item) = tt
  Merges-Outranks name (merges_skip next field value entries item merged rows m) =
      Merges-Outranks name m
  Merges-Outranks name (merges_write next field value entries item merged rows w m) = (
    λ t. (
      refl,
      rw (← item-name ops file change false histories name field (item.fields field) value next t)
          (is_written-Outranks field (item.fields field) value w),
    ),
    Merges-Outranks name m,
  )

candidates-absent :
    {V : Type 0} (ops : Values V) (name : String) (values : List (String × Option V))
    → All (λ e. name ≢ e.0) values
    → All (λ e. name ≢ e.0) (candidates_of ops values)
unfolding candidates_of
candidates-absent ops name [] a = tt
candidates-absent ops name ((field, none) ∷ values) a = candidates-absent ops name values a.1
candidates-absent ops name ((field, some value) ∷ values) a =
    elim (Bool-cases (is_allowed field allowed_fields && not (ops.is_blank value))) [
      | inl e ↦ rw e (a.0, candidates-absent ops name values a.1)
      | inr e ↦ rw e (candidates-absent ops name values a.1)
    ]

pub candidates-Names :
    {V : Type 0} (ops : Values V) (values : List (String × Option V))
    → Names values
    → Names (candidates_of ops values)
unfolding candidates_of
candidates-Names ops [] u = tt
candidates-Names ops ((field, none) ∷ values) u = candidates-Names ops values u.1
candidates-Names ops ((field, some value) ∷ values) u =
    elim (Bool-cases (is_allowed field allowed_fields && not (ops.is_blank value))) [
      | inl e ↦ rw e (candidates-absent ops field values u.0, candidates-Names ops values u.1)
      | inr e ↦ rw e (candidates-Names ops values u.1)
    ]

pub replaced-first :
    {A : Type 0} (q : A → Bool) (y : A) (xs : List A) (x : A)
    → q y ≡ true
    → first_where q xs ≡ some x
    → first_where q (update_where q (λ _. y) xs) ≡ some y
unfolding first_where update_where
replaced-first q y [] x h e = absurd (ground arith)
replaced-first q y (z ∷ zs) x h e = elim (Bool-cases (q z)) [
  | inl t ↦ rw t (rw h refl)
  | inr t ↦ rw t (rw t (replaced-first q y zs x h (ground arith)))
]

first-new :
    {V : Type 0} (file : ℕ) (items : List (MetadataItem V))
    → first_where (is_file file) items ≡ none
    → first_where (is_file file) (items ++ new_item file ∷ []) ≡ some (new_item file)
first-new file items e =
    first_where-append (is_file file) items (new_item file ∷ [])
    ∙ rw e (unfold first_where is_file in ground arith)

found_or_new_lem :
    {V : Type 0} (file : ℕ) (items : List (MetadataItem V)) (found : Option (MetadataItem V))
    → first_where (is_file file) items ≡ found
    → let (item, all) = found_or_new file items found in
      (first_where (is_file file) all ≡ some item) × (item.file_id ≡ file)
unfolding found_or_new
found_or_new_lem file items none e = (first-new file items e, refl)
found_or_new_lem file items (some item) e =
    (e, unfold is_file in let t = first_where_sound (is_file file) items item e in ground arith)

pub is_file_lem :
    {V : Type 0} (file : ℕ) (item : MetadataItem V) → item.file_id ≡ file → is_file file item ≡ true
unfolding is_file
is_file_lem file item e = ground arith

pub get_or_create_lem :
    {V : Type 0} (file : ℕ) (items : List (MetadataItem V))
    → let (item, all) = get_or_create file items in
      (first_where (is_file file) all ≡ some item) × (item.file_id ≡ file)
unfolding get_or_create get_metadata
get_or_create_lem file items = found_or_new_lem file items _ refl

-- What became of a field: its value and its latest history are what they were, or the latest history
-- is of this change, has the text of the new value, and replaced one that it outranks.
abbrev pub Verdict :
    {V : Type 0}
    → Values V
    → ℕ
    → Change
    → String
    → List HistoryRow
    → List HistoryRow
    → MetadataItem V
    → MetadataItem V
    → Type 0
Verdict ops file change name before after item merged =
    ((latest_history file name after ≡ latest_history file name before)
      × (merged.fields name ≡ item.fields name))
    ⊎ ((r : HistoryRow) × (latest_history file name after ≡ some r)
        × (r.source ≡ change.source)
        × (r.new_value ≡ stringify ops (merged.fields name))
        × Outranks change (latest_priority file name before)
        × ((item.locked && not (is_user change.source)) ≡ false))

module _ {V : Type 0} (ops : Values V) (file : ℕ) (change : Change) (histories : List HistoryRow)
    (next : ℕ) (older : All (λ r. r.id < next) histories) where
  Merges-Verdict :
      (name : String) (entries : List (String × V)) (item merged : MetadataItem V)
      (rows : List HistoryRow)
      → Names entries
      → (item.locked && not (is_user change.source)) ≡ false
      → Merges ops file change false histories next entries item merged rows
      → Verdict ops file change name histories (histories ++ rows) item merged
  Merges-Verdict name entries item merged rows u unlocked m =
      let newer_ids =
        All-map _ (λ r. next ≤ r.id) rows (λ r b. b.0)
          (Merges-ids ops file change false histories m) in
      let later = latest_history-append file name next histories rows older newer_ids in
      elim (Option-cases (latest_history file name rows)) [
        | inl e ↦ inl (
          later ∙ rw e refl,
          Merges-kept ops file change false histories name m (latest_history-none file name rows e),
        )
        | inr (r, e) ↦
            let (source, outranks) =
              All-latest_history _ file name rows r
                (Merges-Outranks ops file change histories name m) e in
            inr (
              r,
              later ∙ rw e refl,
              source,
              All-latest_history _ file name rows r
                  (Merges-recorded ops file change false histories name m u) e,
              outranks,
              unlocked,
            )
      ]

  merge_candidates_lem :
      (name : String) (entries : List (String × V)) (item : MetadataItem V)
      → Names entries
      → let (merged, rows) = merge_candidates ops file change false histories next entries item in
        (merged.file_id ≡ item.file_id)
        × All (λ r. r.id < next + length rows) rows
        × Verdict ops file change name histories (histories ++ rows) item merged
  unfolding merge_candidates is_update_blocked
  merge_candidates_lem name entries item u =
      let kept = latest_history-append file name next histories [] older tt in
      elim (Bool-cases (no_entries entries || (item.locked && not (is_user change.source)))) [
        | inl e ↦ rw e (refl, tt, inl (kept, refl))
        | inr e ↦
            let m = merge_fields-Merges ops file change false histories next entries item in
            let unlocked : (item.locked && not (is_user change.source)) ≡ false = ground arith in
            rw e (
              Merges-file ops file change false histories m,
              All-map _ _ _ (λ r b. b.1) (Merges-ids ops file change false histories m),
              Merges-Verdict name entries item _ _ u unlocked m,
            )
      ]

-- What `upsert_fields` does to a field where nothing is restored: it returns the row, stores it as
-- the row of its file, and keeps the ids of the history under the next one. Either the field's value
-- and its latest history are as before, or the latest history is a new one of this source with the
-- text of the new value, whose priority is greater than that of the history before, or not smaller
-- when the source is the user; and then the row was not locked, or the source is the user.
pub upsert_fields_override :
    {V : Type 0} (ops : Values V) (file : ℕ) (change : Change) (values : List (String × Option V))
    (db : MetadataDb V) (name : String)
    → Names values
    → All (λ r. r.id < db.next_id) db.histories
    → let item = (get_or_create file db.items).0 in
      (merged : MetadataItem V) × (after : MetadataDb V) × (upsert_fields ops file change false
          values db
        ≡ some (merged, after))
      × (get_metadata file after.items ≡ some merged)
      × All (λ r. r.id < after.next_id) after.histories
      × Verdict ops file change name db.histories after.histories item merged
unfolding upsert_fields store_merged
upsert_fields_override ops file change values db name u older =
    let (found, mine) = get_or_create_lem file db.items in
    let (same_file, ids, verdict) =
      merge_candidates_lem ops file change db.histories db.next_id older name
        (candidates_of ops values) (get_or_create file db.items).0
        (candidates-Names ops values u) in
    (
      _,
      _,
      refl,
      unfold get_metadata in
          replaced-first (is_file file) _ (get_or_create file db.items).1 _
            (is_file_lem file
              (merge_candidates ops file change false db.histories db.next_id
                (candidates_of ops values) (get_or_create file db.items).0).0
              (same_file ∙ mine))
            found,
      All-append _ db.histories _ (All-map _ _ _ (λ r b. omega (arith, b)) older) ids,
      verdict,
    )
