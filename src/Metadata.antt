-- ===== src/Metadata.antt =====
-- app/common/repositories/metadata_repository.py, history_repository.py and metadata_priority.py: the
-- current metadata of a file, and the history of its changes. A row of common_file_metadata keeps
-- the allowed fields as a function of their names.
pub mod Latest
pub mod Merge
pub mod Override
pub mod Restore
use tc_backend.Table.Rows.{first_where, select, update_where, map_some}
use tc_backend.Prelude.{
  ℕ, zero, suc, ◌+◌, ◌-◌, ◌*◌, ◌/◌, ◌%◌, ◌≤◌, ◌<◌, ◌≡◌, refl, sym, ap, subst, ◌∙◌, ◌≢◌, ◌↔◌, ◌⊎◌,
  inl, inr, Bool, true, false, not, ◌&&◌, ◌||◌, Option, none, some, List, [], ◌∷◌, ◌++◌, map, arith,
  String, str_eq, eq_iff, ltb, leb, ◌==◌, ==_iff, if◌then◌else◌, Bool-cases, Option-cases, is_null,
  null_lt, null_eq, or_default, length, take, drop, first, All, Has, Unique, All-take, Unique-take,
  All-map,
}

-- What the values of a field do: `str`, `==`, the test for the empty text, and the reading of a text
-- by the type of the field's column, which may fail.
pub record Values (V : Type 0) : Type 0 where
  pub text_of : V → String
  pub same_value : V → V → Bool
  pub is_blank : V → Bool
  pub read_as : String → String → Option V

-- `MetadataPriority`
unfoldable pub priority_of : String → ℕ
priority_of source =
    if str_eq source "USER"
    then 100
    else if str_eq source "PLATESOLVE"
    then 90
    else if str_eq source "GPS"
    then 80
    else if str_eq source "VISION"
    then 70
    else if str_eq source "EXIF"
    then 60
    else 50

-- `ALLOWED_FIELDS`
abbrev pub allowed_fields : List String
allowed_fields =
    "camera_make" ∷ "camera_model" ∷ "lens" ∷ "datetime_original" ∷ "gps_lat" ∷ "gps_lon"
    ∷ "gps_alt" ∷ "iso" ∷ "f_number" ∷ "exposure_time" ∷ "focal_length" ∷ "orientation"
    ∷ "image_width" ∷ "image_height" ∷ "country" ∷ "province" ∷ "city" ∷ "district" ∷ "place_name"
    ∷ "reserved" ∷ "astro_target" ∷ "astro_catalog" ∷ "astro_ra" ∷ "astro_dec" ∷ "astro_rotation"
    ∷ "astro_fov" ∷ "astro_object_type" ∷ []

-- `CommonFileMetadata`
pub record MetadataItem (V : Type 0) : Type 0 where
  pub file_id : ℕ
  pub fields : String → Option V
  pub locked : Bool

-- `CommonMetadataHistory`
pub record HistoryRow : Type 0 where
  pub id : ℕ
  pub file_id : ℕ
  pub field_name : String
  pub old_value : Option String
  pub new_value : Option String
  pub source : String
  pub priority : ℕ
  pub modified_by : Option String
  pub approved : Bool

-- who changes the metadata, and how: the arguments of `upsert_fields` that a history keeps
pub record Change : Type 0 where
  pub source : String
  pub modified_by : Option String
  pub approved : Bool

unfoldable pub stringify : {V : Type 0} → Values V → Option V → Option String
stringify ops none = none
stringify ops (some v) = some (ops.text_of v)

unfoldable pub is_field : ℕ → String → HistoryRow → Bool
is_field file field row = row.file_id == file && str_eq row.field_name field

-- of two rows, the one with the greater id
unfoldable pub newer : HistoryRow → Option HistoryRow → Option HistoryRow
newer row none = some row
newer row (some other) = if ltb other.id row.id then some row else some other

-- the row with the greatest id of a file's field: `get_latest_histories` at one field
unfoldable pub latest_history : ℕ → String → List HistoryRow → Option HistoryRow
unfolding is_field newer
latest_history file field [] = none
latest_history file field (row ∷ rows) =
    let later = latest_history file field rows in
    if is_field file field row then newer row later else later

-- `latest_priorities.get(field_name, 0)`
unfoldable pub latest_priority : ℕ → String → List HistoryRow → ℕ
unfolding latest_history
latest_priority file field rows = elim (latest_history file field rows) [
  | none ↦ 0
  | some row ↦ row.priority
]

-- the row that an entry of `history_items` becomes, with the id that the table gives it
abbrev pub history_item :
    {V : Type 0} → Values V → ℕ → Change → String → Option V → V → ℕ → HistoryRow
history_item ops file change field old value id = record {
  id = id;
  file_id = file;
  field_name = field;
  old_value = stringify ops old;
  new_value = some (ops.text_of value);
  source = change.source;
  priority = priority_of change.source;
  modified_by = change.modified_by;
  approved = change.approved;
}

-- `setattr(item, field_name, value)`
abbrev pub set_field : {V : Type 0} → String → Option V → MetadataItem V → MetadataItem V
set_field field value item = record item {
  fields = λ name. if str_eq name field then value else item.fields name;
}

abbrev pub is_user : String → Bool
is_user source = str_eq source "USER"

-- `old_value == new_value`
unfoldable pub is_same : {V : Type 0} → Values V → Option V → V → Bool
is_same ops none value = false
is_same ops (some old) value = ops.same_value old value

unfoldable pub by_user : Option HistoryRow → Bool
by_user none = false
by_user (some row) = is_user row.source

-- The conditions of the loop of `upsert_fields` under which a candidate is written
unfoldable pub is_written :
    {V : Type 0} → Values V → ℕ → Change → Bool → List HistoryRow → String → Option V → V → Bool
unfolding by_user latest_history latest_priority priority_of is_same
is_written ops file change restore histories field old value =
    let priority = priority_of change.source in
    let current = latest_priority file field histories in
    if restore && by_user (latest_history file field histories)
    then false
    else if not (restore && is_null old)
        && (ltb priority current || (priority == current && not (is_user change.source)))
    then false
    else not (is_same ops old value)

-- what a write does to the row
abbrev pub write_field : {V : Type 0} → Change → String → V → MetadataItem V → MetadataItem V
write_field change field value item =
    let item = set_field field (some value) item in
    if is_user change.source then record item { locked = true } else item

-- The loop of `upsert_fields` over the candidates: the row, and the rows of the history, which are
-- added after the loop in its order and have the next ids. Priorities are those before the loop.
unfoldable pub merge_fields :
    {V : Type 0}
    → Values V
    → ℕ
    → Change
    → Bool
    → List HistoryRow
    → ℕ
    → List (String × V)
    → MetadataItem V
    → MetadataItem V × List HistoryRow
unfolding is_written
merge_fields ops file change restore histories next [] item = (item, [])
merge_fields ops file change restore histories next ((field, value) ∷ entries) item =
    let old = item.fields field in
    let writes = is_written ops file change restore histories field old value in
    let (merged, rows) =
      merge_fields ops file change restore histories (if writes then suc next else next) entries
        (if writes then write_field change field value item else item) in
    (merged, if writes then history_item ops file change field old value next ∷ rows else rows)

unfoldable pub is_allowed : String → List String → Bool
is_allowed name [] = false
is_allowed name (field ∷ fields) = str_eq name field || is_allowed name fields

-- `candidates`: the allowed fields with a value
unfoldable pub candidates_of :
    {V : Type 0} → Values V → List (String × Option V) → List (String × V)
unfolding is_allowed
candidates_of ops [] = []
candidates_of ops ((field, none) ∷ entries) = candidates_of ops entries
candidates_of ops ((field, some value) ∷ entries) =
    let rest = candidates_of ops entries in
    if is_allowed field allowed_fields && not (ops.is_blank value)
    then (field, value) ∷ rest
    else rest

-- `_coerce_history_value`; `none` is a ValueError
unfoldable pub coerce_history_value :
    {V : Type 0} → Values V → String → Option String → Option (Option V)
coerce_history_value ops field none = some none
coerce_history_value ops field (some text) = map_some some (ops.read_as field text)

-- the value of the latest history of a field, when it is the user's
unfoldable pub user_decision : ℕ → String → List HistoryRow → Option (Option String)
unfolding latest_history by_user
user_decision file field histories = elim (latest_history file field histories) [
  | none ↦ none
  | some row ↦ if is_user row.source then some row.new_value else none
]

-- `_restore_latest_user_values`, field by field; the flag is `user_history_found`
unfoldable pub restore_user_values :
    {V : Type 0}
    → Values V
    → ℕ
    → List HistoryRow
    → List String
    → Bool
    → MetadataItem V
    → Option (MetadataItem V)
unfolding user_decision coerce_history_value
restore_user_values ops file histories [] found item =
    some (if found then record item { locked = true } else item)
restore_user_values ops file histories (field ∷ fields) found item =
    elim (user_decision file field histories) [
      | none ↦ restore_user_values ops file histories fields found item
      | some text ↦ elim (coerce_history_value ops field text) [
        | none ↦ none
        | some value ↦
            restore_user_values ops file histories fields true (set_field field value item)
      ]
    ]

abbrev pub no_entries : {V : Type 0} → List (String × V) → Bool
no_entries [] = true
no_entries (_ ∷ _) = false

-- `_is_update_blocked`
unfoldable pub is_update_blocked : {V : Type 0} → MetadataItem V → String → Bool → Bool
is_update_blocked item source restore =
    if restore then false else item.locked && not (is_user source)

-- `upsert_fields` after the restoring
unfoldable pub merge_candidates :
    {V : Type 0}
    → Values V
    → ℕ
    → Change
    → Bool
    → List HistoryRow
    → ℕ
    → List (String × V)
    → MetadataItem V
    → MetadataItem V × List HistoryRow
unfolding is_update_blocked merge_fields
merge_candidates ops file change restore histories next candidates item =
    if no_entries candidates || is_update_blocked item change.source restore
    then (item, [])
    else merge_fields ops file change restore histories next candidates item

abbrev pub new_item : {V : Type 0} → ℕ → MetadataItem V
new_item file = record { file_id = file; fields = λ _. none; locked = false }

pub record MetadataDb (V : Type 0) : Type 0 where
  pub items : List (MetadataItem V)
  pub histories : List HistoryRow
  pub next_id : ℕ

unfoldable pub is_file : {V : Type 0} → ℕ → MetadataItem V → Bool
is_file file item = item.file_id == file

-- `get_metadata`
unfoldable pub get_metadata : {V : Type 0} → ℕ → List (MetadataItem V) → Option (MetadataItem V)
unfolding first_where is_file
get_metadata file items = first_where (is_file file) items

-- the row that was found or is new, and the rows with it
unfoldable pub found_or_new :
    {V : Type 0}
    → ℕ
    → List (MetadataItem V)
    → Option (MetadataItem V)
    → MetadataItem V × List (MetadataItem V)
found_or_new file items (some item) = (item, items)
found_or_new file items none = (new_item file, items ++ new_item file ∷ [])

unfoldable pub get_or_create :
    {V : Type 0} → ℕ → List (MetadataItem V) → MetadataItem V × List (MetadataItem V)
unfolding get_metadata found_or_new
get_or_create file items = found_or_new file items (get_metadata file items)

-- the flush: the row of the file, and the new rows of the history
unfoldable pub store_merged :
    {V : Type 0}
    → ℕ
    → List (MetadataItem V)
    → MetadataItem V
    → List HistoryRow
    → MetadataDb V
    → MetadataDb V
unfolding update_where is_file
store_merged file items merged rows db = record {
  items = update_where (is_file file) (λ _. merged) items;
  histories = db.histories ++ rows;
  next_id = db.next_id + length rows;
}

-- `upsert_fields`; `none` is the ValueError of a history that cannot be read
unfoldable pub upsert_fields :
    {V : Type 0}
    → Values V
    → ℕ
    → Change
    → Bool
    → List (String × Option V)
    → MetadataDb V
    → Option (MetadataItem V × MetadataDb V)
unfolding get_or_create candidates_of restore_user_values merge_candidates store_merged
upsert_fields ops file change restore values db =
    let (item, items) = get_or_create file db.items in
    map_some
      (λ ready.
        let (merged, rows) =
          merge_candidates ops file change restore db.histories db.next_id
            (candidates_of ops values) ready in
        (merged, store_merged file items merged rows db))
      (if restore
        then restore_user_values ops file db.histories allowed_fields false item
        else some item)

-- `save_metadata`
unfoldable pub save_metadata :
    {V : Type 0}
    → Values V
    → ℕ
    → String
    → Option String
    → List (String × Option V)
    → MetadataDb V
    → Option (MetadataItem V × MetadataDb V)
unfolding upsert_fields
save_metadata ops file source modified_by values db =
    upsert_fields ops file (record { source = source; modified_by = modified_by; approved = false })
      false values db

-- `delete_metadata`: whether there was a row
unfoldable pub delete_metadata : {V : Type 0} → ℕ → MetadataDb V → Bool × MetadataDb V
unfolding get_metadata is_file select
delete_metadata file db = elim (get_metadata file db.items) [
  | none ↦ (false, db)
  | some item ↦ (true, record db { items = select (λ row. not (is_file file row)) db.items })
]
