-- ===== src/Metadata/Restore.antt =====
-- The user's decisions come back from the history into a row that was made anew.
use tc_backend.Metadata.Override.{is_file_lem, replaced-first, get_or_create_lem}
use tc_backend.Metadata.Latest.{latest_history-silent, latest_history-append}
use tc_backend.Metadata.Merge.{
  Merges-ids, Merges-file, Merges-kept, merge_fields-Merges, item-name, merges_write, merges_skip,
  merges_end, Merges,
}
use tc_backend.Metadata.{
  store_merged, is_file, candidates_of, get_or_create, get_metadata, allowed_fields, MetadataDb,
  upsert_fields, is_user, no_entries, is_update_blocked, latest_history, history_item,
  merge_candidates, is_written, by_user, is_field, Change, set_field, is_allowed,
  restore_user_values, coerce_history_value, user_decision, stringify, HistoryRow, MetadataItem,
  Values,
}
use tc_backend.Prelude.{
  ℕ, ◌≤◌, ◌<◌, ◌≡◌, refl, ap, ◌∙◌, ◌⊎◌, inl, inr, Bool, true, false, ◌||◌, Option, none, some, List,
  [], ◌∷◌, ◌++◌, arith, String, str_eq, eq_iff, Bool-cases, Option-cases, All, All-map,
}

-- The texts of the user's latest histories can be read, as values with the same text.
abbrev pub Readable : {V : Type 0} → Values V → ℕ → List HistoryRow → Type 0
Readable {V} ops file histories =
    (field : String) (text : String)
    → user_decision file field histories ≡ some (some text)
    → (v : V) × (ops.read_as field text ≡ some v) × (ops.text_of v ≡ text)

-- the value of a field says what the user decided
abbrev pub Decided : {V : Type 0} → Values V → MetadataItem V → String → Option String → Type 0
Decided ops item field text = stringify ops (item.fields field) ≡ text

module _ {V : Type 0} (ops : Values V) (file : ℕ) (histories : List HistoryRow)
    (readable : Readable ops file histories) where
  coerce_lem :
      (field : String) (text : Option String)
      → user_decision file field histories ≡ some text
      → (value : Option V) × (coerce_history_value ops field text ≡ some value)
        × (stringify ops value ≡ text)
  unfolding coerce_history_value stringify
  coerce_lem field none e = (none, refl, refl)
  coerce_lem field (some text) e =
      let (v, read, same) = readable field text e in (some v, rw read refl, ap some same)

  restore-skip :
      (field : String) (fields : List String) (found : Bool) (item : MetadataItem V)
      → user_decision file field histories ≡ none
      → restore_user_values ops file histories (field ∷ fields) found item
        ≡ restore_user_values ops file histories fields found item
  unfolding restore_user_values
  restore-skip field fields found item e = rw (e, restore_user_values) refl

  restore-set :
      (field : String) (fields : List String) (found : Bool) (item : MetadataItem V)
      (text : Option String) (value : Option V)
      → user_decision file field histories ≡ some text
      → coerce_history_value ops field text ≡ some value
      → restore_user_values ops file histories (field ∷ fields) found item
        ≡ restore_user_values ops file histories fields true (set_field field value item)
  unfolding restore_user_values
  restore-set field fields found item text value e c = rw (e, restore_user_values) (rw c refl)

  -- After a field is set, the value of another is as it was.
  set_field-Decided :
      (name field : String) (text other : Option String) (value : Option V) (item : MetadataItem V)
      → user_decision file name histories ≡ some text
      → user_decision file field histories ≡ some other
      → stringify ops value ≡ other
      → (str_eq name field ≡ true) ⊎ Decided ops item name text
      → Decided ops (set_field field value item) name text
  set_field-Decided name field text other value item d e same due =
      elim (Bool-cases (str_eq name field)) [
        | inl t ↦
            let here : name ≡ field = (eq_iff name field).0 t in
            let there : user_decision file field histories ≡ some text = rw (← here) d in
            let equal : other ≡ text = ground arith in rw t (same ∙ equal)
        | inr t ↦ elim due [ inl h ↦ absurd (ground arith) | inr h ↦ rw t h ]
      ]

  -- A field without the user's decision is not the one that is due.
  still_due :
      (name : String) (text : Option String) (field : String) (fields : List String) (found : Bool)
      (item : MetadataItem V)
      → user_decision file name histories ≡ some text
      → user_decision file field histories ≡ none
      → (is_allowed name (field ∷ fields) ≡ true) ⊎ (Decided ops item name text × (found ≡ true))
      → (is_allowed name fields ≡ true) ⊎ (Decided ops item name text × (found ≡ true))
  unfolding is_allowed
  still_due name text field fields found item d e (inr h) = inr h
  still_due name text field fields found item d e (inl h) = elim (Bool-cases (str_eq name field)) [
    | inl t ↦
        let here : name ≡ field = (eq_iff name field).0 t in
        let there : user_decision file field histories ≡ some text = rw (← here) d in
        absurd (ground arith)
    | inr t ↦ inl (ground arith)
  ]

  -- The field is restored in its turn, and stays so; the row is locked then.
  restore_lem :
      (name : String) (text : Option String) (fields : List String) (found : Bool)
      (item : MetadataItem V)
      → user_decision file name histories ≡ some text
      → (is_allowed name fields ≡ true) ⊎ (Decided ops item name text × (found ≡ true))
      → (restored : MetadataItem V) × (restore_user_values ops file histories fields found item
          ≡ some restored)
        × Decided ops restored name text
        × (restored.locked ≡ true)
        × (restored.file_id ≡ item.file_id)
  unfolding restore_user_values is_allowed
  restore_lem name text [] found item d (inl a) = absurd (ground arith)
  restore_lem name text [] found item d (inr (kept, f)) =
      (record item { locked = true }, rw f refl, kept, refl, refl)
  restore_lem name text (field ∷ fields) found item d due =
      elim (Option-cases (user_decision file field histories)) [
        | inl e ↦
            let (restored, eq, kept, locked, mine) =
              restore_lem name text fields found item d
                (still_due name text field fields found item d e due) in
            (restored, restore-skip field fields found item e ∙ eq, kept, locked, mine)
        | inr (other, e) ↦
            let (value, coerced, same) = coerce_lem field other e in
            let now : (str_eq name field ≡ true) ⊎ Decided ops item name text
                → Decided ops (set_field field value item) name text =
              λ h. set_field-Decided name field text other value item d e same h in
            let due2 : (is_allowed name fields ≡ true)
                ⊎ (Decided ops (set_field field value item) name text × (true ≡ true)) =
              (elim due [
                | inl h ↦ elim (Bool-cases (str_eq name field)) [
                  | inl t ↦ inr (now (inl t), refl)
                  | inr t ↦ inl (ground arith)
                ]
                | inr h ↦ inr (now (inr h.0), refl)
              ]) in
            let (restored, eq, kept, locked, mine) =
              restore_lem name text fields true (set_field field value item) d due2 in
            (
              restored,
              restore-set field fields found item other value e coerced ∙ eq,
              kept,
              locked,
              mine,
            )
      ]

  decided-by_user :
      (name : String) (text : Option String)
      → user_decision file name histories ≡ some text
      → by_user (latest_history file name histories) ≡ true
  unfolding user_decision by_user
  decided-by_user name text d = elim (Option-cases (latest_history file name histories)) [
    | inl e ↦ absurd (ground arith)
    | inr (row, e) ↦
        rw e (elim (Bool-cases (is_user row.source)) [ inl t ↦ t | inr t ↦ absurd (ground arith) ])
  ]

  decided-unwritten :
      (change : Change) (name : String) (text : Option String) (old : Option V) (value : V)
      → user_decision file name histories ≡ some text
      → is_written ops file change true histories name old value ≡ false
  unfolding is_written
  decided-unwritten change name text old value d = rw (decided-by_user name text d) refl

  -- A field with the user's decision is not written again where rows are restored.
  Merges-decided :
      {change : Change} {next : ℕ} {entries : List (String × V)} {item merged : MetadataItem V}
      {rows : List HistoryRow} (name : String) (text : Option String)
      → user_decision file name histories ≡ some text
      → Merges ops file change true histories next entries item merged rows
      → All (λ r. is_field file name r ≡ false) rows × (item.locked ≡ true → merged.locked ≡ true)
  Merges-decided name text d (merges_end next item) = (tt, λ l. l)
  Merges-decided name text d (merges_skip next field value entries item merged rows m) =
      Merges-decided name text d m
  Merges-decided {change} name text d (merges_write next field value entries item merged rows w m) =
      let (silent, locked) = Merges-decided name text d m in
      (
        (
          (elim (Bool-cases (
              is_field file name
                (history_item ops file change field (item.fields field) value next))) [
                  | inl t ↦
                      let here =
                        item-name ops file change true histories name field (item.fields field)
                          value next t in
                      let not_now : is_written ops file change true histories field
                            (item.fields field) value
                          ≡ false =
                        rw here (decided-unwritten change name text _ value d) in
                      absurd (ground arith)
                  | inr t ↦ t
                ]),
          silent,
        ),
        λ l.
            locked
              (elim (Bool-cases (is_user change.source)) [ inl e ↦ rw e refl | inr e ↦ rw e l ]),
      )

  merge_candidates-decided :
      (change : Change) (next : ℕ) (entries : List (String × V)) (item : MetadataItem V)
      (name : String) (text : Option String)
      → All (λ r. r.id < next) histories
      → user_decision file name histories ≡ some text
      → item.locked ≡ true
      → let (merged, rows) = merge_candidates ops file change true histories next entries item in
        (merged.fields name ≡ item.fields name)
        × (merged.locked ≡ true)
        × (latest_history file name (histories ++ rows) ≡ latest_history file name histories)
        × (merged.file_id ≡ item.file_id)
  unfolding merge_candidates is_update_blocked
  merge_candidates-decided change next entries item name text older d l =
      elim (Bool-cases (no_entries entries || false)) [
        | inl e ↦ rw e (refl, l, latest_history-append file name next histories [] older tt, refl)
        | inr e ↦
            let m = merge_fields-Merges ops file change true histories next entries item in
            let (silent, locked) = Merges-decided name text d m in
            rw e (
              Merges-kept ops file change true histories name m silent,
              locked l,
              latest_history-append file name next histories _ older (
                    All-map _ (λ r. next ≤ r.id) _ (λ r b. b.0)
                      (Merges-ids ops file change true histories m))
                  ∙ rw (latest_history-silent file name _ silent) refl,
              Merges-file ops file change true histories m,
            )
      ]

-- Where `upsert_fields` restores a row that is missing or has lost values: each allowed field whose
-- latest history is the user's has the text of the user's decision again, an explicit null included,
-- its latest history is still that one whatever the values and the source of the call, the row is
-- locked, and it is the one stored for its file. The texts of the user's decisions must be readable.
pub upsert_fields_restored :
    {V : Type 0} (ops : Values V) (file : ℕ) (change : Change) (values : List (String × Option V))
    (db : MetadataDb V) (name : String) (text : Option String)
    → Readable ops file db.histories
    → All (λ r. r.id < db.next_id) db.histories
    → is_allowed name allowed_fields ≡ true
    → user_decision file name db.histories ≡ some text
    → (merged : MetadataItem V) × (after : MetadataDb V) × (upsert_fields ops file change true
          values db
        ≡ some (merged, after))
      × (get_metadata file after.items ≡ some merged)
      × (stringify ops (merged.fields name) ≡ text)
      × (merged.locked ≡ true)
      × (latest_history file name after.histories ≡ latest_history file name db.histories)
unfolding upsert_fields store_merged
upsert_fields_restored ops file change values db name text readable older allowed d =
    let (found, mine) = get_or_create_lem file db.items in
    let (restored, eq, decided, locked, same_file) =
      restore_lem ops file db.histories readable name text allowed_fields false
        (get_or_create file db.items).0 d (inl allowed) in
    let (kept, still, latest, merged_file) =
      merge_candidates-decided ops file db.histories readable change db.next_id
        (candidates_of ops values) restored name text older d locked in
    let out =
      merge_candidates ops file change true db.histories db.next_id (candidates_of ops values)
        restored in
    (
      out.0,
      store_merged file (get_or_create file db.items).1 out.0 out.1 db,
      rw eq refl,
      unfold get_metadata in
          replaced-first (is_file file) _ (get_or_create file db.items).1 _
            (is_file_lem file out.0 (merged_file ∙ same_file ∙ mine)) found,
      rw kept decided,
      still,
      latest,
    )
