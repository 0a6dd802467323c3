-- ===== src/Examples/Fields.antt =====
-- The metadata of a file whose values are texts.
use tc_backend.Metadata.Restore.{upsert_fields_restored}
use tc_backend.Metadata.Override.{Names, upsert_fields_override, Verdict}
use tc_backend.Table.Rows.{map_some}
use tc_backend.Metadata.{
  latest_history, stringify, newer, get_or_create, is_field, get_metadata, user_decision,
  HistoryRow, Values, Change, MetadataDb, MetadataItem, is_allowed, upsert_fields,
}
use tc_backend.Prelude.{
  ◌<◌, ◌≡◌, refl, ◌≢◌, true, false, Option, none, some, List, [], ◌∷◌, arith, String, str_eq,
  eq_iff, All,
}

abbrev texts : Values String
texts = record {
  text_of = λ v. v;
  same_value = λ v w. str_eq v w;
  is_blank = λ v. str_eq v "";
  read_as = λ _ text. some text;
}

abbrev by_vision : Change
by_vision = record { source = "VISION"; modified_by = none; approved = false }

abbrev user_city : HistoryRow
user_city = record {
  id = 1;
  file_id = 7;
  field_name = "city";
  old_value = none;
  new_value = some "Seoul";
  source = "USER";
  priority = 100;
  modified_by = some "kim";
  approved = true;
}

-- the row of the file is lost, and its history is not
abbrev lost_row : MetadataDb String
lost_row = record { items = []; histories = user_city ∷ []; next_id = 2 }

abbrev new_values : List (String × Option String)
new_values = ("city", some "Busan") ∷ ("lens", some "50mm") ∷ ("secret", some "x") ∷ []

differ : (a b : String) → str_eq a b ≡ false → a ≢ b
differ a b h e = let t = (eq_iff a b).1 e in ground arith

distinct : Names new_values
distinct = ((differ _ _ refl, (differ _ _ refl, tt)), ((differ _ _ refl, tt), (tt, tt)))

upsert_run :
    map_some {B = Option String × Option String × Option String}
      (λ out. (out.0.fields "city", out.0.fields "lens", out.0.fields "secret"))
      (upsert_fields texts 7 by_vision true new_values lost_row)
    ≡ some (some "Seoul", some "50mm", none)
unfolding upsert_fields
upsert_run = refl

upsert_fields_override_example :
    (merged : MetadataItem String) × (after : MetadataDb String) × (upsert_fields texts 7 by_vision
        false new_values lost_row
      ≡ some (merged, after))
    × (get_metadata 7 after.items ≡ some merged)
    × All (λ r. r.id < after.next_id) after.histories
    × Verdict texts 7 by_vision "city" lost_row.histories after.histories
        (get_or_create 7 []).0
        merged
upsert_fields_override_example =
    upsert_fields_override texts 7 by_vision new_values lost_row "city" distinct ((omega arith), tt)

upsert_fields_restored_example :
    (merged : MetadataItem String) × (after : MetadataDb String) × (upsert_fields texts 7 by_vision
        true new_values lost_row
      ≡ some (merged, after))
    × (get_metadata 7 after.items ≡ some merged)
    × (stringify texts (merged.fields "city") ≡ some "Seoul")
    × (merged.locked ≡ true)
    × (latest_history 7 "city" after.histories ≡ latest_history 7 "city" lost_row.histories)
unfolding is_allowed user_decision is_field newer
upsert_fields_restored_example =
    upsert_fields_restored texts 7 by_vision new_values lost_row "city" (some "Seoul")
      (λ field text e. (text, refl, refl)) (omega arith, tt) refl refl
