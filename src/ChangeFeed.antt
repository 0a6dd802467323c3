-- ===== src/ChangeFeed.antt =====
-- app/common/models/change_event.py, app/common/repositories/change_event_repository.py and
-- app/common/services/changes_service.py: the append-only events, and their pages by cursor.
pub mod Pages
use tc_backend.Table.Rows.{select}
use tc_backend.Table.Order.{order_by}
use tc_backend.Prelude.{
  ℕ, zero, suc, ◌+◌, ◌-◌, ◌*◌, ◌/◌, ◌%◌, ◌≤◌, ◌<◌, ◌≡◌, refl, sym, ap, subst, ◌∙◌, ◌≢◌, ◌⊎◌, inl,
  inr, Bool, true, false, not, ◌&&◌, ◌||◌, Option, none, some, List, [], ◌∷◌, ◌++◌, map, arith,
  String, str_eq, eq_iff, ltb, leb, ◌==◌, ==_iff, if◌then◌else◌, Bool-cases, Option-cases, is_null,
  null_lt, null_eq, or_default, length, take, drop, first, All, Has, Unique, All-take, Unique-take,
  All-map,
}

pub data ChangeOperation : Type 0 where
  create update delete : ChangeOperation

-- A resource is named by the number of its id.
pub record ChangeEvent : Type 0 where
  pub id : ℕ
  pub service_name : String
  pub resource_type : String
  pub resource_id : ℕ
  pub operation : ChangeOperation
  pub revision : Option ℕ
  pub tombstone : Bool
  pub changed_at : ℕ

-- the rows, oldest first, and the sequence of the primary key
pub record ChangeTable : Type 0 where
  pub events : List ChangeEvent
  pub next_id : ℕ

unfoldable pub append :
    String → String → ℕ → ChangeOperation → Option ℕ → Bool → ℕ → ChangeTable → ChangeTable
append service type resource operation revision tombstone now t = record {
  events =
      t.events
      ++ record {
        id = t.next_id;
        service_name = service;
        resource_type = type;
        resource_id = resource;
        operation = operation;
        revision = revision;
        tombstone = tombstone;
        changed_at = now;
      }
        ∷ [];
  next_id = t.next_id + 1;
}

-- `service_name is None`, or the event's service
abbrev pub is_of_service : Option String → ChangeEvent → Bool
is_of_service none e = true
is_of_service (some service) e = str_eq e.service_name service

unfoldable pub is_after : Option String → ℕ → ChangeEvent → Bool
is_after service cursor e = ltb cursor e.id && is_of_service service e

-- ORDER BY id
abbrev pub id_le : ChangeEvent → ChangeEvent → Bool
id_le a b = leb a.id b.id

-- One row more than the page says whether there is a next page.
unfoldable pub list_after : ℕ → ℕ → Option String → List ChangeEvent → List ChangeEvent × Bool
list_after cursor limit service events =
    let rows = take (limit + 1) (order_by id_le (select (is_after service cursor) events)) in
    (take limit rows, ltb limit (length rows))

pub record ChangesResponse : Type 0 where
  pub items : List ChangeEvent
  pub next_cursor : ℕ
  pub has_more : Bool

-- `items[-1].cursor if items else cursor`
abbrev pub last_cursor : ℕ → List ChangeEvent → ℕ
last_cursor cursor [] = cursor
last_cursor cursor (e ∷ es) = last_cursor e.id es

unfoldable pub list_changes : ℕ → ℕ → Option String → List ChangeEvent → ChangesResponse
list_changes cursor limit service events =
    let (items, more) = list_after cursor limit service events in
    record { items = items; next_cursor = last_cursor cursor items; has_more = more }
