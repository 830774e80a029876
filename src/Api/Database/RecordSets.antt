-- ===== src/Api/Database/RecordSets.antt =====
-- The operations of internal/api/database/db.go on the record sets of a location.
use z.Prelude.{
  ℕ, Name, txt, same, Bool, false, not, ◌&&◌, ◌||◌, Option, List, [], ◌∷◌, map, is_empty,
  if◌then◌else◌,
}
use z.Api.Action.{
  Result, ok, err, Action, pure, guard, ◌>>=◌, ◌>>◌, map_error, parse_error, missing_is_invalid,
  invalid,
}
use z.Api.Rows.{
  ObjectId, RecordSet, Owned, Tables, find_row, has_row, keep_rows, count_rows, update_rows,
  insert_record_set, delete_record_sets,
}
use z.Api.Database.{Engine, Db, statement, query_row, exec, fresh_id, some_rows}
use z.Api.Database.Access.{can_access_content}
use z.Api.Database.Locations.{get_location, differs}

-- SupportedTypes
abbrev pub supported_types : List Name
supported_types =
    txt "a"
    ∷ txt "aaaa"
    ∷ txt "cname"
    ∷ txt "txt"
    ∷ txt "ns"
    ∷ txt "mx"
    ∷ txt "srv"
    ∷ txt "caa"
    ∷ txt "ptr"
    ∷ txt "tlsa"
    ∷ txt "ds"
    ∷ txt "aname"
    ∷ []

unfoldable pub rtype_valid : Name → Bool
rtype_valid rtype = if is_empty rtype then false else has_row (same rtype) supported_types

module _ (E : Engine) where
  -- `l, err := db.GetLocation(...)`, where a location that is not there is an invalid request.
  unfoldable pub location_of_content : Name → Name → Name → Action Db ObjectId
  location_of_content user zone location = do
    l ← map_error missing_is_invalid (get_location E user zone location)
    pure l.id

  unfoldable pub record_set_row : ObjectId → Name → Tables → Option (Owned RecordSet)
  record_set_row location_id rtype t =
      find_row (λ r. same r.parent location_id && E.alike r.row.rtype rtype) t.record_sets

  unfoldable pub add_record_set : Name → Name → Name → RecordSet → Action Db ObjectId
  unfolding location_of_content
  add_record_set user zone location r = do
    can_access_content E user zone
    guard (rtype_valid r.rtype) invalid
    location_id ← location_of_content user zone location
    id ← fresh_id E
    map_error parse_error (
        statement E (
          insert_record_set E.alike E.json
            (record { row = record r { id = id }; parent = location_id })))
    pure id

  unfoldable pub get_record_sets : Name → Name → Name → Action Db (List Name)
  unfolding location_of_content
  get_record_sets user zone location = do
    can_access_content E user zone
    location_id ← location_of_content user zone location
    statement E (λ t.
        (ok (map (λ r. r.row.rtype) (keep_rows (λ r. same r.parent location_id) t.record_sets)), t))

  unfoldable pub get_record_set : Name → Name → Name → Name → Action Db RecordSet
  unfolding location_of_content record_set_row
  get_record_set user zone location rtype = do
    guard (rtype_valid rtype) invalid
    can_access_content E user zone
    location_id ← location_of_content user zone location
    r ← map_error parse_error (query_row E (record_set_row location_id rtype))
    pure r.row

  -- The update of a row, with the text that the JSON column holds for the value, and the number of
  -- rows that it changes.
  unfoldable pub set_record_set : ObjectId → Result Name → Bool → Tables → Result ℕ × Tables
  set_record_set id (err e) enabled t = (err e, t)
  set_record_set id (ok value) enabled t = (
    ok (
        count_rows
          (λ x. same x.row.id id && (not (same x.row.value value) || differs x.row.enabled enabled))
          t.record_sets),
    record t {
      record_sets =
          update_rows (λ r. same r.row.id id)
            (λ r. record r { row = record r.row { value = value; enabled = enabled } })
            t.record_sets;
    },
  )

  unfoldable pub update_record_set : Name → Name → Name → RecordSet → Action Db ℕ
  unfolding get_record_set set_record_set
  update_record_set user zone location r = do
    guard (rtype_valid r.rtype) invalid
    can_access_content E user zone
    stored ← get_record_set user zone location r.rtype
    statement E (set_record_set stored.id (E.json r.value) r.enabled)

  unfoldable pub delete_record_set : Name → Name → Name → Name → Action Db ℕ
  unfolding get_record_set
  delete_record_set user zone location rtype = do
    guard (rtype_valid rtype) invalid
    can_access_content E user zone
    stored ← get_record_set user zone location rtype
    rows ←
        exec E (λ t. count_rows (λ r. same r.row.id stored.id) t.record_sets)
          (delete_record_sets (λ r. same r.row.id stored.id))
    some_rows E rows
