-- ===== src/Api/Database/Locations.antt =====
-- The operations of internal/api/database/db.go on the locations of a zone.
use z.Prelude.{ℕ, Name, same, Bool, not, ◌&&◌, Option, List, map, if◌then◌else◌}
use z.Prelude.Int.{ℤ}
use z.Api.Action.{ok, Action, pure, ◌>>=◌, ◌>>◌, map_error, parse_error, missing_is_invalid}
use z.Api.Rows.{
  ObjectId, Location, Owned, Tables, find_row, has_row, keep_rows, count_rows, update_rows,
  insert_location, delete_locations,
}
use z.Api.Database.{Engine, Db, statement, query_row, exec, fresh_id, some_rows}
use z.Api.Database.Access.{can_access_content}
use z.Api.Database.Zones.{get_zone}

-- The rows whose flag an update changes.
abbrev pub differs : Bool → Bool → Bool
differs a b = if a then not b else b

module _ (E : Engine) where
  -- `z, err := db.GetZone(user, zone)`, where a zone that is not there is an invalid request.
  unfoldable pub zone_of_content : Name → Name → Action Db ObjectId
  zone_of_content user zone = do z ← map_error missing_is_invalid (get_zone E user zone); pure z.id

  unfoldable pub location_row : ObjectId → Name → Tables → Option (Owned Location)
  location_row zone_id name t =
      find_row (λ l. same l.parent zone_id && E.alike l.row.name name) t.locations

  unfoldable pub add_location : Name → Name → Location → Action Db ObjectId
  unfolding zone_of_content
  add_location user zone l = do
    can_access_content E user zone
    zone_id ← zone_of_content user zone
    id ← fresh_id E
    map_error parse_error (
        statement E
          (insert_location E.alike (record { row = record l { id = id }; parent = zone_id })))
    pure id

  unfoldable pub get_locations : Name → Name → ℤ → ℤ → Name → Action Db (List Name)
  unfolding zone_of_content
  get_locations user zone start count q = do
    can_access_content E user zone
    zone_id ← zone_of_content user zone
    statement E (λ t. (
      E.page q start count
          (map (λ l. l.row.name) (keep_rows (λ l. same l.parent zone_id) t.locations)),
      t,
    ))

  unfoldable pub get_location : Name → Name → Name → Action Db Location
  unfolding zone_of_content location_row
  get_location user zone location = do
    can_access_content E user zone
    zone_id ← zone_of_content user zone
    l ← map_error parse_error (query_row E (location_row zone_id location))
    pure l.row

  unfoldable pub set_location : ObjectId → Bool → Tables → Tables
  set_location id enabled t = record t {
    locations =
        update_rows (λ l. same l.row.id id)
          (λ l. record l { row = record l.row { enabled = enabled } }) t.locations;
  }

  unfoldable pub update_location : Name → Name → Location → Action Db ℕ
  unfolding get_location set_location
  update_location user zone l = do
    can_access_content E user zone
    stored ← get_location user zone l.name
    map_error parse_error (
        exec E
          (λ t.
            count_rows (λ x. same x.row.id stored.id && differs x.row.enabled l.enabled)
              t.locations)
          (set_location stored.id l.enabled))

  unfoldable pub delete_location : Name → Name → Name → Action Db ℕ
  unfolding get_location delete_locations
  delete_location user zone location = do
    can_access_content E user zone
    stored ← get_location user zone location
    rows ←
        exec E (λ t. count_rows (λ l. same l.row.id stored.id) t.locations)
          (delete_locations (λ l. same l.row.id stored.id))
    some_rows E rows

  -- locationExists: the count of the rows of a join.
  unfoldable pub location_exists : Name → Name → Action Db Bool
  location_exists zone location = statement E (λ t. (
    ok (
        has_row
          (λ z.
            E.alike z.row.name zone
            && has_row (λ l. same l.parent z.row.id && E.alike l.row.name location) t.locations)
          t.zones),
    t,
  ))
