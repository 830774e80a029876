-- ===== src/Api/Database/Zones.antt =====
-- The operations of internal/api/database/db.go on zones.
use z.Prelude.{ℕ, Name, same, Bool, not, ◌&&◌, List, map, is_empty, if◌then◌else◌}
use z.Prelude.Int.{ℤ}
use z.Api.Action.{
  ok, err, Action, pure, raise, ◌>>=◌, ◌>>◌, map_error, parse_error, missing_is_invalid,
  duplicate_entry, invalid, no_rows,
}
use z.Api.Rows.{
  ObjectId, User, Zone, Owned, Tables, keep_rows, count_rows, update_rows, empty_object_id,
  insert_zone, delete_zones,
}
use z.Api.Database.{Engine, Db, statement, query_row, exec, fresh_id, some_rows, get_user}
use z.Api.Database.Access.{zone_row, can_access_zone}

module _ (E : Engine) where
  -- getZoneOwner: the empty id if there is no such zone.
  unfoldable pub get_zone_owner : Name → Action Db ObjectId
  get_zone_owner zone db =
      let (r, db') = query_row E (zone_row E zone) db in
      elim r [
        | ok z ↦ (ok z.parent, db')
        | err no_rows ↦ (ok empty_object_id, db')
        | err e ↦ (err e, db')
      ]

  -- The insertion, by the branch of AddZone for a free name.
  unfoldable pub insert_new_zone : User → Zone → Action Db ObjectId
  insert_new_zone u z = do
    id ← fresh_id E
    map_error parse_error
        (statement E (insert_zone E.alike (record { row = record z { id = id }; parent = u.id })))
    pure id

  unfoldable pub add_zone : Name → Zone → Action Db ObjectId
  unfolding get_zone_owner insert_new_zone
  add_zone user z = do
    u ← map_error missing_is_invalid (get_user E user)
    owner ← get_zone_owner z.name
    if is_empty owner
        then insert_new_zone u z
        else if same owner u.id
        then raise duplicate_entry
        else raise invalid

  unfoldable pub get_zones : Name → ℤ → ℤ → Name → Action Db (List Name)
  get_zones user start count q = do
    u ← map_error missing_is_invalid (get_user E user)
    statement E (λ t. (
      E.page q start count (map (λ z. z.row.name) (keep_rows (λ z. same z.parent u.id) t.zones)),
      t,
    ))

  unfoldable pub get_zone_row : Name → Name → Action Db (Owned Zone)
  get_zone_row user zone = do
    can_access_zone E user zone
    map_error parse_error (query_row E (zone_row E zone))

  unfoldable pub get_zone : Name → Name → Action Db Zone
  unfolding get_zone_row
  get_zone user zone = do z ← get_zone_row user zone; pure z.row

  -- The number of rows that an update changes.
  abbrev changed_zone : Zone → Owned Zone → Bool
  changed_zone z r = not (
      same_flag r.row.dnssec z.dnssec
      && same_flag r.row.cname_flattening z.cname_flattening
      && same_flag r.row.enabled z.enabled)
    where
      same_flag : Bool → Bool → Bool
      same_flag a b = if a then b else not b

  unfoldable pub set_zone : Zone → Tables → Tables
  set_zone z t = record t {
    zones =
        update_rows (λ r. E.alike r.row.name z.name)
          (λ r. record r {
            row = record r.row {
              dnssec = z.dnssec;
              cname_flattening = z.cname_flattening;
              enabled = z.enabled;
            };
          })
          t.zones;
  }

  unfoldable pub update_zone : Name → Zone → Action Db ℕ
  unfolding get_zone set_zone
  update_zone user z = do
    can_access_zone E user z.name
    _ ← get_zone user z.name
    exec E (λ t. count_rows (λ r. E.alike r.row.name z.name && changed_zone z r) t.zones)
        (set_zone z)

  unfoldable pub delete_zone : Name → Name → Action Db ℕ
  unfolding delete_zones
  delete_zone user zone = do
    can_access_zone E user zone
    rows ← map_error parse_error (
        exec E (λ t. count_rows (λ r. E.alike r.row.name zone) t.zones)
          (delete_zones (λ r. E.alike r.row.name zone)))
    some_rows E rows
