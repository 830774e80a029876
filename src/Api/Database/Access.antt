-- ===== src/Api/Database/Access.antt =====
-- internal/api/database/authorization.go: who may do what. Each of its functions is the test of the
-- owner, and those on what a zone holds answer "invalid" where the zone is not there.
use z.Prelude.{Name, same, Option}
use z.Api.Action.{
  Error, Action, ◌>>=◌, guard, map_error, missing_is_invalid, not_found, unauthorized, no_rows,
}
use z.Api.Rows.{Zone, Owned, Tables, find_row}
use z.Api.Database.{Engine, Db, query_row, user_row}

-- `if err == sql.ErrNoRows { return ErrNotFound }`
abbrev pub no_rows_is_missing : Error → Error
no_rows_is_missing no_rows = not_found
no_rows_is_missing e = e

module _ (E : Engine) where
  unfoldable pub zone_row : Name → Tables → Option (Owned Zone)
  zone_row zone t = find_row (λ z. E.alike z.row.name zone) t.zones

  unfoldable pub is_zone_owner : Name → Name → Action Db (Unit {0})
  unfolding user_row zone_row
  is_zone_owner user zone = do
    u ← query_row E (user_row E user)
    z ← map_error no_rows_is_missing (query_row E (zone_row zone))
    guard (same u.id z.parent) unauthorized

  -- canGetZone, canUpdateZone and canDeleteZone
  unfoldable pub can_access_zone : Name → Name → Action Db (Unit {0})
  can_access_zone user zone = is_zone_owner user zone

  -- The ten functions on locations and record sets, which do not look at the location and the type.
  unfoldable pub can_access_content : Name → Name → Action Db (Unit {0})
  can_access_content user zone = map_error missing_is_invalid (is_zone_owner user zone)
