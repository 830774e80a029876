-- ===== src/Api/Integrity/Calls.antt =====
-- Every operation of internal/api/database keeps the unique and the foreign keys, whatever fails on the
-- way.
use z.Prelude.{ℕ, Name}
use z.Prelude.Int.{ℤ}
use z.Api.Rows.{Zone, Location, RecordSet}
use z.Api.Database.{Engine, some_rows}
use z.Api.Database.Access.{is_zone_owner, can_access_zone, can_access_content}
use z.Api.Database.Zones.{get_zone_row, get_zone, update_zone, delete_zone}
use z.Api.Database.Locations.{
  zone_of_content, add_location, get_locations, get_location, update_location, delete_location,
}
use z.Api.Database.RecordSets.{
  location_of_content, add_record_set, get_record_sets, get_record_set, update_record_set,
  delete_record_set,
}
use z.Api.Integrity.Keeping.{Keeps, keeping, statement-Keeps, exec-Keeps}
use z.Api.Integrity.Statements.{insert_location-IsSound, insert_record_set-IsSound}
use z.Api.Integrity.Deletions.{delete_zones-keeps, delete_locations-keeps, delete_record_sets-keeps}
use z.Api.Integrity.Updates.{set_zone-keeps, set_location-keeps, set_record_set-keeps}

module _ (E : Engine) where
  some_rows-Keeps : (n : ℕ) → Keeps E (some_rows E n)
  some_rows-Keeps n = search keeping

  pub is_zone_owner-Keeps : (user zone : Name) → Keeps E (is_zone_owner E user zone)
  unfolding is_zone_owner
  is_zone_owner-Keeps user zone = search keeping

  pub can_access_content-Keeps : (user zone : Name) → Keeps E (can_access_content E user zone)
  unfolding can_access_content
  can_access_content-Keeps user zone = search (keeping, is_zone_owner-Keeps)

  pub get_zone-Keeps : (user zone : Name) → Keeps E (get_zone E user zone)
  unfolding get_zone get_zone_row can_access_zone
  get_zone-Keeps user zone = search (keeping, is_zone_owner-Keeps)

  pub update_zone-Keeps : (user : Name) (z : Zone) → Keeps E (update_zone E user z)
  unfolding update_zone can_access_zone
  update_zone-Keeps user z =
      search (keeping, is_zone_owner-Keeps, get_zone-Keeps, exec-Keeps, set_zone-keeps E) depth 12

  pub delete_zone-Keeps : (user zone : Name) → Keeps E (delete_zone E user zone)
  unfolding delete_zone can_access_zone
  delete_zone-Keeps user zone =
      search (keeping, is_zone_owner-Keeps, exec-Keeps, delete_zones-keeps E.alike, some_rows-Keeps)
        depth 12

  ruleset content = (keeping, can_access_content-Keeps)

  pub zone_of_content-Keeps : (user zone : Name) → Keeps E (zone_of_content E user zone)
  unfolding zone_of_content
  zone_of_content-Keeps user zone = search (keeping, get_zone-Keeps)

  pub add_location-Keeps : (user zone : Name) (l : Location) → Keeps E (add_location E user zone l)
  unfolding add_location
  add_location-Keeps user zone l =
      search (content, zone_of_content-Keeps, statement-Keeps, insert_location-IsSound E.alike)
        depth 12

  pub get_locations-Keeps :
      (user zone : Name) (start count : ℤ) (q : Name)
      → Keeps E (get_locations E user zone start count q)
  unfolding get_locations
  get_locations-Keeps user zone start count q = search (content, zone_of_content-Keeps)

  pub get_location-Keeps : (user zone location : Name) → Keeps E (get_location E user zone location)
  unfolding get_location
  get_location-Keeps user zone location = search (content, zone_of_content-Keeps) depth 12

  pub update_location-Keeps :
      (user zone : Name) (l : Location) → Keeps E (update_location E user zone l)
  unfolding update_location
  update_location-Keeps user zone l =
      search (content, get_location-Keeps, exec-Keeps, set_location-keeps E) depth 12

  pub delete_location-Keeps :
      (user zone location : Name) → Keeps E (delete_location E user zone location)
  unfolding delete_location
  delete_location-Keeps user zone location =
      search
        (content, get_location-Keeps, exec-Keeps, delete_locations-keeps E.alike, some_rows-Keeps)
        depth 12

  pub location_of_content-Keeps :
      (user zone location : Name) → Keeps E (location_of_content E user zone location)
  unfolding location_of_content
  location_of_content-Keeps user zone location = search (keeping, get_location-Keeps)

  pub add_record_set-Keeps :
      (user zone location : Name) (r : RecordSet) → Keeps E (add_record_set E user zone location r)
  unfolding add_record_set
  add_record_set-Keeps user zone location r =
      search
        (
          content,
          location_of_content-Keeps,
          statement-Keeps,
          insert_record_set-IsSound E.alike E.json,
        )
        depth 14

  pub get_record_sets-Keeps :
      (user zone location : Name) → Keeps E (get_record_sets E user zone location)
  unfolding get_record_sets
  get_record_sets-Keeps user zone location = search (content, location_of_content-Keeps) depth 12

  pub get_record_set-Keeps :
      (user zone location rtype : Name) → Keeps E (get_record_set E user zone location rtype)
  unfolding get_record_set
  get_record_set-Keeps user zone location rtype =
      search (content, location_of_content-Keeps) depth 14

  pub update_record_set-Keeps :
      (user zone location : Name) (r : RecordSet)
      → Keeps E (update_record_set E user zone location r)
  unfolding update_record_set
  update_record_set-Keeps user zone location r =
      search (content, get_record_set-Keeps, statement-Keeps, set_record_set-keeps E) depth 12

  pub delete_record_set-Keeps :
      (user zone location rtype : Name) → Keeps E (delete_record_set E user zone location rtype)
  unfolding delete_record_set
  delete_record_set-Keeps user zone location rtype =
      search
        (
          content,
          get_record_set-Keeps,
          exec-Keeps,
          delete_record_sets-keeps E.alike,
          some_rows-Keeps,
        )
        depth 14
