-- ===== src/Tests/Added.antt =====
-- The locations and record sets of Tests/Accounts that are added and read back.
use z.Prelude.{txt, true, ◌≡◌, refl, ◌∷◌, []}
use z.Api.Action.{ok}
use z.Api.Rows.{
  Location, RecordSet, insert_location, insert_record_set, store_record_set, place_record_set,
}
use z.Api.Database.{Db, user_row}
use z.Api.Database.Access.{can_access_content, can_access_zone, is_zone_owner, zone_row}
use z.Api.Database.Zones.{get_zone, get_zone_row}
use z.Api.Database.Locations.{zone_of_content, location_row, get_location}
use z.Api.Database.RecordSets.{rtype_valid, location_of_content, add_record_set, get_record_set}
use z.Api.Added.RecordSets.{add_record_set-get_record_set}
use z.Tests.Accounts.{engine, stored}

abbrev www : Location
www = record { id = []; name = txt "www"; enabled = true }

abbrev addresses : RecordSet
addresses = record { id = []; rtype = txt "a"; value = txt "{ }"; enabled = true }

-- The database after the location www was added.
abbrev with_www : Db
with_www = record {
  tables = record stored.tables {
    locations = record { row = record www { id = 13 ∷ [] }; parent = 3 ∷ [] } ∷ [];
  };
  clock = 13;
}

-- The database after the record set was added to www.
abbrev with_addresses : Db
with_addresses = record {
  tables = record with_www.tables {
    record_sets =
        record { row = record addresses { id = 22 ∷ []; value = txt "{}" }; parent = 13 ∷ [] } ∷ [];
  };
  clock = 22;
}

addresses_work :
    add_record_set engine (txt "alice") (txt "example.com.") (txt "www") addresses with_www
    ≡ (ok (22 ∷ []), with_addresses)
unfolding add_record_set location_of_content get_location rtype_valid can_access_content
    can_access_zone is_zone_owner get_zone get_zone_row zone_of_content user_row zone_row
    location_row insert_location insert_record_set store_record_set place_record_set
addresses_work = refl

add_record_set-get_record_set_example :
    (get_record_set engine
      (txt "alice")
      (txt "example.com.")
      (txt "www")
      (txt "a")
      with_addresses).0
    ≡ ok (record addresses { id = 22 ∷ []; value = txt "{}" })
add_record_set-get_record_set_example =
    add_record_set-get_record_set engine (λ n. refl) (txt "alice") (txt "example.com.") (txt "www")
      addresses with_www with_addresses (txt "{}") refl refl addresses_work
