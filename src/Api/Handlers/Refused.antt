-- ===== src/Api/Handlers/Refused.antt =====
-- The handlers of internal/api/handlers/zone over internal/api/database: what a user who does not own
-- the zone of the path gets.
use z.Prelude.{Name, txt}
use z.Api.Rows.{empty_object_id}
use z.Api.Database.{Engine, Db}
use z.Api.Backend.{backend}
use z.Api.Database.Refusal.{
  IsOwner, perform, perform-IsRefused, read_zone, remove_zone, change_zone, list_locations,
  create_location, change_location, read_location, remove_location, list_record_sets,
  create_record_set, change_record_set, read_record_set, remove_record_set,
}
use z.Api.Handlers.{Context, param, extract_user, Bound, Response}
use z.Api.Handlers.Zones
use z.Api.Handlers.Zones.{
  ListRequest, UpdateZoneRequest, NewLocationRequest, UpdateLocationRequest, NewRecordSetRequest,
  UpdateRecordSetRequest, with_user, with_zone, with_location, with_rtype,
}
use z.Api.Handlers.TurnedDown.{
  IsTurnedDown, answer-IsTurnedDown, with_bound-IsTurnedDown, with_zone-IsTurnedDown,
  with_location-IsTurnedDown, with_rtype-IsTurnedDown,
}

-- The requests below /:zone.
pub data Request : Type 0 where
  get_zone delete_zone : Request
  update_zone : Bound UpdateZoneRequest → Request
  get_locations : Bound ListRequest → Request
  add_location : Bound NewLocationRequest → Request
  get_location delete_location : Request
  update_location : Bound UpdateLocationRequest → Request
  get_record_sets : Request
  add_record_set : Bound NewRecordSetRequest → Request
  get_record_set delete_record_set : Request
  update_record_set : Bound UpdateRecordSetRequest → Request

module _ (E : Engine) where
  -- The handler of a request, over the database.
  unfoldable pub serve : Context → Request → Db → Response × Db
  serve c get_zone = Zones.get_zone (backend E) c
  serve c delete_zone = Zones.delete_zone (backend E) c
  serve c (update_zone body) = Zones.update_zone (backend E) c body
  serve c (get_locations query) = Zones.get_locations (backend E) c query
  serve c (add_location body) = Zones.add_location (backend E) c body
  serve c get_location = Zones.get_location (backend E) c
  serve c delete_location = Zones.delete_location (backend E) c
  serve c (update_location body) = Zones.update_location (backend E) c body
  serve c get_record_sets = Zones.get_record_sets (backend E) c
  serve c (add_record_set body) = Zones.add_record_set (backend E) c body
  serve c get_record_set = Zones.get_record_set (backend E) c
  serve c delete_record_set = Zones.delete_record_set (backend E) c
  serve c (update_record_set body) = Zones.update_record_set (backend E) c body

module _ (E : Engine) (c : Context) (db : Db) where
  abbrev user : Name
  user = extract_user c

  abbrev zone : Name
  zone = param (txt "zone") c

  abbrev location : Name
  location = param (txt "location") c

  abbrev rtype : Name
  rtype = param (txt "rtype") c

  -- If the user of a request is not the owner of the zone in its path, by the tables of users and
  -- zones, then each of the thirteen handlers on a zone, its locations and their record sets
  -- answers with a status of at least 400 and leaves the tables as they were, whatever the
  -- request's query and body hold and whichever statements fail.
  pub serve-IsTurnedDown :
      (r : Request)
      → ¬ IsOwner E (extract_user c) (param (txt "zone") c) db.tables
      → IsTurnedDown (serve E c r) db
  unfolding serve perform Zones.get_zone Zones.delete_zone Zones.update_zone Zones.get_locations
      Zones.add_location Zones.get_location Zones.delete_location Zones.update_location
      Zones.get_record_sets Zones.add_record_set Zones.get_record_set Zones.delete_record_set
      Zones.update_record_set
  serve-IsTurnedDown get_zone h = search (
    with_zone-IsTurnedDown c db,
    answer-IsTurnedDown,
    perform-IsRefused E user zone db h read_zone,
  )
  serve-IsTurnedDown delete_zone h = search (
    with_zone-IsTurnedDown c db,
    answer-IsTurnedDown,
    perform-IsRefused E user zone db h remove_zone,
  )
  serve-IsTurnedDown (update_zone body) h = search (
    with_zone-IsTurnedDown c db,
    with_bound-IsTurnedDown body,
    answer-IsTurnedDown,
    λ (req : UpdateZoneRequest).
        perform-IsRefused E user zone db h
          (change_zone req.enabled req.dnssec req.cname_flattening),
  )
  serve-IsTurnedDown (get_locations body) h = search (
    with_zone-IsTurnedDown c db,
    with_bound-IsTurnedDown body,
    answer-IsTurnedDown,
    λ (req : ListRequest).
        perform-IsRefused E user zone db h (list_locations req.start req.count req.q),
  )
  serve-IsTurnedDown (add_location body) h = search (
    with_zone-IsTurnedDown c db,
    with_bound-IsTurnedDown body,
    answer-IsTurnedDown,
    λ (req : NewLocationRequest).
        perform-IsRefused E user zone db h (
          create_location
            (record { id = empty_object_id; name = req.name; enabled = req.enabled })),
  )
  serve-IsTurnedDown get_location h = search (
    with_location-IsTurnedDown c db,
    answer-IsTurnedDown,
    perform-IsRefused E user zone db h (read_location location),
  )
  serve-IsTurnedDown delete_location h = search (
    with_location-IsTurnedDown c db,
    answer-IsTurnedDown,
    perform-IsRefused E user zone db h (remove_location location),
  )
  serve-IsTurnedDown (update_location body) h = search (
    with_location-IsTurnedDown c db,
    with_bound-IsTurnedDown body,
    answer-IsTurnedDown,
    λ (req : UpdateLocationRequest).
        perform-IsRefused E user zone db h (
          change_location
            (record { id = empty_object_id; name = location; enabled = req.enabled })),
  )
  serve-IsTurnedDown get_record_sets h = search (
    with_location-IsTurnedDown c db,
    answer-IsTurnedDown,
    perform-IsRefused E user zone db h (list_record_sets location),
  )
  serve-IsTurnedDown (add_record_set body) h = search (
    with_location-IsTurnedDown c db,
    with_bound-IsTurnedDown body,
    answer-IsTurnedDown,
    λ (req : NewRecordSetRequest). perform-IsRefused E user zone db h (
        create_record_set location (record {
          id = empty_object_id;
          rtype = req.rtype;
          value = req.value;
          enabled = req.enabled;
        })),
  )
  serve-IsTurnedDown get_record_set h = search (
    with_rtype-IsTurnedDown c db,
    answer-IsTurnedDown,
    perform-IsRefused E user zone db h (read_record_set location rtype),
  )
  serve-IsTurnedDown delete_record_set h = search (
    with_rtype-IsTurnedDown c db,
    answer-IsTurnedDown,
    perform-IsRefused E user zone db h (remove_record_set location rtype),
  )
  serve-IsTurnedDown (update_record_set body) h = search (
    with_rtype-IsTurnedDown c db,
    with_bound-IsTurnedDown body,
    answer-IsTurnedDown,
    λ (req : UpdateRecordSetRequest). perform-IsRefused E user zone db h (
        change_record_set location (record {
          id = empty_object_id;
          rtype = rtype;
          value = req.value;
          enabled = req.enabled;
        })),
  )
