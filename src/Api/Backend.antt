-- ===== src/Api/Backend.antt =====
-- internal/api/database behind the `storage` interfaces of the handlers.
use z.Api.Database.{Engine, Db, add_user, get_user, add_verification, verify}
use z.Api.Database.Zones.{add_zone, get_zones, get_zone, update_zone, delete_zone}
use z.Api.Database.Locations.{
  add_location, get_locations, get_location, update_location, delete_location,
}
use z.Api.Database.RecordSets.{
  add_record_set, get_record_sets, get_record_set, update_record_set, delete_record_set,
}
use z.Api.Handlers.{Storage, Accounts}

abbrev pub backend : Engine → Storage Db
backend E = record {
  add_zone = add_zone E;
  get_zones = get_zones E;
  get_zone = get_zone E;
  update_zone = update_zone E;
  delete_zone = delete_zone E;
  add_location = add_location E;
  get_locations = get_locations E;
  get_location = get_location E;
  update_location = update_location E;
  delete_location = delete_location E;
  add_record_set = add_record_set E;
  get_record_sets = get_record_sets E;
  get_record_set = get_record_set E;
  update_record_set = update_record_set E;
  delete_record_set = delete_record_set E;
}

abbrev pub account_backend : Engine → Accounts Db
account_backend E = record {
  add_user = add_user E;
  get_user = get_user E;
  add_verification = add_verification E;
  verify = verify E;
}
