-- ===== src/Api/Database/Found.antt =====
-- What the reads of internal/api/database on a zone find in the tables.
use z.Prelude.{Name, same, Option, some}
use z.Api.Action.{parse_error, missing_is_invalid, invalid}
use z.Api.Rows.{ObjectId, Zone, Location, RecordSet, Tables}
use z.Api.Database.{Engine, user_row}
use z.Api.Database.Access.{
  zone_row, is_zone_owner, can_access_zone, can_access_content, no_rows_is_missing,
}
use z.Api.Database.Zones.{get_zone, get_zone_row}
use z.Api.Database.Locations.{zone_of_content, location_row, get_location}
use z.Api.Database.RecordSets.{rtype_valid, location_of_content, record_set_row, get_record_set}
use z.Api.Database.Reads.{
  bind_found, found_if, Reads, Reads-pure, Reads-bind, Reads-map_error, Reads-query_row,
  Reads-guard,
}

module _ (E : Engine) (user zone : Name) (t : Tables) where
  abbrev pub found_owner : Option (Unit {0})
  found_owner =
      bind_found (user_row E user t)
        (λ u. bind_found (zone_row E zone t) (λ z. found_if (same u.id z.parent)))

  abbrev pub found_zone : Option Zone
  found_zone = bind_found (bind_found found_owner (λ _. zone_row E zone t)) (λ z. some z.row)

  abbrev pub found_zone_id : Option ObjectId
  found_zone_id = bind_found found_zone (λ z. some z.id)

  abbrev pub found_location : Name → Option Location
  found_location name = bind_found found_owner (λ _.
      bind_found found_zone_id (λ id. bind_found (location_row E id name t) (λ l. some l.row)))

  abbrev pub found_location_id : Name → Option ObjectId
  found_location_id name = bind_found (found_location name) (λ l. some l.id)

  abbrev pub found_record_set : Name → Name → Option RecordSet
  found_record_set name rtype = bind_found (found_if (rtype_valid rtype)) (λ _.
      bind_found found_owner (λ _.
        bind_found (found_location_id name)
          (λ id. bind_found (record_set_row E id rtype t) (λ r. some r.row))))

  pub Reads-is_zone_owner : Reads E t (is_zone_owner E user zone) found_owner
  unfolding is_zone_owner
  Reads-is_zone_owner = Reads-bind E _ (Reads-query_row E (user_row E user)) (λ u.
      Reads-bind E _ (Reads-map_error E no_rows_is_missing (Reads-query_row E (zone_row E zone)))
        (λ z. Reads-guard E _ _))

  pub Reads-can_access_content : Reads E t (can_access_content E user zone) found_owner
  unfolding can_access_content
  Reads-can_access_content = Reads-map_error E missing_is_invalid Reads-is_zone_owner

  pub Reads-get_zone : Reads E t (get_zone E user zone) found_zone
  unfolding get_zone get_zone_row can_access_zone
  Reads-get_zone =
      Reads-bind E _
        (Reads-bind E _ Reads-is_zone_owner
          (λ _. Reads-map_error E parse_error (Reads-query_row E (zone_row E zone))))
        (λ z. Reads-pure E z.row)

  pub Reads-zone_of_content : Reads E t (zone_of_content E user zone) found_zone_id
  unfolding zone_of_content
  Reads-zone_of_content =
      Reads-bind E _ (Reads-map_error E missing_is_invalid Reads-get_zone) (λ z. Reads-pure E z.id)

  pub Reads-get_location :
      (name : Name) → Reads E t (get_location E user zone name) (found_location name)
  unfolding get_location
  Reads-get_location name = Reads-bind E _ Reads-can_access_content (λ _.
      Reads-bind E _ Reads-zone_of_content (λ id.
        Reads-bind E _ (Reads-map_error E parse_error (Reads-query_row E (location_row E id name)))
          (λ l. Reads-pure E l.row)))

  pub Reads-location_of_content :
      (name : Name) → Reads E t (location_of_content E user zone name) (found_location_id name)
  unfolding location_of_content
  Reads-location_of_content name =
      Reads-bind E _ (Reads-map_error E missing_is_invalid (Reads-get_location name))
        (λ l. Reads-pure E l.id)

  pub Reads-get_record_set :
      (name rtype : Name)
      → Reads E t (get_record_set E user zone name rtype) (found_record_set name rtype)
  unfolding get_record_set
  Reads-get_record_set name rtype = Reads-bind E _ (Reads-guard E (rtype_valid rtype) invalid) (λ _.
      Reads-bind E _ Reads-can_access_content (λ _.
        Reads-bind E _ (Reads-location_of_content name) (λ id.
          Reads-bind E _
            (Reads-map_error E parse_error (Reads-query_row E (record_set_row E id rtype)))
            (λ r. Reads-pure E r.row))))
