-- ===== src/Api/Integrity/Updates.antt =====
-- The updates of internal/api/database change no key.
use z.Prelude.{Name, same, refl, Bool}
use z.Api.Action.{Result, ok, err}
use z.Api.Rows.{ObjectId, Tables, Zone, Location, RecordSet, Owned}
use z.Api.Database.{Engine}
use z.Api.Database.Zones.{set_zone}
use z.Api.Database.Locations.{set_location}
use z.Api.Database.RecordSets.{set_record_set}
use z.Api.Integrity.{
  Unique-update_rows, Refers-update_rows, Refers-update_parents, zones_clash, locations_clash,
  record_sets_clash, IsSound,
}

module _ (E : Engine) where
  pub set_zone-keeps :
      (z : Zone) (t : Tables) → IsSound E.alike t → IsSound E.alike (set_zone E z t)
  unfolding set_zone
  set_zone-keeps z t h =
      let named = λ (x : Owned Zone). E.alike x.row.name z.name in
      let flags : Owned Zone → Owned Zone = λ r. record r {
        row = record r.row {
          dnssec = z.dnssec;
          cname_flattening = z.cname_flattening;
          enabled = z.enabled;
        };
      } in
      record {
        unique_users = h.unique_users;
        unique_zones =
            Unique-update_rows (zones_clash E.alike) named flags t.zones (λ x y. refl) (λ x y. refl)
              h.unique_zones;
        unique_locations = h.unique_locations;
        unique_record_sets = h.unique_record_sets;
        unique_verifications = h.unique_verifications;
        zones_owned =
            Refers-update_rows (λ u. u.id) (λ z. z.parent) t.users named flags t.zones (λ z. refl)
              h.zones_owned;
        locations_placed =
            Refers-update_parents (λ z. z.row.id) (λ l. l.parent) t.zones named flags t.locations
              (λ z. refl) h.locations_placed;
        record_sets_placed = h.record_sets_placed;
        verifications_owned = h.verifications_owned;
      }

  pub set_location-keeps :
      (id : ObjectId) (enabled : Bool) (t : Tables)
      → IsSound E.alike t
      → IsSound E.alike (set_location E id enabled t)
  unfolding set_location
  set_location-keeps id enabled t h =
      let named = λ (x : Owned Location). same x.row.id id in
      let flag : Owned Location → Owned Location =
        λ l. record l { row = record l.row { enabled = enabled } } in
      record {
        unique_users = h.unique_users;
        unique_zones = h.unique_zones;
        unique_locations =
            Unique-update_rows (locations_clash E.alike) named flag t.locations (λ x y. refl)
              (λ x y. refl) h.unique_locations;
        unique_record_sets = h.unique_record_sets;
        unique_verifications = h.unique_verifications;
        zones_owned = h.zones_owned;
        locations_placed =
            Refers-update_rows (λ z. z.row.id) (λ l. l.parent) t.zones named flag t.locations
              (λ l. refl) h.locations_placed;
        record_sets_placed =
            Refers-update_parents (λ l. l.row.id) (λ r. r.parent) t.locations named flag
              t.record_sets (λ l. refl) h.record_sets_placed;
        verifications_owned = h.verifications_owned;
      }

  pub set_record_set-keeps :
      (id : ObjectId) (o : Result Name) (enabled : Bool) (t : Tables)
      → IsSound E.alike t
      → IsSound E.alike (set_record_set E id o enabled t).1
  unfolding set_record_set
  set_record_set-keeps id (err e) enabled t h = h
  set_record_set-keeps id (ok value) enabled t h =
      let named = λ (x : Owned RecordSet). same x.row.id id in
      let written : Owned RecordSet → Owned RecordSet =
        λ r. record r { row = record r.row { value = value; enabled = enabled } } in
      record {
        unique_users = h.unique_users;
        unique_zones = h.unique_zones;
        unique_locations = h.unique_locations;
        unique_record_sets =
            Unique-update_rows (record_sets_clash E.alike) named written t.record_sets (λ x y. refl)
              (λ x y. refl) h.unique_record_sets;
        unique_verifications = h.unique_verifications;
        zones_owned = h.zones_owned;
        locations_placed = h.locations_placed;
        record_sets_placed =
            Refers-update_rows (λ l. l.row.id) (λ r. r.parent) t.locations named written
              t.record_sets (λ r. refl) h.record_sets_placed;
        verifications_owned = h.verifications_owned;
      }
