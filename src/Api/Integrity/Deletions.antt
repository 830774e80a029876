-- ===== src/Api/Integrity/Deletions.antt =====
-- Deletions that cascade, and updates, keep the unique and the foreign keys.
use z.Prelude.{Name, same, ◌≡◌, refl, Bool, true, false, not}
use z.Api.Rows.{
  Zone, Location, RecordSet, Owned, Tables, has_row, keep_rows, delete_zones, delete_locations,
  delete_record_sets,
}
use z.Api.Integrity.{
  Unique, Refers, Unique-keep_rows, Refers-kept, Refers-keep_rows, users_clash, zones_clash,
  locations_clash, record_sets_clash, verifications_clash, IsSound,
}

not-not : (b : Bool) → not (not b) ≡ true → b ≡ true
not-not true h = refl
not-not false h = cc

module _ (alike : Name → Name → Bool) where
  -- Soundness before the locations whose zone is gone are deleted.
  record IsSoundButLocations (p : Owned Location → Bool) (t : Tables) : Type 0 where
    unique_users : Unique (users_clash alike) t.users
    unique_zones : Unique (zones_clash alike) t.zones
    unique_locations : Unique (locations_clash alike) t.locations
    unique_record_sets : Unique (record_sets_clash alike) t.record_sets
    unique_verifications : Unique (verifications_clash alike) t.verifications
    zones_owned : Refers (λ u. u.id) (λ z. z.parent) t.users t.zones
    locations_left :
        Refers (λ z. z.row.id) (λ l. l.parent) t.zones (keep_rows (λ l. not (p l)) t.locations)
    verifications_owned : Refers (λ u. u.id) (λ v. v.user_id) t.users t.verifications

  delete_locations-IsSound :
      (p : Owned Location → Bool) (t : Tables)
      → IsSoundButLocations p t
      → IsSound alike (delete_locations p t)
  unfolding delete_locations
  delete_locations-IsSound p t h = record {
    unique_users = h.unique_users;
    unique_zones = h.unique_zones;
    unique_locations =
        Unique-keep_rows (locations_clash alike) (λ l. not (p l)) t.locations h.unique_locations;
    unique_record_sets =
        Unique-keep_rows (record_sets_clash alike) _ t.record_sets h.unique_record_sets;
    unique_verifications = h.unique_verifications;
    zones_owned = h.zones_owned;
    locations_placed = h.locations_left;
    record_sets_placed =
        Refers-kept (λ l. l.row.id) (λ r. r.parent) (keep_rows (λ l. not (p l)) t.locations) _
          t.record_sets (λ x there. there);
    verifications_owned = h.verifications_owned;
  }

  pub delete_locations-keeps :
      (p : Owned Location → Bool) (t : Tables)
      → IsSound alike t
      → IsSound alike (delete_locations p t)
  delete_locations-keeps p t h = delete_locations-IsSound p t (record {
    unique_users = h.unique_users;
    unique_zones = h.unique_zones;
    unique_locations = h.unique_locations;
    unique_record_sets = h.unique_record_sets;
    unique_verifications = h.unique_verifications;
    zones_owned = h.zones_owned;
    locations_left =
        Refers-keep_rows (λ z. z.row.id) (λ l. l.parent) t.zones _ t.locations h.locations_placed;
    verifications_owned = h.verifications_owned;
  })

  -- Soundness but for the locations and for the zones that are deleted.
  record IsSoundButZones (p : Owned Zone → Bool) (t : Tables) : Type 0 where
    unique_users : Unique (users_clash alike) t.users
    unique_zones : Unique (zones_clash alike) t.zones
    unique_locations : Unique (locations_clash alike) t.locations
    unique_record_sets : Unique (record_sets_clash alike) t.record_sets
    unique_verifications : Unique (verifications_clash alike) t.verifications
    zones_left : Refers (λ u. u.id) (λ z. z.parent) t.users (keep_rows (λ z. not (p z)) t.zones)
    verifications_owned : Refers (λ u. u.id) (λ v. v.user_id) t.users t.verifications

  delete_zones-IsSound :
      (p : Owned Zone → Bool) (t : Tables) → IsSoundButZones p t → IsSound alike (delete_zones p t)
  unfolding delete_zones
  delete_zones-IsSound p t h =
      let left = keep_rows (λ z. not (p z)) t.zones in
      delete_locations-IsSound (λ l. not (has_row (λ z. same z.row.id l.parent) left))
        (record t { zones = left })
        (record {
          unique_users = h.unique_users;
          unique_zones = Unique-keep_rows (zones_clash alike) _ t.zones h.unique_zones;
          unique_locations = h.unique_locations;
          unique_record_sets = h.unique_record_sets;
          unique_verifications = h.unique_verifications;
          zones_owned = h.zones_left;
          locations_left =
              Refers-kept (λ z. z.row.id) (λ l. l.parent) left _ t.locations (λ l. not-not _);
          verifications_owned = h.verifications_owned;
        })

  pub delete_zones-keeps :
      (p : Owned Zone → Bool) (t : Tables) → IsSound alike t → IsSound alike (delete_zones p t)
  delete_zones-keeps p t h = delete_zones-IsSound p t (record {
    unique_users = h.unique_users;
    unique_zones = h.unique_zones;
    unique_locations = h.unique_locations;
    unique_record_sets = h.unique_record_sets;
    unique_verifications = h.unique_verifications;
    zones_left = Refers-keep_rows (λ u. u.id) (λ z. z.parent) t.users _ t.zones h.zones_owned;
    verifications_owned = h.verifications_owned;
  })

  pub delete_record_sets-keeps :
      (p : Owned RecordSet → Bool) (t : Tables)
      → IsSound alike t
      → IsSound alike (delete_record_sets p t)
  delete_record_sets-keeps p t h = record {
    unique_users = h.unique_users;
    unique_zones = h.unique_zones;
    unique_locations = h.unique_locations;
    unique_record_sets =
        Unique-keep_rows (record_sets_clash alike) _ t.record_sets h.unique_record_sets;
    unique_verifications = h.unique_verifications;
    zones_owned = h.zones_owned;
    locations_placed = h.locations_placed;
    record_sets_placed =
        Refers-keep_rows (λ l. l.row.id) (λ r. r.parent) t.locations _ t.record_sets
          h.record_sets_placed;
    verifications_owned = h.verifications_owned;
  }
