-- ===== src/Api/Integrity/Statements.antt =====
-- Every SQL statement of internal/api/database keeps the unique and the foreign keys.
use z.Prelude.{Name, same, Bool, Bool-cases, inl, inr}
use z.Api.Action.{Result, ok, err}
use z.Api.Rows.{
  Location, RecordSet, Owned, Tables, has_row, insert_location, place_record_set, store_record_set,
  insert_record_set,
}
use z.Api.Integrity.{
  Unique-append, Refers-append, Refers-more, locations_clash, record_sets_clash, IsSound,
}

module _ (alike : Name → Name → Bool) where
  pub insert_location-IsSound :
      (l : Owned Location) (t : Tables)
      → IsSound alike t
      → IsSound alike (insert_location alike l t).1
  unfolding insert_location
  insert_location-IsSound l t h =
      elim (Bool-cases (has_row (λ r. locations_clash alike r l) t.locations)) [
        | inl taken ↦ rw (taken) h
        | inr free ↦ elim (Bool-cases (has_row (λ z. same z.row.id l.parent) t.zones)) [
          | inr orphan ↦ rw (free) (rw (orphan) h)
          | inl there ↦ rw (free) (
              rw (there) (record {
                unique_users = h.unique_users;
                unique_zones = h.unique_zones;
                unique_locations =
                    Unique-append (locations_clash alike) t.locations l h.unique_locations free;
                unique_record_sets = h.unique_record_sets;
                unique_verifications = h.unique_verifications;
                zones_owned = h.zones_owned;
                locations_placed =
                    Refers-append (λ z. z.row.id) (λ l. l.parent) t.zones t.locations l
                      h.locations_placed there;
                record_sets_placed =
                    Refers-more (λ l. l.row.id) (λ r. r.parent) t.locations l t.record_sets
                      h.record_sets_placed;
                verifications_owned = h.verifications_owned;
              }))
        ]
      ]

  place_record_set-IsSound :
      (r : Owned RecordSet) (t : Tables)
      → IsSound alike t
      → IsSound alike (place_record_set alike r t).1
  unfolding place_record_set
  place_record_set-IsSound r t h =
      elim (Bool-cases (has_row (λ x. record_sets_clash alike x r) t.record_sets)) [
        | inl taken ↦ rw (taken) h
        | inr free ↦ elim (Bool-cases (has_row (λ l. same l.row.id r.parent) t.locations)) [
          | inr orphan ↦ rw (free) (rw (orphan) h)
          | inl there ↦ rw (free) (
              rw (there) (record {
                unique_users = h.unique_users;
                unique_zones = h.unique_zones;
                unique_locations = h.unique_locations;
                unique_record_sets =
                    Unique-append (record_sets_clash alike) t.record_sets r h.unique_record_sets
                      free;
                unique_verifications = h.unique_verifications;
                zones_owned = h.zones_owned;
                locations_placed = h.locations_placed;
                record_sets_placed =
                    Refers-append (λ l. l.row.id) (λ r. r.parent) t.locations t.record_sets r
                      h.record_sets_placed there;
                verifications_owned = h.verifications_owned;
              }))
        ]
      ]

  store_record_set-IsSound :
      (o : Result Name) (r : Owned RecordSet) (t : Tables)
      → IsSound alike t
      → IsSound alike (store_record_set alike o r t).1
  unfolding store_record_set
  store_record_set-IsSound (err e) r t h = h
  store_record_set-IsSound (ok value) r t h = place_record_set-IsSound _ t h

  pub insert_record_set-IsSound :
      (json : Name → Result Name) (r : Owned RecordSet) (t : Tables)
      → IsSound alike t
      → IsSound alike (insert_record_set alike json r t).1
  unfolding insert_record_set
  insert_record_set-IsSound json r t h = store_record_set-IsSound (json r.row.value) r t h
