-- ===== src/Api/Isolated/Content.antt =====
-- The content of a zone in the tables of internal/api/database, its row, its locations and their record
-- sets, and the statements that leave it alone.
use z.Prelude.{
  Name, same, same_iff, ◌≡◌, refl, sym, ap, ◌∙◌, Bool, true, false, not, ◌||◌, ◌&&◌, Bool-cases,
  inl, inr, List, [], ◌∷◌, ◌++◌, arith,
}
use z.Api.Action.{Result, ok, err}
use z.Api.Rows.{
  ObjectId, Zone, Location, RecordSet, Owned, Tables, has_row, keep_rows, update_rows,
  insert_location, place_record_set, store_record_set, insert_record_set, delete_record_sets,
  delete_locations, delete_zones,
}
use z.Api.Database.{Engine}
use z.Api.Database.Zones.{set_zone}
use z.Api.Database.Locations.{set_location}
use z.Api.Database.RecordSets.{set_record_set}
use z.Api.Integrity.{Refers, has_row-append, has_row-update_rows}
use z.Api.Isolated.{
  keep_rows-append, keep_rows-alike, keep_rows-update_rows, keep_rows-spared, has_row-spared,
  keep_rows-keep_rows, has_row-and,
}

module _ (zone : ObjectId) where
  -- The record set stands at a location of the zone.
  abbrev pub is_inside : List (Owned Location) → Owned RecordSet → Bool
  is_inside locations r = has_row (λ l. same l.row.id r.parent && same l.parent zone) locations

  abbrev pub zone_rows : Tables → List (Owned Zone)
  zone_rows t = keep_rows (λ z. same z.row.id zone) t.zones

  abbrev pub locations_of : Tables → List (Owned Location)
  locations_of t = keep_rows (λ l. same l.parent zone) t.locations

  abbrev pub record_sets_of : Tables → List (Owned RecordSet)
  record_sets_of t = keep_rows (is_inside t.locations) t.record_sets

  -- The zone has the same row, locations and record sets, and the users are the same.
  pub record SameContent (t t' : Tables) : Type 0 where
    pub same_users : t'.users ≡ t.users
    pub same_row : zone_rows t' ≡ zone_rows t
    pub same_locations : locations_of t' ≡ locations_of t
    pub same_record_sets : record_sets_of t' ≡ record_sets_of t

  pub unchanged-SameContent : {t t' : Tables} → t' ≡ t → SameContent t t'
  unchanged-SameContent e = record {
    same_users = ap (λ (t : Tables). t.users) e;
    same_row = ap zone_rows e;
    same_locations = ap locations_of e;
    same_record_sets = ap record_sets_of e;
  }

  pub insert_location-SameContent :
      (alike : Name → Name → Bool) (l : Owned Location) (t : Tables)
      → same l.parent zone ≡ false
      → SameContent t (insert_location alike l t).1
  unfolding insert_location
  insert_location-SameContent alike l t apart =
      elim (Bool-cases (
        has_row
          (λ r. same r.row.id l.row.id || (same r.parent l.parent && alike r.row.name l.row.name))
          t.locations)) [
            | inl taken ↦ rw (taken) (unchanged-SameContent refl)
            | inr free ↦ elim (Bool-cases (has_row (λ z. same z.row.id l.parent) t.zones)) [
              | inr orphan ↦ rw (free) (rw (orphan) (unchanged-SameContent refl))
              | inl there ↦ rw (free) (
                  rw (there) (record {
                    same_users = refl;
                    same_row = refl;
                    same_locations = keep_rows-append (λ l. same l.parent zone) t.locations l apart;
                    same_record_sets =
                        keep_rows-alike (is_inside (t.locations ++ l ∷ [])) (is_inside t.locations)
                          t.record_sets
                          (λ r.
                            has_row-append (λ l. same l.row.id r.parent && same l.parent zone)
                              t.locations (l ∷ [])
                            ∙ ground (arith, apart));
                  }))
            ]
          ]

  place_record_set-SameContent :
      (alike : Name → Name → Bool) (r : Owned RecordSet) (t : Tables)
      → is_inside t.locations r ≡ false
      → SameContent t (place_record_set alike r t).1
  unfolding place_record_set
  place_record_set-SameContent alike r t apart =
      elim (Bool-cases (
        has_row
          (λ x. same x.row.id r.row.id || (same x.parent r.parent && alike x.row.rtype r.row.rtype))
          t.record_sets)) [
            | inl taken ↦ rw (taken) (unchanged-SameContent refl)
            | inr free ↦ elim (Bool-cases (has_row (λ l. same l.row.id r.parent) t.locations)) [
              | inr orphan ↦ rw (free) (rw (orphan) (unchanged-SameContent refl))
              | inl there ↦ rw (free) (
                  rw (there) (record {
                    same_users = refl;
                    same_row = refl;
                    same_locations = refl;
                    same_record_sets =
                        keep_rows-append (is_inside t.locations) t.record_sets r apart;
                  }))
            ]
          ]

  store_record_set-SameContent :
      (alike : Name → Name → Bool) (o : Result Name) (r : Owned RecordSet) (t : Tables)
      → is_inside t.locations r ≡ false
      → SameContent t (store_record_set alike o r t).1
  unfolding store_record_set
  store_record_set-SameContent alike (err e) r t apart = unchanged-SameContent refl
  store_record_set-SameContent alike (ok value) r t apart =
      place_record_set-SameContent alike _ t apart

  pub insert_record_set-SameContent :
      (E : Engine) (r : Owned RecordSet) (t : Tables)
      → is_inside t.locations r ≡ false
      → SameContent t (insert_record_set E.alike E.json r t).1
  unfolding insert_record_set
  insert_record_set-SameContent E r t apart =
      store_record_set-SameContent E.alike (E.json r.row.value) r t apart

  pub set_location-SameContent :
      (E : Engine) (id : ObjectId) (enabled : Bool) (t : Tables)
      → has_row (λ l. same l.row.id id && same l.parent zone) t.locations ≡ false
      → SameContent t (set_location E id enabled t)
  unfolding set_location
  set_location-SameContent E id enabled t spared =
      let hit = λ (l : Owned Location). same l.row.id id in
      let set = λ (l : Owned Location). record l { row = record l.row { enabled = enabled } } in
      record {
        same_users = refl;
        same_row = refl;
        same_locations =
            keep_rows-update_rows (λ l. same l.parent zone) hit set t.locations (λ l. refl) spared;
        same_record_sets =
            keep_rows-alike (is_inside (update_rows hit set t.locations)) (is_inside t.locations)
              t.record_sets
              (λ r.
                has_row-update_rows (λ l. same l.row.id r.parent && same l.parent zone) hit set
                  t.locations (λ l. refl));
      }

  pub set_record_set-SameContent :
      (E : Engine) (id : ObjectId) (o : Result Name) (enabled : Bool) (t : Tables)
      → has_row (λ r. same r.row.id id && is_inside t.locations r) t.record_sets ≡ false
      → SameContent t (set_record_set E id o enabled t).1
  unfolding set_record_set
  set_record_set-SameContent E id (err e) enabled t spared = unchanged-SameContent refl
  set_record_set-SameContent E id (ok value) enabled t spared = record {
    same_users = refl;
    same_row = refl;
    same_locations = refl;
    same_record_sets =
        keep_rows-update_rows (is_inside t.locations) (λ r. same r.row.id id)
          (λ r. record r { row = record r.row { value = value; enabled = enabled } }) t.record_sets
          (λ r. refl) spared;
  }

  pub delete_record_sets-SameContent :
      (hit : Owned RecordSet → Bool) (t : Tables)
      → has_row (λ r. hit r && is_inside t.locations r) t.record_sets ≡ false
      → SameContent t (delete_record_sets hit t)
  delete_record_sets-SameContent hit t spared = record {
    same_users = refl;
    same_row = refl;
    same_locations = refl;
    same_record_sets = keep_rows-spared (is_inside t.locations) hit t.record_sets spared;
  }

  -- The deletion cascades to the record sets of the deleted locations.
  pub delete_locations-SameContent :
      (hit : Owned Location → Bool) (t : Tables)
      → has_row (λ l. hit l && same l.parent zone) t.locations ≡ false
      → SameContent t (delete_locations hit t)
  unfolding delete_locations
  delete_locations-SameContent hit t spared =
      let left = keep_rows (λ l. not (hit l)) t.locations in
      record {
        same_users = refl;
        same_row = refl;
        same_locations = keep_rows-spared (λ l. same l.parent zone) hit t.locations spared;
        same_record_sets =
            keep_rows-keep_rows (is_inside left) (λ r. has_row (λ l. same l.row.id r.parent) left)
              t.record_sets
              (λ r inside.
                has_row-and (λ l. same l.row.id r.parent) (λ l. same l.parent zone) left inside)
            ∙ keep_rows-alike (is_inside left) (is_inside t.locations) t.record_sets (λ r.
              has_row-spared (λ l. same l.row.id r.parent) (λ l. same l.parent zone) hit t.locations
                spared);
      }

  pub set_zone-SameContent :
      (E : Engine) (z : Zone) (t : Tables)
      → has_row (λ r. E.alike r.row.name z.name && same r.row.id zone) t.zones ≡ false
      → SameContent t (set_zone E z t)
  unfolding set_zone
  set_zone-SameContent E z t spared = record {
    same_users = refl;
    same_row =
        keep_rows-update_rows (λ r. same r.row.id zone) (λ r. E.alike r.row.name z.name)
          (λ r. record r {
            row = record r.row {
              dnssec = z.dnssec;
              cname_flattening = z.cname_flattening;
              enabled = z.enabled;
            };
          })
          t.zones (λ r. refl) spared;
    same_locations = refl;
    same_record_sets = refl;
  }

  -- No location of the zone loses its zone.
  placed_spared :
      (zones left : List (Owned Zone)) (l : List (Owned Location))
      → Refers (λ z. z.row.id) (λ l. l.parent) zones l
      → has_row (λ z. same z.row.id zone) left ≡ has_row (λ z. same z.row.id zone) zones
      → has_row (λ l. not (has_row (λ z. same z.row.id l.parent) left) && same l.parent zone) l
        ≡ false
  placed_spared zones left [] placed stays = refl
  placed_spared zones left (l ∷ rest) (first, placed) stays =
      elim (Bool-cases (same l.parent zone)) [
        | inl here ↦
            let at_zone : l.parent ≡ zone = (same_iff l.parent zone).0 here in
            let there : has_row (λ z. same z.row.id l.parent) left ≡ true =
              ap (λ p. has_row (λ z. same z.row.id p) left) at_zone
              ∙ stays
              ∙ ap (λ p. has_row (λ z. same z.row.id p) zones) (sym at_zone)
              ∙ first in
            ground (arith, there, placed_spared zones left rest placed stays)
        | inr elsewhere ↦ ground (arith, elsewhere, placed_spared zones left rest placed stays)
      ]

  pub delete_zones-SameContent :
      (hit : Owned Zone → Bool) (t : Tables)
      → Refers (λ z. z.row.id) (λ l. l.parent) t.zones t.locations
      → has_row (λ z. hit z && same z.row.id zone) t.zones ≡ false
      → SameContent t (delete_zones hit t)
  unfolding delete_zones
  delete_zones-SameContent hit t placed spared =
      let left = keep_rows (λ z. not (hit z)) t.zones in
      let stays = has_row-spared (λ z. true) (λ z. same z.row.id zone) hit t.zones spared in
      let below =
        delete_locations-SameContent (λ l. not (has_row (λ z. same z.row.id l.parent) left))
          (record t { zones = left }) (placed_spared t.zones left t.locations placed stays) in
      record {
        same_users = below.same_users;
        same_row = below.same_row ∙ keep_rows-spared (λ z. same z.row.id zone) hit t.zones spared;
        same_locations = below.same_locations;
        same_record_sets = below.same_record_sets;
      }
