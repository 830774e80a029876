-- ===== src/Api/Isolated/Calls.antt =====
-- A call of internal/api/database on one zone leaves every other zone's content.
use z.Prelude.{
  ℕ, Name, same, ◌≡◌, ◌==◌, refl, true, false, ◌&&◌, Bool-cases, Option-cases, inl, inr, arith,
}
use z.Prelude.Int.{ℤ}
use z.Api.Action.{Action, parse_error, invalid}
use z.Api.Rows.{
  ObjectId, Zone, Location, RecordSet, Tables, has_row, insert_location, insert_record_set,
}
use z.Api.Database.{Engine, Db, some_rows}
use z.Api.Database.Access.{zone_row, can_access_zone}
use z.Api.Database.Zones.{update_zone, delete_zone}
use z.Api.Database.Locations.{add_location, get_locations, update_location, delete_location}
use z.Api.Database.RecordSets.{
  rtype_valid, add_record_set, get_record_sets, update_record_set, delete_record_set,
}
use z.Api.Database.Refusal.{
  Call, perform, read_zone, remove_zone, change_zone, list_locations, create_location,
  change_location, read_location, remove_location, list_record_sets, create_record_set,
  change_record_set, read_record_set, remove_record_set,
}
use z.Api.Integrity.{zones_clash}
use z.Api.Isolated.{only_row, nothing_found, find_row-holds}
use z.Api.Isolated.Content.{
  SameContent, unchanged-SameContent, insert_location-SameContent, insert_record_set-SameContent,
  set_location-SameContent, set_record_set-SameContent, delete_record_sets-SameContent,
  delete_locations-SameContent, set_zone-SameContent, delete_zones-SameContent,
}
use z.Api.Isolated.Ensures.{
  Ensures, Ensures-bind, Ensures-then, Ensures-map_error, Ensures-reads, Ensures-statement,
  Ensures-insert_fresh,
}
use z.Api.Database.Reads.{Reads-guard}
use z.Api.Database.Found.{
  Reads-is_zone_owner, Reads-can_access_content, Reads-get_zone, Reads-zone_of_content,
  Reads-get_location, Reads-location_of_content, Reads-get_record_set,
}
use z.Api.Isolated.Found.{
  IsForeign, found_zone_id-IsElsewhere, found_location-IsOutside, found_location_id-IsOutside,
  found_record_set-IsApart,
}

module _ (E : Engine) where
  -- The collation is symmetric and transitive.
  pub record IsCollation : Type 0 where
    pub symmetric : (a b : Name) → E.alike a b ≡ true → E.alike b a ≡ true
    pub transitive : (a b c : Name) → E.alike a b ≡ true → E.alike b c ≡ true → E.alike a c ≡ true

  some_rows-reads : (n : ℕ) (db : Db) → (some_rows E n db).1.tables ≡ db.tables
  some_rows-reads n db = elim (Bool-cases (n == 0)) [
    | inl none_there ↦ rw (none_there) refl
    | inr some_there ↦ rw (some_there) refl
  ]

  module _ (alike : IsCollation) (user : Name) {zone : Name} {other : ObjectId} {t : Tables}
      (w : IsForeign E zone other t) where
    abbrev Spares : {A : Type 0} → Action Db A → Type 0
    Spares m = Ensures t m (SameContent other t)

    stays : SameContent other t t
    stays = unchanged-SameContent other refl

    -- No row with the name is the other zone's.
    zones_spared : has_row (λ r. E.alike r.row.name zone && same r.row.id other) t.zones ≡ false
    unfolding zone_row
    zones_spared = elim (Option-cases (zone_row E zone t)) [
      | inl missing ↦
          nothing_found (λ r. E.alike r.row.name zone) (λ r. same r.row.id other) t.zones missing
      | inr (z, found) ↦
          only_row (zones_clash E.alike) (λ r. E.alike r.row.name zone)
            (λ r. E.alike r.row.name zone) (λ r. same r.row.id other) t.zones w.sound.unique_zones
            (λ x y h k. ground (
              arith,
              alike.transitive x.row.name zone y.row.name h (alike.symmetric y.row.name zone k),
            ))
            found (find_row-holds (λ r. E.alike r.row.name zone) t.zones found) (w.foreign z found)
    ]

    update_zone-Spares :
        (z : Zone) → z.name ≡ zone → Spares (update_zone E user (record z { name = zone }))
    unfolding update_zone can_access_zone
    update_zone-Spares z e = Ensures-bind E _ stays (Reads-is_zone_owner E user zone t) (λ _ _.
        Ensures-bind E _ stays (Reads-get_zone E user zone t) (λ _ _.
          Ensures-statement E _ stays
            (set_zone-SameContent other E (record z { name = zone }) t zones_spared)))

    delete_zone-Spares : Spares (delete_zone E user zone)
    unfolding delete_zone can_access_zone
    delete_zone-Spares = Ensures-bind E _ stays (Reads-is_zone_owner E user zone t) (λ _ _.
        Ensures-then _
          (Ensures-map_error parse_error (
            Ensures-statement E _ stays (
              delete_zones-SameContent other (λ r. E.alike r.row.name zone) t
                w.sound.locations_placed zones_spared)))
          some_rows-reads)

    get_locations-Spares :
        (start count : ℤ) (q : Name) → Spares (get_locations E user zone start count q)
    unfolding get_locations
    get_locations-Spares start count q =
        Ensures-bind E _ stays (Reads-can_access_content E user zone t) (λ _ _.
          Ensures-bind E _ stays (Reads-zone_of_content E user zone t)
            (λ _ _. Ensures-statement E _ stays stays))

    add_location-Spares : (l : Location) → Spares (add_location E user zone l)
    unfolding add_location
    add_location-Spares l = Ensures-bind E _ stays (Reads-can_access_content E user zone t) (λ _ _.
        Ensures-bind E _ stays (Reads-zone_of_content E user zone t) (λ id at_zone.
          Ensures-insert_fresh E
            (λ i. insert_location E.alike (record { row = record l { id = i }; parent = id })) stays
            (λ i.
              insert_location-SameContent other E.alike
                (record { row = record l { id = i }; parent = id }) t
                (found_zone_id-IsElsewhere E user w at_zone))))

    update_location-Spares : (l : Location) → Spares (update_location E user zone l)
    unfolding update_location
    update_location-Spares l =
        Ensures-bind E _ stays (Reads-can_access_content E user zone t) (λ _ _.
          Ensures-bind E _ stays (Reads-get_location E user zone t l.name) (λ stored there.
            Ensures-map_error parse_error (
              Ensures-statement E _ stays (
                set_location-SameContent other E stored.id l.enabled t
                  (found_location-IsOutside E user w l.name there)))))

    delete_location-Spares : (name : Name) → Spares (delete_location E user zone name)
    unfolding delete_location
    delete_location-Spares name =
        Ensures-bind E _ stays (Reads-can_access_content E user zone t) (λ _ _.
          Ensures-bind E _ stays (Reads-get_location E user zone t name) (λ stored there.
            Ensures-then _
              (Ensures-statement E _ stays (
                delete_locations-SameContent other (λ l. same l.row.id stored.id) t
                  (found_location-IsOutside E user w name there)))
              some_rows-reads))

    get_record_sets-Spares : (name : Name) → Spares (get_record_sets E user zone name)
    unfolding get_record_sets
    get_record_sets-Spares name =
        Ensures-bind E _ stays (Reads-can_access_content E user zone t) (λ _ _.
          Ensures-bind E _ stays (Reads-location_of_content E user zone t name)
            (λ _ _. Ensures-statement E _ stays stays))

    add_record_set-Spares :
        (name : Name) (r : RecordSet) → Spares (add_record_set E user zone name r)
    unfolding add_record_set
    add_record_set-Spares name r =
        Ensures-bind E _ stays (Reads-can_access_content E user zone t) (λ _ _.
          Ensures-bind E _ stays (Reads-guard E (rtype_valid r.rtype) invalid) (λ _ _.
            Ensures-bind E _ stays (Reads-location_of_content E user zone t name) (λ id there.
              Ensures-insert_fresh E
                (λ i.
                  insert_record_set E.alike E.json
                    (record { row = record r { id = i }; parent = id }))
                stays
                (λ i.
                  insert_record_set-SameContent other E
                    (record { row = record r { id = i }; parent = id }) t
                    (found_location_id-IsOutside E user w name there)))))

    update_record_set-Spares :
        (name : Name) (r : RecordSet) → Spares (update_record_set E user zone name r)
    unfolding update_record_set
    update_record_set-Spares name r =
        Ensures-bind E _ stays (Reads-guard E (rtype_valid r.rtype) invalid) (λ _ _.
          Ensures-bind E _ stays (Reads-can_access_content E user zone t) (λ _ _.
            Ensures-bind E _ stays (Reads-get_record_set E user zone t name r.rtype)
              (λ stored there. Ensures-statement E _ stays (
                set_record_set-SameContent other E stored.id (E.json r.value) r.enabled t
                  (found_record_set-IsApart E user w name r.rtype there)))))

    delete_record_set-Spares :
        (name rtype : Name) → Spares (delete_record_set E user zone name rtype)
    unfolding delete_record_set
    delete_record_set-Spares name rtype =
        Ensures-bind E _ stays (Reads-guard E (rtype_valid rtype) invalid) (λ _ _.
          Ensures-bind E _ stays (Reads-can_access_content E user zone t) (λ _ _.
            Ensures-bind E _ stays (Reads-get_record_set E user zone t name rtype) (λ stored there.
              Ensures-then _
                (Ensures-statement E _ stays (
                  delete_record_sets-SameContent other (λ r. same r.row.id stored.id) t
                    (found_record_set-IsApart E user w name rtype there)))
                some_rows-reads)))

    -- A call on the zone leaves the other zone.
    pub perform-Spares : (c : Call) → Spares (perform E user zone c)
    unfolding perform
    perform-Spares read_zone = Ensures-reads E stays (Reads-get_zone E user zone t)
    perform-Spares remove_zone = delete_zone-Spares
    perform-Spares (change_zone enabled dnssec cname_flattening) = update_zone-Spares _ refl
    perform-Spares (list_locations start count q) = get_locations-Spares start count q
    perform-Spares (create_location l) = add_location-Spares l
    perform-Spares (change_location l) = update_location-Spares l
    perform-Spares (read_location name) =
        Ensures-reads E stays (Reads-get_location E user zone t name)
    perform-Spares (remove_location name) = delete_location-Spares name
    perform-Spares (list_record_sets name) = get_record_sets-Spares name
    perform-Spares (create_record_set name r) = add_record_set-Spares name r
    perform-Spares (change_record_set name r) = update_record_set-Spares name r
    perform-Spares (read_record_set name rtype) =
        Ensures-reads E stays (Reads-get_record_set E user zone t name rtype)
    perform-Spares (remove_record_set name rtype) = delete_record_set-Spares name rtype
