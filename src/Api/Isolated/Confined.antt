-- ===== src/Api/Isolated/Confined.antt =====
-- What a user can change through internal/api/database: the user's own zones.
use z.Prelude.{
  Name, same, ◌≡◌, refl, sym, ap, ◌∙◌, Bool, true, false, ◌&&◌, Bool-cases, Option-cases, inl, inr,
  Option, some, none, List, [], ◌∷◌, arith,
}
use z.Api.Rows.{ObjectId, User, Zone, Owned, Tables, has_row}
use z.Api.Database.{Engine, Db, user_row}
use z.Api.Database.Access.{zone_row}
use z.Api.Database.Refusal.{
  Call, perform, perform-IsRefused, IsOwner, read_zone, remove_zone, change_zone, list_locations,
  create_location, change_location, read_location, remove_location, list_record_sets,
  create_record_set, change_record_set, read_record_set, remove_record_set,
}
use z.Api.Integrity.{IsSound}
use z.Api.Integrity.Keeping.{Keeps}
use z.Api.Integrity.Calls
use z.Api.Rows.Found.{some_eq}
use z.Api.Isolated.{found_free, has_row-keep_rows}
use z.Api.Isolated.Content.{SameContent, unchanged-SameContent}
use z.Api.Isolated.Found.{IsForeign}
use z.Api.Isolated.Calls.{IsCollation, perform-Spares}

module _ (E : Engine) where
  abbrev is_of : ObjectId → Tables → Option User → Bool
  is_of zone t none = false
  is_of zone t (some u) = has_row (λ z. same z.row.id zone && same u.id z.parent) t.zones

  -- The zone with the identifier is the user's.
  abbrev pub owns_zone : Name → ObjectId → Tables → Bool
  owns_zone user zone t = is_of zone t (user_row E user t)

  -- One call after the other, each on a zone.
  pub run_as : Name → List (Name × Call) → Db → Db
  run_as user [] db = db
  run_as user ((zone, c) ∷ calls) db = run_as user calls (perform E user zone c db).1

  perform-Keeps : (user zone : Name) (c : Call) → Keeps E (perform E user zone c)
  unfolding perform
  perform-Keeps user zone read_zone = Calls.get_zone-Keeps E user zone
  perform-Keeps user zone remove_zone = Calls.delete_zone-Keeps E user zone
  perform-Keeps user zone (change_zone enabled dnssec cname_flattening) =
      Calls.update_zone-Keeps E user _
  perform-Keeps user zone (list_locations start count q) =
      Calls.get_locations-Keeps E user zone start count q
  perform-Keeps user zone (create_location l) = Calls.add_location-Keeps E user zone l
  perform-Keeps user zone (change_location l) = Calls.update_location-Keeps E user zone l
  perform-Keeps user zone (read_location name) = Calls.get_location-Keeps E user zone name
  perform-Keeps user zone (remove_location name) = Calls.delete_location-Keeps E user zone name
  perform-Keeps user zone (list_record_sets name) = Calls.get_record_sets-Keeps E user zone name
  perform-Keeps user zone (create_record_set name r) = Calls.add_record_set-Keeps E user zone name r
  perform-Keeps user zone (change_record_set name r) =
      Calls.update_record_set-Keeps E user zone name r
  perform-Keeps user zone (read_record_set name rtype) =
      Calls.get_record_set-Keeps E user zone name rtype
  perform-Keeps user zone (remove_record_set name rtype) =
      Calls.delete_record_set-Keeps E user zone name rtype

  module _ (alike : IsCollation E) (user : Name) (other : ObjectId) where
    not-IsOwner :
        (zone : Name) (t : Tables) (z : Owned Zone)
        → owns_zone user other t ≡ false
        → zone_row E zone t ≡ some z
        → same z.row.id other ≡ true
        → ¬ IsOwner E user zone t
    unfolding zone_row
    not-IsOwner zone t z h found it (u, z', user_found, zone_found, owns) =
        let no_zone : is_of other t (some u) ≡ false = ap (is_of other t) (sym user_found) ∙ h in
        let here : z ≡ z' = some_eq (sym found ∙ zone_found) in
        let not_his =
          found_free (λ z. same z.row.id other && same u.id z.parent) (λ z. E.alike z.row.name zone)
            t.zones no_zone zone_found in
        ground (arith, not_his, owns, ap (λ (z : Owned Zone). same z.row.id other) here, it)

    perform-SameContent :
        (zone : Name) (c : Call) (db : Db)
        → IsSound E.alike db.tables
        → owns_zone user other db.tables ≡ false
        → SameContent other db.tables (perform E user zone c db).1.tables
    perform-SameContent zone c db sound h = elim (Option-cases (zone_row E zone db.tables)) [
      | inl missing ↦
          let (e, failed, kept) =
            perform-IsRefused E user zone db
              (λ (u, z, user_found, zone_found, owns). cc (sym missing ∙ zone_found)) c in
          unchanged-SameContent other kept
      | inr (z, found) ↦ elim (Bool-cases (same z.row.id other)) [
        | inl it ↦
            let (e, failed, kept) =
              perform-IsRefused E user zone db (not-IsOwner zone db.tables z h found it) c in
            unchanged-SameContent other kept
        | inr apart ↦
            let w : IsForeign E zone other db.tables = record {
              sound = sound;
              foreign = λ z' there.
                  ap (λ (z : Owned Zone). same z.row.id other) (some_eq (sym there ∙ found))
                  ∙ apart;
            } in
            (perform-Spares E alike user w c).ensures db refl
      ]
    ]

    -- Who owns the zone does not change.
    owns_zone-SameContent :
        (t t' : Tables) → SameContent other t t' → owns_zone user other t' ≡ owns_zone user other t
    unfolding user_row
    owns_zone-SameContent t t' s =
        ap (λ l. is_of other t' (user_row E user (record t' { users = l }))) s.same_users
        ∙ owned (user_row E user t)
      where
        owned : (o : Option User) → is_of other t' o ≡ is_of other t o
        owned none = refl
        owned (some u) =
            has_row-keep_rows (λ z. same z.row.id other) (λ z. same u.id z.parent) t'.zones
            ∙ ap (has_row (λ z. same u.id z.parent)) s.same_row
            ∙ sym (has_row-keep_rows (λ z. same z.row.id other) (λ z. same u.id z.parent) t.zones)

    then_SameContent :
        {t t' t'' : Tables}
        → SameContent other t t'
        → SameContent other t' t''
        → SameContent other t t''
    then_SameContent s s' = record {
      same_users = s'.same_users ∙ s.same_users;
      same_row = s'.same_row ∙ s.same_row;
      same_locations = s'.same_locations ∙ s.same_locations;
      same_record_sets = s'.same_record_sets ∙ s.same_record_sets;
    }

    -- If the database's comparison of names is symmetric and transitive, and the unique and the
    -- foreign keys hold, then whatever a user calls on whichever zones, one call after the other, a
    -- zone that is not the user's keeps its row, its locations and their record sets, and the users
    -- stay as they are.
    pub run_as-SameContent :
        (calls : List (Name × Call)) (db : Db)
        → IsSound E.alike db.tables
        → owns_zone user other db.tables ≡ false
        → SameContent other db.tables (run_as user calls db).tables
    unfolding run_as
    run_as-SameContent [] db sound h = unchanged-SameContent other refl
    run_as-SameContent ((zone, c) ∷ calls) db sound h =
        let step = perform-SameContent zone c db sound h in
        then_SameContent step (
          run_as-SameContent calls (perform E user zone c db).1
            ((perform-Keeps user zone c).keep db sound)
            (owns_zone-SameContent db.tables (perform E user zone c db).1.tables step ∙ h))
