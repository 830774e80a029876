-- ===== src/Api/Database/Refusal.antt =====
-- Who is refused by internal/api/database: what isZoneOwner turns down has no effect on the tables.
use z.Prelude.{
  ℕ, Name, same, ◌+◌, ◌≡◌, refl, ap, ◌∙◌, [], Bool, true, Option, some, Option-cases, Bool-cases,
  ◌⊎◌, inl, inr, List,
}
use z.Prelude.Int.{ℤ}
use z.Api.Action.{
  Error, ok, err, Action, with_error, ◌>>=◌, guard, map_error, missing_is_invalid, unauthorized,
  invalid, no_rows,
}
use z.Api.Rows.{ObjectId, User, Zone, Location, RecordSet, Owned, Tables, scan}
use z.Api.Database.{Engine, Db, attempt, query_row, user_row}
use z.Api.Database.Access.{
  zone_row, is_zone_owner, can_access_zone, can_access_content, no_rows_is_missing,
}
use z.Api.Database.Zones.{get_zone_row, get_zone, update_zone, delete_zone}
use z.Api.Database.Locations.{
  add_location, get_locations, get_location, update_location, delete_location,
}
use z.Api.Database.RecordSets.{
  add_record_set, get_record_sets, get_record_set, update_record_set, delete_record_set,
  rtype_valid,
}
use z.Api.Database.Stops.{
  IsRefused, bind-IsRefused, map_error-IsRefused, guard-IsRefused, stop-IsRefused, go_on-IsRefused,
  guard-false-IsRefused,
}

-- The operations on a zone that is there already.
pub data Call : Type 0 where
  read_zone remove_zone : Call
  change_zone : (enabled dnssec cname_flattening : Bool) → Call
  list_locations : (start count : ℤ) → Name → Call
  create_location change_location : Location → Call
  read_location remove_location : Name → Call
  list_record_sets : Name → Call
  create_record_set change_record_set : Name → RecordSet → Call
  read_record_set remove_record_set : Name → Name → Call

abbrev pub Answer : Call → Type 0
Answer read_zone = Zone
Answer remove_zone = ℕ
Answer (change_zone _ _ _) = ℕ
Answer (list_locations _ _ _) = List Name
Answer (create_location _) = ObjectId
Answer (change_location _) = ℕ
Answer (read_location _) = Location
Answer (remove_location _) = ℕ
Answer (list_record_sets _) = List Name
Answer (create_record_set _ _) = ObjectId
Answer (change_record_set _ _) = ℕ
Answer (read_record_set _ _) = RecordSet
Answer (remove_record_set _ _) = ℕ

module _ (E : Engine) where
  unfoldable pub perform : Name → Name → (c : Call) → Action Db (Answer c)
  perform user zone read_zone = get_zone E user zone
  perform user zone remove_zone = delete_zone E user zone
  perform user zone (change_zone enabled dnssec cname_flattening) = update_zone E user (record {
    id = [];
    name = zone;
    enabled = enabled;
    dnssec = dnssec;
    cname_flattening = cname_flattening;
  })
  perform user zone (list_locations start count q) = get_locations E user zone start count q
  perform user zone (create_location l) = add_location E user zone l
  perform user zone (change_location l) = update_location E user zone l
  perform user zone (read_location name) = get_location E user zone name
  perform user zone (remove_location name) = delete_location E user zone name
  perform user zone (list_record_sets name) = get_record_sets E user zone name
  perform user zone (create_record_set name r) = add_record_set E user zone name r
  perform user zone (change_record_set name r) = update_record_set E user zone name r
  perform user zone (read_record_set name rtype) = get_record_set E user zone name rtype
  perform user zone (remove_record_set name rtype) = delete_record_set E user zone name rtype

  -- The owner of the zone, as the tables have it.
  abbrev pub IsOwner : Name → Name → Tables → Type 0
  IsOwner user zone t =
      (u : User) × (z : Owned Zone) × (user_row E user t ≡ some u)
      × (zone_row E zone t ≡ some z)
      × (same u.id z.parent ≡ true)

  -- A query leaves the tables alone.
  abbrev pub sent : Db → Db
  sent db = record db { clock = db.clock + 1 }

  pub query_row-cases :
      {A : Type 0} (f : Tables → Option A) (db : Db)
      → ((e : Error) × (query_row E f db ≡ (err e, sent db)))
        ⊎ ((a : A) × (f db.tables ≡ some a) × (query_row E f db ≡ (ok a, sent db)))
  query_row-cases f db = elim (Option-cases (E.fault db.clock)) [
    | inr (e, fails) ↦ inl (e, ap (λ o. attempt o (scan (f db.tables), db.tables) db) fails)
    | inl runs ↦
        let ran = ap (λ o. attempt o (scan (f db.tables), db.tables) db) runs in
        elim (Option-cases (f db.tables)) [
          | inl missing ↦ inl (no_rows, ran ∙ ap (λ o. (scan o, sent db)) missing)
          | inr (a, there) ↦ inr (a, there, ran ∙ ap (λ o. (scan o, sent db)) there)
        ]
  ]

  abbrev owns : Name → User → Action Db (Unit {0})
  owns zone u = do
    z ← map_error no_rows_is_missing (query_row E (zone_row E zone))
    guard (same u.id z.parent) unauthorized

  is_zone_owner-IsRefused :
      (user zone : Name) (db : Db)
      → ¬ IsOwner user zone db.tables
      → IsRefused (is_zone_owner E user zone) db
  unfolding is_zone_owner
  is_zone_owner-IsRefused user zone db h = elim (query_row-cases (user_row E user) db) [
    | inl (e, failed) ↦
        stop-IsRefused (query_row E (user_row E user)) (owns zone) db (sent db) e failed refl
    | inr (u, there, found) ↦
        go_on-IsRefused (query_row E (user_row E user)) (owns zone) db (sent db) u found refl
          (elim (query_row-cases (zone_row E zone) (sent db)) [
            | inl (e, failed) ↦
                stop-IsRefused (map_error no_rows_is_missing (query_row E (zone_row E zone)))
                  (λ z. guard (same u.id z.parent) unauthorized) (sent db) (sent (sent db))
                  (no_rows_is_missing e) (ap (with_error no_rows_is_missing) failed) refl
            | inr (z, there', found') ↦
                go_on-IsRefused (map_error no_rows_is_missing (query_row E (zone_row E zone)))
                  (λ z. guard (same u.id z.parent) unauthorized) (sent db) (sent (sent db)) z
                  (ap (with_error no_rows_is_missing) found') refl
                  (elim (Bool-cases (same u.id z.parent)) [
                    | inl owner ↦ absurd (h (u, z, there, there', owner))
                    | inr other ↦ guard-false-IsRefused (same u.id z.parent) (sent (sent db)) other
                  ])
          ])
  ]

  can_access_content-IsRefused :
      (user zone : Name) (db : Db)
      → ¬ IsOwner user zone db.tables
      → IsRefused (can_access_content E user zone) db
  unfolding can_access_content
  can_access_content-IsRefused user zone db h =
      map_error-IsRefused missing_is_invalid (is_zone_owner E user zone) db
        (is_zone_owner-IsRefused user zone db h)

  module _ (user zone : Name) (db : Db) (h : ¬ IsOwner user zone db.tables) where
    owner_check-IsRefused :
        {A : Type 0} (f : Unit {0} → Action Db A) → IsRefused (is_zone_owner E user zone >>= f) db
    owner_check-IsRefused f =
        bind-IsRefused (is_zone_owner E user zone) f db (is_zone_owner-IsRefused user zone db h)

    content_check-IsRefused :
        {A : Type 0} (f : Unit {0} → Action Db A)
        → IsRefused (can_access_content E user zone >>= f) db
    content_check-IsRefused f =
        bind-IsRefused (can_access_content E user zone) f db
          (can_access_content-IsRefused user zone db h)

    get_zone_row-IsRefused : IsRefused (get_zone_row E user zone) db
    unfolding get_zone_row can_access_zone
    get_zone_row-IsRefused = owner_check-IsRefused _

    -- Who is not the owner is refused.
    pub perform-IsRefused : (c : Call) → IsRefused (perform user zone c) db
    unfolding perform get_zone can_access_zone delete_zone update_zone add_location get_locations
        get_location update_location delete_location add_record_set get_record_sets get_record_set
        update_record_set delete_record_set
    perform-IsRefused read_zone =
        bind-IsRefused (get_zone_row E user zone) _ db get_zone_row-IsRefused
    perform-IsRefused remove_zone = owner_check-IsRefused _
    perform-IsRefused (change_zone a b c) = owner_check-IsRefused _
    perform-IsRefused (list_locations start count q) = content_check-IsRefused _
    perform-IsRefused (create_location l) = content_check-IsRefused _
    perform-IsRefused (change_location l) = content_check-IsRefused _
    perform-IsRefused (read_location name) = content_check-IsRefused _
    perform-IsRefused (remove_location name) = content_check-IsRefused _
    perform-IsRefused (list_record_sets name) = content_check-IsRefused _
    perform-IsRefused (create_record_set name r) = content_check-IsRefused _
    perform-IsRefused (change_record_set name r) =
        guard-IsRefused (rtype_valid r.rtype) invalid _ db (content_check-IsRefused _)
    perform-IsRefused (read_record_set name rtype) =
        guard-IsRefused (rtype_valid rtype) invalid _ db (content_check-IsRefused _)
    perform-IsRefused (remove_record_set name rtype) =
        guard-IsRefused (rtype_valid rtype) invalid _ db (content_check-IsRefused _)
