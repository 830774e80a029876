-- ===== src/Api/Added/RecordSets.antt =====
-- AddRecordSet and GetRecordSet of internal/api/database/db.go: a record set that is added is read back.
use z.Prelude.{
  Name, same, same_refl, ◌≡◌, refl, sym, ap, ◌∙◌, true, false, ◌&&◌, ◌||◌, some, [], ◌∷◌, ◌++◌,
  arith,
}
use z.Api.Action.{ok, guard, invalid}
use z.Api.Rows.{
  RecordSet, Owned, ObjectId, Tables, has_row, place_record_set, store_record_set,
  insert_record_set,
}
use z.Api.Rows.Found.{find_row-added}
use z.Api.Database.{Engine, Db, user_row}
use z.Api.Database.Access.{zone_row, can_access_content}
use z.Api.Database.Locations.{location_row}
use z.Api.Database.RecordSets.{
  rtype_valid, location_of_content, record_set_row, add_record_set, get_record_set,
}
use z.Api.Database.Outcomes.{after_parts, guard_ok, insert_fresh_parts}
use z.Api.Database.Reads.{found_if, found_then, NoFault}
use z.Api.Database.Found.{
  found_owner, found_location_id, found_record_set, Reads-can_access_content,
  Reads-location_of_content, Reads-get_record_set,
}

module _ (E : Engine) where
  place_record_set_parts :
      (r : Owned RecordSet) (t : Tables) {u : Unit {0}}
      → (place_record_set E.alike r t).0 ≡ ok u
      → (has_row
            (λ x.
              same x.row.id r.row.id || (same x.parent r.parent && E.alike x.row.rtype r.row.rtype))
            t.record_sets
          ≡ false)
        × ((place_record_set E.alike r t).1 ≡ record t { record_sets = t.record_sets ++ r ∷ [] })
  unfolding place_record_set
  place_record_set_parts r t h = ground arith

  insert_record_set-placed :
      (r : Owned RecordSet) (t : Tables) (value : Name)
      → E.json r.row.value ≡ ok value
      → insert_record_set E.alike E.json r t
        ≡ place_record_set E.alike (record r { row = record r.row { value = value } }) t
  unfolding insert_record_set store_record_set
  insert_record_set-placed r t value h = rw h refl

  -- The row of a record set of a location.
  abbrev owned_record_set : RecordSet → ObjectId → ObjectId → Owned RecordSet
  owned_record_set r id parent = record { row = record r { id = id }; parent = parent }

  -- The tables after a record set was added.
  abbrev with_record_set : Owned RecordSet → Tables → Tables
  with_record_set r t = record t { record_sets = t.record_sets ++ r ∷ [] }

  record_set_row-with_record_set :
      (r : RecordSet) (t : Tables) (id parent : ObjectId)
      → E.alike r.rtype r.rtype ≡ true
      → has_row
          (λ x. same x.row.id id || (same x.parent parent && E.alike x.row.rtype r.rtype))
          t.record_sets
        ≡ false
      → record_set_row E parent r.rtype (with_record_set (owned_record_set r id parent) t)
        ≡ some (owned_record_set r id parent)
  unfolding record_set_row
  record_set_row-with_record_set r t id parent alike free =
      find_row-added (λ x. same x.parent parent && E.alike x.row.rtype r.rtype)
        (λ x. same x.row.id id) t.record_sets (owned_record_set r id parent) free
        (rw (same_refl parent, alike) refl)

  -- What is found before the record sets is found again after one was added.
  found_again :
      (user zone location rtype : Name) (t : Tables) (new : Owned RecordSet) {u : Unit {0}}
      {parent : ObjectId} {r : Owned RecordSet}
      → rtype_valid rtype ≡ true
      → found_owner E user zone t ≡ some u
      → found_location_id E user zone t location ≡ some parent
      → record_set_row E parent rtype (with_record_set new t) ≡ some r
      → found_record_set E user zone (with_record_set new t) location rtype ≡ some r.row
  unfolding user_row zone_row location_row
  found_again user zone location rtype t new valid owner place found =
      found_then _ (ap found_if valid)
        (found_then _ owner (found_then _ place (found_then (λ r. some r.row) found refl)))

  -- Where no statement fails and the database finds a type alike to itself: a record set that
  -- AddRecordSet adds is what GetRecordSet then reads for its user, zone, location and type, with
  -- the identifier that AddRecordSet returned and, for its value, the text that the JSON column
  -- holds for the one added.
  pub add_record_set-get_record_set :
      (no_fault : NoFault E) (user zone location : Name) (r : RecordSet) (db s : Db) {id : ObjectId}
      (value : Name)
      → E.alike r.rtype r.rtype ≡ true
      → E.json r.value ≡ ok value
      → add_record_set E user zone location r db ≡ (ok id, s)
      → (get_record_set E user zone location r.rtype s).0 ≡ ok (record r { id = id; value = value })
  unfolding add_record_set
  add_record_set-get_record_set no_fault user zone location r db s {id} value alike json h =
      let t = db.tables in
      let may = Reads-can_access_content E user zone t in
      let at_location = Reads-location_of_content E user zone t location in
      let (u, s1, e1, h1) = after_parts _ (can_access_content E user zone db) h in
      let left1 : s1.tables ≡ t = ap (λ p. p.1.tables) (sym e1) ∙ may.leaves db refl in
      let (u0, s0, e0, h0) = after_parts _ (guard (rtype_valid r.rtype) invalid s1) h1 in
      let (valid, stays) = guard_ok _ _ s1 s0 e0 in
      let left0 : s0.tables ≡ t = ap (λ (d : Db). d.tables) (sym stays) ∙ left1 in
      let (parent, s2, e2, h2) = after_parts _ (location_of_content E user zone location s0) h0 in
      let left2 : s2.tables ≡ t = ap (λ p. p.1.tables) (sym e2) ∙ at_location.leaves s0 left0 in
      let insertion =
        λ (i : ObjectId). insert_record_set E.alike E.json (owned_record_set r i parent) in
      let (inserted, left) = insert_fresh_parts E insertion s2 s h2 in
      let new = owned_record_set (record r { value = value }) id parent in
      let placed = insert_record_set-placed (owned_record_set r id parent) t value json in
      let inserted_here : (place_record_set E.alike new t).0 ≡ ok tt =
        ap (λ p. p.0) (sym placed) ∙ ap (λ x. (insertion id x).0) (sym left2) ∙ inserted in
      let (free, now) = place_record_set_parts new t inserted_here in
      let found =
        found_again user zone location r.rtype t new valid (may.answers db refl (ap (λ p. p.0) e1))
          (at_location.answers s0 left0 (ap (λ p. p.0) e2))
          (record_set_row-with_record_set (record r { value = value }) t id parent alike free) in
      (Reads-get_record_set E user zone (with_record_set new t) location r.rtype).succeeds no_fault
        s (left ∙ ap (λ x. (insertion id x).1) left2 ∙ ap (λ p. p.1) placed ∙ now) found
