-- ===== src/Api/Isolated/Found.antt =====
-- What the reads of internal/api/database on one zone find: nothing that belongs to another zone.
use z.Prelude.{Name, same, same_iff, same_refl, ◌≡◌, sym, ap, ◌∙◌, true, false, ◌&&◌, some, arith}
use z.Api.Rows.{ObjectId, Zone, Location, RecordSet, Owned, Tables, has_row}
use z.Api.Rows.Found.{some_eq}
use z.Api.Database.{Engine}
use z.Api.Database.Access.{zone_row}
use z.Api.Database.Locations.{location_row}
use z.Api.Database.RecordSets.{rtype_valid, record_set_row}
use z.Api.Database.Reads.{bind_found, found_if, found_parts}
use z.Api.Database.Found.{
  found_owner, found_zone, found_zone_id, found_location, found_location_id, found_record_set,
}
use z.Api.Integrity.{IsSound, locations_clash, record_sets_clash}
use z.Api.Isolated.{only_row, find_row-holds}
use z.Api.Isolated.Content.{is_inside}

module _ (E : Engine) where
  same_both : (a b c : Name) → same a c ≡ true → same b c ≡ true → same a b ≡ true
  same_both a b c h k = (same_iff a b).1 ((same_iff a c).0 h ∙ sym ((same_iff b c).0 k))

  -- Sound tables, in which the name is not that of the other zone.
  pub record IsForeign (zone : Name) (other : ObjectId) (t : Tables) : Type 0 where
    pub sound : IsSound E.alike t
    pub foreign : (z : Owned Zone) → zone_row E zone t ≡ some z → same z.row.id other ≡ false

-- What is not the other zone, not a location of it, and not a record set of it, by its identifier.
abbrev pub IsElsewhere : ObjectId → ObjectId → Type 0
IsElsewhere other id = same id other ≡ false

module _ (other : ObjectId) (t : Tables) where
  abbrev pub IsOutside : ObjectId → Type 0
  IsOutside id = has_row (λ l. same l.row.id id && same l.parent other) t.locations ≡ false

  abbrev pub IsApart : ObjectId → Type 0
  IsApart id =
      has_row (λ r. same r.row.id id && is_inside other t.locations r) t.record_sets ≡ false

module _ (E : Engine) (user : Name) {zone : Name} {other : ObjectId} {t : Tables}
    (w : IsForeign E zone other t) where
  pub found_zone_id-IsElsewhere :
      {id : ObjectId} → found_zone_id E user zone t ≡ some id → IsElsewhere other id
  found_zone_id-IsElsewhere found =
      let (row, zone_found, is_id) =
        found_parts (found_zone E user zone t) (λ z. some z.id) found in
      let (z, read, is_row) =
        found_parts (bind_found (found_owner E user zone t) (λ _. zone_row E zone t))
          (λ z. some z.row) zone_found in
      let (u, owner, there) =
        found_parts (found_owner E user zone t) (λ _. zone_row E zone t) read in
      ap (λ i. same i other) (sym (some_eq is_id) ∙ ap (λ (z : Zone). z.id) (sym (some_eq is_row)))
      ∙ w.foreign z there

  location-IsOutside :
      (zone_id : ObjectId) (name : Name) (l : Owned Location)
      → IsElsewhere other zone_id
      → location_row E zone_id name t ≡ some l
      → IsOutside other t l.row.id
  unfolding location_row
  location-IsOutside zone_id name l apart found =
      let at_zone =
        find_row-holds (λ l. same l.parent zone_id && E.alike l.row.name name) t.locations found in
      only_row (locations_clash E.alike) (λ l. same l.parent zone_id && E.alike l.row.name name)
        (λ x. same x.row.id l.row.id) (λ x. same x.parent other) t.locations
        w.sound.unique_locations
        (λ y z h k. ground (arith, same_both E y.row.id z.row.id l.row.id h k)) found
        (same_refl l.row.id)
        (let is_it : l.parent ≡ zone_id = (same_iff l.parent zone_id).0 (ground (arith, at_zone)) in
          ap (λ i. same i other) is_it ∙ apart)

  pub found_location-IsOutside :
      (name : Name) {l : Location}
      → found_location E user zone t name ≡ some l
      → IsOutside other t l.id
  found_location-IsOutside name found =
      let (u, owner, in_zone) = found_parts (found_owner E user zone t) _ found in
      let (id, zone_found, at_name) = found_parts (found_zone_id E user zone t) _ in_zone in
      let (row, there, is_row) = found_parts (location_row E id name t) (λ l. some l.row) at_name in
      ap (λ (l : Location). has_row (λ x. same x.row.id l.id && same x.parent other) t.locations)
        (sym (some_eq is_row))
      ∙ location-IsOutside id name row (found_zone_id-IsElsewhere zone_found) there

  pub found_location_id-IsOutside :
      (name : Name) {id : ObjectId}
      → found_location_id E user zone t name ≡ some id
      → IsOutside other t id
  found_location_id-IsOutside name found =
      let (l, there, is_id) =
        found_parts (found_location E user zone t name) (λ l. some l.id) found in
      ap (λ i. has_row (λ x. same x.row.id i && same x.parent other) t.locations)
        (sym (some_eq is_id))
      ∙ found_location-IsOutside name there

  record_set-IsApart :
      (location_id : ObjectId) (rtype : Name) (r : Owned RecordSet)
      → IsOutside other t location_id
      → record_set_row E location_id rtype t ≡ some r
      → IsApart other t r.row.id
  unfolding record_set_row
  record_set-IsApart location_id rtype r outside found =
      let at_location =
        find_row-holds (λ x. same x.parent location_id && E.alike x.row.rtype rtype) t.record_sets
          found in
      let is_it : r.parent ≡ location_id =
        (same_iff r.parent location_id).0 (ground (arith, at_location)) in
      only_row (record_sets_clash E.alike)
        (λ x. same x.parent location_id && E.alike x.row.rtype rtype) (λ x. same x.row.id r.row.id)
        (is_inside other t.locations) t.record_sets w.sound.unique_record_sets
        (λ y z h k. ground (arith, same_both E y.row.id z.row.id r.row.id h k)) found
        (same_refl r.row.id)
        (ap (λ i. has_row (λ l. same l.row.id i && same l.parent other) t.locations) is_it
          ∙ outside)

  pub found_record_set-IsApart :
      (name rtype : Name) {r : RecordSet}
      → found_record_set E user zone t name rtype ≡ some r
      → IsApart other t r.id
  found_record_set-IsApart name rtype found =
      let (v, valid, owned) = found_parts (found_if (rtype_valid rtype)) _ found in
      let (u, owner, in_zone) = found_parts (found_owner E user zone t) _ owned in
      let (id, place, at_type) = found_parts (found_location_id E user zone t name) _ in_zone in
      let (row, there, is_row) =
        found_parts (record_set_row E id rtype t) (λ r. some r.row) at_type in
      ap
        (λ (r : RecordSet).
          has_row (λ x. same x.row.id r.id && is_inside other t.locations x) t.record_sets)
        (sym (some_eq is_row))
      ∙ record_set-IsApart id rtype row (found_location_id-IsOutside name place) there
