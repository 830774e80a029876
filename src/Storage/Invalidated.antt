-- ===== src/Storage/Invalidated.antt =====
-- A change of an entry in redis drops what the caches of internal/storage/data_handler.go hold of it,
-- and nothing else.
use mathlib.Core.Path.{sym, subst}
use z.Prelude.{
  ℕ, Name, txt, same, ◌≡◌, refl, ap, ◌∙◌, Bool, true, false, ◌&&◌, not, none, List, [], ◌∷◌, ◌++◌,
  if◌then◌else◌,
}
use z.Types.Sets.{RrSet}
use z.Hiredis.{Redigo, stored_key}
use z.Hiredis.Subscription.{channel_prefix}
use z.Hiredis.Subscription.Channel.{event_key-stored_key}
use z.Storage.{
  colon, key_prefix, zone_pub_key, zone_priv_key, zone_locations_key, zone_config_key, split_colon,
  split_db_key, is_rr_set_entry,
}
use z.Storage.Keys.{
  colon_free, split_colon-cons, split_colon-two, split_db_key-append,
  split_db_key-zone_location_rr_set_key,
}
use z.Storage.Records.{Ristretto, DataHandlerConfig}
use z.Storage.Events.{
  first_part, DropsKey, Caches, key_changed, on_event, Entry, record_set, zone_config,
  zone_locations, public_key, private_key, entry_key,
}

abbrev pub is_record_set : Entry → Bool
is_record_set (record_set zone label rtype) = true
is_record_set _ = false

abbrev pub zone_of : Entry → Name
zone_of (record_set zone label rtype) = zone
zone_of (zone_config zone) = zone
zone_of (zone_locations zone) = zone
zone_of (public_key zone key_type) = zone
zone_of (private_key zone key_type) = zone

module _ (type_to_string : ℕ → Name) where
  -- No colon stands in the names that the key is made of.
  abbrev pub IsColonFree : Entry → Type 0
  IsColonFree (record_set zone label rtype) =
      (colon_free zone ≡ true)
      × (colon_free label ≡ true)
      × (colon_free (type_to_string rtype) ≡ true)
  IsColonFree (public_key zone key_type) = (colon_free zone ≡ true) × (colon_free key_type ≡ true)
  IsColonFree (private_key zone key_type) = (colon_free zone ≡ true) × (colon_free key_type ≡ true)
  IsColonFree (zone_config zone) = colon_free zone ≡ true
  IsColonFree (zone_locations zone) = colon_free zone ≡ true

  abbrev IsOf : Entry → List Name → Type 0
  IsOf e parts = (is_rr_set_entry parts ≡ is_record_set e) × (first_part parts ≡ zone_of e)

  key_parts :
      (zone key_type kind : Name)
      → colon_free zone ≡ true
      → colon_free key_type ≡ true
      → colon_free kind ≡ true
      → split_colon (zone ++ colon ∷ (key_type ++ colon ∷ kind)) ≡ (zone, key_type ∷ kind ∷ [])
  key_parts zone key_type kind z k f =
      split_colon-cons zone (key_type ++ colon ∷ kind) z ∙ rw (split_colon-two key_type kind k f)

  parts-IsOf :
      (e : Entry) (rest : Name) {parts : Name × List Name}
      → split_colon rest ≡ parts
      → IsOf e (parts.0 ∷ parts.1)
      → IsOf e (split_db_key (key_prefix ++ rest))
  parts-IsOf e rest h is =
      subst (IsOf e) (sym (split_db_key-append rest ∙ ap (λ p. p.0 ∷ p.1) h)) is

  entry-IsOf : (e : Entry) → IsColonFree e → IsOf e (split_db_key (entry_key type_to_string e))
  unfolding is_rr_set_entry zone_config_key zone_locations_key zone_pub_key zone_priv_key
  entry-IsOf (record_set zone label rtype) (z, l, t) =
      let (parts, is) =
        split_db_key-zone_location_rr_set_key type_to_string zone label rtype z l t in
      (is, ap first_part parts)
  entry-IsOf (zone_config zone) z =
      parts-IsOf (zone_config zone) _ (split_colon-two zone (txt "config") z refl) (refl, refl)
  entry-IsOf (zone_locations zone) z =
      parts-IsOf (zone_locations zone) _ (split_colon-two zone (txt "labels") z refl) (refl, refl)
  entry-IsOf (public_key zone key_type) (z, k) =
      parts-IsOf (public_key zone key_type) _ (key_parts zone key_type (txt "pub") z k refl)
        (refl, refl)
  entry-IsOf (private_key zone key_type) (z, k) =
      parts-IsOf (private_key zone key_type) _ (key_parts zone key_type (txt "priv") z k refl)
        (refl, refl)

module _ {V : Type 0} (C : Ristretto RrSet) (Z : Ristretto V) (laws : DropsKey C)
    (zone_laws : DropsKey Z) where
  -- What is left of the two caches.
  abbrev pub Dropped : Bool → Name → Name → Caches C Z → Caches C Z → Type 0
  Dropped is_record key zone before after =
      ((j : Name)
        → C.find j after.records
          ≡ (if is_record && same key j then none else C.find j before.records))
      × ((j : Name)
          → Z.find j after.zones
            ≡ (if not is_record && same zone j then none else Z.find j before.zones))

  drops :
      (b : Bool) (key zone : Name) (c : Caches C Z)
      → Dropped b key zone c (
          if b
          then record c { records = C.drop_key key c.records }
          else record c { zones = Z.drop_key zone c.zones })
  drops true key zone c = (λ j. laws.find_drop j key c.records, λ j. refl)
  drops false key zone c = (λ j. refl, λ j. zone_laws.find_drop j zone c.zones)

  key_changed-Dropped :
      (type_to_string : ℕ → Name) (e : Entry) (c : Caches C Z)
      → IsColonFree type_to_string e
      → Dropped
          (is_record_set e)
          (entry_key type_to_string e)
          (zone_of e)
          c
          (key_changed C Z (entry_key type_to_string e) c)
  unfolding key_changed
  key_changed-Dropped type_to_string e c free =
      let key = entry_key type_to_string e in
      let (is, zone) = entry-IsOf type_to_string e free in
      rw (is, zone) (drops (is_record_set e) key (zone_of e) c)

  -- For every entry that the data handler writes, a record set, a zone's configuration, its list of
  -- locations or one of its keys, with no colon in its names: the event of its key in redis drops
  -- the set from the record cache if the entry is a record set, or else the zone from the zone
  -- cache, and leaves all else in both caches.
  pub on_event-Dropped :
      (R : Redigo) (config : DataHandlerConfig) (db : Name) (type_to_string : ℕ → Name) (e : Entry)
      (c : Caches C Z)
      → IsColonFree type_to_string e
      → Dropped (is_record_set e) (entry_key type_to_string e) (zone_of e) c (
          on_event C Z config db
            (channel_prefix db ++ stored_key R config.redis (entry_key type_to_string e))
            c)
  unfolding on_event
  on_event-Dropped R config db type_to_string e c free =
      rw (event_key-stored_key R config.redis db (entry_key type_to_string e))
        (key_changed-Dropped type_to_string e c free)
