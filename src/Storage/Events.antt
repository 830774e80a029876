-- ===== src/Storage/Events.antt =====
-- The events of redis in internal/storage/data_handler.go: what the goroutine of NewDataHandler does to
-- the caches for a key that has changed.
use z.Prelude.{ℕ, Name, ◌≡◌, List, [], ◌∷◌, same, none, if◌then◌else◌}
use z.Types.Sets.{RrSet}
use z.Hiredis.Subscription.{event_key}
use z.Storage.{
  split_db_key, is_rr_set_entry, zone_locations_key, zone_config_key, zone_location_rr_set_key,
  zone_pub_key, zone_priv_key,
}
use z.Storage.Records.{Ristretto, DataHandlerConfig}

-- `keyParts[0]`, where splitDbKey answers one part at least.
abbrev pub first_part : List Name → Name
first_part [] = []
first_part (a ∷ parts) = a

-- Del of the ristretto library: the key is gone, and the others are as before.
pub record DropsKey {V : Type 0} (C : Ristretto V) : Type 0 where
  pub find_drop :
      (j k : Name) (s : C.Store)
      → C.find j (C.drop_key k s) ≡ (if same k j then none else C.find j s)

module _ {V : Type 0} (C : Ristretto RrSet) (Z : Ristretto V) where
  pub record Caches : Type 0 where
    pub records : C.Store
    pub zones : Z.Store

  -- The callback of the subscription to `keyPrefix + "*"`.
  unfoldable pub key_changed : Name → Caches → Caches
  unfolding split_db_key is_rr_set_entry
  key_changed key caches =
      let parts = split_db_key key in
      if is_rr_set_entry parts
      then record caches { records = C.drop_key key caches.records }
      else record caches { zones = Z.drop_key (first_part parts) caches.zones }

  -- A message of the subscription, with its channel.
  unfoldable pub on_event : DataHandlerConfig → Name → Name → Caches → Caches
  unfolding event_key key_changed
  on_event config db channel caches = key_changed (event_key config.redis db channel) caches

-- The entries that the data handler writes.
pub data Entry : Type 0 where
  record_set : Name → Name → ℕ → Entry
  zone_config zone_locations : Name → Entry
  public_key private_key : Name → Name → Entry

module _ (type_to_string : ℕ → Name) where
  abbrev pub entry_key : Entry → Name
  entry_key (record_set zone label rtype) = zone_location_rr_set_key type_to_string zone label rtype
  entry_key (zone_config zone) = zone_config_key zone
  entry_key (zone_locations zone) = zone_locations_key zone
  entry_key (public_key zone key_type) = zone_pub_key zone key_type
  entry_key (private_key zone key_type) = zone_priv_key zone key_type
