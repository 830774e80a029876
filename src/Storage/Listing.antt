-- ===== src/Storage/Listing.antt =====
-- The lists of zones and of locations that internal/storage/data_handler.go reads from redis, and Clear.
pub mod Found
use z.Prelude.{ℕ, Name, txt, Option, none, some, List, []}
use z.Zone.{Zone, ZoneConfig}
use z.Radix.{Radix}
use z.Dnssec.{Signer}
use z.Hiredis.{Result, ok, err, failed, Redigo}
use z.Hiredis.Scan.{s_members, del}
use z.Storage.{load_zones}
use z.Storage.Records.{Codec, Ristretto, DataHandlerConfig}
use z.Storage.Loading.{Library, ZoneState, get_zone}
use z.Storage.Entries.{set_zone_config_from_json}

abbrev pub zones_key : Name
zones_key = txt "z42:zones"

abbrev pub members_of : {A : Type 0} → Result A → Option A
members_of (ok l) = some l
members_of (err e) = none

-- `order` is the order of Go's range over a map; `none` is the end of the fuel of SMembers.
module _ (D : Redigo) (config : DataHandlerConfig) (order : List Name → List Name) where
  -- LoadZones, with its read.
  unfoldable pub read_zones : (T : Radix Name) → ℕ → T.Tree → D.Server → Option T.Tree × D.Server
  read_zones T fuel zones s = loaded (s_members D config.redis order zones_key fuel s)
    where
      loaded : Option (Result (List Name)) × D.Server → Option T.Tree × D.Server
      loaded (none, s) = (none, s)
      loaded (some answer, s) = (some (load_zones T (members_of answer) zones), s)

  -- GetZones: nil, which is the empty list, after an error.
  unfoldable pub get_zones : ℕ → D.Server → Option (List Name) × D.Server
  get_zones fuel s = listed_zones (s_members D config.redis order zones_key fuel s)
    where
      listed_zones : Option (Result (List Name)) × D.Server → Option (List Name) × D.Server
      listed_zones (none, s) = (none, s)
      listed_zones (some (err e), s) = (some [], s)
      listed_zones (some (ok domains), s) = (some domains, s)

  -- Clear
  unfoldable pub clear : ℕ → D.Server → Option (Result (Unit {0})) × D.Server
  clear fuel s = del D config.redis order (txt "*") fuel s

-- SetZoneConfig, over the Json library.
module _ (D : Redigo) (J : Codec) (config : DataHandlerConfig)
    (marshal : ZoneConfig → Result Name) where
  unfoldable pub set_zone_config : Name → ZoneConfig → D.Server → Result (Unit {0}) × D.Server
  set_zone_config zone c s = store (marshal c)
    where
      store : Result Name → Result (Unit {0}) × D.Server
      store (err e) = (err e, s)
      store (ok json) = set_zone_config_from_json D J config zone json s

module _ (D : Redigo) (L : Library) (S : Signer) (config : DataHandlerConfig)
    (T : Radix (Option Name)) (C : Ristretto (Zone T.Tree)) where
  -- What GetZoneConfig and GetZoneLocations make of the zone.
  unfoldable pub config_of : Option (Zone T.Tree) → Result ZoneConfig
  config_of none = err (failed (txt "cannot get zone"))
  config_of (some z) = ok z.config

  unfoldable pub locations_of : Option (Zone T.Tree) → List Name
  locations_of none = []
  locations_of (some z) = z.locations_list

  abbrev of_zone :
      {A : Type 0}
      → (Option (Zone T.Tree) → A)
      → Option (Option (Zone T.Tree)) × ZoneState D L S config T C
      → Option A × ZoneState D L S config T C
  of_zone f (none, st) = (none, st)
  of_zone f (some z, st) = (some (f z), st)

  unfoldable pub get_zone_config :
      ℕ
      → ℕ
      → ℕ
      → ℕ
      → ℕ
      → Name
      → ZoneState D L S config T C
      → Option (Result ZoneConfig) × ZoneState D L S config T C
  unfolding config_of
  get_zone_config fuel now serial_time key_time cache_time zone st =
      of_zone config_of (get_zone D L S config T C fuel now serial_time key_time cache_time zone st)

  unfoldable pub get_zone_locations :
      ℕ
      → ℕ
      → ℕ
      → ℕ
      → ℕ
      → Name
      → ZoneState D L S config T C
      → Option (List Name) × ZoneState D L S config T C
  unfolding locations_of
  get_zone_locations fuel now serial_time key_time cache_time zone st =
      of_zone locations_of
        (get_zone D L S config T C fuel now serial_time key_time cache_time zone st)
