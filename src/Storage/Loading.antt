-- ===== src/Storage/Loading.antt =====
-- GetZone of internal/storage/data_handler.go, with the keys of a zone: loadKey and loadZoneKeys.
use z.Prelude.{
  ℕ, ◌+◌, ◌-◌, ◌%◌, ◌^◌, ◌==◌, Name, txt, false, Option, none, some, List, [], ◌∷◌, is_empty,
  if◌then◌else◌, leb, ◌&&◌,
}
use z.Types.Rr.{Rr, Rdata}
use z.Zone.{Zone, ZoneKey, ZoneConfig, new_zone, zone_config_from_json}
use z.Radix.{Radix}
use z.Dnssec.{Signer, sign_rr_set}
use z.Hiredis.{Result, ok, err, Redigo, get}
use z.Hiredis.Scan.{s_members}
use z.Storage.{zone_pub_key, zone_priv_key, zone_locations_key, zone_config_key}
use z.Storage.Records.{Ristretto, DataHandlerConfig}

-- dns.NewRR on a DNSKEY record, DNSKEY.NewPrivateKey, the JSON library on a configuration, dns.Fqdn,
-- and the order of Go's range over a map.
pub record Library : Type 0 where
  pub new_dnskey : Name → Option Rr
  pub new_private_key : Rr → Name → Option Name
  pub unmarshal_config : Name → ZoneConfig → ZoneConfig
  pub fqdn : Name → Name
  pub range : List Name → List Name

-- `strings.Replace(privStr, "\\n", "\n", -1)`: a backslash and an n become a line feed.
unfoldable pub replace_newlines : Name → Name
replace_newlines [] = []
replace_newlines (c ∷ []) = c ∷ []
replace_newlines (c ∷ d ∷ rest) =
    let kept = replace_newlines (d ∷ rest) in
    let replaced = replace_newlines rest in if c == 92 && d == 110 then 10 ∷ replaced else c ∷ kept

-- `DnsKey.Flags = flags` and `DnsKey.Hdr.Ttl = ttl`
abbrev pub set_flags : ℕ → ZoneKey → ZoneKey
set_flags flags key = record key { dnskey = record key.dnskey { rdata = flagged key.dnskey.rdata } }
  where
    flagged : Rdata → Rdata
    flagged (Rdata.dnskey _ algorithm public) = Rdata.dnskey flags algorithm public
    flagged other = other

abbrev pub set_ttl : ℕ → ZoneKey → ZoneKey
set_ttl ttl key = record key { dnskey = record key.dnskey { ttl = ttl } }

-- `if zsk.Ttl != ksk.Ttl { zsk.Ttl = ksk.Ttl }`
abbrev pub same_ttl : ZoneKey → ZoneKey → ZoneKey
same_ttl zsk ksk = if zsk.dnskey.ttl == ksk.dnskey.ttl then zsk else set_ttl ksk.dnskey.ttl zsk

module _ {Tree : Type 0} where
  abbrev pub unsigned_zone : Zone Tree → Zone Tree
  unsigned_zone z = record z { config = record z.config { dnssec = false } }

  -- What becomes of the signature of the keys.
  abbrev pub with_signature : Zone Tree → Option Rr → Zone Tree
  with_signature z none = unsigned_zone z
  with_signature z (some rrsig) = record z { dnskey_sig = some rrsig }

-- The string that Get returns beside its error.
abbrev pub or_empty : Result Name → Name
or_empty (ok s) = s
or_empty (err e) = []

module _ (D : Redigo) (L : Library) (S : Signer) (config : DataHandlerConfig) where
  -- What loadKey makes of the two strings; `now` is the time in seconds, from the fourth hour of 1970.
  unfoldable pub parse_key : ℕ → Name → Name → Option ZoneKey
  unfolding replace_newlines
  parse_key now public private =
      if is_empty private then none else from_record (L.new_dnskey public)
    where
      with_private : Rr → Option Name → Option ZoneKey
      with_private rr none = none
      with_private rr (some pk) = some (record {
        dnskey = rr;
        private_key = pk;
        key_inception = (now - 10800) % 2 ^ 32;
        key_expiration = (now + 691200) % 2 ^ 32;
      })

      from_record : Option Rr → Option ZoneKey
      from_record none = none
      from_record (some rr) = with_private rr (L.new_private_key rr (replace_newlines private))

  unfoldable pub load_key : ℕ → Name → Name → D.Server → Option ZoneKey × D.Server
  unfolding parse_key
  load_key now zone key_type s =
      let (public, s1) = get D config.redis (zone_pub_key zone key_type) s in
      let (private, s2) = get D config.redis (zone_priv_key zone key_type) s1 in
      if is_empty (or_empty public)
      then (none, s1)
      else (parse_key now (or_empty public) (or_empty private), s2)

  module _ {Tree : Type 0} where
    -- The end of loadZoneKeys, with both keys.
    unfoldable pub sign_keys : Zone Tree → ZoneKey → ZoneKey → Zone Tree
    sign_keys z loaded_zsk loaded_ksk =
        let ksk = set_flags 257 loaded_ksk in
        let zsk = same_ttl (set_flags 256 loaded_zsk) ksk in
        with_signature (record z { zsk = some zsk; ksk = some ksk })
          (sign_rr_set S (zsk.dnskey ∷ ksk.dnskey ∷ []) z.name ksk ksk.dnskey.ttl)

    -- What becomes of the KSK.
    unfoldable pub with_ksk : Zone Tree → ZoneKey → Option ZoneKey → Zone Tree
    unfolding sign_keys
    with_ksk z zsk none = unsigned_zone (record z { zsk = some zsk; ksk = none })
    with_ksk z zsk (some ksk) = sign_keys z zsk ksk

    -- The KSK is read once there is a ZSK.
    unfoldable pub with_zsk : ℕ → Zone Tree → Option ZoneKey × D.Server → Zone Tree × D.Server
    unfolding load_key with_ksk
    with_zsk now z (none, s) = (unsigned_zone (record z { zsk = none }), s)
    with_zsk now z (some key, s) =
        let (ksk, s2) = load_key now z.name (txt "ksk") s in (with_ksk z key ksk, s2)

    unfoldable pub load_zone_keys : ℕ → Zone Tree → D.Server → Zone Tree × D.Server
    unfolding load_key with_zsk
    load_zone_keys now z s =
        let loaded = with_zsk now z (load_key now z.name (txt "zsk") s) in
        if z.config.dnssec then loaded else (z, s)

-- The zone that GetZone returns (`none` for nil), and what the data handler holds.
module _ (D : Redigo) (L : Library) (S : Signer) (config : DataHandlerConfig)
    (T : Radix (Option Name)) (C : Ristretto (Zone T.Tree)) where
  pub record ZoneState : Type 0 where
    pub server : D.Server
    pub zone_cache : C.Store

  -- The function of the flight group, from the list of locations on; the times are those of the
  -- configuration's serial, of the keys and of the timeout.
  unfoldable pub build_zone :
      ℕ → ℕ → ℕ → Name → List Name → ZoneState → Option (Zone T.Tree) × ZoneState
  unfolding load_zone_keys
  build_zone serial_time key_time cache_time zone locations st =
      let (config_str, s1) = get D config.redis (zone_config_key zone) st.server in
      let parsed =
        zone_config_from_json L.unmarshal_config L.fqdn serial_time zone (or_empty config_str) in
      let (loaded, s2) =
        load_zone_keys D L S config key_time (new_zone T zone locations parsed) s1 in
      let z = record loaded { cache_timeout = cache_time + config.zone_cache_timeout } in
      (some z, record { server = s2; zone_cache = C.put zone z st.zone_cache })

  -- What follows the read of the locations; an error leaves the zone of the cache.
  unfoldable pub finish :
      ℕ
      → ℕ
      → ℕ
      → Name
      → Option (Zone T.Tree)
      → ZoneState
      → Option (Result (List Name)) × D.Server
      → Option (Option (Zone T.Tree)) × ZoneState
  unfolding build_zone
  finish serial_time key_time cache_time zone stale st (none, s) = (none, record st { server = s })
  finish serial_time key_time cache_time zone stale st (some (err e), s) =
      (some stale, record st { server = s })
  finish serial_time key_time cache_time zone stale st (some (ok locations), s) =
      let (z, st') =
        build_zone serial_time key_time cache_time zone locations (record st { server = s }) in
      (some z, st')

  -- The zone of the cache, while it has not timed out.
  abbrev pub unless_fresh :
      ℕ
      → ZoneState
      → Option (Option (Zone T.Tree)) × ZoneState
      → Option (Zone T.Tree)
      → Option (Option (Zone T.Tree)) × ZoneState
  unless_fresh now st loaded none = loaded
  unless_fresh now st loaded (some z) =
      if leb now z.cache_timeout then (some (some z), st) else loaded

  -- GetZone; `none` is the end of the fuel of SMembers.
  unfoldable pub get_zone :
      ℕ → ℕ → ℕ → ℕ → ℕ → Name → ZoneState → Option (Option (Zone T.Tree)) × ZoneState
  unfolding finish
  get_zone fuel now serial_time key_time cache_time zone st =
      let stale = C.find zone st.zone_cache in
      let fresh =
        finish serial_time key_time cache_time zone stale st
          (s_members D config.redis L.range (zone_locations_key zone) fuel st.server) in
      unless_fresh now st fresh stale
