-- ===== src/Tests/Records.antt =====
-- The theorems of Storage on record sets and zones over the server of Tests/Redis.
use z.Prelude.{
  ℕ, ◌==◌, Name, txt, same, ◌≡◌, refl, Bool, true, false, ◌++◌, if◌then◌else◌, Option, none, some,
  [], ◌∷◌, arith,
}
use z.Types.Rr.{type_cname, class_inet, Rr, Rdata}
use z.Types.Sets.{RrSet, CnameRrSet}
use z.Hiredis.{failed, Result, ok, err}
use z.Storage.Records.{Ristretto, Codec, DataHandlerConfig, State, get_rr_set}
use z.Hiredis.{s_add, get}
use z.Hiredis.Scan.{s_members}
use z.Storage.Loading
use z.Dnssec.{sign_rr_set}
use z.Storage.{
  zone_locations_key, zone_pub_key, zone_priv_key, zone_config_key, fix_ttl,
  zone_location_rr_set_key,
}
use z.Storage.Entries.{LocationEntry, sets_of, change_ttl, enable_location, set_sets, set_location}
use z.Storage.Typed.{set_of_type, type_name}
use z.Storage.Refreshed.{notified, set_location-event-get_rr_set}
use z.Tests.Caches.{cache_of, laws, drops}
use z.Zone.{new_zone, Zone, zone_config_from_json}
use z.Radix.{Radix}
use z.Storage.Loading.{Library, ZoneState, get_zone}
use z.Storage.Signed.{CanSign, OfSome, CacheCanSign, get_zone-CanSign}
use z.Tests.Tree.{assoc_radix}
use z.Tests.Signing.{signer}
use z.Tests.Redis.{Reply, server, values, config}

abbrev pub decode : Name → Result RrSet
decode [] = err (failed (txt "empty"))
decode (ttl ∷ host) = ok (RrSet.cname (record { ttl_value = ttl; host = host }))

abbrev pub encode : RrSet → Result Name
encode (RrSet.cname s) = ok (s.ttl_value ∷ s.host)
encode _ = err (failed (txt "unsupported"))

abbrev pub codec : Codec
codec = record {
  type_to_string = λ t. t ∷ [];
  marshal = encode;
  unmarshal = λ result json. decode json;
  is_nil = λ e. false;
}

abbrev pub settings : DataHandlerConfig
settings = record {
  zone_cache_timeout = 60;
  record_cache_timeout = 60;
  redis = config;
  min_ttl = 5;
  max_ttl = 3600;
}

abbrev cname_set : CnameRrSet
cname_set = record { ttl_value = 1; host = txt "z." }

abbrev entry : LocationEntry
entry = record {
  a = none;
  aaaa = none;
  cname = some cname_set;
  txt_set = none;
  ns = none;
  mx = none;
  srv = none;
  caa = none;
  ptr = none;
  tlsa = none;
  ds = none;
  aname = none;
}

abbrev start : State server (cache_of RrSet)
start = record {
  server = [];
  record_cache =
      (
        zone_location_rr_set_key codec.type_to_string (txt "z.") (txt "www") type_cname,
        RrSet.cname cname_set,
      )
      ∷ [];
}

apart :
    (t : ℕ)
    → (t == type_cname) ≡ false
    → same (type_name codec t) (type_name codec type_cname) ≡ false
apart t h = ground (arith, h)

stores : (set_location server codec settings (txt "z.") (txt "www") (ok entry) []).0 ≡ ok tt
unfolding set_location set_sets enable_location s_add
stores = refl

abbrev clamped : RrSet → RrSet
clamped = change_ttl (λ ttl. fix_ttl ttl 5 3600)

found : set_of_type type_cname (sets_of entry) ≡ some (RrSet.cname cname_set)
unfolding sets_of
found = refl

coded : encode (clamped (RrSet.cname cname_set)) ≡ ok (5 ∷ txt "z.")
unfolding change_ttl fix_ttl
coded = refl

coded_back : decode (5 ∷ txt "z.") ≡ ok (clamped (RrSet.cname cname_set))
unfolding change_ttl fix_ttl
coded_back = refl

set_location-event-get_rr_set_example :
    (get_rr_set server
      (cache_of RrSet)
      codec
      settings
      1
      (txt "z.")
      (txt "www")
      type_cname
      (RrSet.cname cname_set)
      (notified server values
        (cache_of RrSet)
        codec
        settings
        (txt "z.")
        (txt "www")
        (cache_of Name)
        (drops RrSet)
        (drops Name)
        (txt "0")
        entry
        type_cname
        []
        start)).0
    ≡ ok (clamped (RrSet.cname cname_set))
set_location-event-get_rr_set_example =
    set_location-event-get_rr_set server values (cache_of RrSet) codec settings (txt "z.")
      (txt "www") (cache_of Name) (drops RrSet) (drops Name) (txt "0") entry 1 type_cname
      (RrSet.cname cname_set) (RrSet.cname cname_set) (5 ∷ txt "z.") [] start (refl, refl, refl)
      apart refl (λ s. (Reply.bulk (txt "OK"), refl)) stores found coded refl coded_back

-- A zone with DNSSEC and both its keys, of different TTLs.
abbrev dnskey_record : Name → Rr
dnskey_record public = record {
  name = txt "z.";
  rrtype = 48;
  class = class_inet;
  ttl = if same public (txt "zsk") then 300 else 600;
  rdata = Rdata.dnskey 0 13 public;
}

abbrev library : Library
library = record {
  new_dnskey = λ s. some (dnskey_record s);
  new_private_key = λ r s. some s;
  unmarshal_config = λ s c. record c { dnssec = true };
  fqdn = λ s. s;
  range = λ l. l;
}

abbrev tree : Radix (Option Name)
tree = assoc_radix (Option Name)

abbrev zone_cache : Ristretto (Zone tree.Tree)
zone_cache = cache_of (Zone tree.Tree)

abbrev at : Name → Name
at key = txt "p:" ++ key

abbrev cold : ZoneState server library signer settings tree zone_cache
cold = record {
  server =
      (at (zone_pub_key (txt "z.") (txt "zsk")), txt "zsk")
      ∷ (at (zone_priv_key (txt "z.") (txt "zsk")), txt "p")
      ∷ (at (zone_pub_key (txt "z.") (txt "ksk")), txt "ksk")
      ∷ (at (zone_priv_key (txt "z.") (txt "ksk")), txt "p")
      ∷ (at (zone_config_key (txt "z.")), txt "{}")
      ∷ [];
  zone_cache = [];
}

abbrev loaded :
    Option (Option (Zone tree.Tree)) × ZoneState server library signer settings tree zone_cache
loaded =
    get_zone server library signer settings tree zone_cache 5 1000 1000 1000 1000 (txt "z.") cold

abbrev is_signed : Option (Option (Zone tree.Tree)) → Bool
is_signed (some (some z)) = elim z.dnskey_sig [ none ↦ false | some rr ↦ z.config.dnssec ]
is_signed _ = false

-- The zone that comes back signs.
signs : is_signed loaded.0 ≡ true
unfolding get_zone Loading.finish Loading.build_zone Loading.load_zone_keys Loading.with_zsk
    Loading.load_key Loading.parse_key Loading.replace_newlines Loading.with_ksk Loading.sign_keys
    sign_rr_set s_members get zone_pub_key zone_priv_key zone_config_key zone_locations_key
    zone_config_from_json new_zone
signs = refl

get_zone-CanSign_example :
    OfSome (OfSome (CanSign signer)) loaded.0
    × CacheCanSign server library signer settings tree zone_cache (laws _) loaded.1
get_zone-CanSign_example =
    get_zone-CanSign server library signer settings tree zone_cache (laws _) 5 1000 1000 1000 1000
      (txt "z.") cold (λ k. tt)
