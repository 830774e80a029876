-- ===== src/Storage/Entries.antt =====
-- Writing record sets in internal/storage/data_handler.go: SetRRSet and SetLocationFromJson.
use z.Prelude.{ℕ, Name, txt, Option, none, some, List, [], ◌∷◌}
use z.Types.Rr.{
  type_a, type_aaaa, type_cname, type_txt, type_ns, type_mx, type_srv, type_caa, type_ptr,
  type_tlsa, type_ds, type_aname,
}
use z.Types.Sets.{
  RrSet, IpRrSet, CnameRrSet, TxtRrSet, NsRrSet, MxRrSet, SrvRrSet, CaaRrSet, PtrRrSet, TlsaRrSet,
  DsRrSet, AnameRrSet,
}
use z.Hiredis.{Result, ok, err, Redigo, set_key, s_add, s_rem}
use z.Storage.{
  zone_location_rr_set_key, zone_locations_key, zone_config_key, zone_pub_key, zone_priv_key,
  fix_ttl,
}
use z.Storage.Records.{Codec, DataHandlerConfig}

-- locationEntry
pub record LocationEntry : Type 0 where
  pub a : Option IpRrSet
  pub aaaa : Option IpRrSet
  pub cname : Option CnameRrSet
  pub txt_set : Option TxtRrSet
  pub ns : Option NsRrSet
  pub mx : Option MxRrSet
  pub srv : Option SrvRrSet
  pub caa : Option CaaRrSet
  pub ptr : Option PtrRrSet
  pub tlsa : Option TlsaRrSet
  pub ds : Option DsRrSet
  pub aname : Option AnameRrSet

abbrev pub as_set : {A : Type 0} → (A → RrSet) → Option A → Option RrSet
as_set f none = none
as_set f (some s) = some (f s)

-- The sets in the order in which SetLocationFromJson stores them, each with its type.
unfoldable pub sets_of : LocationEntry → List (ℕ × Option RrSet)
sets_of entry =
    (type_a, as_set RrSet.ip entry.a)
    ∷ (type_aaaa, as_set RrSet.ip entry.aaaa)
    ∷ (type_cname, as_set RrSet.cname entry.cname)
    ∷ (type_txt, as_set RrSet.txt_set entry.txt_set)
    ∷ (type_ns, as_set RrSet.ns entry.ns)
    ∷ (type_mx, as_set RrSet.mx entry.mx)
    ∷ (type_srv, as_set RrSet.srv entry.srv)
    ∷ (type_caa, as_set RrSet.caa entry.caa)
    ∷ (type_ptr, as_set RrSet.ptr entry.ptr)
    ∷ (type_tlsa, as_set RrSet.tlsa entry.tlsa)
    ∷ (type_ds, as_set RrSet.ds entry.ds)
    ∷ (type_aname, as_set RrSet.aname entry.aname)
    ∷ []

-- `entry.X.TtlValue = f(entry.X.TtlValue)`
unfoldable pub change_ttl : (ℕ → ℕ) → RrSet → RrSet
change_ttl f (RrSet.ip s) = RrSet.ip (record s { ttl_value = f s.ttl_value })
change_ttl f (RrSet.cname s) = RrSet.cname (record s { ttl_value = f s.ttl_value })
change_ttl f (RrSet.txt_set s) = RrSet.txt_set (record s { ttl_value = f s.ttl_value })
change_ttl f (RrSet.ns s) = RrSet.ns (record s { ttl_value = f s.ttl_value })
change_ttl f (RrSet.mx s) = RrSet.mx (record s { ttl_value = f s.ttl_value })
change_ttl f (RrSet.srv s) = RrSet.srv (record s { ttl_value = f s.ttl_value })
change_ttl f (RrSet.caa s) = RrSet.caa (record s { ttl_value = f s.ttl_value })
change_ttl f (RrSet.ptr s) = RrSet.ptr (record s { ttl_value = f s.ttl_value })
change_ttl f (RrSet.tlsa s) = RrSet.tlsa (record s { ttl_value = f s.ttl_value })
change_ttl f (RrSet.ds s) = RrSet.ds (record s { ttl_value = f s.ttl_value })
change_ttl f (RrSet.aname s) = RrSet.aname (record s { ttl_value = f s.ttl_value })

module _ (R : Redigo) (J : Codec) (config : DataHandlerConfig) where
  unfoldable pub enable_location : Name → Name → R.Server → Result (Unit {0}) × R.Server
  enable_location zone location = s_add R config.redis (zone_locations_key zone) location

  unfoldable pub disable_location : Name → Name → R.Server → Result (Unit {0}) × R.Server
  disable_location zone location = s_rem R config.redis (zone_locations_key zone) location

  unfoldable pub enable_zone : Name → R.Server → Result (Unit {0}) × R.Server
  enable_zone zone s = add_zone (s_add R config.redis (zone_locations_key zone) (txt "@") s)
    where
      add_zone : Result (Unit {0}) × R.Server → Result (Unit {0}) × R.Server
      add_zone (err e, s) = (err e, s)
      add_zone (ok _, s) = s_add R config.redis (txt "z42:zones") zone s

  unfoldable pub disable_zone : Name → R.Server → Result (Unit {0}) × R.Server
  disable_zone zone = s_rem R config.redis (txt "z42:zones") zone

  unfoldable pub set_zone_config_from_json : Name → Name → R.Server → Result (Unit {0}) × R.Server
  set_zone_config_from_json zone value = set_key R config.redis (zone_config_key zone) value

  unfoldable pub set_zone_key : Name → Name → Name → Name → R.Server → Result (Unit {0}) × R.Server
  set_zone_key zone key_type public private s =
      set_private (set_key R config.redis (zone_pub_key zone key_type) public s)
    where
      set_private : Result (Unit {0}) × R.Server → Result (Unit {0}) × R.Server
      set_private (err e, s) = (err e, s)
      set_private (ok _, s) = set_key R config.redis (zone_priv_key zone key_type) private s

  unfoldable pub set_rr_set_from_json :
      Name → Name → ℕ → Name → R.Server → Result (Unit {0}) × R.Server
  set_rr_set_from_json zone label rtype value =
      set_key R config.redis (zone_location_rr_set_key J.type_to_string zone label rtype) value

  unfoldable pub set_rr_set : Name → Name → ℕ → RrSet → R.Server → Result (Unit {0}) × R.Server
  unfolding set_rr_set_from_json
  set_rr_set zone label rtype rrset s = elim (J.marshal rrset) [
    | err e ↦ (err e, s)
    | ok json ↦ set_rr_set_from_json zone label rtype json s
  ]

  -- The twelve tests of SetLocationFromJson, one after the other; an error of SetRRSet is logged.
  unfoldable pub set_each : Name → Name → List (ℕ × Option RrSet) → R.Server → R.Server
  unfolding set_rr_set change_ttl
  set_each zone location [] s = s
  set_each zone location ((rtype, none) ∷ rest) s = set_each zone location rest s
  set_each zone location ((rtype, some rrset) ∷ rest) s =
      let fixed = change_ttl (λ ttl. fix_ttl ttl config.min_ttl config.max_ttl) rrset in
      set_each zone location rest (set_rr_set zone location rtype fixed s).1

  -- What follows EnableLocation.
  unfoldable pub set_sets :
      Name → Name → LocationEntry → Result (Unit {0}) × R.Server → Result (Unit {0}) × R.Server
  unfolding set_each sets_of
  set_sets zone location entry (err e, s) = (err e, s)
  set_sets zone location entry (ok _, s) = (ok tt, set_each zone location (sets_of entry) s)

  -- SetLocationFromJson, from what the JSON library makes of its argument.
  unfoldable pub set_location :
      Name → Name → Result LocationEntry → R.Server → Result (Unit {0}) × R.Server
  unfolding enable_location set_sets
  set_location zone location (err e) s = (err e, s)
  set_location zone location (ok entry) s =
      set_sets zone location entry (enable_location zone location s)
