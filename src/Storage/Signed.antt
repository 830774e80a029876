-- ===== src/Storage/Signed.antt =====
-- Zones that sign have their keys: loadZoneKeys and GetZone of internal/storage/data_handler.go.
use mathlib.Core.Path.{sym, subst}
use z.Prelude.{
  ℕ, ◌+◌, ◌==◌, ==_iff, Name, txt, ◌≡◌, refl, ap, [], ◌∷◌, Bool, true, false, Bool-cases, ◌⊎◌, inl,
  inr, Option, none, some, List, if◌then◌else◌, leb,
}
use z.Types.Rr.{Rr, Rdata}
use z.Zone.{Zone, ZoneKey, new_zone, zone_config_from_json}
use z.Radix.{Radix}
use z.Dnssec.{Signer, sign_rr_set}
use z.Hiredis.{Result, ok, err, Redigo, get}
use z.Hiredis.Scan.{s_members}
use z.Storage.{zone_locations_key, zone_config_key}
use z.Storage.Records.{Ristretto, DataHandlerConfig}
use z.Storage.Loading.{
  Library, or_empty, set_flags, set_ttl, same_ttl, with_signature, sign_keys, with_ksk, with_zsk,
  load_key, load_zone_keys, ZoneState, build_zone, finish, unless_fresh, get_zone,
}

module _ (S : Signer) where
  -- Both keys, with their flags and one TTL, and the signature of the two by the KSK.
  pub record HasKeys {Tree : Type 0} (z : Zone Tree) : Type 0 where
    pub zone_key : ZoneKey
    pub key_key : ZoneKey
    pub signature : Rr
    pub has_zsk : z.zsk ≡ some zone_key
    pub has_ksk : z.ksk ≡ some key_key
    pub has_signature : z.dnskey_sig ≡ some signature
    pub one_ttl : zone_key.dnskey.ttl ≡ key_key.dnskey.ttl
    pub zsk_flags : set_flags 256 zone_key ≡ zone_key
    pub ksk_flags : set_flags 257 key_key ≡ key_key
    pub signed :
        sign_rr_set S (zone_key.dnskey ∷ key_key.dnskey ∷ []) z.name key_key key_key.dnskey.ttl
        ≡ some signature

  -- The zone does not sign, or has what it takes.
  abbrev pub CanSign : {Tree : Type 0} → Zone Tree → Type 0
  CanSign z = (z.config.dnssec ≡ false) ⊎ HasKeys z

set_flags-again :
    (flags : ℕ) (k : ZoneKey) → set_flags flags (set_flags flags k) ≡ set_flags flags k
set_flags-again flags k = again k.dnskey.rdata
  where
    with_rdata : Rdata → ZoneKey
    with_rdata r = record k { dnskey = record k.dnskey { rdata = r } }

    again :
        (r : Rdata)
        → set_flags flags (set_flags flags (with_rdata r)) ≡ set_flags flags (with_rdata r)
    again (Rdata.dnskey _ algorithm public) = refl
    again other = refl

set_flags-same_ttl :
    (zsk ksk : ZoneKey)
    → set_flags 256 zsk ≡ zsk
    → set_flags 256 (same_ttl zsk ksk) ≡ same_ttl zsk ksk
set_flags-same_ttl zsk ksk h = elim (Bool-cases (zsk.dnskey.ttl == ksk.dnskey.ttl)) [
  | inl alike ↦ rw (alike, same_ttl) h
  | inr differ ↦ rw (differ, same_ttl) (ap (set_ttl ksk.dnskey.ttl) h)
]

same_ttl-eq : (zsk ksk : ZoneKey) → (same_ttl zsk ksk).dnskey.ttl ≡ ksk.dnskey.ttl
same_ttl-eq zsk ksk = elim (Bool-cases (zsk.dnskey.ttl == ksk.dnskey.ttl)) [
  | inl alike ↦ rw (alike, same_ttl) ((==_iff zsk.dnskey.ttl ksk.dnskey.ttl).0 alike)
  | inr differ ↦ rw (differ, same_ttl) refl
]

either_CanSign :
    (S : Signer) {Tree Server : Type 0} (b : Bool) (z : Zone Tree) (p : Zone Tree × Server)
    (s : Server)
    → z.config.dnssec ≡ b
    → CanSign S p.0
    → CanSign S (if b then p else (z, s)).0
either_CanSign S true z p s e h = h
either_CanSign S false z p s e h = inl e

module _ (D : Redigo) (L : Library) (S : Signer) (config : DataHandlerConfig) {Tree : Type 0} where
  with_signature-CanSign :
      (z : Zone Tree) (zsk ksk : ZoneKey) (o : Option Rr)
      → zsk.dnskey.ttl ≡ ksk.dnskey.ttl
      → set_flags 256 zsk ≡ zsk
      → set_flags 257 ksk ≡ ksk
      → sign_rr_set S (zsk.dnskey ∷ ksk.dnskey ∷ []) z.name ksk ksk.dnskey.ttl ≡ o
      → CanSign S (with_signature (record z { zsk = some zsk; ksk = some ksk }) o)
  with_signature-CanSign z zsk ksk none one zone_flags key_flags signed = inl refl
  with_signature-CanSign z zsk ksk (some rrsig) one zone_flags key_flags signed = inr (record {
    zone_key = zsk;
    key_key = ksk;
    signature = rrsig;
    has_zsk = refl;
    has_ksk = refl;
    has_signature = refl;
    one_ttl = one;
    zsk_flags = zone_flags;
    ksk_flags = key_flags;
    signed = signed;
  })

  with_ksk-CanSign :
      (z : Zone Tree) (zsk : ZoneKey) (o : Option ZoneKey)
      → CanSign S (with_ksk D L S config z zsk o)
  unfolding with_ksk sign_keys
  with_ksk-CanSign z zsk none = inl refl
  with_ksk-CanSign z zsk (some ksk) =
      with_signature-CanSign z (same_ttl (set_flags 256 zsk) (set_flags 257 ksk))
        (set_flags 257 ksk) _ (same_ttl-eq (set_flags 256 zsk) (set_flags 257 ksk))
        (set_flags-same_ttl (set_flags 256 zsk) (set_flags 257 ksk) (set_flags-again 256 zsk))
        (set_flags-again 257 ksk) refl

  with_zsk-CanSign :
      (now : ℕ) (z : Zone Tree) (p : Option ZoneKey × D.Server)
      → CanSign S (with_zsk D L S config now z p).0
  unfolding with_zsk
  with_zsk-CanSign now z (none, s) = inl refl
  with_zsk-CanSign now z (some zsk, s) = with_ksk-CanSign z zsk _

  pub load_zone_keys-CanSign :
      (now : ℕ) (z : Zone Tree) (s : D.Server) → CanSign S (load_zone_keys D L S config now z s).0
  unfolding load_zone_keys
  load_zone_keys-CanSign now z s =
      either_CanSign S z.config.dnssec z
        (with_zsk D L S config now z (load_key D L S config now z.name (txt "zsk") s)) s refl
        (with_zsk-CanSign now z _)

-- A cache holds what was put into it, or nothing.
pub record IsCache {V : Type 0} (C : Ristretto V) : Type 0 where
  pub find_put :
      (j k : Name) (v : V) (s : C.Store)
      → (C.find j (C.put k v s) ≡ none)
        ⊎ ((C.find j (C.put k v s) ≡ some v) ⊎ (C.find j (C.put k v s) ≡ C.find j s))

-- What is true of a value, if there is one.
abbrev pub OfSome : {V : Type 0} → (V → Type 0) → Option V → Type 0
OfSome P none = Unit
OfSome P (some v) = P v

timeout-CanSign :
    (S : Signer) {Tree : Type 0} (z : Zone Tree) (t : ℕ)
    → CanSign S z
    → CanSign S (record z { cache_timeout = t })
timeout-CanSign S z t (inl off) = inl off
timeout-CanSign S z t (inr keys) = inr (record {
  zone_key = keys.zone_key;
  key_key = keys.key_key;
  signature = keys.signature;
  has_zsk = keys.has_zsk;
  has_ksk = keys.has_ksk;
  has_signature = keys.has_signature;
  one_ttl = keys.one_ttl;
  zsk_flags = keys.zsk_flags;
  ksk_flags = keys.ksk_flags;
  signed = keys.signed;
})

module _ (D : Redigo) (L : Library) (S : Signer) (config : DataHandlerConfig)
    (T : Radix (Option Name)) (C : Ristretto (Zone T.Tree)) (laws : IsCache C) where
  -- Every zone of the cache can sign, or does not.
  abbrev pub CacheCanSign : ZoneState D L S config T C → Type 0
  CacheCanSign st = (k : Name) → OfSome (CanSign S) (C.find k st.zone_cache)

  put-CacheCanSign :
      (k : Name) (z : Zone T.Tree) (cache : C.Store)
      → CanSign S z
      → ((j : Name) → OfSome (CanSign S) (C.find j cache))
      → (j : Name) → OfSome (CanSign S) (C.find j (C.put k z cache))
  put-CacheCanSign k z cache h all j = elim (laws.find_put j k z cache) [
    | inl gone ↦ subst (OfSome (CanSign S)) (sym gone) tt
    | inr (inl new) ↦ subst (OfSome (CanSign S)) (sym new) h
    | inr (inr old) ↦ subst (OfSome (CanSign S)) (sym old) (all j)
  ]

  build_zone-CanSign :
      (serial_time key_time cache_time : ℕ) (zone : Name) (locations : List Name)
      (st : ZoneState D L S config T C)
      → CacheCanSign st
      → OfSome
          (CanSign S)
          (build_zone D L S config T C serial_time key_time cache_time zone locations st).0
        × CacheCanSign
            (build_zone D L S config T C serial_time key_time cache_time zone locations st).1
  unfolding build_zone
  build_zone-CanSign serial_time key_time cache_time zone locations st h =
      let parsed =
        zone_config_from_json L.unmarshal_config L.fqdn serial_time zone
          (or_empty (get D config.redis (zone_config_key zone) st.server).0) in
      let can = timeout-CanSign S _ (cache_time + config.zone_cache_timeout) (
        load_zone_keys-CanSign D L S config key_time (new_zone T zone locations parsed)
          (get D config.redis (zone_config_key zone) st.server).1) in
      (can, put-CacheCanSign zone _ st.zone_cache can h)

  -- What GetZone answers.
  abbrev pub AnswerCanSign : Option (Option (Zone T.Tree)) → Type 0
  AnswerCanSign = OfSome (OfSome (CanSign S))

  finish-CanSign :
      (serial_time key_time cache_time : ℕ) (zone : Name) (stale : Option (Zone T.Tree))
      (st : ZoneState D L S config T C) (p : Option (Result (List Name)) × D.Server)
      → OfSome (CanSign S) stale
      → CacheCanSign st
      → AnswerCanSign (finish D L S config T C serial_time key_time cache_time zone stale st p).0
        × CacheCanSign (finish D L S config T C serial_time key_time cache_time zone stale st p).1
  unfolding finish
  finish-CanSign serial_time key_time cache_time zone stale st (none, s) old h = (tt, h)
  finish-CanSign serial_time key_time cache_time zone stale st (some (err e), s) old h = (old, h)
  finish-CanSign serial_time key_time cache_time zone stale st (some (ok locations), s) old h =
      build_zone-CanSign serial_time key_time cache_time zone locations (record st { server = s }) h

  unless_fresh-CanSign :
      (now : ℕ) (st : ZoneState D L S config T C)
      (loaded : Option (Option (Zone T.Tree)) × ZoneState D L S config T C)
      (stale : Option (Zone T.Tree))
      → AnswerCanSign loaded.0 × CacheCanSign loaded.1
      → OfSome (CanSign S) stale
      → CacheCanSign st
      → AnswerCanSign (unless_fresh D L S config T C now st loaded stale).0
        × CacheCanSign (unless_fresh D L S config T C now st loaded stale).1
  unless_fresh-CanSign now st loaded none new old h = new
  unless_fresh-CanSign now st loaded (some z) new old h =
      elim (Bool-cases (leb now z.cache_timeout)) [
        | inl fresh ↦ rw (fresh, unless_fresh) (old, h)
        | inr late ↦ rw (late, unless_fresh) new
      ]

  -- If every zone of the zone cache either has DNSSEC switched off or holds its ZSK and its KSK,
  -- with their flags and one TTL, and the signature of just these two records by that KSK with that
  -- TTL, and the cache finds what was put into it or nothing, then the same is true of the zone
  -- that GetZone returns and of the cache that it leaves.
  pub get_zone-CanSign :
      (fuel now serial_time key_time cache_time : ℕ) (zone : Name) (st : ZoneState D L S config T C)
      → CacheCanSign st
      → AnswerCanSign (get_zone D L S config T C fuel now serial_time key_time cache_time zone st).0
        × CacheCanSign
            (get_zone D L S config T C fuel now serial_time key_time cache_time zone st).1
  unfolding get_zone
  get_zone-CanSign fuel now serial_time key_time cache_time zone st h =
      let fresh =
        finish-CanSign serial_time key_time cache_time zone (C.find zone st.zone_cache) st
          (s_members D config.redis L.range (zone_locations_key zone) fuel st.server) (h zone) h in
      unless_fresh-CanSign now st _ (C.find zone st.zone_cache) fresh (h zone) h
