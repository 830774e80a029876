-- ===== src/Handler/Addresses.antt =====
-- The address records of internal/handler/handler.go: the filter by the place of the client, the
-- records of the addresses, and the glue of a delegation.
use z.Prelude.{ℕ, Name, str_eq, Option, none, some, List, [], ◌∷◌, ◌++◌, map, if◌then◌else◌}
use z.Types.Rr.{Ip, Rr, Rdata, type_a, type_aaaa, class_inet}
use z.Types.Sets.{IpRr, IpRrSet}
use z.Types.Values.{header}
use z.Geo.{Masked, white, get_same_country, get_same_asn, get_minimum_distance}
use z.Ordering.{order_ips}
use z.Zone.{Zone, no_match}
use z.Handler.World.{World}

unfoldable pub generate_a : Name → ℕ → List Ip → List Rr
generate_a name ttl [] = []
generate_a name ttl (none ∷ ips) = generate_a name ttl ips
generate_a name ttl (some ip ∷ ips) =
    header name type_a class_inet ttl (Rdata.a (some ip)) ∷ generate_a name ttl ips

unfoldable pub generate_aaaa : Name → ℕ → List Ip → List Rr
generate_aaaa name ttl [] = []
generate_aaaa name ttl (none ∷ ips) = generate_aaaa name ttl ips
generate_aaaa name ttl (some ip ∷ ips) =
    header name type_aaaa class_inet ttl (Rdata.aaaa (some ip)) ∷ generate_aaaa name ttl ips

abbrev pub all_marked_white : List IpRr → Masked
all_marked_white ips = map (λ ip. (ip, white)) ips

-- A panic of GetMinimumDistance would need an address that is not white; here all are.
abbrev pub or_empty : Option Masked → Masked
or_empty none = []
or_empty (some l) = l

module _ {Tree : Type 0} (W : World Tree) where
  open W use {Store, distances, find_location, a, aaaa, country, asn, distance, nanos}

  unfoldable pub geo_filter : Ip → IpRrSet → Masked
  geo_filter source rrset =
      let mask = all_marked_white rrset.data_list in
      let geo = rrset.filter_config.geo_filter in
      if str_eq geo "asn"
      then get_same_asn (asn source) mask
      else if str_eq geo "country"
      then get_same_country (country source) mask
      else if str_eq geo "asn+country"
      then get_same_country (country source) (get_same_asn (asn source) mask)
      else if str_eq geo "location"
      then or_empty (get_minimum_distance distances (distance source) mask)
      else mask

  -- filter, which reads the clock once
  unfoldable pub filter : Ip → IpRrSet → Store → List Ip × Store
  unfolding geo_filter
  filter source rrset s =
      let (now, s') = nanos s in (order_ips now rrset.filter_config (geo_filter source rrset), s')

  -- The two reads of the glue of one name server; an error leaves the section as it is.
  unfoldable pub glue_a : Name → Ip → Name → Name → Store → List Rr × Store
  glue_a zone source host location s =
      let (found, s₁) = a zone location s in
      elim found [
        | none ↦ ([], s₁)
        | some rrset ↦
            let (ips, s₂) = filter source rrset s₁ in (generate_a host rrset.ttl_value ips, s₂)
      ]

  unfoldable pub glue_aaaa : Name → Ip → Name → Name → Store → List Rr × Store
  glue_aaaa zone source host location s =
      let (found, s₁) = aaaa zone location s in
      elim found [
        | none ↦ ([], s₁)
        | some rrset ↦
            let (ips, s₂) = filter source rrset s₁ in (generate_aaaa host rrset.ttl_value ips, s₂)
      ]

  -- The loop over the name servers of a delegation.
  unfoldable pub glue : Zone Tree → Ip → List Name → Store → List Rr × Store
  unfolding glue_a glue_aaaa
  glue zone source [] s = ([], s)
  glue zone source (host ∷ hosts) s =
      let (location, found) = find_location zone host in
      elim found [
        | no_match ↦ glue zone source hosts s
        | _ ↦
            let (v4, s₁) = glue_a zone.name source host location s in
            let (v6, s₂) = glue_aaaa zone.name source host location s₁ in
            let (rest, s₃) = glue zone source hosts s₂ in (v4 ++ (v6 ++ rest), s₃)
      ]
