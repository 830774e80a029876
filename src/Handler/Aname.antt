-- ===== src/Handler/Aname.antt =====
-- findANAME of internal/handler/handler.go. The number of rounds left is the source's `loopCount`
-- counted down from 11: its test fails the request at the twelfth round.
use z.Prelude.{
  ℕ, zero, suc, Name, same, Option, none, some, List, [], ◌∷◌, is_empty, ◌==◌, ◌||◌, not,
  if◌then◌else◌,
}
use z.Types.Rr.{Ip, Rr, Rdata, type_a, type_aaaa, rcode_success, rcode_server_failure}
use z.Types.Sets.{IpRrSet}
use z.Zone.{Zone, no_match}
use z.Handler.World.{World}
use z.Handler.Addresses.{filter}

-- The addresses, the response code and the TTL.
pub record Found : Type 0 where
  pub ips : List Ip
  pub code : ℕ
  pub ttl : ℕ

abbrev pub aname_failure : Found
aname_failure = record { ips = []; code = rcode_server_failure; ttl = 0 }

-- The addresses of the records of the asked type among the answers of the upstream.
upstream_ips : ℕ → List Rr → List Ip
upstream_ips qtype [] = []
upstream_ips qtype (r ∷ rest) =
    let later = upstream_ips qtype rest in
    elim r.rdata [
      | Rdata.a ip ↦ if qtype == type_a then ip ∷ later else later
      | Rdata.aaaa ip ↦ if qtype == type_a then later else ip ∷ later
      | _ ↦ later
    ]

first_ttl : List Rr → ℕ
first_ttl [] = 0
first_ttl (r ∷ rest) = r.ttl

from_upstream : ℕ → List Rr → ℕ → Found
unfolding upstream_ips first_ttl
from_upstream qtype answers code =
    if code == rcode_success
    then record { ips = upstream_ips qtype answers; code = code; ttl = first_ttl answers }
    else aname_failure

module _ {Tree : Type 0} (W : World Tree) (zone : Zone Tree) (source : Ip) (qtype : ℕ) where
  open W use {Store, find_location, find_zone, a, aaaa, cname, aname, upstream}

  -- What a round ends with: an answer, or the next name to look at.
  pub data AnameRound : Type 0 where
    stop : Found → AnameRound
    follow : Name → AnameRound

  -- The addresses of the location, if it has a set of the asked type: `none` leaves the round open.
  own_addresses : Option IpRrSet → Store → Option Found × Store
  own_addresses none s = (some aname_failure, s)
  own_addresses (some rrset) s =
      if is_empty rrset.data_list
      then (none, s)
      else let (ips, s') = filter W source rrset s in
        (some (record { ips = ips; code = rcode_success; ttl = rrset.ttl_value }), s')

  read_addresses : Name → Store → Option Found × Store
  unfolding own_addresses
  read_addresses location s =
      if qtype == type_a
      then (let (found, s') = a zone.name location s in own_addresses found s')
      else if qtype == type_aaaa
      then (let (found, s') = aaaa zone.name location s in own_addresses found s')
      else (none, s)

  follow_aname : Name → Store → AnameRound × Store
  follow_aname location s =
      let (found, s') = aname zone.name location s in
      elim found [
        | none ↦ (stop aname_failure, s')
        | some rrset ↦
            if is_empty rrset.location
            then (stop (record { ips = []; code = rcode_success; ttl = 0 }), s')
            else (follow rrset.location, s')
      ]

  -- The round at a location, behind the test for NoMatch.
  at_location : Name → Store → AnameRound × Store
  unfolding read_addresses follow_aname
  at_location location s =
      let (found, s₁) = cname zone.name location s in
      elim found [
        | none ↦ (stop aname_failure, s₁)
        | some rrset ↦
            if not (is_empty rrset.host)
            then (follow rrset.host, s₁)
            else (let (own, s₂) = read_addresses location s₁ in
                elim own [ none ↦ follow_aname location s₂ | some result ↦ (stop result, s₂) ])
      ]

  unfoldable pub aname_round : Name → Store → AnameRound × Store
  unfolding at_location from_upstream
  aname_round qname s =
      let (zone_name, s₁) = find_zone qname s in
      if is_empty zone_name || not (same zone_name zone.name)
      then (let ((answers, code), s₂) = upstream qname qtype s₁ in
          (stop (from_upstream qtype answers code), s₂))
      else (let (location, match) = find_location zone qname in
          elim match [ no_match ↦ (stop aname_failure, s₁) | _ ↦ at_location location s₁ ])

  unfoldable pub find_aname_loop : ℕ → Name → Store → Found × Store
  find_aname_loop zero qname s = (aname_failure, s)
  find_aname_loop (suc rounds) qname s =
      let (next, s') = aname_round qname s in
      elim next [ stop result ↦ (result, s') | follow name ↦ find_aname_loop rounds name s' ]

  unfoldable pub find_aname : Name → Store → Found × Store
  unfolding find_aname_loop
  find_aname aname_name s = find_aname_loop 11 aname_name s
