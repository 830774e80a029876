-- ===== src/Handler/World.antt =====
-- What internal/handler/handler.go works on: the request's context, and the interface through which
-- it reads zones, records, the upstream servers, the GeoIP database and the clock. Every read may
-- change the store behind the interface, so two reads of one record may differ.
use z.Prelude.{ℕ, Name, String, Bool, Option, List}
use z.Types.Rr.{Ip, Rr}
use z.Types.Sets.{
  IpRr, IpRrSet, CnameRrSet, TxtRrSet, NsRrSet, MxRrSet, SrvRrSet, CaaRrSet, PtrRrSet, TlsaRrSet,
  DsRrSet, AnameRrSet,
}
use z.Geo.{Distances}
use z.Zone.{Zone, Match}

-- The fields of RequestContext that the handler reads or writes; `name` is what RawName returns.
pub record Context : Type 0 where
  pub name : Name
  pub qtype : ℕ
  pub do_bit : Bool
  pub auth : Bool
  pub source_ip : Ip
  pub res : ℕ
  pub dnssec : Bool
  pub answer : List Rr
  pub authority : List Rr
  pub additional : List Rr

-- The reads of storage.DataHandler, upstream.Upstream, geoip.GeoIp and time.Now. A record read
-- returns `none` for an error.
pub record World (Tree : Type 0) : Type 1 where
  pub Store : Type 0
  pub distances : Distances
  pub find_location : Zone Tree → Name → Name × Match
  pub find_zone : Name → Store → Name × Store
  pub get_zone : Name → Store → Option (Zone Tree) × Store
  pub a : Name → Name → Store → Option IpRrSet × Store
  pub aaaa : Name → Name → Store → Option IpRrSet × Store
  pub cname : Name → Name → Store → Option CnameRrSet × Store
  pub txt_set : Name → Name → Store → Option TxtRrSet × Store
  pub ns : Name → Name → Store → Option NsRrSet × Store
  pub mx : Name → Name → Store → Option MxRrSet × Store
  pub srv : Name → Name → Store → Option SrvRrSet × Store
  pub caa : Name → Name → Store → Option CaaRrSet × Store
  pub ptr : Name → Name → Store → Option PtrRrSet × Store
  pub tlsa : Name → Name → Store → Option TlsaRrSet × Store
  pub ds : Name → Name → Store → Option DsRrSet × Store
  pub aname : Name → Name → Store → Option AnameRrSet × Store
  pub upstream : Name → ℕ → Store → (List Rr × ℕ) × Store
  pub country : Ip → Option String
  pub asn : Ip → Option ℕ
  pub distance : Ip → Option (IpRr → distances.Distance)
  pub nanos : Store → ℕ × Store
  -- dns.Fqdn of the DNS library
  pub fqdn : Name → Name
