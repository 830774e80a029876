-- ===== src/Tests/Site.antt =====
-- A small zone and a store behind it that never changes.
use z.Prelude.{
  ℕ, Name, txt, same, String, true, false, Option, none, some, List, [], ◌∷◌, ltb, ◌==◌,
  if◌then◌else◌,
}
use z.Prelude.Int.{pos}
use z.Types.Rr.{type_a, rcode_success}
use z.Types.Sets.{IpRr, IpRrSet, CnameRrSet, TxtRrSet}
use z.Geo.{Distances}
use z.Zone.{Zone, ZoneConfig, zone_config_from_json, new_zone, find_location}
use z.Handler.World.{World, Context}
use z.Tests.Tree.{assoc_radix}

abbrev pub site : Name
site = txt "z."

abbrev pub locations : List Name
locations = txt "@" ∷ txt "www" ∷ txt "alias" ∷ txt "loop" ∷ txt "a.b" ∷ txt "*.c" ∷ []

abbrev pub config : ZoneConfig
config = zone_config_from_json (λ s d. d) (λ n. n) 7 site []

abbrev pub SiteTree : Type 0
SiteTree = List (Name × Option Name)

abbrev pub site_zone : Zone SiteTree
site_zone = new_zone (assoc_radix (Option Name)) site locations config

abbrev pub place : String → List ℕ → ℕ → IpRr
place country ip number = record {
  weight = pos number;
  ip = some ip;
  country = country ∷ [];
  asn = number ∷ [];
}

abbrev pub no_ips : IpRrSet
no_ips = record {
  ttl_value = 300;
  filter_config = record { count = "multi"; order = "rr"; geo_filter = "none" };
  health_check_config = record {
    protocol = "";
    uri = "";
    port = pos 0;
    timeout = pos 0;
    up_count = pos 0;
    down_count = pos 0;
    enable = false;
  };
  data_list = [];
}

abbrev pub www_ips : IpRrSet
www_ips = record no_ips {
  data_list = place "DE" (1 ∷ 2 ∷ 3 ∷ 4 ∷ []) 1 ∷ place "FR" (5 ∷ 6 ∷ 7 ∷ 8 ∷ []) 2 ∷ [];
}

abbrev pub no_text : TxtRrSet
no_text = record { ttl_value = 300; data_list = [] }

abbrev pub cname_at : Name → CnameRrSet
cname_at location = record {
  ttl_value = 300;
  host =
      if same location (txt "alias")
      then txt "www.z."
      else if same location (txt "loop")
      then txt "loop.z."
      else [];
}

abbrev pub numbers : Distances
numbers = record { Distance = ℕ; less = ltb; equal = λ a b. a == b; thousand = 1000 }

abbrev pub site_world : World SiteTree
site_world = record {
  Store = ℕ;
  distances = numbers;
  find_location = find_location (assoc_radix (Option Name));
  find_zone = λ q s. (site, s);
  get_zone = λ q s. (some site_zone, s);
  a = λ z l s. (some (if same l (txt "www") then www_ips else no_ips), s);
  aaaa = λ z l s. (some no_ips, s);
  cname = λ z l s. (some (cname_at l), s);
  txt_set = λ z l s. (some no_text, s);
  ns = λ z l s. (some (record { ttl_value = 300; data_list = [] }), s);
  mx = λ z l s. (some (record { ttl_value = 300; data_list = [] }), s);
  srv = λ z l s. (some (record { ttl_value = 300; data_list = [] }), s);
  caa = λ z l s. (some (record { ttl_value = 300; data_list = [] }), s);
  ptr = λ z l s. (some (record { ttl_value = 300; domain = [] }), s);
  tlsa = λ z l s. (some (record { ttl_value = 300; data_list = [] }), s);
  ds = λ z l s. (some (record { ttl_value = 300; data_list = [] }), s);
  aname = λ z l s. (some (record { ttl_value = 300; location = [] }), s);
  upstream = λ q t s. (([], rcode_success), s);
  country = λ ip. none;
  asn = λ ip. none;
  distance = λ ip. none;
  nanos = λ s. (5, s);
  fqdn = λ n. n;
}

-- A query for the addresses of a name.
abbrev pub query : Name → Context
query name = record {
  name = name;
  qtype = type_a;
  do_bit = false;
  auth = true;
  source_ip = none;
  res = rcode_success;
  dnssec = false;
  answer = [];
  authority = [];
  additional = [];
}
