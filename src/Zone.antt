-- ===== src/Zone.antt =====
-- internal/types/zone.go: a zone, its tree of locations and the search for the location of a query.
-- Names are lists of code points; reverse_name works on runes as the source does.
pub mod Reverse
pub mod Tree
pub mod Closest
pub mod Slots
pub mod Label
pub mod Location
pub mod Depth
use z.Prelude.{
  ℕ, zero, suc, Name, txt, same, String, ◌+◌, ◌-◌, ◌%◌, ◌^◌, Bool, true, false, Option, none, some,
  List, [], ◌∷◌, ◌++◌, ◌&&◌, map, has_prefix, length, take, is_empty, ltb, ◌==◌, if◌then◌else◌,
  get_elem?, set, trim_suffix,
}
use z.Types.Rr.{Rr, Rdata, type_soa, class_inet}
use z.Types.Values.{header}
use z.Radix.{Radix}

pub record SoaRrSet : Type 0 where
  pub ns : Name
  pub mbox : Name
  pub data_rr : Option Rr
  pub ttl : ℕ
  pub refresh : ℕ
  pub retry : ℕ
  pub expire : ℕ
  pub min_ttl : ℕ
  pub serial : ℕ

pub record ZoneConfig : Type 0 where
  pub domain_id : String
  pub soa : SoaRrSet
  pub dnssec : Bool
  pub cname_flattening : Bool

-- types.ZoneKey: a DNSKEY record, its private key, and the period of its signatures
pub record ZoneKey : Type 0 where
  pub dnskey : Rr
  pub private_key : Name
  pub key_inception : ℕ
  pub key_expiration : ℕ

pub record Zone (Tree : Type 0) : Type 0 where
  pub name : Name
  pub config : ZoneConfig
  pub locations_tree : Tree
  pub locations_list : List Name
  pub zsk : Option ZoneKey
  pub ksk : Option ZoneKey
  pub dnskey_sig : Option Rr
  pub cache_timeout : ℕ

pub data Match : Type 0 where
  exact_match wildcard_match empty_nonterminal_match ce_match no_match : Match

abbrev pub dot : ℕ
dot = b'.'

-- `runes[i], runes[j] = runes[j], runes[i]`
swap : List ℕ → ℕ → ℕ → List ℕ
swap runes i j = elim (get_elem? runes i) [
  | none ↦ runes
  | some a ↦ elim (get_elem? runes j) [ none ↦ runes | some b ↦ set (set runes i b) j a ]
]

-- `for i < j`; the fuel is the number of runes, and the loop makes half as many rounds
swap_loop : ℕ → List ℕ → ℕ → ℕ → List ℕ
unfolding swap
swap_loop zero runes i j = runes
swap_loop (suc fuel) runes i j =
    let rest = swap_loop fuel (swap runes i j) (i + 1) (j - 1) in if ltb i j then rest else runes

-- The runes are those of "." + zone, so the last index is the length of `zone`.
unfoldable pub reverse_name : Name → Name
unfolding swap_loop
reverse_name zone = let runes = dot ∷ zone in swap_loop (length runes) runes 0 (length runes - 1)

-- The Json decoder of github.com/json-iterator/go, run on top of the defaults, and time.Now().Unix()
module _ (unmarshal : Name → ZoneConfig → ZoneConfig) (fqdn : Name → Name) (now : ℕ) where
  unfoldable pub zone_config_from_json : Name → Name → ZoneConfig
  zone_config_from_json zone config_str =
      let defaults : ZoneConfig = record {
        domain_id = "";
        soa = record {
          ns = txt "ns1." ++ zone;
          mbox = txt "hostmaster." ++ zone;
          data_rr = none;
          ttl = 300;
          refresh = 86400;
          retry = 7200;
          expire = 3600;
          min_ttl = 300;
          serial = now % 2 ^ 32;
        };
        dnssec = false;
        cname_flattening = false;
      } in
      let config = if is_empty config_str then defaults else unmarshal config_str defaults in
      let soa = config.soa in
      let ns = fqdn soa.ns in
      let rr = header zone type_soa class_inet soa.ttl (
        Rdata.soa (record {
          ns = ns;
          mbox = soa.mbox;
          refresh = soa.refresh;
          retry = soa.retry;
          expire = soa.expire;
          minttl = soa.min_ttl;
          serial = soa.serial;
        })) in
      record config { soa = record soa { ns = ns; data_rr = some rr } }

module _ (R : Radix (Option Name)) where
  open R use {Tree, new, insert, get, longest_prefix}

  -- The inner loop of NewZone over the bytes of one reversed location: every prefix that ends at a
  -- dot becomes a node without a value, unless it is in the tree.
  insert_ancestors : ℕ → Name → Name → Tree → Tree
  insert_ancestors i rvalue [] tree = tree
  insert_ancestors i rvalue (c ∷ rest) tree =
      let key = take (i + 1) rvalue in
      let inserted : Tree = elim (get key tree) [ none ↦ insert key none tree | some _ ↦ tree ] in
      insert_ancestors (i + 1) rvalue rest (if c == dot then inserted else tree)

  -- The first loop of NewZone over the reversed locations.
  insert_all_ancestors : List Name → Tree → Tree
  unfolding insert_ancestors
  insert_all_ancestors [] tree = tree
  insert_all_ancestors (location ∷ rest) tree =
      let rvalue = reverse_name location in
      insert_all_ancestors rest (insert_ancestors 0 rvalue rvalue tree)

  -- The second loop: each location at its reversed name.
  insert_locations : List Name → Tree → Tree
  insert_locations [] tree = tree
  insert_locations (location ∷ rest) tree =
      insert_locations rest (insert (reverse_name location) (some location) tree)

  pub locations_tree_of : List Name → Tree
  unfolding insert_all_ancestors insert_locations
  locations_tree_of locations = insert_locations locations (insert_all_ancestors locations new)

  unfoldable pub new_zone : Name → List Name → ZoneConfig → Zone Tree
  unfolding locations_tree_of
  new_zone zone locations config = record {
    name = zone;
    config = config;
    locations_tree = locations_tree_of locations;
    locations_list = locations;
    zsk = none;
    ksk = none;
    dnskey_sig = none;
    cache_timeout = 0;
  }

  -- The tail of FindLocation when nothing in the tree is a prefix of the query.
  pub find_root_wildcard : Tree → Name × Match
  find_root_wildcard tree = elim (get (txt "*.") tree) [
    | none ↦ ([], no_match)
    | some none ↦ ([], no_match)
    | some (some _) ↦ (txt "*", wildcard_match)
  ]

  -- The tail for a closest node that holds the location `ce`.
  pub find_below : Tree → Name → Name → Name → Name → Name × Match
  find_below tree query rquery prefix ce =
      if same prefix rquery then (query, exact_match) else elim (get (prefix ++ txt "*.") tree) [
        | none ↦ (ce, ce_match)
        | some none ↦ (ce, ce_match)
        | some (some w) ↦ (w, wildcard_match)
      ]

  -- The tail for a closest node without a value.
  pub find_below_empty : Tree → Name → Name → Name × Match
  find_below_empty tree rquery prefix =
      if same prefix rquery
      then ([], empty_nonterminal_match)
      else elim (get (prefix ++ txt "*.") tree) [
        | none ↦ ([], no_match)
        | some none ↦ ([], no_match)
        | some (some w) ↦ (w, wildcard_match)
      ]

  -- FindLocation behind its first test, for the query without the zone's name.
  pub find_label : Tree → Name → Name × Match
  unfolding find_root_wildcard find_below find_below_empty
  find_label tree query =
      let rquery = reverse_name query in
      elim (longest_prefix rquery tree) [
        | none ↦ find_root_wildcard tree
        | some (prefix, some ce) ↦ find_below tree query rquery prefix ce
        | some (prefix, none) ↦ find_below_empty tree rquery prefix
      ]

  pub find_location : Zone Tree → Name → Name × Match
  unfolding find_label
  find_location z query =
      if same query z.name
      then (txt "@", exact_match)
      else find_label z.locations_tree (trim_suffix query (dot ∷ z.name))
