-- ===== src/Storage.antt =====
-- internal/storage/data_handler.go: the names of the entries in redis, the list of zones, and the
-- bounds on TTLs.
pub mod Keys
pub mod Zones
pub mod Records
pub mod Readers
pub mod Entries
pub mod Typed
pub mod Stored
pub mod Loading
pub mod Signed
pub mod Events
pub mod Invalidated
pub mod Refreshed
pub mod Updater
pub mod Listing
use z.Prelude.{
  ℕ, Name, txt, same, Bool, true, false, Option, none, some, List, [], ◌∷◌, ◌++◌, ◌&&◌, ltb, ◌==◌,
  trim_prefix, if◌then◌else◌,
}
use z.Types.Rr.{type_aname}
use z.Zone.{reverse_name}
use z.Radix.{Radix}

abbrev pub colon : ℕ
colon = b':'

abbrev pub key_prefix : Name
key_prefix = txt "z42:zones:"

unfoldable pub zone_locations_key : Name → Name
zone_locations_key zone = key_prefix ++ (zone ++ txt ":labels")

unfoldable pub zone_config_key : Name → Name
zone_config_key zone = key_prefix ++ (zone ++ txt ":config")

-- `type_to_string` is dns.TypeToString of the DNS library.
unfoldable pub zone_location_rr_set_key : (ℕ → Name) → Name → Name → ℕ → Name
zone_location_rr_set_key type_to_string zone label rtype =
    let type_str = if rtype == type_aname then txt "ANAME" else type_to_string rtype in
    key_prefix ++ (zone ++ (txt ":labels:" ++ (label ++ colon ∷ type_str)))

unfoldable pub zone_pub_key : Name → Name → Name
zone_pub_key zone key_type = key_prefix ++ (zone ++ (colon ∷ (key_type ++ txt ":pub")))

unfoldable pub zone_priv_key : Name → Name → Name
zone_priv_key zone key_type = key_prefix ++ (zone ++ (colon ∷ (key_type ++ txt ":priv")))

-- strings.Split at colons: the first part, and the parts behind it
unfoldable pub split_colon : Name → Name × List Name
split_colon [] = ([], [])
split_colon (c ∷ rest) =
    let (first, parts) = split_colon rest in
    if c == colon then ([], first ∷ parts) else (c ∷ first, parts)

unfoldable pub split_db_key : Name → List Name
unfolding split_colon
split_db_key key = let (first, parts) = split_colon (trim_prefix key key_prefix) in first ∷ parts

unfoldable pub is_rr_set_entry : List Name → Bool
is_rr_set_entry (a ∷ b ∷ c ∷ d ∷ []) = same b (txt "labels")
is_rr_set_entry _ = false

unfoldable pub fix_ttl : ℕ → ℕ → ℕ → ℕ
fix_ttl ttl min max =
    let raised = if ltb ttl min then min else ttl in if ltb max raised then max else raised

module _ (R : Radix Name) where
  open R use {Tree, new, insert, longest_prefix}

  unfoldable pub insert_zones : List Name → Tree → Tree
  insert_zones [] tree = tree
  insert_zones (zone ∷ rest) tree = insert_zones rest (insert (reverse_name zone) zone tree)

  -- LoadZones: `members` is what redis answers, `none` for an error, which keeps the old tree.
  unfoldable pub load_zones : Option (List Name) → Tree → Tree
  unfolding insert_zones
  load_zones none zones = zones
  load_zones (some members) zones = insert_zones members new

  unfoldable pub find_zone : Name → Tree → Name
  find_zone qname zones = elim (longest_prefix (reverse_name qname) zones) [
    | none ↦ []
    | some (key, zone) ↦ zone
  ]
