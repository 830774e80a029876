-- ===== src/Storage/Listing/Found.antt =====
-- LoadZones with its read from redis, and FindZone after it.
use z.Prelude.{ℕ, ◌≤◌, Name, txt, ◌≡◌, refl, sym, ◌∙◌, true, some, List, listed}
use z.Radix.{Radix}
use z.Hiredis.{Redigo}
use z.Hiredis.Scan.{s_scan_command}
use z.Hiredis.Members.{Pages}
use z.Hiredis.Keys.{IsReordering, s_members_lem}
use z.Storage.{load_zones, find_zone}
use z.Storage.Zones.{Closest, find_zone-Closest}
use z.Storage.Records.{DataHandlerConfig}
use z.Storage.Listing.{zones_key, read_zones}

module _ (T : Radix Name) where
  -- The order of the zones and how often each stands in the list do not matter.
  Closest-listed :
      (l m : List Name) (qname : Name) {zone : Name}
      → ((x : Name) → listed x l ≡ listed x m)
      → Closest T l qname zone
      → Closest T m qname zone
  Closest-listed l m qname e (Closest.missing none_above) =
      Closest.missing (λ z above. sym (e z) ∙ none_above z above)
  Closest-listed l m qname e (Closest.closest zone there above longest) =
      Closest.closest zone (sym (e zone) ∙ there) above
        (λ z above longer. sym (e z) ∙ longest z above longer)

  module _ (D : Redigo) (config : DataHandlerConfig) (order : List Name → List Name)
      (reorders : IsReordering order) where
    -- If the client is connected, the server answers SMembers of the set of zones with n pages from
    -- cursor 0 on, and there is fuel for n rounds, then LoadZones ends, and FindZone then answers a
    -- zone of those on the pages that is the name itself or an ancestor of it, label by label, and
    -- no longer zone on the pages is one; or it answers the empty name, and no zone on the pages is
    -- one.
    pub read_zones-Closest :
        (s s' : D.Server) (n fuel : ℕ) (zones : List Name) (old : T.Tree) (qname : Name)
        → D.connected s ≡ true
        → Pages D
            (s_scan_command D config.redis order zones_key)
            D.strings_of
            (txt "0")
            s
            n
            zones
            s'
        → n ≤ fuel
        → (t : T.Tree) × (read_zones D config order T fuel old s ≡ (some t, s'))
          × Closest T zones qname (find_zone T qname t)
    unfolding read_zones
    read_zones-Closest s s' n fuel zones old qname connected pages enough =
        let (l, read, members) =
          s_members_lem D config.redis order reorders zones_key s s' n fuel zones connected pages
            enough in
        (
          load_zones T (some l) old,
          rw (read) refl,
          Closest-listed l zones qname members (find_zone-Closest T l old qname),
        )
