-- ===== src/Tests/Stored.antt =====
-- The zones that LoadZones reads from a small server, in two pages.
use z.Prelude.{Name, txt, same, ◌≡◌, refl, List, [], ◌∷◌, some, if◌then◌else◌, arith}
use z.Hiredis.{Result, ok, Arg, text, Redigo}
use z.Hiredis.Scan.{s_scan_command, read_page}
use z.Hiredis.Members.{Pages}
use z.Storage.{find_zone}
use z.Storage.Zones.{Closest}
use z.Storage.Listing.{zones_key, read_zones}
use z.Storage.Listing.Found.{read_zones-Closest}
use z.Tests.Tree.{assoc_radix}
use z.Tests.Records.{settings}
use z.Tests.Redis.{Reply, nil_reply, page, server, config, in_order}

abbrev zones : List Name
zones = txt "z." ∷ txt "b.z." ∷ txt "z." ∷ []

abbrev zone_pages : List Arg → List (Name × Name) → Result Reply × List (Name × Name)
zone_pages (text command ∷ text key ∷ text cursor ∷ rest) s = (
  ok (
      if same cursor (txt "0")
      then page (txt "1") (txt "z." ∷ txt "b.z." ∷ [])
      else page (txt "0") (txt "z." ∷ [])),
  s,
)
zone_pages _ s = (ok nil_reply, s)

abbrev zone_server : Redigo
zone_server = record server { do_command = zone_pages }

zones-Pages :
    Pages zone_server
      (s_scan_command zone_server config (λ l. l) zones_key)
      zone_server.strings_of
      (txt "0")
      []
      2
      zones
      []
unfolding read_page
zones-Pages = Pages.more refl refl refl (Pages.last refl refl refl)

read_zones-Closest_example :
    (t : (assoc_radix Name).Tree) × (read_zones zone_server settings
        (λ l. l)
        (assoc_radix Name)
        5
        []
        []
      ≡ (some t, []))
    × Closest
        (assoc_radix Name)
        zones
        (txt "a.b.z.")
        (find_zone (assoc_radix Name) (txt "a.b.z.") t)
read_zones-Closest_example =
    read_zones-Closest (assoc_radix Name) zone_server settings (λ l. l) in_order [] [] 2 5 zones []
      (txt "a.b.z.") refl zones-Pages (omega arith)
