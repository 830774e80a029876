-- ===== src/Tests/Zones.antt =====
-- The theorems of Types and Zone at concrete inputs.
use z.Prelude.{
  Name, txt, ◌≡◌, ◌≢◌, ◌⊎◌, ◌↔◌, refl, ap, true, Option, [], ◌∷◌, length, ◌≤◌, All, listed,
  trim_suffix, same_iff, arith,
}
use mathlib.Core.List.{flatten}
use z.Types.Rr.{type_tlsa, class_none}
use z.Types.Sets.{RrSet}
use z.Types.Split.{split255, split255-flatten}
use z.Types.Values.{value, ttl}
use z.Types.Values.Owner.{HasHeader, value-HasHeader}
use z.Zone.{Match, exact_match}
use z.Zone.Closest.{Located}
use z.Zone.Location.{found, find_location-Located, find_location-exact_iff}
use z.Zone.Depth.{dots, is_found, find_location-dots}
use z.Tests.Tree.{assoc_radix}
use z.Tests.Site.{site, locations, config}

abbrev tlsa_set : RrSet
tlsa_set = RrSet.tlsa (record {
  ttl_value = 60;
  data_list = record { usage = 3; selector = 1; matching_type = 1; certificate = txt "ab" } ∷ [];
})

split255-flatten_example :
    (flatten (split255 (txt "v=spf1")) ≡ txt "v=spf1")
    × All (λ c. length c ≤ 255) (split255 (txt "v=spf1"))
split255-flatten_example = split255-flatten (txt "v=spf1")

value-HasHeader_example :
    All (HasHeader site type_tlsa class_none 60) (value (λ n. n) tlsa_set site)
unfolding ttl
value-HasHeader_example = value-HasHeader (λ n. n) site tlsa_set

abbrev answered_at : Name → Name × Match
answered_at query = found (assoc_radix (Option Name)) locations site config query

find_location-Located_example :
    ((txt "w.a.b.z." ≡ site) × (answered_at (txt "w.a.b.z.") ≡ (txt "@", exact_match)))
    ⊎ ((txt "w.a.b.z." ≢ site)
        × Located locations
            (txt "w.a.b")
            (answered_at (txt "w.a.b.z.")).0
            (answered_at (txt "w.a.b.z.")).1)
unfolding trim_suffix
find_location-Located_example =
    find_location-Located (assoc_radix (Option Name)) locations site config (txt "w.a.b.z.")

apart : txt "www.z." ≢ site
apart = λ h. ground (arith, (same_iff (txt "www.z.") site).1 h)

find_location-exact_iff_example :
    (listed (txt "www") locations ≡ true) ↔ (answered_at (txt "www.z.") ≡ (txt "www", exact_match))
unfolding trim_suffix
find_location-exact_iff_example =
    find_location-exact_iff (assoc_radix (Option Name)) locations site config (txt "www.z.") apart

www_found : is_found (answered_at (txt "www.z.")).1 ≡ true
unfolding trim_suffix
www_found =
    ap (λ a. is_found a.1)
      ((find_location-exact_iff (assoc_radix (Option Name)) locations site config (txt "www.z.")
          apart).0
        refl)

find_location-dots_example : dots (answered_at (txt "www.z.")).0 ≤ 2
find_location-dots_example =
    find_location-dots (assoc_radix (Option Name)) site locations config (txt "www.z.") www_found
