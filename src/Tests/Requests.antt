-- ===== src/Tests/Requests.antt =====
-- The theorems of Handler at concrete inputs.
use z.Prelude.{◌+◌, Name, txt, ◌≡◌, ◌≢◌, refl, Option, some, ℕ, [], same_iff, trim_suffix, arith}
use z.Types.Rr.{rcode_server_failure}
use z.Types.Sets.{CaaRrSet}
use z.Zone.{exact_match}
use z.Zone.Depth.{dots, find_location-dots}
use z.Zone.Location.{find_location-exact_iff}
use z.Handler.World.{World}
use z.Handler.Round.{resolve}
use z.Handler.Caa.{find_caa_loop, NoMoreDots, find_caa_loop-enough}
use z.Handler.Codes.{IsResolved, resolve-IsResolved}
use z.Handler.Chains.{IsChained}
use z.Handler.Answers.{resolve-IsChained}
use z.Handler.Loops.{IsSelfAlias, resolve_self_alias}
use z.Tests.Tree.{assoc_radix}
use z.Tests.Site.{SiteTree, site, locations, config, site_zone, site_world, cname_at, query}

resolve-IsResolved_example : IsResolved (resolve site_world (query (txt "www.z.")) 0).0
resolve-IsResolved_example = resolve-IsResolved site_world (query (txt "www.z.")) 0 refl

resolve-IsChained_example :
    IsChained (txt "alias.z.") (resolve site_world (query (txt "alias.z.")) 0).0.0.answer
resolve-IsChained_example =
    resolve-IsChained site_world (query (txt "alias.z.")) 0 refl (ground arith) (ground arith)
      (ground arith)

apart : txt "loop.z." ≢ site
apart = λ h. ground (arith, (same_iff (txt "loop.z.") site).1 h)

loop_there : site_world.find_location site_zone (txt "loop.z.") ≡ (txt "loop", exact_match)
unfolding trim_suffix
loop_there =
    (find_location-exact_iff (assoc_radix (Option Name)) locations site config (txt "loop.z.")
        apart).0
      refl

-- A store that counts its reads.
abbrev counting_world : World SiteTree
counting_world = record site_world {
  find_zone = λ q s. (site, s + 1);
  get_zone = λ q s. (some site_zone, s + 1);
  cname = λ z l s. (some (cname_at l), s + 1);
}

loop-IsSelfAlias : IsSelfAlias counting_world site_zone site (txt "loop.z.") (λ s. Unit)
loop-IsSelfAlias = record {
  location = txt "loop";
  target = cname_at (txt "loop");
  in_zone = λ s h. refl;
  in_zone_after = λ s h. tt;
  target_in_zone = λ s h. refl;
  target_in_zone_after = λ s h. tt;
  there = loop_there;
  points = λ s h. refl;
  points_after = λ s h. tt;
  has_host = refl;
  itself = refl;
}

resolve_self_alias_example :
    ((resolve counting_world (query (txt "loop.z.")) 0).0.0.answer ≡ [])
    × ((resolve counting_world (query (txt "loop.z.")) 0).0.0.res ≡ rcode_server_failure)
resolve_self_alias_example =
    resolve_self_alias counting_world site_zone site (query (txt "loop.z.")) 0 (λ s. Unit) refl
      (λ s h. refl) (λ s h. tt) loop-IsSelfAlias tt (ground arith)

few_dots : NoMoreDots site_world site_zone
few_dots = record { bound = find_location-dots (assoc_radix (Option Name)) site locations config }

find_caa_loop-enough_example :
    (rrset : Option CaaRrSet) × (s : ℕ) × ((extra : ℕ)
      → find_caa_loop site_world site_zone (dots (txt "a.b") + 1 + extra) (txt "a.b") 0
        ≡ (some rrset, s))
find_caa_loop-enough_example = find_caa_loop-enough site_world site_zone few_dots (txt "a.b") 0
