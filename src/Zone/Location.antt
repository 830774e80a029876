-- ===== src/Zone/Location.antt =====
-- FindLocation of internal/types/zone.go against the list of locations: the closest location or
-- ancestor above the query decides, whatever radix tree serves the search.
use z.Prelude.{
  Name, txt, same, same_iff, ◌≡◌, refl, ap, ◌≢◌, ◌↔◌, true, Option, List, ◌∷◌, Bool-cases, inl, inr,
  ◌⊎◌, listed, trim_suffix,
}
use z.Radix.{Radix}
use z.Zone.{ZoneConfig, dot, Match, exact_match, new_zone, find_location}
use z.Zone.Closest.{apart_of_false, Located, exact-listed}
use z.Zone.Label.{find_label-Located, label_exact}

module _ (R : Radix (Option Name)) (locations : List Name) (zone : Name) (config : ZoneConfig) where
  abbrev pub found : Name → Name × Match
  found query = find_location R (new_zone R zone locations config) query

  abbrev pub below_zone : Name → Name
  below_zone query = trim_suffix query (dot ∷ zone)

  -- For a zone that NewZone builds, FindLocation answers "@" for the zone's own name, and for any
  -- other query the answer has the meaning that `Located` gives it: a listed location, an empty
  -- nonterminal, a wildcard below the closest node, a closest location, or none of these.
  pub find_location-Located :
      (query : Name)
      → ((query ≡ zone) × (found query ≡ (txt "@", exact_match)))
        ⊎ ((query ≢ zone) × Located locations (below_zone query) (found query).0 (found query).1)
  unfolding find_location new_zone
  find_location-Located query = elim (Bool-cases (same query zone)) [
    | inl h ↦ inl ((same_iff query zone).0 h, rw h)
    | inr h ↦
        inr (apart_of_false query zone h, rw h (find_label-Located R locations (below_zone query)))
  ]

  -- A query other than the zone's own name is answered as an exact match exactly when its name
  -- below the zone is a location, and that location is the answer.
  pub find_location-exact_iff :
      (query : Name)
      → query ≢ zone
      → (listed (below_zone query) locations ≡ true)
        ↔ (found query ≡ (below_zone query, exact_match))
  unfolding find_location new_zone
  find_location-exact_iff query h = elim (Bool-cases (same query zone)) [
    | inl e ↦ absurd (h ((same_iff query zone).0 e))
    | inr e ↦ rw e (
      (λ there. label_exact R locations (below_zone query) there _ refl),
      (λ r. exact-listed (find_label-Located R locations (below_zone query)) (ap (λ a. a.1) r)),
    )
  ]
