-- ===== src/Tests/Filters.antt =====
-- The theorems of Geo and Ordering at concrete inputs.
use mathlib.Core.List.{Perm}
use z.Prelude.{
  map, ℕ, ◌≡◌, ◌≢◌, refl, str_eq_iff, none, some, [], ◌∷◌, ◌++◌, get_elem?, arith, if◌then◌else◌,
}
use z.Prelude.Int.{pos, ◌≤ℤ◌}
use z.Types.Sets.{IpRr, IpFilterConfig}
use z.Geo.{Masked, white, grey, black, has_country, get_same_country, get_minimum_distance}
use z.Geo.Same.{get_same_country-eq}
use z.Geo.Nearest.{any_near, mark, get_minimum_distance-panic}
use z.Geo.Least.{IsLess, IsLeast, get_minimum_distance-white}
use z.Ordering.{choose_index, order_ips, white_ips, count_white}
use z.Ordering.Answer.{order_ips-Perm, order_ips-single}
use z.Ordering.Choice.{NonNegative, IsChoice, total, choose_index-weighted}
use z.Tests.Site.{place, numbers}

abbrev first : IpRr
first = place "DE" (1 ∷ 2 ∷ 3 ∷ 4 ∷ []) 1

abbrev second : IpRr
second = place "FR" (5 ∷ 6 ∷ 7 ∷ 8 ∷ []) 2

abbrev both : Masked
both = (first, white) ∷ (second, white) ∷ []

abbrev masked_out : Masked
masked_out = (first, black) ∷ []

abbrev km : IpRr → ℕ
km ip = if has_country "DE" ip.country then 10 else 20

abbrev weighted : IpFilterConfig
weighted = record { count = "multi"; order = "weighted"; geo_filter = "none" }

abbrev one : IpFilterConfig
one = record { count = "single"; order = "rr"; geo_filter = "none" }

both-NonNegative : NonNegative both
both-NonNegative = ground arith

get_same_country-eq_example :
    get_same_country (some "FR") both ≡ (first, grey) ∷ (second, white) ∷ []
get_same_country-eq_example = get_same_country-eq "FR" both

numbers-IsLess : IsLess numbers
numbers-IsLess = record {
  irreflexive = λ d. ground arith;
  transitive = λ d e f h k. ground (arith, h, k);
}

get_minimum_distance-white_example :
    (least : ℕ) × IsLeast numbers km both least
    × (get_minimum_distance numbers (some km) both
        ≡ some (if any_near numbers km least both then map (mark numbers km least) both else both))
get_minimum_distance-white_example = get_minimum_distance-white numbers km numbers-IsLess both refl

get_minimum_distance-panic_example :
    get_minimum_distance numbers (some km) (masked_out ++ (second, white) ∷ []) ≡ none
get_minimum_distance-panic_example = get_minimum_distance-panic numbers km masked_out second refl

choose_index-weighted_example :
    (c : IsChoice both 0 (choose_index 7 weighted both)) × (pos 1 ≤ℤ c.chosen.weight)
unfolding total
choose_index-weighted_example =
    choose_index-weighted 7 weighted both both-NonNegative refl (ground arith) (ground arith)

multi : weighted.count ≢ "single"
multi = λ h. ground (arith, (str_eq_iff "multi" "single").1 h)

order_ips-Perm_example : Perm (order_ips 7 weighted both) (white_ips both)
order_ips-Perm_example = order_ips-Perm 7 weighted both both-NonNegative multi

order_ips-single_example :
    (i : ℕ) × (ip : IpRr) × (get_elem? both i ≡ some (ip, white))
    × (order_ips 7 one both ≡ ip.ip ∷ [])
unfolding count_white
order_ips-single_example = order_ips-single 7 one both both-NonNegative refl (ground arith)
