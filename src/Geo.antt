-- ===== src/Geo.antt =====
-- internal/geotools/geotools.go: the filters that mark the addresses of a record set by the place of
-- the client. The source keeps the addresses and their mask in two slices of one length; here they
-- are one list of pairs. What pkg/geoip answers for the client is an argument, `none` for its error.
pub mod Same
pub mod Nearest
pub mod Least
use z.Prelude.{
  ℕ, zero, suc, ◌+◌, String, str_eq, Bool, true, false, not, ◌&&◌, ◌||◌, Option, none, some, List,
  [], ◌∷◌, ◌++◌, is_empty, get_elem?, ltb, ◌==◌, if◌then◌else◌,
}
use z.Types.Rr.{Ip}
use z.Types.Sets.{IpRr}

pub data Mask : Type 0 where
  white grey black : Mask

abbrev pub Masked : Type 0
Masked = List (IpRr × Mask)

abbrev pub is_white : Mask → Bool
is_white white = true
is_white _ = false

abbrev pub is_black : Mask → Bool
is_black black = true
is_black _ = false

abbrev pub has_country : String → List String → Bool
has_country c [] = false
has_country c (x ∷ rest) = str_eq x c || has_country c rest

abbrev pub has_asn : ℕ → List ℕ → Bool
has_asn n [] = false
has_asn n (x ∷ rest) = (x == n) || has_asn n rest

-- The first loop of GetSameCountry and of GetSameASN, with its count of passed addresses.
first_pass : (IpRr → Bool) → Masked → Masked × ℕ
first_pass matches [] = ([], 0)
first_pass matches ((ip, white) ∷ rest) =
    let (masked, passed) = first_pass matches rest in
    if matches ip then ((ip, white) ∷ masked, passed + 1) else ((ip, grey) ∷ masked, passed)
first_pass matches ((ip, grey) ∷ rest) =
    let (masked, passed) = first_pass matches rest in ((ip, black) ∷ masked, passed)
first_pass matches ((ip, black) ∷ rest) =
    let (masked, passed) = first_pass matches rest in ((ip, black) ∷ masked, passed)

-- The second loop: an address that names no place at all is let through.
second_pass : (IpRr → Bool) → Masked → Masked
second_pass unplaced [] = []
second_pass unplaced ((ip, x) ∷ rest) =
    let m = if is_black x then x else if unplaced ip then white else black in
    (ip, m) ∷ second_pass unplaced rest

-- Both functions behind the lookup of the client; `known` is the test that it has a place.
same_place : Bool → (IpRr → Bool) → (IpRr → Bool) → Masked → Masked
unfolding first_pass second_pass
same_place known matches unplaced l =
    let (masked, passed) : Masked × ℕ = if known then first_pass matches l else (l, 0) in
    if ltb 0 passed then masked else second_pass unplaced masked

abbrev pub unplaced_country : IpRr → Bool
unplaced_country ip = is_empty ip.country || has_country "" ip.country

abbrev pub unplaced_asn : IpRr → Bool
unplaced_asn ip = is_empty ip.asn || has_asn 0 ip.asn

pub get_same_country : Option String → Masked → Masked
unfolding same_place
get_same_country none l = l
get_same_country (some source) l =
    same_place (not (str_eq source "")) (λ ip. has_country source ip.country) unplaced_country l

pub get_same_asn : Option ℕ → Masked → Masked
unfolding same_place
get_same_asn none l = l
get_same_asn (some source) l =
    same_place (not (source == 0)) (λ ip. has_asn source ip.asn) unplaced_asn l

-- The distances that pkg/geoip computes in floating point.
pub record Distances : Type 1 where
  pub Distance : Type 0
  pub less : Distance → Distance → Bool
  pub equal : Distance → Distance → Bool
  pub thousand : Distance

module _ (F : Distances) where
  open F use {Distance, less, equal, thousand}

  -- The first loop of GetMinimumDistance; `dists` grows by the white addresses alone.
  pub measure : (IpRr → Distance) → Masked → Distance → List Distance → Distance × List Distance
  measure dist [] least dists = (least, dists)
  measure dist ((ip, x) ∷ rest) least dists =
      let d = dist ip in
      measure dist rest (if is_white x && less d least then d else least)
        (if is_white x then dists ++ d ∷ [] else dists)

  -- The second loop, at the index `i` of the mask; `none` is the panic of an index out of range.
  select_nearest : Distance → List Distance → ℕ → Masked → Option (Masked × ℕ)
  select_nearest least dists i [] = some ([], 0)
  select_nearest least dists i ((ip, white) ∷ rest) =
      let later = select_nearest least dists (i + 1) rest in
      elim (get_elem? dists i) [
        | none ↦ none
        | some d ↦ elim later [
          | none ↦ none
          | some (masked, passed) ↦
              if equal d least
              then some ((ip, white) ∷ masked, passed + 1)
              else some ((ip, grey) ∷ masked, passed)
        ]
      ]
  select_nearest least dists i ((ip, x) ∷ rest) = elim (select_nearest least dists (i + 1) rest) [
    | none ↦ none
    | some (masked, passed) ↦ some ((ip, black) ∷ masked, passed)
  ]

  -- The last loop: nothing passed, so grey becomes white again.
  whiten : Masked → Masked
  whiten [] = []
  whiten ((ip, grey) ∷ rest) = (ip, white) ∷ whiten rest
  whiten ((ip, x) ∷ rest) = (ip, x) ∷ whiten rest

  -- `dist` is the distance from the client to an address; `none` if the client has no coordinates.
  pub get_minimum_distance : Option (IpRr → Distance) → Masked → Option Masked
  unfolding measure select_nearest whiten
  get_minimum_distance none l = some l
  get_minimum_distance (some dist) l =
      let (least, dists) = measure dist l thousand [] in
      elim (select_nearest least dists 0 l) [
        | none ↦ none
        | some (masked, passed) ↦ some (if ltb 0 passed then masked else whiten masked)
      ]
