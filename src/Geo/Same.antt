-- ===== src/Geo/Same.antt =====
-- Which addresses the country and the ASN filter of internal/geotools/geotools.go let through.
use z.Prelude.{
  ◌≡◌, refl, String, str_eq, Bool, true, false, ◌&&◌, ◌||◌, some, [], ◌∷◌, map, ltb, arith,
  if◌then◌else◌, inl, inr, Bool-cases,
}
use z.Types.Sets.{IpRr}
use z.Geo.{
  Mask, Masked, white, grey, black, is_white, is_black, has_country, unplaced_country, first_pass,
  second_pass, same_place, get_same_country,
}

-- Some white address of the list matches.
abbrev pub any_white : (IpRr → Bool) → Masked → Bool
any_white matches [] = false
any_white matches ((ip, x) ∷ rest) = (is_white x && matches ip) || any_white matches rest

-- What the filter says of one address when some white address matches.
abbrev pub near : (IpRr → Bool) → IpRr × Mask → IpRr × Mask
near matches (ip, x) = (ip, if is_white x then if matches ip then white else grey else black)

-- What it says when none does: only an address that names no place stays.
abbrev pub open_white : (IpRr → Bool) → IpRr × Mask → IpRr × Mask
open_white unplaced (ip, x) = (ip, if is_white x && unplaced ip then white else black)

-- What it says when the place of the client is not known.
abbrev pub open_all : (IpRr → Bool) → IpRr × Mask → IpRr × Mask
open_all unplaced (ip, x) = (ip, if is_black x then black else if unplaced ip then white else black)

module _ (matches unplaced : IpRr → Bool) where
  first_pass-map : (l : Masked) → (first_pass matches l).0 ≡ map (near matches) l
  unfolding first_pass
  first_pass-map [] = refl
  first_pass-map ((ip, white) ∷ l) = ground (arith, first_pass-map l)
  first_pass-map ((ip, x) ∷ l) = ground (arith, first_pass-map l)

  first_pass-passed : (l : Masked) → ltb 0 (first_pass matches l).1 ≡ any_white matches l
  unfolding first_pass
  first_pass-passed [] = refl
  first_pass-passed ((ip, white) ∷ l) = ground (arith, first_pass-passed l)
  first_pass-passed ((ip, x) ∷ l) = ground (arith, first_pass-passed l)

  second_pass-map : (l : Masked) → second_pass unplaced l ≡ map (open_all unplaced) l
  unfolding second_pass
  second_pass-map [] = refl
  second_pass-map ((ip, white) ∷ l) = ground (arith, second_pass-map l)
  second_pass-map ((ip, x) ∷ l) = ground (arith, second_pass-map l)

  -- After a first loop that nothing passed, the second sees no white address.
  second-first :
      (l : Masked)
      → any_white matches l ≡ false
      → map (open_all unplaced) (map (near matches) l) ≡ map (open_white unplaced) l
  second-first [] h = refl
  second-first ((ip, white) ∷ l) h = ground (arith, second-first l)
  second-first ((ip, x) ∷ l) h = ground (arith, second-first l)

  same_place-known :
      (l : Masked)
      → same_place true matches unplaced l
        ≡ (if any_white matches l then map (near matches) l else map (open_white unplaced) l)
  unfolding same_place
  same_place-known l = ground (
    arith,
    first_pass-map l,
    first_pass-passed l,
    second_pass-map (first_pass matches l).0,
    second-first l,
  )

  same_place-unknown :
      (l : Masked) → same_place false matches unplaced l ≡ map (open_all unplaced) l
  unfolding same_place
  same_place-unknown l = second_pass-map l

-- For a client whose country is known, and not "", the white addresses of that country stay white
-- and the other white ones become grey if there is any such address; otherwise a white address
-- stays only if it lists no country, or "". All that was not white becomes black. For a client of
-- the country "", every address that is not black, grey ones too, is white if it lists no country,
-- or "", and black if not.
pub get_same_country-eq :
    (source : String) (l : Masked)
    → get_same_country (some source) l ≡ (
        if str_eq source ""
        then map (open_all unplaced_country) l
        else if any_white (λ ip. has_country source ip.country) l
        then map (near (λ ip. has_country source ip.country)) l
        else map (open_white unplaced_country) l)
unfolding get_same_country
get_same_country-eq source l = elim (Bool-cases (str_eq source "")) [
  | inl e ↦ rw e (same_place-unknown (λ ip. has_country source ip.country) unplaced_country l)
  | inr e ↦ rw e (same_place-known (λ ip. has_country source ip.country) unplaced_country l)
]
