-- ===== src/Geo/Nearest.antt =====
-- GetMinimumDistance of internal/geotools/geotools.go: right on a mask that is all white, and a
-- panic where an address before a white one is masked out.
use z.Prelude.{
  ℕ, ◌+◌, ◌≤◌, ◌<◌, ◌≡◌, refl, sym, ap, ◌∙◌, Bool, true, false, ◌&&◌, ◌||◌, none, some, List, [],
  ◌∷◌, ◌++◌, map, ltb, arith, length, drop, if◌then◌else◌, append_assoc, append-nil, length-append,
  drop-drop, get_elem?-of_drop, get_elem?-none,
}
use z.Types.Sets.{IpRr}
use z.Geo.{
  Mask, Masked, white, grey, is_white, Distances, measure, select_nearest, whiten,
  get_minimum_distance,
}

abbrev pub all_white : Masked → Bool
all_white [] = true
all_white ((ip, x) ∷ rest) = is_white x && all_white rest

module _ (F : Distances) (dist : IpRr → F.Distance) where
  open F use {Distance, less, equal, thousand}

  -- The least of the start value and the distances of the white addresses.
  unfoldable pub least_of : Masked → Distance → Distance
  least_of [] least = least
  least_of ((ip, x) ∷ rest) least =
      least_of rest (if is_white x && less (dist ip) least then dist ip else least)

  pub white_distances : Masked → List Distance
  white_distances [] = []
  white_distances ((ip, x) ∷ rest) =
      let later = white_distances rest in if is_white x then dist ip ∷ later else later

  measure-least_of :
      (l : Masked) (least : Distance) (dists : List Distance)
      → (measure F dist l least dists).0 ≡ least_of l least
  unfolding measure least_of
  measure-least_of [] least dists = refl
  measure-least_of ((ip, x) ∷ l) least dists = measure-least_of l _ _

  measure-dists :
      (l : Masked) (least : Distance) (dists : List Distance)
      → (measure F dist l least dists).1 ≡ dists ++ white_distances l
  unfolding measure white_distances
  measure-dists [] least dists = sym (append-nil dists)
  measure-dists ((ip, white) ∷ l) least dists =
      measure-dists l _ (dists ++ dist ip ∷ [])
      ∙ append_assoc dists (dist ip ∷ []) (white_distances l)
  measure-dists ((ip, x) ∷ l) least dists = measure-dists l _ dists

  -- The mark of a white address by its distance.
  abbrev pub mark : Distance → IpRr × Mask → IpRr × Mask
  mark least (ip, x) = (ip, if equal (dist ip) least then white else grey)

  abbrev pub any_near : Distance → Masked → Bool
  any_near least [] = false
  any_near least ((ip, x) ∷ rest) = equal (dist ip) least || any_near least rest

  abbrev hits : Distance → Masked → ℕ
  hits least [] = 0
  hits least ((ip, x) ∷ rest) =
      let later = hits least rest in if equal (dist ip) least then later + 1 else later

  hits-any : (least : Distance) (l : Masked) → ltb 0 (hits least l) ≡ any_near least l
  hits-any least [] = refl
  hits-any least ((ip, x) ∷ l) = ground (arith, hits-any least l)

  select_nearest-white :
      (least : Distance) (dists : List Distance) (i : ℕ) (l : Masked)
      → all_white l ≡ true
      → drop i dists ≡ white_distances l
      → select_nearest F least dists i l ≡ some (map (mark least) l, hits least l)
  unfolding select_nearest white_distances
  select_nearest-white least dists i [] w e = refl
  select_nearest-white least dists i ((ip, white) ∷ l) w e = ground (
    arith,
    get_elem?-of_drop i dists (dist ip) (white_distances l) e,
    select_nearest-white least dists (i + 1) l w (sym (drop-drop i 1 dists) ∙ ap (drop 1) e),
  )
  select_nearest-white least dists i ((ip, x) ∷ l) w e = cc

  whiten-mark :
      (least : Distance) (l : Masked)
      → all_white l ≡ true
      → any_near least l ≡ false
      → whiten F (map (mark least) l) ≡ l
  unfolding whiten
  whiten-mark least [] w h = refl
  whiten-mark least ((ip, white) ∷ l) w h = ground (arith, whiten-mark least l w)
  whiten-mark least ((ip, x) ∷ l) w h = cc

  pub get_minimum_distance-marked :
      (l : Masked)
      → all_white l ≡ true
      → get_minimum_distance F (some dist) l
        ≡ some (if any_near (least_of l thousand) l then map (mark (least_of l thousand)) l else l)
  unfolding get_minimum_distance
  get_minimum_distance-marked l w =
      let least : Distance = (measure F dist l thousand []).0 in
      let dists = (measure F dist l thousand []).1 in
      let chosen : select_nearest F least dists 0 l ≡ some (map (mark least) l, hits least l) =
        select_nearest-white least dists 0 l w (measure-dists l thousand []) in
      rw (← measure-least_of l thousand [])
        (ground (arith, chosen, hits-any least l, whiten-mark least l w))

  white_distances-length : (l : Masked) → length (white_distances l) ≤ length l
  unfolding white_distances
  white_distances-length [] = omega arith
  white_distances-length ((ip, x) ∷ l) = ground (arith, white_distances-length l)

  masked-length : (l : Masked) → all_white l ≡ false → length (white_distances l) < length l
  unfolding white_distances
  masked-length [] h = cc
  masked-length ((ip, white) ∷ l) h = ground (arith, masked-length l h)
  masked-length ((ip, x) ∷ l) h = ground (arith, white_distances-length l)

  white_distances-append :
      (l m : Masked) → white_distances (l ++ m) ≡ white_distances l ++ white_distances m
  unfolding white_distances
  white_distances-append [] m = refl
  white_distances-append ((ip, white) ∷ l) m = ap (λ r. dist ip ∷ r) (white_distances-append l m)
  white_distances-append ((ip, x) ∷ l) m = white_distances-append l m

  one_white : (ip : IpRr) → length (white_distances ((ip, white) ∷ [])) ≡ 1
  unfolding white_distances
  one_white ip = refl

  select_later :
      (least : Distance) (dists : List Distance) (i : ℕ) (ip : IpRr) (x : Mask) (rest : Masked)
      → select_nearest F least dists (i + 1) rest ≡ none
      → select_nearest F least dists i ((ip, x) ∷ rest) ≡ none
  unfolding select_nearest
  select_later least dists i ip white rest h = ground arith
  select_later least dists i ip x rest h = ground arith

  select_nearest-panic :
      (least : Distance) (dists : List Distance) (i : ℕ) (l : Masked) (last : IpRr)
      → length dists ≤ i + length l
      → select_nearest F least dists i (l ++ (last, white) ∷ []) ≡ none
  unfolding select_nearest
  select_nearest-panic least dists i [] last h =
      ground (arith, get_elem?-none dists i (omega arith))
  select_nearest-panic least dists i ((ip, x) ∷ l) last h =
      let later : select_nearest F least dists (i + 1) (l ++ (last, white) ∷ []) ≡ none =
        select_nearest-panic least dists (i + 1) l last (omega arith) in
      select_later least dists i ip x (l ++ (last, white) ∷ []) later

  -- For a client whose coordinates are known, and addresses of which the last is white and another
  -- is not, GetMinimumDistance panics: it looks for the distance of the last address behind the end
  -- of the slice of distances.
  pub get_minimum_distance-panic :
      (l : Masked) (last : IpRr)
      → all_white l ≡ false
      → get_minimum_distance F (some dist) (l ++ (last, white) ∷ []) ≡ none
  unfolding get_minimum_distance
  get_minimum_distance-panic l last h =
      let whole : Masked = l ++ (last, white) ∷ [] in
      let dists : List Distance = (measure F dist whole thousand []).1 in
      let size : length dists ≤ 0 + length l =
        rw (measure-dists whole thousand [], white_distances-append l ((last, white) ∷ []))
          (omega (
            arith,
            length-append (white_distances l) (white_distances ((last, white) ∷ [])),
            masked-length l h,
            one_white last,
          )) in
      ground (arith, select_nearest-panic (measure F dist whole thousand []).0 dists 0 l last size)
