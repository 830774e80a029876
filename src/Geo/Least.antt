-- ===== src/Geo/Least.antt =====
-- The least distance in GetMinimumDistance of internal/geotools/geotools.go.
use mathlib.Core.Path.{subst, sym}
use z.Prelude.{
  ℕ, suc, get_elem?, ◌≡◌, ◌⊎◌, refl, true, false, some, [], ◌∷◌, map, inl, inr, Bool-cases, All,
  if◌then◌else◌,
}
use z.Types.Sets.{IpRr}
use z.Geo.{Mask, Masked, white, Distances, get_minimum_distance}
use z.Geo.Nearest.{all_white, least_of, mark, any_near, get_minimum_distance-marked}

module _ (F : Distances) where
  open F use {Distance, less}

  -- The comparison of floating point numbers, on which GetMinimumDistance rests.
  pub record IsLess : Type 0 where
    pub irreflexive : (d : Distance) → less d d ≡ false
    pub transitive : (d e f : Distance) → less d e ≡ true → less e f ≡ true → less d f ≡ true

module _ (F : Distances) (dist : IpRr → F.Distance) where
  open F use {Distance, less, thousand}

  -- No address is nearer, nor is 1000, and it is the distance of an address or 1000 itself.
  pub record IsLeast (l : Masked) (least : Distance) : Type 0 where
    pub below_all : All (λ e. less (dist e.0) least ≡ false) l
    pub below_start : less thousand least ≡ false
    pub attained :
        (least ≡ thousand)
        ⊎ ((n : ℕ) × (e : IpRr × Mask) × (get_elem? l n ≡ some e) × (least ≡ dist e.0))

  module _ (order : IsLess F) where
    open order use {irreflexive, transitive}

    -- The least distance so far.
    abbrev Below : Distance → Distance → Type 0
    Below least d = less d least ≡ false

    -- A value that is not below the old least is not below a new one either.
    lower-Below :
        (least lower d : Distance) → less lower least ≡ true → Below least d → Below lower d
    lower-Below least lower d l h = elim (Bool-cases (less d lower)) [
      | inl under ↦ absurd (cc (transitive d lower least under l, h))
      | inr not_under ↦ not_under
    ]

    next_least : IpRr → Distance → Distance
    next_least ip least = if less (dist ip) least then dist ip else least

    next_least-Below :
        (ip : IpRr) (least d : Distance) → Below least d → Below (next_least ip least) d
    unfolding next_least
    next_least-Below ip least d h = elim (Bool-cases (less (dist ip) least)) [
      | inl lower ↦ rw (lower) (lower-Below least (dist ip) d lower h)
      | inr higher ↦ rw (higher) h
    ]

    next_least-dist : (ip : IpRr) (least : Distance) → Below (next_least ip least) (dist ip)
    unfolding next_least
    next_least-dist ip least = elim (Bool-cases (less (dist ip) least)) [
      | inl lower ↦ rw (lower) (irreflexive (dist ip))
      | inr higher ↦ rw (higher) higher
    ]

    least_of-next :
        (ip : IpRr) (l : Masked) (least : Distance)
        → least_of F dist ((ip, white) ∷ l) least ≡ least_of F dist l (next_least ip least)
    unfolding least_of next_least
    least_of-next ip l least = refl

    least_of-Below :
        (l : Masked) (least d : Distance)
        → all_white l ≡ true
        → Below least d
        → Below (least_of F dist l least) d
    unfolding least_of
    least_of-Below [] least d w h = h
    least_of-Below ((ip, white) ∷ l) least d w h =
        subst (λ x. Below x d) (sym (least_of-next ip l least))
          (least_of-Below l (next_least ip least) d w (next_least-Below ip least d h))
    least_of-Below ((ip, x) ∷ l) least d w h = cc

    least_of-All :
        (l : Masked) (least : Distance)
        → all_white l ≡ true
        → All (λ e. less (dist e.0) (least_of F dist l least) ≡ false) l
    least_of-All [] least w = tt
    least_of-All ((ip, white) ∷ l) least w =
        subst (λ x. All (λ e. less (dist e.0) x ≡ false) ((ip, white) ∷ l))
          (sym (least_of-next ip l least))
          (
            least_of-Below l (next_least ip least) (dist ip) w (next_least-dist ip least),
            least_of-All l (next_least ip least) w,
          )
    least_of-All ((ip, x) ∷ l) least w = cc

    -- Where the least distance comes from.
    abbrev Attained : Masked → Distance → Distance → Type 0
    Attained l start least =
        (least ≡ start)
        ⊎ ((n : ℕ) × (e : IpRr × Mask) × (get_elem? l n ≡ some e) × (least ≡ dist e.0))

    later_Attained :
        (e : IpRr × Mask) (l : Masked) (start least : Distance)
        → Attained l start least
        → Attained (e ∷ l) start least
    later_Attained e l start least (inl h) = inl h
    later_Attained e l start least (inr (n, f, m, h)) = inr (suc n, f, m, h)

    first_Attained :
        (ip : IpRr) (l : Masked) (start least : Distance)
        → Attained l (dist ip) least
        → Attained ((ip, white) ∷ l) start least
    first_Attained ip l start least (inl h) = inr (0, (ip, white), refl, h)
    first_Attained ip l start least (inr (n, f, m, h)) = inr (suc n, f, m, h)

    least_of-Attained :
        (l : Masked) (start : Distance)
        → all_white l ≡ true
        → Attained l start (least_of F dist l start)
    unfolding least_of
    least_of-Attained [] start w = inl refl
    least_of-Attained ((ip, white) ∷ l) start w = elim (Bool-cases (less (dist ip) start)) [
      | inl lower ↦ rw (lower) (first_Attained ip l start _ (least_of-Attained l (dist ip) w))
      | inr higher ↦
          rw (higher) (later_Attained (ip, white) l start _ (least_of-Attained l start w))
    ]
    least_of-Attained ((ip, x) ∷ l) start w = cc

    -- If the comparison of distances is irreflexive and transitive, and the client's coordinates
    -- are known, then on addresses that are all white GetMinimumDistance returns, for the least of
    -- 1000 and the distances of the addresses: those at that distance stay white and the others
    -- become grey, or, if none is at that distance, as when all are further than 1000, all stay
    -- white.
    pub get_minimum_distance-white :
        (l : Masked)
        → all_white l ≡ true
        → (least : Distance) × IsLeast l least
          × (get_minimum_distance F (some dist) l
              ≡ some (if any_near F dist least l then map (mark F dist least) l else l))
    get_minimum_distance-white l w = (
      least_of F dist l thousand,
      record {
        below_all = least_of-All l thousand w;
        below_start = least_of-Below l thousand thousand w (irreflexive thousand);
        attained = least_of-Attained l thousand w;
      },
      get_minimum_distance-marked F dist l w,
    )
