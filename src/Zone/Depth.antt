-- ===== src/Zone/Depth.antt =====
-- How deep a location lies: FindLocation of internal/types/zone.go answers no location with more dots
-- than the name it is asked.
use mathlib.Core.List.{reverse, reverse-cons}
use z.Prelude.{
  ℕ, Name, ◌+◌, ◌-◌, ◌≤◌, ◌≡◌, ◌≢◌, refl, sym, ap, ◌∙◌, Bool, true, false, Option, List, [], ◌∷◌,
  ◌++◌, ◌==◌, if◌then◌else◌, arith, zero, suc, length, take, has_prefix, has_suffix, trim_suffix,
  Bool-cases, inl, inr,
}
use z.Radix.{Radix}
use z.Zone.{
  ZoneConfig, Match, dot, exact_match, wildcard_match, reverse_name, new_zone, find_location,
}
use z.Zone.Reverse.{reverse_name-eq}
use z.Zone.Closest.{Located, star}
use z.Zone.Location.{find_location-Located}

abbrev pub dots : Name → ℕ
dots [] = 0
dots (c ∷ rest) = let later = dots rest in if c == dot then later + 1 else later

-- The answers that name a location for the query itself.
abbrev pub is_found : Match → Bool
is_found exact_match = true
is_found wildcard_match = true
is_found _ = false

dots-append : (l m : Name) → dots (l ++ m) ≡ dots l + dots m
dots-append [] m = omega arith
dots-append (c ∷ l) m = ground (arith, dots-append l m)

dots-reverse : (l : Name) → dots (reverse l) ≡ dots l
dots-reverse [] = refl
dots-reverse (c ∷ l) =
    rw (reverse-cons c l) (ground (arith, dots-append (reverse l) (c ∷ []), dots-reverse l))

dots-take : (n : ℕ) (l : Name) → dots (take n l) ≤ dots l
dots-take zero l = omega arith
dots-take (suc n) [] = omega arith
dots-take (suc n) (c ∷ l) = ground (arith, dots-take n l)

dots-trim_suffix : (s p : Name) → dots (trim_suffix s p) ≤ dots s
unfolding trim_suffix
dots-trim_suffix s p = elim (Bool-cases (has_suffix p s)) [
  | inl e ↦ rw e (dots-take (length s - length p) s)
  | inr e ↦ rw e (omega arith)
]

-- A prefix that stops before the last dot has no more dots than what is before it.
dots-prefix :
    (p m : Name) → has_prefix p (m ++ dot ∷ []) ≡ true → p ≢ m ++ dot ∷ [] → dots p ≤ dots m
dots-prefix [] m h k = omega arith
dots-prefix (a ∷ []) [] h k = absurd (k (ap (λ c. c ∷ []) (ground arith)))
dots-prefix (a ∷ b ∷ p) [] h k = ground arith
dots-prefix (a ∷ p) (b ∷ m) h k =
    let head : a ≡ b = ground arith in
    let later : has_prefix p (m ++ dot ∷ []) ≡ true = ground arith in
    let apart : p ≢ m ++ dot ∷ [] = λ e. k (rw (head, e)) in
    rw head (ground (arith, dots-prefix p m later apart))

-- The wildcard below a strict ancestor of the query lies no deeper than the query.
wildcard_depth :
    (p w query : Name)
    → reverse_name w ≡ p ++ star
    → has_prefix p (reverse_name query) ≡ true
    → p ≢ reverse_name query
    → dots w ≤ dots query
wildcard_depth p w query e within apart =
    let joined : dots (reverse w ++ dot ∷ []) ≡ dots (p ++ star) =
      ap dots (sym (reverse_name-eq w) ∙ e) in
    let inside : dots p ≤ dots (reverse query) =
      dots-prefix p (reverse query) (rw (reverse_name-eq query) at within)
        (λ h. apart (h ∙ sym (reverse_name-eq query))) in
    omega (
      arith,
      dots-append (reverse w) (dot ∷ []),
      dots-append p star,
      dots-reverse w,
      dots-reverse query,
    )

Located-depth :
    {locations : List Name} {query location : Name} {m : Match}
    → Located locations query location m
    → is_found m ≡ true
    → dots location ≤ dots query
Located-depth (Located.exact h) f = omega arith
Located-depth (Located.nonterminal h k) f = cc
Located-depth {query = query} (Located.wildcard p w h e c k) f =
    wildcard_depth p w query e c.within k
Located-depth (Located.root_wildcard h k) f = omega arith
Located-depth (Located.closest ce h d c k) f = cc
Located-depth (Located.below_nonterminal p h c d k) f = cc
Located-depth (Located.nothing h k) f = cc

-- For a zone that NewZone builds, a location that FindLocation answers for a query, exactly or by a
-- wildcard, has at most as many dots as the query.
pub find_location-dots :
    (R : Radix (Option Name)) (zone : Name) (locations : List Name) (config : ZoneConfig)
    (query : Name)
    → is_found (find_location R (new_zone R zone locations config) query).1 ≡ true
    → dots (find_location R (new_zone R zone locations config) query).0 ≤ dots query
find_location-dots R zone locations config query f =
    elim (find_location-Located R locations zone config query) [
      | inl (e, at_zone) ↦ rw at_zone (omega arith)
      | inr (e, located) ↦
          omega (arith, Located-depth located f, dots-trim_suffix query (dot ∷ zone))
    ]
