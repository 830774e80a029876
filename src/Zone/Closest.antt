-- ===== src/Zone/Closest.antt =====
-- What the answers of FindLocation of internal/types/zone.go mean, against the list of locations.
use z.Prelude.{
  same, same_iff, arith, Name, txt, ◌<◌, ◌≡◌, refl, ◌≢◌, true, false, List, [], ◌++◌, listed,
  has_prefix, length,
}
use z.Zone.{
  Match, reverse_name, exact_match, wildcard_match, empty_nonterminal_match, ce_match, no_match,
}
use z.Zone.Tree.{is_node}

abbrev pub star : Name
star = txt "*."

-- `p` is on the way to the query, and nothing longer on that way is a location or an ancestor of one.
pub record IsClosest (locations : List Name) (rquery p : Name) : Type 0 where
  pub within : has_prefix p rquery ≡ true
  pub longest :
      (q : Name) → has_prefix q rquery ≡ true → length p < length q → is_node locations q ≡ false

-- No location is the wildcard directly below `p`.
abbrev pub NoWildcard : List Name → Name → Type 0
NoWildcard locations p = (w : Name) → reverse_name w ≡ p ++ star → listed w locations ≡ false

-- The meaning of each answer for a query that lies below the zone's name.
pub data Located (locations : List Name) (query : Name) : Name → Match → Type 0 where
  exact : listed query locations ≡ true → Located locations query query exact_match
  nonterminal :
      listed query locations ≡ false
      → is_node locations (reverse_name query) ≡ true
      → Located locations query [] empty_nonterminal_match
  wildcard :
      (p w : Name)
      → listed w locations ≡ true
      → reverse_name w ≡ p ++ star
      → IsClosest locations (reverse_name query) p
      → p ≢ reverse_name query
      → Located locations query w wildcard_match
  root_wildcard :
      listed (txt "*") locations ≡ true
      → ((q : Name) → has_prefix q (reverse_name query) ≡ true → is_node locations q ≡ false)
      → Located locations query (txt "*") wildcard_match
  closest :
      (ce : Name)
      → listed ce locations ≡ true
      → ce ≢ query
      → IsClosest locations (reverse_name query) (reverse_name ce)
      → NoWildcard locations (reverse_name ce)
      → Located locations query ce ce_match
  below_nonterminal :
      (p : Name)
      → is_node locations p ≡ true
      → IsClosest locations (reverse_name query) p
      → p ≢ reverse_name query
      → NoWildcard locations p
      → Located locations query [] no_match
  nothing :
      ((q : Name) → has_prefix q (reverse_name query) ≡ true → is_node locations q ≡ false)
      → NoWildcard locations []
      → Located locations query [] no_match

pub exact-listed :
    {locations : List Name} {query location : Name} {m : Match}
    → Located locations query location m
    → m ≡ exact_match
    → listed query locations ≡ true
exact-listed (Located.exact h) e = h
exact-listed (Located.nonterminal h k) e = cc
exact-listed (Located.wildcard p w h a c d) e = cc
exact-listed (Located.root_wildcard h k) e = cc
exact-listed (Located.closest ce h d c k) e = cc
exact-listed (Located.below_nonterminal p h c d k) e = cc
exact-listed (Located.nothing h k) e = cc

pub star_place : star ≡ reverse_name (txt "*")
unfolding reverse_name
star_place = refl

pub apart_of_false : (a b : Name) → same a b ≡ false → a ≢ b
apart_of_false a b h e = ground (arith, same_iff a b)
