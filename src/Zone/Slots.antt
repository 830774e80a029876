-- ===== src/Zone/Slots.antt =====
-- The slots of the radix tree that findLocation of internal/types/zone.go looks at: what the look at a
-- wildcard, or at the longest prefix itself, gives by what the slot holds.
use z.Prelude.{
  Name, txt, same, ◌≡◌, refl, ◌≢◌, true, false, Option, none, some, [], ◌++◌, arith, inl, inr, ◌⊎◌,
}
use z.Radix.{Radix}
use z.Zone.{
  exact_match, wildcard_match, empty_nonterminal_match, ce_match, no_match, find_root_wildcard,
  find_below, find_below_empty,
}
use z.Zone.Closest.{star}

module _ (R : Radix (Option Name)) where
  open R use {Tree, get}

  pub slot-cases :
      (o : Option (Option Name))
      → ((w : Name) → o ≢ some (some w)) ⊎ ((w : Name) × (o ≡ some (some w)))
  slot-cases none = inl (λ w e. cc)
  slot-cases (some none) = inl (λ w e. cc)
  slot-cases (some (some w)) = inr (w, refl)

  module _ (t : Tree) where
    pub root_found :
        (w : Name) → get star t ≡ some (some w) → find_root_wildcard R t ≡ (txt "*", wildcard_match)
    unfolding find_root_wildcard
    root_found w e = rw (e, find_root_wildcard)

    pub root_missing :
        (o : Option (Option Name))
        → get star t ≡ o
        → ((w : Name) → o ≢ some (some w))
        → find_root_wildcard R t ≡ ([], no_match)
    unfolding find_root_wildcard
    root_missing none e h = rw (e, find_root_wildcard)
    root_missing (some none) e h = rw (e, find_root_wildcard)
    root_missing (some (some w)) e h = absurd (h w refl)

    module _ (query rquery p ce : Name) (apart : same p rquery ≡ false) where
      pub below_found :
          (w : Name)
          → get (p ++ star) t ≡ some (some w)
          → find_below R t query rquery p ce ≡ (w, wildcard_match)
      unfolding find_below
      below_found w e = ground arith

      pub below_missing :
          (o : Option (Option Name))
          → get (p ++ star) t ≡ o
          → ((w : Name) → o ≢ some (some w))
          → find_below R t query rquery p ce ≡ (ce, ce_match)
      unfolding find_below
      below_missing none e h = ground arith
      below_missing (some none) e h = ground arith
      below_missing (some (some w)) e h = absurd (h w refl)

    module _ (rquery p : Name) (apart : same p rquery ≡ false) where
      pub empty_found :
          (w : Name)
          → get (p ++ star) t ≡ some (some w)
          → find_below_empty R t rquery p ≡ (w, wildcard_match)
      unfolding find_below_empty
      empty_found w e = ground arith

      pub empty_missing :
          (o : Option (Option Name))
          → get (p ++ star) t ≡ o
          → ((w : Name) → o ≢ some (some w))
          → find_below_empty R t rquery p ≡ ([], no_match)
      unfolding find_below_empty
      empty_missing none e h = ground arith
      empty_missing (some none) e h = ground arith
      empty_missing (some (some w)) e h = absurd (h w refl)

    pub below_same :
        (query rquery p ce : Name)
        → same p rquery ≡ true
        → find_below R t query rquery p ce ≡ (query, exact_match)
    unfolding find_below
    below_same query rquery p ce h = rw h

    pub empty_same :
        (rquery p : Name)
        → same p rquery ≡ true
        → find_below_empty R t rquery p ≡ ([], empty_nonterminal_match)
    unfolding find_below_empty
    empty_same rquery p h = rw h
