-- ===== src/Zone/Tree.antt =====
-- What NewZone of internal/types/zone.go puts into the tree of a zone.
use z.Prelude.{
  ℕ, Name, same, same_iff, ◌+◌, ◌≡◌, refl, Bool, true, false, Option, none, some, List, [], ◌∷◌,
  ◌&&◌, ◌||◌, take, arith, ◌==◌, if◌then◌else◌, inl, ◌⊎◌, listed,
}
use z.Radix.{Radix}
use z.Zone.{
  dot, reverse_name, insert_ancestors, insert_all_ancestors, insert_locations, locations_tree_of,
}
use z.Zone.Reverse.{reverse_name-injective}

-- `k` is a prefix of `rvalue` that ends at a dot, at the index `i` or behind it.
ends_at : ℕ → Name → Name → Name → Bool
ends_at i rvalue [] k = false
ends_at i rvalue (c ∷ rest) k =
    (c == dot && same (take (i + 1) rvalue) k) || ends_at (i + 1) rvalue rest k

-- `k` is the reversed name of a location or of an ancestor of one.
pub is_node : List Name → Name → Bool
unfolding ends_at
is_node [] k = false
is_node (l ∷ rest) k = ends_at 0 (reverse_name l) (reverse_name l) k || is_node rest k

-- What the tree holds at a key that has no location.
abbrev pub node : Bool → Option (Option Name)
node true = some none
node false = none

module _ (R : Radix (Option Name)) where
  open R use {Tree, new, insert, get, get-new, get-insert}

  abbrev keep_or : Option (Option Name) → Bool → Option (Option Name)
  keep_or none b = node b
  keep_or (some v) b = some v

  get-insert_ancestors :
      (i : ℕ) (rvalue rest k : Name) (t : Tree)
      → get k (insert_ancestors R i rvalue rest t) ≡ keep_or (get k t) (ends_at i rvalue rest k)
  unfolding insert_ancestors ends_at
  get-insert_ancestors i rvalue [] k t = ground arith
  get-insert_ancestors i rvalue (c ∷ rest) k t = ground (
    arith,
    get-insert_ancestors (i + 1) rvalue rest k t,
    get-insert_ancestors (i + 1) rvalue rest k (insert (take (i + 1) rvalue) none t),
    get-insert (take (i + 1) rvalue) k none t,
    same_iff (take (i + 1) rvalue) k,
  )

  get-insert_all_ancestors :
      (locations : List Name) (k : Name) (t : Tree)
      → get k (insert_all_ancestors R locations t) ≡ keep_or (get k t) (is_node locations k)
  unfolding insert_all_ancestors is_node
  get-insert_all_ancestors [] k t = ground arith
  get-insert_all_ancestors (l ∷ rest) k t = ground (
    arith,
    get-insert_all_ancestors rest k (insert_ancestors R 0 (reverse_name l) (reverse_name l) t),
    get-insert_ancestors 0 (reverse_name l) (reverse_name l) k t,
  )

  -- The name that the tree holds at a key, if a location has that reversed name.
  get-insert_locations :
      (locations : List Name) (l : Name) (t : Tree)
      → get (reverse_name l) (insert_locations R locations t)
        ≡ (if listed l locations then some (some l) else get (reverse_name l) t)
  unfolding insert_locations
  get-insert_locations [] l t = refl
  get-insert_locations (x ∷ rest) l t = ground (
    arith,
    get-insert_locations rest l (insert (reverse_name x) (some x) t),
    get-insert (reverse_name x) (reverse_name l) (some x) t,
    same_iff x l,
    same_iff (reverse_name x) (reverse_name l),
    reverse_name-injective x l,
  )

  -- A location that the tree holds is one of the list, at its reversed name.
  insert_locations_sound :
      (locations : List Name) (k w : Name) (t : Tree)
      → get k (insert_locations R locations t) ≡ some (some w)
      → (get k t ≡ some (some w)) ⊎ ((listed w locations ≡ true) × (reverse_name w ≡ k))
  unfolding insert_locations
  insert_locations_sound [] k w t h = inl h
  insert_locations_sound (x ∷ rest) k w t h = ground (
    arith,
    insert_locations_sound rest k w (insert (reverse_name x) (some x) t) h,
    get-insert (reverse_name x) k (some x) t,
    same_iff x w,
    same_iff (reverse_name x) k,
  )

  insert_locations-keeps :
      (locations : List Name) (k : Name) (t : Tree)
      → get k (insert_locations R locations t) ≡ none
      → get k t ≡ none
  unfolding insert_locations
  insert_locations-keeps [] k t h = h
  insert_locations-keeps (x ∷ rest) k t h = ground (
    arith,
    insert_locations-keeps rest k (insert (reverse_name x) (some x) t) h,
    get-insert (reverse_name x) k (some x) t,
  )

  insert_locations-nil :
      (locations : List Name) (k : Name) (t : Tree)
      → get k (insert_locations R locations t) ≡ some none
      → get k t ≡ some none
  unfolding insert_locations
  insert_locations-nil [] k t h = h
  insert_locations-nil (x ∷ rest) k t h = ground (
    arith,
    insert_locations-nil rest k (insert (reverse_name x) (some x) t) h,
    get-insert (reverse_name x) k (some x) t,
  )

  module _ (locations : List Name) where
    fresh : (k : Name) → get k (insert_all_ancestors R locations new) ≡ node (is_node locations k)
    fresh k = ground (arith, get-insert_all_ancestors locations k new, get-new k)

    -- At the reversed name of any label the tree tells locations, empty nodes and the rest apart.
    pub get-locations_tree_of :
        (l : Name)
        → get (reverse_name l) (locations_tree_of R locations) ≡ (
            if listed l locations then some (some l) else node (is_node locations (reverse_name l)))
    unfolding locations_tree_of
    get-locations_tree_of l = ground (
      arith,
      get-insert_locations locations l (insert_all_ancestors R locations new),
      fresh (reverse_name l),
    )

    pub tree_location :
        (k w : Name)
        → get k (locations_tree_of R locations) ≡ some (some w)
        → (listed w locations ≡ true) × (reverse_name w ≡ k)
    unfolding locations_tree_of
    tree_location k w h = ground (
      arith,
      insert_locations_sound locations k w (insert_all_ancestors R locations new) h,
      fresh k,
    )

    pub tree_absent :
        (k : Name) → get k (locations_tree_of R locations) ≡ none → is_node locations k ≡ false
    unfolding locations_tree_of
    tree_absent k h = ground (
      arith,
      insert_locations-keeps locations k (insert_all_ancestors R locations new) h,
      fresh k,
    )

    pub tree_empty_node :
        (k : Name) → get k (locations_tree_of R locations) ≡ some none → is_node locations k ≡ true
    unfolding locations_tree_of
    tree_empty_node k h =
        ground (
          arith,
          insert_locations-nil locations k (insert_all_ancestors R locations new) h,
          fresh k,
        )
