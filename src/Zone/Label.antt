-- ===== src/Zone/Label.antt =====
-- FindLocation of internal/types/zone.go on the name below the zone: what the longest prefix in the
-- radix tree, and the wildcard below it, say of the locations.
use z.Prelude.{
  Name, txt, same, same_iff, ◌≡◌, refl, sym, ap, ◌∙◌, ◌≢◌, true, false, Option, none, some, List,
  ◌++◌, arith, Bool-cases, inl, inr, listed, has_prefix, has_prefix_refl, eq_of_prefix, length,
}
use native.Mathlib.Decide.{dec_lt}
use z.Radix.{Radix}
use z.Zone.{
  reverse_name, exact_match, locations_tree_of, find_root_wildcard, find_below, find_below_empty,
  find_label,
}
use z.Zone.Reverse.{reverse_name-injective}
use z.Zone.Tree.{is_node, get-locations_tree_of, tree_location, tree_absent, tree_empty_node}
use z.Zone.Slots.{
  slot-cases, root_found, root_missing, below_found, below_missing, empty_found, empty_missing,
  below_same, empty_same,
}
use z.Zone.Closest.{apart_of_false, star, IsClosest, Located, star_place}

module _ (R : Radix (Option Name)) (locations : List Name) where
  open R use {
    Tree, get, longest_prefix, longest_prefix-none, longest_prefix-get, longest_prefix-has_prefix,
    longest_prefix-longest,
  }

  abbrev tree : Tree
  tree = locations_tree_of R locations

  tree-IsClosest :
      (rquery p : Name) (v : Option Name)
      → longest_prefix rquery tree ≡ some (p, v)
      → IsClosest locations rquery p
  tree-IsClosest rquery p v e = record {
    within = longest_prefix-has_prefix rquery tree p v e;
    longest = λ q h k. tree_absent R locations q (longest_prefix-longest rquery tree p v e q h k);
  }

  -- Without a location at a key there is no location with that reversed name.
  not_listed :
      (p : Name)
      → ((w : Name) → get p tree ≢ some (some w))
      → (w : Name) → reverse_name w ≡ p
      → listed w locations ≡ false
  not_listed p none_there w e = elim (Bool-cases (listed w locations)) [
    | inl found ↦
        absurd (none_there w (ground (arith, e, found, get-locations_tree_of R locations w)))
    | inr missing ↦ missing
  ]

  none_within :
      (rquery : Name)
      → longest_prefix rquery tree ≡ none
      → (q : Name) → has_prefix q rquery ≡ true
      → is_node locations q ≡ false
  none_within rquery e q h = tree_absent R locations q (longest_prefix-none rquery tree e q h)

  root-Located :
      (query : Name)
      → longest_prefix (reverse_name query) tree ≡ none
      → Located locations query (find_root_wildcard R tree).0 (find_root_wildcard R tree).1
  root-Located query e = elim (slot-cases R (get star tree)) [
    | inl missing ↦
        rw (root_missing R tree _ refl missing)
          (Located.nothing (none_within (reverse_name query) e) (not_listed star missing))
    | inr (w, found) ↦
        let (present, place) = tree_location R locations star w found in
        let name : w ≡ txt "*" = reverse_name-injective w (txt "*") (place ∙ star_place) in
        rw (root_found R tree w found)
          (Located.root_wildcard (rw name at present) (none_within (reverse_name query) e))
  ]

  below_apart-Located :
      (query p ce : Name)
      → longest_prefix (reverse_name query) tree ≡ some (p, some ce)
      → same p (reverse_name query) ≡ false
      → Located locations query
          (find_below R tree query (reverse_name query) p ce).0
          (find_below R tree query (reverse_name query) p ce).1
  below_apart-Located query p ce e apart =
      let (present, place) =
        tree_location R locations p ce (longest_prefix-get _ _ p (some ce) e) in
      let near : IsClosest locations (reverse_name query) p =
        tree-IsClosest (reverse_name query) p (some ce) e in
      let p_ne : p ≢ reverse_name query = apart_of_false p _ apart in
      elim (slot-cases R (get (p ++ star) tree)) [
        | inl missing ↦
            rw (below_missing R tree query (reverse_name query) p ce apart _ refl missing) (
              Located.closest ce present (λ q. p_ne (sym place ∙ ap reverse_name q)) (rw place near)
                (rw place (not_listed (p ++ star) missing)))
        | inr (w, found) ↦
            let (there, below) = tree_location R locations (p ++ star) w found in
            rw (below_found R tree query (reverse_name query) p ce apart w found)
              (Located.wildcard p w there below near p_ne)
      ]

  below-Located :
      (query p ce : Name)
      → longest_prefix (reverse_name query) tree ≡ some (p, some ce)
      → Located locations query
          (find_below R tree query (reverse_name query) p ce).0
          (find_below R tree query (reverse_name query) p ce).1
  below-Located query p ce e = elim (Bool-cases (same p (reverse_name query))) [
    | inl h ↦
        let (present, place) =
          tree_location R locations p ce (longest_prefix-get _ _ p (some ce) e) in
        let name : ce ≡ query = reverse_name-injective ce query (place ∙ (same_iff p _).0 h) in
        rw (below_same R tree query (reverse_name query) p ce h)
          (Located.exact (rw name at present))
    | inr h ↦ below_apart-Located query p ce e h
  ]

  empty_apart-Located :
      (query p : Name)
      → longest_prefix (reverse_name query) tree ≡ some (p, none)
      → same p (reverse_name query) ≡ false
      → Located locations query
          (find_below_empty R tree (reverse_name query) p).0
          (find_below_empty R tree (reverse_name query) p).1
  empty_apart-Located query p e apart =
      let inside = tree_empty_node R locations p (longest_prefix-get _ _ p none e) in
      let near : IsClosest locations (reverse_name query) p =
        tree-IsClosest (reverse_name query) p none e in
      let p_ne : p ≢ reverse_name query = apart_of_false p _ apart in
      elim (slot-cases R (get (p ++ star) tree)) [
        | inl missing ↦
            rw (empty_missing R tree (reverse_name query) p apart _ refl missing)
              (Located.below_nonterminal p inside near p_ne (not_listed (p ++ star) missing))
        | inr (w, found) ↦
            let (there, below) = tree_location R locations (p ++ star) w found in
            rw (empty_found R tree (reverse_name query) p apart w found)
              (Located.wildcard p w there below near p_ne)
      ]

  empty-Located :
      (query p : Name)
      → longest_prefix (reverse_name query) tree ≡ some (p, none)
      → Located locations query
          (find_below_empty R tree (reverse_name query) p).0
          (find_below_empty R tree (reverse_name query) p).1
  empty-Located query p e = elim (Bool-cases (same p (reverse_name query))) [
    | inl h ↦
        let here : p ≡ reverse_name query = (same_iff p _).0 h in
        let slot : get p tree ≡ some none = longest_prefix-get _ _ p none e in
        rw (empty_same R tree (reverse_name query) p h) (
          Located.nonterminal (not_listed p (λ w found. ground arith) query (sym here))
            (rw here at (tree_empty_node R locations p slot)))
    | inr h ↦ empty_apart-Located query p e h
  ]

  -- Whatever the tree answers for the query below the zone, its meaning holds of the locations.
  pub find_label-Located :
      (query : Name)
      → Located locations query (find_label R tree query).0 (find_label R tree query).1
  unfolding find_label
  find_label-Located query = go (longest_prefix (reverse_name query) tree) refl
    where
      go :
          (o : Option (Name × Option Name))
          → longest_prefix (reverse_name query) tree ≡ o
          → Located locations query (find_label R tree query).0 (find_label R tree query).1
      go none e = rw (e, find_label) (root-Located query e)
      go (some (p, some ce)) e = rw (e, find_label) (below-Located query p ce e)
      go (some (p, none)) e = rw (e, find_label) (empty-Located query p e)

  pub label_exact :
      (query : Name)
      → listed query locations ≡ true
      → (o : Option (Name × Option Name)) → longest_prefix (reverse_name query) tree ≡ o
      → find_label R tree query ≡ (query, exact_match)
  unfolding find_label
  label_exact query h none e =
      let here =
        longest_prefix-none _ tree e (reverse_name query) (has_prefix_refl (reverse_name query)) in
      ground (arith, here, get-locations_tree_of R locations query)
  label_exact query h (some (p, v)) e =
      let rquery = reverse_name query in
      let slot = longest_prefix-get rquery tree p v e in
      let inside = longest_prefix-has_prefix rquery tree p v e in
      let here : get rquery tree ≡ some (some query) =
        ground (arith, h, get-locations_tree_of R locations query) in
      elim (dec_lt (length p) (length rquery)) [
        | yes shorter ↦
            let gone : get rquery tree ≡ none =
              longest_prefix-longest rquery tree p v e rquery (has_prefix_refl rquery) shorter in
            cc
        | no whole ↦
            let whole_p : p ≡ rquery = eq_of_prefix p rquery inside (omega arith) in
            let joined : some v ≡ some (some query) =
              sym slot ∙ ap (λ k. get k tree) whole_p ∙ here in
            let value : v ≡ some query = cc in
            rw (e, find_label)
              (rw value (below_same R tree query rquery p query ((same_iff p rquery).1 whole_p)))
      ]
