-- ===== src/Tests/Tree.antt =====
-- The radix tree as a list of entries, the last inserted first: the documented behaviour of
-- go-immutable-radix can hold.
use z.Prelude.{
  Name, ◌<◌, ◌≡◌, refl, Option, none, some, true, List, [], ◌∷◌, same, same_iff, same_refl,
  has_prefix, length, ltb, if◌then◌else◌, arith, Bool-cases, Option-cases, inl, inr,
}
use z.Radix.{Radix}

module _ {V : Type 0} where
  abbrev entry_of : Name → List (Name × V) → Option V
  entry_of j [] = none
  entry_of j ((k, v) ∷ t) = let later = entry_of j t in if same k j then some v else later

  abbrev longer : Name → V → Option (Name × V) → Option (Name × V)
  longer p v none = some (p, v)
  longer p v (some (q, w)) = if ltb (length p) (length q) then some (q, w) else some (p, v)

  abbrev longest_of : Name → List (Name × V) → Option (Name × V)
  longest_of k [] = none
  longest_of k ((p, v) ∷ t) =
      let later = longest_of k t in if has_prefix p k then longer p v later else later

  pub longest_of-none :
      (k : Name) (t : List (Name × V))
      → longest_of k t ≡ none
      → (p : Name) → has_prefix p k ≡ true
      → entry_of p t ≡ none
  longest_of-none k [] h p e = refl
  longest_of-none k ((q, v) ∷ t) h p e = elim (Option-cases (longest_of k t)) [
    | inl n ↦ ground (arith, same_iff q p, longest_of-none k t n p e)
    | inr ((q', w), n) ↦ elim (Bool-cases (has_prefix q k)) [
      | inl a ↦ ground arith
      | inr a ↦ ground arith
    ]
  ]

  pub longest_of-has_prefix :
      (k : Name) (t : List (Name × V)) (p : Name) (v : V)
      → longest_of k t ≡ some (p, v)
      → has_prefix p k ≡ true
  longest_of-has_prefix k [] p v h = ground arith
  longest_of-has_prefix k ((q, w) ∷ t) p v h = elim (Option-cases (longest_of k t)) [
    | inl n ↦ ground arith
    | inr ((q', w'), n) ↦ ground (arith, longest_of-has_prefix k t q' w' n)
  ]

  pub longest_of-get :
      (k : Name) (t : List (Name × V)) (p : Name) (v : V)
      → longest_of k t ≡ some (p, v)
      → entry_of p t ≡ some v
  longest_of-get k [] p v h = ground arith
  longest_of-get k ((q, w) ∷ t) p v h = elim (Option-cases (longest_of k t)) [
    | inl n ↦ ground (arith, same_refl q)
    | inr ((q', w'), n) ↦ ground (
      arith,
      same_refl q,
      same_iff q q',
      longest_of-get k t q' w' n,
      longest_of-has_prefix k t q' w' n,
    )
  ]

  pub longest_of-longest :
      (k : Name) (t : List (Name × V)) (p : Name) (v : V)
      → longest_of k t ≡ some (p, v)
      → (q : Name) → has_prefix q k ≡ true
      → length p < length q
      → entry_of q t ≡ none
  longest_of-longest k [] p v h q e l = refl
  longest_of-longest k ((r, w) ∷ t) p v h q e l = elim (Option-cases (longest_of k t)) [
    | inl n ↦ ground (arith, same_iff r q, longest_of-none k t n q e)
    | inr ((q', w'), n) ↦ ground (arith, same_iff r q, longest_of-longest k t q' w' n q e)
  ]

-- The implementation of the interface.
abbrev pub assoc_radix : (V : Type 0) → Radix V
assoc_radix V = record {
  Tree = List (Name × V);
  new = [];
  insert = λ k v t. (k, v) ∷ t;
  get = entry_of;
  longest_prefix = longest_of;
  get-new = λ k. refl;
  get-insert = λ k j v t. refl;
  longest_prefix-none = longest_of-none;
  longest_prefix-get = longest_of-get;
  longest_prefix-has_prefix = longest_of-has_prefix;
  longest_prefix-longest = longest_of-longest;
}
