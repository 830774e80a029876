-- ===== src/Storage/Zones.antt =====
-- FindZone of internal/storage/data_handler.go finds the closest zone above a name, and none only if
-- there is none.
use mathlib.Core.List.{reverse, reverse-cons}
use z.Prelude.{
  ℕ, Name, same_iff, ◌<◌, ◌≡◌, ◌⊎◌, refl, sym, ◌∙◌, true, false, none, some, List, [], ◌∷◌, listed,
  has_prefix, has_suffix, length, length-append, if◌then◌else◌, arith, Option-cases, inl, inr,
}
use z.Radix.{Radix}
use z.Zone.{dot, reverse_name}
use z.Zone.Reverse.{reverse_name-eq, reverse_name-injective}
use z.Storage.{insert_zones, load_zones, find_zone}

module _ (R : Radix Name) where
  open R use {
    Tree, new, insert, get, get-new, get-insert, longest_prefix, longest_prefix-none,
    longest_prefix-get, longest_prefix-has_prefix, longest_prefix-longest,
  }

  get-insert_zones :
      (zones : List Name) (z : Name) (t : Tree)
      → get (reverse_name z) (insert_zones R zones t)
        ≡ (if listed z zones then some z else get (reverse_name z) t)
  unfolding insert_zones
  get-insert_zones [] z t = refl
  get-insert_zones (x ∷ rest) z t = ground (
    arith,
    get-insert_zones rest z (insert (reverse_name x) x t),
    get-insert (reverse_name x) (reverse_name z) x t,
    same_iff x z,
    same_iff (reverse_name x) (reverse_name z),
    reverse_name-injective x z,
  )

  insert_zones_sound :
      (zones : List Name) (k w : Name) (t : Tree)
      → get k (insert_zones R zones t) ≡ some w
      → (get k t ≡ some w) ⊎ ((listed w zones ≡ true) × (reverse_name w ≡ k))
  unfolding insert_zones
  insert_zones_sound [] k w t h = inl h
  insert_zones_sound (x ∷ rest) k w t h = ground (
    arith,
    insert_zones_sound rest k w (insert (reverse_name x) x t) h,
    get-insert (reverse_name x) k x t,
    same_iff x w,
    same_iff (reverse_name x) k,
  )

  -- The zone is the name itself or an ancestor of it, label by label.
  abbrev pub Above : Name → Name → Type 0
  Above zone qname = has_suffix (dot ∷ zone) (dot ∷ qname) ≡ true

  reverse_name-dot : (z : Name) → reverse_name z ≡ reverse (dot ∷ z)
  reverse_name-dot z = reverse_name-eq z ∙ sym (reverse-cons dot z)

  prefix_of_Above : (z q : Name) → Above z q → has_prefix (reverse_name z) (reverse_name q) ≡ true
  prefix_of_Above z q h = rw (reverse_name-dot z, reverse_name-dot q) h

  Above-of_prefix : (z q : Name) → has_prefix (reverse_name z) (reverse_name q) ≡ true → Above z q
  Above-of_prefix z q h = rw (reverse_name-dot z, reverse_name-dot q) at h

  length-reverse : (l : List ℕ) → length (reverse l) ≡ length l
  length-reverse [] = refl
  length-reverse (x ∷ l) =
      rw (reverse-cons x l) (omega (arith, length-append (reverse l) (x ∷ []), length-reverse l))

  shorter : (a b : Name) → length a < length b → length (reverse_name a) < length (reverse_name b)
  shorter a b h =
      rw (reverse_name-dot a, reverse_name-dot b)
        (omega (arith, length-reverse (dot ∷ a), length-reverse (dot ∷ b)))

  -- What FindZone answers for a list of zones.
  pub data Closest (zones : List Name) (qname : Name) : Name → Type 0 where
    missing : ((z : Name) → Above z qname → listed z zones ≡ false) → Closest zones qname []
    closest :
        (zone : Name)
        → listed zone zones ≡ true
        → Above zone qname
        → ((z : Name) → Above z qname → length zone < length z → listed z zones ≡ false)
        → Closest zones qname zone

  absent :
      (zones : List Name) (z : Name)
      → get (reverse_name z) (insert_zones R zones new) ≡ none
      → listed z zones ≡ false
  absent zones z h = ground (arith, get-insert_zones zones z new)

  -- After the zones are loaded from redis, FindZone answers a zone of the list that is the name
  -- itself or an ancestor of it, label by label, and no longer zone of the list is one; or it
  -- answers the empty name, and no zone of the list is one.
  pub find_zone-Closest :
      (zones : List Name) (old : Tree) (qname : Name)
      → Closest zones qname (find_zone R qname (load_zones R (some zones) old))
  unfolding find_zone load_zones
  find_zone-Closest zones old qname =
      let tree : Tree = insert_zones R zones new in
      elim (Option-cases (longest_prefix (reverse_name qname) tree)) [
        | inl e ↦
            rw (e, find_zone)
              (Closest.missing (λ z h. absent zones z (
                longest_prefix-none (reverse_name qname) tree e (reverse_name z)
                  (prefix_of_Above z qname h))))
        | inr ((k, zone), e) ↦
            let slot = longest_prefix-get (reverse_name qname) tree k zone e in
            let inside = longest_prefix-has_prefix (reverse_name qname) tree k zone e in
            elim (insert_zones_sound zones k zone new slot) [
              | inl empty ↦ absurd (ground (arith, get-new k))
              | inr (member, key) ↦
                  rw (e, find_zone)
                    (Closest.closest zone member (Above-of_prefix zone qname (rw key inside))
                      (λ z h longer. absent zones z (
                        longest_prefix-longest (reverse_name qname) tree k zone e (reverse_name z)
                          (prefix_of_Above z qname h) (rw key at (shorter zone z longer)))))
            ]
      ]
