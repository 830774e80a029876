-- ===== src/Hiredis/Keys.antt =====
-- SMembers and GetKeys of pkg/hiredis/hiredis.go over a server that answers in pages.
use mathlib.Core.Path.{sym}
use mathlib.Core.List.{reverse, reverse-append}
use z.Prelude.{
  ℕ, ◌-◌, ◌≤◌, Name, txt, same, ◌++◌, ◌≡◌, refl, ap, ◌∙◌, Bool, true, false, ◌||◌, Bool-cases, inl,
  inr, some, List, [], ◌∷◌, map, length, take, drop, has_prefix, length-append, listed, arith,
  same_iff, same_refl, trim_prefix, trim_suffix, has_prefix-append, append_assoc,
}
use z.Hiredis.{ok, Redigo, Config, stored_key}
use z.Hiredis.Scan.{insert_keys, scan_command, s_scan_command, get_keys, s_members, trim}
use z.Hiredis.Members.{
  IsDistinct, insert_keys-IsDistinct, listed-insert_keys, Pages, scan_pages_lem,
}

-- Go's range over a map visits each key once.
pub record IsReordering (order : List Name → List Name) : Type 0 where
  pub members : (x : Name) (l : List Name) → listed x (order l) ≡ listed x l
  pub distinct : (l : List Name) → IsDistinct l → IsDistinct (order l)

or-false : (b : Bool) → (b || false) ≡ b
or-false true = refl
or-false false = refl

pub drop-append : {A : Type 0} (p x : List A) → drop (length p) (p ++ x) ≡ x
drop-append [] x = refl
drop-append (a ∷ p) x = drop-append p x

take-append : {A : Type 0} (p x : List A) → take (length p) (p ++ x) ≡ p
take-append [] x = refl
take-append (a ∷ p) x = ap (λ l. a ∷ l) (take-append p x)

pub trim_prefix-append : (p x : Name) → trim_prefix (p ++ x) p ≡ x
unfolding trim_prefix
trim_prefix-append p x = rw (has_prefix-append p x) (drop-append p x)

pub trim_suffix-append : (x s : Name) → trim_suffix (x ++ s) s ≡ x
unfolding trim_suffix
trim_suffix-append x s =
    let suffixed : has_prefix (reverse s) (reverse (x ++ s)) ≡ true =
      rw (reverse-append x s) (has_prefix-append (reverse s) (reverse x)) in
    let size : length (x ++ s) - length s ≡ length x = omega (arith, length-append x s) in
    rw (suffixed) (rw (size) (take-append x s))

pub Bool-eq_of_iff : (a b : Bool) → (a ≡ true → b ≡ true) → (b ≡ true → a ≡ true) → a ≡ b
Bool-eq_of_iff true b f g = sym (f refl)
Bool-eq_of_iff false true f g = g refl
Bool-eq_of_iff false false f g = refl

module _ (R : Redigo) (config : Config) where
  abbrev stored : Name → Name
  stored = stored_key R config

  pub trim-stored_key : (k : Name) → trim R config (stored k) ≡ k
  trim-stored_key k =
      ap (λ x. trim_suffix (trim_prefix x config.prefix) config.suffix)
        (append_assoc config.prefix k config.suffix)
      ∙ ap (λ x. trim_suffix x config.suffix)
          (trim_prefix-append config.prefix (k ++ config.suffix))
      ∙ trim_suffix-append k config.suffix

  stored_key-injective : (j k : Name) → stored j ≡ stored k → j ≡ k
  stored_key-injective j k h = sym (trim-stored_key j) ∙ ap (trim R config) h ∙ trim-stored_key k

  pub same-stored_key : (j k : Name) → same (stored j) (stored k) ≡ same j k
  same-stored_key j k =
      Bool-eq_of_iff _ _
        (λ h. (same_iff j k).1 (stored_key-injective j k ((same_iff (stored j) (stored k)).0 h)))
        (λ h. (same_iff (stored j) (stored k)).1 (ap stored ((same_iff j k).0 h)))

  -- Every key of the list is one that this client makes.
  abbrev AreStored : List Name → Type 0
  AreStored m = (y : Name) → listed y m ≡ true → (k : Name) × (y ≡ stored k)

  listed-map-stored : (x : Name) (ks : List Name) → listed (stored x) (map stored ks) ≡ listed x ks
  listed-map-stored x [] = refl
  listed-map-stored x (k ∷ ks) = rw (same-stored_key k x, listed-map-stored x ks) refl

  map-AreStored : (ks : List Name) → AreStored (map stored ks)
  map-AreStored [] y h = cc
  map-AreStored (k ∷ ks) y h = elim (Bool-cases (same (stored k) y)) [
    | inl here ↦ (k, sym ((same_iff (stored k) y).0 here))
    | inr later ↦ map-AreStored ks y (sym (ap (λ b. b || listed y (map stored ks)) later) ∙ h)
  ]

  listed_head : (y : Name) (m : List Name) → listed y (y ∷ m) ≡ true
  listed_head y m = ap (λ b. b || listed y m) (same_refl y)

  listed_tail : (x y : Name) (m : List Name) → listed x m ≡ true → listed x (y ∷ m) ≡ true
  listed_tail x y m h = ground (arith, h)

  listed-map-trim :
      (x : Name) (m : List Name)
      → AreStored m
      → listed x (map (trim R config) m) ≡ listed (stored x) m
  listed-map-trim x [] h = refl
  listed-map-trim x (y ∷ m) h =
      let (k, made) = h y (listed_head y m) in
      let first : same (trim R config y) x ≡ same y (stored x) =
        ap (λ z. same (trim R config z) x) made
        ∙ ap (λ z. same z x) (trim-stored_key k)
        ∙ sym (same-stored_key k x)
        ∙ ap (λ z. same z (stored x)) (sym made) in
      rw (first, listed-map-trim x m (λ z j. h z (listed_tail z y m j))) refl

  map-trim-IsDistinct :
      (m : List Name) → AreStored m → IsDistinct m → IsDistinct (map (trim R config) m)
  map-trim-IsDistinct [] h d = tt
  map-trim-IsDistinct (y ∷ m) h (new, d) =
      let (k, made) = h y (listed_head y m) in
      let rest : AreStored m = λ z j. h z (listed_tail z y m j) in
      let back : stored (trim R config y) ≡ y =
        ap (λ z. stored (trim R config z)) made ∙ ap stored (trim-stored_key k) ∙ sym made in
      (
        listed-map-trim (trim R config y) m rest ∙ ap (λ z. listed z m) back ∙ new,
        map-trim-IsDistinct m rest d,
      )

module _ (R : Redigo) (config : Config) (order : List Name → List Name)
    (reorders : IsReordering order) where
  -- What SMembers returns: the members on all pages, each once.
  pub s_members_lem :
      (set : Name) (s s' : R.Server) (n fuel : ℕ) (keys : List Name)
      → R.connected s ≡ true
      → Pages R (s_scan_command R config order set) R.strings_of (txt "0") s n keys s'
      → n ≤ fuel
      → (l : List Name) × (s_members R config order set fuel s ≡ (some (ok l), s'))
        × ((x : Name) → listed x l ≡ listed x keys)
  unfolding s_members
  s_members_lem set s s' n fuel keys connected pages enough = (
    order (insert_keys keys []),
    rw (scan_pages_lem R _ R.strings_of pages fuel [] enough) (rw (connected) refl),
    λ x.
        reorders.members x (insert_keys keys [])
        ∙ listed-insert_keys x keys []
        ∙ or-false (listed x keys),
  )

  -- If the client is connected, the server answers GetKeys with n pages from cursor 0 on, of keys
  -- that are the given ones between the client's prefix and suffix, and there is fuel for n rounds,
  -- then GetKeys returns a list that holds the given keys and no others, each once, without prefix
  -- and suffix.
  pub get_keys_lem :
      (pattern : Name) (s s' : R.Server) (n fuel : ℕ) (keys : List Name)
      → R.connected s ≡ true
      → Pages R
          (scan_command R config order pattern)
          R.strings_of
          (txt "0")
          s
          n
          (map (stored_key R config) keys)
          s'
      → n ≤ fuel
      → (l : List Name) × (get_keys R config order pattern fuel s ≡ (some (ok l), s'))
        × IsDistinct l
        × ((x : Name) → listed x l ≡ listed x keys)
  unfolding get_keys
  get_keys_lem pattern s s' n fuel keys connected pages enough =
      let all : List Name = map (stored_key R config) keys in
      let found : List Name = order (insert_keys all []) in
      let listed_found : (y : Name) → listed y found ≡ listed y all = λ y.
        reorders.members y (insert_keys all [])
        ∙ listed-insert_keys y all []
        ∙ or-false (listed y all) in
      let made : (y : Name) → listed y found ≡ true → (k : Name) × (y ≡ stored_key R config k) =
        λ y h. map-AreStored R config keys y (sym (listed_found y) ∙ h) in
      (
        map (trim R config) found,
        rw (scan_pages_lem R _ R.strings_of pages fuel [] enough) (rw (connected) refl),
        map-trim-IsDistinct R config found made
            (reorders.distinct _ (insert_keys-IsDistinct all [] tt)),
        λ x.
            listed-map-trim R config x found made
            ∙ listed_found (stored_key R config x)
            ∙ listed-map-stored R config x keys,
      )
