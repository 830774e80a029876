-- ===== src/Storage/Typed.antt =====
-- The types of the sets in an entry of internal/storage/data_handler.go, and the keys of the sets,
-- which differ where the names of the types do.
use mathlib.Core.Path.{sym}
use z.Prelude.{
  ℕ, Name, txt, same, same_iff, ◌==◌, ◌≡◌, refl, ap, ◌∙◌, Bool, true, false, ◌&&◌, not, Bool-cases,
  ◌⊎◌, inl, inr, Option, none, List, [], ◌∷◌, ◌++◌, if◌then◌else◌, length, drop,
}
use z.Types.Rr.{type_aname}
use z.Types.Sets.{RrSet}
use z.Hiredis.{Failure, Result, ok, err}
use z.Hiredis.Keys.{drop-append}
use z.Storage.{key_prefix, colon, zone_location_rr_set_key}
use z.Storage.Records.{Codec}

-- The set of a type in an entry.
abbrev pub set_of_type : ℕ → List (ℕ × Option RrSet) → Option RrSet
set_of_type rtype [] = none
set_of_type rtype ((t, o) ∷ rest) =
    let later = set_of_type rtype rest in if t == rtype then o else later

-- No set of the list has the type.
abbrev pub without_type : ℕ → List (ℕ × Option RrSet) → Bool
without_type rtype [] = true
without_type rtype ((t, o) ∷ rest) = not (t == rtype) && without_type rtype rest

abbrev pub all_differ : List (ℕ × Option RrSet) → Bool
all_differ [] = true
all_differ ((t, o) ∷ rest) = without_type t rest && all_differ rest

-- The name of a type in a key.
abbrev pub type_name : Codec → ℕ → Name
type_name J rtype = if rtype == type_aname then txt "ANAME" else J.type_to_string rtype

pub Result-cases :
    {A : Type 0} (r : Result A) → ((e : Failure) × (r ≡ err e)) ⊎ ((a : A) × (r ≡ ok a))
Result-cases (err e) = inl (e, refl)
Result-cases (ok a) = inr (a, refl)

append-cancel : {A : Type 0} (p x y : List A) → p ++ x ≡ p ++ y → x ≡ y
append-cancel p x y h = sym (drop-append p x) ∙ ap (drop (length p)) h ∙ drop-append p y

pub and_left : (a b : Bool) → (a && b) ≡ true → a ≡ true
and_left true b h = refl
and_left false b h = cc

pub and_right : (a b : Bool) → (a && b) ≡ true → b ≡ true
and_right true b h = h
and_right false b h = cc

pub not-true : {a : Bool} → not a ≡ true → a ≡ false
not-true {a = true} h = cc
not-true {a = false} h = refl

module _ (J : Codec) (zone label : Name) where
  abbrev pub rr_set_key : ℕ → Name
  rr_set_key rtype = zone_location_rr_set_key J.type_to_string zone label rtype

  rr_set_key-injective : (t u : ℕ) → rr_set_key t ≡ rr_set_key u → type_name J t ≡ type_name J u
  unfolding zone_location_rr_set_key
  rr_set_key-injective t u h = append-cancel (colon ∷ []) _ _ (
      append-cancel label _ _ (
        append-cancel (txt ":labels:") _ _
          (append-cancel zone _ _ (append-cancel key_prefix _ _ h))))

  pub same-rr_set_key :
      (t u : ℕ)
      → same (type_name J t) (type_name J u) ≡ false
      → same (rr_set_key t) (rr_set_key u) ≡ false
  same-rr_set_key t u h = elim (Bool-cases (same (rr_set_key t) (rr_set_key u))) [
    | inr differ ↦ differ
    | inl alike ↦ cc (
        (same_iff (type_name J t) (type_name J u)).1
          (rr_set_key-injective t u ((same_iff (rr_set_key t) (rr_set_key u)).0 alike)))
  ]
