-- ===== src/Storage/Keys.antt =====
-- The names of the redis entries of internal/storage/data_handler.go are taken apart as they are put
-- together, and TTLs are kept within their bounds.
use z.Prelude.{
  ℕ, Name, txt, ◌≡◌, refl, ap, ◌∙◌, Bool, true, [], ◌∷◌, ◌++◌, ◌==◌, ◌&&◌, not, if◌then◌else◌,
  arith, trim_prefix,
}
use z.Types.Rr.{type_aname}
use z.Storage.{
  colon, key_prefix, zone_location_rr_set_key, split_colon, split_db_key, is_rr_set_entry,
}

-- No colon stands in the name.
abbrev pub colon_free : Name → Bool
colon_free [] = true
colon_free (c ∷ l) = not (c == colon) && colon_free l

-- A name without colons in front of a colon is the first part.
pub split_colon-cons :
    (a rest : Name)
    → colon_free a ≡ true
    → split_colon (a ++ colon ∷ rest) ≡ (a, (split_colon rest).0 ∷ (split_colon rest).1)
unfolding split_colon
split_colon-cons [] rest h = refl
split_colon-cons (c ∷ a) rest h = ground (arith, split_colon-cons a rest)

pub split_colon-free : (a : Name) → colon_free a ≡ true → split_colon a ≡ (a, [])
unfolding split_colon
split_colon-free [] h = refl
split_colon-free (c ∷ a) h = ground (arith, split_colon-free a)

pub split_db_key-append :
    (rest : Name) → split_db_key (key_prefix ++ rest) ≡ (split_colon rest).0 ∷ (split_colon rest).1
unfolding split_db_key trim_prefix
split_db_key-append rest = refl

-- The parts of four names without colons, and of two.
split_colon-four :
    (a b c d : Name)
    → colon_free a ≡ true
    → colon_free b ≡ true
    → colon_free c ≡ true
    → colon_free d ≡ true
    → split_colon (a ++ colon ∷ (b ++ colon ∷ (c ++ colon ∷ d))) ≡ (a, b ∷ c ∷ d ∷ [])
split_colon-four a b c d ha hb hc hd =
    split_colon-cons a (b ++ colon ∷ (c ++ colon ∷ d)) ha
    ∙ rw (split_colon-cons b (c ++ colon ∷ d) hb, split_colon-cons c d hc, split_colon-free d hd)

pub split_colon-two :
    (a b : Name)
    → colon_free a ≡ true
    → colon_free b ≡ true
    → split_colon (a ++ colon ∷ b) ≡ (a, b ∷ [])
split_colon-two a b ha hb = split_colon-cons a b ha ∙ rw (split_colon-free b hb)

pub type_free :
    (type_to_string : ℕ → Name) (rtype : ℕ)
    → colon_free (type_to_string rtype) ≡ true
    → colon_free (if rtype == type_aname then txt "ANAME" else type_to_string rtype) ≡ true
type_free type_to_string rtype h = ground arith

-- If no colon stands in the zone, the label and the name of the type, then splitDbKey takes the key
-- of a record set apart into the zone, "labels", the label and the name of the type, "ANAME" for
-- that type, and isRRSetEntry accepts it.
pub split_db_key-zone_location_rr_set_key :
    (type_to_string : ℕ → Name) (zone label : Name) (rtype : ℕ)
    → colon_free zone ≡ true
    → colon_free label ≡ true
    → colon_free (type_to_string rtype) ≡ true
    → (split_db_key (zone_location_rr_set_key type_to_string zone label rtype)
        ≡ zone
          ∷ txt "labels"
          ∷ label
          ∷ (if rtype == type_aname then txt "ANAME" else type_to_string rtype)
          ∷ [])
      × (is_rr_set_entry (split_db_key (zone_location_rr_set_key type_to_string zone label rtype))
          ≡ true)
unfolding zone_location_rr_set_key is_rr_set_entry
split_db_key-zone_location_rr_set_key type_to_string zone label rtype z l t =
    let type_str = if rtype == type_aname then txt "ANAME" else type_to_string rtype in
    let parts =
      split_colon-four zone (txt "labels") label type_str z refl l
        (type_free type_to_string rtype t) in
    let key : split_db_key (zone_location_rr_set_key type_to_string zone label rtype)
        ≡ zone ∷ txt "labels" ∷ label ∷ type_str ∷ [] =
      split_db_key-append (zone ++ colon ∷ (txt "labels" ++ colon ∷ (label ++ colon ∷ type_str)))
      ∙ ap (λ p. p.0 ∷ p.1) parts in
    (key, rw key refl)
