-- ===== src/Api/Integrity.antt =====
-- The unique and the foreign keys of scripts/schema.sql: what they promise of the tables, and how lists
-- of rows keep it.
pub mod Statements
pub mod Deletions
pub mod Updates
pub mod Keeping
pub mod Calls
use z.Prelude.{
  Name, same, ◌≡◌, refl, sym, ap, ◌∙◌, Bool, true, false, not, ◌||◌, ◌&&◌, Bool-cases, inl, inr,
  List, [], ◌∷◌, ◌++◌, if◌then◌else◌, arith,
}
use z.Api.Rows.{
  ObjectId, User, Zone, Location, RecordSet, Verification, Owned, Tables, has_row, keep_rows,
  update_rows,
}

-- No row clashes with a later one.
abbrev pub Unique : {A : Type 0} → (A → A → Bool) → List A → Type 0
Unique clash [] = Unit
Unique clash (x ∷ l) = (has_row (clash x) l ≡ false) × Unique clash l

-- Every child has its parent.
abbrev pub Refers : {A B : Type 0} → (B → ObjectId) → (A → ObjectId) → List B → List A → Type 0
Refers id_of parent_of parents [] = Unit
Refers id_of parent_of parents (x ∷ l) =
    (has_row (λ p. same (id_of p) (parent_of x)) parents ≡ true) × Refers id_of parent_of parents l

module _ {A : Type 0} where
  pub has_row-append :
      (p : A → Bool) (l m : List A) → has_row p (l ++ m) ≡ (has_row p l || has_row p m)
  has_row-append p [] m = refl
  has_row-append p (x ∷ l) m = ground (arith, has_row-append p l m)

  has_row-keep_rows :
      (p q : A → Bool) (l : List A) → has_row p l ≡ false → has_row p (keep_rows q l) ≡ false
  has_row-keep_rows p q [] h = refl
  has_row-keep_rows p q (x ∷ l) h = ground (arith, has_row-keep_rows p q l)

  pub has_row-update_rows :
      (p q : A → Bool) (f : A → A) (l : List A)
      → ((x : A) → p (f x) ≡ p x)
      → has_row p (update_rows q f l) ≡ has_row p l
  has_row-update_rows p q f [] same_test = refl
  has_row-update_rows p q f (x ∷ l) same_test =
      ground (arith, has_row-update_rows p q f l same_test, same_test x)

  has_row-alike : (p q : A → Bool) (l : List A) → ((x : A) → p x ≡ q x) → has_row p l ≡ has_row q l
  has_row-alike p q [] h = refl
  has_row-alike p q (x ∷ l) h = ground (arith, h x, has_row-alike p q l h)

  pub Unique-append :
      (clash : A → A → Bool) (l : List A) (u : A)
      → Unique clash l
      → has_row (λ r. clash r u) l ≡ false
      → Unique clash (l ++ u ∷ [])
  Unique-append clash [] u h free = (refl, tt)
  Unique-append clash (x ∷ l) u (fresh, h) free = (
    has_row-append (clash x) l (u ∷ []) ∙ ground (arith, fresh, free),
    Unique-append clash l u h (ground (arith, free)),
  )

  pub Unique-keep_rows :
      (clash : A → A → Bool) (q : A → Bool) (l : List A)
      → Unique clash l
      → Unique clash (keep_rows q l)
  Unique-keep_rows clash q [] h = tt
  Unique-keep_rows clash q (x ∷ l) (fresh, h) = elim (Bool-cases (q x)) [
    | inl stays ↦ rw (stays) (has_row-keep_rows (clash x) q l fresh, Unique-keep_rows clash q l h)
    | inr goes ↦ rw (goes) (Unique-keep_rows clash q l h)
  ]

  pub Unique-update_rows :
      (clash : A → A → Bool) (q : A → Bool) (f : A → A) (l : List A)
      → ((x y : A) → clash (f x) y ≡ clash x y)
      → ((x y : A) → clash x (f y) ≡ clash x y)
      → Unique clash l
      → Unique clash (update_rows q f l)
  Unique-update_rows clash q f [] left right h = tt
  Unique-update_rows clash q f (x ∷ l) left right (fresh, h) = (
    has_row-update_rows (clash (if q x then f x else x)) q f l (right _) ∙ elim (Bool-cases (q x)) [
      | inl changed ↦ rw (changed) (has_row-alike (clash (f x)) (clash x) l (left x) ∙ fresh)
      | inr kept ↦ rw (kept) fresh
    ],
    Unique-update_rows clash q f l left right h,
  )

module _ {A B : Type 0} (id_of : B → ObjectId) (parent_of : A → ObjectId) where
  pub Refers-append :
      (parents : List B) (l : List A) (x : A)
      → Refers id_of parent_of parents l
      → has_row (λ p. same (id_of p) (parent_of x)) parents ≡ true
      → Refers id_of parent_of parents (l ++ x ∷ [])
  Refers-append parents [] x h there = (there, tt)
  Refers-append parents (y ∷ l) x (first, h) there = (first, Refers-append parents l x h there)

  pub Refers-more :
      (parents : List B) (p : B) (l : List A)
      → Refers id_of parent_of parents l
      → Refers id_of parent_of (parents ++ p ∷ []) l
  Refers-more parents p [] h = tt
  Refers-more parents p (x ∷ l) (first, h) = (
    has_row-append (λ r. same (id_of r) (parent_of x)) parents (p ∷ []) ∙ ground (arith, first),
    Refers-more parents p l h,
  )

  -- The rows whose parents are kept.
  pub Refers-kept :
      (parents : List B) (q : A → Bool) (l : List A)
      → ((x : A) → q x ≡ true → has_row (λ p. same (id_of p) (parent_of x)) parents ≡ true)
      → Refers id_of parent_of parents (keep_rows q l)
  Refers-kept parents q [] h = tt
  Refers-kept parents q (x ∷ l) h = elim (Bool-cases (q x)) [
    | inl stays ↦ rw (stays) (h x stays, Refers-kept parents q l h)
    | inr goes ↦ rw (goes) (Refers-kept parents q l h)
  ]

  pub Refers-keep_rows :
      (parents : List B) (q : A → Bool) (l : List A)
      → Refers id_of parent_of parents l
      → Refers id_of parent_of parents (keep_rows q l)
  Refers-keep_rows parents q [] h = tt
  Refers-keep_rows parents q (x ∷ l) (first, h) = elim (Bool-cases (q x)) [
    | inl stays ↦ rw (stays) (first, Refers-keep_rows parents q l h)
    | inr goes ↦ rw (goes) (Refers-keep_rows parents q l h)
  ]

  pub Refers-update_rows :
      (parents : List B) (q : A → Bool) (f : A → A) (l : List A)
      → ((x : A) → parent_of (f x) ≡ parent_of x)
      → Refers id_of parent_of parents l
      → Refers id_of parent_of parents (update_rows q f l)
  Refers-update_rows parents q f [] kept h = tt
  Refers-update_rows parents q f (x ∷ l) kept (first, h) = (
    elim (Bool-cases (q x)) [
      | inl changed ↦ rw (changed) (rw (kept x) first)
      | inr left ↦ rw (left) first
    ],
    Refers-update_rows parents q f l kept h,
  )

  pub Refers-update_parents :
      (parents : List B) (q : B → Bool) (f : B → B) (l : List A)
      → ((p : B) → id_of (f p) ≡ id_of p)
      → Refers id_of parent_of parents l
      → Refers id_of parent_of (update_rows q f parents) l
  Refers-update_parents parents q f [] kept h = tt
  Refers-update_parents parents q f (x ∷ l) kept (first, h) = (
    has_row-update_rows (λ p. same (id_of p) (parent_of x)) q f parents
          (λ p. ap (λ i. same i (parent_of x)) (kept p))
        ∙ first,
    Refers-update_parents parents q f l kept h,
  )

-- `alike` is the comparison of the database's collation.
module _ (alike : Name → Name → Bool) where
  abbrev pub users_clash : User → User → Bool
  users_clash r u = same r.id u.id || alike r.email u.email

  abbrev pub zones_clash : Owned Zone → Owned Zone → Bool
  zones_clash r z = same r.row.id z.row.id || alike r.row.name z.row.name

  abbrev pub locations_clash : Owned Location → Owned Location → Bool
  locations_clash r l =
      same r.row.id l.row.id || (same r.parent l.parent && alike r.row.name l.row.name)

  abbrev pub record_sets_clash : Owned RecordSet → Owned RecordSet → Bool
  record_sets_clash x r =
      same x.row.id r.row.id || (same x.parent r.parent && alike x.row.rtype r.row.rtype)

  abbrev pub verifications_clash : Verification → Verification → Bool
  verifications_clash x v = alike x.code v.code

  -- The unique keys, and the foreign keys.
  pub record IsSound (t : Tables) : Type 0 where
    pub unique_users : Unique users_clash t.users
    pub unique_zones : Unique zones_clash t.zones
    pub unique_locations : Unique locations_clash t.locations
    pub unique_record_sets : Unique record_sets_clash t.record_sets
    pub unique_verifications : Unique verifications_clash t.verifications
    pub zones_owned : Refers (λ u. u.id) (λ z. z.parent) t.users t.zones
    pub locations_placed : Refers (λ z. z.row.id) (λ l. l.parent) t.zones t.locations
    pub record_sets_placed : Refers (λ l. l.row.id) (λ r. r.parent) t.locations t.record_sets
    pub verifications_owned : Refers (λ u. u.id) (λ v. v.user_id) t.users t.verifications
