-- ===== src/Api/Rows.antt =====
-- The tables of scripts/schema.sql, and the SQL statements of internal/api/database as functions on
-- them: lookups, insertions that the unique and the foreign keys guard, and deletions that cascade.
pub mod Found
use z.Prelude.{
  ℕ, Name, same, ◌+◌, Bool, false, not, ◌&&◌, ◌||◌, Option, none, some, List, [], ◌∷◌, ◌++◌,
  if◌then◌else◌,
}
use z.Api.Action.{Error, Result, ok, err, no_rows, mysql}

abbrev pub ObjectId : Type 0
ObjectId = Name

abbrev pub empty_object_id : ObjectId
empty_object_id = []

pub record User : Type 0 where
  pub id : ObjectId
  pub email : Name
  pub password : Name
  pub status : Name

pub record Zone : Type 0 where
  pub id : ObjectId
  pub name : Name
  pub enabled : Bool
  pub dnssec : Bool
  pub cname_flattening : Bool

pub record Location : Type 0 where
  pub id : ObjectId
  pub name : Name
  pub enabled : Bool

pub record RecordSet : Type 0 where
  pub id : ObjectId
  pub rtype : Name
  pub value : Name
  pub enabled : Bool

pub record Verification : Type 0 where
  pub code : Name
  pub kind : Name
  pub user_id : ObjectId

-- A row of a table that refers to another row.
pub record Owned (A : Type 0) : Type 0 where
  pub row : A
  pub parent : ObjectId

pub record Tables : Type 0 where
  pub users : List User
  pub zones : List (Owned Zone)
  pub locations : List (Owned Location)
  pub record_sets : List (Owned RecordSet)
  pub verifications : List Verification

module _ {A : Type 0} where
  abbrev pub find_row : (A → Bool) → List A → Option A
  find_row p [] = none
  find_row p (x ∷ rest) = let later = find_row p rest in if p x then some x else later

  abbrev pub has_row : (A → Bool) → List A → Bool
  has_row p [] = false
  has_row p (x ∷ rest) = p x || has_row p rest

  abbrev pub keep_rows : (A → Bool) → List A → List A
  keep_rows p [] = []
  keep_rows p (x ∷ rest) = let later = keep_rows p rest in if p x then x ∷ later else later

  abbrev pub count_rows : (A → Bool) → List A → ℕ
  count_rows p [] = 0
  count_rows p (x ∷ rest) = let later = count_rows p rest in if p x then later + 1 else later

  -- `UPDATE ... SET ... WHERE p`
  abbrev pub update_rows : (A → Bool) → (A → A) → List A → List A
  update_rows p f [] = []
  update_rows p f (x ∷ rest) = (if p x then f x else x) ∷ update_rows p f rest

  -- QueryRow(...).Scan(...)
  abbrev pub scan : Option A → Result A
  scan none = err no_rows
  scan (some x) = ok x

-- ER_DUP_ENTRY and ER_NO_REFERENCED_ROW_2
abbrev pub duplicate_key : Error
duplicate_key = mysql 1062

abbrev pub no_parent : Error
no_parent = mysql 1452

-- `alike` is the comparison of the database's collation.
module _ (alike : Name → Name → Bool) where
  unfoldable pub insert_user : User → Tables → Result (Unit {0}) × Tables
  insert_user u t =
      if has_row (λ r. same r.id u.id || alike r.email u.email) t.users
      then (err duplicate_key, t)
      else (ok tt, record t { users = t.users ++ u ∷ [] })

  unfoldable pub insert_zone : Owned Zone → Tables → Result (Unit {0}) × Tables
  insert_zone z t =
      if has_row (λ r. same r.row.id z.row.id || alike r.row.name z.row.name) t.zones
      then (err duplicate_key, t)
      else if has_row (λ u. same u.id z.parent) t.users
      then (ok tt, record t { zones = t.zones ++ z ∷ [] })
      else (err no_parent, t)

  unfoldable pub insert_location : Owned Location → Tables → Result (Unit {0}) × Tables
  insert_location l t =
      if has_row
        (λ r. same r.row.id l.row.id || (same r.parent l.parent && alike r.row.name l.row.name))
        t.locations
      then (err duplicate_key, t)
      else if has_row (λ z. same z.row.id l.parent) t.zones
      then (ok tt, record t { locations = t.locations ++ l ∷ [] })
      else (err no_parent, t)

  unfoldable pub place_record_set : Owned RecordSet → Tables → Result (Unit {0}) × Tables
  place_record_set r t =
      if has_row
        (λ x. same x.row.id r.row.id || (same x.parent r.parent && alike x.row.rtype r.row.rtype))
        t.record_sets
      then (err duplicate_key, t)
      else if has_row (λ l. same l.row.id r.parent) t.locations
      then (ok tt, record t { record_sets = t.record_sets ++ r ∷ [] })
      else (err no_parent, t)

  -- The column Value is of type JSON: it holds the database's own text for the value, which is not
  -- taken if it is no JSON.
  unfoldable pub store_record_set :
      Result Name → Owned RecordSet → Tables → Result (Unit {0}) × Tables
  unfolding place_record_set
  store_record_set (err e) r t = (err e, t)
  store_record_set (ok value) r t =
      place_record_set (record r { row = record r.row { value = value } }) t

  unfoldable pub insert_record_set :
      (Name → Result Name) → Owned RecordSet → Tables → Result (Unit {0}) × Tables
  unfolding store_record_set
  insert_record_set json r t = store_record_set (json r.row.value) r t

  unfoldable pub insert_verification : Verification → Tables → Result (Unit {0}) × Tables
  insert_verification v t =
      if has_row (λ x. alike x.code v.code) t.verifications
      then (err duplicate_key, t)
      else if has_row (λ u. same u.id v.user_id) t.users
      then (ok tt, record t { verifications = t.verifications ++ v ∷ [] })
      else (err no_parent, t)

-- ON DELETE CASCADE: the rows whose parent is gone go too.
abbrev pub cascade : {A B : Type 0} → (B → ObjectId) → (A → ObjectId) → List B → List A → List A
cascade id_of parent_of parents =
    keep_rows (λ x. has_row (λ p. same (id_of p) (parent_of x)) parents)

abbrev pub delete_record_sets : (Owned RecordSet → Bool) → Tables → Tables
delete_record_sets p t = record t { record_sets = keep_rows (λ r. not (p r)) t.record_sets }

unfoldable pub delete_locations : (Owned Location → Bool) → Tables → Tables
delete_locations p t =
    let left = keep_rows (λ l. not (p l)) t.locations in
    record t {
      locations = left;
      record_sets = cascade (λ l. l.row.id) (λ r. r.parent) left t.record_sets;
    }

unfoldable pub delete_zones : (Owned Zone → Bool) → Tables → Tables
unfolding delete_locations
delete_zones p t =
    let left = keep_rows (λ z. not (p z)) t.zones in
    delete_locations (λ l. not (has_row (λ z. same z.row.id l.parent) left))
      (record t { zones = left })

unfoldable pub delete_users : (User → Bool) → Tables → Tables
unfolding delete_zones
delete_users p t =
    let left = keep_rows (λ u. not (p u)) t.users in
    delete_zones (λ z. not (has_row (λ u. same u.id z.parent) left))
      (record t {
        users = left;
        verifications = cascade (λ u. u.id) (λ v. v.user_id) left t.verifications;
      })
