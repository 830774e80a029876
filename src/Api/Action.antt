-- ===== src/Api/Action.antt =====
-- Go's (value, error) results over the database behind internal/api/database: a call that fails
-- returns an error, and what was written before stays written.
use z.Prelude.{ℕ, Name, ◌==◌, if◌then◌else◌, Bool}

-- The errors of internal/api/database/db.go, of database/sql (`no_rows`), of the MySQL driver by
-- their number, and all others.
pub data Error : Type 0 where
  duplicate_entry not_found invalid unauthorized no_rows : Error
  mysql : ℕ → Error
  other : Name → Error

pub data Result (A : Type 0) : Type 0 where
  ok : A → Result A
  err : Error → Result A

abbrev pub Action : Type 0 → Type 0 → Type 0
Action S A = S → Result A × S

module _ {S : Type 0} where
  abbrev pub pure : {A : Type 0} → A → Action S A
  pure a s = (ok a, s)

  abbrev pub raise : {A : Type 0} → Error → Action S A
  raise e s = (err e, s)

  -- What follows an outcome.
  abbrev pub after : {A B : Type 0} → (A → Action S B) → Result A × S → Result B × S
  after f (ok a, s) = f a s
  after f (err e, s) = (err e, s)

  infixl 5 ◌>>=◌ ◌>>◌
  abbrev pub ◌>>=◌ : {A B : Type 0} → Action S A → (A → Action S B) → Action S B
  ◌>>=◌ m f s = after f (m s)

  abbrev pub ◌>>◌ : {B : Type 0} → Action S (Unit {0}) → Action S B → Action S B
  m >> k = m >>= λ _. k

  abbrev pub guard : Bool → Error → Action S (Unit {0})
  guard b e s = (if b then ok tt else err e, s)

-- The translation of an error, for the calls that replace the error of a call.
abbrev pub with_error : {S A : Type 0} → (Error → Error) → Result A × S → Result A × S
with_error f (ok a, s) = (ok a, s)
with_error f (err e, s) = (err (f e), s)

abbrev pub map_error : {S A : Type 0} → (Error → Error) → Action S A → Action S A
map_error f m s = with_error f (m s)

-- parseError
unfoldable pub parse_error : Error → Error
parse_error (mysql n) = if n == 1062 then duplicate_entry else mysql n
parse_error no_rows = not_found
parse_error e = e

-- `if err == ErrNotFound { err = ErrInvalid }`
abbrev pub missing_is_invalid : Error → Error
missing_is_invalid not_found = invalid
missing_is_invalid e = e
