-- ===== src/Api/Database.antt =====
-- internal/api/database/db.go: the connection, and the operations on users. A statement may fail
-- before it does anything; that it does, and with which error, is the engine's choice.
pub mod Access
pub mod Zones
pub mod Locations
pub mod RecordSets
pub mod Outcomes
pub mod Reads
pub mod Found
pub mod Stops
pub mod Refusal
pub mod Once
use z.Prelude.{
  ℕ, Name, txt, same, ◌+◌, Bool, true, false, not, ◌==◌, Option, none, some, List, [], ◌∷◌,
  is_empty, if◌then◌else◌,
}
use z.Prelude.Int.{ℤ}
use z.Api.Action.{
  Error, Result, ok, err, Action, pure, raise, ◌>>=◌, ◌>>◌, guard, map_error, parse_error,
  missing_is_invalid, not_found, invalid, no_rows, other,
}
use z.Api.Rows.{
  ObjectId, User, Zone, Location, RecordSet, Verification, Owned, Tables, find_row, has_row,
  count_rows, update_rows, keep_rows, scan, insert_user, insert_verification, delete_users,
}

-- What the code takes from elsewhere: the comparison of texts by the database, the failures of
-- statements, uuid.New, bcrypt, and the random letters of a verification code, all by the number of
-- statements so far; the text that a JSON column holds for a value; and LIKE, ORDER BY and LIMIT on a
-- column of names, which fails on negative numbers.
pub record Engine : Type 0 where
  pub alike : Name → Name → Bool
  pub fault : ℕ → Option Error
  pub new_object_id : ℕ → ObjectId
  pub hash_password : Name → Result Name
  pub random_string : ℕ → ℕ → Name
  pub json : Name → Result Name
  pub page : Name → ℤ → ℤ → List Name → Result (List Name)

-- The database, and how many statements it was sent.
pub record Db : Type 0 where
  pub tables : Tables
  pub clock : ℕ

-- What a statement leaves: an error, or its outcome and the new tables.
abbrev pub attempt : {A : Type 0} → Option Error → Result A × Tables → Db → Result A × Db
attempt (some e) out db = (err e, record db { clock = db.clock + 1 })
attempt none (r, t) db = (r, record { tables = t; clock = db.clock + 1 })

module _ (E : Engine) where
  -- A statement of SQL; one that fails changes nothing.
  abbrev pub statement : {A : Type 0} → (Tables → Result A × Tables) → Action Db A
  statement f db = attempt (E.fault db.clock) (f db.tables) db

  -- QueryRow and Scan.
  abbrev pub query_row : {A : Type 0} → (Tables → Option A) → Action Db A
  query_row f = statement (λ t. (scan (f t), t))

  -- `UPDATE` and `DELETE`, with the number of rows.
  abbrev pub exec : (Tables → ℕ) → (Tables → Tables) → Action Db ℕ
  exec count f = statement (λ t. (ok (count t), f t))

  abbrev pub fresh_id : Action Db ObjectId
  fresh_id db = (ok (E.new_object_id db.clock), db)

  -- A deletion of no row is ErrNotFound.
  abbrev pub some_rows : ℕ → Action Db ℕ
  some_rows n = if n == 0 then raise not_found else pure n

  unfoldable pub user_row : Name → Tables → Option User
  user_row name t = find_row (λ u. E.alike u.email name) t.users

  unfoldable pub add_user : User → Action Db ObjectId
  add_user u = do
    hash ← λ db. (E.hash_password u.password, db)
    id ← fresh_id
    map_error parse_error (
        statement (
          insert_user E.alike
            (record { id = id; email = u.email; password = hash; status = u.status })))
    pure id

  unfoldable pub get_user : Name → Action Db User
  unfolding user_row
  get_user name = map_error parse_error (query_row (user_row name))

  unfoldable pub add_verification : Name → Name → Action Db Name
  unfolding get_user
  add_verification name kind = do
    u ← map_error missing_is_invalid (get_user name)
    code ← λ db. (ok (E.random_string db.clock 50), db)
    statement (insert_verification E.alike (record { code = code; kind = kind; user_id = u.id }))
    pure code

  -- The user and the kind of a code; the left join keeps a verification without its user, whose id
  -- is then NULL, which Scan refuses.
  unfoldable pub verification_row : Name → Tables → Result Verification
  verification_row code t = elim (find_row (λ v. E.alike v.code code) t.verifications) [
    | none ↦ err no_rows
    | some v ↦
        if has_row (λ u. same u.id v.user_id) t.users
        then ok v
        else err (other (txt "converting NULL to string is unsupported"))
  ]

  unfoldable pub activate : ObjectId → Tables → Tables
  activate id t = record t {
    users = update_rows (λ u. same u.id id) (λ u. record u { status = txt "active" }) t.users;
  }

  unfoldable pub drop_verification : Name → Tables → Tables
  drop_verification code t = record t {
    verifications = keep_rows (λ v. not (E.alike v.code code)) t.verifications;
  }

  unfoldable pub verify : Name → Action Db (Unit {0})
  unfolding verification_row activate drop_verification
  verify code = do
    v ← map_error parse_error (statement (λ t. (verification_row code t, t)))
    guard (same v.kind (txt "signup")) (other (txt "unknown verification type"))
    _ ←
        map_error parse_error
          (exec (λ t. count_rows (λ u. same u.id v.user_id) t.users) (activate v.user_id))
    _ ←
        map_error parse_error (
          exec (λ t. count_rows (λ w. E.alike w.code code) t.verifications)
            (drop_verification code))
    pure tt

  unfoldable pub delete_user : Name → Action Db ℕ
  unfolding delete_users
  delete_user name = do
    rows ← map_error parse_error (
        exec (λ t. count_rows (λ u. E.alike u.email name) t.users)
          (delete_users (λ u. E.alike u.email name)))
    some_rows rows

  -- Clear: `DELETE FROM User`, with what goes with the users.
  unfoldable pub clear : Action Db (Unit {0})
  unfolding delete_users
  clear = do _ ← exec (λ t. count_rows (λ u. true) t.users) (delete_users (λ u. true)); pure tt
