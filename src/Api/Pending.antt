-- ===== src/Api/Pending.antt =====
-- Signing up in internal/api/handlers/auth/handlers.go over internal/api/database: a new account waits
-- for its verification.
use mathlib.Core.Path.{sym, subst}
use z.Prelude.{
  Name, txt, same, ◌≡◌, refl, ap, ◌∙◌, Bool, true, false, ◌||◌, inl, inr, Option, none, some, [],
  ◌∷◌, ◌++◌, if◌then◌else◌, arith,
}
use z.Api.Action.{
  Result, ok, err, with_error, map_error, parse_error, missing_is_invalid, not_found, no_rows,
  duplicate_entry, invalid, unauthorized, mysql, other,
}
use z.Api.Rows.{
  User, Verification, Tables, find_row, has_row, scan, insert_user, insert_verification,
  empty_object_id,
}
use z.Api.Rows.Found.{find_row-append}
use z.Api.Database.{
  Engine, Db, statement, query_row, user_row, add_user, get_user, add_verification,
}
use z.Api.Database.Outcomes.{
  ends_well, with_error_ok, statement_ok, after_keeps, with_error_keeps, attempt_keeps,
}
use z.Api.Database.Refusal.{query_row-cases}
use z.Hiredis.{Redigo, Config}
use z.Api.Backend.{account_backend}
use z.Api.Handlers.{bound, Response, status_from_error}
use z.Api.Handlers.Auth.{
  Credentials, refused, failed_authentication, Outside, authenticate, signup, or_internal,
  or_status, on_database,
}

module _ (E : Engine) where
  -- Whoever the name is found to be is not active.
  abbrev IsWaiting : Name → Tables → Type 0
  IsWaiting name t = (u : User) → user_row E name t ≡ some u → same u.status (txt "active") ≡ false

  abbrev is_taken : User → Tables → Bool
  is_taken u t = has_row (λ r. same r.id u.id || E.alike r.email u.email) t.users

  insert_user_inserts :
      (u : User) (t : Tables)
      → (insert_user E.alike u t).0 ≡ ok tt
      → (is_taken u t ≡ false) × ((insert_user E.alike u t).1.users ≡ t.users ++ u ∷ [])
  unfolding insert_user
  insert_user_inserts u t h = ground arith

  abbrev is_active : Option User → Bool
  is_active none = false
  is_active (some u) = same u.status (txt "active")

  insert_user-IsWaiting :
      (u : User) (t : Tables)
      → same u.status (txt "active") ≡ false
      → (insert_user E.alike u t).0 ≡ ok tt
      → IsWaiting u.email (insert_user E.alike u t).1
  unfolding user_row
  insert_user-IsWaiting u t waiting h v found =
      let (free, users) = insert_user_inserts u t h in
      let at_end =
        find_row-append (λ r. E.alike r.email u.email) (λ r. same r.id u.id) t.users u free in
      let this = sym (ap (find_row (λ r. E.alike r.email u.email)) users ∙ at_end) ∙ found in
      only (E.alike u.email u.email) this
    where
      only :
          (b : Bool) → (if b then some u else none) ≡ some v → same v.status (txt "active") ≡ false
      only true e = sym (ap is_active e) ∙ waiting
      only false e = cc

  insert_verification-users :
      (v : Verification) (t : Tables) → (insert_verification E.alike v t).1.users ≡ t.users
  unfolding insert_verification
  insert_verification-users v t = ground arith

  add_user-IsWaiting :
      (u : User) (db : Db) {id : Name}
      → same u.status (txt "active") ≡ false
      → (add_user E u db).0 ≡ ok id
      → IsWaiting u.email (add_user E u db).1.tables
  unfolding add_user
  add_user-IsWaiting u db waiting h =
      ends_well (λ d. IsWaiting u.email d.tables) _ (E.hash_password u.password, db) h
        (λ hash db1 _ h1.
          let new : User = record {
            id = E.new_object_id db1.clock;
            email = u.email;
            password = hash;
            status = u.status;
          } in
          ends_well (λ d. IsWaiting u.email d.tables) _
            (map_error parse_error (statement E (insert_user E.alike new)) db1) h1
            (λ _ db2 ran h2.
              let (inserted, left) =
                statement_ok E (insert_user E.alike new) db1 db2
                  (with_error_ok parse_error _ ran) in
              subst (IsWaiting u.email) (sym left)
                (insert_user-IsWaiting new db1.tables waiting inserted)))

  get_user-users : (name : Name) (db : Db) → (get_user E name db).1.tables.users ≡ db.tables.users
  unfolding get_user
  get_user-users name db =
      with_error_keeps (λ (d : Db). d.tables.users ≡ db.tables.users) parse_error
        (query_row E (user_row E name) db)
        (attempt_keeps (λ t. t.users ≡ db.tables.users) (E.fault db.clock)
          (scan (user_row E name db.tables), db.tables) db refl refl)

  -- A verification code changes no user.
  add_verification-users :
      (name kind : Name) (db : Db)
      → (add_verification E name kind db).1.tables.users ≡ db.tables.users
  unfolding add_verification
  add_verification-users name kind db =
      after_keeps (λ (d : Db). d.tables.users ≡ db.tables.users) _
        (map_error missing_is_invalid (get_user E name) db)
        (with_error_keeps (λ (d : Db). d.tables.users ≡ db.tables.users) missing_is_invalid
          (get_user E name db) (get_user-users name db))
        (λ u db1 kept.
          let v : Verification = record {
            code = E.random_string db1.clock 50;
            kind = kind;
            user_id = u.id;
          } in
          after_keeps (λ (d : Db). d.tables.users ≡ db.tables.users) _
            (statement E (insert_verification E.alike v) db1)
            (attempt_keeps (λ t. t.users ≡ db.tables.users) (E.fault db1.clock)
              (insert_verification E.alike v db1.tables) db1 kept
              (insert_verification-users v db1.tables ∙ kept))
            (λ _ db2 kept2. kept2))

  -- Who is not active is refused.
  module _ (out : Outside) (R : Redigo) (config : Config) where
    authenticate-waiting :
        (c : Credentials) (db : Db)
        → IsWaiting c.email db.tables
        → (authenticate (account_backend E) out R config (bound c) db).0
          ≡ refused failed_authentication
    unfolding authenticate get_user
    authenticate-waiting c db h = elim (query_row-cases E (user_row E c.email) db) [
      | inl (e, failed) ↦
          let out : (get_user E c.email db).0 ≡ err (parse_error e) =
            ap (λ p. (with_error parse_error p).0) failed in
          rw (out) refl
      | inr (u, there, found) ↦
          let out : (get_user E c.email db).0 ≡ ok u =
            ap (λ p. (with_error parse_error p).0) found in
          rw (out) (rw (h u there) refl)
    ]

    or_status_well :
        {A T : Type 0} (P : T → Type 0) (k : A → T → Response × T) (p : Result A × T)
        → (or_status (account_backend E) out R config k p).0.status ≡ 201
        → ((a : A) (t : T) → p ≡ (ok a, t) → P (k a t).1)
        → P (or_status (account_backend E) out R config k p).1
    unfolding status_from_error
    or_status_well P k (ok a, t) h step = step a t refl
    or_status_well P k (err duplicate_entry, t) h step = absurd (omega (arith, h))
    or_status_well P k (err not_found, t) h step = absurd (omega (arith, h))
    or_status_well P k (err invalid, t) h step = absurd (omega (arith, h))
    or_status_well P k (err unauthorized, t) h step = absurd (omega (arith, h))
    or_status_well P k (err no_rows, t) h step = absurd (omega (arith, h))
    or_status_well P k (err (mysql n), t) h step = absurd (omega (arith, h))
    or_status_well P k (err (other text), t) h step = absurd (omega (arith, h))

    or_internal_keeps :
        {A T : Type 0} (P : T → Type 0) (k : A → T → Response × T) (p : Result A × T)
        → P p.1
        → ((a : A) (t : T) → P t → P (k a t).1)
        → P (or_internal (account_backend E) out R config k p).1
    or_internal_keeps P k (ok a, t) h step = step a t h
    or_internal_keeps P k (err e, t) h step = h

    users-IsWaiting :
        (name : Name) (t t' : Tables) → t'.users ≡ t.users → IsWaiting name t → IsWaiting name t'
    unfolding user_row
    users-IsWaiting name t t' e h u found =
        h u (ap (find_row (λ v. E.alike v.email name)) (sym e) ∙ found)

    signup-IsWaiting :
        (c : Credentials) (s : Db × R.Server)
        → (signup (account_backend E) out R config (bound c) s).0.status ≡ 201
        → IsWaiting c.email (signup (account_backend E) out R config (bound c) s).1.0.tables
    unfolding signup
    signup-IsWaiting c s h =
        let new : User = record {
          id = empty_object_id;
          email = c.email;
          password = c.password;
          status = txt "pending";
        } in
        or_status_well (λ t. IsWaiting c.email t.0.tables) _
          (on_database (account_backend E) out R config (add_user E new) s) h
          (λ id t added.
            let waits : IsWaiting c.email t.0.tables =
              subst (λ (d : Db). IsWaiting c.email d.tables) (ap (λ p. p.1.0) added)
                (add_user-IsWaiting new s.0 refl (ap (λ p. p.0) added)) in
            or_internal_keeps (λ (t : Db × R.Server). IsWaiting c.email t.0.tables) _
              (on_database (account_backend E) out R config
                (add_verification E c.email (txt "signup")) t)
              (users-IsWaiting c.email t.0.tables _
                (add_verification-users c.email (txt "signup") t.0) waits)
              (λ code t waits. waits))

    -- If the signup of an email is answered with status 201, then a login with that email right
    -- after it fails, whatever the password is.
    pub signup_then_login :
        (c : Credentials) (password : Name) (s : Db × R.Server)
        → (signup (account_backend E) out R config (bound c) s).0.status ≡ 201
        → (authenticate
            (account_backend E)
            out
            R
            config
            (bound (record { email = c.email; password = password }))
            (signup (account_backend E) out R config (bound c) s).1.0).0
          ≡ refused failed_authentication
    signup_then_login c password s h =
        authenticate-waiting (record { email = c.email; password = password }) _
          (signup-IsWaiting c s h)
