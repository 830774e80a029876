-- ===== src/Api/Handlers/Auth.antt =====
-- internal/api/handlers/auth/handlers.go: signup, verification and login.
use z.Prelude.{Name, txt, same, Bool, not, if◌then◌else◌, []}
use z.Api.Action.{Error, Result, ok, err, Action}
use z.Api.Rows.{User, empty_object_id}
use z.Hiredis.{Failure, Redigo, Config, outcome}
use z.Hiredis.Stream.{x_add}
use z.Api.Handlers.{
  IdentityData, Bound, unbound, bound, Response, respond, status_from_error, Accounts,
}

-- NewUser and loginCredentials
pub record Credentials : Type 0 where
  pub email : Name
  pub password : Name

-- jwt.ErrMissingLoginValues and jwt.ErrFailedAuthentication
pub data LoginError : Type 0 where
  missing_login_values failed_authentication : LoginError

pub data Login : Type 0 where
  refused : LoginError → Login
  accepted : IdentityData → Login

-- What the code takes from bcrypt, and the texts of errors.
pub record Outside : Type 0 where
  pub check_password_hash : Name → Name → Bool
  pub error_text : Error → Name
  pub failure_text : Failure → Name

module _ {S : Type 0} (db : Accounts S) (out : Outside) (R : Redigo) (config : Config) where
  -- The Authenticator of the JWT middleware.
  unfoldable pub authenticate : Bound Credentials → S → Login × S
  authenticate (unbound _) s = (refused missing_login_values, s)
  authenticate (bound c) s = let (r, s') = db.get_user c.email s in (check c.password r, s')
    where
      check : Name → Result User → Login
      check password (err e) = refused failed_authentication
      check password (ok u) =
          if not (same u.status (txt "active"))
          then refused failed_authentication
          else if not (out.check_password_hash password u.password)
          then refused failed_authentication
          else accepted (record { id = u.id; email = u.email })

  -- `if err != nil { ErrorResponse(c, 500, err.Error()); return }`
  abbrev pub or_internal : {A T : Type 0} → (A → T → Response × T) → Result A × T → Response × T
  or_internal k (ok a, s) = k a s
  or_internal k (err e, s) = (respond 500 (out.error_text e), s)

  abbrev pub or_status : {A T : Type 0} → (A → T → Response × T) → Result A × T → Response × T
  or_status k (ok a, s) = k a s
  or_status k (err e, s) = (status_from_error e, s)

  abbrev pub on_database : {A : Type 0} → Action S A → Action (S × R.Server) A
  on_database m (s, r) = let (a, s') = m s in (a, (s', r))

  -- The code is put on the stream of the mails to send.
  abbrev pub send_code : Name → Name → S × R.Server → Response × (S × R.Server)
  send_code email code (s, r) =
      let (sent, r') =
        x_add R config (txt "email_verification") (record { id = []; key = email; value = code })
          r in
      (
        outcome (λ _. respond 201 (txt "successful")) (λ e. respond 500 (out.failure_text e)) sent,
        (s, r'),
      )

  unfoldable pub signup : Bound Credentials → S × R.Server → Response × (S × R.Server)
  signup (unbound _) s = (respond 400 (txt "invalid input format"), s)
  signup (bound u) s =
      or_status
        (λ _ s.
          or_internal (send_code u.email)
            (on_database (db.add_verification u.email (txt "signup")) s))
        (on_database
          (db.add_user (record {
            id = empty_object_id;
            email = u.email;
            password = u.password;
            status = txt "pending";
          }))
          s)

  unfoldable pub verify : Bound Name → S → Response × S
  verify (unbound _) s = (respond 400 (txt "invalid code"), s)
  verify (bound code) s =
      or_internal (λ _ s. (respond 204 (txt "successful"), s)) (db.verify code s)
