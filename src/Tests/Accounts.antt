-- ===== src/Tests/Accounts.antt =====
-- The theorems of Api at concrete inputs: an account that signs up, a code that is used, and a zone
-- that another user asks for.
use mathlib.Core.Path.{sym}
use z.Prelude.{
  not, ◌==◌, Name, txt, ◌≡◌, refl, ap, ◌∙◌, same, Bool, true, false, Option, none, some, [], ◌∷◌,
  ◌+◌,
}
use z.Api.Action.{ok}
use z.Api.Rows.{keep_rows, User, Zone, Owned, insert_user, insert_verification}
use z.Api.Database.{
  Engine, Db, verify, verification_row, activate, drop_verification, add_user, add_verification,
  get_user, user_row,
}
use z.Api.Database.Access.{zone_row}
use z.Api.Database.Stops.{IsRefused}
use z.Api.Database.Refusal.{IsOwner}
use z.Api.Database.Once.{verify_once}
use z.Api.Backend.{account_backend}
use z.Hiredis.Stream.{x_add}
use z.Tests.Redis.{server, config}
use z.Api.Handlers.{Context, bound, extract_user, param}
use z.Api.Handlers.Auth.{Credentials, Outside, authenticate, signup, refused, failed_authentication}
use z.Api.Handlers.Refused.{delete_zone, serve, serve-IsTurnedDown}
use z.Api.Handlers.TurnedDown.{IsTurnedDown}
use z.Api.Pending.{signup_then_login}

abbrev pub engine : Engine
engine = record {
  alike = same;
  fault = λ n. none;
  new_object_id = λ n. (n + 1) ∷ [];
  hash_password = λ p. ok p;
  random_string = λ clock n. (clock + 1) ∷ [];
  json = λ value. ok (keep_rows (λ c. not (c == 32)) value);
  page = λ q start count l. ok l;
}

abbrev pub alice : User
alice = record { id = 1 ∷ []; email = txt "alice"; password = txt "x"; status = txt "active" }

abbrev pub bob : User
bob = record { id = 2 ∷ []; email = txt "bob"; password = txt "y"; status = txt "pending" }

abbrev pub example_zone : Zone
example_zone = record {
  id = 3 ∷ [];
  name = txt "example.com.";
  enabled = true;
  dnssec = false;
  cname_flattening = false;
}

abbrev pub code : Name
code = txt "k9"

abbrev pub stored : Db
stored = record {
  tables = record {
    users = alice ∷ bob ∷ [];
    zones = record { row = example_zone; parent = alice.id } ∷ [];
    locations = [];
    record_sets = [];
    verifications = record { code = code; kind = txt "signup"; user_id = bob.id } ∷ [];
  };
  clock = 7;
}

code_works : (verify engine code stored).0 ≡ ok tt
unfolding verify verification_row activate drop_verification
code_works = refl

verify_once_example : IsRefused (verify engine code) (verify engine code stored).1
verify_once_example = verify_once engine code stored code_works

abbrev outside : Outside
outside = record { check_password_hash = same; error_text = λ e. []; failure_text = λ e. [] }

abbrev carol : Credentials
carol = record { email = txt "carol"; password = txt "z" }

signs_up :
    (signup (account_backend engine) outside server config (bound carol) (stored, [])).0.status
    ≡ 201
unfolding signup add_user add_verification get_user user_row insert_user insert_verification x_add
signs_up = refl

signup_then_login_example :
    (authenticate
      (account_backend engine)
      outside
      server
      config
      (bound carol)
      (signup (account_backend engine) outside server config (bound carol) (stored, [])).1.0).0
    ≡ refused failed_authentication
signup_then_login_example =
    signup_then_login engine outside server config carol (txt "z") (stored, []) signs_up

abbrev request : Context
request = record {
  identity = record { id = bob.id; email = bob.email };
  params = (txt "zone", txt "example.com.") ∷ [];
}

is_own : Option User → Option (Owned Zone) → Bool
is_own none z = false
is_own (some u) none = false
is_own (some u) (some z) = same u.id z.parent

not-IsOwner : ¬ IsOwner engine (extract_user request) (param (txt "zone") request) stored.tables
unfolding extract_user param user_row zone_row is_own
not-IsOwner (u, z, found, there, own) =
    cc (sym own ∙ ap (λ o. is_own o (some z)) (sym found) ∙ ap (is_own (some bob)) (sym there))

serve-IsTurnedDown_example : IsTurnedDown (serve engine request delete_zone) stored
serve-IsTurnedDown_example = serve-IsTurnedDown engine request stored delete_zone not-IsOwner
