-- ===== src/Api/Handlers.antt =====
-- What the handlers of internal/api/handlers share: the context of a request, common.go with the
-- responses, and the two `storage` interfaces. The gin library parses the request and has bound its
-- query or body to the handler's type, or has not.
pub mod Zones
pub mod Auth
pub mod TurnedDown
pub mod Refused
use z.Prelude.{ℕ, Name, txt, same, Bool, Option, none, some, List, [], ◌∷◌, is_empty, if◌then◌else◌}
use z.Prelude.Int.{ℤ}
use z.Api.Action.{
  Error, Result, ok, err, Action, duplicate_entry, not_found, invalid, unauthorized, no_rows, mysql,
  other,
}
use z.Api.Rows.{ObjectId, User, Zone, Location, RecordSet}

pub record IdentityData : Type 0 where
  pub id : ObjectId
  pub email : Name

-- The gin context: the identity that the JWT middleware has set, and the path's parameters.
pub record Context : Type 0 where
  pub identity : IdentityData
  pub params : List (Name × Name)

-- c.Param
unfoldable pub param : Name → Context → Name
param key c = look_up c.params
  where
    look_up : List (Name × Name) → Name
    look_up [] = []
    look_up ((k, v) ∷ rest) = let later = look_up rest in if same k key then v else later

unfoldable pub extract_user : Context → Name
extract_user c = c.identity.email

-- ShouldBindJSON and ShouldBindQuery: the text of an error, or the request.
pub data Bound (A : Type 0) : Type 0 where
  unbound : Name → Bound A
  bound : A → Bound A

-- GetZoneResponse, GetLocationResponse, GetRecordSetResponse, ListResponse and the messages.
pub data Body : Type 0 where
  message : Name → Body
  names : List Name → Body
  zone_info : (name : Name) → (enabled dnssec cname_flattening : Bool) → Body
  location_info : (enabled : Bool) → Body
  record_set_info : (value : Name) → (enabled : Bool) → Body

pub record Response : Type 0 where
  pub status : ℕ
  pub body : Body

-- ErrorResponse and SuccessResponse
abbrev pub respond : ℕ → Name → Response
respond code text = record { status = code; body = message text }

-- StatusFromError
unfoldable pub status_from_error : Error → Response
status_from_error invalid = respond 403 (txt "invalid request")
status_from_error duplicate_entry = respond 409 (txt "duplicate entry")
status_from_error not_found = respond 404 (txt "entry not found")
status_from_error unauthorized = respond 401 (txt "authorization failed")
status_from_error no_rows = respond 500 (txt "internal error")
status_from_error (mysql n) = respond 500 (txt "internal error")
status_from_error (other text) = respond 500 (txt "internal error")

module _ {S : Type 0} where
  -- `if x == "" { ErrorResponse(400, ...); return }`
  abbrev pub present : Name → Name → (S → Response × S) → S → Response × S
  present value complaint k s =
      let later = k s in if is_empty value then (respond 400 complaint, s) else later

  -- `if err := c.ShouldBind...; err != nil { ErrorResponse(400, err.Error()); return }`
  abbrev pub with_bound : {A : Type 0} → Bound A → (A → S → Response × S) → S → Response × S
  with_bound (unbound text) k s = (respond 400 text, s)
  with_bound (bound a) k s = k a s

  -- `if err != nil { ErrorResponse(StatusFromError(c, err)); return }`
  abbrev pub reply : {A : Type 0} → (A → Response) → Result A × S → Response × S
  reply f (ok a, s) = (f a, s)
  reply f (err e, s) = (status_from_error e, s)

  abbrev pub answer : {A : Type 0} → Action S A → (A → Response) → S → Response × S
  answer m f s = reply f (m s)

-- The interface `storage` of the zone handlers.
pub record Storage (S : Type 0) : Type 0 where
  pub add_zone : Name → Zone → Action S ObjectId
  pub get_zones : Name → ℤ → ℤ → Name → Action S (List Name)
  pub get_zone : Name → Name → Action S Zone
  pub update_zone : Name → Zone → Action S ℕ
  pub delete_zone : Name → Name → Action S ℕ
  pub add_location : Name → Name → Location → Action S ObjectId
  pub get_locations : Name → Name → ℤ → ℤ → Name → Action S (List Name)
  pub get_location : Name → Name → Name → Action S Location
  pub update_location : Name → Name → Location → Action S ℕ
  pub delete_location : Name → Name → Name → Action S ℕ
  pub add_record_set : Name → Name → Name → RecordSet → Action S ObjectId
  pub get_record_sets : Name → Name → Name → Action S (List Name)
  pub get_record_set : Name → Name → Name → Name → Action S RecordSet
  pub update_record_set : Name → Name → Name → RecordSet → Action S ℕ
  pub delete_record_set : Name → Name → Name → Name → Action S ℕ

-- The interface `storage` of the authentication handlers.
pub record Accounts (S : Type 0) : Type 0 where
  pub add_user : User → Action S ObjectId
  pub get_user : Name → Action S User
  pub add_verification : Name → Name → Action S Name
  pub verify : Name → Action S (Unit {0})
