-- ===== src/Api/Handlers/TurnedDown.antt =====
-- Requests of internal/api/handlers that are turned down: an error status, and no table changed.
use mathlib.Core.Path.{subst, sym}
use z.Prelude.{◌≤◌, Name, txt, ◌≡◌, refl, ap, [], ◌∷◌, ◌∙◌, arith}
use z.Api.Action.{
  Error, err, Action, duplicate_entry, not_found, invalid, unauthorized, no_rows, mysql, other,
}
use z.Api.Database.{Db}
use z.Api.Database.Stops.{IsRefused}
use z.Api.Handlers.{
  Context, param, extract_user, Bound, bound, unbound, Response, present, with_bound, reply, answer,
  status_from_error,
}
use z.Api.Handlers.Zones.{with_user, with_zone, with_location, with_rtype}

-- An error status, and the tables as they were.
pub record IsTurnedDown (f : Db → Response × Db) (db : Db) : Type 0 where
  pub error : 400 ≤ (f db).0.status
  pub kept : (f db).1.tables ≡ db.tables

status_from_error-le : (e : Error) → 400 ≤ (status_from_error e).status
unfolding status_from_error
status_from_error-le duplicate_entry = omega arith
status_from_error-le not_found = omega arith
status_from_error-le invalid = omega arith
status_from_error-le unauthorized = omega arith
status_from_error-le no_rows = omega arith
status_from_error-le (mysql n) = omega arith
status_from_error-le (other text) = omega arith

pub answer-IsTurnedDown :
    {A : Type 0} (m : Action Db A) (f : A → Response) (db : Db)
    → IsRefused m db
    → IsTurnedDown (answer m f) db
answer-IsTurnedDown m f db (e, failed, kept) =
    let stops : m db ≡ (err e, (m db).1) = ap (λ r. (r, (m db).1)) failed in
    record {
      error = subst (λ p. 400 ≤ (reply f p).0.status) (sym stops) (status_from_error-le e);
      kept = ap (λ p. (reply {S = Db} f p).1.tables) stops ∙ kept;
    }

present-IsTurnedDown :
    (value complaint : Name) (k : Db → Response × Db) (db : Db)
    → IsTurnedDown k db
    → IsTurnedDown (present value complaint k) db
present-IsTurnedDown [] complaint k db h = record { error = omega arith; kept = refl }
present-IsTurnedDown (x ∷ value) complaint k db h = record { error = h.error; kept = h.kept }

pub with_bound-IsTurnedDown :
    {A : Type 0} (b : Bound A) (k : A → Db → Response × Db) (db : Db)
    → ((a : A) → IsTurnedDown (k a) db)
    → IsTurnedDown (with_bound b k) db
with_bound-IsTurnedDown (unbound text) k db h = record { error = omega arith; kept = refl }
with_bound-IsTurnedDown (bound a) k db h = record { error = (h a).error; kept = (h a).kept }

module _ (c : Context) (db : Db) where
  abbrev user : Name
  user = extract_user c

  abbrev zone : Name
  zone = param (txt "zone") c

  pub with_zone-IsTurnedDown :
      (k : Name → Name → Db → Response × Db)
      → IsTurnedDown (k user zone) db
      → IsTurnedDown (with_zone c k) db
  unfolding with_zone with_user
  with_zone-IsTurnedDown k h =
      present-IsTurnedDown user (txt "user missing") _ db
        (present-IsTurnedDown zone (txt "zone missing") (k user zone) db h)

  pub with_location-IsTurnedDown :
      (k : Name → Name → Name → Db → Response × Db)
      → IsTurnedDown (k user zone (param (txt "location") c)) db
      → IsTurnedDown (with_location c k) db
  unfolding with_location
  with_location-IsTurnedDown k h =
      with_zone-IsTurnedDown
        (λ user zone.
          present (param (txt "location") c) (txt "location missing")
            (k user zone (param (txt "location") c)))
        (present-IsTurnedDown (param (txt "location") c) (txt "location missing") _ db h)

  pub with_rtype-IsTurnedDown :
      (k : Name → Name → Name → Name → Db → Response × Db)
      → IsTurnedDown (k user zone (param (txt "location") c) (param (txt "rtype") c)) db
      → IsTurnedDown (with_rtype c k) db
  unfolding with_rtype
  with_rtype-IsTurnedDown k h =
      with_location-IsTurnedDown
        (λ user zone location.
          present (param (txt "rtype") c) (txt "rtype missing")
            (k user zone location (param (txt "rtype") c)))
        (present-IsTurnedDown (param (txt "rtype") c) (txt "rtype missing") _ db h)
