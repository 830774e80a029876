-- ===== src/Api/Handlers/Zones.antt =====
-- internal/api/handlers/zone/handlers.go, with the requests of types.go.
use z.Prelude.{Name, txt, Bool}
use z.Prelude.Int.{ℤ}
use z.Api.Rows.{empty_object_id}
use z.Api.Handlers.{
  Context, param, extract_user, Bound, Response, zone_info, location_info, record_set_info, names,
  respond, present, with_bound, answer, Storage,
}

pub record ListRequest : Type 0 where
  pub start : ℤ
  pub count : ℤ
  pub q : Name

pub record NewZoneRequest : Type 0 where
  pub name : Name
  pub enabled : Bool
  pub dnssec : Bool
  pub cname_flattening : Bool

pub record UpdateZoneRequest : Type 0 where
  pub enabled : Bool
  pub dnssec : Bool
  pub cname_flattening : Bool

pub record NewLocationRequest : Type 0 where
  pub name : Name
  pub enabled : Bool

pub record UpdateLocationRequest : Type 0 where
  pub enabled : Bool

pub record NewRecordSetRequest : Type 0 where
  pub rtype : Name
  pub value : Name
  pub enabled : Bool

pub record UpdateRecordSetRequest : Type 0 where
  pub value : Name
  pub enabled : Bool

abbrev created : Response
created = respond 201 (txt "successful")

abbrev no_content : Response
no_content = respond 204 (txt "successful")

-- The parts of the path that the handlers ask for, each with its complaint.
module _ {S : Type 0} where
  unfoldable pub with_user : Context → (Name → S → Response × S) → S → Response × S
  unfolding extract_user
  with_user c k = present (extract_user c) (txt "user missing") (k (extract_user c))

  unfoldable pub with_zone : Context → (Name → Name → S → Response × S) → S → Response × S
  unfolding param with_user
  with_zone c k =
      with_user c
        (λ user. let zone = param (txt "zone") c in present zone (txt "zone missing") (k user zone))

  unfoldable pub with_location :
      Context → (Name → Name → Name → S → Response × S) → S → Response × S
  unfolding param with_zone
  with_location c k = with_zone c (λ user zone.
      let location = param (txt "location") c in
      present location (txt "location missing") (k user zone location))

  unfoldable pub with_rtype :
      Context → (Name → Name → Name → Name → S → Response × S) → S → Response × S
  unfolding param with_location
  with_rtype c k = with_location c (λ user zone location.
      let rtype = param (txt "rtype") c in
      present rtype (txt "rtype missing") (k user zone location rtype))

module _ {S : Type 0} (db : Storage S) (c : Context) where
  unfoldable pub get_zones : Bound ListRequest → S → Response × S
  unfolding with_user
  get_zones query = with_user c (λ user. with_bound query (λ req.
      answer (db.get_zones user req.start req.count req.q)
        (λ zones. record { status = 200; body = names zones })))

  unfoldable pub add_zone : Bound NewZoneRequest → S → Response × S
  unfolding with_user
  add_zone body = with_user c (λ user. with_bound body (λ z.
      answer
        (db.add_zone user (record {
          id = empty_object_id;
          name = z.name;
          enabled = z.enabled;
          dnssec = z.dnssec;
          cname_flattening = z.cname_flattening;
        }))
        (λ _. created)))

  unfoldable pub get_zone : S → Response × S
  unfolding with_zone
  get_zone = with_zone c (λ user zone.
      answer (db.get_zone user zone) (λ z. record {
        status = 200;
        body = zone_info z.name z.enabled z.dnssec z.cname_flattening;
      }))

  unfoldable pub update_zone : Bound UpdateZoneRequest → S → Response × S
  unfolding with_zone
  update_zone body = with_zone c (λ user zone. with_bound body (λ req.
      answer
        (db.update_zone user (record {
          id = empty_object_id;
          name = zone;
          enabled = req.enabled;
          dnssec = req.dnssec;
          cname_flattening = req.cname_flattening;
        }))
        (λ _. no_content)))

  unfoldable pub delete_zone : S → Response × S
  unfolding with_zone
  delete_zone = with_zone c (λ user zone. answer (db.delete_zone user zone) (λ _. no_content))

  unfoldable pub get_locations : Bound ListRequest → S → Response × S
  unfolding with_zone
  get_locations query = with_zone c (λ user zone. with_bound query (λ req.
      answer (db.get_locations user zone req.start req.count req.q)
        (λ locations. record { status = 200; body = names locations })))

  unfoldable pub add_location : Bound NewLocationRequest → S → Response × S
  unfolding with_zone
  add_location body = with_zone c (λ user zone. with_bound body (λ req.
      answer
        (db.add_location user zone
          (record { id = empty_object_id; name = req.name; enabled = req.enabled }))
        (λ _. created)))

  unfoldable pub get_location : S → Response × S
  unfolding with_location
  get_location = with_location c (λ user zone location.
      answer (db.get_location user zone location)
        (λ l. record { status = 200; body = location_info l.enabled }))

  unfoldable pub update_location : Bound UpdateLocationRequest → S → Response × S
  unfolding with_location
  update_location body = with_location c (λ user zone location. with_bound body (λ req.
      answer
        (db.update_location user zone
          (record { id = empty_object_id; name = location; enabled = req.enabled }))
        (λ _. no_content)))

  unfoldable pub delete_location : S → Response × S
  unfolding with_location
  delete_location =
      with_location c
        (λ user zone location. answer (db.delete_location user zone location) (λ _. no_content))

  unfoldable pub get_record_sets : S → Response × S
  unfolding with_location
  get_record_sets = with_location c (λ user zone location.
      answer (db.get_record_sets user zone location)
        (λ rrsets. record { status = 200; body = names rrsets }))

  unfoldable pub add_record_set : Bound NewRecordSetRequest → S → Response × S
  unfolding with_location
  add_record_set body = with_location c (λ user zone location. with_bound body (λ req.
      answer
        (db.add_record_set user zone location (record {
          id = empty_object_id;
          rtype = req.rtype;
          value = req.value;
          enabled = req.enabled;
        }))
        (λ _. created)))

  unfoldable pub get_record_set : S → Response × S
  unfolding with_rtype
  get_record_set = with_rtype c (λ user zone location rtype.
      answer (db.get_record_set user zone location rtype)
        (λ r. record { status = 200; body = record_set_info r.value r.enabled }))

  unfoldable pub update_record_set : Bound UpdateRecordSetRequest → S → Response × S
  unfolding with_rtype
  update_record_set body = with_rtype c (λ user zone location rtype. with_bound body (λ req.
      answer
        (db.update_record_set user zone location (record {
          id = empty_object_id;
          rtype = rtype;
          value = req.value;
          enabled = req.enabled;
        }))
        (λ _. no_content)))

  unfoldable pub delete_record_set : S → Response × S
  unfolding with_rtype
  delete_record_set = with_rtype c (λ user zone location rtype.
      answer (db.delete_record_set user zone location rtype) (λ _. no_content))
