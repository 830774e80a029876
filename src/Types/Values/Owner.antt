-- ===== src/Types/Values/Owner.antt =====
-- What the Value methods of internal/types/dns_types.go put into the header of every record.
use z.Prelude.{ℕ, Name, ◌≡◌, List, [], ◌∷◌, All, arith}
use z.Types.Rr.{
  Rr, type_cname, type_txt, type_ns, type_mx, type_srv, type_caa, type_ptr, type_tlsa, type_ds,
  type_none, class_inet, class_none,
}
use z.Types.Sets.{MxRr, SrvRr, CaaRr, TlsaRr, DsRr, RrSet}
use z.Types.Values.{
  value, ttl, txt_value, caa_value, tlsa_value, ds_value, ns_value, mx_value, srv_value,
}

-- The type and the class that a set's records carry.
abbrev pub set_type : RrSet → ℕ
set_type (RrSet.ip s) = type_none
set_type (RrSet.cname s) = type_cname
set_type (RrSet.txt_set s) = type_txt
set_type (RrSet.ns s) = type_ns
set_type (RrSet.mx s) = type_mx
set_type (RrSet.srv s) = type_srv
set_type (RrSet.caa s) = type_caa
set_type (RrSet.ptr s) = type_ptr
set_type (RrSet.tlsa s) = type_tlsa
set_type (RrSet.ds s) = type_ds
set_type (RrSet.aname s) = type_none

abbrev pub set_class : RrSet → ℕ
set_class (RrSet.tlsa s) = class_none
set_class _ = class_inet

pub record HasHeader (name : Name) (rrtype class life : ℕ) (r : Rr) : Type 0 where
  pub owner : r.name ≡ name
  pub type_of : r.rrtype ≡ rrtype
  pub class_of : r.class ≡ class
  pub ttl_of : r.ttl ≡ life

module _ (name : Name) (life : ℕ) where
  txt_value-All :
      (l : List (List ℕ)) → All (HasHeader name type_txt class_inet life) (txt_value name life l)
  unfolding txt_value
  txt_value-All [] = tt
  txt_value-All (x ∷ l) = ground (arith, txt_value-All l)

  caa_value-All :
      (l : List CaaRr) → All (HasHeader name type_caa class_inet life) (caa_value name life l)
  unfolding caa_value
  caa_value-All [] = tt
  caa_value-All (x ∷ l) = ground (arith, caa_value-All l)

  tlsa_value-All :
      (l : List TlsaRr) → All (HasHeader name type_tlsa class_none life) (tlsa_value name life l)
  unfolding tlsa_value
  tlsa_value-All [] = tt
  tlsa_value-All (x ∷ l) = ground (arith, tlsa_value-All l)

  ds_value-All :
      (l : List DsRr) → All (HasHeader name type_ds class_inet life) (ds_value name life l)
  unfolding ds_value
  ds_value-All [] = tt
  ds_value-All (x ∷ l) = ground (arith, ds_value-All l)

-- dns.Fqdn of the DNS library
module _ (fqdn : Name → Name) (name : Name) where
  module _ (life : ℕ) where
    ns_value-All :
        (l : List Name) → All (HasHeader name type_ns class_inet life) (ns_value fqdn name life l)
    unfolding ns_value
    ns_value-All [] = tt
    ns_value-All (x ∷ l) = ground (arith, ns_value-All l)

    mx_value-All :
        (l : List MxRr) → All (HasHeader name type_mx class_inet life) (mx_value fqdn name life l)
    unfolding mx_value
    mx_value-All [] = tt
    mx_value-All (x ∷ l) = ground (arith, mx_value-All l)

    srv_value-All :
        (l : List SrvRr)
        → All (HasHeader name type_srv class_inet life) (srv_value fqdn name life l)
    unfolding srv_value
    srv_value-All [] = tt
    srv_value-All (x ∷ l) = ground (arith, srv_value-All l)

  -- Every record that Value returns is owned by the name asked for, has the set's TTL and the set's
  -- type, and is of class IN, but of class NONE for a TLSA set.
  pub value-HasHeader :
      (s : RrSet) → All (HasHeader name (set_type s) (set_class s) (ttl s)) (value fqdn s name)
  unfolding value ttl
  value-HasHeader (RrSet.ip s) = tt
  value-HasHeader (RrSet.cname s) = ground arith
  value-HasHeader (RrSet.txt_set s) = txt_value-All name s.ttl_value s.data_list
  value-HasHeader (RrSet.ns s) = ns_value-All s.ttl_value s.data_list
  value-HasHeader (RrSet.mx s) = mx_value-All s.ttl_value s.data_list
  value-HasHeader (RrSet.srv s) = srv_value-All s.ttl_value s.data_list
  value-HasHeader (RrSet.caa s) = caa_value-All name s.ttl_value s.data_list
  value-HasHeader (RrSet.ptr s) = ground arith
  value-HasHeader (RrSet.tlsa s) = tlsa_value-All name s.ttl_value s.data_list
  value-HasHeader (RrSet.ds s) = ds_value-All name s.ttl_value s.data_list
  value-HasHeader (RrSet.aname s) = tt
