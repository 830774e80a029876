-- ===== src/Types/Values.antt =====
-- The methods Value, Empty and Ttl of the record sets of internal/types/dns_types.go. A loop over
-- the items of a set is a recursion that skips or emits one record for each item.
pub mod Owner
use z.Prelude.{ℕ, Name, Bool, List, [], ◌∷◌, is_empty, if◌then◌else◌}
use z.Types.Rr.{
  Rr, Rdata, type_cname, type_txt, type_ns, type_mx, type_srv, type_caa, type_ptr, type_tlsa,
  type_ds, class_inet, class_none,
}
use z.Types.Sets.{
  IpRrSet, CnameRrSet, TxtRrSet, NsRrSet, MxRr, MxRrSet, SrvRr, SrvRrSet, CaaRr, CaaRrSet, PtrRrSet,
  TlsaRr, TlsaRrSet, DsRr, DsRrSet, AnameRrSet, RrSet,
}
use z.Types.Split.{split255}

abbrev pub header : Name → ℕ → ℕ → ℕ → Rdata → Rr
header name rrtype class ttl rdata = record {
  name = name;
  rrtype = rrtype;
  class = class;
  ttl = ttl;
  rdata = rdata;
}

txt_value : Name → ℕ → List (List ℕ) → List Rr
txt_value name ttl [] = []
txt_value name ttl (text ∷ rest) =
    let res = txt_value name ttl rest in
    if is_empty text
    then res
    else header name type_txt class_inet ttl (Rdata.txt_data (split255 text)) ∷ res

caa_value : Name → ℕ → List CaaRr → List Rr
caa_value name ttl [] = []
caa_value name ttl (caa ∷ rest) =
    header name type_caa class_inet ttl (Rdata.caa caa.tag caa.flag caa.value)
    ∷ caa_value name ttl rest

tlsa_value : Name → ℕ → List TlsaRr → List Rr
tlsa_value name ttl [] = []
tlsa_value name ttl (tlsa ∷ rest) =
    header name type_tlsa class_none ttl
      (Rdata.tlsa tlsa.usage tlsa.selector tlsa.matching_type tlsa.certificate)
    ∷ tlsa_value name ttl rest

ds_value : Name → ℕ → List DsRr → List Rr
ds_value name ttl [] = []
ds_value name ttl (ds ∷ rest) =
    header name type_ds class_inet ttl (Rdata.ds ds.key_tag ds.algorithm ds.digest_type ds.digest)
    ∷ ds_value name ttl rest

-- dns.Fqdn of the DNS library
module _ (fqdn : Name → Name) where
  pub cname_value : CnameRrSet → Name → List Rr
  cname_value rrset name =
      if is_empty rrset.host
      then []
      else header name type_cname class_inet rrset.ttl_value (Rdata.cname (fqdn rrset.host)) ∷ []

  ptr_value : PtrRrSet → Name → List Rr
  ptr_value rrset name =
      if is_empty rrset.domain
      then []
      else header name type_ptr class_inet rrset.ttl_value (Rdata.ptr (fqdn rrset.domain)) ∷ []

  pub ns_value : Name → ℕ → List Name → List Rr
  ns_value name ttl [] = []
  ns_value name ttl (host ∷ rest) =
      let res = ns_value name ttl rest in
      if is_empty host then res else header name type_ns class_inet ttl (Rdata.ns (fqdn host)) ∷ res

  mx_value : Name → ℕ → List MxRr → List Rr
  mx_value name ttl [] = []
  mx_value name ttl (mx ∷ rest) =
      let res = mx_value name ttl rest in
      if is_empty mx.host
      then res
      else header name type_mx class_inet ttl (Rdata.mx (fqdn mx.host) mx.preference) ∷ res

  srv_value : Name → ℕ → List SrvRr → List Rr
  srv_value name ttl [] = []
  srv_value name ttl (srv ∷ rest) =
      let res = srv_value name ttl rest in
      if is_empty srv.target
      then res
      else header name type_srv class_inet ttl
          (Rdata.srv (fqdn srv.target) srv.priority srv.weight srv.port)
        ∷ res

  -- RRSet.Value
  unfoldable pub value : RrSet → Name → List Rr
  unfolding txt_value caa_value tlsa_value ds_value cname_value ptr_value ns_value mx_value
      srv_value
  value (RrSet.ip s) name = []
  value (RrSet.cname s) name = cname_value s name
  value (RrSet.txt_set s) name = txt_value name s.ttl_value s.data_list
  value (RrSet.ns s) name = ns_value name s.ttl_value s.data_list
  value (RrSet.mx s) name = mx_value name s.ttl_value s.data_list
  value (RrSet.srv s) name = srv_value name s.ttl_value s.data_list
  value (RrSet.caa s) name = caa_value name s.ttl_value s.data_list
  value (RrSet.ptr s) name = ptr_value s name
  value (RrSet.tlsa s) name = tlsa_value name s.ttl_value s.data_list
  value (RrSet.ds s) name = ds_value name s.ttl_value s.data_list
  value (RrSet.aname s) name = []

-- RRSet.Empty
unfoldable pub empty : RrSet → Bool
empty (RrSet.ip s) = is_empty s.data_list
empty (RrSet.cname s) = is_empty s.host
empty (RrSet.txt_set s) = is_empty s.data_list
empty (RrSet.ns s) = is_empty s.data_list
empty (RrSet.mx s) = is_empty s.data_list
empty (RrSet.srv s) = is_empty s.data_list
empty (RrSet.caa s) = is_empty s.data_list
empty (RrSet.ptr s) = is_empty s.domain
empty (RrSet.tlsa s) = is_empty s.data_list
empty (RrSet.ds s) = is_empty s.data_list
empty (RrSet.aname s) = is_empty s.location

-- RRSet.Ttl
unfoldable pub ttl : RrSet → ℕ
ttl (RrSet.ip s) = s.ttl_value
ttl (RrSet.cname s) = s.ttl_value
ttl (RrSet.txt_set s) = s.ttl_value
ttl (RrSet.ns s) = s.ttl_value
ttl (RrSet.mx s) = s.ttl_value
ttl (RrSet.srv s) = s.ttl_value
ttl (RrSet.caa s) = s.ttl_value
ttl (RrSet.ptr s) = s.ttl_value
ttl (RrSet.tlsa s) = s.ttl_value
ttl (RrSet.ds s) = s.ttl_value
ttl (RrSet.aname s) = s.ttl_value
