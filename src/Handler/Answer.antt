-- ===== src/Handler/Answer.antt =====
-- The switch on the query type at the end of HandleRequest in internal/handler/handler.go: the
-- answer of the final location.
use z.Prelude.{
  ℕ, Name, Option, none, some, List, [], ◌∷◌, ◌++◌, ◌&&◌, not, is_empty, ◌==◌, if◌then◌else◌,
}
use z.Types.Rr.{
  Ip, Rr, type_a, type_aaaa, type_cname, type_txt, type_ns, type_mx, type_srv, type_caa, type_ptr,
  type_tlsa, type_soa, type_dnskey, type_ds,
}
use z.Types.Sets.{RrSet, IpRrSet, CaaRrSet, AnameRrSet}
use z.Types.Values.{value}
use z.Zone.{Zone, ZoneKey}
use z.Handler.World.{World, Context}
use z.Handler.Addresses.{filter, generate_a, generate_aaaa}
use z.Handler.Aname.{find_aname}
use z.Handler.Caa.{find_caa}

-- The query types that the switch tells apart.
pub data Kind : Type 0 where
  a_kind aaaa_kind cname_kind txt_kind ns_kind mx_kind srv_kind caa_kind ptr_kind tlsa_kind : Kind
  soa_kind dnskey_kind ds_kind other_kind : Kind

unfoldable pub kind_of : ℕ → Kind
kind_of qtype =
    if qtype == type_a
    then a_kind
    else if qtype == type_aaaa
    then aaaa_kind
    else if qtype == type_cname
    then cname_kind
    else if qtype == type_txt
    then txt_kind
    else if qtype == type_ns
    then ns_kind
    else if qtype == type_mx
    then mx_kind
    else if qtype == type_srv
    then srv_kind
    else if qtype == type_caa
    then caa_kind
    else if qtype == type_ptr
    then ptr_kind
    else if qtype == type_tlsa
    then tlsa_kind
    else if qtype == type_soa
    then soa_kind
    else if qtype == type_dnskey
    then dnskey_kind
    else if qtype == type_ds
    then ds_kind
    else other_kind

-- What a case of the switch leaves: a failed read, the default case, or the answer with the response
-- code, which only findANAME changes.
pub data Answered : Type 0 where
  failed unsupported : Answered
  answered : List Rr → ℕ → Answered

-- The SOA record of a zone; NewZone always makes one.
unfoldable pub soa_records : {Tree : Type 0} → Zone Tree → List Rr
soa_records zone = elim zone.config.soa.data_rr [ none ↦ [] | some rr ↦ rr ∷ [] ]

-- A zone that signs has both keys: loadZoneKeys turns signing off where one is missing.
unfoldable pub key_records : Option ZoneKey → List Rr
key_records none = []
key_records (some key) = key.dnskey ∷ []

unfoldable pub dnskey_records : {Tree : Type 0} → Zone Tree → List Rr
unfolding key_records
dnskey_records zone =
    if zone.config.dnssec then key_records zone.zsk ++ key_records zone.ksk else []

module _ {Tree : Type 0} (W : World Tree) where
  open W use {Store, a, aaaa, cname, txt_set, ns, mx, srv, ptr, tlsa, aname, fqdn}

  -- A case that reads one set and answers with its records.
  unfoldable pub set_case :
      {A : Type 0} → (A → RrSet) → Name → ℕ → Option A × Store → Answered × Store
  set_case rrset qname res (none, s) = (failed, s)
  set_case rrset qname res (some x, s) = (answered (value fqdn (rrset x) qname) res, s)

  -- The shared tail of the cases A and AAAA: `generate` makes the records of the addresses.
  unfoldable pub address_case :
      (Name → ℕ → List Ip → List Rr)
      → Zone Tree
      → Context
      → Name
      → Option IpRrSet
      → Option AnameRrSet
      → Store
      → Answered × Store
  address_case generate zone ctx qname none aname_set s = (failed, s)
  address_case generate zone ctx qname (some own) none s = (failed, s)
  address_case generate zone ctx qname (some own) (some aname_set) s =
      if is_empty own.data_list && not (is_empty aname_set.location)
      then (let (found, s') = find_aname W zone ctx.source_ip ctx.qtype aname_set.location s in
          (answered (generate qname found.ttl found.ips) found.code, s'))
      else (let (ips, s') = filter W ctx.source_ip own s in
          (answered (generate qname own.ttl_value ips) ctx.res, s'))

  -- An error of the first read ends the case before the second.
  unfoldable pub with_aname :
      (Name → ℕ → List Ip → List Rr)
      → Zone Tree
      → Context
      → Name
      → Name
      → Option IpRrSet × Store
      → Answered × Store
  unfolding address_case
  with_aname generate zone ctx location qname (none, s) = (failed, s)
  with_aname generate zone ctx location qname (some own, s) =
      let (aname_set, s') = aname zone.name location s in
      address_case generate zone ctx qname (some own) aname_set s'

  unfoldable pub caa_case : Name → ℕ → Option CaaRrSet × Store → Answered × Store
  caa_case qname res (none, s) = (answered [] res, s)
  caa_case qname res (some rrset, s) = (answered (value fqdn (RrSet.caa rrset) qname) res, s)

  unfoldable pub switch : Kind → Zone Tree → Context → Name → Name → Store → Answered × Store
  unfolding set_case with_aname caa_case dnskey_records soa_records
  switch a_kind zone ctx location qname s =
      with_aname generate_a zone ctx location qname (a zone.name location s)
  switch aaaa_kind zone ctx location qname s =
      with_aname generate_aaaa zone ctx location qname (aaaa zone.name location s)
  switch cname_kind zone ctx location qname s =
      set_case RrSet.cname qname ctx.res (cname zone.name location s)
  switch txt_kind zone ctx location qname s =
      set_case RrSet.txt_set qname ctx.res (txt_set zone.name location s)
  switch ns_kind zone ctx location qname s =
      set_case RrSet.ns qname ctx.res (ns zone.name location s)
  switch mx_kind zone ctx location qname s =
      set_case RrSet.mx qname ctx.res (mx zone.name location s)
  switch srv_kind zone ctx location qname s =
      set_case RrSet.srv qname ctx.res (srv zone.name location s)
  switch caa_kind zone ctx location qname s = caa_case qname ctx.res (find_caa W zone qname s)
  switch ptr_kind zone ctx location qname s =
      set_case RrSet.ptr qname ctx.res (ptr zone.name location s)
  switch tlsa_kind zone ctx location qname s =
      set_case RrSet.tlsa qname ctx.res (tlsa zone.name location s)
  switch soa_kind zone ctx location qname s = (answered (soa_records zone) ctx.res, s)
  switch dnskey_kind zone ctx location qname s = (answered (dnskey_records zone) ctx.res, s)
  switch ds_kind zone ctx location qname s = (answered [] ctx.res, s)
  switch other_kind zone ctx location qname s = (unsupported, s)

  unfoldable pub answer_of : Zone Tree → Context → Name → Name → Store → Answered × Store
  unfolding switch
  answer_of zone ctx location qname s = switch (kind_of ctx.qtype) zone ctx location qname s
