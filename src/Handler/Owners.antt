-- ===== src/Handler/Owners.antt =====
-- Whom the records of the switch on the query type in internal/handler/handler.go belong to: the name
-- that the switch is given, but for the types SOA and DNSKEY, which answer with the zone's records.
use z.Prelude.{
  ℕ, Name, ◌≡◌, ◌≢◌, refl, Option, none, some, List, [], ◌∷◌, not, ◌&&◌, is_empty, All, All-map,
  Bool-cases, inl, inr,
}
use z.Types.Rr.{Ip, Rr}
use z.Types.Sets.{IpRrSet, AnameRrSet, CaaRrSet, RrSet}
use z.Types.Values.{value, ttl}
use z.Types.Values.Owner.{HasHeader, set_type, set_class, value-HasHeader}
use z.Zone.{Zone}
use z.Handler.World.{World, Context}
use z.Handler.Addresses.{generate_a, generate_aaaa}
use z.Handler.Answer.{
  Answered, Kind, answer_of, answered, set_case, caa_case, address_case, with_aname, switch,
  kind_of, a_kind, aaaa_kind, cname_kind, txt_kind, ns_kind, mx_kind, srv_kind, caa_kind, ptr_kind,
  tlsa_kind, soa_kind, dnskey_kind, ds_kind, other_kind,
}

abbrev pub OwnedBy : Name → List Rr → Type 0
OwnedBy name = All (λ r. r.name ≡ name)

pub value-OwnedBy :
    (fqdn : Name → Name) (s : RrSet) (name : Name) → OwnedBy name (value fqdn s name)
value-OwnedBy fqdn s name =
    All-map (λ r (h : HasHeader name (set_type s) (set_class s) (ttl s) r). h.owner) _
      (value-HasHeader fqdn name s)

generate_a-OwnedBy : (name : Name) (t : ℕ) (ips : List Ip) → OwnedBy name (generate_a name t ips)
unfolding generate_a
generate_a-OwnedBy name t [] = tt
generate_a-OwnedBy name t (none ∷ ips) = generate_a-OwnedBy name t ips
generate_a-OwnedBy name t (some ip ∷ ips) = (refl, generate_a-OwnedBy name t ips)

generate_aaaa-OwnedBy :
    (name : Name) (t : ℕ) (ips : List Ip) → OwnedBy name (generate_aaaa name t ips)
unfolding generate_aaaa
generate_aaaa-OwnedBy name t [] = tt
generate_aaaa-OwnedBy name t (none ∷ ips) = generate_aaaa-OwnedBy name t ips
generate_aaaa-OwnedBy name t (some ip ∷ ips) = (refl, generate_aaaa-OwnedBy name t ips)

abbrev pub AnswerOwnedBy : Name → Answered → Type 0
AnswerOwnedBy name (answered records res) = OwnedBy name records
AnswerOwnedBy name _ = Unit

module _ {Tree : Type 0} (W : World Tree) (zone : Zone Tree) (qname : Name) where
  open W use {Store, fqdn}

  set_case-OwnedBy :
      {A : Type 0} (rrset : A → RrSet) (res : ℕ) (r : Option A × Store)
      → AnswerOwnedBy qname (set_case W rrset qname res r).0
  unfolding set_case
  set_case-OwnedBy rrset res (none, s) = tt
  set_case-OwnedBy rrset res (some x, s) = value-OwnedBy fqdn (rrset x) qname

  caa_case-OwnedBy :
      (res : ℕ) (r : Option CaaRrSet × Store) → AnswerOwnedBy qname (caa_case W qname res r).0
  unfolding caa_case
  caa_case-OwnedBy res (none, s) = tt
  caa_case-OwnedBy res (some x, s) = value-OwnedBy fqdn (RrSet.caa x) qname

  module _ (generate : Name → ℕ → List Ip → List Rr)
      (owned : (t : ℕ) (ips : List Ip) → OwnedBy qname (generate qname t ips)) (ctx : Context) where
    address_case-OwnedBy :
        (own : Option IpRrSet) (target : Option AnameRrSet) (s : Store)
        → AnswerOwnedBy qname (address_case W generate zone ctx qname own target s).0
    unfolding address_case
    address_case-OwnedBy none target s = tt
    address_case-OwnedBy (some own) none s = tt
    address_case-OwnedBy (some own) (some target) s =
        elim (Bool-cases (is_empty own.data_list && not (is_empty target.location))) [
          | inl e ↦ rw e (owned _ _)
          | inr e ↦ rw e (owned _ _)
        ]

    with_aname-OwnedBy :
        (location : Name) (r : Option IpRrSet × Store)
        → AnswerOwnedBy qname (with_aname W generate zone ctx location qname r).0
    unfolding with_aname
    with_aname-OwnedBy location (none, s) = tt
    with_aname-OwnedBy location (some own, s) = address_case-OwnedBy (some own) _ _

  switch-OwnedBy :
      (kind : Kind) (ctx : Context) (location : Name) (s : Store)
      → kind ≢ soa_kind
      → kind ≢ dnskey_kind
      → AnswerOwnedBy qname (switch W kind zone ctx location qname s).0
  unfolding switch
  switch-OwnedBy a_kind ctx location s h k =
      with_aname-OwnedBy generate_a (generate_a-OwnedBy qname) ctx location
        (W.a zone.name location s)
  switch-OwnedBy aaaa_kind ctx location s h k =
      with_aname-OwnedBy generate_aaaa (generate_aaaa-OwnedBy qname) ctx location
        (W.aaaa zone.name location s)
  switch-OwnedBy caa_kind ctx location s h k = caa_case-OwnedBy ctx.res _
  switch-OwnedBy cname_kind ctx location s h k = set_case-OwnedBy RrSet.cname ctx.res _
  switch-OwnedBy txt_kind ctx location s h k = set_case-OwnedBy RrSet.txt_set ctx.res _
  switch-OwnedBy ns_kind ctx location s h k = set_case-OwnedBy RrSet.ns ctx.res _
  switch-OwnedBy mx_kind ctx location s h k = set_case-OwnedBy RrSet.mx ctx.res _
  switch-OwnedBy srv_kind ctx location s h k = set_case-OwnedBy RrSet.srv ctx.res _
  switch-OwnedBy ptr_kind ctx location s h k = set_case-OwnedBy RrSet.ptr ctx.res _
  switch-OwnedBy tlsa_kind ctx location s h k = set_case-OwnedBy RrSet.tlsa ctx.res _
  switch-OwnedBy soa_kind ctx location s h k = absurd (h refl)
  switch-OwnedBy dnskey_kind ctx location s h k = absurd (k refl)
  switch-OwnedBy ds_kind ctx location s h k = tt
  switch-OwnedBy other_kind ctx location s h k = tt

  pub answer_of-OwnedBy :
      (ctx : Context) (location : Name) (s : Store)
      → kind_of ctx.qtype ≢ soa_kind
      → kind_of ctx.qtype ≢ dnskey_kind
      → AnswerOwnedBy qname (answer_of W zone ctx location qname s).0
  unfolding answer_of
  answer_of-OwnedBy ctx location s h k = switch-OwnedBy (kind_of ctx.qtype) ctx location s h k
