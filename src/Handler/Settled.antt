-- ===== src/Handler/Settled.antt =====
-- The response codes of findANAME and of the switch on the query type in
-- internal/handler/handler.go.
use z.Prelude.{
  ℕ, zero, suc, Name, ◌≡◌, refl, ◌⊎◌, inl, inr, Option, none, some, List, ◌&&◌, not, is_empty,
  arith, Bool-cases,
}
use z.Types.Rr.{Ip, Rr, rcode_success, rcode_server_failure}
use z.Types.Sets.{IpRrSet, AnameRrSet, CaaRrSet, RrSet}
use z.Zone.{Zone}
use z.Handler.World.{World, Context}
use z.Handler.Addresses.{generate_a, generate_aaaa}
use z.Handler.Aname.{AnameRound, stop, follow, aname_round, find_aname_loop, find_aname}
use z.Handler.Answer.{
  Answered, Kind, answer_of, answered, set_case, caa_case, address_case, with_aname, switch,
  kind_of, a_kind, aaaa_kind, cname_kind, txt_kind, ns_kind, mx_kind, srv_kind, caa_kind, ptr_kind,
  tlsa_kind, soa_kind, dnskey_kind, ds_kind, other_kind,
}

abbrev pub IsSettled : ℕ → Type 0
IsSettled code = (code ≡ rcode_success) ⊎ (code ≡ rcode_server_failure)

module _ {Tree : Type 0} (W : World Tree) (zone : Zone Tree) where
  open W use {Store}

  abbrev SettledRound : {source : Ip} {qtype : ℕ} → AnameRound W zone source qtype → Type 0
  SettledRound (stop f) = IsSettled f.code
  SettledRound (follow name) = Unit

  module _ (source : Ip) (qtype : ℕ) where
    aname_round-Settled :
        (qname : Name) (s : Store) → SettledRound (aname_round W zone source qtype qname s).0
    unfolding aname_round
    aname_round-Settled qname s = ground arith

    find_aname_loop-Settled :
        (rounds : ℕ) (qname : Name) (s : Store)
        → IsSettled (find_aname_loop W zone source qtype rounds qname s).0.code
    unfolding find_aname_loop
    find_aname_loop-Settled zero qname s = inr refl
    find_aname_loop-Settled (suc rounds) qname s =
        go (aname_round W zone source qtype qname s).0 refl (aname_round-Settled qname s)
          (λ name. find_aname_loop-Settled rounds name (aname_round W zone source qtype qname s).1)
      where
        go :
            (next : AnameRound W zone source qtype)
            → (aname_round W zone source qtype qname s).0 ≡ next
            → SettledRound (aname_round W zone source qtype qname s).0
            → ((name : Name)
                → IsSettled
                    (find_aname_loop W zone source qtype rounds name
                      (aname_round W zone source qtype qname s).1).0.code)
            → IsSettled (find_aname_loop W zone source qtype (suc rounds) qname s).0.code
        go (stop f) e h ih = rw (e, find_aname_loop) (rw e at h)
        go (follow name) e h ih = rw (e, find_aname_loop) (ih name)

  find_aname-Settled :
      (source : Ip) (qtype : ℕ) (qname : Name) (s : Store)
      → IsSettled (find_aname W zone source qtype qname s).0.code
  unfolding find_aname
  find_aname-Settled source qtype qname s = find_aname_loop-Settled source qtype 11 qname s

  abbrev pub SettledAnswer : Answered → Type 0
  SettledAnswer (answered records res) = IsSettled res
  SettledAnswer _ = Unit

  set_case-Settled :
      {A : Type 0} (rrset : A → RrSet) (qname : Name) (res : ℕ) (r : Option A × Store)
      → IsSettled res
      → SettledAnswer (set_case W rrset qname res r).0
  unfolding set_case
  set_case-Settled rrset qname res (none, s) h = tt
  set_case-Settled rrset qname res (some x, s) h = h

  caa_case-Settled :
      (qname : Name) (res : ℕ) (r : Option CaaRrSet × Store)
      → IsSettled res
      → SettledAnswer (caa_case W qname res r).0
  unfolding caa_case
  caa_case-Settled qname res (none, s) h = h
  caa_case-Settled qname res (some x, s) h = h

  module _ (generate : Name → ℕ → List Ip → List Rr) (ctx : Context) (h : IsSettled ctx.res) where
    address_case-Settled :
        (qname : Name) (own : Option IpRrSet) (aname_set : Option AnameRrSet) (s : Store)
        → SettledAnswer (address_case W generate zone ctx qname own aname_set s).0
    unfolding address_case
    address_case-Settled qname none aname_set s = tt
    address_case-Settled qname (some own) none s = tt
    address_case-Settled qname (some own) (some target) s =
        elim (Bool-cases (is_empty own.data_list && not (is_empty target.location))) [
          | inl e ↦ rw e (find_aname-Settled ctx.source_ip ctx.qtype target.location s)
          | inr e ↦ rw e h
        ]

    with_aname-Settled :
        (location qname : Name) (r : Option IpRrSet × Store)
        → SettledAnswer (with_aname W generate zone ctx location qname r).0
    unfolding with_aname
    with_aname-Settled location qname (none, s) = tt
    with_aname-Settled location qname (some own, s) =
        address_case-Settled qname (some own) (W.aname zone.name location s).0
          (W.aname zone.name location s).1

  switch-Settled :
      (kind : Kind) (ctx : Context) (location qname : Name) (s : Store)
      → IsSettled ctx.res
      → SettledAnswer (switch W kind zone ctx location qname s).0
  unfolding switch
  switch-Settled a_kind ctx location qname s h =
      with_aname-Settled generate_a ctx h location qname (W.a zone.name location s)
  switch-Settled aaaa_kind ctx location qname s h =
      with_aname-Settled generate_aaaa ctx h location qname (W.aaaa zone.name location s)
  switch-Settled caa_kind ctx location qname s h = caa_case-Settled qname ctx.res _ h
  switch-Settled cname_kind ctx location qname s h = set_case-Settled _ qname ctx.res _ h
  switch-Settled txt_kind ctx location qname s h = set_case-Settled _ qname ctx.res _ h
  switch-Settled ns_kind ctx location qname s h = set_case-Settled _ qname ctx.res _ h
  switch-Settled mx_kind ctx location qname s h = set_case-Settled _ qname ctx.res _ h
  switch-Settled srv_kind ctx location qname s h = set_case-Settled _ qname ctx.res _ h
  switch-Settled ptr_kind ctx location qname s h = set_case-Settled _ qname ctx.res _ h
  switch-Settled tlsa_kind ctx location qname s h = set_case-Settled _ qname ctx.res _ h
  switch-Settled soa_kind ctx location qname s h = h
  switch-Settled dnskey_kind ctx location qname s h = h
  switch-Settled ds_kind ctx location qname s h = h
  switch-Settled other_kind ctx location qname s h = tt

  pub answer_of-Settled :
      (ctx : Context) (location qname : Name) (s : Store)
      → IsSettled ctx.res
      → SettledAnswer (answer_of W zone ctx location qname s).0
  unfolding answer_of
  answer_of-Settled ctx location qname s h =
      switch-Settled (kind_of ctx.qtype) ctx location qname s h
