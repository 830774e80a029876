-- ===== src/Handler/Round.antt =====
-- HandleRequest of internal/handler/handler.go: the loop that follows CNAME records inside a zone.
-- The number of rounds left is the source's `loopCount` counted down from 11.
use z.Prelude.{
  ℕ, zero, suc, Name, same, Bool, Option, none, some, [], ◌∷◌, ◌++◌, ◌&&◌, ◌||◌, not, is_empty,
  ◌==◌, if◌then◌else◌,
}
use z.Types.Rr.{
  type_none, type_cname, type_ds, rcode_success, rcode_server_failure, rcode_name_error,
  rcode_not_auth,
}
use z.Types.Sets.{RrSet, NsRrSet, CnameRrSet}
use z.Types.Values.{value}
use z.Zone.{
  Zone, Match, dot, exact_match, wildcard_match, empty_nonterminal_match, ce_match, no_match,
}
use z.Handler.World.{World, Context}
use z.Handler.Nsec.{add_nsec}
use z.Handler.Addresses.{glue}
use z.Handler.Answer.{soa_records, answer_of, Answered, failed, unsupported, answered}

-- What a round ends with: `break loop`, or `continue` with a further name.
pub data Next : Type 0 where
  done : Context → Next
  again : Context → Name → Next

-- `context.Res = dns.RcodeServerFailure; break loop`
abbrev pub failure : Context → Next
failure ctx = done (record ctx { res = rcode_server_failure })

module _ {Tree : Type 0} (W : World Tree) where
  open W use {Store, find_location, find_zone, get_zone, cname, ns, ds, fqdn}

  module _ (zone : Zone Tree) (zone_name : Name) (flattening : Bool) where
    -- The chain has left the zone.
    unfoldable pub out_of_zone : Context → Context
    out_of_zone ctx =
        let ctx' = record ctx { res = rcode_success } in
        if is_empty ctx.answer then add_nsec zone ctx.name ctx.qtype ctx' else ctx'

    -- The cases NoMatch and EmptyNonterminalMatch, and the end of CEMatch without a delegation.
    unfoldable pub deny : ℕ → Name → ℕ → Context → Context
    deny res qname qtype ctx =
        add_nsec zone qname qtype (record ctx { authority = soa_records zone; res = res })

    -- The sections of a delegation at the cut point, without a match of the cut point itself.
    unfoldable pub below_cut : Name → NsRrSet → Context → Store → Next × Store
    below_cut location hosts ctx s =
        let cut_point = location ++ dot ∷ zone_name in
        let ctx₁ = record ctx {
          authority = ctx.authority ++ value fqdn (RrSet.ns hosts) cut_point;
        } in
        let (read, s₁) = ds zone.name location s in
        elim read [
          | none ↦ (failure ctx₁, s₁)
          | some keys ↦
              let ctx₂ =
                if is_empty keys.data_list then add_nsec zone cut_point type_ds ctx₁ else ctx₁ in
              let (additional, s₂) = glue W zone ctx.source_ip hosts.data_list s₁ in
              (
                done (record ctx₂ {
                  authority = ctx₂.authority ++ value fqdn (RrSet.ds keys) cut_point;
                  additional = ctx₂.additional ++ additional;
                  res = rcode_success;
                }),
                s₂,
              )
        ]

    -- The case CEMatch.
    unfoldable pub closest : Name → Name → Context → Store → Next × Store
    unfolding below_cut deny
    closest location qname ctx s =
        let (read, s₁) = ns zone.name location s in
        elim read [
          | none ↦ (failure ctx, s₁)
          | some hosts ↦
              if not (is_empty hosts.data_list)
              then below_cut location hosts ctx s₁
              else (done (deny rcode_name_error qname ctx.qtype ctx), s₁)
        ]

    -- The delegation of a matched name.
    unfoldable pub at_cut : Name → Name → NsRrSet → Context → Store → Next × Store
    at_cut location qname hosts ctx s =
        let (read, s₁) = ds zone.name location s in
        elim read [
          | none ↦ (failure ctx, s₁)
          | some keys ↦
              let records = value fqdn (RrSet.ds keys) qname in
              if not (is_empty keys.data_list) && ctx.qtype == type_ds
              then (done (record ctx { answer = ctx.answer ++ records; res = rcode_success }), s₁)
              else (let ctx₁ =
                    if is_empty keys.data_list
                    then add_nsec zone qname type_ds ctx
                    else record ctx { authority = ctx.authority ++ records } in
                  let (additional, s₂) = glue W zone ctx.source_ip hosts.data_list s₁ in
                  (
                    done (record ctx₁ {
                      authority = ctx₁.authority ++ value fqdn (RrSet.ns hosts) qname;
                      additional = ctx₁.additional ++ additional;
                      res = rcode_success;
                    }),
                    s₂,
                  ))
        ]

    -- What the answer of the final location does to the context.
    unfoldable pub conclude : Name → Answered → Context → Next
    conclude qname failed ctx = failure ctx
    conclude qname unsupported ctx =
        done (record ctx { answer = []; authority = soa_records zone; res = rcode_success })
    conclude qname (answered records res) ctx =
        let ctx₁ = record ctx { answer = ctx.answer ++ records; res = res } in
        if is_empty records
        then (let ctx₂ = add_nsec zone qname ctx.qtype ctx₁ in
            done (
              if ctx₂.res == rcode_success
              then record ctx₂ { authority = ctx₂.authority ++ soa_records zone }
              else ctx₂))
        else done ctx₁

    unfoldable pub final_location : Name → Name → Context → Store → Next × Store
    unfolding conclude
    final_location location qname ctx s =
        let owner = if flattening then ctx.name else qname in
        let (result, s₁) = answer_of W zone ctx location owner s in (conclude owner result ctx, s₁)

    -- A matched name that is no alias.
    unfoldable pub no_alias : Name → Name → Context → Store → Next × Store
    unfolding at_cut final_location
    no_alias location qname ctx s =
        if same qname zone.name
        then final_location location qname ctx s
        else (let (read, s₁) = ns zone.name location s in
            elim read [
              | none ↦ (failure ctx, s₁)
              | some hosts ↦
                  if not (is_empty hosts.data_list)
                  then at_cut location qname hosts ctx s₁
                  else final_location location qname ctx s₁
            ])

    -- The alias of a matched name.
    unfoldable pub alias : Name → CnameRrSet → Context → Store → Next × Store
    alias qname target ctx s =
        if not flattening
        then (
          again (record ctx { answer = ctx.answer ++ value fqdn (RrSet.cname target) qname })
              (fqdn target.host),
          s,
        )
        else (let (target_zone, s₁) = find_zone target.host s in
            if not (same target_zone zone_name)
            then (
              done (record ctx {
                answer = ctx.answer ++ value fqdn (RrSet.cname target) ctx.name;
                res = rcode_success;
              }),
              s₁,
            )
            else (again ctx (fqdn target.host), s₁))

    -- The cases WildCardMatch and ExactMatch.
    unfoldable pub matched : Name → Name → Context → Store → Next × Store
    unfolding alias no_alias
    matched location qname ctx s =
        let (read, s₁) = cname zone.name location s in
        elim read [
          | none ↦ (failure ctx, s₁)
          | some target ↦
              if not (is_empty target.host) && not (ctx.qtype == type_cname)
              then alias qname target ctx s₁
              else no_alias location qname ctx s₁
        ]

    unfoldable pub located : Name × Match → Name → Context → Store → Next × Store
    unfolding deny closest matched
    located (location, no_match) qname ctx s = (done (deny rcode_name_error qname type_none ctx), s)
    located (location, empty_nonterminal_match) qname ctx s =
        (done (deny rcode_success qname type_none ctx), s)
    located (location, ce_match) qname ctx s = closest location qname ctx s
    located (location, wildcard_match) qname ctx s = matched location qname ctx s
    located (location, exact_match) qname ctx s = matched location qname ctx s

    unfoldable pub round : Name → Context → Store → Next × Store
    unfolding out_of_zone located
    round qname ctx s =
        let (found, s₁) = find_zone qname s in
        if not (same found zone_name)
        then (done (out_of_zone ctx), s₁)
        else located (find_location zone qname) qname ctx s₁

    -- The loop; with no round left the chain is given up.
    unfoldable pub rounds_left : ℕ → Name → Context → Store → Context × Store
    rounds_left zero qname ctx s = (record ctx { answer = []; res = rcode_server_failure }, s)
    rounds_left (suc rounds) qname ctx s =
        let (next, s₁) = round qname ctx s in
        elim next [ done ctx₁ ↦ (ctx₁, s₁) | again ctx₁ name ↦ rounds_left rounds name ctx₁ s₁ ]

  -- HandleRequest up to the signatures: the zone, the flags, and the loop.
  unfoldable pub resolve : Context → Store → (Context × Option (Zone Tree)) × Store
  unfolding rounds_left
  resolve ctx s =
      let (zone_name, s₁) = find_zone ctx.name s in
      if is_empty zone_name
      then ((record ctx { res = rcode_not_auth }, none), s₁)
      else (let (read, s₂) = get_zone zone_name s₁ in
          elim read [
            | none ↦ ((record ctx { res = rcode_server_failure }, none), s₂)
            | some zone ↦
                let secure = ctx.do_bit && ctx.auth && zone.config.dnssec in
                let flattening = secure || zone.config.cname_flattening in
                let (ctx₁, s₃) =
                  rounds_left zone zone_name flattening 11 ctx.name (record ctx { dnssec = secure })
                    s₂ in
                ((ctx₁, some zone), s₃)
          ])
