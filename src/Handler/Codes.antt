-- ===== src/Handler/Codes.antt =====
-- The response codes of HandleRequest in internal/handler/handler.go, and what a negative response
-- holds.
use z.Prelude.{
  ℕ, zero, suc, Name, same, ◌≡◌, refl, ◌⊎◌, inl, inr, Bool, Option, none, some, ◌&&◌, not, is_empty,
  ◌==◌, if◌then◌else◌, arith, Bool-cases, Option-cases,
}
use z.Types.Rr.{
  type_none, type_cname, rcode_success, rcode_server_failure, rcode_name_error, rcode_not_auth,
}
use z.Types.Sets.{CnameRrSet}
use z.Zone.{Zone, Match, exact_match, wildcard_match, empty_nonterminal_match, ce_match, no_match}
use z.Handler.World.{World, Context}
use z.Handler.Answer.{answer_of}
use z.Handler.Settled.{answer_of-Settled}
use z.Handler.Round.{
  Next, done, again, final_location, no_alias, alias, matched, located, round, rounds_left, resolve,
}
use z.Handler.Coded.{
  IsCoded, Coded, Settles, Settles-Coded, out_of_zone-Settled, deny-IsCoded, at_cut-Settles,
  closest-Coded, conclude-Settles,
}

module _ {Tree : Type 0} (W : World Tree) (zone : Zone Tree) (zone_name : Name)
    (flattening : Bool) where
  open W use {Store}

  final_location-Settles :
      (location qname : Name) (ctx : Context) (s : Store)
      → ctx.res ≡ rcode_success
      → Settles (final_location W zone zone_name flattening location qname ctx s).0
  unfolding final_location
  final_location-Settles location qname ctx s h =
      let owner = if flattening then ctx.name else qname in
      conclude-Settles W zone zone_name flattening owner (answer_of W zone ctx location owner s).0
        ctx (answer_of-Settled W zone ctx location owner s (inl h))

  no_alias-Settles :
      (location qname : Name) (ctx : Context) (s : Store)
      → ctx.res ≡ rcode_success
      → Settles (no_alias W zone zone_name flattening location qname ctx s).0
  unfolding no_alias
  no_alias-Settles location qname ctx s h = elim (Bool-cases (same qname zone.name)) [
    | inl e ↦ rw e (final_location-Settles location qname ctx s h)
    | inr apart ↦
        let read = W.ns zone.name location s in
        elim (Option-cases read.0) [
          | inl e ↦ rw apart (rw (e, no_alias) (inr refl))
          | inr (hosts, e) ↦ elim (Bool-cases (not (is_empty hosts.data_list))) [
            | inl some_hosts ↦ rw apart (
                rw (e, no_alias)
                  (rw some_hosts
                    (at_cut-Settles W zone zone_name flattening location qname hosts ctx read.1)))
            | inr no_hosts ↦ rw apart (
                rw (e, no_alias) (rw no_hosts (final_location-Settles location qname ctx read.1 h)))
          ]
        ]
  ]

  alias-Settles :
      (qname : Name) (target : CnameRrSet) (ctx : Context) (s : Store)
      → ctx.res ≡ rcode_success
      → Settles (alias W zone zone_name flattening qname target ctx s).0
  unfolding alias
  alias-Settles qname target ctx s h = ground arith

  matched-Settles :
      (location qname : Name) (ctx : Context) (s : Store)
      → ctx.res ≡ rcode_success
      → Settles (matched W zone zone_name flattening location qname ctx s).0
  unfolding matched
  matched-Settles location qname ctx s h =
      let read = W.cname zone.name location s in
      elim (Option-cases read.0) [
        | inl e ↦ rw (e, matched) (inr refl)
        | inr (target, e) ↦
            elim (Bool-cases (not (is_empty target.host) && not (ctx.qtype == type_cname))) [
              | inl aliased ↦ rw (e, matched) (rw aliased (alias-Settles qname target ctx read.1 h))
              | inr plain ↦
                  rw (e, matched) (rw plain (no_alias-Settles location qname ctx read.1 h))
            ]
      ]

  located-Coded :
      (place : Name × Match) (qname : Name) (ctx : Context) (s : Store)
      → ctx.res ≡ rcode_success
      → Coded zone (located W zone zone_name flattening place qname ctx s).0
  unfolding located
  located-Coded (location, no_match) qname ctx s h =
      deny-IsCoded W zone zone_name flattening rcode_name_error qname type_none ctx (inr refl)
  located-Coded (location, empty_nonterminal_match) qname ctx s h =
      deny-IsCoded W zone zone_name flattening rcode_success qname type_none ctx (inl refl)
  located-Coded (location, ce_match) qname ctx s h =
      closest-Coded W zone zone_name flattening location qname ctx s
  located-Coded (location, wildcard_match) qname ctx s h =
      Settles-Coded W zone zone_name flattening _ (matched-Settles location qname ctx s h)
  located-Coded (location, exact_match) qname ctx s h =
      Settles-Coded W zone zone_name flattening _ (matched-Settles location qname ctx s h)

  round-Coded :
      (qname : Name) (ctx : Context) (s : Store)
      → ctx.res ≡ rcode_success
      → Coded zone (round W zone zone_name flattening qname ctx s).0
  unfolding round
  round-Coded qname ctx s h =
      let read = W.find_zone qname s in
      elim (Bool-cases (not (same read.0 zone_name))) [
        | inl e ↦ rw e (inl (out_of_zone-Settled W zone zone_name flattening ctx))
        | inr e ↦ rw e (located-Coded (W.find_location zone qname) qname ctx read.1 h)
      ]

  loop_step :
      (rounds : ℕ) (qname : Name) (ctx : Context) (s : Store) (next : Next)
      → (round W zone zone_name flattening qname ctx s).0 ≡ next
      → Coded zone (round W zone zone_name flattening qname ctx s).0
      → ((name : Name) (c : Context) (t : Store)
          → c.res ≡ rcode_success
          → IsCoded zone (rounds_left W zone zone_name flattening rounds name c t).0)
      → IsCoded zone (rounds_left W zone zone_name flattening (suc rounds) qname ctx s).0
  unfolding rounds_left
  loop_step rounds qname ctx s (done c) e h ih = rw (e, rounds_left) (rw e at h)
  loop_step rounds qname ctx s (again c name) e h ih = rw (e, rounds_left) (ih name c _ (rw e at h))

  -- From a context whose code is success the loop ends with a code that `IsCoded` allows.
  pub rounds_left-IsCoded :
      (rounds : ℕ) (qname : Name) (ctx : Context) (s : Store)
      → ctx.res ≡ rcode_success
      → IsCoded zone (rounds_left W zone zone_name flattening rounds qname ctx s).0
  rounds_left-IsCoded zero qname ctx s h = unfold rounds_left in inl (inr refl)
  rounds_left-IsCoded (suc rounds) qname ctx s h =
      loop_step rounds qname ctx s (round W zone zone_name flattening qname ctx s).0 refl
        (round-Coded qname ctx s h) (rounds_left-IsCoded rounds)

-- What the code says of a request: of one that no zone was loaded for, and of one with a zone.
abbrev pub IsResolved : {Tree : Type 0} → Context × Option (Zone Tree) → Type 0
IsResolved (ctx, some zone) = IsCoded zone ctx
IsResolved (ctx, none) = (ctx.res ≡ rcode_not_auth) ⊎ (ctx.res ≡ rcode_server_failure)

-- For a fresh context, HandleRequest settles before the signatures on NOTAUTH or SERVFAIL if no
-- zone is loaded, and otherwise on NOERROR, SERVFAIL or NXDOMAIN; a response with NXDOMAIN is
-- unsigned and its authority section is the SOA record of the zone.
pub resolve-IsResolved :
    {Tree : Type 0} (W : World Tree) (ctx : Context) (s : W.Store)
    → ctx.res ≡ rcode_success
    → IsResolved (resolve W ctx s).0
unfolding resolve
resolve-IsResolved W ctx s h =
    let named = W.find_zone ctx.name s in
    let read = W.get_zone named.0 named.1 in
    elim (Bool-cases (is_empty named.0)) [
      | inl e ↦ rw e (inl refl)
      | inr e ↦ elim (Option-cases read.0) [
        | inl n ↦ rw (e) (rw (n, resolve) (inr refl))
        | inr (zone, z) ↦
            rw e (rw (z, resolve) (rounds_left-IsCoded W zone named.0 _ 11 ctx.name _ read.1 h))
      ]
    ]
