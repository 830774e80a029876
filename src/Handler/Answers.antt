-- ===== src/Handler/Answers.antt =====
-- The answer section of HandleRequest in internal/handler/handler.go, whatever the chain of names that
-- its loop follows.
use z.Prelude.{
  ℕ, zero, suc, Name, same, ◌≡◌, ◌≢◌, refl, ◌∙◌, Bool, true, false, List, [], not, ◌&&◌, ◌||◌,
  is_empty, ◌==◌, arith, Bool-cases, Option-cases, inl, inr,
}
use z.Types.Rr.{
  Rr, type_soa, type_dnskey, type_ds, type_none, type_cname, rcode_success, rcode_name_error,
}
use z.Types.Sets.{CnameRrSet}
use z.Zone.{Zone, Match, exact_match, wildcard_match, empty_nonterminal_match, ce_match, no_match}
use z.Handler.World.{World, Context}
use z.Handler.Round.{Next, done, again, alias, matched, located, round, rounds_left, resolve}
use z.Handler.Chains.{
  IsChained, Before, Chain, Chain-concat, owned-IsChained, extend-IsChained, cname_one,
}
use z.Handler.Sections.{
  Ready, After, same-After, out_of_zone-After, deny-After, no_alias-After, closest-After,
}

module _ {Tree : Type 0} (W : World Tree) (zone : Zone Tree) (zone_name : Name) where
  open W use {Store, fqdn}

  alias-After :
      (flattening : Bool) (name qname : Name) (ctx : Context)
      → Ready W zone zone_name flattening name qname ctx
      → (target : CnameRrSet) (s : Store) → is_empty target.host ≡ false
      → After W zone zone_name flattening name
          (alias W zone zone_name flattening qname target ctx s).0
  unfolding alias
  alias-After false name qname ctx ready target s host =
      let (r, one, owner, points) = cname_one fqdn target qname host in
      (
        ready.named,
        record { soa = ready.ordinary.soa; dnskey = ready.ordinary.dnskey; ds = ready.ordinary.ds },
        rw one (Chain-concat r ready.before owner points),
      )
  alias-After true name qname ctx ready target s host =
      let read = W.find_zone target.host s in
      let (r, one, owner, points) = cname_one fqdn target ctx.name host in
      elim (Bool-cases (not (same read.0 zone_name))) [
        | inl leaves ↦ rw leaves (
          ready.named,
          extend-IsChained true name qname ctx.answer _ ready.before
              (rw one (owner ∙ ready.named, tt)),
        )
        | inr stays ↦ rw stays (ready.named, ready.ordinary, ready.before)
      ]

  module _ (flattening : Bool) (name qname : Name) (ctx : Context)
      (ready : Ready W zone zone_name flattening name qname ctx) where
    matched-After :
        (location : Name) (s : Store)
        → After W zone zone_name flattening name
            (matched W zone zone_name flattening location qname ctx s).0
    unfolding matched
    matched-After location s =
        let read = W.cname zone.name location s in
        elim (Option-cases read.0) [
          | inl e ↦
              rw (e, matched)
                (same-After W zone zone_name flattening name qname ctx ready refl refl)
          | inr (target, e) ↦
              elim (Bool-cases (not (is_empty target.host) && not (ctx.qtype == type_cname))) [
                | inl aliased ↦
                    rw (e, matched)
                      (rw aliased
                        (alias-After flattening name qname ctx ready target read.1 (ground arith)))
                | inr plain ↦
                    rw (e, matched)
                      (rw plain (
                        no_alias-After W zone zone_name flattening name qname ctx ready location
                          read.1))
              ]
        ]

    located-After :
        (place : Name × Match) (s : Store)
        → After W zone zone_name flattening name
            (located W zone zone_name flattening place qname ctx s).0
    unfolding located
    located-After (location, no_match) s =
        deny-After W zone zone_name flattening name qname ctx ready rcode_name_error qname type_none
    located-After (location, empty_nonterminal_match) s =
        deny-After W zone zone_name flattening name qname ctx ready rcode_success qname type_none
    located-After (location, ce_match) s =
        closest-After W zone zone_name flattening name qname ctx ready location s
    located-After (location, wildcard_match) s = matched-After location s
    located-After (location, exact_match) s = matched-After location s

    round-After :
        (s : Store)
        → After W zone zone_name flattening name (round W zone zone_name flattening qname ctx s).0
    unfolding round
    round-After s =
        let read = W.find_zone qname s in
        elim (Bool-cases (not (same read.0 zone_name))) [
          | inl e ↦ rw e (out_of_zone-After W zone zone_name flattening name qname ctx ready)
          | inr e ↦ rw e (located-After (W.find_location zone qname) read.1)
        ]

  module _ (flattening : Bool) (name : Name) where
    abbrev Answers : ℕ → Type 0
    Answers rounds =
        (qname : Name) (ctx : Context) (s : Store)
        → Ready W zone zone_name flattening name qname ctx
        → IsChained name (rounds_left W zone zone_name flattening rounds qname ctx s).0.answer

    rounds_left-step :
        (rounds : ℕ) (qname : Name) (ctx : Context) (s : Store) (next : Next)
        → (round W zone zone_name flattening qname ctx s).0 ≡ next
        → After W zone zone_name flattening name (round W zone zone_name flattening qname ctx s).0
        → Answers rounds
        → IsChained name (rounds_left W zone zone_name flattening (suc rounds) qname ctx s).0.answer
    unfolding rounds_left
    rounds_left-step rounds qname ctx s (done c) e h ih = rw (e, rounds_left) ((rw e at h).1)
    rounds_left-step rounds qname ctx s (again c next) e h ih =
        let (named, ordinary, before) = rw e at h in
        rw (e, rounds_left)
          (ih next c (round W zone zone_name flattening qname ctx s).1
            (record { named = named; ordinary = ordinary; before = before }))

    rounds_left-IsChained : (rounds : ℕ) → Answers rounds
    rounds_left-IsChained zero qname ctx s ready = unfold rounds_left in owned-IsChained name [] tt
    rounds_left-IsChained (suc rounds) qname ctx s ready =
        rounds_left-step rounds qname ctx s (round W zone zone_name flattening qname ctx s).0 refl
          (round-After flattening name qname ctx ready s) (rounds_left-IsChained rounds)

start :
    (flattening : Bool) (name : Name) (answer : List Rr)
    → answer ≡ []
    → Before flattening name answer name
start true name answer h = h
start false name answer h = rw h (Chain.ends refl)

-- For a fresh context, and a question whose type is not SOA, DNSKEY or DS, the answer section that
-- HandleRequest builds begins with CNAME records that lead from the name of the question to a name,
-- each owned by the target of the one before, and all the other records are owned by that name.
pub resolve-IsChained :
    {Tree : Type 0} (W : World Tree) (ctx : Context) (s : W.Store)
    → ctx.answer ≡ []
    → ctx.qtype ≢ type_soa
    → ctx.qtype ≢ type_dnskey
    → ctx.qtype ≢ type_ds
    → IsChained ctx.name (resolve W ctx s).0.0.answer
unfolding resolve
resolve-IsChained W ctx s h a b c =
    let named = W.find_zone ctx.name s in
    let read = W.get_zone named.0 named.1 in
    let none_yet = owned-IsChained ctx.name ctx.answer (rw h tt) in
    elim (Bool-cases (is_empty named.0)) [
      | inl e ↦ rw e none_yet
      | inr e ↦ elim (Option-cases read.0) [
        | inl n ↦ rw e (rw (n, resolve) none_yet)
        | inr (zone, z) ↦
            let secure = ctx.do_bit && ctx.auth && zone.config.dnssec in
            let flattening = secure || zone.config.cname_flattening in
            let ready : Ready W zone named.0 flattening ctx.name ctx.name
                (record ctx { dnssec = secure }) =
              record {
                named = refl;
                ordinary = record { soa = a; dnskey = b; ds = c };
                before = start flattening ctx.name ctx.answer h;
              } in
            rw e (
              rw (z, resolve)
                (rounds_left-IsChained W zone named.0 flattening ctx.name 11 ctx.name
                  (record ctx { dnssec = secure }) read.1 ready))
      ]
    ]
