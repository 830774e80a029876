-- ===== src/Handler/Loops.antt =====
-- The guard of HandleRequest in internal/handler/handler.go against a CNAME record that points at
-- itself.
use z.Prelude.{
  ℕ, zero, suc, Name, same_refl, ◌≡◌, ◌≢◌, refl, ◌++◌, Bool, true, false, some, [], ◌&&◌, ◌||◌,
  is_empty, ◌==◌, arith,
}
use z.Types.Rr.{type_cname, rcode_server_failure}
use z.Types.Sets.{CnameRrSet, RrSet}
use z.Types.Values.{value}
use z.Zone.{Zone, exact_match}
use z.Handler.World.{World, Context}
use z.Handler.Round.{Next, again, alias, matched, round, rounds_left, resolve}

module _ {Tree : Type 0} (W : World Tree) (zone : Zone Tree) (zone_name : Name) where
  open W use {Store}

  -- In all of these stores, which the reads lead from one to another, the name is a location of the
  -- zone whose CNAME record points at the name itself.
  pub record IsSelfAlias (qname : Name) (Alike : Store → Type 0) : Type 0 where
    pub location : Name
    pub target : CnameRrSet
    pub in_zone : (s : Store) → Alike s → (W.find_zone qname s).0 ≡ zone_name
    pub in_zone_after : (s : Store) → Alike s → Alike (W.find_zone qname s).1
    pub target_in_zone : (s : Store) → Alike s → (W.find_zone target.host s).0 ≡ zone_name
    pub target_in_zone_after : (s : Store) → Alike s → Alike (W.find_zone target.host s).1
    pub there : W.find_location zone qname ≡ (location, exact_match)
    pub points : (s : Store) → Alike s → (W.cname zone.name location s).0 ≡ some target
    pub points_after : (s : Store) → Alike s → Alike (W.cname zone.name location s).1
    pub has_host : is_empty target.host ≡ false
    pub itself : W.fqdn target.host ≡ qname

  module _ (flattening : Bool) (qname : Name) {Alike : Store → Type 0}
      (loop : IsSelfAlias qname Alike) where
    open loop use {
      location, target, in_zone, in_zone_after, target_in_zone, target_in_zone_after, there, points,
      points_after, has_host, itself,
    }

    -- The context behind a round: the alias is appended unless CNAME records are flattened.
    passed : Bool → Context → Context
    passed true ctx = ctx
    passed false ctx = record ctx { answer = ctx.answer ++ value W.fqdn (RrSet.cname target) qname }

    passed-qtype : (f : Bool) (ctx : Context) → (passed f ctx).qtype ≡ ctx.qtype
    unfolding passed
    passed-qtype true ctx = refl
    passed-qtype false ctx = refl

    -- The loop goes on with the same name, in such a store.
    abbrev GoesOn : Bool → Context → Next × Store → Type 0
    GoesOn f ctx r = (r.0 ≡ again (passed f ctx) qname) × Alike r.1

    alias_self :
        (f : Bool) (ctx : Context) (s : Store)
        → Alike s
        → GoesOn f ctx (alias W zone zone_name f qname target ctx s)
    unfolding alias passed
    alias_self false ctx s h = rw itself (refl, h)
    alias_self true ctx s h =
        rw (target_in_zone s h, same_refl zone_name, itself) (refl, target_in_zone_after s h)

    matched_self :
        (ctx : Context) (s : Store)
        → ctx.qtype ≢ type_cname
        → Alike s
        → GoesOn flattening ctx (matched W zone zone_name flattening location qname ctx s)
    unfolding matched
    matched_self ctx s h good =
        let other : (ctx.qtype == type_cname) ≡ false = ground (arith, h) in
        rw (points s good, has_host, other, matched)
          (alias_self flattening ctx _ (points_after s good))

    self_round :
        (ctx : Context) (s : Store)
        → ctx.qtype ≢ type_cname
        → Alike s
        → GoesOn flattening ctx (round W zone zone_name flattening qname ctx s)
    unfolding round
    self_round ctx s h good =
        rw (in_zone s good, same_refl zone_name, there)
          (matched_self ctx _ h (in_zone_after s good))

    -- However many rounds are left, a request for another type than CNAME ends with SERVFAIL and an
    -- empty answer section.
    pub self_rounds :
        (rounds : ℕ) (ctx : Context) (s : Store)
        → ctx.qtype ≢ type_cname
        → Alike s
        → ((rounds_left W zone zone_name flattening rounds qname ctx s).0.answer ≡ [])
          × ((rounds_left W zone zone_name flattening rounds qname ctx s).0.res
              ≡ rcode_server_failure)
    unfolding rounds_left
    self_rounds zero ctx s h good = (refl, refl)
    self_rounds (suc rounds) ctx s h good =
        let same_type = passed-qtype flattening ctx in
        let (next, good') = self_round ctx s h good in
        rw (next, rounds_left) (self_rounds rounds (passed flattening ctx) _ (rw same_type h) good')

-- A request whose name is a location of its zone with a CNAME record that points at the name
-- itself, and whose type is not CNAME, is answered with SERVFAIL and an empty answer section,
-- whether CNAME records are flattened or not, provided that storage answers so, with the zone, in
-- every state that its own reads lead to.
pub resolve_self_alias :
    {Tree : Type 0} (W : World Tree) (zone : Zone Tree) (zone_name : Name) (ctx : Context)
    (s : W.Store) (Alike : W.Store → Type 0)
    → is_empty zone_name ≡ false
    → ((t : W.Store) → Alike t → (W.get_zone zone_name t).0 ≡ some zone)
    → ((t : W.Store) → Alike t → Alike (W.get_zone zone_name t).1)
    → IsSelfAlias W zone zone_name ctx.name Alike
    → Alike s
    → ctx.qtype ≢ type_cname
    → ((resolve W ctx s).0.0.answer ≡ []) × ((resolve W ctx s).0.0.res ≡ rcode_server_failure)
unfolding resolve
resolve_self_alias W zone zone_name ctx s Alike named loaded loaded_after loop good h =
    let secure = ctx.do_bit && ctx.auth && zone.config.dnssec in
    let flattening = secure || zone.config.cname_flattening in
    let good' = loop.in_zone_after s good in
    let found = loop.in_zone s good in
    rw (found, named)
      (rw (loaded _ good', resolve)
        (rw found (
          self_rounds W zone zone_name flattening ctx.name loop 11 (record ctx { dnssec = secure })
            _ h (loaded_after _ good'))))
