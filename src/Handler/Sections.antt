-- ===== src/Handler/Sections.antt =====
-- Every way that a round of HandleRequest in internal/handler/handler.go ends keeps the answer section
-- a chain of CNAME records and records of its last name.
use mathlib.Core.Path.{subst}
use z.Prelude.{
  ℕ, Name, same, ◌≡◌, ◌≢◌, refl, sym, ◌∙◌, Bool, false, List, [], ◌∷◌, ◌++◌, not, is_empty, ◌==◌,
  if◌then◌else◌, arith, Bool-cases, Option-cases, inl, inr,
}
use z.Types.Rr.{Rr, type_soa, type_dnskey, type_ds, rcode_success, rcode_name_error}
use z.Types.Sets.{NsRrSet, RrSet}
use z.Types.Values.{value}
use z.Zone.{Zone, dot}
use z.Handler.World.{World, Context}
use z.Handler.Nsec.{add_nsec}
use z.Handler.Answer.{Answered, soa_records, answer_of, failed, unsupported, answered}
use z.Handler.Owners.{AnswerOwnedBy, answer_of-OwnedBy}
use z.Handler.Round.{
  Next, done, again, out_of_zone, deny, below_cut, closest, at_cut, conclude, final_location,
  no_alias,
}
use z.Handler.Chains.{
  IsChained, Before, owned-IsChained, before-IsChained, extend-IsChained, not_soa, not_dnskey,
  add_nsec-answer, add_nsec-name,
}

module _ {Tree : Type 0} (W : World Tree) (zone : Zone Tree) (zone_name : Name)
    (flattening : Bool) where
  open W use {Store, fqdn}

  -- The names and types that the answers depend on.
  pub record IsOrdinary (ctx : Context) : Type 0 where
    pub soa : ctx.qtype ≢ type_soa
    pub dnskey : ctx.qtype ≢ type_dnskey
    pub ds : ctx.qtype ≢ type_ds

  module _ (name : Name) where
    -- The section after a round.
    abbrev pub After : Next → Type 0
    After (done ctx) = (ctx.name ≡ name) × IsChained name ctx.answer
    After (again ctx qname) =
        (ctx.name ≡ name) × IsOrdinary ctx × Before flattening name ctx.answer qname

    pub record Ready (qname : Name) (ctx : Context) : Type 0 where
      pub named : ctx.name ≡ name
      pub ordinary : IsOrdinary ctx
      pub before : Before flattening name ctx.answer qname

    module _ (qname : Name) (ctx : Context) (ready : Ready qname ctx) where
      -- An end that leaves the section as it is.
      pub same-After :
          {n : Name} {answer : List Rr}
          → n ≡ ctx.name
          → answer ≡ ctx.answer
          → (n ≡ name) × IsChained name answer
      same-After n a = (
        n ∙ ready.named,
        subst (IsChained name) (sym a)
            (before-IsChained flattening name qname ctx.answer ready.before),
      )

      pub out_of_zone-After : After (done (out_of_zone W zone zone_name flattening ctx))
      unfolding out_of_zone
      out_of_zone-After =
          let ctx' = record ctx { res = rcode_success } in
          same-After (ground (arith, add_nsec-name zone ctx.name ctx.qtype ctx'))
            (ground (arith, add_nsec-answer zone ctx.name ctx.qtype ctx'))

      pub deny-After :
          (res : ℕ) (owner : Name) (qtype : ℕ)
          → After (done (deny W zone zone_name flattening res owner qtype ctx))
      unfolding deny
      deny-After res owner qtype =
          let ctx' = record ctx { authority = soa_records zone; res = res } in
          same-After (add_nsec-name zone owner qtype ctx') (add_nsec-answer zone owner qtype ctx')

      below_cut-After :
          (location : Name) (hosts : NsRrSet) (s : Store)
          → After (below_cut W zone zone_name flattening location hosts ctx s).0
      unfolding below_cut
      below_cut-After location hosts s =
          let cut_point = location ++ dot ∷ zone_name in
          let ctx₁ = record ctx {
            authority = ctx.authority ++ value fqdn (RrSet.ns hosts) cut_point;
          } in
          let read = W.ds zone.name location s in
          elim (Option-cases read.0) [
            | inl e ↦ rw (e, below_cut) (same-After refl refl)
            | inr (keys, e) ↦ elim (Bool-cases (is_empty keys.data_list)) [
              | inl none_there ↦
                  rw (e, below_cut)
                    (rw none_there (
                      same-After (add_nsec-name zone cut_point type_ds ctx₁)
                        (add_nsec-answer zone cut_point type_ds ctx₁)))
              | inr some_there ↦ rw (e, below_cut) (rw some_there (same-After refl refl))
            ]
          ]

      at_cut-After :
          (location : Name) (hosts : NsRrSet) (s : Store)
          → After (at_cut W zone zone_name flattening location qname hosts ctx s).0
      unfolding at_cut
      at_cut-After location hosts s =
          let read = W.ds zone.name location s in
          let other : (ctx.qtype == type_ds) ≡ false = ground (arith, ready.ordinary.ds) in
          elim (Option-cases read.0) [
            | inl e ↦ rw (e, at_cut) (same-After refl refl)
            | inr (keys, e) ↦ elim (Bool-cases (is_empty keys.data_list)) [
              | inl none_there ↦
                  rw (e, at_cut)
                    (rw none_there (
                      same-After (add_nsec-name zone qname type_ds ctx)
                        (add_nsec-answer zone qname type_ds ctx)))
              | inr some_there ↦ rw (e, at_cut) (rw some_there (rw other (same-After refl refl)))
            ]
          ]

      conclude-After :
          (result : Answered)
          → AnswerOwnedBy (if flattening then name else qname) result
          → (owner : Name) → After (conclude W zone zone_name flattening owner result ctx)
      unfolding conclude
      conclude-After failed o owner = same-After refl refl
      conclude-After unsupported o owner = (ready.named, owned-IsChained name [] tt)
      conclude-After (answered records res) o owner =
          let ctx₁ = record ctx { answer = ctx.answer ++ records; res = res } in
          let section = extend-IsChained flattening name qname ctx.answer records ready.before o in
          let kept =
            subst (IsChained name) (sym (add_nsec-answer zone owner ctx.qtype ctx₁)) section in
          let named = add_nsec-name zone owner ctx.qtype ctx₁ ∙ ready.named in
          elim (Bool-cases (is_empty records)) [
            | inl e ↦
                elim (Bool-cases ((add_nsec zone owner ctx.qtype ctx₁).res == rcode_success)) [
                  | inl ok ↦ rw e (rw ok (named, kept))
                  | inr other ↦ rw e (rw other (named, kept))
                ]
            | inr e ↦ rw e (ready.named, section)
          ]

      final_location-After :
          (location : Name) (s : Store)
          → After (final_location W zone zone_name flattening location qname ctx s).0
      unfolding final_location
      final_location-After location s =
          let owner = if flattening then ctx.name else qname in
          let owned =
            answer_of-OwnedBy W zone owner ctx location s (not_soa ctx.qtype ready.ordinary.soa)
              (not_dnskey ctx.qtype ready.ordinary.dnskey) in
          conclude-After (answer_of W zone ctx location owner s).0
            (subst
              (λ n.
                AnswerOwnedBy (if flattening then n else qname)
                  (answer_of W zone ctx location owner s).0)
              ready.named owned)
            owner

      pub no_alias-After :
          (location : Name) (s : Store)
          → After (no_alias W zone zone_name flattening location qname ctx s).0
      unfolding no_alias
      no_alias-After location s = elim (Bool-cases (same qname zone.name)) [
        | inl e ↦ rw e (final_location-After location s)
        | inr apart ↦
            let read = W.ns zone.name location s in
            elim (Option-cases read.0) [
              | inl e ↦ rw apart (rw (e, no_alias) (same-After refl refl))
              | inr (hosts, e) ↦ elim (Bool-cases (not (is_empty hosts.data_list))) [
                | inl some_hosts ↦
                    rw apart (rw (e, no_alias) (rw some_hosts (at_cut-After location hosts read.1)))
                | inr no_hosts ↦
                    rw apart (rw (e, no_alias) (rw no_hosts (final_location-After location read.1)))
              ]
            ]
      ]

      pub closest-After :
          (location : Name) (s : Store)
          → After (closest W zone zone_name flattening location qname ctx s).0
      unfolding closest
      closest-After location s =
          let read = W.ns zone.name location s in
          elim (Option-cases read.0) [
            | inl e ↦ rw (e, closest) (same-After refl refl)
            | inr (hosts, e) ↦ elim (Bool-cases (not (is_empty hosts.data_list))) [
              | inl some_hosts ↦
                  rw (e, closest) (rw some_hosts (below_cut-After location hosts read.1))
              | inr no_hosts ↦
                  rw (e, closest) (rw no_hosts (deny-After rcode_name_error qname ctx.qtype))
            ]
          ]
