-- ===== src/Handler/Coded.antt =====
-- The response codes that the branches of the loop of HandleRequest in internal/handler/handler.go leave.
use z.Prelude.{
  ℕ, Name, ◌≡◌, refl, ◌⊎◌, inl, inr, Bool, false, ◌++◌, not, is_empty, arith, Bool-cases,
  Option-cases,
}
use z.Types.Rr.{rcode_success, rcode_name_error}
use z.Types.Sets.{NsRrSet}
use z.Zone.{Zone}
use z.Handler.World.{World, Context}
use z.Handler.Nsec.{add_nsec}
use z.Handler.Answer.{Answered, soa_records, failed, unsupported, answered}
use z.Handler.Settled.{IsSettled, SettledAnswer}
use z.Handler.Round.{Next, done, again, out_of_zone, deny, below_cut, closest, at_cut, conclude}

-- The codes that the loop can end with: NOERROR or SERVFAIL, or NXDOMAIN, which comes unsigned, with
-- the SOA alone.
abbrev pub IsCoded : {Tree : Type 0} → Zone Tree → Context → Type 0
IsCoded zone ctx =
    IsSettled ctx.res
    ⊎ ((ctx.res ≡ rcode_name_error) × (ctx.dnssec ≡ false) × (ctx.authority ≡ soa_records zone))

-- The code is one of these at the end of the loop, and NOERROR in between.
abbrev pub Coded : {Tree : Type 0} → Zone Tree → Next → Type 0
Coded zone (done ctx) = IsCoded zone ctx
Coded zone (again ctx name) = ctx.res ≡ rcode_success

-- Every end but a denial settles the code.
abbrev pub Settles : Next → Type 0
Settles (done ctx) = IsSettled ctx.res
Settles (again ctx name) = ctx.res ≡ rcode_success

module _ {Tree : Type 0} (W : World Tree) (zone : Zone Tree) (zone_name : Name)
    (flattening : Bool) where
  open W use {Store}

  settled-IsCoded : (ctx : Context) → IsSettled ctx.res → IsCoded zone ctx
  settled-IsCoded ctx h = inl h

  add_nsec-Settled :
      (name : Name) (qtype : ℕ) (ctx : Context)
      → IsSettled ctx.res
      → IsSettled (add_nsec zone name qtype ctx).res
  unfolding add_nsec
  add_nsec-Settled name qtype ctx h = ground arith

  pub Settles-Coded : (next : Next) → Settles next → Coded zone next
  Settles-Coded (done ctx) h = settled-IsCoded ctx h
  Settles-Coded (again ctx name) h = h

  pub out_of_zone-Settled :
      (ctx : Context) → IsSettled (out_of_zone W zone zone_name flattening ctx).res
  unfolding out_of_zone
  out_of_zone-Settled ctx = elim (Bool-cases (is_empty ctx.answer)) [
    | inl e ↦
        rw e (add_nsec-Settled ctx.name ctx.qtype (record ctx { res = rcode_success }) (inl refl))
    | inr e ↦ rw e (inl refl)
  ]

  pub deny-IsCoded :
      (res : ℕ) (qname : Name) (qtype : ℕ) (ctx : Context)
      → (res ≡ rcode_success) ⊎ (res ≡ rcode_name_error)
      → IsCoded zone (deny W zone zone_name flattening res qname qtype ctx)
  unfolding deny add_nsec
  deny-IsCoded res qname qtype ctx (inl h) = inl (
      add_nsec-Settled qname qtype (record ctx { authority = soa_records zone; res = res }) (inl h))
  deny-IsCoded res qname qtype ctx (inr h) = elim (Bool-cases ctx.dnssec) [
    | inl signed ↦ ground arith
    | inr unsigned ↦ ground arith
  ]

  below_cut-Settles :
      (location : Name) (hosts : NsRrSet) (ctx : Context) (s : Store)
      → Settles (below_cut W zone zone_name flattening location hosts ctx s).0
  unfolding below_cut
  below_cut-Settles location hosts ctx s = ground arith

  pub at_cut-Settles :
      (location qname : Name) (hosts : NsRrSet) (ctx : Context) (s : Store)
      → Settles (at_cut W zone zone_name flattening location qname hosts ctx s).0
  unfolding at_cut
  at_cut-Settles location qname hosts ctx s = ground arith

  pub closest-Coded :
      (location qname : Name) (ctx : Context) (s : Store)
      → Coded zone (closest W zone zone_name flattening location qname ctx s).0
  unfolding closest
  closest-Coded location qname ctx s =
      let read = W.ns zone.name location s in
      elim (Option-cases read.0) [
        | inl e ↦ rw (e, closest) (inl (inr refl))
        | inr (hosts, e) ↦ elim (Bool-cases (not (is_empty hosts.data_list))) [
          | inl some_hosts ↦
              rw (e, closest)
                (rw some_hosts (Settles-Coded _ (below_cut-Settles location hosts ctx read.1)))
          | inr no_hosts ↦
              rw (e, closest)
                (rw no_hosts (deny-IsCoded rcode_name_error qname ctx.qtype ctx (inr refl)))
        ]
      ]

  pub conclude-Settles :
      (qname : Name) (result : Answered) (ctx : Context)
      → SettledAnswer W zone result
      → Settles (conclude W zone zone_name flattening qname result ctx)
  unfolding conclude
  conclude-Settles qname failed ctx h = inr refl
  conclude-Settles qname unsupported ctx h = inl refl
  conclude-Settles qname (answered records res) ctx h = ground (
    arith,
    add_nsec-Settled qname ctx.qtype (record ctx { answer = ctx.answer ++ records; res = res }) h,
  )
