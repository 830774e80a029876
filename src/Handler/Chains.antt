-- ===== src/Handler/Chains.antt =====
-- The answer section that HandleRequest of internal/handler/handler.go builds: a chain of CNAME
-- records from the name of the question, and records of the name that the chain ends at.
use z.Prelude.{
  ℕ, Name, ◌≡◌, ◌≢◌, refl, sym, ◌∙◌, Bool, true, false, List, [], ◌∷◌, ◌++◌, is_empty,
  if◌then◌else◌, arith, append-nil,
}
use z.Types.Rr.{Rr, Rdata, type_soa, type_dnskey, type_cname, class_inet}
use z.Types.Sets.{CnameRrSet, RrSet}
use z.Types.Values.{value, header}
use z.Zone.{Zone}
use z.Handler.World.{Context}
use z.Handler.Nsec.{add_nsec}
use z.Handler.Answer.{kind_of, soa_kind, dnskey_kind}
use z.Handler.Owners.{OwnedBy}

-- CNAME records that lead from one name to another, each owned by the target of the one before.
pub data Chain : Name → List Rr → Name → Type 0 where
  ends : {q last : Name} → q ≡ last → Chain q [] last
  link :
      {q last target : Name} {rest : List Rr} (r : Rr)
      → r.name ≡ q
      → r.rdata ≡ Rdata.cname target
      → Chain target rest last
      → Chain q (r ∷ rest) last

pub Chain-concat :
    {q last : Name} {records : List Rr} (r : Rr) {target : Name}
    → Chain q records last
    → r.name ≡ last
    → r.rdata ≡ Rdata.cname target
    → Chain q (records ++ r ∷ []) target
Chain-concat r (ends e) p d = link r (p ∙ sym e) d (ends refl)
Chain-concat r (link r' p' d' c) p d = link r' p' d' (Chain-concat r c p d)

pub record IsChained (name : Name) (answer : List Rr) : Type 0 where
  pub links : List Rr
  pub tail : List Rr
  pub last : Name
  pub parts : answer ≡ links ++ tail
  pub chain : Chain name links last
  pub owned : OwnedBy last tail

-- Nothing in the section but records of the name itself.
pub owned-IsChained : (name : Name) (answer : List Rr) → OwnedBy name answer → IsChained name answer
owned-IsChained name answer h = record {
  links = [];
  tail = answer;
  last = name;
  parts = refl;
  chain = ends refl;
  owned = h;
}

-- What the loop has of the section before a round at `qname`: nothing if CNAME records are
-- flattened, and otherwise a chain to `qname`.
abbrev pub Before : Bool → Name → List Rr → Name → Type 0
Before true name answer qname = answer ≡ []
Before false name answer qname = Chain name answer qname

pub before-IsChained :
    (flattening : Bool) (name qname : Name) (answer : List Rr)
    → Before flattening name answer qname
    → IsChained name answer
before-IsChained true name qname answer h = owned-IsChained name answer (rw h tt)
before-IsChained false name qname answer h = record {
  links = answer;
  tail = [];
  last = qname;
  parts = sym (append-nil answer);
  chain = h;
  owned = tt;
}

pub extend-IsChained :
    (flattening : Bool) (name qname : Name) (answer records : List Rr)
    → Before flattening name answer qname
    → OwnedBy (if flattening then name else qname) records
    → IsChained name (answer ++ records)
extend-IsChained true name qname answer records h o = rw h (owned-IsChained name records o)
extend-IsChained false name qname answer records h o = record {
  links = answer;
  tail = records;
  last = qname;
  parts = refl;
  chain = h;
  owned = o;
}

pub cname_one :
    (fqdn : Name → Name) (target : CnameRrSet) (qname : Name)
    → is_empty target.host ≡ false
    → (r : Rr) × (value fqdn (RrSet.cname target) qname ≡ r ∷ [])
      × (r.name ≡ qname)
      × (r.rdata ≡ Rdata.cname (fqdn target.host))
unfolding value
cname_one fqdn target qname h = (
  header qname type_cname class_inet target.ttl_value (Rdata.cname (fqdn target.host)),
  rw h,
  refl,
  refl,
)

pub not_soa : (qtype : ℕ) → qtype ≢ type_soa → kind_of qtype ≢ soa_kind
unfolding kind_of
not_soa qtype h = ground arith

pub not_dnskey : (qtype : ℕ) → qtype ≢ type_dnskey → kind_of qtype ≢ dnskey_kind
unfolding kind_of
not_dnskey qtype h = ground arith

pub add_nsec-answer :
    {Tree : Type 0} (zone : Zone Tree) (name : Name) (qtype : ℕ) (ctx : Context)
    → (add_nsec zone name qtype ctx).answer ≡ ctx.answer
unfolding add_nsec
add_nsec-answer zone name qtype ctx = ground arith

pub add_nsec-name :
    {Tree : Type 0} (zone : Zone Tree) (name : Name) (qtype : ℕ) (ctx : Context)
    → (add_nsec zone name qtype ctx).name ≡ ctx.name
unfolding add_nsec
add_nsec-name zone name qtype ctx = ground arith
