-- ===== src/Dnssec.antt =====
-- internal/dnssec/dnssec.go, SplitSets of internal/types/dns_types.go, and applyDnssec of
-- internal/handler/handler.go. A nil signature that the source appends to a section is `none`.
pub mod Kept
use z.Prelude.{
  ℕ, Name, same, Bool, true, false, Option, none, some, List, [], ◌∷◌, ◌++◌, ◌&&◌, ◌||◌, not, map,
  ◌==◌, if◌then◌else◌,
}
use z.Types.Rr.{Rr, Rdata, class_inet, type_rrsig, type_opt, type_dnskey, type_ns}
use z.Types.Values.{header}
use z.Zone.{Zone, ZoneKey}
use z.Handler.World.{Context}

-- types.RRSetKey
pub record RrSetKey : Type 0 where
  pub qname : Name
  pub qtype : ℕ

abbrev pub key_of : Rr → RrSetKey
key_of r = record { qname = r.name; qtype = r.rrtype }

abbrev pub same_key : RrSetKey → RrSetKey → Bool
same_key a b = same a.qname b.qname && a.qtype == b.qtype

abbrev pub is_signature : Rr → Bool
is_signature r = r.rrtype == type_rrsig || r.rrtype == type_opt

-- The map of SplitSets: the entries in the order in which their keys were first seen.
abbrev pub Sets : Type 0
Sets = List (RrSetKey × List Rr)

-- `m[key] = append(m[key], r)`, or a new entry
unfoldable pub add_to_set : Rr → Sets → Sets
add_to_set r [] = (key_of r, r ∷ []) ∷ []
add_to_set r ((key, set) ∷ rest) =
    let later = add_to_set r rest in
    if same_key key (key_of r) then (key, set ++ r ∷ []) ∷ rest else (key, set) ∷ later

-- The loop of SplitSets from a map on.
unfoldable pub split_from : Sets → List Rr → Sets
unfolding add_to_set
split_from m [] = m
split_from m (r ∷ rest) = split_from (if is_signature r then m else add_to_set r m) rest

unfoldable pub split_sets : List Rr → Sets
unfolding split_from
split_sets rrs = split_from [] rrs

-- DNSKEY.KeyTag and the cryptography of RRSIG.Sign, in the DNS library: the signature, or `none` for
-- an error or an algorithm that is not served. `range` is the order in which Go ranges over a map.
pub record Signer : Type 0 where
  pub key_tag : Rr → ℕ
  pub algorithm : Rr → ℕ
  pub sign : ZoneKey → Name → ℕ → List Rr → Option (List ℕ)
  pub range : Sets → Sets

module _ (S : Signer) where
  open S use {key_tag, algorithm, sign, range}

  -- SignRRSet, which returns nil where there is no signature.
  unfoldable pub sign_rr_set : List Rr → Name → ZoneKey → ℕ → Option Rr
  sign_rr_set rrs name key ttl = elim (sign key name ttl rrs) [
    | none ↦ none
    | some signature ↦ some (
        header name type_rrsig class_inet ttl (
          Rdata.rrsig key.key_inception key.key_expiration (key_tag key.dnskey) key.dnskey.name
            (algorithm key.dnskey) signature))
  ]

  module _ {Tree : Type 0} where
    -- The signature of a set by the zone's ZSK. A zone that signs has its keys; without the key the
    -- source would panic, and the model signs nothing.
    unfoldable pub signed_by_zone : Zone Tree → Rr → List Rr → List (Option Rr)
    unfolding sign_rr_set
    signed_by_zone z r rest = elim z.zsk [
      | none ↦ []
      | some key ↦ sign_rr_set (r ∷ rest) r.name key r.ttl ∷ []
    ]

    -- What the loop of SignResponse appends behind a set.
    unfoldable pub signature_of : Name → Zone Tree → List Rr → List (Option Rr)
    unfolding signed_by_zone
    signature_of qname z [] = []
    signature_of qname z (r ∷ rest) =
        if is_signature r
        then []
        else if r.rrtype == type_dnskey
        then z.dnskey_sig ∷ []
        else if r.rrtype == type_ns
        then if same qname z.name then signed_by_zone z r rest else []
        else signed_by_zone z r rest

    unfoldable pub sign_sets : Name → Zone Tree → Sets → List (Option Rr)
    unfolding signature_of
    sign_sets qname z [] = []
    sign_sets qname z ((key, set) ∷ rest) =
        map some set ++ (signature_of qname z set ++ sign_sets qname z rest)

    unfoldable pub sign_response : List Rr → Name → Zone Tree → List (Option Rr)
    unfolding sign_sets split_sets
    sign_response rrs qname z = sign_sets qname z (range (split_sets rrs))

    -- The answer and the authority section behind applyDnssec.
    unfoldable pub apply_dnssec : Context → Zone Tree → List (Option Rr) × List (Option Rr)
    unfolding sign_response
    apply_dnssec ctx z =
        if not ctx.dnssec
        then (map some ctx.answer, map some ctx.authority)
        else (sign_response ctx.answer ctx.name z, sign_response ctx.authority ctx.name z)
