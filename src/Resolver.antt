-- ===== src/Resolver.antt =====
-- A request from the socket to its response: internal/handler/request.go, the ends of HandleRequest in
-- internal/handler/handler.go, and handleRequest of cmd/resolver/resolver.go, which asks the rate
-- limiter first. SizeAndDo and Scrub of the coredns library, which fit a response to the client's
-- buffer, and the write to the socket come after what is modelled.
pub mod Refused
use z.Prelude.{
  ℕ, Name, txt, ◌+◌, Bool, true, false, Option, none, some, List, [], ◌∷◌, ◌&&◌, leb, map, is_empty,
  if◌then◌else◌,
}
use z.Types.Rr.{Ip, Rr, rcode_success, rcode_refused}
use z.Zone.{Zone}
use z.Dnssec.{Signer, apply_dnssec}
use z.Handler.World.{World, Context}
use z.Handler.Round.{resolve}
use z.Ratelimit.{RateLimiter, Limiter, Reads, can_handle}
use z.Ratelimit.Expiring.{Cache}

pub record Question : Type 0 where
  pub qname : Name
  pub qtype : ℕ

-- An option of the OPT record, with what String makes of it.
pub data EdnsOption : Type 0 where
  edns_subnet : Ip → Name → EdnsOption
  other_option : Name → EdnsOption

-- dns.Msg, with what IsEdns0 answers, and the client's address as the coredns library writes it.
pub record Request : Type 0 where
  pub questions : List Question
  pub edns : Option (List EdnsOption)
  pub do_bit : Bool
  pub ip : Name

-- `for _, o := range opt.Option`, with nil for no option
abbrev pub options : Request → List EdnsOption
options r = elim r.edns [ none ↦ [] | some l ↦ l ]

unfoldable pub source_ip : (Name → Ip) → Name → List EdnsOption → Ip
source_ip parse_ip ip [] = parse_ip ip
source_ip parse_ip ip (edns_subnet address text ∷ rest) = address
source_ip parse_ip ip (other_option text ∷ rest) = source_ip parse_ip ip rest

unfoldable pub source_subnet : List EdnsOption → Name
source_subnet [] = []
source_subnet (edns_subnet address text ∷ rest) = text
source_subnet (other_option text ∷ rest) = source_subnet rest

-- strings.ToLower; the DNS library writes names in ASCII.
unfoldable pub to_lower : Name → Name
to_lower [] = []
to_lower (c ∷ rest) = (if leb b'A' c && leb c b'Z' then c + 32 else c) ∷ to_lower rest

-- RawName, by the name that the context holds.
unfoldable pub raw_name : Name → List Question → Name
unfolding to_lower
raw_name (c ∷ name) questions = c ∷ name
raw_name [] [] = txt "."
raw_name [] (q ∷ questions) = to_lower q.qname

-- QType of the coredns library.
abbrev pub question_type : List Question → ℕ
question_type [] = 0
question_type (q ∷ questions) = q.qtype

-- NewRequestContext; `name` is what the first RawName leaves.
unfoldable pub new_request_context : (Name → Ip) → Request → Context
unfolding source_ip raw_name
new_request_context parse_ip r = record {
  name = raw_name [] r.questions;
  qtype = question_type r.questions;
  do_bit = r.do_bit;
  auth = true;
  source_ip = source_ip parse_ip r.ip (options r);
  res = rcode_success;
  dnssec = false;
  answer = [];
  authority = [];
  additional = [];
}

pub record Response : Type 0 where
  pub authoritative : Bool
  pub rcode : ℕ
  pub answer : List (Option Rr)
  pub authority : List (Option Rr)
  pub additional : List Rr

-- Response, for a context whose sections are given.
abbrev pub response : Context → List (Option Rr) → List (Option Rr) → Response
response ctx answer authority = record {
  authoritative = ctx.auth;
  rcode = ctx.res;
  answer = answer;
  authority = authority;
  additional = ctx.additional;
}

module _ {Tree : Type 0} (W : World Tree) (S : Signer) where
  -- The signatures, where a zone was loaded, and the response.
  unfoldable pub respond : Context × Option (Zone Tree) → Response
  unfolding apply_dnssec
  respond (ctx, none) = response ctx (map some ctx.answer) (map some ctx.authority)
  respond (ctx, some zone) =
      let (answer, authority) = apply_dnssec S ctx zone in response ctx answer authority

  unfoldable pub handle : Context → W.Store → Response × W.Store
  unfolding resolve respond
  handle ctx s = let (resolved, s') = resolve W ctx s in (respond resolved, s')

  module _ (C : Cache Limiter) (limiter : RateLimiter) (parse_ip : Name → Ip) where
    -- What follows the answer of CanHandle.
    unfoldable pub limited : Bool → Context → W.Store → Response × W.Store
    unfolding handle
    limited true ctx s = handle ctx s
    limited false ctx s = (
      response (record ctx { res = rcode_refused }) (map some ctx.answer) (map some ctx.authority),
      s,
    )

    -- handleRequest, with what CanHandle reads of the clock.
    unfoldable pub handle_request :
        Request → Reads → C.Store × W.Store → Response × (C.Store × W.Store)
    unfolding new_request_context can_handle limited
    handle_request r reads (entries, s) =
        let (ok, entries') = can_handle C limiter r.ip reads entries in
        let (out, s') = limited ok (new_request_context parse_ip r) s in (out, (entries', s'))

    -- Requests one after the other, with the number of responses that are not REFUSED.
    unfoldable pub serve : List (Request × Reads) → C.Store × W.Store → List Response
    unfolding handle_request
    serve [] s = []
    serve ((r, reads) ∷ rest) s = let (out, s') = handle_request r reads s in out ∷ serve rest s'
