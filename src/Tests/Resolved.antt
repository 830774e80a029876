-- ===== src/Tests/Resolved.antt =====
-- The theorems of Resolver, for a client that sends three requests at once.
use z.Prelude.{◌+◌, ◌-◌, ◌*◌, ◌≤◌, txt, refl, List, [], ◌∷◌, none, ◌↔◌, ◌≡◌, false, arith, Name}
use z.Types.Rr.{Ip, type_a, rcode_refused}
use z.Ratelimit.{Reads, can_handle}
use z.Resolver.{Request, handle_request, serve}
use z.Resolver.Refused.{not_refused, handle_request-refused_iff, serve_rate}
use z.Tests.Limits.{entries, limiter, at_time, client, client-IsLimited}
use z.Tests.Signing.{signer}
use z.Tests.Site.{site_world}

abbrev request : Request
request = record {
  questions = record { qname = txt "WWW.z."; qtype = type_a } ∷ [];
  edns = none;
  do_bit = false;
  ip = client;
}

abbrev unknown : Name → Ip
unknown name = none

abbrev later : List (Request × Reads)
later = (request, at_time 6) ∷ (request, at_time 9) ∷ []

serve_rate_example :
    not_refused site_world signer entries limiter unknown
        (serve site_world signer entries limiter unknown ((request, at_time 5) ∷ later) ([], 0))
      * 1000000000
    ≤ 2000000000 + 1000000000 + (9 - 5)
serve_rate_example =
    serve_rate site_world signer entries limiter unknown client client-IsLimited request (at_time 5)
      later ([], 0) (refl, (refl, (refl, tt))) refl (ground arith)

handle_request-refused_iff_example :
    ((handle_request site_world signer entries limiter unknown request (at_time 5) ([], 0)).0.rcode
      ≡ rcode_refused)
    ↔ ((can_handle entries limiter client (at_time 5) []).0 ≡ false)
handle_request-refused_iff_example =
    handle_request-refused_iff site_world signer entries limiter unknown request (at_time 5) ([], 0)
