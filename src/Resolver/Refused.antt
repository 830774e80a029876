-- ===== src/Resolver/Refused.antt =====
-- A response of handleRequest is REFUSED exactly where the rate limiter refuses, so what a client gets
-- answered is bounded as its calls of CanHandle are.
use z.Prelude.{
  All, ℕ, ◌+◌, ◌-◌, ◌*◌, ◌≤◌, ◌==◌, ==_iff, Name, ◌≡◌, ◌↔◌, refl, ap, ◌∙◌, Bool, true, false, inl,
  inr, Option, none, some, List, [], ◌∷◌, map, if◌then◌else◌, arith,
}
use z.Types.Rr.{Ip, rcode_success, rcode_refused}
use z.Zone.{Zone}
use z.Dnssec.{Signer}
use z.Handler.World.{World, Context}
use z.Handler.Round.{resolve}
use z.Handler.Codes.{IsResolved, resolve-IsResolved}
use z.Ratelimit.{RateLimiter, Limiter, Reads, can_handle, calls}
use z.Ratelimit.Expiring.{Cache}
use z.Ratelimit.Bucket.{IsLimited, InTime, last_time, calls_rate}
use z.Resolver.{
  Request, Response, new_request_context, respond, handle, limited, handle_request, serve,
}

module _ {Tree : Type 0} (W : World Tree) (S : Signer) where
  respond-rcode : (p : Context × Option (Zone Tree)) → (respond W S p).rcode ≡ p.0.res
  unfolding respond
  respond-rcode (ctx, none) = refl
  respond-rcode (ctx, some zone) = refl

  -- The codes of HandleRequest are others.
  resolved_code :
      (p : Context × Option (Zone Tree)) → IsResolved p → (p.0.res == rcode_refused) ≡ false
  resolved_code (ctx, none) (inl h) = rw h refl
  resolved_code (ctx, none) (inr h) = rw h refl
  resolved_code (ctx, some zone) (inl (inl h)) = rw h refl
  resolved_code (ctx, some zone) (inl (inr h)) = rw h refl
  resolved_code (ctx, some zone) (inr h) = rw (h.0) refl

  handle-rcode :
      (ctx : Context) (s : W.Store)
      → ctx.res ≡ rcode_success
      → ((handle W S ctx s).0.rcode == rcode_refused) ≡ false
  unfolding handle
  handle-rcode ctx s h =
      ap (λ c. c == rcode_refused) (respond-rcode (resolve W ctx s).0)
      ∙ resolved_code (resolve W ctx s).0 (resolve-IsResolved W ctx s h)

  module _ (C : Cache Limiter) (limiter : RateLimiter) (parse_ip : Name → Ip) where
    limited-rcode :
        (b : Bool) (ctx : Context) (s : W.Store)
        → ctx.res ≡ rcode_success
        → ((limited W S C limiter parse_ip b ctx s).0.rcode == rcode_refused)
          ≡ (if b then false else true)
    unfolding limited
    limited-rcode true ctx s h = handle-rcode ctx s h
    limited-rcode false ctx s h = refl

    handle_request-rcode :
        (r : Request) (reads : Reads) (st : C.Store × W.Store)
        → ((handle_request W S C limiter parse_ip r reads st).0.rcode == rcode_refused)
          ≡ (if (can_handle C limiter r.ip reads st.0).0 then false else true)
    unfolding handle_request new_request_context
    handle_request-rcode r reads (entries, s) =
        limited-rcode (can_handle C limiter r.ip reads entries).0 (new_request_context parse_ip r) s
          refl

    -- The responses that are not REFUSED.
    abbrev pub not_refused : List Response → ℕ
    not_refused [] = 0
    not_refused (out ∷ rest) =
        let later = not_refused rest in if out.rcode == rcode_refused then later else later + 1

    counted :
        (b : Bool) (n : ℕ)
        → (if (if b then false else true) then n else n + 1) ≡ (if b then n + 1 else n)
    counted true n = refl
    counted false n = refl

    entries-handle_request :
        (r : Request) (reads : Reads) (st : C.Store × W.Store)
        → (handle_request W S C limiter parse_ip r reads st).1.0
          ≡ (can_handle C limiter r.ip reads st.0).1
    unfolding handle_request
    entries-handle_request r reads (entries, s) = refl

    not_refused-serve :
        (key : Name) (l : List (Request × Reads)) (st : C.Store × W.Store)
        → All (λ p. p.0.ip ≡ key) l
        → not_refused (serve W S C limiter parse_ip l st)
          ≡ (calls C limiter key (map (λ p. p.1) l) st.0).0
    unfolding serve calls
    not_refused-serve key [] st h = refl
    not_refused-serve key ((r, reads) ∷ l) st (same_ip, h) =
        let handled = handle_request W S C limiter parse_ip r reads st in
        let later = not_refused-serve key l handled.1 h in
        let code = handle_request-rcode r reads st in
        let left = entries-handle_request r reads st in
        let n : ℕ = not_refused (serve W S C limiter parse_ip l handled.1) in
        let m : C.Store → ℕ = λ e. (calls C limiter key (map (λ p. p.1) l) e).0 in
        let ok = (can_handle C limiter r.ip reads st.0).0 in
        ap (λ b. if b then n else n + 1) code
        ∙ counted ok n
        ∙ ap (λ x. if ok then x + 1 else x) (later ∙ ap m left)
        ∙ ap (λ k. let p = can_handle C limiter k reads st.0 in if p.0 then m p.1 + 1 else m p.1)
            same_ip

    refused_iff :
        (a : ℕ) (b : Bool)
        → (a == rcode_refused) ≡ (if b then false else true)
        → (a ≡ rcode_refused) ↔ (b ≡ false)
    refused_iff a true h = (λ e. ground (arith, e, h), λ e. cc e)
    refused_iff a false h = (λ e. refl, λ e. (==_iff a rcode_refused).0 h)

    -- handleRequest answers REFUSED exactly if the rate limiter refuses the client.
    pub handle_request-refused_iff :
        (r : Request) (reads : Reads) (st : C.Store × W.Store)
        → ((handle_request W S C limiter parse_ip r reads st).0.rcode ≡ rcode_refused)
          ↔ ((can_handle C limiter r.ip reads st.0).0 ≡ false)
    handle_request-refused_iff r reads st = refused_iff _ _ (handle_request-rcode r reads st)

    -- For requests that are handled one after the other, and a client that is limited, on neither
    -- list, and that the limiter does not know at its first request: if all requests come from it,
    -- the clock runs forward and no request comes later than a minute after the entry was stored,
    -- the number of responses other than REFUSED that handleRequest gives, times the step, is at
    -- most the maximal time, plus a step, plus the time from the first update to the last.
    pub serve_rate :
        (key : Name) (limits : IsLimited limiter key) (r : Request) (reads : Reads)
        (rest : List (Request × Reads)) (st : C.Store × W.Store)
        → All (λ p. p.0.ip ≡ key) ((r, reads) ∷ rest)
        → C.get key reads.got st.0 ≡ none
        → InTime reads.now reads.stored (map (λ p. p.1) rest)
        → not_refused (serve W S C limiter parse_ip ((r, reads) ∷ rest) st) * limiter.time_step
          ≤ limiter.max_time
            + limiter.time_step
            + (last_time reads.now (map (λ p. p.1) rest) - reads.now)
    serve_rate key limits r reads rest st one missing times =
        rw (not_refused-serve key ((r, reads) ∷ rest) st one)
          (calls_rate C limiter key limits reads (map (λ p. p.1) rest) st.0 missing times)
