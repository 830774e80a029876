-- ===== src/Upstream/Cached.antt =====
-- An answer of Query in internal/upstream/upstream.go is given again until the least of its TTLs is
-- over.
use mathlib.Core.Path.{sym}
use z.Prelude.{
  All, ℕ, ◌+◌, ◌-◌, ◌*◌, ◌/◌, ◌%◌, ◌^◌, ◌≤◌, ◌<◌, Name, ◌≡◌, refl, ap, ◌∙◌, Option, none, some,
  List, [], ◌∷◌, map, ltb, if◌then◌else◌, arith,
}
use z.Types.Rr.{Rr, rcode_success}
use z.Upstream.{
  Connection, Msg, second, Client, TtlCache, cache_key, min_ttl, with_ttl, Upstream, keep_answer,
  accept, react, ask, reply_of, query,
}

-- What the library documents of an entry.
pub record Remembers (K : TtlCache) : Type 0 where
  pub get-set_entry :
      (key : Name) (v : List Rr) (duration stored now : ℕ) (s : K.Store)
      → 0 < duration
      → now ≤ stored + duration
      → K.get key now (K.set_entry key v duration stored s) ≡ some (v, stored + duration)

-- The minimum is at most the first value and every TTL.
min_ttl-le : (least : ℕ) (l : List Rr) → min_ttl least l ≤ least
unfolding min_ttl
min_ttl-le least [] = omega arith
min_ttl-le least (r ∷ l) = ground (arith, min_ttl-le (if ltb r.ttl least then r.ttl else least) l)

min_ttl-All : (least : ℕ) (l : List Rr) → All (λ x. min_ttl least l ≤ x.ttl) l
unfolding min_ttl
min_ttl-All least [] = tt
min_ttl-All least (r ∷ l) =
    let next = if ltb r.ttl least then r.ttl else least in
    (ground (arith, min_ttl-le next l), min_ttl-All next l)

All-weaken : (P Q : Rr → Type 0) (l : List Rr) → ((x : Rr) → P x → Q x) → All P l → All Q l
All-weaken P Q [] f h = tt
All-weaken P Q (x ∷ l) f (h, hs) = (f x h, All-weaken P Q l f hs)

module _ (C : Client) (K : TtlCache) (laws : Remembers K) where
  -- The answer is in the cache of the new state.
  abbrev Kept : Name → ℕ → Rr → List Rr → Upstream C K → Type 0
  Kept key stored r rest u =
      (s : K.Store) × (u.cache
        ≡ K.set_entry key (r ∷ rest) (min_ttl r.ttl (r ∷ rest) * second) stored s)

  -- The reply is the answer.
  abbrev Replied : Rr → List Rr → Option Msg × Upstream C K → Type 0
  Replied r rest p = (reply_of C K p).0 ≡ (r ∷ rest, rcode_success)

  accept-Kept :
      (key : Name) (stored : ℕ) (c : Connection) (m : Msg) (u : Upstream C K) (r : Rr)
      (rest : List Rr)
      → m.answer ≡ r ∷ rest
      → m.rcode ≡ rcode_success
      → Kept key stored r rest (accept C K key stored c m u)
  unfolding accept keep_answer
  accept-Kept key stored c m u r rest answered success =
      (u.cache, rw (success, accept) (ap (λ l. (keep_answer C K key stored c l u).cache) answered))

  react-Kept :
      (key : Name) (stored : ℕ) (c : Connection) (next : Upstream C K → Option Msg × Upstream C K)
      (u : Upstream C K) (p : Option Msg × C.World) (r : Rr) (rest : List Rr)
      → ((v : Upstream C K) → Replied r rest (next v) → Kept key stored r rest (next v).1)
      → Replied r rest (react C K key stored c next u p)
      → Kept key stored r rest (react C K key stored c next u p).1
  react-Kept key stored c next u (none, w) r rest later h = later _ h
  react-Kept key stored c next u (some m, w) r rest later h =
      accept-Kept key stored c m _ r rest (ap (λ q. q.0) h) (ap (λ q. q.1) h)

  ask-Kept :
      (key location : Name) (qtype stored : ℕ) (l : List Connection) (u : Upstream C K) (r : Rr)
      (rest : List Rr)
      → Replied r rest (ask C K key location qtype stored l u)
      → Kept key stored r rest (ask C K key location qtype stored l u).1
  unfolding ask
  ask-Kept key location qtype stored [] u r rest h = cc (ap (λ p. p.1) h)
  ask-Kept key location qtype stored (c ∷ l) u r rest h =
      react-Kept key stored c (ask C K key location qtype stored l) u
        (C.exchange c location qtype u.world) r rest
        (λ v. ask-Kept key location qtype stored l v r rest) h

  -- The seconds that an entry has left.
  abbrev pub seconds_left : ℕ → ℕ → ℕ → ℕ
  seconds_left least stored later = (stored + least * second - later) / second % 2 ^ 32

  seconds_left-le :
      (least stored later : ℕ) → stored ≤ later → seconds_left least stored later ≤ least
  seconds_left-le least stored later h = omega arith

  query-found :
      (location : Name) (qtype later stored expiration : ℕ) (records : List Rr) (u : Upstream C K)
      → K.get (cache_key location qtype) later u.cache ≡ some (records, expiration)
      → query C K location qtype later stored u
        ≡ ((map (with_ttl ((expiration - later) / second % 2 ^ 32)) records, rcode_success), u)
  unfolding query
  query-found location qtype later stored expiration records u found = rw (found, query) refl

  query-missing :
      (location : Name) (qtype now stored : ℕ) (u : Upstream C K)
      → K.get (cache_key location qtype) now u.cache ≡ none
      → query C K location qtype now stored u
        ≡ reply_of C K (ask C K (cache_key location qtype) location qtype stored u.connections u)
  unfolding query
  query-missing location qtype now stored u missing = rw (missing, query) refl

  reply_of-state : (p : Option Msg × Upstream C K) → (reply_of C K p).1 ≡ p.1
  reply_of-state (none, u) = refl
  reply_of-state (some m, u) = refl

  -- If the cache does not hold a question and Query answers it with at least one record, code
  -- NOERROR and a least TTL above 0, and the cache finds an entry until its duration is over, then
  -- Query of the same question, from the time at which the answer was stored until the least TTL is
  -- over, returns the same records with the seconds that are left as their TTL, which is at most
  -- the TTL of each of them, and asks no server.
  pub query-again :
      (location : Name) (qtype now stored later again : ℕ) (u : Upstream C K) (r : Rr)
      (rest : List Rr)
      → K.get (cache_key location qtype) now u.cache ≡ none
      → (query C K location qtype now stored u).0 ≡ (r ∷ rest, rcode_success)
      → 0 < min_ttl r.ttl (r ∷ rest)
      → stored ≤ later
      → later ≤ stored + min_ttl r.ttl (r ∷ rest) * second
      → (query C K location qtype later again (query C K location qtype now stored u).1 ≡ (
        (
          map (with_ttl (seconds_left (min_ttl r.ttl (r ∷ rest)) stored later)) (r ∷ rest),
          rcode_success,
        ),
        (query C K location qtype now stored u).1,
      ))
        × All (λ x. seconds_left (min_ttl r.ttl (r ∷ rest)) stored later ≤ x.ttl) (r ∷ rest)
  query-again location qtype now stored later again u r rest missing answered positive late soon =
      let key = cache_key location qtype in
      let asked = query-missing location qtype now stored u missing in
      let (s, kept) =
        ask-Kept key location qtype stored u.connections u r rest
          (sym (ap (λ p. p.0) asked) ∙ answered) in
      let cache : (query C K location qtype now stored u).1.cache
          ≡ K.set_entry key (r ∷ rest) (min_ttl r.ttl (r ∷ rest) * second) stored s =
        ap (λ p. p.1.cache) asked
        ∙ ap (λ (v : Upstream C K). v.cache)
            (reply_of-state (ask C K key location qtype stored u.connections u))
        ∙ kept in
      let found =
        ap (K.get key later) cache
        ∙ laws.get-set_entry key (r ∷ rest) (min_ttl r.ttl (r ∷ rest) * second) stored later s
            (omega (arith, positive)) soon in
      (
        query-found location qtype later again _ (r ∷ rest) _ found,
        All-weaken _ _ (r ∷ rest)
            (λ x below.
              omega (arith, seconds_left-le (min_ttl r.ttl (r ∷ rest)) stored later late, below))
            (min_ttl-All r.ttl (r ∷ rest)),
      )
