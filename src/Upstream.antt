-- ===== src/Upstream.antt =====
-- internal/upstream/upstream.go: Query, with its cache in front of a list of upstream servers. The
-- flight group shares the result of simultaneous queries, which the model makes one after the other.
-- A cached record that is read gets a new TTL; the model gives it to the answer alone, since every
-- read sets it again.
pub mod Cached
use z.Prelude.{
  ℕ, zero, suc, ◌+◌, ◌-◌, ◌*◌, ◌/◌, ◌%◌, ◌^◌, ◌==◌, Name, Bool, true, false, Option, none, some,
  List, [], ◌∷◌, ◌++◌, map, set, ltb, if◌then◌else◌,
}
use z.Types.Rr.{Rr, rcode_success, rcode_server_failure}

pub record Connection : Type 0 where
  pub protocol : Name
  pub timeout : ℕ
  pub connection_str : Name

-- The fields of dns.Msg that Query reads.
pub record Msg : Type 0 where
  pub rcode : ℕ
  pub answer : List Rr

-- time.Second
abbrev pub second : ℕ
second = 1000000000

-- dns.Client.Exchange, by a state of the world; `none` is an error.
pub record Client : Type 1 where
  pub World : Type 0
  pub exchange : Connection → Name → ℕ → World → Option Msg × World

-- The go-cache library: an entry that is set for a positive duration is found until it is over.
pub record TtlCache : Type 1 where
  pub Store : Type 0
  pub get : Name → ℕ → Store → Option (List Rr × ℕ)
  pub set_entry : Name → List Rr → ℕ → ℕ → Store → Store

-- strconv.Itoa on a number of at most five digits
unfoldable pub digits : ℕ → ℕ → Name
digits zero n = []
digits (suc fuel) n =
    let front = digits fuel (n / 10) in (if ltb n 10 then [] else front) ++ (b'0' + n % 10) ∷ []

unfoldable pub cache_key : Name → ℕ → Name
unfolding digits
cache_key location qtype = location ++ b':' ∷ digits 5 qtype

-- Config, with a port of at most five digits and a timeout in milliseconds.
pub record Config : Type 0 where
  pub ip : Name
  pub port : ℕ
  pub protocol : Name
  pub timeout : ℕ

-- The client and the address of a configuration; time.Millisecond is a million nanoseconds.
unfoldable pub connection : Config → Connection
unfolding digits
connection c = record {
  protocol = c.protocol;
  timeout = c.timeout * 1000000;
  connection_str = c.ip ++ b':' ∷ digits 5 c.port;
}

-- The loop over the answers from a first minimum on.
unfoldable pub min_ttl : ℕ → List Rr → ℕ
min_ttl least [] = least
min_ttl least (r ∷ rest) = min_ttl (if ltb r.ttl least then r.ttl else least) rest

abbrev pub with_ttl : ℕ → Rr → Rr
with_ttl ttl r = record r { ttl = ttl }

module _ (C : Client) (K : TtlCache) where
  pub record Upstream : Type 0 where
    pub connections : List Connection
    pub cache : K.Store
    pub world : C.World

  -- NewUpstream, with the cache that cache.New gives.
  unfoldable pub new_upstream : List Config → K.Store → C.World → Upstream
  unfolding connection
  new_upstream configs empty world = record {
    connections = map connection configs;
    cache = empty;
    world = world;
  }

  -- What is done with the answers of a reply; `stored` is the time of cache.Set.
  -- `u.connections[0], c = c, u.connections[0]` puts the connection first, and the old first one into
  -- a variable.
  unfoldable pub keep_answer : Name → ℕ → Connection → List Rr → Upstream → Upstream
  unfolding min_ttl
  keep_answer key stored c [] u = u
  keep_answer key stored c (r ∷ rest) u = record u {
    connections = set u.connections 0 c;
    cache = K.set_entry key (r ∷ rest) (min_ttl r.ttl (r ∷ rest) * second) stored u.cache;
  }

  unfoldable pub accept : Name → ℕ → Connection → Msg → Upstream → Upstream
  unfolding keep_answer
  accept key stored c m u =
      if m.rcode == rcode_success then keep_answer key stored c m.answer u else u

  -- After an exchange: the next connections are asked if it failed.
  abbrev pub react :
      Name
      → ℕ
      → Connection
      → (Upstream → Option Msg × Upstream)
      → Upstream
      → Option Msg × C.World
      → Option Msg × Upstream
  react key stored c next u (none, w) = next (record u { world = w })
  react key stored c next u (some m, w) = (some m, accept key stored c m (record u { world = w }))

  -- The loop over the connections; `none` is the error behind it.
  unfoldable pub ask : Name → Name → ℕ → ℕ → List Connection → Upstream → Option Msg × Upstream
  unfolding accept
  ask key location qtype stored [] u = (none, u)
  ask key location qtype stored (c ∷ rest) u =
      react key stored c (λ u. ask key location qtype stored rest u) u
        (C.exchange c location qtype u.world)

  abbrev pub reply_of : Option Msg × Upstream → (List Rr × ℕ) × Upstream
  reply_of (none, u) = (([], rcode_server_failure), u)
  reply_of (some m, u) = ((m.answer, m.rcode), u)

  unfoldable pub query : Name → ℕ → ℕ → ℕ → Upstream → (List Rr × ℕ) × Upstream
  unfolding cache_key ask
  query location qtype now stored u =
      let key = cache_key location qtype in
      let asked = reply_of (ask key location qtype stored u.connections u) in
      elim (K.get key now u.cache) [
        | none ↦ asked
        | some (records, expiration) ↦
            ((map (with_ttl ((expiration - now) / second % 2 ^ 32)) records, rcode_success), u)
      ]
