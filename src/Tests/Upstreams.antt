-- ===== src/Tests/Upstreams.antt =====
-- The theorem of Upstream, with two servers of which the second answers.
use z.Prelude.{
  All, ℕ, ◌<◌, ◌+◌, ◌*◌, ◌≤◌, Name, txt, same, ◌≡◌, refl, Option, none, some, List, [], ◌∷◌, map,
  leb, if◌then◌else◌, arith, same_refl,
}
use z.Types.Rr.{Rr, Rdata, class_inet, type_a, rcode_success}
use z.Types.Values.{header}
use z.Upstream.{
  Connection, second, Client, TtlCache, cache_key, digits, min_ttl, with_ttl, Upstream, accept,
  keep_answer, ask, query,
}
use z.Upstream.Cached.{Remembers, seconds_left, query-again}

abbrev deaf : Connection
deaf = record { protocol = txt "udp"; timeout = 400000000; connection_str = txt "1.1.1.1:53" }

abbrev alive : Connection
alive = record { protocol = txt "udp"; timeout = 400000000; connection_str = txt "8.8.8.8:53" }

abbrev address : Rr
address = header (txt "a.z.") type_a class_inet 30 (Rdata.a none)

-- The world counts the exchanges.
abbrev client : Client
client = record {
  World = ℕ;
  exchange = λ c location qtype n. (
    if same c.connection_str (txt "8.8.8.8:53")
        then some (record { rcode = 0; answer = address ∷ [] })
        else none,
    n + 1,
  );
}

abbrev entry_at : Name → ℕ → List (Name × (List Rr × ℕ)) → Option (List Rr × ℕ)
entry_at k now [] = none
entry_at k now ((j, (v, expiration)) ∷ rest) =
    let later = entry_at k now rest in
    if same j k then if leb now expiration then some (v, expiration) else none else later

abbrev entries : TtlCache
entries = record {
  Store = List (Name × (List Rr × ℕ));
  get = entry_at;
  set_entry = λ k v d now s. (k, (v, now + d)) ∷ s;
}

entry_at-set :
    (k : Name) (v : List Rr) (d stored now : ℕ) (s : List (Name × (List Rr × ℕ)))
    → now ≤ stored + d
    → entry_at k now ((k, (v, stored + d)) ∷ s) ≡ some (v, stored + d)
entry_at-set k v d stored now s h = ground (arith, same_refl k)

abbrev remembers : Remembers entries
remembers = record { get-set_entry = λ k v d stored now s h j. entry_at-set k v d stored now s j }

abbrev start : Upstream client entries
start = record { connections = deaf ∷ alive ∷ []; cache = []; world = 0 }

answers : (query client entries (txt "a.z.") type_a 5 7 start).0 ≡ (address ∷ [], rcode_success)
unfolding query cache_key digits ask accept keep_answer min_ttl
answers = refl

positive : 0 < min_ttl 30 (address ∷ [])
unfolding min_ttl
positive = omega arith

in_time : 1000000007 ≤ 7 + min_ttl 30 (address ∷ []) * second
unfolding min_ttl
in_time = omega arith

-- The first server is lost, and the second stands twice.
first_is_lost :
    (query client entries (txt "a.z.") type_a 5 7 start).1.connections ≡ alive ∷ alive ∷ []
unfolding query cache_key digits ask accept keep_answer min_ttl
first_is_lost = refl

query-again_example :
    (query client entries
        (txt "a.z.")
        type_a
        1000000007
        0
        (query client entries (txt "a.z.") type_a 5 7 start).1
      ≡ (
        (
          map
              (with_ttl
                (seconds_left client entries remembers (min_ttl 30 (address ∷ [])) 7 1000000007))
              (address ∷ []),
          rcode_success,
        ),
        (query client entries (txt "a.z.") type_a 5 7 start).1,
      ))
    × All
        (λ x.
          seconds_left client entries remembers (min_ttl 30 (address ∷ [])) 7 1000000007 ≤ x.ttl)
        (address ∷ [])
query-again_example =
    query-again client entries remembers (txt "a.z.") type_a 5 7 1000000007 0 start address [] refl
      answers positive (omega arith) in_time
