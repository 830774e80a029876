-- ===== src/Ratelimit/Expiring.antt =====
-- The expiring cache of github.com/patrickmn/go-cache, as pkg/ratelimit/limiter.go uses it: entries
-- are set with an expiration of a minute.
use z.Prelude.{ℕ, Name, ◌+◌, ◌≤◌, ◌≡◌, Option, some}

-- time.Minute
abbrev pub minute : ℕ
minute = 60000000000

pub record Cache (V : Type 0) : Type 1 where
  pub Store : Type 0
  pub get : Name → ℕ → Store → Option V
  pub set : Name → V → ℕ → Store → Store
  pub get-set :
      (k : Name) (v : V) (then now : ℕ) (s : Store)
      → now ≤ then + minute
      → get k now (set k v then s) ≡ some v
