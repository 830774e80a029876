-- ===== src/Ratelimit.antt =====
-- pkg/ratelimit/limiter.go: the leaky bucket of each client. Times and durations are nanoseconds; a
-- call reads the clock several times, and `Reads` holds what it reads, in the order of the reads.
pub mod Expiring
pub mod Bucket
use z.Prelude.{
  ℕ, Name, ◌+◌, ◌-◌, ◌*◌, ◌/◌, Bool, true, false, Option, none, some, List, [], ◌∷◌, listed, ltb,
  ◌==◌, not, if◌then◌else◌,
}
use z.Ratelimit.Expiring.{Cache}

pub record Config : Type 0 where
  pub enable : Bool
  pub burst : ℕ
  pub rate : ℕ
  pub white_list : List Name
  pub black_list : List Name

pub record RateLimiter : Type 0 where
  pub config : Config
  pub max_time : ℕ
  pub time_step : ℕ

pub record Limiter : Type 0 where
  pub size : ℕ
  pub last_update : ℕ

abbrev pub millisecond : ℕ
millisecond = 1000000

-- NewRateLimiter, without the empty cache; a rate of 0 is a division by zero, a panic. The maps of
-- the white and the black list have the configured keys.
pub new_rate_limiter : Config → Option RateLimiter
new_rate_limiter config =
    if config.rate == 0
    then none
    else let step = 60000 / config.rate * millisecond in
      some (record { config = config; max_time = step * config.burst; time_step = step })

-- The clock at Limiters.Get, at time.Since, at time.Now, and at Limiters.Set.
pub record Reads : Type 0 where
  pub got : ℕ
  pub since : ℕ
  pub now : ℕ
  pub stored : ℕ

-- What CanHandle does to a limiter it found. The clock is monotonic, so what is subtracted from the
-- size is not negative, and the size that stops at 0 is the source's, which is set to 0 below it.
unfoldable pub update : RateLimiter → Limiter → Reads → Bool × Limiter
update rl l reads =
    let size = l.size - (reads.since - l.last_update) in
    if ltb rl.max_time size
    then (false, record { size = size; last_update = reads.now })
    else (true, record { size = size + rl.time_step; last_update = reads.now })

-- The limiter of a client that the cache does not know.
unfoldable pub fresh : RateLimiter → Reads → Limiter
fresh rl reads = record { size = rl.time_step; last_update = reads.now }

module _ (C : Cache Limiter) where
  -- CanHandle, for calls that come one after the other: a call for a client that has no entry holds no
  -- mutex, and such calls at one time, which all get a new entry, are not modelled.
  unfoldable pub can_handle : RateLimiter → Name → Reads → C.Store → Bool × C.Store
  unfolding update fresh
  can_handle rl key reads s =
      if not rl.config.enable
      then (true, s)
      else if listed key rl.config.black_list
      then (false, s)
      else if listed key rl.config.white_list
      then (true, s)
      else elim (C.get key reads.got s) [
        | none ↦ (true, C.set key (fresh rl reads) reads.stored s)
        | some l ↦ let (res, l') = update rl l reads in (res, C.set key l' reads.stored s)
      ]

  -- The calls of one client, one after the other, with the number of those that were handled.
  unfoldable pub calls : RateLimiter → Name → List Reads → C.Store → ℕ × C.Store
  calls rl key [] s = (0, s)
  calls rl key (reads ∷ rest) s =
      let (res, s₁) = can_handle rl key reads s in
      let (handled, s₂) = calls rl key rest s₁ in (if res then handled + 1 else handled, s₂)
