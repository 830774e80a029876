-- ===== src/Ratelimit/Bucket.antt =====
-- How much CanHandle of pkg/ratelimit/limiter.go lets through: the size of a bucket is bounded, and so
-- is the number of calls of one client that are handled in a stretch of time.
use native.Mathlib.Nat.{zero-mul, suc-mul}
use z.Prelude.{
  ℕ, Name, ◌+◌, ◌-◌, ◌*◌, ◌≤◌, ◌≡◌, refl, ap, Bool, true, false, none, some, List, [], ◌∷◌, listed,
  if◌then◌else◌, arith,
}
use z.Ratelimit.{RateLimiter, Limiter, Reads, update, fresh, can_handle, calls}
use z.Ratelimit.Expiring.{Cache, minute}

-- The bound on the size of a bucket.
abbrev pub IsFilled : RateLimiter → Limiter → Type 0
IsFilled rl l = l.size ≤ rl.max_time + rl.time_step

-- The client is limited: the limiter is on and the client is on neither list.
pub record IsLimited (rl : RateLimiter) (key : Name) : Type 0 where
  pub enabled : rl.config.enable ≡ true
  pub not_black : listed key rl.config.black_list ≡ false
  pub not_white : listed key rl.config.white_list ≡ false

-- The clock runs forward within and between the calls, and the entry of the cache, stored at
-- `stored` with the update time `last`, does not expire between two calls.
abbrev pub InTime : ℕ → ℕ → List Reads → Type 0
InTime last stored [] = Unit
InTime last stored (r ∷ rest) =
    (r.got ≤ stored + minute) × (last ≤ r.since) × (r.since ≤ r.now) × InTime r.now r.stored rest

-- When the last call updates the bucket.
abbrev pub last_time : ℕ → List Reads → ℕ
last_time last [] = last
last_time last (r ∷ rest) = last_time r.now rest

last_time-le : (last stored : ℕ) (l : List Reads) → InTime last stored l → last ≤ last_time last l
last_time-le last stored [] h = omega arith
last_time-le last stored (r ∷ l) (a, b, c, h) = omega (arith, last_time-le r.now r.stored l h)

-- One update keeps the bound, and adds a step to what runs out of the bucket if the call is handled.
pub update-IsFilled :
    (rl : RateLimiter) (l : Limiter) (r : Reads) → IsFilled rl l → IsFilled rl (update rl l r).1
unfolding update
update-IsFilled rl l r h = ground arith

abbrev weight : Bool → ℕ → ℕ
weight true step = step
weight false step = 0

update-balance :
    (rl : RateLimiter) (l : Limiter) (r : Reads)
    → l.last_update ≤ r.since
    → l.size + weight (update rl l r).0 rl.time_step
      ≤ (update rl l r).1.size + (r.since - l.last_update)
unfolding update
update-balance rl l r h = ground arith

update-now : (rl : RateLimiter) (l : Limiter) (r : Reads) → (update rl l r).1.last_update ≡ r.now
unfolding update
update-now rl l r = ground arith

module _ (C : Cache Limiter) (rl : RateLimiter) (key : Name) (limited : IsLimited rl key) where
  open limited use {enabled, not_black, not_white}

  can_handle-found :
      (l : Limiter) (r : Reads) (s : C.Store)
      → C.get key r.got s ≡ some l
      → can_handle C rl key r s ≡ ((update rl l r).0, C.set key (update rl l r).1 r.stored s)
  unfolding can_handle
  can_handle-found l r s e = rw (enabled, not_black, not_white) (rw (e, can_handle) refl)

  -- The cache answers with this limiter for a minute from `stored` on.
  abbrev pub Held : Limiter → ℕ → C.Store → Type 0
  Held l stored s = (t : ℕ) → t ≤ stored + minute → C.get key t s ≡ some l

  set-Held : (l : Limiter) (stored : ℕ) (s : C.Store) → Held l stored (C.set key l stored s)
  set-Held l stored s t h = C.get-set key l stored t s h

  calls-step :
      (l : Limiter) (r : Reads) (rest : List Reads) (s : C.Store)
      → C.get key r.got s ≡ some l
      → (calls C rl key (r ∷ rest) s).0 ≡ (
          if (update rl l r).0
          then (calls C rl key rest (C.set key (update rl l r).1 r.stored s)).0 + 1
          else (calls C rl key rest (C.set key (update rl l r).1 r.stored s)).0)
  unfolding calls
  calls-step l r rest s e =
      let once = can_handle-found l r s e in
      let res : (can_handle C rl key r s).0 ≡ (update rl l r).0 = ap (λ p. p.0) once in
      let next : (can_handle C rl key r s).1 ≡ C.set key (update rl l r).1 r.stored s =
        ap (λ p. p.1) once in
      rw (res, next) refl

  -- Steps of the handled calls, with the bucket they started from, against its bound and the time.
  calls-balance :
      (rest : List Reads) (l : Limiter) (stored : ℕ) (s : C.Store)
      → IsFilled rl l
      → Held l stored s
      → InTime l.last_update stored rest
      → (calls C rl key rest s).0 * rl.time_step + l.size
        ≤ rl.max_time + rl.time_step + (last_time l.last_update rest - l.last_update)
  calls-balance [] l stored s f held t = unfold calls in ground (arith, zero-mul rl.time_step)
  calls-balance (r ∷ rest) l stored s f held (got, since, now, t) =
      let l' = (update rl l r).1 in
      let s' = C.set key l' r.stored s in
      let handled = (calls C rl key rest s').0 in
      let after : InTime l'.last_update r.stored rest = rw (update-now rl l r) t in
      let later =
        calls-balance rest l' r.stored s' (update-IsFilled rl l r f) (set-Held l' r.stored s)
          after in
      rw (calls-step l r rest s (held r.got got)) (
        ground (
          arith,
          suc-mul handled rl.time_step,
          update-balance rl l r since,
          update-now rl l r,
          later,
          last_time-le r.now r.stored rest t,
        ))

  -- The first call of a client that the cache does not know.
  calls-first :
      (r : Reads) (rest : List Reads) (s : C.Store)
      → C.get key r.got s ≡ none
      → (calls C rl key (r ∷ rest) s).0
        ≡ (calls C rl key rest (C.set key (fresh rl r) r.stored s)).0 + 1
  unfolding calls can_handle
  calls-first r rest s e =
      let once : can_handle C rl key r s ≡ (true, C.set key (fresh rl r) r.stored s) =
        rw (enabled, not_black, not_white) (rw (e, can_handle) refl) in
      let res : (can_handle C rl key r s).0 ≡ true = ap (λ p. p.0) once in
      let next : (can_handle C rl key r s).1 ≡ C.set key (fresh rl r) r.stored s =
        ap (λ p. p.1) once in
      rw (res, next) refl

  -- For a client that is limited, on neither list, and that the cache does not know at its first
  -- call: if the clock runs forward and no call comes later than a minute after the entry was
  -- stored, the number of handled calls, times the step, is at most the maximal time, plus a step,
  -- plus the time from the first update to the last.
  pub calls_rate :
      (r : Reads) (rest : List Reads) (s : C.Store)
      → C.get key r.got s ≡ none
      → InTime r.now r.stored rest
      → (calls C rl key (r ∷ rest) s).0 * rl.time_step
        ≤ rl.max_time + rl.time_step + (last_time r.now rest - r.now)
  unfolding fresh
  calls_rate r rest s e t =
      let s' = C.set key (fresh rl r) r.stored s in
      let later =
        calls-balance rest (fresh rl r) r.stored s' (omega arith) (set-Held (fresh rl r) r.stored s)
          t in
      rw (calls-first r rest s e)
        (omega (arith, suc-mul (calls C rl key rest s').0 rl.time_step, later))
