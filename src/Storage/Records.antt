-- ===== src/Storage/Records.antt =====
-- The record sets of internal/storage/data_handler.go: getRRSet with its cache, and a reader for each
-- type. The flight groups share the result of simultaneous reads, which the model makes one after the
-- other. A reader returns a result or an error; what stands beside an error is dropped, as by all
-- callers.
use z.Prelude.{ℕ, Name, Bool, Option, none, some, is_empty, if◌then◌else◌, leb}
use z.Types.Sets.{RrSet}
use z.Hiredis.{Failure, Result, ok, err, Redigo, Config, and_then, get}
use z.Storage.{zone_location_rr_set_key}

-- A cache of the ristretto library, which may drop what it is given.
pub record Ristretto (V : Type 0) : Type 1 where
  pub Store : Type 0
  pub find : Name → Store → Option V
  pub put : Name → V → Store → Store
  pub drop_key : Name → Store → Store

-- The DNS library's names of types, the JSON library on a type's sets, redisCon.ErrNil and the clock.
pub record Codec : Type 0 where
  pub type_to_string : ℕ → Name
  pub marshal : RrSet → Result Name
  pub unmarshal : RrSet → Name → Result RrSet
  pub is_nil : Failure → Bool

pub record DataHandlerConfig : Type 0 where
  pub zone_cache_timeout : ℕ
  pub record_cache_timeout : ℕ
  pub redis : Config
  pub min_ttl : ℕ
  pub max_ttl : ℕ

module _ (R : Redigo) (C : Ristretto RrSet) where
  pub record State : Type 0 where
    pub server : R.Server
    pub record_cache : C.Store

module _ (R : Redigo) (C : Ristretto RrSet) (J : Codec) (config : DataHandlerConfig) where
  -- `dh.recordCache.Set(key, result, 1)` and the new state of redis
  abbrev pub keep : Name → RrSet → State R C → Result RrSet × State R C
  keep key r st = (ok r, record st { record_cache = C.put key r st.record_cache })

  -- The function of the flight group, after the read of `val`.
  unfoldable pub parse_value : Name → RrSet → Result Name → State R C → Result RrSet × State R C
  parse_value key result (err e) st = if J.is_nil e then keep key result st else (err e, st)
  parse_value key result (ok val) st =
      if is_empty val then keep key result st else parsed (J.unmarshal result val)
    where
      parsed : Result RrSet → Result RrSet × State R C
      parsed (err e) = (err e, st)
      parsed (ok r) = keep key r st

  unfoldable pub fetch : Name → RrSet → State R C → Result RrSet × State R C
  unfolding parse_value
  fetch key result st =
      let (val, s) = get R config.redis key st.server in
      parse_value key result val (record st { server = s })

  -- `now` is time.Now().Unix().
  unfoldable pub get_rr_set : ℕ → Name → Name → ℕ → RrSet → State R C → Result RrSet × State R C
  unfolding fetch
  get_rr_set now zone label rtype result st =
      let key = zone_location_rr_set_key J.type_to_string zone label rtype in
      let fetched = fetch key result st in
      elim (C.find key st.record_cache) [
        | none ↦ fetched
        | some r ↦ if leb now config.record_cache_timeout then (ok r, st) else fetched
      ]

  -- The readers. `as_type` is the assertion of the type.
  abbrev pub read :
      {A : Type 0}
      → (RrSet → Result A)
      → ℕ
      → RrSet
      → ℕ
      → Name
      → Name
      → State R C
      → Result A × State R C
  read as_type rtype result now zone label st =
      let (r, st') = get_rr_set now zone label rtype result st in (and_then r as_type, st')
