-- ===== src/Healthcheck/Stats.antt =====
-- internal/storage/stat_handler.go: the items of the health check in redis, with the cache in front of
-- the status.
use z.Prelude.{Name, txt, Option, none, some, List, ◌∷◌, ◌++◌, map, trim_prefix, if◌then◌else◌, ℕ}
use z.Prelude.Int.{ℤ, pos, ltb_ℤ, ◌-ℤ◌}
use z.Healthcheck.{HealthCheckItem}
use z.Hiredis.{Result, ok, err, Redigo, Config, and_then, get, set_key, expire}
use z.Hiredis.Scan.{get_keys, del}
use z.Storage.Records.{Ristretto}

-- The Json library on items, where Unmarshal leaves the zero item on a text that it cannot read.
pub record ItemCodec : Type 0 where
  pub marshal : HealthCheckItem → Result Name
  pub unmarshal : Name → HealthCheckItem

abbrev pub item_prefix : Name
item_prefix = txt "z42:healthcheck:"

-- `if item.DownCount > 0 { item.DownCount = -item.DownCount }`
unfoldable pub down_count_negative : HealthCheckItem → HealthCheckItem
down_count_negative item =
    if ltb_ℤ (pos 0) item.down_count
    then record item { down_count = pos 0 -ℤ item.down_count }
    else item

-- `item.Host + ":" + item.Ip`
abbrev pub item_key : HealthCheckItem → Name
item_key item = txt item.host ++ b':' ∷ txt item.ip

abbrev pub add_prefix : Name → Name
add_prefix key = item_prefix ++ key

module _ (R : Redigo) (J : ItemCodec) (config : Config) where
  -- `order` is the order of Go's range over a map.
  unfoldable pub get_active_healthcheck_items :
      (List Name → List Name) → ℕ → R.Server → Option (Result (List Name)) × R.Server
  get_active_healthcheck_items order fuel s =
      let (keys, s') = get_keys R config order (add_prefix (txt "*")) fuel s in
      (without_prefix keys, s')
    where
      without_prefix : Option (Result (List Name)) → Option (Result (List Name))
      without_prefix none = none
      without_prefix (some keys) =
          some (and_then keys (λ l. ok (map (λ key. trim_prefix key item_prefix) l)))

  unfoldable pub get_healthcheck_item : Name → R.Server → Result HealthCheckItem × R.Server
  unfolding down_count_negative
  get_healthcheck_item key s =
      let (text, s') = get R config (add_prefix key) s in
      (and_then text (λ t. ok (down_count_negative (J.unmarshal t))), s')

  -- The error of Set is dropped.
  unfoldable pub set_healthcheck_item : HealthCheckItem → R.Server → Result (Unit {0}) × R.Server
  set_healthcheck_item item s = store (J.marshal item)
    where
      store : Result Name → Result (Unit {0}) × R.Server
      store (err e) = (err e, s)
      store (ok text) = (ok tt, (set_key R config (add_prefix (item_key item)) text s).1)

  unfoldable pub set_healthcheck_item_expiration :
      Name → ℕ → R.Server → Result (Unit {0}) × R.Server
  set_healthcheck_item_expiration key lifespan s = expire R config (add_prefix key) lifespan s

  -- GetHealthStatus, with the cache.
  module _ (C : Ristretto HealthCheckItem) where
    unfoldable pub get_health_status : Name → Name → C.Store → R.Server → ℤ × (C.Store × R.Server)
    unfolding get_healthcheck_item
    get_health_status domain ip cache s = elim (C.find key cache) [
      | some item ↦ (item.status, (cache, s))
      | none ↦ loaded (get_healthcheck_item key s)
    ]
      where
        key : Name
        key = domain ++ b':' ∷ ip

        loaded : Result HealthCheckItem × R.Server → ℤ × (C.Store × R.Server)
        loaded (err e, s) = (pos 0, (cache, s))
        loaded (ok item, s) = (item.status, (C.put key item cache, s))

-- Clear; `order` is the order of Go's range over a map.
unfoldable pub clear_items :
    (R : Redigo)
    → Config
    → (List Name → List Name)
    → ℕ
    → R.Server
    → Option (Result (Unit {0})) × R.Server
clear_items R config order fuel s = del R config order (txt "*") fuel s
