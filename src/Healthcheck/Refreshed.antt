-- ===== src/Healthcheck/Refreshed.antt =====
-- What Transfer of internal/healthcheck/healthcheck.go leaves in redis: the old item if it has the
-- configuration already, else a new one.
use mathlib.Core.Path.{sym}
use z.Prelude.{
  ℕ, ◌<◌, ◌/◌, Name, txt, ◌≡◌, ap, ◌∙◌, true, false, Bool-cases, inl, inr, Option, some, [], ◌∷◌,
  if◌then◌else◌,
}
use z.Prelude.Int.{pos, ltb_ℤ, ◌-ℤ◌}
use z.Healthcheck.{HealthCheckItem}
use z.Healthcheck.Stats.{
  ItemCodec, item_key, add_prefix, down_count_negative, get_healthcheck_item, set_healthcheck_item,
  set_healthcheck_item_expiration,
}
use z.Healthcheck.Kept.{IsKept, missing, kept, renewed, items_equal_iff}
use z.Healthcheck.Transfer.{items_equal, refresh, transfer_item}
use z.Hiredis.{Result, ok, err, text, number, Redigo, Config, and_then, get, expire}
use z.Hiredis.Values.{
  KeepsValues, answered, get-answered, Accepts, held, held-set_key, set_key-connected,
}

-- GET changes no value, nor does PEXPIRE with a positive time.
pub record LeavesValues (R : Redigo) (K : KeepsValues R) : Type 0 where
  pub after_get :
      (key other : Name) (s : R.Server)
      → K.value_at other (R.do_command (text (txt "GET") ∷ text key ∷ []) s).1 ≡ K.value_at other s
  pub after_expire :
      (key other : Name) (n : ℕ) (s : R.Server)
      → 0 < n
      → K.value_at other (R.do_command (text (txt "PEXPIRE") ∷ text key ∷ number n ∷ []) s).1
        ≡ K.value_at other s

module _ (R : Redigo) (K : KeepsValues R) (leaves : LeavesValues R K) (J : ItemCodec)
    (config : Config) (interval : ℕ) where
  abbrev at_key : Name → R.Server → Option Name
  at_key key s = held R K config (add_prefix key) s

  -- What GetHealthcheckItem makes of a value.
  abbrev item_of : Option Name → Result HealthCheckItem
  item_of o = and_then (answered K.missing o) (λ t. ok (down_count_negative (J.unmarshal t)))

  get_healthcheck_item-held :
      (key : Name) (s : R.Server)
      → R.connected s ≡ true
      → (get_healthcheck_item R J config key s).0 ≡ item_of (at_key key s)
  unfolding get_healthcheck_item
  get_healthcheck_item-held key s c =
      ap (λ r. and_then r (λ t. ok (down_count_negative (J.unmarshal t))))
        (get-answered R K config (add_prefix key) s c)

  get_healthcheck_item-state :
      (key : Name) (s : R.Server)
      → R.connected s ≡ true
      → (R.connected (get_healthcheck_item R J config key s).1 ≡ true)
        × (at_key key (get_healthcheck_item R J config key s).1 ≡ at_key key s)
  unfolding get_healthcheck_item get
  get_healthcheck_item-state key s c = rw (c) (K.stays_connected _ s c, leaves.after_get _ _ s)

  expiration-state :
      (key : Name) (s : R.Server)
      → 0 < interval / 1000000
      → R.connected s ≡ true
      → (R.connected (set_healthcheck_item_expiration R J config key interval s).1 ≡ true)
        × (at_key key (set_healthcheck_item_expiration R J config key interval s).1 ≡ at_key key s)
  unfolding set_healthcheck_item_expiration expire
  expiration-state key s lasts c =
      rw (c) (K.stays_connected _ s c, leaves.after_expire _ _ _ s lasts)

  set_healthcheck_item-state :
      (item : HealthCheckItem) (json : Name) (s : R.Server)
      → R.connected s ≡ true
      → Accepts R K config (add_prefix (item_key item)) json
      → J.marshal item ≡ ok json
      → (R.connected (set_healthcheck_item R J config item s).1 ≡ true)
        × (at_key (item_key item) (set_healthcheck_item R J config item s).1 ≡ some json)
  unfolding set_healthcheck_item
  set_healthcheck_item-state item json s c accepts coded = rw (coded) (
    set_key-connected R K config (add_prefix (item_key item)) json s c,
    held-set_key R K config (add_prefix (item_key item)) json s c accepts,
  )

  -- What is read after an item was written, which may be read back as another.
  module _ (new back_item : HealthCheckItem) (json : Name) (coded : J.marshal new ≡ ok json)
      (back : J.unmarshal json ≡ back_item) (below : ltb_ℤ (pos 0) back_item.down_count ≡ false)
      (accepts : Accepts R K config (add_prefix (item_key new)) json) where
    item_of-written : item_of (some json) ≡ ok back_item
    unfolding down_count_negative
    item_of-written =
        ap (λ i. ok (down_count_negative i)) back
        ∙ ap
            (λ b. ok (
              if b
              then record back_item { down_count = pos 0 -ℤ back_item.down_count }
              else back_item))
            below

    set_healthcheck_item-read :
        (s : R.Server)
        → R.connected s ≡ true
        → (R.connected (set_healthcheck_item R J config new s).1 ≡ true)
          × (item_of (at_key (item_key new) (set_healthcheck_item R J config new s).1)
              ≡ ok back_item)
    set_healthcheck_item-read s c =
        let (c', holds) = set_healthcheck_item-state new json s c accepts coded in
        (c', ap item_of holds ∙ item_of-written)

    -- What GetHealthcheckItem returns of it.
    pub written-read :
        (s : R.Server)
        → R.connected s ≡ true
        → (get_healthcheck_item R J config
            (item_key new)
            (set_healthcheck_item R J config new s).1).0
          ≡ ok back_item
    written-read s c =
        let (c', holds) = set_healthcheck_item-read s c in
        get_healthcheck_item-held (item_key new) _ c' ∙ holds

  module _ (new : HealthCheckItem) (json : Name) (coded : J.marshal new ≡ ok json)
      (back : J.unmarshal json ≡ new) (below : ltb_ℤ (pos 0) new.down_count ≡ false)
      (accepts : Accepts R K config (add_prefix (item_key new)) json) where
    -- The item at the key of the new one.
    abbrev IsLeft : Result HealthCheckItem → R.Server → Type 0
    IsLeft old s =
        (R.connected s ≡ true)
        × ((item : HealthCheckItem) × (item_of (at_key (item_key new) s) ≡ ok item)
            × IsKept new old item)

    refresh-IsLeft :
        (p : Result HealthCheckItem × R.Server)
        → R.connected p.1 ≡ true
        → item_of (at_key (item_key new) p.1) ≡ p.0
        → IsLeft p.0 (refresh R J config interval new p)
    unfolding refresh
    refresh-IsLeft (err e, s) c h =
        let (c', read) = set_healthcheck_item-read new new json coded back below accepts s c in
        (c', (new, read, missing))
    refresh-IsLeft (ok old, s) c h = elim (Bool-cases (items_equal old new)) [
      | inl alike ↦ rw (alike) (c, (old, h, kept ((items_equal_iff old new).0 alike)))
      | inr other ↦
          let (c', read) = set_healthcheck_item-read new new json coded back below accepts s c in
          rw (other) (c', (new, read, renewed (λ e. cc (other, (items_equal_iff old new).1 e))))
    ]

    -- If the client is connected, redis does not refuse the SET of the item, GET changes no value
    -- and PEXPIRE none with a positive time, the interval of the updates is a millisecond or more,
    -- the Json library reads back the new item, and its lower count is not positive, then the item
    -- that GetHealthcheckItem returns after Transfer has brought an address up to date is the one
    -- that it returned before, if that one differs from the new item in its status, time, host,
    -- domain and error alone, and else, or if it returned none, the new item.
    pub transfer_item-IsKept :
        (s : R.Server)
        → 0 < interval / 1000000
        → R.connected s ≡ true
        → (item : HealthCheckItem) × ((get_healthcheck_item R J config
              (item_key new)
              (transfer_item R J config interval new s)).0
            ≡ ok item)
          × IsKept new (get_healthcheck_item R J config (item_key new) s).0 item
    unfolding transfer_item
    transfer_item-IsKept s lasts c =
        let key = item_key new in
        let read = get_healthcheck_item R J config key s in
        let (c1, unchanged) = get_healthcheck_item-state key s c in
        let (c2, (item, left, is_kept)) =
          refresh-IsLeft read c1 (ap item_of unchanged ∙ sym (get_healthcheck_item-held key s c)) in
        let (c3, same_value) =
          expiration-state key (refresh R J config interval new read) lasts c2 in
        (item, get_healthcheck_item-held key _ c3 ∙ ap item_of same_value ∙ left, is_kept)
