-- ===== src/Healthcheck/Events.antt =====
-- The events of redis in internal/storage/stat_handler.go: the status of a host whose item has changed.
use mathlib.Core.Path.{sym}
use z.Prelude.{
  ℕ, ◌<◌, ◌+◌, Name, ◌==◌, ◌≡◌, refl, ap, ◌∙◌, Bool, true, false, ◌||◌, Bool-cases, Option-cases,
  inl, inr, Option, none, some, [], ◌∷◌, ◌++◌, same, same_refl, same_iff, if◌then◌else◌, length,
  arith,
}
use z.Prelude.Int.{ℤ, pos}
use z.Healthcheck.{HealthCheckItem}
use z.Healthcheck.Stats.{
  ItemCodec, item_prefix, add_prefix, get_healthcheck_item, get_health_status,
}
use z.Hiredis.{Result, ok, err, Redigo, Config, stored_key}
use z.Hiredis.Subscription.{event_key, channel_prefix}
use z.Hiredis.Subscription.Channel.{event_key-stored_key}
use z.Storage.Typed.{Result-cases}
use z.Storage.Records.{Ristretto}
use z.Storage.Events.{DropsKey}

abbrev pub has_code : ℕ → Name → Bool
has_code c [] = false
has_code c (d ∷ l) = c == d || has_code c l

-- `strings.TrimLeft(s, cutset)`: the leading letters that are in the cut set
unfoldable pub trim_left : Name → Name → Name
trim_left [] cutset = []
trim_left (c ∷ s) cutset =
    let rest = trim_left s cutset in if has_code c cutset then rest else c ∷ s

module _ (C : Ristretto HealthCheckItem) where
  -- The callback of the subscription to "z42:healthcheck:*".
  unfoldable pub item_changed : Name → C.Store → C.Store
  unfolding trim_left
  item_changed channel cache = C.drop_key (trim_left channel item_prefix) cache

trim_left-append :
    (a s cutset : Name)
    → ((c : ℕ) → has_code c a ≡ true → has_code c cutset ≡ true)
    → trim_left (a ++ s) cutset ≡ trim_left s cutset
unfolding trim_left
trim_left-append [] s cutset h = refl
trim_left-append (c ∷ a) s cutset h =
    ap (λ b. if b then trim_left (a ++ s) cutset else c ∷ (a ++ s)) (h c (here c))
    ∙ trim_left-append a s cutset (λ d later. h d (tail d later))
  where
    here : (c : ℕ) → has_code c (c ∷ a) ≡ true
    here c = ground arith

    tail : (d : ℕ) → has_code d a ≡ true → has_code d (c ∷ a) ≡ true
    tail d later = ground (arith, later)

trim_left-kept :
    (c : ℕ) (s cutset : Name) → has_code c cutset ≡ false → trim_left (c ∷ s) cutset ≡ c ∷ s
unfolding trim_left
trim_left-kept c s cutset h = rw (h) refl

trim_left-length : (s cutset : Name) → length (trim_left s cutset) < length s + 1
unfolding trim_left
trim_left-length [] cutset = omega arith
trim_left-length (c ∷ s) cutset = ground (arith, trim_left-length s cutset)

-- A first letter of the cut set goes.
trim_left-differs :
    (c : ℕ) (s cutset : Name)
    → has_code c cutset ≡ true
    → same (trim_left (c ∷ s) cutset) (c ∷ s) ≡ false
unfolding trim_left
trim_left-differs c s cutset h = elim (Bool-cases (same (trim_left (c ∷ s) cutset) (c ∷ s))) [
  | inr differ ↦ differ
  | inl alike ↦
      let gone : trim_left (c ∷ s) cutset ≡ trim_left s cutset = rw (h) refl in
      absurd (
        omega (
          arith,
          ap length (sym gone ∙ (same_iff (trim_left (c ∷ s) cutset) (c ∷ s)).0 alike),
          trim_left-length s cutset,
        ))
]

changed-key : (key : Name) → trim_left (add_prefix key) item_prefix ≡ trim_left key item_prefix
changed-key key = trim_left-append item_prefix key item_prefix (λ c h. h)

module _ (R : Redigo) (J : ItemCodec) (config : Config) (C : Ristretto HealthCheckItem)
    (laws : DropsKey C) where
  -- What GetHealthStatus answers of an item that was read, or not.
  abbrev pub status_of : Result HealthCheckItem → ℤ
  status_of (err e) = pos 0
  status_of (ok item) = item.status

  -- The status of the item in the cache, or else of the item in redis.
  abbrev pub status_with : Name → R.Server → Option HealthCheckItem → ℤ
  status_with key s none = status_of (get_healthcheck_item R J config key s).0
  status_with key s (some item) = item.status

  get_health_status-eq :
      (host ip : Name) (cache : C.Store) (s : R.Server)
      → (get_health_status R J config C host ip cache s).0
        ≡ status_with (host ++ b':' ∷ ip) s (C.find (host ++ b':' ∷ ip) cache)
  unfolding get_health_status
  get_health_status-eq host ip cache s =
      let key = host ++ b':' ∷ ip in
      elim (Option-cases (C.find key cache)) [
        | inr (item, found) ↦ rw (found, get_health_status) refl
        | inl missing ↦ elim (Result-cases (get_healthcheck_item R J config key s).0) [
          | inl (e, failed) ↦ rw (missing, get_health_status) (rw (failed) refl)
          | inr (item, read) ↦ rw (missing, get_health_status) (rw (read) refl)
        ]
      ]

  -- The cache after the event of an item.
  abbrev pub told : Name → Name → C.Store → C.Store
  told db key cache =
      item_changed C
        (event_key config db (channel_prefix db ++ stored_key R config (add_prefix key))) cache

  find-told :
      (db key : Name) (cache : C.Store)
      → C.find key (told db key cache)
        ≡ (if same (trim_left key item_prefix) key then none else C.find key cache)
  unfolding item_changed
  find-told db key cache =
      ap (λ x. C.find key (item_changed C x cache))
        (event_key-stored_key R config db (add_prefix key))
      ∙ ap (λ x. C.find key (C.drop_key x cache)) (changed-key key)
      ∙ laws.find_drop key (trim_left key item_prefix) cache

  -- After the event of a host's item, GetHealthStatus returns what it returned before if the first
  -- letter of the host is one of "z42:healthcheck:", and otherwise the status of the item that
  -- redis holds, 0 if it cannot be read.
  pub get_health_status-told :
      (c : ℕ) (h ip db : Name) (cache : C.Store) (s : R.Server)
      → (get_health_status R J config C (c ∷ h) ip (told db ((c ∷ h) ++ b':' ∷ ip) cache) s).0 ≡ (
          if has_code c item_prefix
          then (get_health_status R J config C (c ∷ h) ip cache s).0
          else status_of (get_healthcheck_item R J config ((c ∷ h) ++ b':' ∷ ip) s).0)
  get_health_status-told c h ip db cache s =
      let key = (c ∷ h) ++ b':' ∷ ip in
      let rest = h ++ b':' ∷ ip in
      get_health_status-eq (c ∷ h) ip (told db key cache) s
      ∙ ap (status_with key s) (find-told db key cache)
      ∙ elim (Bool-cases (has_code c item_prefix)) [
        | inl inside ↦ rw (inside) (
            ap (λ b. status_with key s (if b then none else C.find key cache))
              (trim_left-differs c rest item_prefix inside)
            ∙ sym (get_health_status-eq (c ∷ h) ip cache s))
        | inr outside ↦ rw (outside) (
            ap (λ k. status_with key s (if same k key then none else C.find key cache))
              (trim_left-kept c rest item_prefix outside)
            ∙ ap (λ b. status_with key s (if b then none else C.find key cache)) (same_refl key))
      ]
