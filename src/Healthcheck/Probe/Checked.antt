-- ===== src/Healthcheck/Probe/Checked.antt =====
-- A job of HandleHealthCheck leaves in redis the item whose status has moved with the probe's outcome.
use mathlib.Core.Path.{subst}
use z.Prelude.{
  ℕ, String, Name, txt, ◌≡◌, refl, sym, ap, ◌∙◌, Bool, true, false, ◌||◌, Option, none, some,
  str_eq, if◌then◌else◌, ◌==◌, ◌++◌, arith,
}
use z.Prelude.Int.{ℤ, pos, ltb_ℤ}
use z.Healthcheck.{HealthCheckItem, status_up, status_down, handle_health_check}
use z.Healthcheck.Stats.{
  ItemCodec, item_key, add_prefix, get_healthcheck_item, set_healthcheck_item,
}
use z.Healthcheck.Refreshed.{LeavesValues, written-read}
use z.Healthcheck.Probe.{
  Attempt, got, failed, Net, accept_status, http_check, probe, handle_job, trim_right_dots,
}
use z.Hiredis.{ok, Redigo, Config}
use z.Hiredis.Values.{KeepsValues, Accepts}

-- The status that an item takes.
abbrev pub moved : Bool → HealthCheckItem → ℤ
moved true item = (status_up item).status
moved false item = (status_down item).status

module _ (N : Net) where
  -- The HEAD request is answered with 200, 301 or 302.
  abbrev pub is_answered : Attempt ℕ → Bool
  is_answered (failed e) = false
  is_answered (got code) = code == 200 || code == 302 || code == 301

  abbrev pub is_http : HealthCheckItem → Bool
  is_http item = str_eq item.protocol "http" || str_eq item.protocol "https"

  -- What the server of an item answers to its HEAD request.
  abbrev pub head_answer : HealthCheckItem → N.World → Attempt ℕ
  head_answer item w =
      (N.head (txt item.protocol ++ (txt "://" ++ (txt item.ip ++ txt item.uri)))
        (trim_right_dots (txt item.host)) item.timeout w).0

  abbrev is_none : Option String → Bool
  is_none none = true
  is_none (some e) = false

  accepted : (b : Bool) (e : String) → is_none (if b then none else some e) ≡ b
  accepted true e = refl
  accepted false e = refl

  accept_status_answered : (a : Attempt ℕ) → is_none (accept_status N a) ≡ is_answered a
  accept_status_answered (failed e) = refl
  accept_status_answered (got code) = accepted (code == 200 || code == 302 || code == 301) _

  probe-http :
      (item : HealthCheckItem) (w : N.World)
      → is_http item ≡ true
      → is_none (probe N item w).0 ≡ is_answered (head_answer item w)
  unfolding probe http_check
  probe-http item w h = rw (h) (accept_status_answered (head_answer item w))

  checked-status :
      (out : Option String) (now : ℕ) (item : HealthCheckItem)
      → (handle_health_check out now item).status ≡ moved (is_none out) item
  unfolding handle_health_check status_up status_down
  checked-status none now item = ground arith
  checked-status (some e) now item = ground arith

  checked-key :
      (out : Option String) (now : ℕ) (item : HealthCheckItem)
      → item_key (handle_health_check out now item) ≡ item_key item
  unfolding handle_health_check status_up status_down
  checked-key none now item = ground arith
  checked-key (some e) now item = ground arith

  checked-down_count :
      (out : Option String) (now : ℕ) (item : HealthCheckItem)
      → (handle_health_check out now item).down_count ≡ item.down_count
  unfolding handle_health_check status_up status_down
  checked-down_count none now item = ground arith
  checked-down_count (some e) now item = ground arith

  module _ (R : Redigo) (K : KeepsValues R) (leaves : LeavesValues R K) (J : ItemCodec)
      (config : Config) where
    -- The item that a check leaves in redis: the error of the check is not written.
    abbrev pub checked : HealthCheckItem → ℕ → N.World → HealthCheckItem
    checked item now w = record (handle_health_check (probe N item w).0 now item) { err = none }

    -- For an item of protocol http or https, whose lower count is not positive: if the client is
    -- connected, redis does not refuse the SET of the item, and the Json library reads back the
    -- checked item but for its error, which it does not write, then the item that
    -- GetHealthcheckItem returns after the job of HandleHealthCheck is the checked item without its
    -- error, whose status has moved up if the HEAD request was answered with 200, 301 or 302, and
    -- down otherwise.
    pub handle_job-http :
        (item : HealthCheckItem) (now : ℕ) (w : N.World) (s : R.Server) (json : Name)
        → is_http item ≡ true
        → R.connected s ≡ true
        → ltb_ℤ (pos 0) item.down_count ≡ false
        → Accepts R K config (add_prefix (item_key item)) json
        → J.marshal (handle_health_check (probe N item w).0 now item) ≡ ok json
        → J.unmarshal json ≡ checked item now w
        → ((get_healthcheck_item R J config
              (item_key item)
              (handle_job N R J config item now (w, s)).1).0
            ≡ ok (checked item now w))
          × ((checked item now w).status ≡ moved (is_answered (head_answer item w)) item)
    unfolding handle_job
    handle_job-http item now w s json h c below accepts coded back =
        let new = handle_health_check (probe N item w).0 now item in
        let key : item_key new ≡ item_key item = checked-key (probe N item w).0 now item in
        (
          ap (λ k. (get_healthcheck_item R J config k (set_healthcheck_item R J config new s).1).0)
                (sym key)
              ∙ written-read R K leaves J config 0 new (checked item now w) json coded back
                  (ap (ltb_ℤ (pos 0)) (checked-down_count (probe N item w).0 now item) ∙ below)
                  (subst (λ k. Accepts R K config (add_prefix k) json) (sym key) accepts) s c,
          checked-status (probe N item w).0 now item ∙ ap (λ b. moved b item) (probe-http item w h),
        )
