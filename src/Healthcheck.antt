-- ===== src/Healthcheck.antt =====
-- internal/healthcheck/healthcheck.go: the status of a checked address and the filter by status. The
-- probes themselves (HTTP and ICMP) are the outcome `err` of a check, `none` for success.
pub mod Status
pub mod Filtered
pub mod Stats
pub mod Transfer
pub mod Kept
pub mod Refreshed
pub mod Events
pub mod Probe
use z.Prelude.{
  ℕ, String, Bool, true, false, Option, none, some, List, [], ◌∷◌, ◌&&◌, not, if◌then◌else◌,
}
use z.Prelude.Int.{ℤ, pos, negsuc, ◌+ℤ◌, ◌-ℤ◌, ltb_ℤ, leb_ℤ}
use z.Types.Sets.{IpRr, IpHealthCheckConfig}
use z.Geo.{Mask, Masked, white, black, is_white}

-- types.HealthCheckItem
pub record HealthCheckItem : Type 0 where
  pub protocol : String
  pub uri : String
  pub port : ℤ
  pub status : ℤ
  pub last_check : ℕ
  pub timeout : ℤ
  pub up_count : ℤ
  pub down_count : ℤ
  pub enable : Bool
  pub domain_id : String
  pub host : String
  pub ip : String
  pub err : Option String

unfoldable pub status_down : HealthCheckItem → HealthCheckItem
status_down item =
    if leb_ℤ item.status (pos 0)
    then (let status = item.status -ℤ pos 1 in
        record item { status = if ltb_ℤ status item.down_count then item.down_count else status })
    else record item { status = negsuc 0 }

unfoldable pub status_up : HealthCheckItem → HealthCheckItem
status_up item =
    if leb_ℤ (pos 0) item.status
    then (let status = item.status +ℤ pos 1 in
        record item { status = if ltb_ℤ item.up_count status then item.up_count else status })
    else record item { status = pos 1 }

-- HandleHealthCheck behind the probe, whose outcome is `err`, up to the write to redis.
unfoldable pub handle_health_check : Option String → ℕ → HealthCheckItem → HealthCheckItem
unfolding status_up status_down
handle_health_check none now item = record (status_up (record item { err = none })) {
  last_check = now;
}
handle_health_check (some e) now item = record (status_down (record item { err = some e })) {
  last_check = now;
}

-- The first loop of FilterHealthcheck: the greatest status of a white address, if not below `least`.
unfoldable pub greatest_status : (IpRr → ℤ) → ℤ → Masked → ℤ
greatest_status status least [] = least
greatest_status status least ((ip, x) ∷ rest) =
    greatest_status status (if is_white x && ltb_ℤ least (status ip) then status ip else least) rest

-- The second loop.
unfoldable pub mask_below : (IpRr → ℤ) → ℤ → Masked → Masked
mask_below status least [] = []
mask_below status least ((ip, x) ∷ rest) =
    let m = if is_white x then if ltb_ℤ (status ip) least then black else x else black in
    (ip, m) ∷ mask_below status least rest

-- FilterHealthcheck reads each status from redis in both loops: `first` and `second` are what it reads.
unfoldable pub filter_healthcheck :
    Bool → IpHealthCheckConfig → (IpRr → ℤ) → (IpRr → ℤ) → Masked → Masked
unfolding greatest_status mask_below
filter_healthcheck enable config first second l =
    if not enable
    then l
    else let greatest = greatest_status first config.down_count l in
      let least =
        if ltb_ℤ greatest (config.up_count -ℤ pos 1) && ltb_ℤ config.down_count greatest
        then config.down_count +ℤ pos 1
        else greatest in
      mask_below second least l
