-- ===== src/Tests/Limits.antt =====
-- The theorems of Ratelimit and Healthcheck at concrete inputs.
use z.Prelude.{
  ℕ, ◌+◌, ◌≤◌, Name, txt, ◌≡◌, refl, String, true, Option, none, some, List, [], ◌∷◌, same, leb,
  arith, if◌then◌else◌, same_refl,
}
use z.Prelude.Int.{pos, negsuc}
use z.Types.Sets.{IpHealthCheckConfig}
use z.Geo.{Masked, white}
use z.Ratelimit.{RateLimiter, Limiter, Reads}
use z.Ratelimit.Expiring.{Cache, minute}
use z.Ratelimit.Bucket.{IsLimited}
use z.Healthcheck.{HealthCheckItem, handle_health_check, filter_healthcheck}
use z.Healthcheck.Status.{
  IsBounded, successes, failures, handle_health_check-IsBounded, successes_rise, failures_fall,
}
use z.Healthcheck.Filtered.{HasWhite, filter_healthcheck-HasWhite}
use z.Tests.Site.{place}

-- A cache as a list of the entries, the last one set first.
abbrev pub Entries : Type 0
Entries = List (Name × (Limiter × ℕ))

abbrev pub entry_at : Name → ℕ → Entries → Option Limiter
entry_at k now [] = none
entry_at k now ((j, (v, stored)) ∷ rest) =
    let later = entry_at k now rest in
    if same j k then if leb now (stored + minute) then some v else none else later

pub entry_at-set :
    (k : Name) (v : Limiter) (stored now : ℕ) (s : Entries)
    → now ≤ stored + minute
    → entry_at k now ((k, (v, stored)) ∷ s) ≡ some v
entry_at-set k v stored now s h = ground (arith, same_refl k)

abbrev pub entries : Cache Limiter
entries = record {
  Store = Entries;
  get = entry_at;
  set = λ k v now s. (k, (v, now)) ∷ s;
  get-set = entry_at-set;
}

abbrev pub limiter : RateLimiter
limiter = record {
  config = record {
    enable = true;
    burst = 2;
    rate = 60;
    white_list = txt "w" ∷ [];
    black_list = [];
  };
  max_time = 2000000000;
  time_step = 1000000000;
}

abbrev pub client : Name
client = txt "c"

abbrev pub at_time : ℕ → Reads
at_time t = record { got = t; since = t; now = t; stored = t }

pub client-IsLimited : IsLimited limiter client
client-IsLimited = record { enabled = refl; not_black = refl; not_white = refl }

abbrev item : HealthCheckItem
item = record {
  protocol = "http";
  uri = "/";
  port = pos 80;
  status = pos 0;
  last_check = 0;
  timeout = pos 100;
  up_count = pos 3;
  down_count = negsuc 2;
  enable = true;
  domain_id = "";
  host = "www.z.";
  ip = "1.2.3.4";
  err = none;
}

item-IsBounded : IsBounded item
item-IsBounded = record {
  down_negative = ground arith;
  up_positive = ground arith;
  above = ground arith;
  below = ground arith;
}

handle_health_check-IsBounded_example : IsBounded (handle_health_check (some "timeout") 7 item)
handle_health_check-IsBounded_example =
    handle_health_check-IsBounded (some "timeout") 7 item item-IsBounded

successes_rise_example : (successes (1 ∷ 2 ∷ 3 ∷ []) item).status ≡ pos 3
successes_rise_example = successes_rise (1 ∷ 2 ∷ 3 ∷ []) item item-IsBounded (ground arith)

abbrev timeouts : List (String × ℕ)
timeouts = ("timeout", 1) ∷ ("timeout", 2) ∷ ("timeout", 3) ∷ []

failures_fall_example : (failures timeouts item).status ≡ negsuc 2
failures_fall_example = failures_fall timeouts item item-IsBounded (ground arith)

abbrev checked : Masked
checked = (place "DE" (1 ∷ []) 1, white) ∷ (place "FR" (2 ∷ []) 2, white) ∷ []

abbrev check_config : IpHealthCheckConfig
check_config = record {
  protocol = "http";
  uri = "/";
  port = pos 80;
  timeout = pos 100;
  up_count = pos 3;
  down_count = negsuc 2;
  enable = true;
}

-- The status of an address is its weight here.
filter_healthcheck-HasWhite_example :
    HasWhite
      (λ ip. ip.weight)
      (filter_healthcheck true check_config (λ ip. ip.weight) (λ ip. ip.weight) checked)
      (negsuc 2)
filter_healthcheck-HasWhite_example =
    filter_healthcheck-HasWhite true check_config (λ ip. ip.weight) checked 1
      (place "FR" (2 ∷ []) 2) refl (ground arith)
