-- ===== src/Healthcheck/Kept.antt =====
-- itemsEqual of internal/healthcheck/healthcheck.go, and which item Transfer keeps by it.
use mathlib.Core.Path.{sym}
use z.Prelude.{String, str_eq, str_eq_iff, ◌≡◌, ◌≢◌, ◌↔◌, refl, ap, ◌&&◌, Bool, true, false, arith}
use z.Prelude.Int.{ℤ}
use z.Healthcheck.{HealthCheckItem}
use z.Healthcheck.Transfer.{eq_ℤ, eq_flag, items_equal}
use z.Hiredis.{Failure, Result, ok, err}

-- The old item with the configuration of the new one.
abbrev pub configured : HealthCheckItem → HealthCheckItem → HealthCheckItem
configured old new = record old {
  protocol = new.protocol;
  uri = new.uri;
  port = new.port;
  timeout = new.timeout;
  up_count = new.up_count;
  down_count = new.down_count;
  enable = new.enable;
  ip = new.ip;
}

-- Which item stays, by what was read before: the old one if it has the configuration already.
pub data IsKept (new : HealthCheckItem) : Result HealthCheckItem → HealthCheckItem → Type 0 where
  missing : {e : Failure} → IsKept new (err e) new
  kept : {old : HealthCheckItem} → configured old new ≡ old → IsKept new (ok old) old
  renewed : {old : HealthCheckItem} → configured old new ≢ old → IsKept new (ok old) new

eq_ℤ_iff : (a b : ℤ) → (eq_ℤ a b ≡ true) ↔ (a ≡ b)
eq_ℤ_iff a b = (λ h. ground (arith, h), λ h. ground (arith, h))

eq_flag_iff : (a b : Bool) → (eq_flag a b ≡ true) ↔ (a ≡ b)
eq_flag_iff a b = (λ h. ground (arith, h), λ h. ground (arith, h))

split_and : (a b : Bool) → (a && b) ≡ true → (a ≡ true) × (b ≡ true)
split_and true b h = (refl, h)
split_and false b h = absurd (cc h)

items_agree :
    (old new : HealthCheckItem)
    → old.ip ≡ new.ip
    → old.uri ≡ new.uri
    → old.port ≡ new.port
    → old.protocol ≡ new.protocol
    → old.enable ≡ new.enable
    → old.up_count ≡ new.up_count
    → old.down_count ≡ new.down_count
    → old.timeout ≡ new.timeout
    → configured old new ≡ old
items_agree old new ip uri port protocol enable up down timeout =
    cc (ip, uri, port, protocol, enable, up, down, timeout)

pub items_equal_iff :
    (old new : HealthCheckItem) → (items_equal old new ≡ true) ↔ (configured old new ≡ old)
unfolding items_equal
items_equal_iff old new = (forth, back)
  where
    forth : items_equal old new ≡ true → configured old new ≡ old
    forth h =
        let (ip, h1) = split_and _ _ h in
        let (uri, h2) = split_and _ _ h1 in
        let (port, h3) = split_and _ _ h2 in
        let (protocol, h4) = split_and _ _ h3 in
        let (enable, h5) = split_and _ _ h4 in
        let (up, h6) = split_and _ _ h5 in
        let (down, timeout) = split_and _ _ h6 in
        items_agree old new ((str_eq_iff old.ip new.ip).0 ip) ((str_eq_iff old.uri new.uri).0 uri)
          ((eq_ℤ_iff old.port new.port).0 port) ((str_eq_iff old.protocol new.protocol).0 protocol)
          ((eq_flag_iff old.enable new.enable).0 enable) ((eq_ℤ_iff old.up_count new.up_count).0 up)
          ((eq_ℤ_iff old.down_count new.down_count).0 down)
          ((eq_ℤ_iff old.timeout new.timeout).0 timeout)

    alike : (a b : String) → a ≡ b → str_eq b a ≡ true
    alike a b h = (str_eq_iff b a).1 (sym h)

    alike_ℤ : (a b : ℤ) → a ≡ b → eq_ℤ b a ≡ true
    alike_ℤ a b h = (eq_ℤ_iff b a).1 (sym h)

    back : configured old new ≡ old → items_equal old new ≡ true
    back h =
        rw
          (
            alike _ _ (ap (λ i. i.ip) h),
            alike _ _ (ap (λ i. i.uri) h),
            alike_ℤ _ _ (ap (λ i. i.port) h),
            alike _ _ (ap (λ i. i.protocol) h),
            (eq_flag_iff old.enable new.enable).1 (sym (ap (λ i. i.enable) h)),
            alike_ℤ _ _ (ap (λ i. i.up_count) h),
            alike_ℤ _ _ (ap (λ i. i.down_count) h),
            alike_ℤ _ _ (ap (λ i. i.timeout) h),
            items_equal,
          )
          refl
