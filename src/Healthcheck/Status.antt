-- ===== src/Healthcheck/Status.antt =====
-- The status of a checked address in internal/healthcheck/healthcheck.go: its bounds, and how many
-- checks it takes to reach them.
use native.Mathlib.Decide.{dec_le}
use z.Prelude.{
  ℕ, ◌+◌, ◌-◌, ◌≤◌, ◌≡◌, refl, ◌∙◌, String, Option, none, some, List, [], ◌∷◌, length, arith,
}
use z.Prelude.Int.{pos, negsuc, pos_part, neg_part, ◌+ℤ◌, ◌-ℤ◌, ◌≤ℤ◌, eq_of_parts}
use z.Healthcheck.{HealthCheckItem, handle_health_check}

-- The counts are of the signs that the configuration means, and the status lies between them.
pub record IsBounded (item : HealthCheckItem) : Type 0 where
  pub down_negative : item.down_count ≤ℤ negsuc 0
  pub up_positive : pos 1 ≤ℤ item.up_count
  pub above : item.down_count ≤ℤ item.status
  pub below : item.status ≤ℤ item.up_count

handle_health_check-down_count :
    (err : Option String) (now : ℕ) (item : HealthCheckItem)
    → (handle_health_check err now item).down_count ≡ item.down_count
unfolding handle_health_check
handle_health_check-down_count none now item = ground arith
handle_health_check-down_count (some e) now item = ground arith

handle_health_check-up_count :
    (err : Option String) (now : ℕ) (item : HealthCheckItem)
    → (handle_health_check err now item).up_count ≡ item.up_count
unfolding handle_health_check
handle_health_check-up_count none now item = ground arith
handle_health_check-up_count (some e) now item = ground arith

-- If the lower count is negative, the upper count positive and the status between them, then all
-- this holds after a check, whatever its outcome.
pub handle_health_check-IsBounded :
    (err : Option String) (now : ℕ) (item : HealthCheckItem)
    → IsBounded item
    → IsBounded (handle_health_check err now item)
unfolding handle_health_check ◌+ℤ◌ ◌-ℤ◌
handle_health_check-IsBounded none now item h = record {
  down_negative = ground (arith, h.down_negative);
  up_positive = ground (arith, h.up_positive);
  above = ground (arith, h.down_negative, h.up_positive, h.above);
  below = ground (arith, h.up_positive, h.below);
}
handle_health_check-IsBounded (some e) now item h = record {
  down_negative = ground (arith, h.down_negative);
  up_positive = ground (arith, h.up_positive);
  above = ground (arith, h.down_negative, h.above);
  below = ground (arith, h.down_negative, h.up_positive, h.below);
}

-- Successful checks, and failed ones, one after the other.
abbrev pub successes : List ℕ → HealthCheckItem → HealthCheckItem
successes [] item = item
successes (now ∷ rest) item = successes rest (handle_health_check none now item)

abbrev pub failures : List (String × ℕ) → HealthCheckItem → HealthCheckItem
failures [] item = item
failures ((e, now) ∷ rest) item = failures rest (handle_health_check (some e) now item)

rise :
    (now : ℕ) (item : HealthCheckItem) (k n : ℕ)
    → pos k ≤ℤ item.status
    → pos n ≤ℤ item.up_count
    → n ≤ k + 1
    → pos n ≤ℤ (handle_health_check none now item).status
unfolding handle_health_check ◌+ℤ◌
rise now item k n h u b = ground arith

rise_from :
    (l : List ℕ) (item : HealthCheckItem) (k n : ℕ)
    → pos k ≤ℤ item.status
    → pos n ≤ℤ item.up_count
    → n ≤ k + length l
    → pos n ≤ℤ (successes l item).status
rise_from [] item k n h u b = omega (arith, h, b)
rise_from (now ∷ l) item k n h u b = elim (dec_le n k) [
  | yes reached ↦
      rise_from l (handle_health_check none now item) n n (rise now item k n h u (omega arith))
        (rw (handle_health_check-up_count none now item) u) (omega arith)
  | no short ↦
      rise_from l (handle_health_check none now item) (k + 1) n
        (rise now item k (k + 1) h (omega (arith, u)) (omega arith))
        (rw (handle_health_check-up_count none now item) u) (omega arith)
]

first_rise :
    (now : ℕ) (item : HealthCheckItem)
    → pos 1 ≤ℤ item.up_count
    → pos 1 ≤ℤ (handle_health_check none now item).status
unfolding handle_health_check ◌+ℤ◌
first_rise now item u = ground arith

successes-IsBounded :
    (l : List ℕ) (item : HealthCheckItem) → IsBounded item → IsBounded (successes l item)
successes-IsBounded [] item h = h
successes-IsBounded (now ∷ l) item h =
    successes-IsBounded l (handle_health_check none now item)
      (handle_health_check-IsBounded none now item h)

successes-up_count :
    (l : List ℕ) (item : HealthCheckItem) → (successes l item).up_count ≡ item.up_count
successes-up_count [] item = refl
successes-up_count (now ∷ l) item =
    successes-up_count l (handle_health_check none now item)
    ∙ handle_health_check-up_count none now item

-- From a bounded status, at least as many successful checks in a row as the upper count says bring
-- the status to the upper count.
pub successes_rise :
    (l : List ℕ) (item : HealthCheckItem)
    → IsBounded item
    → item.up_count ≤ℤ pos (length l)
    → (successes l item).status ≡ item.up_count
successes_rise [] item h k = absurd (omega (arith, h.up_positive, k))
successes_rise (now ∷ l) item h k =
    let first = handle_health_check none now item in
    let n = pos_part item.up_count in
    let reached =
      rise_from l first 1 n (first_rise now item h.up_positive)
        (rw (handle_health_check-up_count none now item) (ground (arith, h.up_positive)))
        (ground (arith, k, h.up_positive)) in
    let top = successes-IsBounded (now ∷ l) item h in
    let kept = successes-up_count (now ∷ l) item in
    let bound : (successes (now ∷ l) item).status ≤ℤ item.up_count = rw kept at (top.below) in
    eq_of_parts (successes (now ∷ l) item).status item.up_count
      (ground (arith, reached, bound, h.up_positive))

fall :
    (e : String) (now : ℕ) (item : HealthCheckItem) (k n : ℕ)
    → item.status ≤ℤ negsuc k
    → item.down_count ≤ℤ negsuc n
    → n ≤ k + 1
    → (handle_health_check (some e) now item).status ≤ℤ negsuc n
unfolding handle_health_check ◌-ℤ◌
fall e now item k n h u b = ground arith

fall_from :
    (l : List (String × ℕ)) (item : HealthCheckItem) (k n : ℕ)
    → item.status ≤ℤ negsuc k
    → item.down_count ≤ℤ negsuc n
    → n ≤ k + length l
    → (failures l item).status ≤ℤ negsuc n
fall_from [] item k n h u b = omega (arith, h, b)
fall_from ((e, now) ∷ l) item k n h u b = elim (dec_le n k) [
  | yes reached ↦
      fall_from l (handle_health_check (some e) now item) n n
        (fall e now item k n h u (omega arith))
        (rw (handle_health_check-down_count (some e) now item) u) (omega arith)
  | no short ↦
      fall_from l (handle_health_check (some e) now item) (k + 1) n
        (fall e now item k (k + 1) h (omega (arith, u)) (omega arith))
        (rw (handle_health_check-down_count (some e) now item) u) (omega arith)
]

first_fall :
    (e : String) (now : ℕ) (item : HealthCheckItem)
    → item.down_count ≤ℤ negsuc 0
    → (handle_health_check (some e) now item).status ≤ℤ negsuc 0
unfolding handle_health_check ◌-ℤ◌
first_fall e now item u = ground arith

failures-IsBounded :
    (l : List (String × ℕ)) (item : HealthCheckItem) → IsBounded item → IsBounded (failures l item)
failures-IsBounded [] item h = h
failures-IsBounded ((e, now) ∷ l) item h =
    failures-IsBounded l (handle_health_check (some e) now item)
      (handle_health_check-IsBounded (some e) now item h)

failures-down_count :
    (l : List (String × ℕ)) (item : HealthCheckItem)
    → (failures l item).down_count ≡ item.down_count
failures-down_count [] item = refl
failures-down_count ((e, now) ∷ l) item =
    failures-down_count l (handle_health_check (some e) now item)
    ∙ handle_health_check-down_count (some e) now item

-- From a bounded status, at least as many failed checks in a row as the lower count is below 0
-- bring the status to the lower count.
pub failures_fall :
    (l : List (String × ℕ)) (item : HealthCheckItem)
    → IsBounded item
    → neg_part item.down_count ≤ length l
    → (failures l item).status ≡ item.down_count
failures_fall [] item h k = absurd (omega (arith, h.down_negative, k))
failures_fall ((e, now) ∷ l) item h k =
    let first = handle_health_check (some e) now item in
    let n = neg_part item.down_count - 1 in
    let reached =
      fall_from l first 0 n (first_fall e now item h.down_negative)
        (rw (handle_health_check-down_count (some e) now item) (ground (arith, h.down_negative)))
        (omega (arith, k, h.down_negative)) in
    let bottom = failures-IsBounded ((e, now) ∷ l) item h in
    let kept = failures-down_count ((e, now) ∷ l) item in
    let bound : item.down_count ≤ℤ (failures ((e, now) ∷ l) item).status =
      rw kept at (bottom.above) in
    eq_of_parts (failures ((e, now) ∷ l) item).status item.down_count
      (ground (arith, reached, bound, h.down_negative))
