-- ===== src/Healthcheck/Filtered.antt =====
-- FilterHealthcheck of internal/healthcheck/healthcheck.go lets some address through, and none whose
-- status is too low.
use z.Prelude.{
  ℕ, zero, suc, ◌≡◌, refl, ◌⊎◌, Bool, true, false, ◌&&◌, some, [], ◌∷◌, get_elem?, if◌then◌else◌,
  arith, Bool-cases, inl, inr,
}
use z.Prelude.Int.{ℤ, pos, ◌+ℤ◌, ◌-ℤ◌, ◌≤ℤ◌, ltb_ℤ}
use z.Types.Sets.{IpRr, IpHealthCheckConfig}
use z.Geo.{Mask, Masked, white}
use z.Healthcheck.{greatest_status, mask_below, filter_healthcheck}

le_trans : (a b c : ℤ) → a ≤ℤ b → b ≤ℤ c → a ≤ℤ c
le_trans a b c h k = omega arith

module _ (status : IpRr → ℤ) where
  -- A white address of at least some status.
  pub record HasWhite (l : Masked) (least : ℤ) : Type 0 where
    pub place : ℕ
    pub chosen : IpRr
    pub at_place : get_elem? l place ≡ some (chosen, white)
    pub high : least ≤ℤ status chosen

  later_white :
      {l : Masked} {least : ℤ} (e : IpRr × Mask) → HasWhite l least → HasWhite (e ∷ l) least
  later_white e w = record {
    place = suc w.place;
    chosen = w.chosen;
    at_place = w.at_place;
    high = w.high;
  }

  greatest_status-cases :
      (l : Masked) (least : ℤ)
      → (greatest_status status least l ≡ least) ⊎ HasWhite l (greatest_status status least l)
  unfolding greatest_status
  greatest_status-cases [] least = inl refl
  greatest_status-cases ((ip, white) ∷ l) least = elim (Bool-cases (ltb_ℤ least (status ip))) [
    | inl e ↦ elim (greatest_status-cases l (status ip)) [
      | inl same_as ↦ rw e (
          inr (record { place = 0; chosen = ip; at_place = refl; high = rw same_as (omega arith) }))
      | inr w ↦ rw e (inr (later_white (ip, white) w))
    ]
    | inr e ↦ elim (greatest_status-cases l least) [
      | inl same_as ↦ rw e (inl same_as)
      | inr w ↦ rw e (inr (later_white (ip, white) w))
    ]
  ]
  greatest_status-cases ((ip, x) ∷ l) least = elim (greatest_status-cases l least) [
    | inl same_as ↦ inl same_as
    | inr w ↦ inr (later_white (ip, x) w)
  ]

  greatest_status-ge : (l : Masked) (least : ℤ) → least ≤ℤ greatest_status status least l
  unfolding greatest_status
  greatest_status-ge [] least = omega arith
  greatest_status-ge ((ip, white) ∷ l) least =
      ground (arith, greatest_status-ge l (status ip), greatest_status-ge l least)
  greatest_status-ge ((ip, x) ∷ l) least = greatest_status-ge l least

  mask_below-at :
      (l : Masked) (least : ℤ) (i : ℕ) (ip : IpRr)
      → get_elem? l i ≡ some (ip, white)
      → least ≤ℤ status ip
      → get_elem? (mask_below status least l) i ≡ some (ip, white)
  unfolding mask_below
  mask_below-at [] least i ip h k = ground arith
  mask_below-at ((first, x) ∷ l) least zero ip h k = ground arith
  mask_below-at ((first, x) ∷ l) least (suc i) ip h k = mask_below-at l least i ip h k

-- The status from which on FilterHealthcheck keeps an address, by the greatest status.
abbrev pub threshold : IpHealthCheckConfig → ℤ → ℤ
threshold config greatest =
    if ltb_ℤ greatest (config.up_count -ℤ pos 1) && ltb_ℤ config.down_count greatest
    then config.down_count +ℤ pos 1
    else greatest

threshold-le :
    (config : IpHealthCheckConfig) (greatest : ℤ)
    → config.down_count ≤ℤ greatest
    → threshold config greatest ≤ℤ greatest
unfolding ◌+ℤ◌ ◌-ℤ◌
threshold-le config greatest h = ground arith

-- A white address that no status is below the lower count.
first_above :
    (status : IpRr → ℤ) (l : Masked) (i : ℕ) (ip : IpRr) (least : ℤ)
    → get_elem? l i ≡ some (ip, white)
    → least ≤ℤ status ip
    → HasWhite status l (greatest_status status least l)
unfolding greatest_status
first_above status l i ip least h k = elim (greatest_status-cases status l least) [
  | inl same_as ↦ record { place = i; chosen = ip; at_place = h; high = rw same_as k }
  | inr w ↦ w
]

-- If some white address has at least the lower count as its status, and both loops of
-- FilterHealthcheck read the same status of each address, then some address is white behind the
-- filter, with at least that status.
pub filter_healthcheck-HasWhite :
    (enable : Bool) (config : IpHealthCheckConfig) (status : IpRr → ℤ) (l : Masked) (i : ℕ)
    (ip : IpRr)
    → get_elem? l i ≡ some (ip, white)
    → config.down_count ≤ℤ status ip
    → HasWhite status (filter_healthcheck enable config status status l) config.down_count
unfolding filter_healthcheck
filter_healthcheck-HasWhite false config status l i ip h k = record {
  place = i;
  chosen = ip;
  at_place = h;
  high = k;
}
filter_healthcheck-HasWhite true config status l i ip h k =
    let w = first_above status l i ip config.down_count h k in
    let ge = greatest_status-ge status l config.down_count in
    let least = threshold config (greatest_status status config.down_count l) in
    let le : least ≤ℤ greatest_status status config.down_count l =
      threshold-le config (greatest_status status config.down_count l) ge in
    record {
      place = w.place;
      chosen = w.chosen;
      at_place =
          mask_below-at status l least w.place w.chosen w.at_place (le_trans least _ _ le w.high);
      high = le_trans config.down_count _ _ ge w.high;
    }
