-- ===== src/Ordering/Choice.antt =====
-- orderIps of internal/handler/handler.go answers with the white addresses and no others, and finds
-- its starting point in every order.
use native.Mathlib.Nat.{mod-lt}
use native.Mathlib.Decide.{dec_lt}
use z.Prelude.{
  ℕ, zero, suc, ◌+◌, ◌-◌, ◌%◌, ◌^◌, ◌≤◌, ◌<◌, ◌≡◌, ◌⊎◌, refl, sym, ap, ◌∙◌, str_eq, str_eq_iff,
  Bool, true, false, ◌&&◌, Option, some, [], ◌∷◌, get_elem?, ◌==◌, if◌then◌else◌, All, arith,
  Bool-cases, inl, inr,
}
use z.Prelude.Int.{
  ℤ, negsuc, wrap64, pos, pos_part, ltb_ℤ, signed64, wrap64-signed64, signed64-small,
  signed64-bound, ◌+ℤ◌, ◌-ℤ◌, ◌≤ℤ◌,
}
use z.Types.Sets.{IpRr, IpFilterConfig}
use z.Geo.{Mask, Masked, white, is_white}
use z.Ordering.{count_white, sum_weights, weighted_index, rr_index, first_index, choose_index}

abbrev pub NonNegative : Masked → Type 0
NonNegative = All (λ e. pos 0 ≤ℤ e.0.weight)

-- The sum of the white weights, as a number.
unfoldable pub total : Masked → ℕ
total [] = 0
total ((ip, x) ∷ rest) =
    let later = total rest in if is_white x then pos_part ip.weight + later else later

-- The place of a white address, `n` further than `i`.
pub record IsChoice (l : Masked) (i : ℕ) (found : Option ℕ) : Type 0 where
  pub place : ℕ
  pub chosen : IpRr
  pub found_eq : found ≡ some (i + place)
  pub at_place : get_elem? l place ≡ some (chosen, white)

wrap64-non_negative :
    (n : ℕ) (w : ℤ) → pos 0 ≤ℤ w → wrap64 (signed64 n +ℤ w) ≡ signed64 (n + pos_part w)
wrap64-non_negative n (pos w) h = wrap64-signed64 n w
wrap64-non_negative n (negsuc w) h = absurd (omega arith)

-- The sum of the weights wraps around.
sum_weights-total :
    (l : Masked) (n : ℕ) → NonNegative l → sum_weights (signed64 n) l ≡ signed64 (n + total l)
unfolding sum_weights total
sum_weights-total [] n h = ap signed64 (omega arith)
sum_weights-total ((ip, white) ∷ l) n (p, h) =
    let added : wrap64 (signed64 n +ℤ ip.weight) ≡ signed64 (n + pos_part ip.weight) =
      wrap64-non_negative n ip.weight p in
    ap (λ s. sum_weights s l) added
    ∙ sum_weights-total l (n + pos_part ip.weight) h
    ∙ ap signed64 (omega arith)
sum_weights-total ((ip, x) ∷ l) n (p, h) = sum_weights-total l n h

module _ {l : Masked} {i : ℕ} {found : Option ℕ} (e : IpRr × Mask) where
  later_choice : (c : IsChoice l (i + 1) found) → IsChoice (e ∷ l) i found
  later_choice c = record {
    place = suc c.place;
    chosen = c.chosen;
    found_eq = c.found_eq ∙ ap some (omega arith);
    at_place = c.at_place;
  }

first_index-IsChoice : (i : ℕ) (l : Masked) → 0 < count_white l → IsChoice l i (first_index i l)
unfolding first_index count_white
first_index-IsChoice i [] h = absurd (omega arith)
first_index-IsChoice i ((ip, white) ∷ l) h = record {
  place = 0;
  chosen = ip;
  found_eq = ap some (omega arith);
  at_place = refl;
}
first_index-IsChoice i ((ip, x) ∷ l) h = later_choice (ip, x) (first_index-IsChoice (i + 1) l h)

rr_index-IsChoice : (r i : ℕ) (l : Masked) → r < count_white l → IsChoice l i (rr_index r i l)
unfolding rr_index count_white
rr_index-IsChoice r i [] h = absurd (omega arith)
rr_index-IsChoice zero i ((ip, white) ∷ l) h = record {
  place = 0;
  chosen = ip;
  found_eq = ap some (omega arith);
  at_place = refl;
}
rr_index-IsChoice (suc r) i ((ip, white) ∷ l) h =
    let more : (suc r == 0) ≡ false = ground arith in
    rw more (later_choice (ip, white) (rr_index-IsChoice (suc r - 1) (i + 1) l (omega arith)))
rr_index-IsChoice r i ((ip, x) ∷ l) h = later_choice (ip, x) (rr_index-IsChoice r (i + 1) l h)

-- One step of the weighted search at a white address.
weighted_hit :
    (s i : ℕ) (ip : IpRr) (l : Masked)
    → s < pos_part ip.weight
    → weighted_index (pos s) i ((ip, white) ∷ l) ≡ some i
unfolding weighted_index ◌-ℤ◌
weighted_hit s i ip l h = ground arith

weighted_miss :
    (s i : ℕ) (ip : IpRr) (l : Masked)
    → pos 0 ≤ℤ ip.weight
    → pos_part ip.weight ≤ s
    → weighted_index (pos s) i ((ip, white) ∷ l)
      ≡ weighted_index (pos (s - pos_part ip.weight)) (i + 1) l
unfolding weighted_index ◌-ℤ◌
weighted_miss s i ip l p h = ground arith

weighted_skip :
    (s i : ℕ) (ip : IpRr) (x : Mask) (l : Masked)
    → is_white x ≡ false
    → weighted_index (pos s) i ((ip, x) ∷ l) ≡ weighted_index (pos s) (i + 1) l
unfolding weighted_index
weighted_skip s i ip x l h = ground arith

-- The weighted search from a point below the total ends at an address of positive weight.
weighted_index-IsChoice :
    (s i : ℕ) (l : Masked)
    → NonNegative l
    → s < total l
    → (c : IsChoice l i (weighted_index (pos s) i l)) × (pos 1 ≤ℤ c.chosen.weight)
unfolding total later_choice
weighted_index-IsChoice s i [] p h = absurd (omega arith)
weighted_index-IsChoice s i ((ip, white) ∷ l) (p, q) h = elim (dec_lt s (pos_part ip.weight)) [
  | yes hit ↦ rw (weighted_hit s i ip l hit) (
    record { place = 0; chosen = ip; found_eq = ap some (omega arith); at_place = refl },
    ground arith,
  )
  | no miss ↦
      let (c, heavy) = weighted_index-IsChoice (s - pos_part ip.weight) (i + 1) l q (omega arith) in
      rw (weighted_miss s i ip l p (omega arith)) (later_choice (ip, white) c, heavy)
]
weighted_index-IsChoice s i ((ip, x) ∷ l) (p, q) h =
    let (c, heavy) = weighted_index-IsChoice s (i + 1) l q h in
    rw (weighted_skip s i ip x l refl) (later_choice (ip, x) c, heavy)

abbrev is_weighted : IpFilterConfig → Bool
is_weighted config = str_eq config.order "weighted"

module _ (nanos : ℕ) (config : IpFilterConfig) (l : Masked) (p : NonNegative l) where
  sum_weights-zero : sum_weights (pos 0) l ≡ signed64 (total l)
  sum_weights-zero =
      ap (λ s. sum_weights s l) (sym (signed64-small 0 (ground arith)))
      ∙ sum_weights-total l 0 p
      ∙ ap signed64 (omega arith)

  -- The sum is positive, as an int.
  abbrev by_weight : Bool
  by_weight = is_weighted config && ltb_ℤ (pos 0) (signed64 (total l))

  choose_weighted :
      by_weight ≡ true
      → choose_index nanos config l
        ≡ weighted_index (pos (nanos % pos_part (signed64 (total l)))) 0 l
  unfolding choose_index
  choose_weighted w = rw (sum_weights-zero, w) refl

  choose_other :
      by_weight ≡ false
      → (choose_index nanos config l ≡ rr_index (nanos % count_white l) 0 l)
        ⊎ (choose_index nanos config l ≡ first_index 0 l)
  unfolding choose_index
  choose_other w = rw (sum_weights-zero) (ground (arith, w))

  -- The point where the weighted search starts.
  start_below : by_weight ≡ true → nanos % pos_part (signed64 (total l)) < total l
  start_below w = omega (arith, signed64-bound (total l), mod-lt nanos (positive w))
    where
      positive : by_weight ≡ true → 0 < pos_part (signed64 (total l))
      positive w = ground (arith, w)

  -- With no negative weight and some white address, every order finds a white address to start at.
  pub choose_index-IsChoice : 0 < count_white l → IsChoice l 0 (choose_index nanos config l)
  choose_index-IsChoice h = elim (Bool-cases by_weight) [
    | inl w ↦ rw (choose_weighted w) (weighted_index-IsChoice _ 0 l p (start_below w)).0
    | inr n ↦ elim (choose_other n) [
      | inl e ↦ rw e (rr_index-IsChoice (nanos % count_white l) 0 l (mod-lt nanos h))
      | inr e ↦ rw e (first_index-IsChoice 0 l h)
    ]
  ]

  -- With no negative weight, the order "weighted" and white weights whose sum is neither 0 nor
  -- above the greatest int of 64 bits, the index found is that of a white address of positive
  -- weight.
  pub choose_index-weighted :
      config.order ≡ "weighted"
      → 0 < total l
      → total l < 2 ^ 63
      → (c : IsChoice l 0 (choose_index nanos config l)) × (pos 1 ≤ℤ c.chosen.weight)
  choose_index-weighted w h fits =
      let small = signed64-small (total l) fits in
      let on : by_weight ≡ true = rw (small) (ground (arith, str_eq_iff config.order "weighted")) in
      rw (choose_weighted on) (weighted_index-IsChoice _ 0 l p (start_below on))
