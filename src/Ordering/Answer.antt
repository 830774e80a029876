-- ===== src/Ordering/Answer.antt =====
-- The order of the addresses in the answer: orderIps of internal/handler/handler.go, over the index where
-- the answer starts.
use mathlib.Core.List.{Perm, perm_append_comm}
use mathlib.Core.List.Perm
use native.Mathlib.Decide.{dec_lt}
use mathlib.Core.Path.{subst}
use z.Prelude.{
  ℕ, ◌+◌, ◌<◌, ◌≡◌, ◌≢◌, refl, sym, ap, ◌∙◌, str_eq, str_eq_iff, true, false, some, [], ◌∷◌, ◌++◌,
  get_elem?, take, drop, take-append-drop, arith,
}
use z.Types.Sets.{IpRr, IpFilterConfig}
use z.Geo.{Masked, white}
use z.Ordering.{count_white, white_ips, choose_index, order_ips}
use z.Ordering.Choice.{NonNegative, choose_index-IsChoice}

white_ips-append : (l m : Masked) → white_ips (l ++ m) ≡ white_ips l ++ white_ips m
unfolding white_ips
white_ips-append [] m = refl
white_ips-append ((ip, white) ∷ l) m = ap (λ r. ip.ip ∷ r) (white_ips-append l m)
white_ips-append ((ip, x) ∷ l) m = white_ips-append l m

rotate-Perm :
    (n : ℕ) (l : Masked) → Perm (white_ips (drop n l) ++ white_ips (take n l)) (white_ips l)
rotate-Perm n l =
    subst (λ r. Perm (white_ips (drop n l) ++ white_ips (take n l)) r)
      (sym (white_ips-append (take n l) (drop n l)) ∙ ap white_ips (take-append-drop n l))
      (perm_append_comm (white_ips (drop n l)) (white_ips (take n l)))

no_white : (l : Masked) → count_white l ≡ 0 → white_ips l ≡ []
unfolding count_white white_ips
no_white [] h = refl
no_white ((ip, white) ∷ l) h = absurd (omega arith)
no_white ((ip, x) ∷ l) h = no_white l h

order_ips-none :
    (nanos : ℕ) (config : IpFilterConfig) (l : Masked)
    → count_white l ≡ 0
    → order_ips nanos config l ≡ []
unfolding order_ips
order_ips-none nanos config l h = ground arith

module _ (nanos : ℕ) (config : IpFilterConfig) (l : Masked) (p : NonNegative l) where
  order_ips-multi :
      (index : ℕ)
      → 0 < count_white l
      → choose_index nanos config l ≡ some index
      → str_eq config.count "single" ≡ false
      → order_ips nanos config l ≡ white_ips (drop index l) ++ white_ips (take index l)
  unfolding order_ips
  order_ips-multi index h e s = ground arith

  order_ips-one :
      (index : ℕ) (ip : IpRr)
      → 0 < count_white l
      → choose_index nanos config l ≡ some index
      → get_elem? l index ≡ some (ip, white)
      → str_eq config.count "single" ≡ true
      → order_ips nanos config l ≡ ip.ip ∷ []
  unfolding order_ips
  order_ips-one index ip h e g s = ground arith

  -- With no negative weight and a count other than "single", the answer holds the white addresses
  -- of the set and no others, each as often, in some order.
  pub order_ips-Perm : config.count ≢ "single" → Perm (order_ips nanos config l) (white_ips l)
  order_ips-Perm many = elim (dec_lt 0 (count_white l)) [
    | yes h ↦
        let c = choose_index-IsChoice nanos config l p h in
        let plural : str_eq config.count "single" ≡ false =
          ground (arith, str_eq_iff config.count "single") in
        rw (order_ips-multi (0 + c.place) h c.found_eq plural) (rotate-Perm (0 + c.place) l)
    | no h ↦
        let empty : count_white l ≡ 0 = omega arith in
        rw (order_ips-none nanos config l empty, no_white l empty) (Perm.refl [])
  ]

  -- With no negative weight, the count "single" and some white address, the answer is one white
  -- address of the set.
  pub order_ips-single :
      config.count ≡ "single"
      → 0 < count_white l
      → (i : ℕ) × (ip : IpRr) × (get_elem? l i ≡ some (ip, white))
        × (order_ips nanos config l ≡ ip.ip ∷ [])
  order_ips-single one h =
      let c = choose_index-IsChoice nanos config l p h in
      let start : 0 + c.place ≡ c.place = omega arith in
      (
        c.place,
        c.chosen,
        c.at_place,
        order_ips-one c.place c.chosen h (c.found_eq ∙ ap some start) c.at_place
            ((str_eq_iff config.count "single").1 one),
      )
