-- ===== src/Ordering.antt =====
-- orderIps of internal/handler/handler.go: which addresses of a record set go into the answer, and in
-- which order. The addresses and their mask are one list of pairs, as in Geo; `nanos` is what
-- time.Now().Nanosecond() returns.
pub mod Choice
pub mod Answer
use z.Prelude.{
  ℕ, zero, suc, ◌+◌, ◌-◌, ◌%◌, String, str_eq, Bool, true, false, ◌&&◌, ◌||◌, Option, none, some,
  List, [], ◌∷◌, ◌++◌, get_elem?, take, drop, ltb, ◌==◌, if◌then◌else◌,
}
use z.Prelude.Int.{ℤ, wrap64, pos, pos_part, ◌+ℤ◌, ◌-ℤ◌, ltb_ℤ, is_zero}
use z.Types.Rr.{Ip}
use z.Types.Sets.{IpRr, IpFilterConfig}
use z.Geo.{Mask, Masked, white, is_white}

-- The first loop: the count of the white addresses and the sum of their weights, an int of 64
-- bits.
unfoldable pub count_white : Masked → ℕ
count_white [] = 0
count_white ((ip, x) ∷ rest) = let n = count_white rest in if is_white x then n + 1 else n

pub sum_weights : ℤ → Masked → ℤ
sum_weights sum [] = sum
sum_weights sum ((ip, x) ∷ rest) =
    sum_weights (if is_white x then wrap64 (sum +ℤ ip.weight) else sum) rest

-- The search of each order, from the index `i` on; `none` leaves `index` at -1.
weighted_index : ℤ → ℕ → Masked → Option ℕ
weighted_index s i [] = none
weighted_index s i ((ip, x) ∷ rest) =
    let s' = if is_white x then s -ℤ ip.weight else s in
    let later = weighted_index s' (i + 1) rest in
    if is_white x && ltb_ℤ s' (pos 0) then some i else later

rr_index : ℕ → ℕ → Masked → Option ℕ
rr_index r i [] = none
rr_index r i ((ip, x) ∷ rest) =
    let later = rr_index (if is_white x then r - 1 else r) (i + 1) rest in
    if is_white x && r == 0 then some i else later

first_index : ℕ → Masked → Option ℕ
first_index i [] = none
first_index i ((ip, x) ∷ rest) =
    let later = first_index (i + 1) rest in if is_white x then some i else later

-- The loops that append the white addresses to the result.
pub white_ips : Masked → List Ip
white_ips [] = []
white_ips ((ip, x) ∷ rest) =
    let later = white_ips rest in if is_white x then ip.ip ∷ later else later

-- The index that the configured order picks.
pub choose_index : ℕ → IpFilterConfig → Masked → Option ℕ
unfolding weighted_index rr_index first_index
choose_index nanos config l =
    let sum = sum_weights (pos 0) l in
    if str_eq config.order "weighted" && ltb_ℤ (pos 0) sum
    then weighted_index (pos (nanos % pos_part sum)) 0 l
    else if str_eq config.order "rr" || (str_eq config.order "weighted" && is_zero sum)
    then rr_index (nanos % count_white l) 0 l
    else first_index 0 l

pub order_ips : ℕ → IpFilterConfig → Masked → List Ip
unfolding count_white white_ips
order_ips nanos config l = if count_white l == 0 then [] else elim (choose_index nanos config l) [
  | none ↦ []
  | some index ↦
      if str_eq config.count "single"
      then elim (get_elem? l index) [ none ↦ [] | some (ip, x) ↦ ip.ip ∷ [] ]
      else white_ips (drop index l) ++ white_ips (take index l)
]
