-- ===== src/Types/Split.antt =====
-- split255 of internal/types/dns_types.go, which cuts a text into the character-strings of a TXT
-- record. The loop runs on fuel; `length s + 1` rounds are always enough.
use mathlib.Core.List.{flatten}
use z.Prelude.{
  ℕ, zero, suc, ◌+◌, ◌-◌, ◌≤◌, ◌<◌, ◌≡◌, sym, List, [], ◌∷◌, ◌++◌, arith, length, take, drop,
  flatten-concat, drop-eq_nil, drop-drop, ltb, leb, if◌then◌else◌, All, All-append, append_assoc,
  append-nil, take-append-drop, length-take, length-drop, Bool-cases, inl, inr,
}

-- The loop from `p, i := 0, 255`; the last chunk is s[p:].
split_loop : ℕ → List ℕ → ℕ → ℕ → List (List ℕ) → List (List ℕ)
split_loop zero s p i sx = sx
split_loop (suc fuel) s p i sx =
    let more = split_loop fuel s (p + 255) (i + 255) (sx ++ take (i - p) (drop p s) ∷ []) in
    if leb i (length s) then more else sx ++ drop p s ∷ []

pub split255 : List ℕ → List (List ℕ)
split255 s = if ltb (length s) 255 then s ∷ [] else split_loop (length s + 1) s 0 255 []

-- One chunk and the text behind it make up what was left.
chunk-rest : (s : List ℕ) (p : ℕ) → take (p + 255 - p) (drop p s) ++ drop (p + 255) s ≡ drop p s
chunk-rest s p =
    let width : p + 255 - p ≡ 255 = omega arith in
    rw (width, ← drop-drop p 255 s) (take-append-drop 255 (drop p s))

-- The loop appends to `sx` the rest of the text, cut into chunks, once the fuel passes what is left.
split_loop-flatten :
    (fuel : ℕ) (s : List ℕ) (p : ℕ) (sx : List (List ℕ))
    → length s < p + fuel
    → flatten (split_loop fuel s p (p + 255) sx) ≡ flatten sx ++ drop p s
unfolding split_loop
split_loop-flatten zero s p sx h = rw (drop-eq_nil p s (omega arith)) (sym (append-nil _))
split_loop-flatten (suc fuel) s p sx h = elim (Bool-cases (leb (p + 255) (length s))) [
  | inl more ↦ rw (
    more,
    split_loop-flatten fuel s (p + 255) (sx ++ take (p + 255 - p) (drop p s) ∷ []) (ground arith),
    flatten-concat sx (take (p + 255 - p) (drop p s)),
    append_assoc,
    chunk-rest s p,
  )
  | inr last ↦ rw last (flatten-concat sx (drop p s))
]

-- Every chunk has at most 255 bytes.
split_loop-All :
    (fuel : ℕ) (s : List ℕ) (p : ℕ) (sx : List (List ℕ))
    → All (λ c. length c ≤ 255) sx
    → All (λ c. length c ≤ 255) (split_loop fuel s p (p + 255) sx)
unfolding split_loop
split_loop-All zero s p sx h = h
split_loop-All (suc fuel) s p sx h = elim (Bool-cases (leb (p + 255) (length s))) [
  | inl more ↦ rw more (
      split_loop-All fuel s (p + 255) (sx ++ take (p + 255 - p) (drop p s) ∷ [])
        (All-append _ sx _ h (omega (arith, length-take (p + 255 - p) (drop p s)), tt)))
  | inr last ↦ rw last (All-append _ sx _ h (ground (arith, length-drop p s), tt))
]

-- For every text, the chunks of `split255` joined in order are the text, and each has at most 255
-- bytes.
pub split255-flatten :
    (s : List ℕ) → (flatten (split255 s) ≡ s) × All (λ c. length c ≤ 255) (split255 s)
unfolding split255 flatten
split255-flatten s = elim (Bool-cases (ltb (length s) 255)) [
  | inl short ↦ rw short (append-nil s, (ground arith, tt))
  | inr long ↦ rw long (
    split_loop-flatten (length s + 1) s 0 [] (omega arith),
    split_loop-All (length s + 1) s 0 [] tt,
  )
]
