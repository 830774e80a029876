-- ===== src/Zone/Reverse.antt =====
-- ReverseName of internal/types/zone.go: its loop of swaps reverses the runes.
use mathlib.Core.List.{reverse, reverse-append, reverse-cons, reverse-reverse}
use z.Prelude.{
  ℕ, zero, suc, ◌+◌, ◌-◌, ◌≤◌, ◌<◌, ◌≡◌, refl, sym, ap, ◌∙◌, ◌⊎◌, inl, inr, some, List, [], ◌∷◌,
  ◌++◌, Name, append_assoc, append-nil, arith, length, get_elem?, set, length-append,
}
use z.Zone.{dot, swap, swap_loop, reverse_name}

get_elem?-append_mid :
    (pre : List ℕ) (x : ℕ) (post : List ℕ) → get_elem? (pre ++ x ∷ post) (length pre) ≡ some x
get_elem?-append_mid [] x post = refl
get_elem?-append_mid (y ∷ pre) x post = get_elem?-append_mid pre x post

set-append_mid :
    (pre : List ℕ) (x v : ℕ) (post : List ℕ)
    → set (pre ++ x ∷ post) (length pre) v ≡ pre ++ v ∷ post
set-append_mid [] x v post = refl
set-append_mid (y ∷ pre) x v post = ap (λ l. y ∷ l) (set-append_mid pre x v post)

-- A list is empty or ends with an item.
snoc-cases : (l : List ℕ) → (l ≡ []) ⊎ ((m : List ℕ) × (y : ℕ) × (l ≡ m ++ y ∷ []))
snoc-cases [] = inl refl
snoc-cases (x ∷ l) = elim (snoc-cases l) [
  | inl e ↦ inr ([], x, ap (λ r. x ∷ r) e)
  | inr (m, y, e) ↦ inr (x ∷ m, y, ap (λ r. x ∷ r) e)
]

swap_lem :
    (runes : List ℕ) (i j a b : ℕ)
    → get_elem? runes i ≡ some a
    → get_elem? runes j ≡ some b
    → swap runes i j ≡ set (set runes i b) j a
unfolding swap
swap_lem runes i j a b p q = ground arith

-- Swapping the ends of a middle part.
swap_ends :
    (pre m post : List ℕ) (x y : ℕ)
    → swap (pre ++ x ∷ (m ++ y ∷ post)) (length pre) (length pre + 1 + length m)
      ≡ pre ++ y ∷ (m ++ x ∷ post)
swap_ends pre m post x y =
    let reach : (u v : ℕ) → pre ++ u ∷ (m ++ v ∷ post) ≡ (pre ++ u ∷ m) ++ v ∷ post =
      λ u v. sym (append_assoc pre (u ∷ m) (v ∷ post)) in
    let size : (u : ℕ) → length pre + 1 + length m ≡ length (pre ++ u ∷ m) =
      λ u. omega (arith, length-append pre (u ∷ m)) in
    swap_lem _ _ _ x y (get_elem?-append_mid pre x (m ++ y ∷ post))
      (rw (reach x y, size x) (get_elem?-append_mid (pre ++ x ∷ m) y post))
    ∙ ap (λ l. set l (length pre + 1 + length m) x) (set-append_mid pre x y (m ++ y ∷ post))
    ∙ rw (reach y y, size y) (set-append_mid (pre ++ y ∷ m) y x post ∙ sym (reach y x))

swap_loop-round :
    (fuel : ℕ) (runes : List ℕ) (i j : ℕ)
    → i < j
    → swap_loop (suc fuel) runes i j ≡ swap_loop fuel (swap runes i j) (i + 1) (j - 1)
unfolding swap_loop
swap_loop-round fuel runes i j h = ground arith

swap_loop-stop :
    (fuel : ℕ) (runes : List ℕ) (i j : ℕ) → j ≤ i → swap_loop (suc fuel) runes i j ≡ runes
unfolding swap_loop
swap_loop-stop fuel runes i j h = ground arith

reverse_ends :
    (m post : List ℕ) (x y : ℕ) → reverse (x ∷ (m ++ y ∷ [])) ++ post ≡ y ∷ (reverse m ++ x ∷ post)
reverse_ends m post x y = simp (reverse-cons, reverse-append, append_assoc)

-- One round, and then the loop on the inner part.
swap_loop-step :
    (fuel : ℕ) (pre m post : List ℕ) (x y : ℕ)
    → swap_loop fuel
        ((pre ++ y ∷ []) ++ (m ++ x ∷ post))
        (length (pre ++ y ∷ []))
        (length (pre ++ y ∷ []) + length m - 1)
      ≡ (pre ++ y ∷ []) ++ (reverse m ++ x ∷ post)
    → swap_loop (suc fuel) (pre ++ x ∷ (m ++ y ∷ post)) (length pre) (length pre + 1 + length m)
      ≡ pre ++ y ∷ (reverse m ++ x ∷ post)
swap_loop-step fuel pre m post x y ih =
    let grown : length (pre ++ y ∷ []) ≡ length pre + 1 = length-append pre (y ∷ []) in
    swap_loop-round fuel _ (length pre) (length pre + 1 + length m) (omega arith)
    ∙ ap (λ r. swap_loop fuel r (length pre + 1) (length pre + 1 + length m - 1))
        (swap_ends pre m post x y)
    ∙ rw (grown, append_assoc pre (y ∷ []) (m ++ x ∷ post)) at ih
    ∙ append_assoc pre (y ∷ []) (reverse m ++ x ∷ post)

-- The loop over a middle part reverses it, with fuel for each of its runes.
swap_loop-middle :
    (fuel : ℕ) (pre mid post : List ℕ)
    → length mid ≤ fuel
    → swap_loop fuel (pre ++ (mid ++ post)) (length pre) (length pre + length mid - 1)
      ≡ pre ++ (reverse mid ++ post)
swap_loop-middle zero pre [] post h = unfold swap_loop in refl
swap_loop-middle zero pre (x ∷ mid) post h = absurd (omega arith)
swap_loop-middle (suc fuel) pre [] post h = swap_loop-stop fuel _ _ _ (omega arith)
swap_loop-middle (suc fuel) pre (x ∷ l) post h = elim (snoc-cases l) [
  | inl e ↦ rw e (swap_loop-stop fuel _ _ _ (omega arith))
  | inr (m, y, e) ↦
      let size : length l ≡ length m + 1 = rw e (length-append m (y ∷ [])) in
      let last : length pre + length (x ∷ l) - 1 ≡ length pre + 1 + length m = omega arith in
      let inner : l ++ post ≡ m ++ y ∷ post = rw e (append_assoc m (y ∷ []) post) in
      rw (last, inner)
        (swap_loop-step fuel pre m post x y
            (swap_loop-middle fuel (pre ++ y ∷ []) m (x ∷ post) (omega arith))
          ∙ ap (λ r. pre ++ r) (sym (reverse_ends m post x y))
          ∙ rw (← e))
]

-- ReverseName returns the runes of the name in reverse order, and a dot behind them.
pub reverse_name-eq : (zone : Name) → reverse_name zone ≡ reverse zone ++ dot ∷ []
unfolding reverse_name
reverse_name-eq zone =
    let runes : List ℕ = dot ∷ zone in
    let last : length runes - 1 ≡ 0 + length runes - 1 = omega arith in
    let done : swap_loop (length runes) (runes ++ []) 0 (0 + length runes - 1)
        ≡ reverse runes ++ [] =
      swap_loop-middle (length runes) [] runes [] (omega arith) in
    rw last (simp (append-nil, reverse-cons) at done)

-- Two names that ReverseName reverses to the same text are the same name.
pub reverse_name-injective : (a b : Name) → reverse_name a ≡ reverse_name b → a ≡ b
reverse_name-injective a b h =
    let same_rev : reverse (reverse (dot ∷ a)) ≡ reverse (reverse (dot ∷ b)) = ap reverse (
      rw (reverse_name-eq a, reverse_name-eq b, ← reverse-cons dot a, ← reverse-cons dot b) at h) in
    cc (reverse-reverse (dot ∷ a), reverse-reverse (dot ∷ b), same_rev)
