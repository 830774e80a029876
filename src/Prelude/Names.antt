-- ===== src/Prelude/Names.antt =====
-- Text that the program takes apart (domain names, redis keys): lists of code points, as Go's
-- []rune. Equality is a Boolean test with its law.
use Prim.Native.Char.{code}
use Prim.Native.Nat.{ℕ, ◌-◌, ◌≤◌}
use Prim.Native.String.{String}
use mathlib.Core.Path.{◌≡◌, refl}
use mathlib.Core.Logic.{◌↔◌}
use mathlib.Core.Bool.{Bool, true, false, ◌&&◌, ◌||◌}
use mathlib.Core.List.{List, [], ◌∷◌, ◌++◌, reverse}
use native.Mathlib.Omega.{arith}
use z.Prelude.Tests.{◌==◌, if◌then◌else◌}
use z.Prelude.Lists.{length, take, drop}

abbrev pub Name : Type 0
Name = List ℕ

-- The code points of a literal.
abbrev pub txt : String → Name
txt String.[] = []
txt (String.◌∷◌ c s) = code c ∷ txt s

abbrev pub same : Name → Name → Bool
same [] [] = true
same (a ∷ s) (b ∷ t) = (a == b) && same s t
same _ _ = false

pub same_iff : (s t : Name) → (same s t ≡ true) ↔ (s ≡ t)
same_iff [] [] = ground arith
same_iff [] (b ∷ t) = ground arith
same_iff (a ∷ s) [] = ground arith
same_iff (a ∷ s) (b ∷ t) = ground (arith, same_iff s t)

pub same_refl : (s : Name) → same s s ≡ true
same_refl s = (same_iff s s).1 refl

-- strings.HasPrefix
abbrev pub has_prefix : Name → Name → Bool
has_prefix [] s = true
has_prefix (a ∷ p) [] = false
has_prefix (a ∷ p) (b ∷ s) = (a == b) && has_prefix p s

pub has_prefix-append : (p s : Name) → has_prefix p (p ++ s) ≡ true
has_prefix-append [] s = refl
has_prefix-append (a ∷ p) s = ground (arith, has_prefix-append p s)

pub has_prefix_refl : (s : Name) → has_prefix s s ≡ true
has_prefix_refl [] = refl
has_prefix_refl (a ∷ s) = ground (arith, has_prefix_refl s)

-- A prefix that is no shorter is the whole.
pub eq_of_prefix : (p s : Name) → has_prefix p s ≡ true → length s ≤ length p → p ≡ s
eq_of_prefix [] [] h k = refl
eq_of_prefix [] (b ∷ s) h k = absurd (omega arith)
eq_of_prefix (a ∷ p) [] h k = ground arith
eq_of_prefix (a ∷ p) (b ∷ s) h k = ground (arith, eq_of_prefix p s)

-- strings.HasSuffix
abbrev pub has_suffix : Name → Name → Bool
has_suffix p s = has_prefix (reverse p) (reverse s)

-- strings.TrimSuffix and strings.TrimPrefix
unfoldable pub trim_suffix : Name → Name → Name
trim_suffix s p = if has_suffix p s then take (length s - length p) s else s

unfoldable pub trim_prefix : Name → Name → Name
trim_prefix s p = if has_prefix p s then drop (length p) s else s

-- Membership as a Boolean test.
abbrev pub listed : Name → List Name → Bool
listed x [] = false
listed x (y ∷ l) = same y x || listed x l
