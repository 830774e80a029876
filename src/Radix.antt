-- ===== src/Radix.antt =====
-- The immutable radix tree of github.com/hashicorp/go-immutable-radix, which internal/types/zone.go
-- and internal/storage/data_handler.go keep locations and zones in: its operations that the program
-- calls, with their documented behaviour.
use z.Prelude.{Name, ◌<◌, ◌≡◌, Option, none, some, true, same, has_prefix, length, if◌then◌else◌}

pub record Radix (V : Type 0) : Type 1 where
  pub Tree : Type 0
  pub new : Tree
  pub insert : Name → V → Tree → Tree
  pub get : Name → Tree → Option V
  -- Root().LongestPrefix: the longest key that is a prefix of the argument, with its value
  pub longest_prefix : Name → Tree → Option (Name × V)
  pub get-new : (k : Name) → get k new ≡ none
  pub get-insert :
      (k j : Name) (v : V) (t : Tree)
      → get j (insert k v t) ≡ (if same k j then some v else get j t)
  pub longest_prefix-none :
      (k : Name) (t : Tree)
      → longest_prefix k t ≡ none
      → (p : Name) → has_prefix p k ≡ true
      → get p t ≡ none
  pub longest_prefix-get :
      (k : Name) (t : Tree) (p : Name) (v : V) → longest_prefix k t ≡ some (p, v) → get p t ≡ some v
  pub longest_prefix-has_prefix :
      (k : Name) (t : Tree) (p : Name) (v : V)
      → longest_prefix k t ≡ some (p, v)
      → has_prefix p k ≡ true
  pub longest_prefix-longest :
      (k : Name) (t : Tree) (p : Name) (v : V)
      → longest_prefix k t ≡ some (p, v)
      → (q : Name) → has_prefix q k ≡ true
      → length p < length q
      → get q t ≡ none
