-- ===== src/Api/Rows/Found.antt =====
-- What is found among the rows of a table to which one was added.
use z.Prelude.{
  true, ◌∙◌, ap, ◌≡◌, refl, Bool, false, ◌||◌, some, none, List, [], ◌∷◌, ◌++◌, if◌then◌else◌,
  arith,
}
use z.Api.Rows.{find_row, has_row}

-- No earlier row is found, so the row that is added is.
pub find_row-append :
    {A : Type 0} (p q : A → Bool) (l : List A) (x : A)
    → has_row (λ y. q y || p y) l ≡ false
    → find_row p (l ++ x ∷ []) ≡ (if p x then some x else none)
find_row-append p q [] x h = refl
find_row-append p q (y ∷ l) x h = ground (arith, find_row-append p q l x)

pub some_eq : {A : Type 0} {a b : A} → some a ≡ some b → a ≡ b
some_eq {a} e = ap (λ o. elim o [ some x ↦ x | none ↦ a ]) e

-- The row that is added is the one that is found, where none was found before.
pub find_row-added :
    {A : Type 0} (p q : A → Bool) (l : List A) (x : A)
    → has_row (λ y. q y || p y) l ≡ false
    → p x ≡ true
    → find_row p (l ++ x ∷ []) ≡ some x
find_row-added p q l x h found = find_row-append p q l x h ∙ rw (found) refl
