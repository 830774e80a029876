-- ===== src/Api/Isolated.antt =====
-- What an operation of internal/api/database leaves alone: the rows of a table that no statement on the
-- rows of another zone reaches.
pub mod Content
pub mod Ensures
pub mod Found
pub mod Calls
pub mod Confined
use z.Prelude.{
  Name, same, same_iff, ◌≡◌, refl, sym, ap, ◌∙◌, Bool, true, false, not, ◌||◌, ◌&&◌, Bool-cases,
  inl, inr, Option, some, none, List, [], ◌∷◌, ◌++◌, if◌then◌else◌, arith,
}
use z.Api.Rows.{ObjectId, has_row, keep_rows, update_rows, find_row}
use z.Api.Integrity.{Unique}
use z.Api.Rows.Found.{some_eq}

module _ {A : Type 0} where
  -- None of the rows that clash with `y` is among rows that do not.
  clash_free :
      (clash hit kept : A → Bool) (l : List A)
      → has_row clash l ≡ false
      → ((z : A) → hit z ≡ true → clash z ≡ true)
      → has_row (λ z. hit z && kept z) l ≡ false
  clash_free clash hit kept [] free le = refl
  clash_free clash hit kept (z ∷ l) free le = elim (Bool-cases (hit z)) [
    | inl hits ↦ ground (arith, free, le z hits)
    | inr misses ↦ ground (arith, misses, free, clash_free clash hit kept l)
  ]

  pub found_free :
      (clash p : A → Bool) (l : List A) {x : A}
      → has_row clash l ≡ false
      → find_row p l ≡ some x
      → clash x ≡ false
  found_free clash p [] free found = cc
  found_free clash p (y ∷ l) free found = elim (Bool-cases (p y)) [
    | inl now ↦ let it = some_eq (rw now at found) in ap clash (sym it) ∙ ground (arith, free)
    | inr later ↦ found_free clash p l (ground (arith, free)) (rw later at found)
  ]

  -- The rows that a statement hits clash with each other, and the one that was found is not to be
  -- kept, so no row that is to be kept is hit.
  pub only_row :
      (clash : A → A → Bool) (p hit kept : A → Bool) (l : List A) {x : A}
      → Unique clash l
      → ((y z : A) → hit y ≡ true → hit z ≡ true → clash y z ≡ true)
      → find_row p l ≡ some x
      → hit x ≡ true
      → kept x ≡ false
      → has_row (λ y. hit y && kept y) l ≡ false
  only_row clash p hit kept [] unique le found hits apart = refl
  only_row clash p hit kept (y ∷ l) {x} (fresh, unique) le found hits apart =
      elim (Bool-cases (p y)) [
        | inl now ↦
            let it : y ≡ x = some_eq (rw now at found) in
            let first : hit y ≡ true = ap hit it ∙ hits in
            let rest = clash_free (clash y) hit kept l fresh (λ z h. le y z first h) in
            ground (arith, ap kept it ∙ apart, rest)
        | inr later ↦
            let there : find_row p l ≡ some x = rw later at found in
            let rest = only_row clash p hit kept l unique le there hits apart in
            let no_clash : clash y x ≡ false = found_free (clash y) p l fresh there in
            elim (Bool-cases (hit y)) [
              | inl both ↦ cc (le y x both hits)
              | inr misses ↦ ground (arith, misses, rest)
            ]
      ]

  pub nothing_found :
      (p kept : A → Bool) (l : List A)
      → find_row p l ≡ none
      → has_row (λ y. p y && kept y) l ≡ false
  nothing_found p kept [] h = refl
  nothing_found p kept (y ∷ l) h = elim (Bool-cases (p y)) [
    | inl now ↦ cc (rw now at h)
    | inr later ↦ ground (arith, later, nothing_found p kept l (rw later at h))
  ]

  pub find_row-holds : (p : A → Bool) (l : List A) {x : A} → find_row p l ≡ some x → p x ≡ true
  find_row-holds p [] found = cc
  find_row-holds p (y ∷ l) found = elim (Bool-cases (p y)) [
    | inl now ↦ ap p (sym (some_eq (rw now at found))) ∙ now
    | inr later ↦ find_row-holds p l (rw later at found)
  ]

  pub keep_rows-append :
      (kept : A → Bool) (l : List A) (x : A)
      → kept x ≡ false
      → keep_rows kept (l ++ x ∷ []) ≡ keep_rows kept l
  keep_rows-append kept [] x apart = rw (apart) refl
  keep_rows-append kept (y ∷ l) x apart =
      ap (λ r. if kept y then y ∷ r else r) (keep_rows-append kept l x apart)

  pub keep_rows-alike :
      (p q : A → Bool) (l : List A) → ((x : A) → p x ≡ q x) → keep_rows p l ≡ keep_rows q l
  keep_rows-alike p q [] h = refl
  keep_rows-alike p q (x ∷ l) h = ground (arith, h x, keep_rows-alike p q l h)

  -- Rows that are not hit are left by an update and by a deletion.
  pub keep_rows-update_rows :
      (kept hit : A → Bool) (f : A → A) (l : List A)
      → ((x : A) → kept (f x) ≡ kept x)
      → has_row (λ y. hit y && kept y) l ≡ false
      → keep_rows kept (update_rows hit f l) ≡ keep_rows kept l
  keep_rows-update_rows kept hit f [] keeps spared = refl
  keep_rows-update_rows kept hit f (x ∷ l) keeps spared =
      let rest = keep_rows-update_rows kept hit f l keeps (ground (arith, spared)) in
      ground (arith, spared, keeps x, rest)

  pub keep_rows-spared :
      (kept hit : A → Bool) (l : List A)
      → has_row (λ y. hit y && kept y) l ≡ false
      → keep_rows kept (keep_rows (λ y. not (hit y)) l) ≡ keep_rows kept l
  keep_rows-spared kept hit [] spared = refl
  keep_rows-spared kept hit (x ∷ l) spared =
      let rest = keep_rows-spared kept hit l (ground (arith, spared)) in
      ground (arith, spared, rest)

  pub has_row-spared :
      (q kept hit : A → Bool) (l : List A)
      → has_row (λ y. hit y && kept y) l ≡ false
      → has_row (λ y. q y && kept y) (keep_rows (λ y. not (hit y)) l)
        ≡ has_row (λ y. q y && kept y) l
  has_row-spared q kept hit [] spared = refl
  has_row-spared q kept hit (x ∷ l) spared =
      let rest = has_row-spared q kept hit l (ground (arith, spared)) in
      ground (arith, spared, rest)

  -- Of two selections the narrower one counts.
  pub keep_rows-keep_rows :
      (p q : A → Bool) (l : List A)
      → ((x : A) → p x ≡ true → q x ≡ true)
      → keep_rows p (keep_rows q l) ≡ keep_rows p l
  keep_rows-keep_rows p q [] le = refl
  keep_rows-keep_rows p q (x ∷ l) le = elim (Bool-cases (p x)) [
    | inl stays ↦ ground (arith, stays, le x stays, keep_rows-keep_rows p q l le)
    | inr goes ↦ ground (arith, goes, keep_rows-keep_rows p q l le)
  ]

  pub has_row-and :
      (p q : A → Bool) (l : List A) → has_row (λ y. p y && q y) l ≡ true → has_row p l ≡ true
  has_row-and p q (y ∷ l) h = ground (arith, h, has_row-and p q l)
  has_row-and p q [] h = cc

  pub has_row-keep_rows :
      (p q : A → Bool) (l : List A) → has_row (λ y. p y && q y) l ≡ has_row q (keep_rows p l)
  has_row-keep_rows p q [] = refl
  has_row-keep_rows p q (x ∷ l) = ground (arith, has_row-keep_rows p q l)
