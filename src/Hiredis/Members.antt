-- ===== src/Hiredis/Members.antt =====
-- What the loops over a cursor of pkg/hiredis/hiredis.go return: the keys of all pages, each once.
use mathlib.Core.Path.{sym}
use z.Prelude.{
  ℕ, zero, suc, ◌+◌, ◌≤◌, Name, txt, same, ◌++◌, ◌≡◌, refl, ap, ◌∙◌, Bool, true, false, ◌||◌,
  Bool-cases, inl, inr, Option, some, List, [], ◌∷◌, if◌then◌else◌, listed, arith, same_iff,
}
use z.Hiredis.{Result, ok, Arg, Redigo}
use z.Hiredis.Scan.{insert_key, insert_keys, read_page, after_page, scan_pages}

-- No key stands twice.
abbrev pub IsDistinct : List Name → Type 0
IsDistinct [] = Unit
IsDistinct (x ∷ l) = (listed x l ≡ false) × IsDistinct l

insert_key-IsDistinct : (k : Name) (l : List Name) → IsDistinct l → IsDistinct (insert_key k l)
insert_key-IsDistinct k l h = elim (Bool-cases (listed k l)) [
  | inl old ↦ rw (old, insert_key) h
  | inr new ↦ rw (new, insert_key) (new, h)
]

pub insert_keys-IsDistinct : (ks l : List Name) → IsDistinct l → IsDistinct (insert_keys ks l)
insert_keys-IsDistinct [] l h = h
insert_keys-IsDistinct (k ∷ ks) l h =
    insert_keys-IsDistinct ks (insert_key k l) (insert_key-IsDistinct k l h)

listed-insert_key :
    (x k : Name) (l : List Name) → listed x (insert_key k l) ≡ (same k x || listed x l)
listed-insert_key x k l = elim (Bool-cases (listed k l)) [
  | inr new ↦ rw (new, insert_key) refl
  | inl old ↦ elim (Bool-cases (same k x)) [
    | inr other ↦ rw (old, insert_key) (rw (other) refl)
    | inl here ↦
        let this : listed x l ≡ true = ap (λ y. listed y l) (sym ((same_iff k x).0 here)) ∙ old in
        rw (old, insert_key) (rw (here) this)
  ]
]

or-swap : (a b c : Bool) → (b || (a || c)) ≡ ((a || b) || c)
or-swap true true c = refl
or-swap true false c = refl
or-swap false true c = refl
or-swap false false c = refl

pub listed-insert_keys :
    (x : Name) (ks l : List Name) → listed x (insert_keys ks l) ≡ (listed x ks || listed x l)
listed-insert_keys x [] l = refl
listed-insert_keys x (k ∷ ks) l =
    listed-insert_keys x ks (insert_key k l)
    ∙ ap (λ b. listed x ks || b) (listed-insert_key x k l)
    ∙ or-swap (same k x) (listed x ks) (listed x l)

insert_keys-append :
    (ks js l : List Name) → insert_keys (ks ++ js) l ≡ insert_keys js (insert_keys ks l)
insert_keys-append [] js l = refl
insert_keys-append (k ∷ ks) js l = insert_keys-append ks js (insert_key k l)

-- The pages that the server answers from a cursor on, their number and their keys.
module _ (R : Redigo) (command : Name → List Arg) (keys_of : R.Reply → Result (List Name)) where
  pub data Pages : Name → R.Server → ℕ → List Name → R.Server → Type 0 where
    last :
        {cursor next : Name} {s s' : R.Server} {reply : R.Reply} {keys : List Name}
        → R.do_command (command cursor) s ≡ (ok reply, s')
        → read_page R keys_of reply ≡ ok (next, keys)
        → same next (txt "0") ≡ true
        → Pages cursor s 1 keys s'
    more :
        {cursor next : Name} {s s' s'' : R.Server} {n : ℕ} {reply : R.Reply} {keys rest : List Name}
        → R.do_command (command cursor) s ≡ (ok reply, s')
        → read_page R keys_of reply ≡ ok (next, keys)
        → same next (txt "0") ≡ false
        → Pages next s' n rest s''
        → Pages cursor s (n + 1) (keys ++ rest) s''

  -- One turn of the loop.
  turn :
      {next : Name} (reply : R.Reply) {keys : List Name} (set : List Name) (s : R.Server)
      (k : Name → List Name → R.Server → Option (Result (List Name)) × R.Server)
      → read_page R keys_of reply ≡ ok (next, keys)
      → after_page R keys_of set k (ok reply, s) ≡ (
          if same next (txt "0")
          then (some (ok (insert_keys keys set)), s)
          else k next (insert_keys keys set) s)
  unfolding after_page
  turn reply set s k read = rw (read) refl

  -- With fuel for the pages, the loop ends with the keys of all of them.
  pub scan_pages_lem :
      {cursor : Name} {s s' : R.Server} {n : ℕ} {all : List Name} (pages : Pages cursor s n all s')
      (fuel : ℕ) (set : List Name)
      → n ≤ fuel
      → scan_pages R command keys_of fuel cursor set s ≡ (some (ok (insert_keys all set)), s')
  unfolding scan_pages
  scan_pages_lem (last sent read stops) zero set h = absurd (omega (arith, h))
  scan_pages_lem (last {s' = s'} {reply = reply} sent read stops) (suc fuel) set h =
      ap (after_page R keys_of set (scan_pages R command keys_of fuel)) sent
      ∙ turn reply set s' (scan_pages R command keys_of fuel) read
      ∙ rw (stops) refl
  scan_pages_lem (more sent read goes pages) zero set h = absurd (omega (arith, h))
  scan_pages_lem (more {s' = s'} {reply = reply} {keys = keys} {rest = rest} sent read goes pages)
        (suc fuel) set h =
      ap (after_page R keys_of set (scan_pages R command keys_of fuel)) sent
      ∙ turn reply set s' (scan_pages R command keys_of fuel) read
      ∙ rw (goes, insert_keys-append keys rest set)
          (scan_pages_lem pages fuel (insert_keys keys set) (omega (arith, h)))
