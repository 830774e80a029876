-- ===== src/Api/Database/Outcomes.antt =====
-- What is known of the parts of an action of internal/api/database that ends without an error.
use mathlib.Core.Path.{sym}
use z.Prelude.{◌≡◌, refl, ap, ◌∙◌, Bool, true, false, Option, none, some}
use z.Api.Action.{
  Error, Result, ok, err, Action, pure, after, ◌>>=◌, ◌>>◌, with_error, guard, map_error,
  parse_error,
}
use z.Api.Rows.{ObjectId, Tables}
use z.Api.Database.{Engine, Db, attempt, statement, fresh_id}

module _ {S : Type 0} {A : Type 0} where
  -- What holds at the end of every way in which `f` ends well after `p` holds at the end.
  pub ends_well :
      {B : Type 0} (P : S → Type 0) (f : A → Action S B) (p : Result A × S) {b : B}
      → (after f p).0 ≡ ok b
      → ((a : A) (s : S) → p ≡ (ok a, s) → (f a s).0 ≡ ok b → P (f a s).1)
      → P (after f p).1
  ends_well P f (ok a, s) h step = step a s refl h
  ends_well P f (err e, s) h step = cc

  pub with_error_ok :
      (f : Error → Error) (p : Result A × S) {a : A} {s : S}
      → with_error f p ≡ (ok a, s)
      → p ≡ (ok a, s)
  with_error_ok f (ok a, s) h = h
  with_error_ok f (err e, s) h = cc (ap (λ p. p.0) h)

  -- What every part keeps, all keep.
  pub after_keeps :
      {B : Type 0} (P : S → Type 0) (f : A → Action S B) (p : Result A × S)
      → P p.1
      → ((a : A) (s : S) → P s → P (f a s).1)
      → P (after f p).1
  after_keeps P f (ok a, s) h step = step a s h
  after_keeps P f (err e, s) h step = h

  pub with_error_keeps :
      (P : S → Type 0) (f : Error → Error) (p : Result A × S) → P p.1 → P (with_error f p).1
  with_error_keeps P f (ok a, s) h = h
  with_error_keeps P f (err e, s) h = h

pub guard_ok :
    {S : Type 0} (b : Bool) (e : Error) (s s' : S) {u : Unit {0}}
    → guard b e s ≡ (ok u, s')
    → (b ≡ true) × (s ≡ s')
guard_ok true e s s' h = (refl, ap (λ p. p.1) h)
guard_ok false e s s' h = cc (ap (λ p. p.0) h)

pub attempt_ok :
    {A : Type 0} (o : Option Error) (out : Result A × Tables) (db db' : Db) {a : A}
    → attempt o out db ≡ (ok a, db')
    → (out.0 ≡ ok a) × (db'.tables ≡ out.1)
attempt_ok none (r, t) db db' h = (ap (λ p. p.0) h, sym (ap (λ p. p.1.tables) h))
attempt_ok (some e) out db db' h = cc (ap (λ p. p.0) h)

-- A statement that succeeds has run.
pub statement_ok :
    (E : Engine) {A : Type 0} (f : Tables → Result A × Tables) (db db' : Db) {a : A}
    → statement E f db ≡ (ok a, db')
    → ((f db.tables).0 ≡ ok a) × (db'.tables ≡ (f db.tables).1)
statement_ok E f db db' h = attempt_ok (E.fault db.clock) (f db.tables) db db' h

pub attempt_keeps :
    {A : Type 0} (P : Tables → Type 0) (o : Option Error) (out : Result A × Tables) (db : Db)
    → P db.tables
    → P out.1
    → P (attempt o out db).1.tables
attempt_keeps P none (r, t) db before after = after
attempt_keeps P (some e) out db before after = before

pub ok_eq : {A : Type 0} {a b : A} → ok a ≡ ok b → a ≡ b
ok_eq {a} e = ap (λ r. elim r [ ok x ↦ x | err f ↦ a ]) e

-- The parts of an action that ended well.
pub after_parts :
    {A B : Type 0} (f : A → Action Db B) (p : Result A × Db) {b : B} {s' : Db}
    → after f p ≡ (ok b, s')
    → (a : A) × (s : Db) × (p ≡ (ok a, s)) × (f a s ≡ (ok b, s'))
after_parts f (ok a, s) h = (a, s, refl, h)
after_parts f (err e, s) h = cc (ap (λ p. p.0) h)

module _ (E : Engine) where
  -- A new identifier, and the insertion of a row with it, as the operations that add end.
  abbrev pub insert_fresh : (ObjectId → Tables → Result (Unit {0}) × Tables) → Action Db ObjectId
  insert_fresh insertion = do
    id ← fresh_id E
    map_error parse_error (statement E (insertion id))
    pure id

  pub insert_fresh_parts :
      (insertion : ObjectId → Tables → Result (Unit {0}) × Tables) (db s : Db) {id : ObjectId}
      → insert_fresh insertion db ≡ (ok id, s)
      → ((insertion id db.tables).0 ≡ ok tt) × (s.tables ≡ (insertion id db.tables).1)
  insert_fresh_parts insertion db s {id} h =
      let inserted = λ (i : ObjectId). map_error parse_error (statement E (insertion i)) in
      let (i, s1, e1, h1) = after_parts (λ i. inserted i >> pure i) (fresh_id E db) h in
      let (u, s2, e2, h2) = after_parts (λ _. pure i) (inserted i s1) h1 in
      let (done, left) =
        statement_ok E (insertion i) s1 s2
          (with_error_ok parse_error (statement E (insertion i) s1) e2) in
      let is_it : i ≡ id = ok_eq (ap (λ p. p.0) h2) in
      let unchanged : s1.tables ≡ db.tables = ap (λ p. p.1.tables) (sym e1) in
      (
        ap (λ x. (insertion x db.tables).0) (sym is_it)
            ∙ ap (λ t. (insertion i t).0) (sym unchanged)
            ∙ done,
        ap (λ p. p.1.tables) (sym h2)
            ∙ left
            ∙ ap (λ t. (insertion i t).1) unchanged
            ∙ ap (λ x. (insertion x db.tables).1) is_it,
      )
