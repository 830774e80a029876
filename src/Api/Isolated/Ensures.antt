-- ===== src/Api/Isolated/Ensures.antt =====
-- The operations of internal/api/database as reads before one statement: what holds of the tables at the
-- end, whatever fails on the way.
use mathlib.Core.Path.{subst}
use z.Prelude.{◌≡◌, refl, sym, Option, some}
use z.Api.Action.{Error, Result, ok, err, Action, pure, after, ◌>>=◌, map_error, parse_error}
use z.Api.Rows.{Tables, ObjectId}
use z.Api.Database.{Engine, Db, statement}
use z.Api.Database.Outcomes.{after_keeps, attempt_keeps, with_error_keeps, insert_fresh}
use z.Api.Database.Reads.{Reads}

-- From the tables `t` the action ends in tables with the property.
pub record Ensures {A : Type 0} (t : Tables) (m : Action Db A) (P : Tables → Type 0) : Type 0 where
  pub ensures : (db : Db) → db.tables ≡ t → P (m db).1.tables

module _ {t : Tables} {A : Type 0} where
  -- What follows leaves the tables.
  pub Ensures-then :
      {B : Type 0} {P : Tables → Type 0} {m : Action Db A} (f : A → Action Db B)
      → Ensures t m P
      → ((a : A) (db : Db) → (f a db).1.tables ≡ db.tables)
      → Ensures t (m >>= f) P
  Ensures-then {P} {m} f h rest = record {
    ensures = λ db e.
        after_keeps (λ (d : Db). P d.tables) f (m db) (h.ensures db e)
          (λ a s now. subst P (sym (rest a s)) now);
  }

  pub Ensures-map_error :
      {P : Tables → Type 0} (g : Error → Error) {m : Action Db A}
      → Ensures t m P
      → Ensures t (map_error g m) P
  Ensures-map_error {P} g {m} h = record {
    ensures = λ db e. with_error_keeps (λ (d : Db). P d.tables) g (m db) (h.ensures db e);
  }

module _ (E : Engine) {t : Tables} where
  after_ensures :
      {A B : Type 0} {o : Option A} {P : Tables → Type 0} (f : A → Action Db B) (p : Result A × Db)
      → P t
      → p.1.tables ≡ t
      → ((a : A) → p.0 ≡ ok a → o ≡ some a)
      → ((a : A) → o ≡ some a → Ensures t (f a) P)
      → P (after f p).1.tables
  after_ensures f (ok a, s) now left read k = (k a (read a refl)).ensures s left
  after_ensures {P} f (err e, s) now left read k = subst P (sym left) now

  pub Ensures-bind :
      {A B : Type 0} {o : Option A} {P : Tables → Type 0} {m : Action Db A} (f : A → Action Db B)
      → P t
      → Reads E t m o
      → ((a : A) → o ≡ some a → Ensures t (f a) P)
      → Ensures t (m >>= f) P
  Ensures-bind {m} f now r k = record {
    ensures = λ db e. after_ensures f (m db) now (r.leaves db e) (λ a. r.answers db e) k;
  }

  pub Ensures-reads :
      {A : Type 0} {o : Option A} {P : Tables → Type 0} {m : Action Db A}
      → P t
      → Reads E t m o
      → Ensures t m P
  Ensures-reads {P} now r = record { ensures = λ db e. subst P (sym (r.leaves db e)) now }

  pub Ensures-statement :
      {A : Type 0} {P : Tables → Type 0} (f : Tables → Result A × Tables)
      → P t
      → P (f t).1
      → Ensures t (statement E f) P
  Ensures-statement {P} f now done = record {
    ensures = λ db e.
        attempt_keeps P (E.fault db.clock) (f db.tables) db (subst P (sym e) now)
          (subst (λ x. P (f x).1) (sym e) done);
  }

  pub Ensures-insert_fresh :
      {P : Tables → Type 0} (insertion : ObjectId → Tables → Result (Unit {0}) × Tables)
      → P t
      → ((id : ObjectId) → P (insertion id t).1)
      → Ensures t (insert_fresh E insertion) P
  Ensures-insert_fresh {P} insertion now done = record {
    ensures = λ db e.
        (Ensures-then {P = P} (λ _. pure (E.new_object_id db.clock))
            (Ensures-map_error parse_error (
              Ensures-statement (insertion (E.new_object_id db.clock)) now
                (done (E.new_object_id db.clock))))
            (λ _ db. refl)).ensures
          db e;
  }
