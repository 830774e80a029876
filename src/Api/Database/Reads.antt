-- ===== src/Api/Database/Reads.antt =====
-- Actions of internal/api/database that only read: what they answer, as a function of the tables.
use z.Prelude.{ℕ, ◌≡◌, refl, sym, ap, ◌∙◌, Bool, true, false, Option, none, some, if◌then◌else◌}
use z.Api.Action.{Error, Result, ok, err, Action, pure, after, with_error, ◌>>=◌, guard, map_error}
use z.Api.Rows.{Tables, scan}
use z.Api.Database.{Engine, Db, attempt, query_row}
use z.Api.Database.Outcomes.{ok_eq, attempt_keeps, with_error_keeps}
use z.Api.Rows.Found.{some_eq}

abbrev pub bind_found : {A B : Type 0} → Option A → (A → Option B) → Option B
bind_found none f = none
bind_found (some a) f = f a

abbrev pub found_if : Bool → Option (Unit {0})
found_if b = if b then some tt else none

pub found_then :
    {A B : Type 0} {o : Option A} {a : A} {b : B} (f : A → Option B)
    → o ≡ some a
    → f a ≡ some b
    → bind_found o f ≡ some b
found_then f e h = ap (λ o. bind_found o f) e ∙ h

with_error_result :
    {A : Type 0} (g : Error → Error) (p : Result A × Db) (a : A)
    → ((with_error g p).0 ≡ ok a → p.0 ≡ ok a) × (p.0 ≡ ok a → (with_error g p).0 ≡ ok a)
with_error_result g (ok x, s) a = (λ h. h, λ h. h)
with_error_result g (err e, s) a = (λ h. cc, λ h. cc)

scan_result :
    {A : Type 0} (o : Option A) (a : A)
    → (scan o ≡ ok a → o ≡ some a) × (o ≡ some a → scan o ≡ ok a)
scan_result none a = (λ h. cc, λ h. cc)
scan_result (some x) a = (λ h. ap some (ok_eq h), λ h. ap ok (some_eq h))

attempt_answer :
    {A : Type 0} (fault : Option Error) (out : Result A × Tables) (db : Db) {a : A}
    → (attempt fault out db).0 ≡ ok a
    → out.0 ≡ ok a
attempt_answer none (r, t') db h = h
attempt_answer (some e) out db h = cc

-- What was found, and what followed from it.
pub found_parts :
    {A B : Type 0} (o : Option A) (f : A → Option B) {b : B}
    → bind_found o f ≡ some b
    → (a : A) × (o ≡ some a) × (f a ≡ some b)
found_parts none f h = cc
found_parts (some a) f h = (a, refl, h)

module _ (E : Engine) where
  abbrev pub NoFault : Type 0
  NoFault = (n : ℕ) → E.fault n ≡ none

  -- With the tables `t` the action leaves them, what it answers is `o`, and it does answer that if no
  -- statement fails.
  pub record Reads (t : Tables) {A : Type 0} (m : Action Db A) (o : Option A) : Type 0 where
    pub leaves : (db : Db) → db.tables ≡ t → (m db).1.tables ≡ t
    pub answers : (db : Db) {a : A} → db.tables ≡ t → (m db).0 ≡ ok a → o ≡ some a
    pub succeeds : NoFault → (db : Db) {a : A} → db.tables ≡ t → o ≡ some a → (m db).0 ≡ ok a

  module _ {t : Tables} {A : Type 0} where
    pub Reads-pure : (a : A) → Reads t (pure a) (some a)
    Reads-pure a = record {
      leaves = λ db e. e;
      answers = λ db e h. ap some (ok_eq h);
      succeeds = λ safe db e h. ap ok (some_eq h);
    }

    after_leaves :
        {B : Type 0} {g : A → Option B} (f : A → Action Db B) (p : Result A × Db)
        → ((a : A) → Reads t (f a) (g a))
        → p.1.tables ≡ t
        → (after f p).1.tables ≡ t
    after_leaves f (ok a, s) k left = (k a).leaves s left
    after_leaves f (err e, s) k left = left

    after_answers :
        {B : Type 0} {g : A → Option B} {o : Option A} {b : B} (f : A → Action Db B)
        (p : Result A × Db)
        → ((a : A) → Reads t (f a) (g a))
        → p.1.tables ≡ t
        → ((a : A) → p.0 ≡ ok a → o ≡ some a)
        → (after f p).0 ≡ ok b
        → bind_found o g ≡ some b
    after_answers {g} f (ok a, s) k left read h =
        found_then g (read a refl) ((k a).answers s left h)
    after_answers f (err e, s) k left read h = cc

    after_succeeds :
        {B : Type 0} {g : A → Option B} {b : B} (f : A → Action Db B) (p : Result A × Db)
        (o : Option A)
        → NoFault
        → ((a : A) → Reads t (f a) (g a))
        → p.1.tables ≡ t
        → ((a : A) → o ≡ some a → p.0 ≡ ok a)
        → bind_found o g ≡ some b
        → (after f p).0 ≡ ok b
    after_succeeds f p none safe k left read h = cc
    after_succeeds f (ok a', s) (some a) safe k left read h =
        ap (λ x. (f x s).0) (ok_eq (read a refl)) ∙ (k a).succeeds safe s left h
    after_succeeds f (err e, s) (some a) safe k left read h = cc (read a refl)

    pub Reads-bind :
        {B : Type 0} {g : A → Option B} {o : Option A} {m : Action Db A} (f : A → Action Db B)
        → Reads t m o
        → ((a : A) → Reads t (f a) (g a))
        → Reads t (m >>= f) (bind_found o g)
    Reads-bind {o} {m} f r k = record {
      leaves = λ db e. after_leaves f (m db) k (r.leaves db e);
      answers = λ db e. after_answers f (m db) k (r.leaves db e) (λ a. r.answers db e);
      succeeds =
          λ safe db e. after_succeeds f (m db) o safe k (r.leaves db e) (λ a. r.succeeds safe db e);
    }

    pub Reads-map_error :
        {o : Option A} (g : Error → Error) {m : Action Db A}
        → Reads t m o
        → Reads t (map_error g m) o
    Reads-map_error g {m} r = record {
      leaves = λ db e. with_error_keeps (λ (d : Db). d.tables ≡ t) g (m db) (r.leaves db e);
      answers = λ db {a} e h. r.answers db e ((with_error_result g (m db) a).0 h);
      succeeds = λ safe db {a} e h. (with_error_result g (m db) a).1 (r.succeeds safe db e h);
    }

    pub Reads-query_row : (f : Tables → Option A) → Reads t (query_row E f) (f t)
    Reads-query_row f = record {
      leaves = λ db e.
          attempt_keeps (λ x. x ≡ t) (E.fault db.clock) (scan (f db.tables), db.tables) db e e;
      answers = λ db {a} e h.
          ap f (sym e)
          ∙ (scan_result (f db.tables) a).0
              (attempt_answer (E.fault db.clock) (scan (f db.tables), db.tables) db h);
      succeeds = λ safe db {a} e h.
          ap (λ o. (attempt o (scan (f db.tables), db.tables) db).0) (safe db.clock)
          ∙ (scan_result (f db.tables) a).1 (ap f e ∙ h);
    }

  pub Reads-guard : {t : Tables} (b : Bool) (e : Error) → Reads t (guard b e) (found_if b)
  Reads-guard true e = record {
    leaves = λ db h. h;
    answers = λ db h r. refl;
    succeeds = λ safe db h r. refl;
  }
  Reads-guard false e = record {
    leaves = λ db h. h;
    answers = λ db h r. cc;
    succeeds = λ safe db h r. cc;
  }
