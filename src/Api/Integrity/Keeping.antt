-- ===== src/Api/Integrity/Keeping.antt =====
-- What keeps the unique and the foreign keys, put together: the rules for the actions of
-- internal/api/database.
use z.Prelude.{ℕ, Bool, true, false, if◌then◌else◌}
use z.Api.Action.{Error, Result, ok, Action, pure, raise, ◌>>=◌, ◌>>◌, guard, map_error}
use z.Api.Rows.{Tables}
use z.Api.Database.{Engine, Db, statement, exec}
use z.Api.Database.Outcomes.{after_keeps, with_error_keeps, attempt_keeps}
use z.Api.Integrity.{IsSound}

module _ (E : Engine) where
  -- The action leaves sound tables sound.
  pub record Keeps {A : Type 0} (m : Action Db A) : Type 0 where
    pub keep : (db : Db) → IsSound E.alike db.tables → IsSound E.alike (m db).1.tables

  pub pure-Keeps : {A : Type 0} (a : A) → Keeps (pure a)
  pure-Keeps a = record { keep = λ db h. h }

  pub raise-Keeps : {A : Type 0} (e : Error) → Keeps (raise {A = A} e)
  raise-Keeps e = record { keep = λ db h. h }

  pub guard-Keeps : (b : Bool) (e : Error) → Keeps (guard b e)
  guard-Keeps b e = record { keep = λ db h. h }

  -- What does not touch the tables.
  pub outcome-Keeps : {A : Type 0} (r : Db → Result A) → Keeps (λ db. (r db, db))
  outcome-Keeps r = record { keep = λ db h. h }

  pub bind-Keeps :
      {A B : Type 0} (m : Action Db A) (f : A → Action Db B)
      → Keeps m
      → ((a : A) → Keeps (f a))
      → Keeps (m >>= f)
  bind-Keeps m f hm hf = record {
    keep = λ db h.
        after_keeps (λ (d : Db). IsSound E.alike d.tables) f (m db) (hm.keep db h)
          (λ a s. (hf a).keep s);
  }

  pub then-Keeps :
      {B : Type 0} (m : Action Db (Unit {0})) (k : Action Db B) → Keeps m → Keeps k → Keeps (m >> k)
  then-Keeps m k hm hk = bind-Keeps m (λ _. k) hm (λ _. hk)

  pub map_error-Keeps :
      {A : Type 0} (f : Error → Error) (m : Action Db A) → Keeps m → Keeps (map_error f m)
  map_error-Keeps f m hm = record {
    keep = λ db h. with_error_keeps (λ (d : Db). IsSound E.alike d.tables) f (m db) (hm.keep db h);
  }

  pub statement-Keeps :
      {A : Type 0} (f : Tables → Result A × Tables)
      → ((t : Tables) → IsSound E.alike t → IsSound E.alike (f t).1)
      → Keeps (statement E f)
  statement-Keeps f hf = record {
    keep = λ db h.
        attempt_keeps (IsSound E.alike) (E.fault db.clock) (f db.tables) db h (hf db.tables h);
  }

  pub read-Keeps : {A : Type 0} (f : Tables → Result A) → Keeps (statement E (λ t. (f t, t)))
  read-Keeps f = statement-Keeps (λ t. (f t, t)) (λ t h. h)

  pub exec-Keeps :
      (count : Tables → ℕ) (f : Tables → Tables)
      → ((t : Tables) → IsSound E.alike t → IsSound E.alike (f t))
      → Keeps (exec E count f)
  exec-Keeps count f hf = statement-Keeps (λ t. (ok (count t), f t)) hf

  pub if_Keeps :
      {A : Type 0} (b : Bool) (m k : Action Db A) → Keeps m → Keeps k → Keeps (if b then m else k)
  if_Keeps true m k hm hk = hm
  if_Keeps false m k hm hk = hk

  pub ruleset keeping = (
    pure-Keeps, raise-Keeps, guard-Keeps, outcome-Keeps, bind-Keeps, then-Keeps, map_error-Keeps,
    read-Keeps, if_Keeps,
  )
