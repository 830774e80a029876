-- ===== src/Api/Database/Stops.antt =====
-- Actions of internal/api/database that end with an error and change no table.
use z.Prelude.{◌≡◌, refl, ap, ◌∙◌, Bool, true, false, if◌then◌else◌}
use z.Api.Action.{
  Error, ok, err, Action, after, with_error, ◌>>=◌, ◌>>◌, guard, map_error, unauthorized,
}
use z.Api.Database.{Db}

-- The action ends with an error, and the tables are what they were.
abbrev pub IsRefused : {A : Type 0} → Action Db A → Db → Type 0
IsRefused m db = (e : Error) × ((m db).0 ≡ err e) × ((m db).1.tables ≡ db.tables)

module _ {A : Type 0} where
  pub bind-IsRefused :
      {B : Type 0} (m : Action Db A) (f : A → Action Db B) (db : Db)
      → IsRefused m db
      → IsRefused (m >>= f) db
  bind-IsRefused m f db (e, failed, kept) =
      let stops : m db ≡ (err e, (m db).1) = ap (λ r. (r, (m db).1)) failed in
      (e, ap (λ p. (after f p).0) stops, ap (λ p. (after f p).1.tables) stops ∙ kept)

  pub map_error-IsRefused :
      (g : Error → Error) (m : Action Db A) (db : Db)
      → IsRefused m db
      → IsRefused (map_error g m) db
  map_error-IsRefused g m db (e, failed, kept) =
      let stops : m db ≡ (err e, (m db).1) = ap (λ r. (r, (m db).1)) failed in
      (
        g e,
        ap (λ p. (with_error {S = Db} g p).0) stops,
        ap (λ p. (with_error {S = Db} g p).1.tables) stops ∙ kept,
      )

  pub guard-IsRefused :
      (b : Bool) (e : Error) (m : Action Db A) (db : Db)
      → IsRefused m db
      → IsRefused (guard b e >> m) db
  guard-IsRefused true e m db h = h
  guard-IsRefused false e m db h = (e, refl, refl)

  pub stop-IsRefused :
      {B : Type 0} (m : Action Db A) (f : A → Action Db B) (db db' : Db) (e : Error)
      → m db ≡ (err e, db')
      → db'.tables ≡ db.tables
      → IsRefused (m >>= f) db
  stop-IsRefused m f db db' e h kept =
      (e, ap (λ p. (after f p).0) h, ap (λ p. (after f p).1.tables) h ∙ kept)

  pub go_on-IsRefused :
      {B : Type 0} (m : Action Db A) (f : A → Action Db B) (db db' : Db) (a : A)
      → m db ≡ (ok a, db')
      → db'.tables ≡ db.tables
      → IsRefused (f a) db'
      → IsRefused (m >>= f) db
  go_on-IsRefused m f db db' a h kept (e, failed, kept') =
      (e, ap (λ p. (after f p).0) h ∙ failed, ap (λ p. (after f p).1.tables) h ∙ kept' ∙ kept)

pub guard-false-IsRefused : (b : Bool) (db : Db) → b ≡ false → IsRefused (guard b unauthorized) db
guard-false-IsRefused b db h =
    (unauthorized, ap (λ b. if b then ok tt else err unauthorized) h, refl)
