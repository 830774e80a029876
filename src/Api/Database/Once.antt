-- ===== src/Api/Database/Once.antt =====
-- The verification codes of internal/api/database: a code works once.
use z.Prelude.{
  ℕ, Name, txt, same, ◌≡◌, refl, ap, ◌∙◌, Bool, not, Bool-cases, inl, inr, none, Option-cases, List,
  [], ◌∷◌,
}
use z.Api.Action.{ok, err, Action, guard, map_error, parse_error, no_rows, other}
use z.Api.Rows.{Verification, Tables, count_rows, find_row, keep_rows}
use z.Api.Database.Stops.{IsRefused, bind-IsRefused, map_error-IsRefused}
use z.Api.Database.Outcomes.{ends_well, with_error_ok, statement_ok}
use z.Api.Database.{
  Engine, Db, attempt, statement, exec, verification_row, activate, drop_verification, verify,
}

find_row-keep_rows :
    {A : Type 0} (p : A → Bool) (l : List A) → find_row p (keep_rows (λ x. not (p x)) l) ≡ none
find_row-keep_rows p [] = refl
find_row-keep_rows p (x ∷ l) = elim (Bool-cases (p x)) [
  | inl hit ↦ rw (hit) (find_row-keep_rows p l)
  | inr miss ↦ rw (miss) (rw (miss) (find_row-keep_rows p l))
]

-- The code is not in the table.
abbrev pub IsSpent : Engine → Name → Tables → Type 0
IsSpent E code t = find_row (λ v. E.alike v.code code) t.verifications ≡ none

module _ (E : Engine) (code : Name) where
  abbrev count_activated : Verification → Tables → ℕ
  count_activated v t = count_rows (λ u. same u.id v.user_id) t.users

  abbrev count_codes : Tables → ℕ
  count_codes t = count_rows (λ w. E.alike w.code code) t.verifications

  abbrev Spent : Db → Type 0
  Spent db = IsSpent E code db.tables

  -- A verification that succeeds removes the code.
  verify-IsSpent :
      (db : Db) → (verify E code db).0 ≡ ok tt → IsSpent E code (verify E code db).1.tables
  unfolding verify drop_verification
  verify-IsSpent db h =
      ends_well Spent _
        (map_error parse_error (statement E (λ t. (verification_row E code t, t))) db) h
        (λ v db1 found h1.
          ends_well Spent _
            (guard (same v.kind (txt "signup")) (other (txt "unknown verification type")) db1) h1
            (λ _ db2 kind h2.
              ends_well Spent _
                (map_error parse_error (exec E (count_activated v) (activate E v.user_id)) db2) h2
                (λ _ db3 active h3.
                  ends_well Spent _
                    (map_error parse_error (exec E count_codes (drop_verification E code)) db3) h3
                    (λ n db4 dropped h4.
                      let (ran, left) =
                        statement_ok E (λ t. (ok (count_codes t), drop_verification E code t)) db3
                          db4 (with_error_ok parse_error _ dropped) in
                      ap (λ t. find_row (λ v. E.alike v.code code) t.verifications) left
                      ∙ find_row-keep_rows (λ v. E.alike v.code code) db3.tables.verifications))))

  abbrev look_up : Action Db Verification
  look_up = statement E (λ t. (verification_row E code t, t))

  look_up-IsRefused : (db : Db) → IsSpent E code db.tables → IsRefused look_up db
  unfolding verification_row
  look_up-IsRefused db gone =
      let row : verification_row E code db.tables ≡ err no_rows =
        rw (gone, verification_row) refl in
      elim (Option-cases (E.fault db.clock)) [
        | inr (e, fails) ↦
            let out = ap (λ o. attempt o (verification_row E code db.tables, db.tables) db) fails in
            (e, ap (λ p. p.0) out, ap (λ p. p.1.tables) out)
        | inl runs ↦
            let out = ap (λ o. attempt o (verification_row E code db.tables, db.tables) db) runs in
            (no_rows, ap (λ p. p.0) out ∙ row, ap (λ p. p.1.tables) out)
      ]

  -- If Verify succeeds with a code, then Verify of the same code right after it fails and leaves
  -- the tables as they were.
  pub verify_once :
      (db : Db) → (verify E code db).0 ≡ ok tt → IsRefused (verify E code) (verify E code db).1
  unfolding verify
  verify_once db h = bind-IsRefused (map_error parse_error look_up) _ (verify E code db).1 (
      map_error-IsRefused parse_error look_up (verify E code db).1
        (look_up-IsRefused (verify E code db).1 (verify-IsSpent db h)))
