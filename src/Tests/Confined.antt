-- ===== src/Tests/Confined.antt =====
-- Two users with a zone each: what one of them calls leaves the other's zone.
use z.Prelude.{Name, txt, same_iff, ◌≡◌, refl, sym, ◌∙◌, true, false, List, [], ◌∷◌}
use z.Api.Rows.{Zone}
use z.Api.Database.{Db, user_row}
use z.Api.Database.Refusal.{Call, create_location, remove_zone}
use z.Api.Integrity.{IsSound}
use z.Api.Isolated.Calls.{IsCollation}
use z.Api.Isolated.Content.{SameContent}
use z.Api.Isolated.Confined.{run_as, run_as-SameContent, owns_zone}
use z.Tests.Accounts.{engine, stored, alice, bob, example_zone}

engine-IsCollation : IsCollation engine
engine-IsCollation = record {
  symmetric = λ a b h. (same_iff b a).1 (sym ((same_iff a b).0 h));
  transitive = λ a b c h k. (same_iff a c).1 ((same_iff a b).0 h ∙ (same_iff b c).0 k);
}

abbrev bob_zone : Zone
bob_zone = record {
  id = 4 ∷ [];
  name = txt "bob.org.";
  enabled = true;
  dnssec = false;
  cname_flattening = false;
}

-- Alice has example.com. and its location www, and Bob has bob.org.
abbrev two_owners : Db
two_owners = record {
  tables = record stored.tables {
    zones =
        record { row = example_zone; parent = alice.id }
        ∷ record { row = bob_zone; parent = bob.id }
        ∷ [];
    locations =
        record { row = record { id = 5 ∷ []; name = txt "www"; enabled = true }; parent = 3 ∷ [] }
        ∷ [];
  };
  clock = 9;
}

two_owners-IsSound : IsSound engine.alike two_owners.tables
two_owners-IsSound = record {
  unique_users = (refl, (refl, tt));
  unique_zones = (refl, (refl, tt));
  unique_locations = (refl, tt);
  unique_record_sets = tt;
  unique_verifications = (refl, tt);
  zones_owned = (refl, (refl, tt));
  locations_placed = (refl, tt);
  record_sets_placed = tt;
  verifications_owned = (refl, tt);
}

abbrev calls : List (Name × Call)
calls =
    (txt "bob.org.", create_location (record { id = []; name = txt "www"; enabled = true }))
    ∷ (txt "example.com.", remove_zone)
    ∷ (txt "bob.org.", remove_zone)
    ∷ []

not_bobs : owns_zone engine (txt "bob") (3 ∷ []) two_owners.tables ≡ false
unfolding user_row
not_bobs = refl

run_as-SameContent_example :
    SameContent (3 ∷ []) two_owners.tables (run_as engine (txt "bob") calls two_owners).tables
run_as-SameContent_example =
    run_as-SameContent engine engine-IsCollation (txt "bob") (3 ∷ []) calls two_owners
      two_owners-IsSound not_bobs
