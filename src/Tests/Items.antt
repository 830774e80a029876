-- ===== src/Tests/Items.antt =====
-- The theorem of Healthcheck on Transfer, over the server of Tests/Redis: an item that has come up
-- keeps its status.
use z.Prelude.{
  ltb, if◌then◌else◌, ◌+◌, ◌-◌, ℕ, Name, txt, true, ◌≡◌, refl, arith, none, List, [], ◌∷◌, ◌++◌,
}
use z.Prelude.Int.{ℤ, pos, negsuc}
use z.Healthcheck.{HealthCheckItem}
use z.Healthcheck.Stats.{ItemCodec, item_key, add_prefix, get_healthcheck_item}
use z.Healthcheck.Transfer.{transfer_item}
use z.Healthcheck.Kept.{IsKept}
use z.Healthcheck.Refreshed.{LeavesValues, transfer_item-IsKept}
use z.Hiredis.{ok}
use z.Tests.Redis.{Reply, server, values, config}

abbrev pub leaves : LeavesValues server values
leaves = record { after_get = λ key other s. refl; after_expire = λ key other n s h. refl }

abbrev pub item_with : ℤ → HealthCheckItem
item_with status = record {
  protocol = "http";
  uri = "/up";
  port = pos 80;
  status = status;
  last_check = 0;
  timeout = pos 1000;
  up_count = pos 3;
  down_count = negsuc 2;
  enable = true;
  domain_id = "d";
  host = "www.z.";
  ip = "1.2.3.4";
  err = none;
}

-- The status alone is written, a negative one from 100 on.
abbrev pub digit : ℤ → ℕ
digit (pos n) = n
digit (negsuc n) = 100 + n

abbrev pub status_of : Name → ℤ
status_of [] = pos 0
status_of (n ∷ rest) = if ltb n 100 then pos n else negsuc (n - 100)

abbrev pub item_codec : ItemCodec
item_codec = record {
  marshal = λ item. ok (digit item.status ∷ []);
  unmarshal = λ json. item_with (status_of json);
}

abbrev new : HealthCheckItem
new = item_with (pos 0)

abbrev up : List (Name × Name)
up = (txt "p:" ++ add_prefix (item_key new), 3 ∷ []) ∷ []

transfer_item-IsKept_example :
    (item : HealthCheckItem) × ((get_healthcheck_item server item_codec config
        (item_key new)
        (transfer_item server item_codec config 60000000000 new up)).0
      ≡ ok item)
    × IsKept new (get_healthcheck_item server item_codec config (item_key new) up).0 item
transfer_item-IsKept_example =
    transfer_item-IsKept server values leaves item_codec config 60000000000 new (0 ∷ []) refl refl
      refl (λ s. (Reply.bulk (txt "OK"), refl)) up (ground arith) refl
