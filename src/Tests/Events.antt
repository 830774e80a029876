-- ===== src/Tests/Events.antt =====
-- The theorems on the events of redis, for a server without a connection and for one zone that is added.
use z.Prelude.{Name, txt, ◌≤◌, ◌≡◌, ◌≢◌, ◌↔◌, refl, false, true, none, some, List, [], ◌∷◌, ◌++◌}
use z.Prelude.Int.{pos}
use z.Types.Sets.{RrSet}
use z.Hiredis.{no_connection, stored_key}
use z.Hiredis.Subscription.{leaving, Watcher, channel_prefix}
use z.Hiredis.Subscription
use z.Hiredis.Subscription.Ends.{pending, CanReturn, leaving-CanReturn}
use z.Healthcheck.Stats.{get_health_status}
use z.Healthcheck.Events.{told, get_health_status-told}
use z.Healthcheck.{HealthCheckItem}
use z.Storage.Events.{Caches, on_event, zone_config, entry_key}
use z.Storage.Invalidated.{Dropped, on_event-Dropped}
use z.Storage.{find_zone, load_zones, insert_zones}
use z.Zone.{reverse_name}
use z.Storage.Zones.{Closest}
use z.Storage.Updater.{Updater, updater}
use z.Storage.Updater
use z.Storage.Updater.Current.{find_zone-current}
use z.Tests.Caches.{cache_of, drops}
use z.Tests.Records.{codec, settings}
use z.Tests.Redis.{server, config}
use z.Tests.Items.{item_codec, item_with}
use z.Tests.Tree.{assoc_radix}
use z.Radix.{Radix}

-- `quit` comes before the connection.
abbrev left : Watcher
left = record {
  place = leaving;
  subscribed = false;
  receivers = [];
  done = [];
  calls = Subscription.on_error no_connection ∷ [];
}

leaves : Subscription.Run config (txt "0") (Subscription.start (some no_connection)) left
unfolding Subscription.start
leaves = Subscription.Run.next Subscription.Run.here (Subscription.Step.quit refl)

leaving-CanReturn_example :
    (pending left ≤ 1) × (CanReturn config (txt "0") left ↔ (pending left ≢ 0))
leaving-CanReturn_example = leaving-CanReturn config (txt "0") (some no_connection) leaves refl

abbrev held : Caches (cache_of RrSet) (cache_of Name)
held = record { records = []; zones = (txt "z.", txt "a zone") ∷ [] }

on_event-Dropped_example :
    Dropped
      (cache_of RrSet)
      (cache_of Name)
      (drops RrSet)
      (drops Name)
      false
      (entry_key codec.type_to_string (zone_config (txt "z.")))
      (txt "z.")
      held
      (on_event
        (cache_of RrSet)
        (cache_of Name)
        settings
        (txt "0")
        (channel_prefix (txt "0")
          ++ stored_key server config (entry_key codec.type_to_string (zone_config (txt "z."))))
        held)
on_event-Dropped_example =
    on_event-Dropped (cache_of RrSet) (cache_of Name) (drops RrSet) (drops Name) server settings
      (txt "0") codec.type_to_string (zone_config (txt "z.")) held refl

abbrev statuses : List (Name × HealthCheckItem)
statuses = (txt "alpha.z.:1.2.3.4", item_with (pos 3)) ∷ []

-- The first letter of the host is in the cut set, and the old status stays.
get_health_status-told_example :
    (get_health_status server item_codec config
      (cache_of HealthCheckItem)
      (txt "alpha.z.")
      (txt "1.2.3.4")
      (told server item_codec config
        (cache_of HealthCheckItem)
        (drops HealthCheckItem)
        (txt "0")
        (txt "alpha.z.:1.2.3.4")
        statuses)
      []).0
    ≡ (get_health_status server item_codec config
        (cache_of HealthCheckItem)
        (txt "alpha.z.")
        (txt "1.2.3.4")
        statuses
        []).0
get_health_status-told_example =
    get_health_status-told server item_codec config (cache_of HealthCheckItem)
      (drops HealthCheckItem) b'a' (txt "lpha.z.") (txt "1.2.3.4") (txt "0") statuses []

abbrev zone_tree : Radix Name
zone_tree = assoc_radix Name

abbrev added : List Name
added = txt "z." ∷ []

abbrev fresh : Updater zone_tree
fresh = record {
  members = added;
  connected = true;
  subscribed = true;
  starting = false;
  events = 0;
  modified = false;
  loading = none;
  zones = (txt ".z.", txt "z.") ∷ [];
  mishaps = 0;
}

-- The zone is added once the loop has subscribed.
loads : Updater.Run zone_tree (updater zone_tree [] (some [])) fresh
unfolding updater Updater.set_modified Updater.load load_zones insert_zones reverse_name
loads =
    Updater.Run.next
      (Updater.Run.next
        (Updater.Run.next
          (Updater.Run.next
            (Updater.Run.next
              (Updater.Run.next (Updater.Run.next Updater.Run.here (Updater.Step.connect refl))
                (Updater.Step.subscribe refl refl))
              (Updater.Step.on_start refl))
            (Updater.Step.change added refl))
          (Updater.Step.on_message 0 refl))
        (Updater.Step.reload refl refl))
      (Updater.Step.loaded (some added) refl)

find_zone-current_example :
    Closest zone_tree added (txt "a.z.") (find_zone zone_tree (txt "a.z.") fresh.zones)
find_zone-current_example =
    find_zone-current zone_tree [] (some []) fresh (txt "a.z.") loads
      (record { no_mishap = refl; is_connected = refl; has_started = refl; no_event = refl }) refl
      refl
