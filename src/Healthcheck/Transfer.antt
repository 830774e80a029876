-- ===== src/Healthcheck/Transfer.antt =====
-- Transfer of internal/healthcheck/healthcheck.go: the items of the addresses of record sets, with
-- their configuration brought up to date in redis. Its endless loops over zones and locations, which a
-- ticker slows down, run this for the sets of each location.
use z.Prelude.{ℕ, String, str_eq, Bool, not, ◌&&◌, List, [], ◌∷◌, map, Option, if◌then◌else◌}
use z.Prelude.Int.{ℤ, pos, ltb_ℤ}
use z.Types.Rr.{Ip}
use z.Types.Sets.{IpRrSet, IpRr, IpHealthCheckConfig}
use z.Healthcheck.{HealthCheckItem}
use z.Healthcheck.Stats.{
  ItemCodec, item_key, get_healthcheck_item, set_healthcheck_item, set_healthcheck_item_expiration,
}
use z.Hiredis.{Result, ok, err, Redigo, Config}

abbrev pub eq_ℤ : ℤ → ℤ → Bool
eq_ℤ a b = not (ltb_ℤ a b) && not (ltb_ℤ b a)

abbrev pub eq_flag : Bool → Bool → Bool
eq_flag a b = if a then b else not b

-- itemsEqual, on items that are not nil
unfoldable pub items_equal : HealthCheckItem → HealthCheckItem → Bool
items_equal a b =
    str_eq a.ip b.ip
    && (str_eq a.uri b.uri
        && (eq_ℤ a.port b.port
            && (str_eq a.protocol b.protocol
                && (eq_flag a.enable b.enable
                    && (eq_ℤ a.up_count b.up_count
                        && (eq_ℤ a.down_count b.down_count && eq_ℤ a.timeout b.timeout))))))

-- The literal of `newItem`
unfoldable pub new_item : String → String → IpHealthCheckConfig → String → HealthCheckItem
new_item fqdn domain_id config ip = record {
  protocol = config.protocol;
  uri = config.uri;
  port = config.port;
  status = pos 0;
  last_check = 0;
  timeout = config.timeout;
  up_count = config.up_count;
  down_count = config.down_count;
  enable = config.enable;
  domain_id = domain_id;
  host = fqdn;
  ip = ip;
  err = Option.none;
}

module _ (R : Redigo) (J : ItemCodec) (config : Config) (update_interval : ℕ) where
  -- What follows the read of the old item.
  unfoldable pub refresh : HealthCheckItem → Result HealthCheckItem × R.Server → R.Server
  refresh new (err e, s) = (set_healthcheck_item R J config new s).1
  refresh new (ok old, s) =
      let written = (set_healthcheck_item R J config new s).1 in
      if items_equal old new then s else written

  unfoldable pub transfer_item : HealthCheckItem → R.Server → R.Server
  unfolding refresh
  transfer_item new s =
      let s' = refresh new (get_healthcheck_item R J config (item_key new) s) in
      (set_healthcheck_item_expiration R J config (item_key new) update_interval s').1

  unfoldable pub transfer_items : List HealthCheckItem → R.Server → R.Server
  unfolding transfer_item
  transfer_items [] s = s
  transfer_items (new ∷ rest) s = transfer_items rest (transfer_item new s)

  -- The loop over the sets of a location; `ip_string` is net.IP.String.
  unfoldable pub transfer_sets :
      (Ip → String) → String → String → List IpRrSet → R.Server → R.Server
  unfolding transfer_items new_item
  transfer_sets ip_string fqdn domain_id [] s = s
  transfer_sets ip_string fqdn domain_id (rrset ∷ rest) s =
      let items : List HealthCheckItem =
        map (λ (rr : IpRr). new_item fqdn domain_id rrset.health_check_config (ip_string rr.ip))
          rrset.data_list in
      let moved = transfer_items items s in
      transfer_sets ip_string fqdn domain_id rest
        (if rrset.health_check_config.enable then moved else s)
