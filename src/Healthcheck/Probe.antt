-- ===== src/Healthcheck/Probe.antt =====
-- The probes of internal/healthcheck/healthcheck.go, the job that HandleHealthCheck makes of them, and
-- the tick of Start, which queues the items that are due.
pub mod Checked
use z.Prelude.{
  ℕ, ◌-◌, String, str_eq, Name, txt, Bool, true, false, ◌||◌, ◌&&◌, ◌==◌, ltb, is_empty, Option,
  none, some, List, [], ◌∷◌, ◌++◌, if◌then◌else◌,
}
use z.Prelude.Int.{ℤ}
use z.Healthcheck.{HealthCheckItem, handle_health_check}
use z.Healthcheck.Stats.{ItemCodec, get_healthcheck_item, set_healthcheck_item}
use z.Hiredis.{Result, ok, err, Redigo, Config}

-- A result, or the text of an error.
pub data Attempt (A : Type 0) : Type 0 where
  got : A → Attempt A
  failed : String → Attempt A

-- The HTTP client, with the status code of a HEAD request to a URL for a host, and the ICMP library:
-- ListenPacket, the echo message, WriteTo, ReadFrom, and whether what was read is an echo reply; and what
-- fmt.Sprintf writes of a status code and of a reply.
pub record Net : Type 1 where
  pub World : Type 0
  pub head : Name → Name → ℤ → World → Attempt ℕ × World
  pub listen : ℤ → World → Option String × World
  pub echo : String → Attempt Name
  pub write_to : String → Name → World → Option String × World
  pub read_from : World → Attempt Name × World
  pub is_reply : Name → Attempt Bool
  pub status_text : ℕ → String
  pub reply_text : Name → String

-- `strings.TrimRight(host, ".")`
unfoldable pub trim_right_dots : Name → Name
trim_right_dots [] = []
trim_right_dots (c ∷ rest) =
    let kept = trim_right_dots rest in if is_empty kept && c == b'.' then [] else c ∷ kept

module _ (N : Net) where
  -- The switch on the status code.
  abbrev pub accept_status : Attempt ℕ → Option String
  accept_status (failed e) = some e
  accept_status (got code) =
      if code == 200 || code == 302 || code == 301 then none else some (N.status_text code)

  unfoldable pub http_check : Name → String → ℤ → N.World → Option String × N.World
  unfolding trim_right_dots
  http_check url host timeout w =
      let (out, w') = N.head url (trim_right_dots (txt host)) timeout w in (accept_status out, w')

  -- What follows ReadFrom, WriteTo, Marshal and ListenPacket.
  abbrev pub accept_reply : Name → Attempt Bool → Option String
  accept_reply rb (failed e) = some e
  accept_reply rb (got true) = none
  accept_reply rb (got false) = some (N.reply_text rb)

  abbrev pub with_reply : Attempt Name × N.World → Option String × N.World
  with_reply (failed e, w) = (some e, w)
  with_reply (got rb, w) = (accept_reply rb (N.is_reply rb), w)

  abbrev pub when_sent : Option String × N.World → Option String × N.World
  when_sent (some e, w) = (some e, w)
  when_sent (none, w) = with_reply (N.read_from w)

  abbrev pub with_message : String → N.World → Attempt Name → Option String × N.World
  with_message ip w (failed e) = (some e, w)
  with_message ip w (got wb) = when_sent (N.write_to ip wb w)

  abbrev pub when_listening : String → Option String × N.World → Option String × N.World
  when_listening ip (some e, w) = (some e, w)
  when_listening ip (none, w) = with_message ip w (N.echo ip)

  unfoldable pub ping_check : String → ℤ → N.World → Option String × N.World
  ping_check ip timeout w = when_listening ip (N.listen timeout w)

  -- The switch on the protocol; an unknown one is logged, and leaves err nil.
  unfoldable pub probe : HealthCheckItem → N.World → Option String × N.World
  unfolding http_check ping_check
  probe item w =
      if str_eq item.protocol "http" || str_eq item.protocol "https"
      then http_check (txt item.protocol ++ (txt "://" ++ (txt item.ip ++ txt item.uri))) item.host
          item.timeout w
      else if str_eq item.protocol "ping" || str_eq item.protocol "icmp"
      then ping_check item.ip item.timeout w
      else (none, w)

  module _ (R : Redigo) (J : ItemCodec) (config : Config) where
    -- HandleHealthCheck, at time `now`; the error of the write is dropped.
    unfoldable pub handle_job : HealthCheckItem → ℕ → N.World × R.Server → N.World × R.Server
    unfolding probe
    handle_job item now (w, s) =
        let (out, w') = probe item w in
        (w', (set_healthcheck_item R J config (handle_health_check out now item) s).1)

-- The loop of Start over the keys of the active items; `now` is time.Now at each item.
module _ (R : Redigo) (J : ItemCodec) (config : Config) (interval : ℕ) (now : Name → ℕ) where
  abbrev pub queue_due : Name → Result HealthCheckItem → List HealthCheckItem → List HealthCheckItem
  queue_due key (err e) later = later
  queue_due key (ok item) later =
      if ltb interval (now key - item.last_check) then item ∷ later else later

  unfoldable pub due : List Name → R.Server → List HealthCheckItem × R.Server
  due [] s = ([], s)
  due (key ∷ keys) s =
      let (item, s') = get_healthcheck_item R J config key s in
      let (later, s'') = due keys s' in (queue_due key item later, s'')
