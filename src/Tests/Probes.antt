-- ===== src/Tests/Probes.antt =====
-- The theorem of Healthcheck/Probe for an item whose server answers with an error.
use z.Prelude.{txt, refl, true, none, [], ◌∷◌, ◌≡◌}
use z.Prelude.Int.{pos, ◌+ℤ◌, ◌-ℤ◌}
use z.Healthcheck.{HealthCheckItem, handle_health_check}
use z.Healthcheck.Stats.{item_key, get_healthcheck_item}
use z.Healthcheck.Probe.{Net, got, probe, handle_job}
use z.Healthcheck.Probe.Checked.{moved, is_answered, head_answer, handle_job-http}
use z.Hiredis.{ok}
use z.Tests.Redis.{Reply, server, values, config}
use z.Tests.Items.{item_codec, item_with, leaves}

abbrev net : Net
net = record {
  World = Unit {0};
  head = λ url host timeout w. (got 500, w);
  listen = λ timeout w. (none, w);
  echo = λ ip. got [];
  write_to = λ ip message w. (none, w);
  read_from = λ w. (got [], w);
  is_reply = λ message. got true;
  status_text = λ code. "invalid http status code";
  reply_text = λ message. "want echo reply";
}

-- An item that is up once, and is checked in vain.
abbrev item : HealthCheckItem
item = item_with (pos 1)

written : item_codec.marshal (handle_health_check (probe net item tt).0 0 item) ≡ ok (100 ∷ [])
unfolding handle_health_check probe ◌+ℤ◌ ◌-ℤ◌
written = refl

read_back :
    item_codec.unmarshal (100 ∷ [])
    ≡ record (handle_health_check (probe net item tt).0 0 item) { err = none }
unfolding handle_health_check probe ◌+ℤ◌ ◌-ℤ◌
read_back = refl

handle_job-http_example :
    ((get_healthcheck_item server item_codec config
        (item_key item)
        (handle_job net server item_codec config item 0 (tt, [])).1).0
      ≡ ok (record (handle_health_check (probe net item tt).0 0 item) { err = none }))
    × ((record (handle_health_check (probe net item tt).0 0 item) { err = none }).status
        ≡ moved (is_answered net (head_answer net item tt)) item)
handle_job-http_example =
    handle_job-http net server values leaves item_codec config item 0 tt [] (100 ∷ []) refl refl
      refl (λ s. (Reply.bulk (txt "OK"), refl)) written read_back
