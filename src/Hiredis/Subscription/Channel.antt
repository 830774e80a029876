-- ===== src/Hiredis/Subscription/Channel.antt =====
-- The channel of an event of SubscribeEvent names the key that has changed.
use z.Prelude.{Name, ◌≡◌, sym, ap, ◌∙◌, ◌++◌, append_assoc, trim_suffix, trim_prefix}
use z.Hiredis.{Redigo, Config, stored_key}
use z.Hiredis.Keys.{trim_prefix-append, trim_suffix-append}
use z.Hiredis.Subscription.{event_key, channel_prefix}

pub event_key-stored_key :
    (R : Redigo) (c : Config) (db key : Name)
    → event_key c db (channel_prefix db ++ stored_key R c key) ≡ key
unfolding event_key
event_key-stored_key R c db key =
    let joined : channel_prefix db ++ stored_key R c key
        ≡ (channel_prefix db ++ c.prefix) ++ (key ++ c.suffix) =
      ap (λ x. channel_prefix db ++ x) (append_assoc c.prefix key c.suffix)
      ∙ sym (append_assoc (channel_prefix db) c.prefix (key ++ c.suffix)) in
    ap (λ x. trim_suffix (trim_prefix x (channel_prefix db ++ c.prefix)) c.suffix) joined
    ∙ ap (λ x. trim_suffix x c.suffix)
        (trim_prefix-append (channel_prefix db ++ c.prefix) (key ++ c.suffix))
    ∙ trim_suffix-append key c.suffix
