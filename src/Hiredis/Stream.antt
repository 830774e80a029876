-- ===== src/Hiredis/Stream.antt =====
-- XAdd and XRead of pkg/hiredis/hiredis.go.
use z.Prelude.{Name, txt, List, [], ◌∷◌, is_empty, if◌then◌else◌}
use z.Hiredis.{Result, ok, text, Redigo, Config, Command, and_then, at_index, send, stored_key}

pub record StreamItem : Type 0 where
  pub id : Name
  pub key : Name
  pub value : Name

module _ (R : Redigo) where
  -- The body of XRead's loop, and the loop.
  unfoldable pub read_item : R.Reply → Result StreamItem
  read_item value = and_then (R.values_of value) (λ item. and_then (at_index item 0) (λ first.
      and_then (R.string_of first) (λ id. and_then (at_index item 1) (λ second.
        and_then (R.strings_of second) (λ kv. and_then (at_index kv 0) (λ key.
          and_then (at_index kv 1)
            (λ value. ok (record { id = id; key = key; value = value }))))))))

  unfoldable pub read_items : List R.Reply → Result (List StreamItem)
  unfolding read_item
  read_items [] = ok []
  read_items (value ∷ values) =
      and_then (read_item value) (λ item. and_then (read_items values) (λ items. ok (item ∷ items)))

  module _ (config : Config) where
    unfoldable pub x_add : Name → StreamItem → Command R Name
    x_add stream kv =
        send R
          (text (txt "XADD")
            ∷ text (stored_key R config stream)
            ∷ text (if is_empty kv.id then txt "*" else kv.id)
            ∷ text kv.key
            ∷ text kv.value
            ∷ [])
          R.string_of

    unfoldable pub x_read : Name → Name → Command R (List StreamItem)
    unfolding read_items
    x_read stream_id last_id =
        send R
          (text (txt "XREAD")
            ∷ text (txt "BLOCK")
            ∷ text (txt "0")
            ∷ text (txt "STREAMS")
            ∷ text (stored_key R config stream_id)
            ∷ text (if is_empty last_id then txt "$" else last_id)
            ∷ [])
          (λ reply. and_then (R.values_of reply) (λ streams. and_then (at_index streams 0) (λ first.
            and_then (R.values_of first) (λ stream.
              and_then (at_index stream 1) (λ second. and_then (R.values_of second) read_items)))))
