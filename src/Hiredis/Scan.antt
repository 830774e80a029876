-- ===== src/Hiredis/Scan.antt =====
-- The loops over a cursor of pkg/hiredis/hiredis.go: SCAN, HSCAN and SSCAN, until the cursor is "0"
-- again, and what is done with the keys that came.
use z.Prelude.{
  ℕ, zero, suc, Name, txt, same, Option, none, some, List, [], ◌∷◌, map, if◌then◌else◌, listed,
  trim_prefix, trim_suffix, is_empty,
}
use z.Hiredis.{
  Result, ok, err, no_connection, Arg, text, number, Redigo, Config, and_then, at_index, no_reply,
  stored_key,
}

-- `keySet[key] = nil`: the set as a list without repetition, the last key first.
abbrev pub insert_key : Name → List Name → List Name
insert_key key keys = if listed key keys then keys else key ∷ keys

abbrev pub insert_keys : List Name → List Name → List Name
insert_keys [] set = set
insert_keys (key ∷ keys) set = insert_keys keys (insert_key key set)

abbrev pub with_found : {A B : Type 0} → (A → B) → Option A → Option B
with_found f none = none
with_found f (some a) = some (f a)

module _ (R : Redigo) where
  -- One page: the cursor, and the keys by the conversion of the command.
  unfoldable pub read_page : (R.Reply → Result (List Name)) → R.Reply → Result (Name × List Name)
  read_page keys_of reply = and_then (R.values_of reply) (λ values.
      and_then (at_index values 0) (λ first. and_then (R.string_of first) (λ cursor.
        and_then (at_index values 1)
          (λ second. and_then (keys_of second) (λ keys. ok (cursor, keys))))))

  -- The rest of a turn of the loop, after the command; `more` is the next turn.
  unfoldable pub after_page :
      (R.Reply → Result (List Name))
      → List Name
      → (Name → List Name → R.Server → Option (Result (List Name)) × R.Server)
      → Result R.Reply × R.Server
      → Option (Result (List Name)) × R.Server
  unfolding read_page
  after_page keys_of key_set more (reply, s) = collect (and_then reply (read_page keys_of))
    where
      collect : Result (Name × List Name) → Option (Result (List Name)) × R.Server
      collect (err e) = (some (err e), s)
      collect (ok (cursor, keys)) =
          let next = more cursor (insert_keys keys key_set) s in
          if same cursor (txt "0") then (some (ok (insert_keys keys key_set)), s) else next

  -- The loop. `none` is the end of the fuel.
  unfoldable pub scan_pages :
      (Name → List Arg)
      → (R.Reply → Result (List Name))
      → ℕ
      → Name
      → List Name
      → R.Server
      → Option (Result (List Name)) × R.Server
  unfolding after_page
  scan_pages command keys_of zero cursor key_set s = (none, s)
  scan_pages command keys_of (suc fuel) cursor key_set s =
      after_page keys_of key_set
        (λ cursor key_set s. scan_pages command keys_of fuel cursor key_set s)
        (R.do_command (command cursor) s)

  abbrev pub trim : Config → Name → Name
  trim config key = trim_suffix (trim_prefix key config.prefix) config.suffix

  -- `order` is the order of Go's range over the map keySet.
  module _ (config : Config) (order : List Name → List Name) where
    abbrev pub connected_scan :
        (Name → List Arg)
        → (R.Reply → Result (List Name))
        → (List Name → List Name)
        → ℕ
        → R.Server
        → Option (Result (List Name)) × R.Server
    connected_scan command keys_of finish fuel s =
        let (found, s') = scan_pages command keys_of fuel (txt "0") [] s in
        if R.connected s
        then (with_found (λ r. and_then r (λ keys. ok (finish (order keys)))) found, s')
        else (some (err no_connection), s)

    abbrev pub scan_command : Name → Name → List Arg
    scan_command pattern cursor =
        text (txt "SCAN")
        ∷ text cursor
        ∷ text (txt "MATCH")
        ∷ text (stored_key R config pattern)
        ∷ text (txt "COUNT")
        ∷ number 100
        ∷ []

    abbrev pub s_scan_command : Name → Name → List Arg
    s_scan_command set cursor =
        text (txt "SSCAN")
        ∷ text (stored_key R config set)
        ∷ text cursor
        ∷ text (txt "COUNT")
        ∷ number 100
        ∷ []

    unfoldable pub get_keys : Name → ℕ → R.Server → Option (Result (List Name)) × R.Server
    unfolding scan_pages
    get_keys pattern = connected_scan (scan_command pattern) R.strings_of (map (trim config))

    unfoldable pub get_h_keys : Name → ℕ → R.Server → Option (Result (List Name)) × R.Server
    unfolding scan_pages
    get_h_keys key =
        connected_scan
          (λ cursor.
            text (txt "HSCAN")
            ∷ text (stored_key R config key)
            ∷ text cursor
            ∷ text (txt "COUNT")
            ∷ number 100
            ∷ [])
          R.map_keys_of (λ keys. keys)

    unfoldable pub s_members : Name → ℕ → R.Server → Option (Result (List Name)) × R.Server
    unfolding scan_pages
    s_members set = connected_scan (s_scan_command set) R.strings_of (λ keys. keys)

    -- Del: of the keys that match the pattern.
    unfoldable pub del : Name → ℕ → R.Server → Option (Result (Unit {0})) × R.Server
    unfolding get_keys
    del pattern fuel s =
        if R.connected s
        then delete_found (get_keys pattern fuel s)
        else (some (err no_connection), s)
      where
        delete_found :
            Option (Result (List Name)) × R.Server → Option (Result (Unit {0})) × R.Server
        delete_found (none, s) = (none, s)
        delete_found (some (err e), s) = (some (err e), s)
        delete_found (some (ok keys), s) =
            let (reply, s') =
              R.do_command (text (txt "DEL") ∷ map (λ key. text (stored_key R config key)) keys)
                s in
            if is_empty keys then (some (ok tt), s) else (some (and_then reply (no_reply R)), s')
