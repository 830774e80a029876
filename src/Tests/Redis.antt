-- ===== src/Tests/Redis.antt =====
-- The theorems of Hiredis over a small server: its keys are listed in two pages that overlap.
use z.Prelude.{
  Name, txt, same, same_refl, ◌≡◌, refl, ap, true, Option, none, some, List, [], ◌∷◌, map, listed,
  if◌then◌else◌, arith,
}
use z.Hiredis.{Failure, Result, ok, err, failed, Arg, text, Redigo, Config, stored_key}
use z.Hiredis.Scan.{get_keys, scan_command, read_page}
use z.Hiredis.Members.{IsDistinct, Pages}
use z.Hiredis.Keys.{IsReordering, get_keys_lem}
use z.Hiredis.Values.{KeepsValues, answered}

pub data Reply : Type 0 where
  nil_reply : Reply
  bulk : Name → Reply
  bulks : List Name → Reply
  page : Name → List Name → Reply

abbrev no_type : Failure
no_type = failed (txt "unexpected type")

abbrev no_value : Failure
no_value = failed (txt "nil returned")

abbrev pub look_up : Name → List (Name × Name) → Option Name
look_up key [] = none
look_up key ((k, v) ∷ rest) = let later = look_up key rest in if same k key then some v else later

abbrev value_reply : Option Name → Reply
value_reply none = nil_reply
value_reply (some v) = bulk v

-- Two pages, the second from cursor 1 on.
abbrev pages : Name → Reply
pages cursor =
    if same cursor (txt "0")
    then page (txt "1") (txt "p:b" ∷ txt "p:a" ∷ [])
    else page (txt "0") (txt "p:a" ∷ [])

abbrev run : List Arg → List (Name × Name) → Result Reply × List (Name × Name)
run (text command ∷ text key ∷ []) s = (ok (value_reply (look_up key s)), s)
run (text command ∷ text key ∷ text value ∷ []) s = (ok (bulk (txt "OK")), (key, value) ∷ s)
run (text command ∷ text first ∷ text second ∷ rest) s =
    if same command (txt "SCAN")
    then (ok (pages first), s)
    else if same command (txt "XADD")
    then (ok (bulk (txt "1-0")), s)
    else (ok (pages second), s)
run _ s = (ok nil_reply, s)

abbrev as_name : Reply → Result Name
as_name (bulk v) = ok v
as_name nil_reply = err no_value
as_name _ = err no_type

abbrev as_names : Reply → Result (List Name)
as_names (bulks l) = ok l
as_names _ = err no_type

abbrev as_values : Reply → Result (List Reply)
as_values (page cursor keys) = ok (bulk cursor ∷ bulks keys ∷ [])
as_values _ = err no_type

abbrev pub server : Redigo
server = record {
  Server = List (Name × Name);
  Reply = Reply;
  connected = λ s. true;
  do_command = run;
  string_of = as_name;
  strings_of = as_names;
  values_of = as_values;
  map_keys_of = as_names;
  bool_of = λ r. err no_type;
}

abbrev pub config : Config
config = record { prefix = txt "p:"; suffix = [] }

abbrev pub in_order : IsReordering (λ l. l)
in_order = record { members = λ x l. refl; distinct = λ l h. h }

scan-Pages :
    Pages server
      (scan_command server config (λ l. l) (txt "*"))
      as_names
      (txt "0")
      []
      2
      (map (stored_key server config) (txt "b" ∷ txt "a" ∷ txt "a" ∷ []))
      []
unfolding read_page
scan-Pages = Pages.more refl refl refl (Pages.last refl refl refl)

get_keys_lem_example :
    (l : List Name) × (get_keys server config (λ l. l) (txt "*") 5 [] ≡ (some (ok l), []))
    × IsDistinct l
    × ((x : Name) → listed x l ≡ listed x (txt "b" ∷ txt "a" ∷ txt "a" ∷ []))
get_keys_lem_example =
    get_keys_lem server config (λ l. l) in_order (txt "*") [] [] 2 5
      (txt "b" ∷ txt "a" ∷ txt "a" ∷ []) refl scan-Pages (omega arith)

pub answers : (o : Option Name) → as_name (value_reply o) ≡ answered no_value o
answers none = refl
answers (some v) = refl

abbrev pub values : KeepsValues server
values = record {
  value_at = look_up;
  missing = no_value;
  gets = λ key s. answers (look_up key s);
  sets = λ key value s h. ap (λ b. if b then some value else look_up key s) (same_refl key);
  sets_alone = λ key value other s apart. ap (λ b. if b then some value else look_up other s) apart;
  stays_connected = λ args s h. refl;
}
