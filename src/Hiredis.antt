-- ===== src/Hiredis.antt =====
-- pkg/hiredis/hiredis.go: the commands that the server sends to redis. The redigo library is the
-- interface Redigo; a command's name is the first of its arguments.
pub mod Scan
pub mod Stream
pub mod Members
pub mod Keys
pub mod Values
pub mod Subscription
use z.Prelude.{
  ℕ, ◌/◌, Name, txt, same, ◌++◌, Bool, true, false, not, Option, none, some, List, [], ◌∷◌,
  if◌then◌else◌, get_elem?,
}

-- The errors, and the run-time panic of an index out of range.
pub data Failure : Type 0 where
  no_connection ping_failed index_out_of_range : Failure
  failed : Name → Failure

pub data Result (A : Type 0) : Type 0 where
  ok : A → Result A
  err : Failure → Result A

pub data Arg : Type 0 where
  text : Name → Arg
  number : ℕ → Arg

-- A pool of connections to a server, its replies, and the conversions of a reply.
pub record Redigo : Type 1 where
  pub Server : Type 0
  pub Reply : Type 0
  pub connected : Server → Bool
  pub do_command : List Arg → Server → Result Reply × Server
  pub string_of : Reply → Result Name
  pub strings_of : Reply → Result (List Name)
  pub values_of : Reply → Result (List Reply)
  pub map_keys_of : Reply → Result (List Name)
  pub bool_of : Reply → Result Bool

-- The part of Config that the commands read.
pub record Config : Type 0 where
  pub prefix : Name
  pub suffix : Name

abbrev pub and_then : {A B : Type 0} → Result A → (A → Result B) → Result B
and_then (ok a) f = f a
and_then (err e) f = err e

-- What is done with a result, and with an error.
abbrev pub outcome : {A B : Type 0} → (A → B) → (Failure → B) → Result A → B
outcome f g (ok a) = f a
outcome f g (err e) = g e

-- `vals[i]`
abbrev pub at_index : {A : Type 0} → List A → ℕ → Result A
at_index l i = elim (get_elem? l i) [ some a ↦ ok a | none ↦ err index_out_of_range ]

module _ (R : Redigo) where
  abbrev pub Command : Type 0 → Type 0
  Command A = R.Server → Result A × R.Server

  -- `conn := redis.pool.Get(); if conn == nil { return noConnectionError }`
  abbrev pub with_connection : {A : Type 0} → Command A → Command A
  with_connection c s = if R.connected s then c s else (err no_connection, s)

  -- `reply, err := conn.Do(...)` and a conversion of the reply.
  abbrev pub send : {A : Type 0} → List Arg → (R.Reply → Result A) → Command A
  send args read = with_connection (λ s. let (r, s') = R.do_command args s in (and_then r read, s'))

  abbrev pub no_reply : R.Reply → Result (Unit {0})
  no_reply _ = ok tt

  unfoldable pub get_config : Name → Command Name
  get_config config =
      send (text (txt "CONFIG") ∷ text (txt "GET") ∷ text config ∷ [])
        (λ reply. and_then (R.strings_of reply) (λ vals. at_index vals 1))

  unfoldable pub set_config : Name → Name → Command (Unit {0})
  set_config config value =
      send (text (txt "CONFIG") ∷ text (txt "SET") ∷ text config ∷ text value ∷ []) no_reply

  unfoldable pub ping : Command (Unit {0})
  ping = send (text (txt "PING") ∷ []) (λ reply.
      and_then (R.string_of reply)
        (λ val. if same val (txt "PONG") then ok tt else err ping_failed))

  module _ (config : Config) where
    -- `redis.config.Prefix+key+redis.config.Suffix`
    abbrev pub stored_key : Name → Name
    stored_key key = config.prefix ++ key ++ config.suffix

    unfoldable pub get : Name → Command Name
    get key = send (text (txt "GET") ∷ text (stored_key key) ∷ []) R.string_of

    unfoldable pub set_key : Name → Name → Command (Unit {0})
    set_key key value = send (text (txt "SET") ∷ text (stored_key key) ∷ text value ∷ []) no_reply

    unfoldable pub h_get : Name → Name → Command Name
    h_get key hkey = send (text (txt "HGET") ∷ text (stored_key key) ∷ text hkey ∷ []) R.string_of

    unfoldable pub h_set : Name → Name → Name → Command (Unit {0})
    h_set key hkey value =
        send (text (txt "HSET") ∷ text (stored_key key) ∷ text hkey ∷ text value ∷ []) no_reply

    unfoldable pub s_add : Name → Name → Command (Unit {0})
    s_add key member = send (text (txt "SADD") ∷ text (stored_key key) ∷ text member ∷ []) no_reply

    unfoldable pub s_rem : Name → Name → Command (Unit {0})
    s_rem key member = send (text (txt "SREM") ∷ text (stored_key key) ∷ text member ∷ []) no_reply

    unfoldable pub s_is_member : Name → Name → Command Bool
    s_is_member key member =
        send (text (txt "SISMEMBER") ∷ text (stored_key key) ∷ text member ∷ []) R.bool_of

    -- The duration in nanoseconds.
    unfoldable pub expire : Name → ℕ → Command (Unit {0})
    expire key duration =
        send (text (txt "PEXPIRE") ∷ text (stored_key key) ∷ number (duration / 1000000) ∷ [])
          no_reply

    unfoldable pub persist : Name → Command (Unit {0})
    persist key = send (text (txt "PERSIST") ∷ text (stored_key key) ∷ []) no_reply
