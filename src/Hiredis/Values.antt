-- ===== src/Hiredis/Values.antt =====
-- Get after Set of pkg/hiredis/hiredis.go, over a server that keeps a value for each key.
use z.Prelude.{Name, txt, same, ◌≡◌, ◌∙◌, true, false, Option, none, some, List, [], ◌∷◌}
use z.Hiredis.{
  Failure, Result, ok, err, Arg, text, Redigo, Config, and_then, stored_key, get, set_key,
}
use z.Hiredis.Keys.{same-stored_key}

-- The answer to GET.
abbrev pub answered : Failure → Option Name → Result Name
answered missing none = err missing
answered missing (some v) = ok v

-- What redis documents of GET and SET: GET of a key answers its value, SET changes the value of no other
-- key, and sets that of its key if it does not fail.
pub record KeepsValues (R : Redigo) : Type 0 where
  pub value_at : Name → R.Server → Option Name
  pub missing : Failure
  pub gets :
      (key : Name) (s : R.Server)
      → and_then (R.do_command (text (txt "GET") ∷ text key ∷ []) s).0 R.string_of
        ≡ answered missing (value_at key s)
  pub sets :
      (key value : Name) (s : R.Server) {r : R.Reply}
      → (R.do_command (text (txt "SET") ∷ text key ∷ text value ∷ []) s).0 ≡ ok r
      → value_at key (R.do_command (text (txt "SET") ∷ text key ∷ text value ∷ []) s).1 ≡ some value
  pub sets_alone :
      (key value other : Name) (s : R.Server)
      → same key other ≡ false
      → value_at other (R.do_command (text (txt "SET") ∷ text key ∷ text value ∷ []) s).1
        ≡ value_at other s
  pub stays_connected :
      (args : List Arg) (s : R.Server)
      → R.connected s ≡ true
      → R.connected (R.do_command args s).1 ≡ true

module _ (R : Redigo) (K : KeepsValues R) (config : Config) where
  pub get-answered :
      (key : Name) (s : R.Server)
      → R.connected s ≡ true
      → (get R config key s).0 ≡ answered K.missing (K.value_at (stored_key R config key) s)
  unfolding get
  get-answered key s c = rw (c) (K.gets (stored_key R config key) s)

  -- The value that a key of this client holds.
  abbrev pub held : Name → R.Server → Option Name
  held key s = K.value_at (stored_key R config key) s

  pub set_key-connected :
      (key value : Name) (s : R.Server)
      → R.connected s ≡ true
      → R.connected (set_key R config key value s).1 ≡ true
  unfolding set_key
  set_key-connected key value s c = rw (c) (K.stays_connected _ s c)

  -- Redis refuses no SET of this key to this value.
  abbrev pub Accepts : Name → Name → Type 0
  Accepts key value =
      (s : R.Server)
      → (reply : R.Reply) × (R.do_command
            (text (txt "SET") ∷ text (stored_key R config key) ∷ text value ∷ []) s).0
          ≡ ok reply

  pub held-set_key :
      (key value : Name) (s : R.Server)
      → R.connected s ≡ true
      → Accepts key value
      → held key (set_key R config key value s).1 ≡ some value
  unfolding set_key
  held-set_key key value s c accepts =
      rw (c) (K.sets (stored_key R config key) value s (accepts s).1)

  pub held-set_other :
      (key value other : Name) (s : R.Server)
      → R.connected s ≡ true
      → same key other ≡ false
      → held other (set_key R config key value s).1 ≡ held other s
  unfolding set_key
  held-set_other key value other s c apart = rw (c) (
      K.sets_alone (stored_key R config key) value (stored_key R config other) s
        (same-stored_key R config key other ∙ apart))
