-- ===== src/Storage/Updater.antt =====
-- The goroutine of NewDataHandler in internal/storage/data_handler.go that keeps the list of zones: a
-- step relation on what redis holds, the events on their way, and the loop over its tickers.
pub mod Current
use z.Prelude.{
  ℕ, suc, Name, ◌≡◌, Bool, true, false, not, ◌&&◌, if◌then◌else◌, Option, none, some, List,
}
use z.Radix.{Radix}
use z.Storage.{load_zones}

module _ (T : Radix Name) where
  -- `members` is the set of zones in redis. PSUBSCRIBE is sent on a connection; behind it, in either
  -- order, redis takes it up, which is `subscribed`, and the callback onStart runs, which has still to
  -- come if `starting`. `loading` is the answer of SMEMBERS (`none` for an error) while LoadZones runs.
  -- `mishaps` counts what makes the loop forget a change: a read that fails, an event between the read
  -- and `modified = false`, and a change behind onStart that comes before redis has subscribed.
  pub record Updater : Type 0 where
    pub members : List Name
    pub connected : Bool
    pub subscribed : Bool
    pub starting : Bool
    pub events : ℕ
    pub modified : Bool
    pub loading : Option (Option (List Name))
    pub zones : T.Tree
    pub mishaps : ℕ

  -- After the first LoadZones.
  unfoldable pub updater : List Name → Option (List Name) → Updater
  updater members answer = record {
    members = members;
    connected = false;
    subscribed = false;
    starting = false;
    events = 0;
    modified = false;
    loading = none;
    zones = load_zones T answer T.new;
    mishaps = 0;
  }

  -- `modified = true`, in a callback; it is overwritten while the zones are loaded.
  unfoldable pub set_modified : Updater → Updater
  set_modified s = elim s.loading [
    | none ↦ record s { modified = true }
    | some answer ↦ record s { modified = true; mishaps = suc s.mishaps }
  ]

  -- The rest of LoadZones, and `modified = false`.
  unfoldable pub load : Option (List Name) → Updater → Updater
  load none s = record s { loading = none; modified = false; mishaps = suc s.mishaps }
  load (some members) s = record s {
    loading = none;
    modified = false;
    zones = load_zones T (some members) s.zones;
  }

  -- The set changes before redis has subscribed.
  unfoldable pub unseen : List Name → Updater → Updater
  unseen l s = record s {
    members = l;
    mishaps = if s.connected && not s.starting then suc s.mishaps else s.mishaps;
  }

  pub data Step : Updater → Updater → Type 0 where
    -- Someone changes the set, with an event for the subscription, or without one.
    change :
        {s : Updater} (l : List Name)
        → s.subscribed ≡ true
        → Step s (record s { members = l; events = suc s.events })
    change_unseen : {s : Updater} (l : List Name) → s.subscribed ≡ false → Step s (unseen l s)
    -- Init returns once PSUBSCRIBE is sent; redis takes it up; onStart runs; and the connection ends,
    -- with what was on its way.
    connect :
        {s : Updater}
        → s.connected ≡ false
        → Step s (record s { connected = true; starting = true })
    subscribe :
        {s : Updater}
        → s.connected ≡ true
        → s.subscribed ≡ false
        → Step s (record s { subscribed = true })
    on_start :
        {s : Updater} → s.starting ≡ true → Step s (set_modified (record s { starting = false }))
    disconnect :
        {s : Updater}
        → Step s (record s { connected = false; subscribed = false; starting = false; events = 0 })
    -- The callback for a message.
    on_message :
        {s : Updater} (n : ℕ) → s.events ≡ suc n → Step s (set_modified (record s { events = n }))
    -- The tick to reload, if `modified`, up to the answer of SMEMBERS; an error changes nothing.
    reload :
        {s : Updater}
        → s.loading ≡ none
        → s.modified ≡ true
        → Step s (record s { loading = some (some s.members) })
    reload_fails :
        {s : Updater}
        → s.loading ≡ none
        → s.modified ≡ true
        → Step s (record s { loading = some none })
    loaded :
        {s : Updater} (answer : Option (List Name))
        → s.loading ≡ some answer
        → Step s (load answer s)
    -- The tick that forces a reload.
    force : {s : Updater} → s.loading ≡ none → Step s (record s { modified = true })

  pub data Run : Updater → Updater → Type 0 where
    here : {s : Updater} → Run s s
    next : {s t u : Updater} → Run s t → Step t u → Run s u
