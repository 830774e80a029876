-- ===== src/Hiredis/Subscription.antt =====
-- SubscribeEvent of pkg/hiredis/hiredis.go: the loop that subscribes to the events of keys, with the
-- goroutine Subscribe that receives them, and the name of the key in an event's channel.
pub mod Ends
pub mod Channel
use z.Prelude.{
  Name, txt, ◌≡◌, ◌<◌, Bool, true, false, Option, none, some, List, [], ◌∷◌, ◌++◌, trim_prefix,
  trim_suffix, ℕ, length, arith,
}
use z.Hiredis.{Failure, Config}

-- `"__keyspace@" + strconv.Itoa(redis.config.DB) + "__:"`, for the number of the database as a text
unfoldable pub channel_prefix : Name → Name
channel_prefix db = txt "__keyspace@" ++ (db ++ txt "__:")

-- What Subscribe makes of the channel of a message.
unfoldable pub event_key : Config → Name → Name → Name
unfolding channel_prefix
event_key config db channel =
    trim_suffix (trim_prefix channel (channel_prefix db ++ config.prefix)) config.suffix

-- Where the loop stands: in its select, behind the case of `quit`, or past its return.
pub data Place : Type 0 where
  selecting leaving returned : Place

-- A goroutine Subscribe: in its loop, or about to send its result to `done`.
pub data Receiver : Type 0 where
  receiving : Receiver
  sending : Option Failure → Receiver

-- What the callbacks were called with, the last first.
pub data Call : Type 0 where
  on_start : Call
  on_message : Name → Name → Call
  on_error : Failure → Call

-- `subscribed` says that psc is not nil; `done` is the channel, of capacity 1.
pub record Watcher : Type 0 where
  pub place : Place
  pub subscribed : Bool
  pub receivers : List Receiver
  pub done : List (Option Failure)
  pub calls : List Call

-- After the first Init, by its error.
unfoldable pub start : Option Failure → Watcher
start (some e) = record {
  place = selecting;
  subscribed = false;
  receivers = [];
  done = [];
  calls = on_error e ∷ [];
}
start none = record {
  place = selecting;
  subscribed = true;
  receivers = receiving ∷ [];
  done = [];
  calls = on_start ∷ [];
}

-- `if err != nil { onError(err); psc = nil }`
unfoldable pub take_result : Option Failure → Watcher → Watcher
take_result none s = s
take_result (some e) s = record s { subscribed = false; calls = on_error e ∷ s.calls }

module _ (config : Config) (db : Name) where
  pub data Step : Watcher → Watcher → Type 0 where
    -- The ticker, with no subscription: Init fails.
    fail :
        {s : Watcher} (e : Failure)
        → s.place ≡ selecting
        → s.subscribed ≡ false
        → Step s (record s { calls = on_error e ∷ s.calls })
    -- The ticker, with no subscription: Init succeeds, and Subscribe starts.
    subscribe :
        {s : Watcher}
        → s.place ≡ selecting
        → s.subscribed ≡ false
        → Step s (record s {
          subscribed = true;
          receivers = receiving ∷ s.receivers;
          calls = on_start ∷ s.calls;
        })
    -- `case wg := <-quit`
    quit : {s : Watcher} → s.place ≡ selecting → Step s (record s { place = leaving })
    -- `case err := <-done`
    result :
        {s : Watcher} (r : Option Failure) (rest : List (Option Failure))
        → s.place ≡ selecting
        → s.done ≡ r ∷ rest
        → Step s (take_result r (record s { done = rest }))
    -- `<-done` after `quit`, and `wg.Done()`
    leave :
        {s : Watcher} (r : Option Failure) (rest : List (Option Failure))
        → s.place ≡ leaving
        → s.done ≡ r ∷ rest
        → Step s (record s { place = returned; done = rest })
    -- A goroutine receives a message.
    message :
        {s : Watcher} (a b : List Receiver) (channel event : Name)
        → s.receivers ≡ a ++ receiving ∷ b
        → Step s (record s { calls = on_message (event_key config db channel) event ∷ s.calls })
    -- A goroutine receives an error, or the end of its subscription (`none`).
    end :
        {s : Watcher} (a b : List Receiver) (r : Option Failure)
        → s.receivers ≡ a ++ receiving ∷ b
        → Step s (record s { receivers = a ++ sending r ∷ b })
    -- `done <- n`
    send :
        {s : Watcher} (a b : List Receiver) (r : Option Failure)
        → s.receivers ≡ a ++ sending r ∷ b
        → length s.done < 1
        → Step s (record s { receivers = a ++ b; done = s.done ++ r ∷ [] })

  pub data Run : Watcher → Watcher → Type 0 where
    here : {s : Watcher} → Run s s
    next : {s t u : Watcher} → Run s t → Step t u → Run s u
