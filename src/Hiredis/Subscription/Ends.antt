-- ===== src/Hiredis/Subscription/Ends.antt =====
-- The loop of SubscribeEvent ends after `quit` exactly if a goroutine Subscribe, or its result, is
-- still there; of these there is never more than one.
use z.Prelude.{
  ℕ, ◌+◌, ◌≤◌, Name, ◌≡◌, ◌≢◌, ◌↔◌, refl, ap, ◌∙◌, false, Option, none, some, List, [], ◌∷◌, ◌++◌,
  length, length-append, arith,
}
use z.Hiredis.{Failure, Config}
use z.Hiredis.Subscription.{
  leaving, returned, Receiver, receiving, sending, Watcher, start, take_result, Step, fail,
  subscribe, quit, result, leave, message, end, send, Run, here, next,
}

-- The goroutines, and the results that are not taken.
abbrev pub pending : Watcher → ℕ
pending s = length s.receivers + length s.done

-- One subscription at most, and none without psc.
pub record IsSingle (s : Watcher) : Type 0 where
  pub single : pending s ≤ 1
  pub none_unsubscribed : s.subscribed ≡ false → pending s ≡ 0

start-IsSingle : (e : Option Failure) → IsSingle (start e)
unfolding start
start-IsSingle none = record { single = omega arith; none_unsubscribed = λ h. cc }
start-IsSingle (some e) = record { single = omega arith; none_unsubscribed = λ h. refl }

length-split :
    {A : Type 0} (l a b : List A) (x : A) → l ≡ a ++ x ∷ b → length l ≡ length (a ++ b) + 1
length-split l a b x h = ap length h ∙ omega (arith, length-append a (x ∷ b), length-append a b)

length-replace :
    {A : Type 0} (l a b : List A) (x y : A) → l ≡ a ++ x ∷ b → length (a ++ y ∷ b) ≡ length l
length-replace l a b x y h =
    omega (arith, length-append a (y ∷ b), length-append a (x ∷ b), ap length h)

take_result-IsSingle :
    (s : Watcher) (r : Option Failure) (rest : List (Option Failure))
    → s.done ≡ r ∷ rest
    → IsSingle s
    → IsSingle (take_result r (record s { done = rest }))
unfolding take_result
take_result-IsSingle s none rest e h = record {
  single = omega (arith, ap length e, h.single);
  none_unsubscribed = λ u. omega (arith, ap length e, h.none_unsubscribed u);
}
take_result-IsSingle s (some f) rest e h = record {
  single = omega (arith, ap length e, h.single);
  none_unsubscribed = λ u. omega (arith, ap length e, h.single);
}

module _ (config : Config) (db : Name) where
  Step-IsSingle : {s t : Watcher} → Step config db s t → IsSingle s → IsSingle t
  Step-IsSingle (fail e p u) h = record {
    single = h.single;
    none_unsubscribed = h.none_unsubscribed;
  }
  Step-IsSingle (subscribe p u) h = record {
    single = omega (arith, h.none_unsubscribed u);
    none_unsubscribed = λ t. cc;
  }
  Step-IsSingle (quit p) h = record { single = h.single; none_unsubscribed = h.none_unsubscribed }
  Step-IsSingle {s} (result r rest p e) h = take_result-IsSingle s r rest e h
  Step-IsSingle (leave r rest p e) h = record {
    single = omega (arith, ap length e, h.single);
    none_unsubscribed = λ u. omega (arith, ap length e, h.none_unsubscribed u);
  }
  Step-IsSingle (message a b c v e) h = record {
    single = h.single;
    none_unsubscribed = h.none_unsubscribed;
  }
  Step-IsSingle {s} (end a b r e) h =
      let same_length = length-replace s.receivers a b receiving (sending r) e in
      record {
        single = omega (arith, same_length, h.single);
        none_unsubscribed = λ u. omega (arith, same_length, h.none_unsubscribed u);
      }
  Step-IsSingle {s} (send a b r e room) h =
      let fewer = length-split s.receivers a b (sending r) e in
      let more = length-append s.done (r ∷ []) in
      record {
        single = omega (arith, fewer, more, h.single);
        none_unsubscribed = λ u. omega (arith, fewer, more, h.none_unsubscribed u);
      }

  Run-IsSingle : {s t : Watcher} → IsSingle s → Run config db s t → IsSingle t
  Run-IsSingle h here = h
  Run-IsSingle h (next r step) = Step-IsSingle step (Run-IsSingle h r)

  -- Behind `quit`, with nothing to wait for.
  pub record IsStuck (s : Watcher) : Type 0 where
    pub at_leaving : s.place ≡ leaving
    pub nothing : pending s ≡ 0

  Step-IsStuck : {s t : Watcher} → Step config db s t → IsStuck s → IsStuck t
  Step-IsStuck (fail e p u) h = cc (h.at_leaving)
  Step-IsStuck (subscribe p u) h = cc (h.at_leaving)
  Step-IsStuck (quit p) h = cc (h.at_leaving)
  Step-IsStuck (result r rest p e) h = cc (h.at_leaving)
  Step-IsStuck (leave r rest p e) h = absurd (omega (arith, ap length e, h.nothing))
  Step-IsStuck (message a b c v e) h = record { at_leaving = h.at_leaving; nothing = h.nothing }
  Step-IsStuck {s} (end a b r e) h =
      absurd (omega (arith, length-split s.receivers a b receiving e, h.nothing))
  Step-IsStuck {s} (send a b r e room) h =
      absurd (omega (arith, length-split s.receivers a b (sending r) e, h.nothing))

  Run-IsStuck : {s t : Watcher} → IsStuck s → Run config db s t → IsStuck t
  Run-IsStuck h here = h
  Run-IsStuck h (next r step) = Step-IsStuck step (Run-IsStuck h r)

  -- The loop can come to its return.
  abbrev pub CanReturn : Watcher → Type 0
  CanReturn s = (t : Watcher) × Run config db s t × (t.place ≡ returned)

  returns :
      {s t : Watcher} (r : Option Failure) (rest : List (Option Failure))
      → Run config db s t
      → t.place ≡ leaving
      → t.done ≡ r ∷ rest
      → CanReturn s
  returns {s} {t} r rest run p e =
      (record t { place = returned; done = rest }, next run (leave r rest p e), refl)

  returns_from :
      (s : Watcher) (l : List Receiver) (d : List (Option Failure))
      → s.place ≡ leaving
      → s.receivers ≡ l
      → s.done ≡ d
      → length l + length d ≢ 0
      → CanReturn s
  returns_from s l (r ∷ rest) p el ed h = returns r rest here p ed
  returns_from s [] [] p el ed h = absurd (h refl)
  returns_from s (sending r ∷ l) [] p el ed h =
      returns r [] (next here (send [] l r el (omega (arith, ap length ed)))) p
        (ap (λ x. x ++ r ∷ []) ed)
  returns_from s (receiving ∷ l) [] p el ed h =
      returns none []
        (next (next here (end [] l none el)) (send [] l none refl (omega (arith, ap length ed)))) p
        (ap (λ x. x ++ none ∷ []) ed)

  -- In every state that SubscribeEvent reaches behind the case of `quit`, at most one goroutine
  -- Subscribe, or one result of it in `done`, is there, and the loop can come to its return exactly
  -- if there is one.
  pub leaving-CanReturn :
      (e : Option Failure) {s : Watcher}
      → Run config db (start e) s
      → s.place ≡ leaving
      → (pending s ≤ 1) × (CanReturn s ↔ (pending s ≢ 0))
  leaving-CanReturn e {s} run p = (
    (Run-IsSingle (start-IsSingle e) run).single,
    (
      (λ c none_left. stuck c (record { at_leaving = p; nothing = none_left })),
      returns_from s s.receivers s.done p refl refl,
    ),
  )
    where
      stuck : CanReturn s → IsStuck s → ⊥
      stuck (t, further, back) h = cc ((Run-IsStuck h further).at_leaving)
