-- ===== src/Storage/Updater/Current.antt =====
-- The zones that FindZone searches are those of redis, once every event has been seen.
use mathlib.Core.Path.{subst}
use z.Prelude.{
  Name, suc, ◌≡◌, not, ◌&&◌, if◌then◌else◌, sym, ap, true, false, Option, none, some, List, arith,
  Option-cases, inl, inr,
}
use z.Radix.{Radix}
use z.Storage.{insert_zones, load_zones, find_zone}
use z.Storage.Zones.{Closest, find_zone-Closest}
use z.Storage.Updater.{
  Updater, updater, set_modified, load, Step, change, change_unseen, unseen, connect, subscribe,
  on_start, disconnect, on_message, reload, reload_fails, loaded, force, Run, here, next,
}

module _ (T : Radix Name) where
  -- The connection stands, onStart has run, and no event is on its way.
  pub record IsQuiet (s : Updater T) : Type 0 where
    pub no_mishap : s.mishaps ≡ 0
    pub is_connected : s.connected ≡ true
    pub has_started : s.starting ≡ false
    pub no_event : s.events ≡ 0

  -- The zones are those of redis if nothing is left to load, and so is what LoadZones has read; or the
  -- loop knows that it has to load.
  pub record IsCurrent (s : Updater T) : Type 0 where
    pub zones_current :
        IsQuiet s → s.loading ≡ none → s.modified ≡ false → s.zones ≡ insert_zones T s.members T.new
    pub answer_current : IsQuiet s → (l : List Name) → s.loading ≡ some (some l) → l ≡ s.members

  set_modified-IsCurrent : (s : Updater T) → IsCurrent (set_modified T s)
  unfolding set_modified
  set_modified-IsCurrent s = elim (Option-cases s.loading) [
    | inl idle ↦
        rw (idle, set_modified)
          (record { zones_current = λ q l m. cc m; answer_current = λ q l m. cc (idle, m) })
    | inr (answer, busy) ↦
        rw (busy, set_modified)
          (record {
            zones_current = λ q l m. cc m;
            answer_current = λ q l m. absurd (omega (arith, q.no_mishap));
          })
  ]

  load-IsCurrent :
      (s : Updater T) (answer : Option (List Name))
      → s.loading ≡ some answer
      → IsCurrent s
      → IsCurrent (load T answer s)
  unfolding load load_zones
  load-IsCurrent s none e h = record {
    zones_current = λ q l m. absurd (omega (arith, q.no_mishap));
    answer_current = λ q l m. cc m;
  }
  load-IsCurrent s (some members) e h = record {
    zones_current = λ q l m.
        ap (λ x. insert_zones T x T.new)
          (h.answer_current
            (record {
              no_mishap = q.no_mishap;
              is_connected = q.is_connected;
              has_started = q.has_started;
              no_event = q.no_event;
            })
            members e);
    answer_current = λ q l m. cc m;
  }

  -- A change that redis does not tell of is counted, or onStart has still to run.
  unseen-loud : (s : Updater T) (l : List Name) → ¬ IsQuiet (unseen T l s)
  unfolding unseen
  unseen-loud s l q =
      let counted : (s.connected && not s.starting) ≡ true =
        ground (arith, q.is_connected, q.has_started) in
      omega (arith, ap (λ b. if b then suc s.mishaps else s.mishaps) (sym counted), q.no_mishap)

  Step-IsCurrent : {s t : Updater T} → Step T s t → IsCurrent s → IsCurrent t
  Step-IsCurrent (change l u) h = record {
    zones_current = λ q i m. absurd (omega (arith, q.no_event));
    answer_current = λ q i m. absurd (omega (arith, q.no_event));
  }
  Step-IsCurrent {s} (change_unseen l u) h = record {
    zones_current = λ q i m. absurd (unseen-loud s l q);
    answer_current = λ q i m. absurd (unseen-loud s l q);
  }
  Step-IsCurrent (connect u) h = record {
    zones_current = λ q i m. cc (q.has_started);
    answer_current = λ q i m. cc (q.has_started);
  }
  Step-IsCurrent (subscribe c u) h = record {
    zones_current = λ q i m.
        h.zones_current
          (record {
            no_mishap = q.no_mishap;
            is_connected = q.is_connected;
            has_started = q.has_started;
            no_event = q.no_event;
          })
          i m;
    answer_current = λ q l m.
        h.answer_current
          (record {
            no_mishap = q.no_mishap;
            is_connected = q.is_connected;
            has_started = q.has_started;
            no_event = q.no_event;
          })
          l m;
  }
  Step-IsCurrent (on_start u) h = set_modified-IsCurrent _
  Step-IsCurrent disconnect h = record {
    zones_current = λ q i m. cc (q.is_connected);
    answer_current = λ q i m. cc (q.is_connected);
  }
  Step-IsCurrent (on_message n e) h = set_modified-IsCurrent _
  Step-IsCurrent (reload i m) h = record {
    zones_current = λ q busy m'. cc busy;
    answer_current = λ q l same_answer. ground (arith, same_answer);
  }
  Step-IsCurrent (reload_fails i m) h = record {
    zones_current = λ q busy m'. cc busy;
    answer_current = λ q l same_answer. cc same_answer;
  }
  Step-IsCurrent {s} (loaded answer e) h = load-IsCurrent s answer e h
  Step-IsCurrent (force i) h = record {
    zones_current = λ q i m. cc m;
    answer_current = λ q l m. cc (i, m);
  }

  Run-IsCurrent : {s t : Updater T} → Run T s t → IsCurrent s → IsCurrent t
  Run-IsCurrent here h = h
  Run-IsCurrent (next r step) h = Step-IsCurrent step (Run-IsCurrent r h)

  updater-IsCurrent :
      (members : List Name) (answer : Option (List Name)) → IsCurrent (updater T members answer)
  unfolding updater
  updater-IsCurrent members answer = record {
    zones_current = λ q i m. cc (q.is_connected);
    answer_current = λ q l m. cc m;
  }

  -- In every state that the updater of the zones reaches, by any interleaving of changes in redis,
  -- events, ticks and losses of the connection: if no read of the zones has failed, no callback
  -- came while the zones were being loaded and no change came between onStart and the moment when
  -- redis takes up the subscription, the connection stands and onStart has run, no event is on its
  -- way, the loop is not loading and the flag `modified` is not set, then FindZone answers the
  -- closest zone above a name among those that redis holds now.
  pub find_zone-current :
      (members : List Name) (answer : Option (List Name)) (s : Updater T) (qname : Name)
      → Run T (updater T members answer) s
      → IsQuiet s
      → s.loading ≡ none
      → s.modified ≡ false
      → Closest T s.members qname (find_zone T qname s.zones)
  unfolding load_zones
  find_zone-current members answer s qname run quiet idle unmodified =
      subst (λ zones. Closest T s.members qname (find_zone T qname zones))
        (sym (
          (Run-IsCurrent run (updater-IsCurrent members answer)).zones_current quiet idle
            unmodified))
        (find_zone-Closest T s.members s.zones qname)
