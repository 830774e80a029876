-- ===== src/Storage/Refreshed.antt =====
-- A record set that SetLocationFromJson of internal/storage/data_handler.go writes is served once redis
-- has told of it.
use z.Prelude.{
  ℕ, Name, same_refl, ◌≡◌, ap, ◌∙◌, true, false, none, some, ◌++◌, is_empty, if◌then◌else◌,
}
use z.Types.Sets.{RrSet}
use z.Hiredis.{ok, Redigo, stored_key}
use z.Hiredis.Subscription.{channel_prefix}
use z.Hiredis.Values.{KeepsValues, Accepts, answered, get-answered}
use z.Storage.Records.{Ristretto, Codec, DataHandlerConfig, State, get_rr_set}
use z.Storage.Typed.{set_of_type, rr_set_key}
use z.Storage.Entries.{LocationEntry, sets_of, set_location}
use z.Storage.Stored.{
  enable_location-connected, set_sets-held, fetch-held, fixed, Apart, key, at_key,
}
use z.Storage.Events.{DropsKey, on_event, record_set}
use z.Storage.Invalidated.{IsColonFree, on_event-Dropped}

module _ (R : Redigo) (K : KeepsValues R) (C : Ristretto RrSet) (J : Codec)
    (config : DataHandlerConfig) (zone label : Name) where
  get_rr_set-uncached :
      (now rtype : ℕ) (result rrset : RrSet) (json : Name) (st : State R C)
      → R.connected st.server ≡ true
      → C.find (key R K C J config zone label rtype) st.record_cache ≡ none
      → at_key R K C J config zone label (key R K C J config zone label rtype) st.server ≡ some json
      → is_empty json ≡ false
      → J.unmarshal result json ≡ ok rrset
      → (get_rr_set R C J config now zone label rtype result st).0 ≡ ok rrset
  unfolding get_rr_set
  get_rr_set-uncached now rtype result rrset json st c missing held_json full parsed =
      rw (missing, get_rr_set)
        (fetch-held R K C J config zone label (rr_set_key J zone label rtype) result rrset json st
          (get-answered R K config.redis (rr_set_key J zone label rtype) st.server c
            ∙ ap (answered K.missing) held_json)
          full parsed)

  module _ {V : Type 0} (Z : Ristretto V) (laws : DropsKey C) (zone_laws : DropsKey Z)
      (db : Name) where
    -- The state after SetLocationFromJson and the event of the set's key.
    abbrev pub notified : LocationEntry → ℕ → Z.Store → State R C → State R C
    notified entry rtype zones st = record {
      server = (set_location R J config zone label (ok entry) st.server).1;
      record_cache =
          (on_event C Z config db
            (channel_prefix db ++ stored_key R config.redis (rr_set_key J zone label rtype))
            (record { records = st.record_cache; zones = zones })).records;
    }

    -- If SetLocationFromJson succeeds for an entry that holds a set for a type, the client is
    -- connected, redis does not refuse the SET of that set, whose failure the code passes over, no
    -- colon stands in the zone, the label and the name of the type, the name of no other type is
    -- that type's name, and the Json library reads back what it wrote for the set with its TTL
    -- brought between the configured bounds, then after the event of the set's key getRRSet of the
    -- zone, the location and the type returns that set, at any time and whatever the record cache
    -- held.
    pub set_location-event-get_rr_set :
        (entry : LocationEntry) (now rtype : ℕ) (rrset result : RrSet) (json : Name)
        (zones : Z.Store) (st : State R C)
        → IsColonFree J.type_to_string (record_set zone label rtype)
        → Apart R K C J config zone label rtype
        → R.connected st.server ≡ true
        → Accepts R K config.redis (rr_set_key J zone label rtype) json
        → (set_location R J config zone label (ok entry) st.server).0 ≡ ok tt
        → set_of_type rtype (sets_of entry) ≡ some rrset
        → J.marshal (fixed R K C J config zone label rrset) ≡ ok json
        → is_empty json ≡ false
        → J.unmarshal result json ≡ ok (fixed R K C J config zone label rrset)
        → (get_rr_set R C J config now zone label rtype result (notified entry rtype zones st)).0
          ≡ ok (fixed R K C J config zone label rrset)
    unfolding set_location
    set_location-event-get_rr_set entry now rtype rrset result json zones st free apart c accepts
          done found coded full parsed =
        let (c', holds) =
          set_sets-held R K C J config zone label entry rtype rrset json _ apart accepts
            (enable_location-connected R K C J config zone label st.server c) done found coded in
        let (records, _) =
          on_event-Dropped C Z laws zone_laws R config db J.type_to_string
            (record_set zone label rtype) (record { records = st.record_cache; zones = zones })
            free in
        get_rr_set-uncached now rtype result (fixed R K C J config zone label rrset) json
          (notified entry rtype zones st) c'
          (records (rr_set_key J zone label rtype)
            ∙ ap (λ b. if b then none else C.find (rr_set_key J zone label rtype) st.record_cache)
                (same_refl (rr_set_key J zone label rtype)))
          holds full parsed
