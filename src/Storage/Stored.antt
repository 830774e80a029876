-- ===== src/Storage/Stored.antt =====
-- What SetLocationFromJson of internal/storage/data_handler.go stores is what getRRSet reads.
use mathlib.Core.Path.{sym, subst}
use z.Prelude.{
  ℕ, Name, same, ◌==◌, ==_iff, ◌≡◌, refl, ap, ◌∙◌, true, false, not, Bool-cases, inl, inr, Option,
  none, some, List, [], ◌∷◌, if◌then◌else◌, is_empty,
}
use z.Types.Sets.{RrSet}
use z.Hiredis.{Result, ok, err, Redigo, get, s_add}
use z.Hiredis.Values.{KeepsValues, Accepts, held, held-set_key, held-set_other, set_key-connected}
use z.Storage.{fix_ttl}
use z.Storage.Typed.{
  set_of_type, without_type, all_differ, type_name, Result-cases, and_left, and_right, not-true,
  rr_set_key, same-rr_set_key,
}
use z.Storage.Records.{Ristretto, Codec, DataHandlerConfig, State, parse_value, fetch}
use z.Storage.Entries.{
  LocationEntry, sets_of, change_ttl, enable_location, set_rr_set_from_json, set_rr_set, set_each,
  set_sets,
}

module _ (R : Redigo) (K : KeepsValues R) (C : Ristretto RrSet) (J : Codec)
    (config : DataHandlerConfig) (zone label : Name) where
  abbrev pub key : ℕ → Name
  key = rr_set_key J zone label

  abbrev pub at_key : Name → R.Server → Option Name
  at_key = held R K config.redis

  -- What a write of another type, or of this one, leaves at a key.
  set_rr_set-connected :
      (t : ℕ) (rrset : RrSet) (s : R.Server)
      → R.connected s ≡ true
      → R.connected (set_rr_set R J config zone label t rrset s).1 ≡ true
  unfolding set_rr_set set_rr_set_from_json
  set_rr_set-connected t rrset s c = elim (Result-cases (J.marshal rrset)) [
    | inl (e, fails) ↦ rw (fails, set_rr_set) c
    | inr (json, coded) ↦
        rw (coded, set_rr_set) (set_key-connected R K config.redis (key t) json s c)
  ]

  set_rr_set-other :
      (t : ℕ) (rrset : RrSet) (other : Name) (s : R.Server)
      → R.connected s ≡ true
      → same (key t) other ≡ false
      → at_key other (set_rr_set R J config zone label t rrset s).1 ≡ at_key other s
  unfolding set_rr_set set_rr_set_from_json
  set_rr_set-other t rrset other s c apart = elim (Result-cases (J.marshal rrset)) [
    | inl (e, fails) ↦ rw (fails, set_rr_set) refl
    | inr (json, coded) ↦
        rw (coded, set_rr_set) (held-set_other R K config.redis (key t) json other s c apart)
  ]

  set_rr_set-held :
      (t : ℕ) (rrset : RrSet) (json : Name) (s : R.Server)
      → R.connected s ≡ true
      → Accepts R K config.redis (key t) json
      → J.marshal rrset ≡ ok json
      → at_key (key t) (set_rr_set R J config zone label t rrset s).1 ≡ some json
  unfolding set_rr_set set_rr_set_from_json
  set_rr_set-held t rrset json s c accepts coded =
      rw (coded, set_rr_set) (held-set_key R K config.redis (key t) json s c accepts)

  abbrev pub fixed : RrSet → RrSet
  fixed = change_ttl (λ ttl. fix_ttl ttl config.min_ttl config.max_ttl)

  -- No other type of the list has the name of this one.
  abbrev pub Apart : ℕ → Type 0
  Apart rtype = (t : ℕ) → (t == rtype) ≡ false → same (type_name J t) (type_name J rtype) ≡ false

  set_each-connected :
      (l : List (ℕ × Option RrSet)) (s : R.Server)
      → R.connected s ≡ true
      → R.connected (set_each R J config zone label l s) ≡ true
  unfolding set_each
  set_each-connected [] s c = c
  set_each-connected ((t, none) ∷ l) s c = set_each-connected l s c
  set_each-connected ((t, some rrset) ∷ l) s c =
      set_each-connected l _ (set_rr_set-connected t (fixed rrset) s c)

  set_each-other :
      (rtype : ℕ) (l : List (ℕ × Option RrSet)) (s : R.Server)
      → Apart rtype
      → R.connected s ≡ true
      → without_type rtype l ≡ true
      → at_key (key rtype) (set_each R J config zone label l s) ≡ at_key (key rtype) s
  unfolding set_each
  set_each-other rtype [] s apart c h = refl
  set_each-other rtype ((t, none) ∷ l) s apart c h =
      set_each-other rtype l s apart c (and_right (not (t == rtype)) _ h)
  set_each-other rtype ((t, some rrset) ∷ l) s apart c h =
      set_each-other rtype l _ apart (set_rr_set-connected t (fixed rrset) s c)
        (and_right (not (t == rtype)) _ h)
      ∙ set_rr_set-other t (fixed rrset) (key rtype) s c (
          same-rr_set_key J zone label t rtype
            (apart t (not-true (and_left _ (without_type rtype l) h))))

  set_each-held :
      (rtype : ℕ) (rrset : RrSet) (json : Name) (l : List (ℕ × Option RrSet)) (s : R.Server)
      → Apart rtype
      → Accepts R K config.redis (key rtype) json
      → R.connected s ≡ true
      → all_differ l ≡ true
      → set_of_type rtype l ≡ some rrset
      → J.marshal (fixed rrset) ≡ ok json
      → at_key (key rtype) (set_each R J config zone label l s) ≡ some json
  unfolding set_each
  set_each-held rtype rrset json [] s apart accepts c d found coded = cc
  set_each-held rtype rrset json ((t, none) ∷ l) s apart accepts c d found coded =
      elim (Bool-cases (t == rtype)) [
        | inl hit ↦ cc (sym (ap (λ b. if b then none else set_of_type rtype l) hit) ∙ found)
        | inr miss ↦
            set_each-held rtype rrset json l s apart accepts c (and_right (without_type t l) _ d)
              (sym (ap (λ b. if b then none else set_of_type rtype l) miss) ∙ found) coded
      ]
  set_each-held rtype rrset json ((t, some head) ∷ l) s apart accepts c d found coded =
      let c' = set_rr_set-connected t (fixed head) s c in
      elim (Bool-cases (t == rtype)) [
        | inl hit ↦
            let this : head ≡ rrset =
              same_set (sym (ap (λ b. if b then some head else set_of_type rtype l) hit) ∙ found) in
            let here : t ≡ rtype = (==_iff t rtype).0 hit in
            set_each-other rtype l _ apart c'
              (ap (λ u. without_type u l) (sym here) ∙ and_left (without_type t l) _ d)
            ∙ ap (λ u. at_key (key u) (set_rr_set R J config zone label t (fixed head) s).1)
                (sym here)
            ∙ set_rr_set-held t (fixed head) json s c
                (subst (λ u. Accepts R K config.redis (key u) json) (sym here) accepts)
                (ap (λ r. J.marshal (fixed r)) this ∙ coded)
        | inr miss ↦
            set_each-held rtype rrset json l _ apart accepts c' (and_right (without_type t l) _ d)
              (sym (ap (λ b. if b then some head else set_of_type rtype l) miss) ∙ found) coded
      ]
    where
      same_set : some head ≡ some rrset → head ≡ rrset
      same_set h = ap (λ o. elim o [ none ↦ head | some r ↦ r ]) h

  pub enable_location-connected :
      (s : R.Server)
      → R.connected s ≡ true
      → R.connected (enable_location R J config zone label s).1 ≡ true
  unfolding enable_location s_add
  enable_location-connected s c = rw (c) (K.stays_connected _ s c)

  pub sets_of-all_differ : (entry : LocationEntry) → all_differ (sets_of entry) ≡ true
  unfolding sets_of
  sets_of-all_differ entry = refl

  pub set_sets-held :
      (entry : LocationEntry) (rtype : ℕ) (rrset : RrSet) (json : Name)
      (p : Result (Unit {0}) × R.Server)
      → Apart rtype
      → Accepts R K config.redis (key rtype) json
      → R.connected p.1 ≡ true
      → (set_sets R J config zone label entry p).0 ≡ ok tt
      → set_of_type rtype (sets_of entry) ≡ some rrset
      → J.marshal (fixed rrset) ≡ ok json
      → (R.connected (set_sets R J config zone label entry p).1 ≡ true)
        × (at_key (key rtype) (set_sets R J config zone label entry p).1 ≡ some json)
  unfolding set_sets
  set_sets-held entry rtype rrset json (err e, s) apart accepts c done found coded = cc done
  set_sets-held entry rtype rrset json (ok u, s) apart accepts c done found coded = (
    set_each-connected (sets_of entry) s c,
    set_each-held rtype rrset json (sets_of entry) s apart accepts c (sets_of-all_differ entry)
        found coded,
  )

  pub fetch-held :
      (k : Name) (result rrset : RrSet) (json : Name) (st : State R C)
      → (get R config.redis k st.server).0 ≡ ok json
      → is_empty json ≡ false
      → J.unmarshal result json ≡ ok rrset
      → (fetch R C J config k result st).0 ≡ ok rrset
  unfolding fetch parse_value
  fetch-held k result rrset json st read full parsed =
      let st' : State R C = record st { server = (get R config.redis k st.server).1 } in
      ap (λ v. (parse_value R C J config k result v st').0) read ∙ rw (full) (rw (parsed) refl)
