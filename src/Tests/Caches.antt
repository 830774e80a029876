-- ===== src/Tests/Caches.antt =====
-- A cache as a list of entries, the latest first.
use z.Prelude.{
  Name, same, same_iff, ◌≡◌, refl, Bool, true, false, ◌⊎◌, inl, inr, Option, none, some, List, [],
  ◌∷◌, if◌then◌else◌, arith,
}
use z.Storage.Records.{Ristretto}
use z.Storage.Signed.{IsCache}
use z.Storage.Events.{DropsKey}

module _ {V : Type 0} where
  abbrev pub cached : Name → List (Name × V) → Option V
  cached j [] = none
  cached j ((k, v) ∷ s) = let later = cached j s in if same k j then some v else later

  abbrev pub without : Name → List (Name × V) → List (Name × V)
  without j [] = []
  without j ((k, v) ∷ s) = let later = without j s in if same j k then later else (k, v) ∷ later

  pub cached-without :
      (j k : Name) (s : List (Name × V))
      → cached j (without k s) ≡ (if same k j then none else cached j s)
  cached-without j k [] = ground arith
  cached-without j k ((i, v) ∷ s) =
      ground (arith, cached-without j k s, same_iff k i, same_iff i j, same_iff k j)

  pub cached_or_kept :
      (b : Bool) (v : V) (o : Option V)
      → ((if b then some v else o) ≡ none)
        ⊎ (((if b then some v else o) ≡ some v) ⊎ ((if b then some v else o) ≡ o))
  cached_or_kept true v o = inr (inl refl)
  cached_or_kept false v o = inr (inr refl)

abbrev pub cache_of : (V : Type 0) → Ristretto V
cache_of V = record {
  Store = List (Name × V);
  find = cached;
  put = λ k v s. (k, v) ∷ s;
  drop_key = without;
}

abbrev pub laws : (V : Type 0) → IsCache (cache_of V)
laws V = record { find_put = λ j k v s. cached_or_kept (same k j) v _ }

abbrev pub drops : (V : Type 0) → DropsKey (cache_of V)
drops V = record { find_drop = cached-without }
