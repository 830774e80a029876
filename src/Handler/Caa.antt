-- ===== src/Handler/Caa.antt =====
-- findCAA of internal/handler/handler.go: the search for a CAA set from the location of a name
-- towards the root. The loop runs on fuel, one round for each dot of the location and one more; that
-- this is enough needs only that FindLocation answers no name with more dots than it was asked.
use z.Prelude.{
  ℕ, zero, suc, Name, txt, ◌+◌, ◌≤◌, ◌<◌, ◌≡◌, refl, ap, ◌∙◌, true, not, Option, none, some, [],
  ◌∷◌, is_empty, ◌==◌, if◌then◌else◌, arith, Bool-cases, Option-cases, inl, inr,
}
use z.Types.Sets.{CaaRrSet}
use z.Zone.{Zone, dot}
use z.Zone.Depth.{dots, is_found}
use z.Handler.World.{World}

-- strings.SplitAfterN(location, ".", 2), if it has two parts: the second
abbrev pub after_dot : Name → Option Name
after_dot [] = none
after_dot (c ∷ rest) = let later = after_dot rest in if c == dot then some rest else later

dots-after_dot : (l r : Name) → after_dot l ≡ some r → dots r + 1 ≤ dots l
dots-after_dot [] r h = ground arith
dots-after_dot (c ∷ l) r h = elim (Bool-cases (c == dot)) [
  | inl e ↦ ground arith
  | inr e ↦ ground (arith, dots-after_dot l r)
]

module _ {Tree : Type 0} (W : World Tree) (zone : Zone Tree) where
  open W use {Store, find_location, caa}

  -- What one round ends with: a set, a further location, or no dot left.
  pub data CaaRound : Type 0 where
    found : CaaRrSet → CaaRound
    further : Name → CaaRound
    exhausted : CaaRound

  pub caa_round : Name → Store → CaaRound × Store
  caa_round location s = elim (after_dot location) [
    | none ↦ (exhausted, s)
    | some rest ↦
        let (next, match) = find_location zone rest in
        if is_found match
        then (let (read, s') = caa zone.name next s in
            elim read [
              | none ↦ (further rest, s')
              | some rrset ↦
                  if not (is_empty rrset.data_list) then (found rrset, s') else (further next, s')
            ])
        else (further rest, s)
  ]

  -- The loop; the outer `none` is the end of the fuel.
  pub find_caa_loop : ℕ → Name → Store → Option (Option CaaRrSet) × Store
  find_caa_loop zero location s = (none, s)
  find_caa_loop (suc fuel) location s =
      let (next, s') = caa_round location s in
      elim next [
        | found rrset ↦ (some (some rrset), s')
        | further name ↦ find_caa_loop fuel name s'
        | exhausted ↦ (some none, s')
      ]

  -- The search above the location, and then at the zone itself; no answer if the loop goes on.
  search_above : Name → Store → Option CaaRrSet × Store
  search_above location s =
      let (above, s') = find_caa_loop (dots location + 1) location s in
      elim above [
        | none ↦ (none, s')
        | some (some rrset) ↦ (some rrset, s')
        | some none ↦ caa zone.name (txt "@") s'
      ]

  unfoldable pub find_caa : Name → Store → Option CaaRrSet × Store
  unfolding search_above find_caa_loop caa_round
  find_caa query s =
      let (location, _) = find_location zone query in
      let (read, s₁) = caa zone.name location s in
      elim read [
        | none ↦ search_above location s₁
        | some rrset ↦
            if not (is_empty rrset.data_list) then (some rrset, s₁) else search_above location s₁
      ]

  -- FindLocation answers no location with more dots than the name it was asked.
  pub record NoMoreDots : Type 0 where
    pub bound :
        (q : Name)
        → is_found (find_location zone q).1 ≡ true
        → dots (find_location zone q).0 ≤ dots q

  module _ (few : NoMoreDots) where
    open few use {bound}

    caa_round-further :
        (location name : Name) (s : Store)
        → (caa_round location s).0 ≡ further name
        → dots name < dots location
    unfolding caa_round
    caa_round-further location name s h = elim (Option-cases (after_dot location)) [
      | inl e ↦ ground arith
      | inr (rest, e) ↦ ground (arith, bound rest, dots-after_dot location rest e)
    ]

    -- The result of the loop with every fuel above `fuel`.
    abbrev Ends : ℕ → Name → Store → Type 0
    Ends fuel location s =
        (rrset : Option CaaRrSet) × (s' : Store) × ((extra : ℕ)
          → find_caa_loop (fuel + extra) location s ≡ (some rrset, s'))

    suc_fuel :
        (fuel extra : ℕ) (location : Name) (s : Store) {r : Option (Option CaaRrSet) × Store}
        → find_caa_loop (suc (fuel + extra)) location s ≡ r
        → find_caa_loop (suc fuel + extra) location s ≡ r
    suc_fuel fuel extra location s h = ap (λ n. find_caa_loop n location s) (omega arith) ∙ h

    one_round :
        (fuel : ℕ) (location : Name) (s : Store)
        → ((name : Name) (t : Store) → dots name < fuel → Ends fuel name t)
        → dots location < suc fuel
        → (next : CaaRound) → (caa_round location s).0 ≡ next
        → Ends (suc fuel) location s
    unfolding find_caa_loop
    one_round fuel location s ih h (found rrset) e = (
      some rrset,
      (caa_round location s).1,
      λ extra. suc_fuel fuel extra location s (rw (e, find_caa_loop) refl),
    )
    one_round fuel location s ih h exhausted e = (
      none,
      (caa_round location s).1,
      λ extra. suc_fuel fuel extra location s (rw (e, find_caa_loop) refl),
    )
    one_round fuel location s ih h (further name) e =
        let (rrset, s', ends) =
          ih name (caa_round location s).1 (omega (arith, caa_round-further location name s e)) in
        (rrset, s', λ extra. suc_fuel fuel extra location s (rw (e, find_caa_loop) (ends extra)))

    loop-Ends :
        (fuel : ℕ) (location : Name) (s : Store) → dots location < fuel → Ends fuel location s
    loop-Ends zero location s h = absurd (omega arith)
    loop-Ends (suc fuel) location s h =
        one_round fuel location s (loop-Ends fuel) h (caa_round location s).0 refl

    -- If FindLocation answers no deeper location than it is asked for, then the search ends: there
    -- is one result, a set or none, with which the loop ends before the fuel does, for every fuel
    -- above the number of the location's dots.
    pub find_caa_loop-enough :
        (location : Name) (s : Store)
        → (rrset : Option CaaRrSet) × (s' : Store) × ((extra : ℕ)
            → find_caa_loop (dots location + 1 + extra) location s ≡ (some rrset, s'))
    find_caa_loop-enough location s = loop-Ends (dots location + 1) location s (omega arith)
