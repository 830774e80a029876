-- ===== src/Dnssec/Kept.antt =====
-- Signing keeps the records of a section: SignResponse of internal/dnssec/dnssec.go drops none,
-- doubles none, and adds signatures alone.
use mathlib.Core.Logic.{∥∥₁_elim}
use mathlib.Core.List.{Perm, Permᴰ, perm_append_comm, perm_middle, Perm-prop}
use mathlib.Core.List.Perm
use z.Prelude.{
  Name, ◌≡◌, refl, ◌∙◌, false, Option, none, some, List, [], ◌∷◌, ◌++◌, map, append_assoc,
  append-nil, if◌then◌else◌, arith, Bool-cases, inl, inr,
}
use z.Types.Rr.{Rr, type_rrsig}
use z.Zone.{Zone}
use z.Dnssec.{
  key_of, same_key, is_signature, Sets, add_to_set, split_from, split_sets, Signer, sign_rr_set,
  signed_by_zone, signature_of, sign_sets, sign_response,
}

-- The records that are neither signatures nor OPT records.
abbrev pub ordinary : List Rr → List Rr
ordinary [] = []
ordinary (r ∷ l) = let later = ordinary l in if is_signature r then later else r ∷ later

-- The same of a signed section, where a nil record counts as none.
abbrev pub unsigned : List (Option Rr) → List Rr
unsigned [] = []
unsigned (none ∷ l) = unsigned l
unsigned (some r ∷ l) = let later = unsigned l in if is_signature r then later else r ∷ later

abbrev kept : Sets → List Rr
kept [] = []
kept ((key, set) ∷ rest) = ordinary set ++ kept rest

ordinary-append : (l m : List Rr) → ordinary (l ++ m) ≡ ordinary l ++ ordinary m
ordinary-append [] m = refl
ordinary-append (r ∷ l) m = ground (arith, ordinary-append l m)

unsigned-append : (l m : List (Option Rr)) → unsigned (l ++ m) ≡ unsigned l ++ unsigned m
unsigned-append [] m = refl
unsigned-append (none ∷ l) m = unsigned-append l m
unsigned-append (some r ∷ l) m = ground (arith, unsigned-append l m)

unsigned-map : (l : List Rr) → unsigned (map some l) ≡ ordinary l
unsigned-map [] = refl
unsigned-map (r ∷ l) = ground (arith, unsigned-map l)

-- The order of the sets does not matter.
kept_perm : {m n : Sets} → Permᴰ m n → Perm (kept m) (kept n)
kept_perm Permᴰ.nil = Perm.refl []
kept_perm (Permᴰ.cons {b = b} e d) = rw e (Perm.append_left (ordinary b.1) (kept_perm d))
kept_perm (Permᴰ.swap {a' = a} {b' = b} {l = l} e f) =
    rw
      (
        e,
        f,
        ← append_assoc (ordinary b.1) (ordinary a.1) (kept l),
        ← append_assoc (ordinary a.1) (ordinary b.1) (kept l),
      )
      (Perm.append_right (kept l) (perm_append_comm (ordinary b.1) (ordinary a.1)))
kept_perm (Permᴰ.trans d e) = Perm.trans (kept_perm d) (kept_perm e)

kept-add_to_set :
    (r : Rr) (m : Sets) → is_signature r ≡ false → Perm (kept (add_to_set r m)) (r ∷ kept m)
unfolding add_to_set
kept-add_to_set r [] h = rw h (Perm.refl (r ∷ []))
kept-add_to_set r ((key, set) ∷ rest) h = elim (Bool-cases (same_key key (key_of r))) [
  | inl e ↦
      let one : ordinary (r ∷ []) ≡ r ∷ [] = rw h refl in
      rw (e, ordinary-append set (r ∷ []), one, append_assoc (ordinary set) (r ∷ []) (kept rest))
        (perm_middle (ordinary set) (kept rest))
  | inr e ↦ rw e (
      Perm.trans (Perm.append_left (ordinary set) (kept-add_to_set r rest h))
        (perm_middle (ordinary set) (kept rest)))
]

kept-split_from :
    (m : Sets) (rrs : List Rr) → Perm (kept (split_from m rrs)) (kept m ++ ordinary rrs)
unfolding split_from
kept-split_from m [] = rw (append-nil (kept m)) (Perm.refl (kept m))
kept-split_from m (r ∷ rest) = elim (Bool-cases (is_signature r)) [
  | inl e ↦ rw e (kept-split_from m rest)
  | inr e ↦ rw e (
      Perm.trans (kept-split_from (add_to_set r m) rest) (
        Perm.trans (Perm.append_right (ordinary rest) (kept-add_to_set r m e))
          (Perm.symm (perm_middle (kept m) (ordinary rest)))))
]

module _ (S : Signer) {Tree : Type 0} (qname : Name) (z : Zone Tree) where
  open S use {range}

  -- What the zone holds as the signature of its keys is a signature, if there is one.
  abbrev pub KeySigned : Option Rr → Type 0
  KeySigned none = Unit
  KeySigned (some r) = r.rrtype ≡ type_rrsig

  unsigned-key : (o : Option Rr) → KeySigned o → unsigned (o ∷ []) ≡ []
  unsigned-key none h = refl
  unsigned-key (some r) h = ground arith

  unsigned-signed_by_zone : (r : Rr) (rest : List Rr) → unsigned (signed_by_zone S z r rest) ≡ []
  unfolding signed_by_zone sign_rr_set
  unsigned-signed_by_zone r rest = ground arith

  unsigned-signature_of :
      (set : List Rr) → KeySigned z.dnskey_sig → unsigned (signature_of S qname z set) ≡ []
  unfolding signature_of
  unsigned-signature_of [] h = refl
  unsigned-signature_of (r ∷ rest) h =
      ground (arith, unsigned-key z.dnskey_sig h, unsigned-signed_by_zone r rest)

  unsigned-sign_sets :
      (m : Sets) → KeySigned z.dnskey_sig → unsigned (sign_sets S qname z m) ≡ kept m
  unfolding sign_sets
  unsigned-sign_sets [] h = refl
  unsigned-sign_sets ((key, set) ∷ m) h =
      let tail = signature_of S qname z set ++ sign_sets S qname z m in
      unsigned-append (map some set) tail
      ∙ rw (
        unsigned-map set,
        unsigned-append (signature_of S qname z set) (sign_sets S qname z m),
        unsigned-signature_of set h,
        unsigned-sign_sets m h,
      )

  -- If Go's order of the map is some order of its entries, and the zone's signature of its keys is
  -- nil or a signature, then the records of the signed section that are not signatures are those of
  -- the section that are neither signatures nor OPT records, each as often, in some order.
  pub sign_response-Perm :
      (rrs : List Rr)
      → ((m : Sets) → Perm (range m) m)
      → KeySigned z.dnskey_sig
      → Perm (unsigned (sign_response S rrs qname z)) (ordinary rrs)
  unfolding sign_response split_sets
  sign_response-Perm rrs any_order h = rw (unsigned-sign_sets (range (split_from [] rrs)) h) (
      Perm.trans (∥∥₁_elim (any_order (split_from [] rrs)) Perm-prop kept_perm)
        (kept-split_from [] rrs))
