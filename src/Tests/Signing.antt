-- ===== src/Tests/Signing.antt =====
-- The theorem of Dnssec at a concrete input.
use mathlib.Core.List.{Perm}
use mathlib.Core.List.Perm
use z.Prelude.{txt, none, some, List, [], ◌∷◌}
use z.Types.Rr.{Rr, Rdata, type_a, type_txt, class_inet}
use z.Types.Values.{header}
use z.Zone.{Zone, ZoneKey}
use z.Dnssec.{Signer, sign_response}
use z.Dnssec.Kept.{unsigned, sign_response-Perm}
use z.Tests.Site.{site, site_zone, SiteTree}

abbrev pub signer : Signer
signer = record {
  key_tag = λ r. 7;
  algorithm = λ r. 13;
  sign = λ key name ttl rrs. some (1 ∷ 2 ∷ []);
  range = λ m. m;
}

abbrev key : ZoneKey
key = record {
  dnskey = header site 48 class_inet 300 (Rdata.dnskey 256 13 (txt "k"));
  private_key = txt "p";
  key_inception = 1;
  key_expiration = 9;
}

abbrev signed_zone : Zone SiteTree
signed_zone = record site_zone { zsk = some key; ksk = some key; dnskey_sig = none }

abbrev section : List Rr
section =
    header (txt "a.z.") type_a class_inet 300 (Rdata.a none)
    ∷ header (txt "a.z.") type_txt class_inet 300 (Rdata.txt_data [])
    ∷ header (txt "a.z.") type_a class_inet 300 (Rdata.a (some (1 ∷ [])))
    ∷ []

sign_response-Perm_example :
    Perm (unsigned (sign_response signer section (txt "a.z.") signed_zone)) section
sign_response-Perm_example =
    sign_response-Perm signer (txt "a.z.") signed_zone section (λ m. Perm.refl m) tt
