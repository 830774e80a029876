-- ===== src/Handler/Nsec.antt =====
-- addNSec of internal/handler/handler.go and the bitmaps of internal/dnssec/dnssec.go.
use z.Prelude.{ℕ, Name, txt, same, not, List, [], ◌∷◌, ◌++◌, ◌==◌, if◌then◌else◌}
use z.Types.Rr.{
  Rdata, type_a, type_ns, type_cname, type_soa, type_ptr, type_mx, type_txt, type_aaaa, type_srv,
  type_ds, type_rrsig, type_nsec, type_tlsa, type_caa, class_inet, rcode_success, rcode_name_error,
}
use z.Types.Values.{header}
use z.Zone.{Zone}
use z.Handler.World.{Context}

abbrev pub nsec_bitmap_zone : List ℕ
nsec_bitmap_zone =
    type_a ∷ type_cname ∷ type_ptr ∷ type_mx ∷ type_txt ∷ type_aaaa ∷ type_srv ∷ type_rrsig
    ∷ type_nsec ∷ type_tlsa ∷ type_caa ∷ []

abbrev pub nsec_bitmap_appex : List ℕ
nsec_bitmap_appex =
    type_a ∷ type_ns ∷ type_soa ∷ type_ptr ∷ type_mx ∷ type_txt ∷ type_aaaa ∷ type_srv ∷ type_rrsig
    ∷ type_nsec ∷ type_tlsa ∷ type_caa ∷ []

abbrev pub nsec_bitmap_sub_delegation : List ℕ
nsec_bitmap_sub_delegation = type_ns ∷ type_ds ∷ type_rrsig ∷ type_nsec ∷ []

abbrev pub nsec_bitmap_name_error : List ℕ
nsec_bitmap_name_error = type_rrsig ∷ type_nsec ∷ []

unfoldable pub filter_nsec_bitmap : ℕ → List ℕ → List ℕ
filter_nsec_bitmap qtype [] = []
filter_nsec_bitmap qtype (t ∷ bitmap) =
    let res = filter_nsec_bitmap qtype bitmap in if t == qtype then res else t ∷ res

-- The choice of the bitmap, by the name and by the response code before the change.
unfoldable pub nsec_bitmap : Name → ℕ → Name → ℕ → List ℕ
nsec_bitmap zone_name res name qtype =
    if same name zone_name
    then filter_nsec_bitmap qtype nsec_bitmap_appex
    else if res == rcode_name_error
    then nsec_bitmap_name_error
    else if qtype == type_ds
    then filter_nsec_bitmap qtype nsec_bitmap_sub_delegation
    else filter_nsec_bitmap qtype nsec_bitmap_zone

module _ {Tree : Type 0} where
  unfoldable pub add_nsec : Zone Tree → Name → ℕ → Context → Context
  unfolding nsec_bitmap
  add_nsec zone name qtype ctx =
      if not ctx.dnssec
      then ctx
      else let nsec =
          header name type_nsec class_inet zone.config.soa.min_ttl
            (Rdata.nsec (txt "\\000." ++ name) (nsec_bitmap zone.name ctx.res name qtype)) in
        let res =
          if same name zone.name
          then rcode_success
          else if ctx.res == rcode_name_error
          then rcode_success
          else ctx.res in
        record ctx { res = res; authority = ctx.authority ++ nsec ∷ [] }
