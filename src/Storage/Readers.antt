-- ===== src/Storage/Readers.antt =====
-- The readers of internal/storage/data_handler.go, one for each type of record set.
use z.Prelude.{ℕ, Name, txt, Bool, []}
use z.Prelude.Int.{pos}
use z.Types.Rr.{
  type_a, type_aaaa, type_cname, type_txt, type_ns, type_mx, type_srv, type_caa, type_ptr,
  type_tlsa, type_ds, type_aname,
}
use z.Types.Sets.{
  RrSet, IpRrSet, CnameRrSet, TxtRrSet, NsRrSet, MxRrSet, SrvRrSet, CaaRrSet, PtrRrSet, TlsaRrSet,
  DsRrSet, AnameRrSet,
}
use z.Hiredis.{Failure, failed, Result, ok, err, Redigo}
use z.Storage.Records.{Ristretto, Codec, DataHandlerConfig, State, get_rr_set, read}

-- A failed type assertion, which panics.
abbrev wrong_type : Failure
wrong_type = failed (txt "interface conversion")

abbrev pub empty_ips : IpRrSet
empty_ips = record {
  ttl_value = 0;
  filter_config = record { count = ""; order = ""; geo_filter = "" };
  health_check_config = record {
    protocol = "";
    uri = "";
    port = pos 0;
    timeout = pos 0;
    up_count = pos 0;
    down_count = pos 0;
    enable = Bool.false;
  };
  data_list = [];
}

-- The type assertions of the readers.
abbrev as_ips : RrSet → Result IpRrSet
as_ips (RrSet.ip s) = ok s
as_ips _ = err wrong_type

abbrev as_cname : RrSet → Result CnameRrSet
as_cname (RrSet.cname s) = ok s
as_cname _ = err wrong_type

abbrev as_txt : RrSet → Result TxtRrSet
as_txt (RrSet.txt_set s) = ok s
as_txt _ = err wrong_type

abbrev as_ns : RrSet → Result NsRrSet
as_ns (RrSet.ns s) = ok s
as_ns _ = err wrong_type

abbrev as_mx : RrSet → Result MxRrSet
as_mx (RrSet.mx s) = ok s
as_mx _ = err wrong_type

abbrev as_srv : RrSet → Result SrvRrSet
as_srv (RrSet.srv s) = ok s
as_srv _ = err wrong_type

abbrev as_caa : RrSet → Result CaaRrSet
as_caa (RrSet.caa s) = ok s
as_caa _ = err wrong_type

abbrev as_ptr : RrSet → Result PtrRrSet
as_ptr (RrSet.ptr s) = ok s
as_ptr _ = err wrong_type

abbrev as_tlsa : RrSet → Result TlsaRrSet
as_tlsa (RrSet.tlsa s) = ok s
as_tlsa _ = err wrong_type

abbrev as_ds : RrSet → Result DsRrSet
as_ds (RrSet.ds s) = ok s
as_ds _ = err wrong_type

abbrev as_aname : RrSet → Result AnameRrSet
as_aname (RrSet.aname s) = ok s
as_aname _ = err wrong_type

module _ (R : Redigo) (C : Ristretto RrSet) (J : Codec) (config : DataHandlerConfig) where
  unfoldable pub a : ℕ → Name → Name → State R C → Result IpRrSet × State R C
  unfolding get_rr_set
  a = read R C J config as_ips type_a (RrSet.ip empty_ips)

  unfoldable pub aaaa : ℕ → Name → Name → State R C → Result IpRrSet × State R C
  unfolding get_rr_set
  aaaa = read R C J config as_ips type_aaaa (RrSet.ip empty_ips)

  unfoldable pub cname : ℕ → Name → Name → State R C → Result CnameRrSet × State R C
  unfolding get_rr_set
  cname = read R C J config as_cname type_cname (RrSet.cname (record { ttl_value = 0; host = [] }))

  unfoldable pub txt_of : ℕ → Name → Name → State R C → Result TxtRrSet × State R C
  unfolding get_rr_set
  txt_of =
      read R C J config as_txt type_txt (RrSet.txt_set (record { ttl_value = 0; data_list = [] }))

  unfoldable pub ns : ℕ → Name → Name → State R C → Result NsRrSet × State R C
  unfolding get_rr_set
  ns = read R C J config as_ns type_ns (RrSet.ns (record { ttl_value = 0; data_list = [] }))

  unfoldable pub mx : ℕ → Name → Name → State R C → Result MxRrSet × State R C
  unfolding get_rr_set
  mx = read R C J config as_mx type_mx (RrSet.mx (record { ttl_value = 0; data_list = [] }))

  unfoldable pub srv : ℕ → Name → Name → State R C → Result SrvRrSet × State R C
  unfolding get_rr_set
  srv = read R C J config as_srv type_srv (RrSet.srv (record { ttl_value = 0; data_list = [] }))

  unfoldable pub caa : ℕ → Name → Name → State R C → Result CaaRrSet × State R C
  unfolding get_rr_set
  caa = read R C J config as_caa type_caa (RrSet.caa (record { ttl_value = 0; data_list = [] }))

  unfoldable pub ptr : ℕ → Name → Name → State R C → Result PtrRrSet × State R C
  unfolding get_rr_set
  ptr = read R C J config as_ptr type_ptr (RrSet.ptr (record { ttl_value = 0; domain = [] }))

  unfoldable pub tlsa : ℕ → Name → Name → State R C → Result TlsaRrSet × State R C
  unfolding get_rr_set
  tlsa = read R C J config as_tlsa type_tlsa (RrSet.tlsa (record { ttl_value = 0; data_list = [] }))

  unfoldable pub ds : ℕ → Name → Name → State R C → Result DsRrSet × State R C
  unfolding get_rr_set
  ds = read R C J config as_ds type_ds (RrSet.ds (record { ttl_value = 0; data_list = [] }))

  unfoldable pub aname : ℕ → Name → Name → State R C → Result AnameRrSet × State R C
  unfolding get_rr_set
  aname =
      read R C J config as_aname type_aname (RrSet.aname (record { ttl_value = 0; location = [] }))
