-- ===== src/Types/Rr.antt =====
-- Resource records as internal/types/dns_types.go fills them in: the header that the sources write
-- and the data of each type, with the numbers of the types, classes and response codes.
use z.Prelude.{ℕ, Name, Option, List}

-- net.IP, whose zero value is nil
abbrev pub Ip : Type 0
Ip = Option (List ℕ)

abbrev pub type_none : ℕ
type_none = 0

abbrev pub type_a : ℕ
type_a = 1

abbrev pub type_ns : ℕ
type_ns = 2

abbrev pub type_cname : ℕ
type_cname = 5

abbrev pub type_soa : ℕ
type_soa = 6

abbrev pub type_ptr : ℕ
type_ptr = 12

abbrev pub type_mx : ℕ
type_mx = 15

abbrev pub type_txt : ℕ
type_txt = 16

abbrev pub type_aaaa : ℕ
type_aaaa = 28

abbrev pub type_srv : ℕ
type_srv = 33

abbrev pub type_opt : ℕ
type_opt = 41

abbrev pub type_ds : ℕ
type_ds = 43

abbrev pub type_rrsig : ℕ
type_rrsig = 46

abbrev pub type_nsec : ℕ
type_nsec = 47

abbrev pub type_dnskey : ℕ
type_dnskey = 48

abbrev pub type_tlsa : ℕ
type_tlsa = 52

abbrev pub type_caa : ℕ
type_caa = 257

abbrev pub type_aname : ℕ
type_aname = 500

abbrev pub class_inet : ℕ
class_inet = 1

abbrev pub class_none : ℕ
class_none = 254

abbrev pub rcode_success : ℕ
rcode_success = 0

abbrev pub rcode_server_failure : ℕ
rcode_server_failure = 2

abbrev pub rcode_name_error : ℕ
rcode_name_error = 3

abbrev pub rcode_refused : ℕ
rcode_refused = 5

abbrev pub rcode_not_auth : ℕ
rcode_not_auth = 9

pub record Soa : Type 0 where
  pub ns : Name
  pub mbox : Name
  pub refresh : ℕ
  pub retry : ℕ
  pub expire : ℕ
  pub minttl : ℕ
  pub serial : ℕ

-- The data of a record, one constructor for each type that the sources build.
pub data Rdata : Type 0 where
  a : Ip → Rdata
  aaaa : Ip → Rdata
  cname : Name → Rdata
  txt_data : List (List ℕ) → Rdata
  ns : Name → Rdata
  mx : Name → ℕ → Rdata
  srv : Name → ℕ → ℕ → ℕ → Rdata
  caa : Name → ℕ → Name → Rdata
  ptr : Name → Rdata
  tlsa : ℕ → ℕ → ℕ → Name → Rdata
  ds : ℕ → ℕ → ℕ → Name → Rdata
  soa : Soa → Rdata
  nsec : Name → List ℕ → Rdata
  dnskey : ℕ → ℕ → Name → Rdata
  rrsig : ℕ → ℕ → ℕ → Name → ℕ → List ℕ → Rdata
  opt : Rdata

-- dns.RR with the fields of its dns.RR_Header that the sources set
pub record Rr : Type 0 where
  pub name : Name
  pub rrtype : ℕ
  pub class : ℕ
  pub ttl : ℕ
  pub rdata : Rdata
