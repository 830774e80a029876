-- ===== src/Types/Sets.antt =====
-- The record sets of internal/types/dns_types.go: the structures behind its interface RRSet.
use z.Prelude.{ℕ, Name, String, Bool, List}
use z.Prelude.Int.{ℤ}
use z.Types.Rr.{Ip}

pub record IpRr : Type 0 where
  pub weight : ℤ
  pub ip : Ip
  pub country : List String
  pub asn : List ℕ

pub record IpHealthCheckConfig : Type 0 where
  pub protocol : String
  pub uri : String
  pub port : ℤ
  pub timeout : ℤ
  pub up_count : ℤ
  pub down_count : ℤ
  pub enable : Bool

pub record IpFilterConfig : Type 0 where
  pub count : String
  pub order : String
  pub geo_filter : String

pub record IpRrSet : Type 0 where
  pub ttl_value : ℕ
  pub filter_config : IpFilterConfig
  pub health_check_config : IpHealthCheckConfig
  pub data_list : List IpRr

pub record CnameRrSet : Type 0 where
  pub ttl_value : ℕ
  pub host : Name

pub record TxtRrSet : Type 0 where
  pub ttl_value : ℕ
  pub data_list : List (List ℕ)

pub record NsRrSet : Type 0 where
  pub ttl_value : ℕ
  pub data_list : List Name

pub record MxRr : Type 0 where
  pub host : Name
  pub preference : ℕ

pub record MxRrSet : Type 0 where
  pub ttl_value : ℕ
  pub data_list : List MxRr

pub record SrvRr : Type 0 where
  pub target : Name
  pub priority : ℕ
  pub weight : ℕ
  pub port : ℕ

pub record SrvRrSet : Type 0 where
  pub ttl_value : ℕ
  pub data_list : List SrvRr

pub record CaaRr : Type 0 where
  pub tag : Name
  pub value : Name
  pub flag : ℕ

pub record CaaRrSet : Type 0 where
  pub ttl_value : ℕ
  pub data_list : List CaaRr

pub record PtrRrSet : Type 0 where
  pub ttl_value : ℕ
  pub domain : Name

pub record TlsaRr : Type 0 where
  pub usage : ℕ
  pub selector : ℕ
  pub matching_type : ℕ
  pub certificate : Name

pub record TlsaRrSet : Type 0 where
  pub ttl_value : ℕ
  pub data_list : List TlsaRr

pub record DsRr : Type 0 where
  pub key_tag : ℕ
  pub algorithm : ℕ
  pub digest_type : ℕ
  pub digest : Name

pub record DsRrSet : Type 0 where
  pub ttl_value : ℕ
  pub data_list : List DsRr

pub record AnameRrSet : Type 0 where
  pub ttl_value : ℕ
  pub location : Name

-- A value of the interface RRSet: its dynamic type and the value behind the pointer.
pub data RrSet : Type 0 where
  ip : IpRrSet → RrSet
  cname : CnameRrSet → RrSet
  txt_set : TxtRrSet → RrSet
  ns : NsRrSet → RrSet
  mx : MxRrSet → RrSet
  srv : SrvRrSet → RrSet
  caa : CaaRrSet → RrSet
  ptr : PtrRrSet → RrSet
  tlsa : TlsaRrSet → RrSet
  ds : DsRrSet → RrSet
  aname : AnameRrSet → RrSet
