-- ===== src/Dnds/Types.antt =====
-- The structures that asn1c makes of libnvcore/src/protocol/dnds.asn1, as far as the accessors of
-- dnds.c reach into them. A union holds the bytes of one of its members at a time, whatever
-- `present` says: `blank` is the zeros of `calloc`, and every other constructor the member that was
-- written last. An enumerated value is its number.
use netvirt.Prelude.{ℕ, List, Option, none}

-- `DNDS_retcode_t` of dnds.h
pub data Code : Type 0 where
  success alloc_failed invalid_param invalid_pdu invalid_op : Code
  invalid_object_type value_not_present conversion_failed : Code

-- `OCTET_STRING_t`, whose `buf` may be NULL.
pub record Str : Type 0 where
  pub buf : Option (List ℕ)
  pub size : ℕ

abbrev pub no_str : Str
no_str = record { buf = none; size = 0 }

pub data PduPr : Type 0 where
  no_pdu dnm_pdu dsm_pdu ethernet_pdu : PduPr

pub data DnopPr : Type 0 where
  no_dnop auth_request_op auth_response_op netinfo_request_op netinfo_response_op : DnopPr
  prov_request_op prov_response_op p2p_request_op p2p_response_op dn_terminate_op : DnopPr

pub data DsopPr : Type 0 where
  no_dsop add_request_op add_response_op del_request_op del_response_op modify_request_op : DsopPr
  modify_response_op node_conn_info_op search_request_op search_response_op ds_terminate_op : DsopPr

pub data ObjectPr : Type 0 where
  no_object client_pr context_pr node_pr : ObjectPr

pub record NetinfoRequest : Type 0 where
  pub ip_local : Str
  pub mac_addr : Str

pub record NetinfoResponse : Type 0 where
  pub ip_address : Str
  pub netmask : Str
  pub result : ℕ

pub record ProvResponse : Type 0 where
  pub certificate : Option Str
  pub certificate_key : Option Str
  pub trusted_cert : Option Str
  pub ip_address : Option Str

pub record P2pRequest : Type 0 where
  pub mac_addr_dst : Str
  pub ip_addr_dst : Str
  pub port : ℕ
  pub side : ℕ

pub record P2pResponse : Type 0 where
  pub mac_addr_dst : Str
  pub result : ℕ

pub record NodeConnInfo : Type 0 where
  pub cert_name : Str
  pub ip_addr : Str
  pub state : ℕ

pub record Client : Type 0 where
  pub id : Option ℕ
  pub email : Option Str
  pub password : Option Str
  pub apikey : Option Str
  pub status : Option ℕ

pub record Context : Type 0 where
  pub id : Option ℕ
  pub client_id : Option ℕ
  pub description : Option Str
  pub network : Option Str
  pub netmask : Option Str
  pub server_cert : Option Str
  pub server_privkey : Option Str
  pub trusted_cert : Option Str

pub record Node : Type 0 where
  pub context_id : Option ℕ
  pub context_name : Option Str
  pub description : Option Str
  pub uuid : Option Str
  pub prov_code : Option Str
  pub certificate : Option Str
  pub certificate_key : Option Str
  pub trusted_cert : Option Str
  pub ip_address : Option Str
  pub status : Option ℕ

pub data ObjectChoice : Type 0 where
  blank : ObjectChoice
  client : Client → ObjectChoice
  context : Context → ObjectChoice
  node : Node → ObjectChoice

pub record DndsObject : Type 0 where
  pub present : ObjectPr
  pub choice : ObjectChoice

-- The two lists of objects hold pointers, and so does `object`.
pub record SearchRequest : Type 0 where
  pub searchtype : ℕ
  pub objectname : Option ℕ
  pub object : ℕ
  pub objects : Option (List ℕ)

pub record SearchResponse : Type 0 where
  pub searchtype : ℕ
  pub dnds_result : ℕ
  pub objects : List ℕ

pub data DnChoice : Type 0 where
  blank : DnChoice
  auth_request : Str → DnChoice
  auth_response : ℕ → DnChoice
  netinfo_request : NetinfoRequest → DnChoice
  netinfo_response : NetinfoResponse → DnChoice
  prov_request : Option Str → DnChoice
  prov_response : ProvResponse → DnChoice
  p2p_request : P2pRequest → DnChoice
  p2p_response : P2pResponse → DnChoice

pub data DsChoice : Type 0 where
  blank : DsChoice
  add_request : DndsObject → DsChoice
  add_response : ℕ → DsChoice
  del_request : DndsObject → DsChoice
  del_response : ℕ → DsChoice
  modify_request : DndsObject → DsChoice
  modify_response : ℕ → DsChoice
  node_conn_info : NodeConnInfo → DsChoice
  search_request : SearchRequest → DsChoice
  search_response : SearchResponse → DsChoice

pub record DnMessage : Type 0 where
  pub seq_number : ℕ
  pub ack_number : ℕ
  pub present : DnopPr
  pub choice : DnChoice

pub record DsMessage : Type 0 where
  pub seq_number : ℕ
  pub ack_number : ℕ
  pub apikey : Option Str
  pub action : ℕ
  pub present : DsopPr
  pub choice : DsChoice

pub data PduChoice : Type 0 where
  blank : PduChoice
  dnm : DnMessage → PduChoice
  dsm : DsMessage → PduChoice
  ethernet : Str → PduChoice

pub record DndsMessage : Type 0 where
  pub version : ℕ
  pub channel : ℕ
  pub present : PduPr
  pub choice : PduChoice
