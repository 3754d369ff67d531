-- ===== src/Dnds/Unions.antt =====
-- Reading a member of a union: `none` where the bytes are those of another member, which are not
-- modelled. Also the numbers of the tags.
mod Dn
mod Ds
pub use Dn.*
pub use Ds.*
use netvirt.Prelude.{ℕ, [], Option, none, some}
use netvirt.Dnds.Types.{
  Str, no_str, NetinfoRequest, NetinfoResponse, ProvResponse, P2pRequest, P2pResponse, NodeConnInfo,
  Client, Context, Node, ObjectChoice, DndsObject, SearchRequest, SearchResponse, DnChoice,
  DsChoice, DnMessage, DsMessage, PduChoice, PduPr, DnopPr, DsopPr, ObjectPr, no_pdu, dnm_pdu,
  dsm_pdu, ethernet_pdu, no_dnop, auth_request_op, auth_response_op, netinfo_request_op,
  netinfo_response_op, prov_request_op, prov_response_op, p2p_request_op, p2p_response_op,
  dn_terminate_op, no_dsop, add_request_op, add_response_op, del_request_op, del_response_op,
  modify_request_op, modify_response_op, node_conn_info_op, search_request_op, search_response_op,
  ds_terminate_op, no_object, client_pr, context_pr, node_pr,
}

abbrev pub pdu_index : PduPr → ℕ
pdu_index no_pdu = 0
pdu_index dnm_pdu = 1
pdu_index dsm_pdu = 2
pdu_index ethernet_pdu = 3

abbrev pub dnop_index : DnopPr → ℕ
dnop_index no_dnop = 0
dnop_index auth_request_op = 1
dnop_index auth_response_op = 2
dnop_index netinfo_request_op = 3
dnop_index netinfo_response_op = 4
dnop_index prov_request_op = 5
dnop_index prov_response_op = 6
dnop_index p2p_request_op = 7
dnop_index p2p_response_op = 8
dnop_index dn_terminate_op = 9

abbrev pub dsop_index : DsopPr → ℕ
dsop_index no_dsop = 0
dsop_index add_request_op = 1
dsop_index add_response_op = 2
dsop_index del_request_op = 3
dsop_index del_response_op = 4
dsop_index modify_request_op = 5
dsop_index modify_response_op = 6
dsop_index node_conn_info_op = 7
dsop_index search_request_op = 8
dsop_index search_response_op = 9
dsop_index ds_terminate_op = 10

abbrev pub object_index : ObjectPr → ℕ
object_index no_object = 0
object_index client_pr = 1
object_index context_pr = 2
object_index node_pr = 3

abbrev pub as_dnm : PduChoice → Option DnMessage
as_dnm PduChoice.blank =
    some (record { seq_number = 0; ack_number = 0; present = no_dnop; choice = DnChoice.blank })
as_dnm (PduChoice.dnm r) = some r
as_dnm (PduChoice.dsm r) = none
as_dnm (PduChoice.ethernet r) = none

abbrev pub as_dsm : PduChoice → Option DsMessage
as_dsm PduChoice.blank = some (record {
  seq_number = 0;
  ack_number = 0;
  apikey = none;
  action = 0;
  present = no_dsop;
  choice = DsChoice.blank;
})
as_dsm (PduChoice.dnm r) = none
as_dsm (PduChoice.dsm r) = some r
as_dsm (PduChoice.ethernet r) = none

abbrev pub as_ethernet : PduChoice → Option Str
as_ethernet PduChoice.blank = some no_str
as_ethernet (PduChoice.dnm r) = none
as_ethernet (PduChoice.dsm r) = none
as_ethernet (PduChoice.ethernet r) = some r

abbrev pub as_client : ObjectChoice → Option Client
as_client ObjectChoice.blank =
    some (record { id = none; email = none; password = none; apikey = none; status = none })
as_client (ObjectChoice.client r) = some r
as_client (ObjectChoice.context r) = none
as_client (ObjectChoice.node r) = none

abbrev pub as_context : ObjectChoice → Option Context
as_context ObjectChoice.blank = some (record {
  id = none;
  client_id = none;
  description = none;
  network = none;
  netmask = none;
  server_cert = none;
  server_privkey = none;
  trusted_cert = none;
})
as_context (ObjectChoice.client r) = none
as_context (ObjectChoice.context r) = some r
as_context (ObjectChoice.node r) = none

abbrev pub as_node : ObjectChoice → Option Node
as_node ObjectChoice.blank = some (record {
  context_id = none;
  context_name = none;
  description = none;
  uuid = none;
  prov_code = none;
  certificate = none;
  certificate_key = none;
  trusted_cert = none;
  ip_address = none;
  status = none;
})
as_node (ObjectChoice.client r) = none
as_node (ObjectChoice.context r) = none
as_node (ObjectChoice.node r) = some r
