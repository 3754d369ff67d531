-- ===== src/Dnds/Unions/Ds.antt =====
-- The members of the operation of a `DSMessage`.
use netvirt.Prelude.{ℕ, [], Option, none, some}
use netvirt.Dnds.Types.{
  no_str, NodeConnInfo, ObjectChoice, DndsObject, SearchRequest, SearchResponse, DsChoice,
  no_object,
}

abbrev pub no_dnds_object : DndsObject
no_dnds_object = record { present = no_object; choice = ObjectChoice.blank }

abbrev pub as_add_request : DsChoice → Option DndsObject
as_add_request DsChoice.blank = some no_dnds_object
as_add_request (DsChoice.add_request r) = some r
as_add_request (DsChoice.add_response r) = none
as_add_request (DsChoice.del_request r) = none
as_add_request (DsChoice.del_response r) = none
as_add_request (DsChoice.modify_request r) = none
as_add_request (DsChoice.modify_response r) = none
as_add_request (DsChoice.node_conn_info r) = none
as_add_request (DsChoice.search_request r) = none
as_add_request (DsChoice.search_response r) = none

abbrev pub as_add_response : DsChoice → Option ℕ
as_add_response DsChoice.blank = some 0
as_add_response (DsChoice.add_request r) = none
as_add_response (DsChoice.add_response r) = some r
as_add_response (DsChoice.del_request r) = none
as_add_response (DsChoice.del_response r) = none
as_add_response (DsChoice.modify_request r) = none
as_add_response (DsChoice.modify_response r) = none
as_add_response (DsChoice.node_conn_info r) = none
as_add_response (DsChoice.search_request r) = none
as_add_response (DsChoice.search_response r) = none

abbrev pub as_del_request : DsChoice → Option DndsObject
as_del_request DsChoice.blank = some no_dnds_object
as_del_request (DsChoice.add_request r) = none
as_del_request (DsChoice.add_response r) = none
as_del_request (DsChoice.del_request r) = some r
as_del_request (DsChoice.del_response r) = none
as_del_request (DsChoice.modify_request r) = none
as_del_request (DsChoice.modify_response r) = none
as_del_request (DsChoice.node_conn_info r) = none
as_del_request (DsChoice.search_request r) = none
as_del_request (DsChoice.search_response r) = none

abbrev pub as_del_response : DsChoice → Option ℕ
as_del_response DsChoice.blank = some 0
as_del_response (DsChoice.add_request r) = none
as_del_response (DsChoice.add_response r) = none
as_del_response (DsChoice.del_request r) = none
as_del_response (DsChoice.del_response r) = some r
as_del_response (DsChoice.modify_request r) = none
as_del_response (DsChoice.modify_response r) = none
as_del_response (DsChoice.node_conn_info r) = none
as_del_response (DsChoice.search_request r) = none
as_del_response (DsChoice.search_response r) = none

abbrev pub as_modify_request : DsChoice → Option DndsObject
as_modify_request DsChoice.blank = some no_dnds_object
as_modify_request (DsChoice.add_request r) = none
as_modify_request (DsChoice.add_response r) = none
as_modify_request (DsChoice.del_request r) = none
as_modify_request (DsChoice.del_response r) = none
as_modify_request (DsChoice.modify_request r) = some r
as_modify_request (DsChoice.modify_response r) = none
as_modify_request (DsChoice.node_conn_info r) = none
as_modify_request (DsChoice.search_request r) = none
as_modify_request (DsChoice.search_response r) = none

abbrev pub as_modify_response : DsChoice → Option ℕ
as_modify_response DsChoice.blank = some 0
as_modify_response (DsChoice.add_request r) = none
as_modify_response (DsChoice.add_response r) = none
as_modify_response (DsChoice.del_request r) = none
as_modify_response (DsChoice.del_response r) = none
as_modify_response (DsChoice.modify_request r) = none
as_modify_response (DsChoice.modify_response r) = some r
as_modify_response (DsChoice.node_conn_info r) = none
as_modify_response (DsChoice.search_request r) = none
as_modify_response (DsChoice.search_response r) = none

abbrev pub as_node_conn_info : DsChoice → Option NodeConnInfo
as_node_conn_info DsChoice.blank = some (record { cert_name = no_str; ip_addr = no_str; state = 0 })
as_node_conn_info (DsChoice.add_request r) = none
as_node_conn_info (DsChoice.add_response r) = none
as_node_conn_info (DsChoice.del_request r) = none
as_node_conn_info (DsChoice.del_response r) = none
as_node_conn_info (DsChoice.modify_request r) = none
as_node_conn_info (DsChoice.modify_response r) = none
as_node_conn_info (DsChoice.node_conn_info r) = some r
as_node_conn_info (DsChoice.search_request r) = none
as_node_conn_info (DsChoice.search_response r) = none

abbrev pub as_search_request : DsChoice → Option SearchRequest
as_search_request DsChoice.blank =
    some (record { searchtype = 0; objectname = none; object = 0; objects = none })
as_search_request (DsChoice.add_request r) = none
as_search_request (DsChoice.add_response r) = none
as_search_request (DsChoice.del_request r) = none
as_search_request (DsChoice.del_response r) = none
as_search_request (DsChoice.modify_request r) = none
as_search_request (DsChoice.modify_response r) = none
as_search_request (DsChoice.node_conn_info r) = none
as_search_request (DsChoice.search_request r) = some r
as_search_request (DsChoice.search_response r) = none

abbrev pub as_search_response : DsChoice → Option SearchResponse
as_search_response DsChoice.blank = some (record { searchtype = 0; dnds_result = 0; objects = [] })
as_search_response (DsChoice.add_request r) = none
as_search_response (DsChoice.add_response r) = none
as_search_response (DsChoice.del_request r) = none
as_search_response (DsChoice.del_response r) = none
as_search_response (DsChoice.modify_request r) = none
as_search_response (DsChoice.modify_response r) = none
as_search_response (DsChoice.node_conn_info r) = none
as_search_response (DsChoice.search_request r) = none
as_search_response (DsChoice.search_response r) = some r
