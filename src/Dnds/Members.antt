-- ===== src/Dnds/Members.antt =====
-- The members of the unions, each with its tag, and what it means to go through one.
use netvirt.Prelude.{ℕ, Option, some, ◌≡◌, refl}
use netvirt.Dnds.Types.{
  Str, NetinfoRequest, NetinfoResponse, ProvResponse, P2pRequest, P2pResponse, NodeConnInfo, Client,
  Context, Node, ObjectChoice, DndsObject, SearchRequest, SearchResponse, DnChoice, DsChoice,
  DnopPr, DsopPr, ObjectPr, auth_request_op, auth_response_op, netinfo_request_op,
  netinfo_response_op, prov_request_op, prov_response_op, p2p_request_op, p2p_response_op,
  add_request_op, add_response_op, del_request_op, del_response_op, modify_request_op,
  modify_response_op, node_conn_info_op, search_request_op, search_response_op, client_pr,
  context_pr, node_pr,
}
use netvirt.Dnds.Unions.{
  as_auth_request, as_auth_response, as_netinfo_request, as_netinfo_response, as_prov_request,
  as_prov_response, as_p2p_request, as_p2p_response, as_add_request, as_add_response,
  as_del_request, as_del_response, as_modify_request, as_modify_response, as_node_conn_info,
  as_search_request, as_search_response, as_client, as_context, as_node,
}

-- A member of the union `U` with tag type `P`: how it is read, and how it is written.
pub record Member (P U R : Type 0) : Type 0 where
  pub tag : P
  pub view : U → Option R
  pub make : R → U
  pub view-make : (r : R) → view (make r) ≡ some r

abbrev pub auth_request_member : Member DnopPr DnChoice Str
auth_request_member = record {
  tag = auth_request_op;
  view = as_auth_request;
  make = DnChoice.auth_request;
  view-make = λ r. refl;
}

abbrev pub auth_response_member : Member DnopPr DnChoice ℕ
auth_response_member = record {
  tag = auth_response_op;
  view = as_auth_response;
  make = DnChoice.auth_response;
  view-make = λ r. refl;
}

abbrev pub netinfo_request_member : Member DnopPr DnChoice NetinfoRequest
netinfo_request_member = record {
  tag = netinfo_request_op;
  view = as_netinfo_request;
  make = DnChoice.netinfo_request;
  view-make = λ r. refl;
}

abbrev pub netinfo_response_member : Member DnopPr DnChoice NetinfoResponse
netinfo_response_member = record {
  tag = netinfo_response_op;
  view = as_netinfo_response;
  make = DnChoice.netinfo_response;
  view-make = λ r. refl;
}

abbrev pub prov_request_member : Member DnopPr DnChoice (Option Str)
prov_request_member = record {
  tag = prov_request_op;
  view = as_prov_request;
  make = DnChoice.prov_request;
  view-make = λ r. refl;
}

abbrev pub prov_response_member : Member DnopPr DnChoice ProvResponse
prov_response_member = record {
  tag = prov_response_op;
  view = as_prov_response;
  make = DnChoice.prov_response;
  view-make = λ r. refl;
}

abbrev pub p2p_request_member : Member DnopPr DnChoice P2pRequest
p2p_request_member = record {
  tag = p2p_request_op;
  view = as_p2p_request;
  make = DnChoice.p2p_request;
  view-make = λ r. refl;
}

abbrev pub p2p_response_member : Member DnopPr DnChoice P2pResponse
p2p_response_member = record {
  tag = p2p_response_op;
  view = as_p2p_response;
  make = DnChoice.p2p_response;
  view-make = λ r. refl;
}

abbrev pub add_request_member : Member DsopPr DsChoice DndsObject
add_request_member = record {
  tag = add_request_op;
  view = as_add_request;
  make = DsChoice.add_request;
  view-make = λ r. refl;
}

abbrev pub add_response_member : Member DsopPr DsChoice ℕ
add_response_member = record {
  tag = add_response_op;
  view = as_add_response;
  make = DsChoice.add_response;
  view-make = λ r. refl;
}

abbrev pub del_request_member : Member DsopPr DsChoice DndsObject
del_request_member = record {
  tag = del_request_op;
  view = as_del_request;
  make = DsChoice.del_request;
  view-make = λ r. refl;
}

abbrev pub del_response_member : Member DsopPr DsChoice ℕ
del_response_member = record {
  tag = del_response_op;
  view = as_del_response;
  make = DsChoice.del_response;
  view-make = λ r. refl;
}

abbrev pub modify_request_member : Member DsopPr DsChoice DndsObject
modify_request_member = record {
  tag = modify_request_op;
  view = as_modify_request;
  make = DsChoice.modify_request;
  view-make = λ r. refl;
}

abbrev pub modify_response_member : Member DsopPr DsChoice ℕ
modify_response_member = record {
  tag = modify_response_op;
  view = as_modify_response;
  make = DsChoice.modify_response;
  view-make = λ r. refl;
}

abbrev pub node_conn_info_member : Member DsopPr DsChoice NodeConnInfo
node_conn_info_member = record {
  tag = node_conn_info_op;
  view = as_node_conn_info;
  make = DsChoice.node_conn_info;
  view-make = λ r. refl;
}

abbrev pub search_request_member : Member DsopPr DsChoice SearchRequest
search_request_member = record {
  tag = search_request_op;
  view = as_search_request;
  make = DsChoice.search_request;
  view-make = λ r. refl;
}

abbrev pub search_response_member : Member DsopPr DsChoice SearchResponse
search_response_member = record {
  tag = search_response_op;
  view = as_search_response;
  make = DsChoice.search_response;
  view-make = λ r. refl;
}

abbrev pub client_member : Member ObjectPr ObjectChoice Client
client_member = record {
  tag = client_pr;
  view = as_client;
  make = ObjectChoice.client;
  view-make = λ r. refl;
}

abbrev pub context_member : Member ObjectPr ObjectChoice Context
context_member = record {
  tag = context_pr;
  view = as_context;
  make = ObjectChoice.context;
  view-make = λ r. refl;
}

abbrev pub node_member : Member ObjectPr ObjectChoice Node
node_member = record {
  tag = node_pr;
  view = as_node;
  make = ObjectChoice.node;
  view-make = λ r. refl;
}
