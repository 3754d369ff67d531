-- ===== src/Dnds/Access.antt =====
-- The checks that the accessors of libnvcore/src/dnds.c begin with, in their order, and the ways in
-- which they copy a value. A setter returns its code and the message as it is afterwards; a getter
-- its code and what it has written through its last pointers, whose argument says that none of them
-- is NULL. `wild` is a use of memory that is not there, or of the bytes of another member of a union.
pub mod Laws
pub mod Refusals
use netvirt.Prelude.{
  ℕ, ◌%◌, ◌^◌, ◌==◌, ◌≡◌, leb, if◌then◌else◌, Bool, true, false, List, [], ◌∷◌, take, length,
  Option, none, some,
}
use netvirt.Dnds.Types.{
  Str, no_str, NetinfoRequest, NetinfoResponse, ProvResponse, P2pRequest, P2pResponse, NodeConnInfo,
  Client, Context, Node, ObjectChoice, DndsObject, SearchRequest, SearchResponse, DnChoice,
  DsChoice, DnMessage, DsMessage, PduChoice, DndsMessage, PduPr, DnopPr, DsopPr, ObjectPr, Code,
  no_pdu, dnm_pdu, dsm_pdu, ethernet_pdu, no_dnop, auth_request_op, auth_response_op,
  netinfo_request_op, netinfo_response_op, prov_request_op, prov_response_op, p2p_request_op,
  p2p_response_op, dn_terminate_op, no_dsop, add_request_op, add_response_op, del_request_op,
  del_response_op, modify_request_op, modify_response_op, node_conn_info_op, search_request_op,
  search_response_op, ds_terminate_op, no_object, client_pr, context_pr, node_pr, success,
  alloc_failed, invalid_param, invalid_pdu, invalid_op, invalid_object_type, value_not_present,
  conversion_failed,
}
use netvirt.Dnds.Unions.{
  as_dnm, as_dsm, as_ethernet, as_auth_request, as_auth_response, as_netinfo_request,
  as_netinfo_response, as_prov_request, as_prov_response, as_p2p_request, as_p2p_response,
  as_add_request, as_add_response, as_del_request, as_del_response, as_modify_request,
  as_modify_response, as_node_conn_info, as_search_request, as_search_response, as_client,
  as_context, as_node, pdu_index, dnop_index, dsop_index, object_index,
}
use netvirt.Dnds.Members.{Member}

pub data Reply {ℓ} (A : Type ℓ) : Type ℓ where
  reply : Code → A → Reply A
  wild : Reply A

-- What `inet_pton` and `inet_ntop` do for `AF_INET`: an address of four bytes is read back.
pub record AddressText : Type 0 where
  pub inet_pton : List ℕ → Option (List ℕ)
  pub inet_ntop : List ℕ → Option (List ℕ)
  pub inet_pton-length : (s b : List ℕ) → inet_pton s ≡ some b → length b ≡ 4
  pub inet_pton-inet_ntop :
      (b : List ℕ) → length b ≡ 4 → (s : List ℕ) × (inet_ntop b ≡ some s) × (inet_pton s ≡ some b)

-- The rest of a setter, on the part that it changes.
unfoldable pub written : {R A : Type 0} → Reply R → (R → A) → Reply A
written (reply code r) whole = reply code (whole r)
written wild whole = wild

-- `arg == NULL`, for an argument that a setter copies.
unfoldable pub given : {A : Type 0} → A → Option (List ℕ) → (List ℕ → Reply A) → Reply A
given kept none k = reply invalid_param kept
given kept (some arg) k = k arg

-- `value == NULL`, where a getter tests it and where it does not.
unfoldable pub out_given : {A : Type 0} → Bool → Reply (Option A) → Reply (Option A)
out_given true k = k
out_given false k = reply invalid_param none

unfoldable pub out_used : {A : Type 0} → Bool → A → Reply (Option A)
out_used true v = reply success (some v)
out_used false v = wild

-- A member that is reached without a look at the tag.
unfoldable pub reach : {R A : Type 0} → Option R → (R → Reply A) → Reply A
reach none k = wild
reach (some r) k = k r

unfoldable pub at_message :
    {A : Type 0} → A → Option DndsMessage → (DndsMessage → Reply A) → Reply A
at_message kept none k = reply invalid_param kept
at_message kept (some m) k = k m

unfoldable pub if_tag : {A : Type 0} → A → Code → (have want : ℕ) → Reply A → Reply A
if_tag kept code have want k = if have == want then k else reply code kept

-- `msg == NULL` and `msg->pdu.present != pdu_PR_dnm`
unfoldable pub at_dnm :
    {A : Type 0} → A → Option DndsMessage → (DndsMessage → DnMessage → Reply A) → Reply A
at_dnm kept msg k = at_message kept msg (λ m.
    if_tag kept invalid_pdu (pdu_index m.present) (pdu_index dnm_pdu)
      (reach (as_dnm m.choice) (k m)))

unfoldable pub at_dsm :
    {A : Type 0} → A → Option DndsMessage → (DndsMessage → DsMessage → Reply A) → Reply A
at_dsm kept msg k = at_message kept msg (λ m.
    if_tag kept invalid_pdu (pdu_index m.present) (pdu_index dsm_pdu)
      (reach (as_dsm m.choice) (k m)))

-- The accessors of `ProvRequest` and `ProvResponse` do not look at the PDU.
unfoldable pub at_any_pdu :
    {A : Type 0} → A → Option DndsMessage → (DndsMessage → DnMessage → Reply A) → Reply A
at_any_pdu kept msg k = at_message kept msg (λ m. reach (as_dnm m.choice) (k m))

unfoldable pub put_dn : DndsMessage → DnMessage → DnMessage → DndsMessage
put_dn m d d' = record m { choice = PduChoice.dnm d' }

unfoldable pub put_ds : DndsMessage → DsMessage → DsMessage → DndsMessage
put_ds m d d' = record m { choice = PduChoice.dsm d' }

module _ {R A : Type 0} (kept : A) (member : Member DnopPr DnChoice R) where
  unfoldable pub at_dnop : DnMessage → (R → Reply A) → Reply A
  at_dnop d k =
      if_tag kept invalid_op (dnop_index d.present) (dnop_index member.tag)
        (reach (member.view d.choice) k)

module _ {R A : Type 0} (kept : A) (member : Member DsopPr DsChoice R) where
  unfoldable pub at_dsop : DsMessage → (R → Reply A) → Reply A
  at_dsop d k =
      if_tag kept invalid_op (dsop_index d.present) (dsop_index member.tag)
        (reach (member.view d.choice) k)

module _ {R : Type 0} (member : Member DnopPr DnChoice R) (msg : Option DndsMessage) where
  unfoldable pub set_dn : (R → Reply R) → Reply (Option DndsMessage)
  set_dn f = at_dnm msg msg (λ m d.
      at_dnop msg member d
        (λ r. written (f r) (λ r'. some (put_dn m d (record d { choice = member.make r' })))))

  unfoldable pub get_dn : {V : Type 0} → (R → Reply (Option V)) → Reply (Option V)
  get_dn g = at_dnm none msg (λ m d. at_dnop none member d g)

  unfoldable pub set_prov : (R → Reply R) → Reply (Option DndsMessage)
  set_prov f = at_any_pdu msg msg (λ m d.
      at_dnop msg member d
        (λ r. written (f r) (λ r'. some (put_dn m d (record d { choice = member.make r' })))))

  unfoldable pub get_prov : {V : Type 0} → (R → Reply (Option V)) → Reply (Option V)
  get_prov g = at_any_pdu none msg (λ m d. at_dnop none member d g)

module _ {R : Type 0} (member : Member DsopPr DsChoice R) (msg : Option DndsMessage) where
  unfoldable pub set_ds : (R → Reply R) → Reply (Option DndsMessage)
  set_ds f = at_dsm msg msg (λ m d.
      at_dsop msg member d
        (λ r. written (f r) (λ r'. some (put_ds m d (record d { choice = member.make r' })))))

  unfoldable pub get_ds : {V : Type 0} → (R → Reply (Option V)) → Reply (Option V)
  get_ds g = at_dsm none msg (λ m d. at_dsop none member d g)

-- `object == NULL` and `object->present`, which most accessors answer with `invalid_object_type`.
module _ {R A : Type 0} (kept : A) (refusal : Code) (member : Member ObjectPr ObjectChoice R) where
  unfoldable pub at_object : Option DndsObject → (DndsObject → R → Reply A) → Reply A
  at_object none k = reply invalid_param kept
  at_object (some o) k =
      if_tag kept refusal (object_index o.present) (object_index member.tag)
        (reach (member.view o.choice) (k o))

module _ {R : Type 0} (member : Member ObjectPr ObjectChoice R) (object : Option DndsObject) where
  unfoldable pub set_object_or : Code → (R → Reply R) → Reply (Option DndsObject)
  set_object_or refusal f =
      at_object object refusal member object
        (λ o r. written (f r) (λ r'. some (record o { choice = member.make r' })))

  unfoldable pub set_object : (R → Reply R) → Reply (Option DndsObject)
  set_object f = set_object_or invalid_object_type f

  unfoldable pub get_object : {V : Type 0} → (R → Reply (Option V)) → Reply (Option V)
  get_object g = at_object none invalid_object_type member object (λ o r. g r)

-- `strdup`, with the length that the caller gives.
abbrev pub strdup : List ℕ → ℕ → Str
strdup s length = record { buf = some s; size = length }

-- `memmove` of a number of bytes; `none` reads past the end.
abbrev pub bytes_of : ℕ → List ℕ → Option (List ℕ)
bytes_of n xs = if leb n (length xs) then some (take n xs) else none

unfoldable pub copied : ℕ → List ℕ → Reply Str
copied n xs = reach (bytes_of n xs) (λ bytes. reply success (record { buf = some bytes; size = n }))

unfoldable pub copy_out : ℕ → Str → Reply (Option (List ℕ))
copy_out n s = reach s.buf (λ buf. reach (bytes_of n buf) (λ bytes. reply success (some bytes)))

-- An `unsigned long` of that many bytes, stored into the four that `calloc(1, sizeof(uint32_t))` gives.
unfoldable pub long_in : (sizeof_long v : ℕ) → Reply ℕ
long_in sizeof_long v = if leb sizeof_long 4 then reply success (v % 2 ^ 32) else wild

-- An optional value that is there.
unfoldable pub present_or : {A V : Type 0} → Option A → (A → Reply (Option V)) → Reply (Option V)
present_or none k = reply value_not_present none
present_or (some a) k = k a

-- `inet_pton` into four new bytes, which are 0 if it fails, and `inet_ntop` of them.
unfoldable pub address_in : AddressText → List ℕ → Str → Reply Str
address_in text s old = elim (text.inet_pton s) [
  | none ↦
      Reply.reply conversion_failed (record { buf = some (0 ∷ 0 ∷ 0 ∷ 0 ∷ []); size = old.size })
  | some bytes ↦ Reply.reply success (record { buf = some bytes; size = 4 })
]

unfoldable pub ntop : AddressText → List ℕ → Reply (Option (List ℕ))
ntop text bytes = elim (text.inet_ntop bytes) [
  | none ↦ Reply.reply conversion_failed Option.none
  | some s ↦ Reply.reply success (Option.some s)
]

unfoldable pub address_out : AddressText → Str → Reply (Option (List ℕ))
address_out text s = reach s.buf (ntop text)
