-- ===== src/Dialog/Template.antt =====
-- `sipster_sip_request_create_template` of src/sip.cpp: a new request of a call leg.
pub mod Laws
use sipster.Base.{
  ℕ, [], ◌∷◌, ◌++◌, List, Option, none, some, Exec, ok, fault, over_read, ◌>>=◌, if◌then◌else◌,
  Bytes, codes, equal,
}
use sipster.Text.{c_str, snprintf, strncpy_full, decimal}
use sipster.Sip.Enums.{Method, method_none, method_name, HeaderId}
use sipster.Sip.Parameter.{Parameter, parameter_create}
use sipster.Sip.Inet.{InetAddress, InetAddressType}
use sipster.Sip.Address.{address_print, address_uri_print}
use sipster.Sip.Header.{
  Header, Content, address_content, via_content, integer_content, string_content, cseq_content,
}
use sipster.Sip.Chain.{Chain, empty_chain, link_header, append_new_header}
use sipster.Sip.Message.{ContentBody, Request, sip_protocol}
use sipster.Dialog.{CallLeg}

-- `inet_ntop` of the system: the text of an address.
abbrev pub Ntop : Type 0
Ntop = InetAddressType → Bytes → Bytes

-- `sipster_base_inet_address_get_fqdn`, which keeps the text that it makes.
unfoldable pub inet_address_get_fqdn : Ntop → InetAddress → InetAddress
inet_address_get_fqdn inet_ntop a =
    if equal a.fqdn [] then record a { fqdn = inet_ntop a.address_type a.address } else a

-- `method_names[method]`; `SIP_METHOD_NONE` is -1.
unfoldable pub method_at : Method → Exec Bytes
method_at method_none = fault over_read
method_at m = ok (method_name m)

-- A To header gets a tag only if the leg has one.
abbrev pub tag_params : Bytes → List Parameter
tag_params [] = []
tag_params (c ∷ tag) = parameter_create (codes "tag") (c ∷ tag) ∷ []

abbrev header_of : HeaderId → Content → Header
header_of i c = record { header_id = i; content = c }

-- The branch: a parameter whose value is written behind its creation.
abbrev branch_of : Bytes → Parameter
branch_of random = record (parameter_create (codes "branch") []) {
  value = snprintf 30 (codes "z9hG4bK" ++ random);
}

abbrev created_body : Option (Bytes × Bytes × ℕ) → Option ContentBody
created_body none = none
created_body (some (content_type, content, len)) = some (record {
  content_type = strncpy_full 150 content_type;
  length = len;
  body = strncpy_full 1500 content;
})

-- The six headers, in the order of the code.
unfoldable pub template_headers :
    Bytes → Bytes → Bytes → Bytes → Bytes → Bytes → Bytes → Bytes → Method → Chain
template_headers to to_tag from from_tag via random call_id name method =
    let c0 =
      link_header empty_chain
        (header_of HeaderId.to (address_content (strncpy_full 100 to) none (tag_params to_tag))) in
    let c1 = append_new_header c0 (
      header_of HeaderId.from (
        address_content (strncpy_full 100 from) none
          (parameter_create (codes "tag") from_tag ∷ []))) in
    let c2 =
      append_new_header c1
        (header_of HeaderId.via (via_content (snprintf 256 via) none (branch_of random ∷ []))) in
    let c3 = append_new_header c2 (header_of HeaderId.max_forwards (integer_content 1)) in
    let c4 =
      append_new_header c3
        (header_of HeaderId.call_id (string_content (strncpy_full 300 call_id))) in
    append_new_header c4 (header_of HeaderId.cseq (cseq_content 0 (some name) method))

-- The request, and the leg, whose local address may have got its text. `peer` are the bytes of the
-- leg's `peerAddress`, and `random` is the random string.
unfoldable pub request_create_template :
    Ntop
    → CallLeg
    → InetAddress
    → Bytes
    → Method
    → Option (Bytes × Bytes × ℕ)
    → Exec (Request × CallLeg)
request_create_template inet_ntop leg peer random method content =
    let local = inet_address_get_fqdn inet_ntop leg.local_address in
    do
      name ← method_at method
      uri ← address_uri_print leg.to
      to ← address_print leg.to
      to_tag ← c_str 15 leg.to_tag
      from ← address_print leg.from
      from_tag ← c_str 15 leg.from_tag
      call_id ← c_str 150 leg.call_id
      ok (
        record {
          request_line = record {
            method = some name;
            method_id = method;
            request_uri = some uri;
            version = some sip_protocol;
          };
          headers =
              template_headers to to_tag from from_tag (local.fqdn ++ (b':' ∷ decimal local.port))
                random call_id name method;
          content = created_body content;
          remote_addr = some peer;
        },
        record leg { local_address = local },
      )
