-- ===== src/Sip/Header/Clone.antt =====
-- The clone functions of src/sip_headers.cpp. What a copy shares with its original does not show in
-- values; the nodes of the parameters and the parsed addresses are copied.
use sipster.Base.{some, Exec, ok, ◌>>=◌, deref, get_elem?}
use sipster.Sip.Inet.{inet_address_clone}
use sipster.Sip.Enums.{header_index}
use sipster.Sip.Parameter.{parameters_clone}
use sipster.Sip.Header.{
  Content, base_content, address_content, via_content, type_content, Header, Codec, addr_codec,
  via_codec, ct_codec, no_codec, header_prototypes,
}

-- A call through the `clone` pointer: `memcpy` of the structure, and of what it points at.
unfoldable pub clone_content : Codec → Content → Exec Content
clone_content addr_codec (address_content address parsed params) =
    ok (address_content address parsed (parameters_clone params))
clone_content via_codec (via_content address parsed params) = do
  a ← inet_address_clone parsed
  ok (via_content address (some a) (parameters_clone params))
clone_content ct_codec (type_content ct params) = ok (type_content ct (parameters_clone params))
clone_content no_codec content = ok base_content
clone_content _ content = ok content

-- `sipster_sip_header_clone` of a header that is there.
unfoldable pub header_clone : Header → Exec Header
header_clone h = do
  m ← deref (get_elem? header_prototypes (header_index h.header_id))
  c ← clone_content m.codec h.content
  ok (record { header_id = h.header_id; content = c })
