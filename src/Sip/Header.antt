-- ===== src/Sip/Header.antt =====
-- The header structures of src/sipster/sip_headers.h and the table of src/sip_headers_private.h.
pub mod Parse
pub mod Print
pub mod Clone
use sipster.Base.{
  ℕ, Bool, List, [], ◌∷◌, Option, none, some, Bytes, codes, equal, ◌||◌, if◌then◌else◌,
}
use sipster.Sip.Enums.{
  Method, HeaderId, to, from, via, cseq, accept, content_length, content_type, contact, call_id,
  call_info, user_agent, session_id, max_forwards, allow, supported, content_disposition,
}
use sipster.Sip.Parameter.{Parameter}
use sipster.Sip.Address.{Address}
use sipster.Sip.Inet.{InetAddress}

-- What the structures hold behind `SipsterSipHeader`. The pointer `requestMethod` may be NULL.
pub data Content : Type 0 where
  base_content : Content
  address_content : Bytes → Option Address → List Parameter → Content
  via_content : Bytes → Option InetAddress → List Parameter → Content
  cseq_content : ℕ → Option Bytes → Method → Content
  type_content : Bytes → List Parameter → Content
  string_content : Bytes → Content
  integer_content : ℕ → Content

-- `headerName` and `shortName` are those of the table at `header_id`.
pub record Header : Type 0 where
  pub header_id : HeaderId
  pub content : Content

-- Which functions an entry of the table points at.
pub data Codec : Type 0 where
  addr_codec via_codec cseq_codec ct_codec ci_codec string_codec uint_codec no_codec : Codec

-- `SipsterSipHeaderMap`; a short name of `NULL_STRING` is empty.
pub record HeaderMap : Type 0 where
  pub header_name : Bytes
  pub short_name : Bytes
  pub header_id : HeaderId
  pub codec : Codec

abbrev entry : Bytes → Bytes → HeaderId → Codec → HeaderMap
entry n s i c = record { header_name = n; short_name = s; header_id = i; codec = c }

-- The table up to `HMAP_NULL`.
abbrev pub header_prototypes : List HeaderMap
header_prototypes =
    entry (codes "To") (codes "t") to addr_codec
    ∷ entry (codes "From") (codes "f") from addr_codec
    ∷ entry (codes "Via") (codes "v") via via_codec
    ∷ entry (codes "CSeq") [] cseq cseq_codec
    ∷ entry (codes "Accept") [] accept string_codec
    ∷ entry (codes "Content-Length") (codes "l") content_length uint_codec
    ∷ entry (codes "Content-Type") (codes "c") content_type ct_codec
    ∷ entry (codes "Contact") (codes "m") contact addr_codec
    ∷ entry (codes "Call-ID") (codes "i") call_id ci_codec
    ∷ entry (codes "Call-Info") [] call_info no_codec
    ∷ entry (codes "User-Agent") [] user_agent string_codec
    ∷ entry (codes "Session-ID") [] session_id no_codec
    ∷ entry (codes "Max-Forwards") [] max_forwards uint_codec
    ∷ entry (codes "Allow") [] allow string_codec
    ∷ entry (codes "Supported") [] supported string_codec
    ∷ entry (codes "Content-Disposition") [] content_disposition string_codec
    ∷ []

-- The loop of `sipster_sip_request_parse_header`: the first entry with that long or short name.
unfoldable pub find_prototype : Bytes → List HeaderMap → Option HeaderMap
find_prototype name [] = none
find_prototype name (m ∷ ms) =
    if equal name m.header_name || equal name m.short_name then some m else find_prototype name ms
