-- ===== src/Sip/Header/Parse.antt =====
-- The parse functions of src/sip_headers.cpp and `sipster_sip_request_parse_header` of src/sip.cpp.
pub mod Fuel
pub mod RoundTrip
pub mod Cut
pub mod Lines
pub mod Fields
pub mod Printable
use sipster.Base.{ℕ, [], ◌∷◌, Option, none, some, Exec, ok, ◌>>=◌, Bytes}
use sipster.Text.{at, next_token, get_rest, ltrim, atoi, atol, strncpy_all, strncpy_bounded}
use sipster.Sip.Enums.{Method, invite, HeaderId, find_method, methods}
use sipster.Sip.Parameter.{parse_header_params}
use sipster.Sip.Address.{address_parse}
use sipster.Sip.Inet.{Resolver, inet_address_parse}
use sipster.Sip.Header.{
  Content, address_content, via_content, cseq_content, type_content, string_content,
  integer_content, Header, Codec, addr_codec, via_codec, cseq_codec, ct_codec, ci_codec,
  string_codec, uint_codec, no_codec, HeaderMap, header_prototypes, find_prototype,
}

unfoldable pub addr_parse : Bytes → Exec Content
addr_parse input =
    let (address, pos) = next_token input (b';' ∷ []) (at 0) in
    do
      field ← strncpy_all 100 address
      parsed ← address_parse address
      params ← parse_header_params input pos
      ok (address_content field parsed params)

-- The protocol of the text is read and dropped: `protocol` is always `SIP_PROTOCOL_AND_TRANSPORT`.
unfoldable pub via_parse : Resolver → Bytes → Exec Content
via_parse getaddrinfo input =
    let (version, pos) = next_token input (b' ' ∷ []) (at 0) in
    let (address, pos') = next_token input (b';' ∷ []) pos in
    do
      params ← parse_header_params input pos'
      ok (via_content (strncpy_bounded 256 address) (inet_address_parse getaddrinfo address) params)

-- A method that is not found leaves the zeros of the allocator: no name, and the id of INVITE.
cseq_method : ℕ → Option (Bytes × Method) → Content
cseq_method seq none = cseq_content seq none invite
cseq_method seq (some (name, id)) = cseq_content seq (some name) id

unfoldable pub cseq_parse : Bytes → Content
unfolding cseq_method
cseq_parse input =
    let (seq, pos) = next_token input (b' ' ∷ []) (at 0) in
    let (method, pos') = next_token input (b' ' ∷ []) pos in
    cseq_method (atol seq) (find_method method methods)

unfoldable pub ci_parse : Bytes → Exec Content
ci_parse input = do field ← strncpy_all 300 (get_rest input (at 0)).0; ok (string_content field)

unfoldable pub ct_parse : Bytes → Exec Content
ct_parse input =
    let (ct, pos) = next_token input (b';' ∷ []) (at 0) in
    do
      field ← strncpy_all 150 ct
      params ← parse_header_params input pos
      ok (type_content field params)

unfoldable pub string_parse : Bytes → Content
string_parse input = string_content (strncpy_bounded 300 (get_rest input (at 0)).0)

unfoldable pub uint_parse : Bytes → Content
uint_parse input = integer_content (atoi 32 (next_token input (b' ' ∷ []) (at 0)).0)

-- A call through the `parse` pointer of an entry; `no_parse` gives NULL.
unfoldable pub parse_content : Resolver → Codec → Bytes → Exec (Option Content)
parse_content getaddrinfo addr_codec input = do c ← addr_parse input; ok (some c)
parse_content getaddrinfo via_codec input = do c ← via_parse getaddrinfo input; ok (some c)
parse_content getaddrinfo cseq_codec input = ok (some (cseq_parse input))
parse_content getaddrinfo ct_codec input = do c ← ct_parse input; ok (some c)
parse_content getaddrinfo ci_codec input = do c ← ci_parse input; ok (some c)
parse_content getaddrinfo string_codec input = ok (some (string_parse input))
parse_content getaddrinfo uint_codec input = ok (some (uint_parse input))
parse_content getaddrinfo no_codec input = ok none

with_id : HeaderId → Option Content → Option Header
with_id i none = none
with_id i (some c) = some (record { header_id = i; content = c })

parse_with : Resolver → Option HeaderMap → Bytes → Exec (Option Header)
unfolding with_id
parse_with getaddrinfo none input = ok none
parse_with getaddrinfo (some m) input = do
  c ← parse_content getaddrinfo m.codec input
  ok (with_id m.header_id c)

-- `sipster_sip_request_parse_header`; `none` is NULL. `sipster_sip_response_parse_header` calls it.
unfoldable pub parse_header : Resolver → Bytes → Exec (Option Header)
unfolding parse_with
parse_header getaddrinfo input =
    let (name, pos) = next_token input (b':' ∷ []) (at 0) in
    let (rest, pos') = get_rest input pos in
    parse_with getaddrinfo (find_prototype name header_prototypes) (ltrim rest)
