-- ===== src/Sdp/Header.antt =====
-- The headers of a session description: the parse, print and clone functions of src/sdp.cpp, the table
-- of src/sdp_private.h, and src/sdp_headers.cpp.
pub mod Print
pub mod Clone
pub mod Lines
pub mod Places
pub mod Payloads
pub mod MediaLine
pub mod RoundTrip
pub mod Errors
pub mod Copies
use sipster.Base.{
  ℕ, zero, suc, List, [], ◌∷◌, ◌++◌, Option, none, some, Exec, ok, fault, overflow, out_of_fuel,
  ◌>>=◌, ltb, if◌then◌else◌, Bytes, codes, equal, length,
}
use sipster.Text.{
  Position, at, next_token, get_rest, ltrim, trim, atoi, atol, strncpy_all, strncpy_bounded,
}
use sipster.Sdp.Types.{
  SdpHeaderType, version, origin, session_name, session_info, desc_uri, email, phone,
  connection_info, bandwidth_info, time_active, time_repeat, time_zone, encryption_key, attribute,
  media, MediaType, audio, video, text, app, msg, Origin, Connection, Timing, Media, SdpContent,
  version_content, origin_content, text_content, connection_content, timing_content,
  attribute_content, media_content, SdpHeader,
}
use sipster.Sdp.Attribute.{parse_attribute}

-- Which functions an entry of the table points at.
pub data SdpCodec : Type 0 where
  version_codec origin_codec string_codec connection_codec : SdpCodec
  timing_codec attr_codec media_codec no_codec : SdpCodec

-- `SipsterSdpHeaderMap`.
pub record SdpHeaderMap : Type 0 where
  pub letter : ℕ
  pub header_type : SdpHeaderType
  pub codec : SdpCodec

abbrev sdp_entry : ℕ → SdpHeaderType → SdpCodec → SdpHeaderMap
sdp_entry l t c = record { letter = l; header_type = t; codec = c }

-- `sdp_header_prototypes[type]`.
abbrev pub prototype_at : SdpHeaderType → SdpHeaderMap
prototype_at version = sdp_entry b'v' version version_codec
prototype_at origin = sdp_entry b'o' origin origin_codec
prototype_at session_name = sdp_entry b's' session_name string_codec
prototype_at session_info = sdp_entry b'i' session_info string_codec
prototype_at desc_uri = sdp_entry b'u' desc_uri string_codec
prototype_at email = sdp_entry b'e' email string_codec
prototype_at phone = sdp_entry b'p' phone string_codec
prototype_at connection_info = sdp_entry b'c' connection_info connection_codec
prototype_at bandwidth_info = sdp_entry b'b' bandwidth_info no_codec
prototype_at time_active = sdp_entry b't' time_active timing_codec
prototype_at time_repeat = sdp_entry b'r' time_repeat no_codec
prototype_at time_zone = sdp_entry b'z' time_zone no_codec
prototype_at encryption_key = sdp_entry b'k' encryption_key no_codec
prototype_at attribute = sdp_entry b'a' attribute attr_codec
prototype_at media = sdp_entry b'm' media media_codec

-- `sdp_header_prototypes` up to `SDP_HMAP_NULL`, in the order of the enumeration.
abbrev pub sdp_header_prototypes : List SdpHeaderMap
sdp_header_prototypes =
    prototype_at version
    ∷ prototype_at origin
    ∷ prototype_at session_name
    ∷ prototype_at session_info
    ∷ prototype_at desc_uri
    ∷ prototype_at email
    ∷ prototype_at phone
    ∷ prototype_at connection_info
    ∷ prototype_at bandwidth_info
    ∷ prototype_at time_active
    ∷ prototype_at time_repeat
    ∷ prototype_at time_zone
    ∷ prototype_at encryption_key
    ∷ prototype_at attribute
    ∷ prototype_at media
    ∷ []

abbrev pub media_name : MediaType → Bytes
media_name audio = codes "audio"
media_name video = codes "video"
media_name text = codes "text"
media_name app = codes "application"
media_name msg = codes "message"

-- `sdp_media_types` up to `SDP_MTYPE_NULL`, in the order of the enumeration.
abbrev pub media_types : List MediaType
media_types = audio ∷ video ∷ text ∷ app ∷ msg ∷ []

-- The loop of `sipster_sdp_media_type_decode`; `SDP_MEDIA_NONE` is `none`.
unfoldable pub media_type_decode : Bytes → List MediaType → Option MediaType
media_type_decode name [] = none
media_type_decode name (t ∷ ts) =
    if equal name (media_name t) then some t else media_type_decode name ts

-- `sdp_origin_parse`.
unfoldable pub origin_parse : Bytes → Exec Origin
origin_parse input =
    let (username, p1) = next_token input (b' ' ∷ []) (at 0) in
    let (session_id, p2) = next_token input (b' ' ∷ []) p1 in
    let (session_version, p3) = next_token input (b' ' ∷ []) p2 in
    let (nettype, p4) = next_token input (b' ' ∷ []) p3 in
    let (addrtype, p5) = next_token input (b' ' ∷ []) p4 in
    let (address, p6) = get_rest input p5 in
    do
      u ← strncpy_all 150 username
      n ← strncpy_all 3 nettype
      t ← strncpy_all 4 addrtype
      a ← strncpy_all 46 address
      ok (record {
        username = u;
        session_id = atol session_id;
        session_version = atol session_version;
        nettype = n;
        addrtype = t;
        address = a;
      })

-- `sdp_connection_parse`: the address and the time to live stand on both sides of a slash.
unfoldable pub connection_parse : Bytes → Exec Connection
connection_parse input =
    let (nettype, p1) = next_token input (b' ' ∷ []) (at 0) in
    let (addrtype, p2) = next_token input (b' ' ∷ []) p1 in
    let (address_part, p3) = get_rest input p2 in
    let (address, q1) = next_token address_part (b'/' ∷ []) (at 0) in
    let (ttl, q2) = next_token address_part (b'/' ∷ []) q1 in
    do
      n ← strncpy_all 3 nettype
      t ← strncpy_all 4 addrtype
      a ← strncpy_all 46 address
      ok (record { nettype = n; addrtype = t; address = a; ttl = atoi 8 ttl })

-- `sdp_timing_parse`.
unfoldable pub timing_parse : Bytes → Timing
timing_parse input =
    let (start, pos) = next_token input (b' ' ∷ []) (at 0) in
    let (stop, pos') = get_rest input pos in record { start = atol start; stop = atol stop }

-- The loop over the payload types: each is written behind the last into `pts[20]`, of bytes.
unfoldable pub pts_loop : ℕ → Bytes → Position → List ℕ → Exec (List ℕ)
pts_loop zero input pos pts = fault out_of_fuel
pts_loop (suc fuel) input pos pts =
    let (pt, pos') = next_token input (b' ' ∷ []) pos in
    let rest = pts_loop fuel input pos' (pts ++ atoi 8 pt ∷ []) in
    if equal pt [] then ok pts else if ltb (length pts) 20 then rest else fault overflow

-- `sdp_media_parse`.
unfoldable pub media_parse : Bytes → Exec Media
media_parse input =
    let (name, p1) = next_token input (b' ' ∷ []) (at 0) in
    let (port_part, p2) = next_token input (b' ' ∷ []) p1 in
    let (port, q1) = next_token port_part (b'/' ∷ []) (at 0) in
    let (port_count, q2) = next_token port_part (b'/' ∷ []) q1 in
    let (protocol, p3) = next_token input (b' ' ∷ []) p2 in
    let (pts_part, p4) = get_rest input p3 in
    let pts_text = trim pts_part in
    do
      p ← strncpy_all 10 protocol
      pts ← pts_loop (suc (length pts_text)) pts_text (at 0) []
      ok (record {
        media_type = media_type_decode name media_types;
        port = atoi 16 port;
        port_count = if equal port_count [] then 0 else atoi 16 port_count;
        protocol = p;
        pts = pts;
      })

-- `sdp_version_parse`, `sdp_string_parse` and `sdp_attr_parse`.
abbrev version_parse : Bytes → ℕ
version_parse input = atoi 32 input

abbrev text_parse : Bytes → Bytes
text_parse input = strncpy_bounded 400 (get_rest input (at 0)).0

abbrev attr_parse : Bytes → Exec SdpContent
attr_parse input = do a ← parse_attribute input; ok (attribute_content a)

-- A call through the `parse` pointer of an entry; `sdp_no_parse` gives NULL. The one of an attribute
-- gives a header also where the attribute is NULL.
unfoldable pub parse_sdp_content : SdpCodec → Bytes → Exec (Option SdpContent)
parse_sdp_content version_codec input = ok (some (version_content (version_parse input)))
parse_sdp_content origin_codec input = do o ← origin_parse input; ok (some (origin_content o))
parse_sdp_content string_codec input = ok (some (text_content (text_parse input)))
parse_sdp_content connection_codec input = do
  c ← connection_parse input
  ok (some (connection_content c))
parse_sdp_content timing_codec input = ok (some (timing_content (timing_parse input)))
parse_sdp_content attr_codec input = do c ← attr_parse input; ok (some c)
parse_sdp_content media_codec input = do m ← media_parse input; ok (some (media_content m))
parse_sdp_content no_codec input = ok none

-- The loop of `sipster_sdp_parse_header`: the first entry with that letter.
unfoldable pub find_sdp_prototype : Bytes → List SdpHeaderMap → Option SdpHeaderMap
find_sdp_prototype name [] = none
find_sdp_prototype name (m ∷ ms) =
    if equal name (m.letter ∷ []) then some m else find_sdp_prototype name ms

with_type : SdpHeaderType → Option SdpContent → Option SdpHeader
with_type t none = none
with_type t (some c) = some (record { header_type = t; content = c })

unfoldable pub parse_sdp_with : Option SdpHeaderMap → Bytes → Exec (Option SdpHeader)
unfolding with_type
parse_sdp_with none input = ok none
parse_sdp_with (some m) input = do
  c ← parse_sdp_content m.codec input
  ok (with_type m.header_type c)

-- `sipster_sdp_parse_header`; `none` is NULL.
unfoldable pub parse_sdp_header : Bytes → Exec (Option SdpHeader)
unfolding parse_sdp_with
parse_sdp_header input =
    let (name, pos) = next_token input (b'=' ∷ []) (at 0) in
    let (rest, pos') = get_rest input pos in
    parse_sdp_with (find_sdp_prototype name sdp_header_prototypes) (ltrim rest)
