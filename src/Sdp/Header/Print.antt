-- ===== src/Sdp/Header/Print.antt =====
-- The print functions of the headers of a session description.
use sipster.Sdp.Header.{
  version_codec, origin_codec, string_codec, connection_codec, timing_codec, attr_codec,
  media_codec, timing_content, connection_content, text_content, origin_content, version_content,
  media_name, prototype_at, SdpCodec,
}
use sipster.Base.{
  deref, none, ◌>>=◌, ok, some, over_read, fault, Option, ℕ, ◌+◌, ◌-◌, ◌*◌, ◌^◌, List, [], ◌∷◌,
  ◌++◌, Exec, ltb, if◌then◌else◌, Bytes, length,
}
use sipster.Text.{c_str, strncpy_all, decimal, snprintf}
use sipster.Sdp.Types.{
  media_content, attribute_content, SdpContent, MediaType, SdpHeader, Origin, Connection, Timing,
  Media,
}
use sipster.Sdp.Attribute.{print_attribute}

-- `%c=`, in front of every print.
abbrev pub lettered : ℕ → Bytes → Bytes
lettered letter line = letter ∷ b'=' ∷ line

-- `%d` of an `unsigned int`.
abbrev pub signed_text : ℕ → Bytes
signed_text n = if ltb n (2 ^ 31) then decimal n else b'-' ∷ decimal (2 ^ 32 - n)

-- `sizeof` of the structures whose size bounds a print, on a 64-bit machine: `SipsterSdpHeaderOrigin`,
-- `SipsterSipHeaderString` (for the texts of a session description), `SipsterSdpHeaderConnection`.
abbrev pub origin_size : ℕ
origin_size = 232

abbrev pub sip_string_size : ℕ
sip_string_size = 328

abbrev pub connection_size : ℕ
connection_size = 64

abbrev pub origin_text : Origin → Bytes
origin_text o =
    o.username
    ++ (b' '
        ∷ (decimal o.session_id
            ++ (b' '
                ∷ (decimal o.session_version
                    ++ (b' ' ∷ (o.nettype ++ (b' ' ∷ (o.addrtype ++ (b' ' ∷ o.address)))))))))

-- A time to live of 0 or 1 is printed as 127.
abbrev pub ttl_text : ℕ → Bytes
ttl_text ttl = decimal (if ltb 1 ttl then ttl else 127)

abbrev pub connection_text : Connection → Bytes
connection_text c =
    c.nettype ++ (b' ' ∷ (c.addrtype ++ (b' ' ∷ (c.address ++ (b'/' ∷ ttl_text c.ttl)))))

abbrev pub timing_text : Timing → Bytes
timing_text t = decimal t.start ++ (b' ' ∷ decimal t.stop)

abbrev pub port_text : ℕ → ℕ → Bytes
port_text port count =
    snprintf 10 (if ltb 1 count then decimal port ++ (b'/' ∷ decimal count) else decimal port)

-- Each payload type goes through `char singlept[4]`, the later ones with a blank in front.
abbrev pub later_pts_text : List ℕ → Bytes
later_pts_text [] = []
later_pts_text (pt ∷ pts) = snprintf 4 (b' ' ∷ decimal pt) ++ later_pts_text pts

abbrev pub pts_text : List ℕ → Bytes
pts_text [] = []
pts_text (pt ∷ pts) = snprintf 4 (decimal pt) ++ later_pts_text pts

abbrev pub media_text : Bytes → Media → Bytes
media_text name m =
    name
    ++ (b' ' ∷ (port_text m.port m.port_count ++ (b' ' ∷ (m.protocol ++ (b' ' ∷ pts_text m.pts)))))

-- The text of the payload types is built by `strcat` in a buffer of its own.
unfoldable pub pts_buffer : List ℕ → Exec Bytes
pts_buffer pts = strncpy_all (length pts * 4 + 1) (pts_text pts)

unfoldable pub print_origin : ℕ → Origin → Exec Bytes
print_origin letter o = do
  username ← c_str 150 o.username
  nettype ← c_str 3 o.nettype
  addrtype ← c_str 4 o.addrtype
  address ← c_str 46 o.address
  ok (snprintf origin_size (lettered letter (origin_text o)))

unfoldable pub print_connection : ℕ → Connection → Exec Bytes
print_connection letter c = do
  nettype ← c_str 3 c.nettype
  addrtype ← c_str 4 c.addrtype
  address ← c_str 46 c.address
  ok (snprintf connection_size (lettered letter (connection_text c)))

-- A media type that was not decoded is an index of -1 into the table.
abbrev type_name : Option MediaType → Exec Bytes
type_name none = fault over_read
type_name (some t) = ok (media_name t)

unfoldable pub print_media : ℕ → Media → Exec Bytes
unfolding pts_buffer
print_media letter m = do
  pts ← pts_buffer m.pts
  name ← type_name m.media_type
  protocol ← c_str 10 m.protocol
  ok (snprintf 80 (lettered letter (media_text name m)))

abbrev print_version : ℕ → ℕ → Bytes
print_version letter n = snprintf 20 (lettered letter (signed_text n))

abbrev print_text : ℕ → Bytes → Exec Bytes
print_text letter t = do s ← c_str 400 t; ok (snprintf sip_string_size (lettered letter s))

abbrev print_timing : ℕ → Timing → Bytes
print_timing letter t = snprintf 50 (lettered letter (timing_text t))

-- A call through the `print` pointer of an entry, on the structure that it expects; `sdp_no_print`
-- gives NULL. An attribute prints its own letter.
unfoldable pub print_sdp_content : SdpCodec → ℕ → SdpContent → Exec (Option Bytes)
unfolding print_origin print_connection print_media
print_sdp_content version_codec letter (version_content n) = ok (some (print_version letter n))
print_sdp_content origin_codec letter (origin_content o) = do
  line ← print_origin letter o
  ok (some line)
print_sdp_content string_codec letter (text_content t) = do
  line ← print_text letter t
  ok (some line)
print_sdp_content connection_codec letter (connection_content c) = do
  line ← print_connection letter c
  ok (some line)
print_sdp_content timing_codec letter (timing_content t) = ok (some (print_timing letter t))
print_sdp_content attr_codec letter (attribute_content a) = do
  attr ← deref a
  line ← print_attribute attr
  ok (some line)
print_sdp_content media_codec letter (media_content m) = do
  line ← print_media letter m
  ok (some line)
print_sdp_content _ letter _ = ok none

-- `sdp_header_prototypes[headerType].print(header)`.
unfoldable pub print_sdp_header : SdpHeader → Exec (Option Bytes)
print_sdp_header h =
    let m = prototype_at h.header_type in print_sdp_content m.codec m.letter h.content
