-- ===== src/Sdp/Attribute.antt =====
-- The attributes of src/sdp.cpp, with the table of src/sdp_private.h.
pub mod RoundTrip
pub mod Errors
use sipster.Base.{
  take, some, fault, none, ◌-◌, ◌+◌, ltb, over_read, ℕ, Option, ◌++◌, List, [], ◌∷◌, Exec, ok,
  ◌>>=◌, if◌then◌else◌, Bytes, codes, equal,
}
use sipster.Text.{decimal, ltrim, c_str, snprintf, at, next_token, get_rest, atoi, strncpy_all}
use sipster.Sdp.Types.{
  AttributeType, category, keywords, tool, ptime, maxptime, rtpmap, recvonly, sendrecv, sendonly,
  inactive, orient, kind, charset, sdplang, lang, framerate, quality, fmtp, Rtpmap, Fmtp, Attribute,
  plain_attribute, rtpmap_attribute, fmtp_attribute,
}

-- Which functions an entry of the table points at; those of `sendonly` do what the others do, but
-- for the size of the print buffer.
pub data AttributeCodec : Type 0 where
  no_codec rtpmap_codec flag_codec fmtp_codec : AttributeCodec

-- `SipsterSdpAttributeMap`.
pub record AttributeMap : Type 0 where
  pub name : Bytes
  pub type : AttributeType
  pub codec : AttributeCodec

abbrev attribute_entry : Bytes → AttributeType → AttributeCodec → AttributeMap
attribute_entry n t c = record { name = n; type = t; codec = c }

-- `sdp_attribute_types[type]`.
abbrev pub attribute_at : AttributeType → AttributeMap
attribute_at category = attribute_entry (codes "cat") category no_codec
attribute_at keywords = attribute_entry (codes "keywds") keywords no_codec
attribute_at tool = attribute_entry (codes "tool") tool no_codec
attribute_at ptime = attribute_entry (codes "ptime") ptime no_codec
attribute_at maxptime = attribute_entry (codes "maxptime") maxptime no_codec
attribute_at rtpmap = attribute_entry (codes "rtpmap") rtpmap rtpmap_codec
attribute_at recvonly = attribute_entry (codes "recvonly") recvonly no_codec
attribute_at sendrecv = attribute_entry (codes "sendrecv") sendrecv no_codec
attribute_at sendonly = attribute_entry (codes "sendonly") sendonly flag_codec
attribute_at inactive = attribute_entry (codes "inactive") inactive no_codec
attribute_at orient = attribute_entry (codes "orient") orient no_codec
attribute_at kind = attribute_entry (codes "type") kind no_codec
attribute_at charset = attribute_entry (codes "charset") charset no_codec
attribute_at sdplang = attribute_entry (codes "sdplang") sdplang no_codec
attribute_at lang = attribute_entry (codes "lang") lang no_codec
attribute_at framerate = attribute_entry (codes "framerate") framerate no_codec
attribute_at quality = attribute_entry (codes "quality") quality no_codec
attribute_at fmtp = attribute_entry (codes "fmtp") fmtp fmtp_codec

-- `sdp_attribute_types` up to `SDP_ATTRIBUTE_NULL`, in the order of the enumeration.
abbrev pub attribute_types : List AttributeMap
attribute_types =
    attribute_at category
    ∷ attribute_at keywords
    ∷ attribute_at tool
    ∷ attribute_at ptime
    ∷ attribute_at maxptime
    ∷ attribute_at rtpmap
    ∷ attribute_at recvonly
    ∷ attribute_at sendrecv
    ∷ attribute_at sendonly
    ∷ attribute_at inactive
    ∷ attribute_at orient
    ∷ attribute_at kind
    ∷ attribute_at charset
    ∷ attribute_at sdplang
    ∷ attribute_at lang
    ∷ attribute_at framerate
    ∷ attribute_at quality
    ∷ attribute_at fmtp
    ∷ []

-- `sdp_attr_rtpmap_parse`: a third part is both the text of the parameters and the channels.
unfoldable pub rtpmap_parse : Bytes → Exec Rtpmap
rtpmap_parse input =
    let (pt, pos) = next_token input (b' ' ∷ []) (at 0) in
    let (encoding_data, pos') = get_rest input pos in
    let (encoding, pos2) = next_token encoding_data (b'/' ∷ []) (at 0) in
    let (clock, pos2') = next_token encoding_data (b'/' ∷ []) pos2 in
    let (params, pos2'') = get_rest encoding_data pos2' in
    do
      encoding_field ← strncpy_all 20 encoding
      params_field ← strncpy_all 40 params
      ok (record {
        pt = atoi 16 pt;
        encoding = encoding_field;
        clock = atoi 32 clock;
        channels = if equal params [] then 0 else atoi 16 params;
        params = params_field;
      })

-- `sdp_attr_fmtp_parse`: the rest is read from a cursor of its own, at the start of the input.
unfoldable pub fmtp_parse : Bytes → Exec Fmtp
fmtp_parse input =
    let (pt, pos) = next_token input (b' ' ∷ []) (at 0) in
    let (params, pos2) = get_rest input (at 0) in
    do field ← strncpy_all 80 params; ok (record { pt = atoi 16 pt; params = field })

-- A call through the `parse` pointer of an entry: `sdp_attr_no_parse` and `sdp_attr_flag_parse` keep
-- the type only.
unfoldable pub parse_attribute_by : AttributeCodec → AttributeType → Bytes → Exec Attribute
parse_attribute_by no_codec type input = ok (plain_attribute type)
parse_attribute_by flag_codec type input = ok (plain_attribute type)
parse_attribute_by rtpmap_codec type input = do r ← rtpmap_parse input; ok (rtpmap_attribute r)
parse_attribute_by fmtp_codec type input = do f ← fmtp_parse input; ok (fmtp_attribute f)

-- The loop of `sipster_sdp_parse_attribute`: the first entry of that name.
unfoldable pub find_attribute : Bytes → List AttributeMap → Option AttributeMap
find_attribute name [] = none
find_attribute name (m ∷ ms) = if equal name m.name then some m else find_attribute name ms

unfoldable pub parse_found : Option AttributeMap → Bytes → Exec (Option Attribute)
parse_found none input = ok none
parse_found (some m) input = do a ← parse_attribute_by m.codec m.type input; ok (some a)

-- `sipster_sdp_parse_attribute`; `none` is NULL.
unfoldable pub parse_attribute : Bytes → Exec (Option Attribute)
unfolding parse_found
parse_attribute input =
    let (name, pos) = next_token input (b':' ∷ []) (at 0) in
    let (rest, pos') = get_rest input pos in
    parse_found (find_attribute name attribute_types) (ltrim rest)

abbrev pub type_of : Attribute → AttributeType
type_of (plain_attribute t) = t
type_of (rtpmap_attribute r) = rtpmap
type_of (fmtp_attribute f) = fmtp

-- `a=name`, and `a=name:text`.
abbrev pub plain_text : Bytes → Bytes
plain_text name = b'a' ∷ b'=' ∷ name

abbrev pub valued_text : Bytes → Bytes → Bytes
valued_text name text = plain_text (name ++ (b':' ∷ text))

abbrev channels_text : ℕ → Bytes
channels_text n = if ltb 1 n then b'/' ∷ decimal n else []

-- The formats of `sdp_attr_rtpmap_print`.
unfoldable pub rtpmap_text : Rtpmap → Bytes
rtpmap_text r =
    decimal r.pt ++ (b' ' ∷ (r.encoding ++ (b'/' ∷ (decimal r.clock ++ channels_text r.channels))))

unfoldable pub fmtp_text : Fmtp → Bytes
fmtp_text f = decimal f.pt ++ (b' ' ∷ f.params)

-- `sizeof` of the structures, on a machine with integers of four bytes.
abbrev pub rtpmap_size : ℕ
rtpmap_size = 76

abbrev pub fmtp_size : ℕ
fmtp_size = 88

abbrev pub attribute_size : ℕ
attribute_size = 4

-- `snprintf(output, bound, …)` into a buffer of `size` bytes.
unfoldable pub snprintf_into : ℕ → ℕ → Bytes → Exec Bytes
snprintf_into size bound text = strncpy_all size (snprintf bound text)

-- `sdp_attr_rtpmap_print` bounds its output by the size of another structure than that of its buffer.
abbrev print_rtpmap : Rtpmap → Exec Bytes
print_rtpmap r = do
  encoding ← c_str 20 r.encoding
  snprintf_into (rtpmap_size + 10) (fmtp_size + 10) (valued_text (codes "rtpmap") (rtpmap_text r))

abbrev print_fmtp : Fmtp → Exec Bytes
print_fmtp f = do
  params ← c_str 80 f.params
  snprintf_into (fmtp_size + 10) (fmtp_size + 10) (valued_text (codes "fmtp") (fmtp_text f))

abbrev print_flag : Exec Bytes
print_flag =
    snprintf_into (attribute_size + 10) (attribute_size + 10) (plain_text (codes "sendonly"))

abbrev print_name : AttributeType → Exec Bytes
print_name t = snprintf_into 50 50 (plain_text (attribute_at t).name)

-- A call through the `print` pointer of the attribute's type.
unfoldable pub print_attribute : Attribute → Exec Bytes
print_attribute (rtpmap_attribute r) = print_rtpmap r
print_attribute (fmtp_attribute f) = print_fmtp f
print_attribute (plain_attribute sendonly) = print_flag
print_attribute (plain_attribute t) = print_name t

-- The `clone` pointers lead to `cloneAttribute`, which copies the size of an `rtpmap` whatever it is
-- given: past the end of a plain attribute, and not up to the end of an `fmtp`, whose parameters begin
-- at byte 6.
unfoldable pub clone_attribute : Attribute → Exec Attribute
clone_attribute (plain_attribute t) = fault over_read
clone_attribute (rtpmap_attribute r) = ok (rtpmap_attribute r)
clone_attribute (fmtp_attribute f) =
    ok (fmtp_attribute (record f { params = take (rtpmap_size - 6) f.params }))
