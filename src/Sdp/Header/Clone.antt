-- ===== src/Sdp/Header/Clone.antt =====
-- The clone functions of the headers of a session description, and `sipster_sdp_header_clone`.
use sipster.Base.{Option, Bytes, ℕ, [], take}
use sipster.Sdp.Types.{
  Origin, Connection, Timing, Attribute, origin_content, text_content, connection_content,
  timing_content, attribute_content, Media, SdpContent, version_content, media_content, no_content,
  SdpHeader,
}
use sipster.Sdp.Header.{
  origin_codec, string_codec, connection_codec, timing_codec, attr_codec, SdpCodec, version_codec,
  media_codec, no_codec, prototype_at,
}

-- `sdp_media_clone` copies the size of a timing header, 24 bytes on a 64-bit machine: the protocol begins
-- at byte 16, and what is behind stays zero.
abbrev pub media_clone : Media → Media
media_clone m = record m { protocol = take 8 m.protocol; pts = [] }

-- `sdp_version_clone` assigns the number of the copy to itself, and the copy is zero.
abbrev pub version_clone : ℕ → ℕ
version_clone n = 0

-- The clone functions that copy their structure whole.
abbrev origin_clone : Origin → Origin
origin_clone o = o

abbrev text_clone : Bytes → Bytes
text_clone s = s

abbrev connection_clone : Connection → Connection
connection_clone c = c

abbrev timing_clone : Timing → Timing
timing_clone t = t

-- `sdp_attr_clone` copies the pointer.
abbrev attr_clone : Option Attribute → Option Attribute
attr_clone a = a

-- A call through the `clone` pointer of an entry, on the structure that it expects; `sdp_no_clone` copies
-- the type only.
unfoldable pub clone_sdp_content : SdpCodec → SdpContent → SdpContent
clone_sdp_content version_codec (version_content n) = version_content (version_clone n)
clone_sdp_content origin_codec (origin_content o) = origin_content (origin_clone o)
clone_sdp_content string_codec (text_content s) = text_content (text_clone s)
clone_sdp_content connection_codec (connection_content c) = connection_content (connection_clone c)
clone_sdp_content timing_codec (timing_content t) = timing_content (timing_clone t)
clone_sdp_content attr_codec (attribute_content a) = attribute_content (attr_clone a)
clone_sdp_content media_codec (media_content m) = media_content (media_clone m)
clone_sdp_content no_codec c = no_content
clone_sdp_content _ c = c

-- `sipster_sdp_header_clone` of a header that is there; the copy of an attribute header points at the
-- same attribute.
unfoldable pub sdp_header_clone : SdpHeader → SdpHeader
sdp_header_clone h = record h {
  content = clone_sdp_content (prototype_at h.header_type).codec h.content;
}
