-- ===== src/Sdp/Types.antt =====
-- The structures of src/sipster/sdp_headers.h and src/sipster/sdp.h, and the enumerations of
-- src/sipster/sdp_enums.h.
use sipster.Base.{ℕ, List, [], Option, none, Bytes}

-- The headers of the table, in the order of `SipsterSdpHeaderEnum`.
pub data SdpHeaderType : Type 0 where
  version origin session_name session_info desc_uri : SdpHeaderType
  email phone connection_info bandwidth_info time_active : SdpHeaderType
  time_repeat time_zone encryption_key attribute media : SdpHeaderType

-- `SipsterSdpMediaTypeEnum`; `SDP_MEDIA_NONE` is the `none` of an optional type.
pub data MediaType : Type 0 where
  audio video text app msg : MediaType

pub data AttributeType : Type 0 where
  category keywords tool ptime maxptime rtpmap : AttributeType
  recvonly sendrecv sendonly inactive orient kind : AttributeType
  charset sdplang lang framerate quality fmtp : AttributeType

-- `char username[150]`, `nettype[3]`, `addrtype[4]`, `address[46]`, and two `unsigned long`.
pub record Origin : Type 0 where
  pub username : Bytes
  pub session_id : ℕ
  pub session_version : ℕ
  pub nettype : Bytes
  pub addrtype : Bytes
  pub address : Bytes

-- `char nettype[3]`, `addrtype[4]`, `address[46]`, and an `unsigned char`; nothing sets or reads
-- `addressCount`.
pub record Connection : Type 0 where
  pub nettype : Bytes
  pub addrtype : Bytes
  pub address : Bytes
  pub ttl : ℕ

pub record Timing : Type 0 where
  pub start : ℕ
  pub stop : ℕ

-- `unsigned short` ports, `char protocol[10]`, and the first `ptsCount` bytes of `pts[20]`.
pub record Media : Type 0 where
  pub media_type : Option MediaType
  pub port : ℕ
  pub port_count : ℕ
  pub protocol : Bytes
  pub pts : List ℕ

-- `unsigned short pt`, `char ecoding[20]`, `unsigned int clock`, `unsigned short channels`,
-- `char params[40]`.
pub record Rtpmap : Type 0 where
  pub pt : ℕ
  pub encoding : Bytes
  pub clock : ℕ
  pub channels : ℕ
  pub params : Bytes

-- `unsigned short pt`, `char params[80]`.
pub record Fmtp : Type 0 where
  pub pt : ℕ
  pub params : Bytes

-- `SipsterSdpAttribute` and the structures that begin with it, each under its type.
pub data Attribute : Type 0 where
  plain_attribute : AttributeType → Attribute
  rtpmap_attribute : Rtpmap → Attribute
  fmtp_attribute : Fmtp → Attribute

-- What the structures hold behind `SipsterSdpHeader`; the pointer to an attribute may be NULL.
pub data SdpContent : Type 0 where
  version_content : ℕ → SdpContent
  origin_content : Origin → SdpContent
  text_content : Bytes → SdpContent
  connection_content : Connection → SdpContent
  timing_content : Timing → SdpContent
  attribute_content : Option Attribute → SdpContent
  media_content : Media → SdpContent
  no_content : SdpContent

-- The letter of the header is that of the table at `header_type`.
pub record SdpHeader : Type 0 where
  pub header_type : SdpHeaderType
  pub content : SdpContent

-- `struct _SipsterSdpMedia`: the first `attributeCount` of `attributes[20]`.
pub record MediaSection : Type 0 where
  pub media_header : Option Media
  pub title : Option Bytes
  pub connection : Option Connection
  pub attributes : List (Option Attribute)

-- `struct _SipsterSdp`: the first `attributeCount` of `attributes[10]`, the first `mediaCount` of
-- `media[5]`.
pub record Session : Type 0 where
  pub version : Option ℕ
  pub origin : Option Origin
  pub session_name : Option Bytes
  pub session_info : Option Bytes
  pub uri : Option Bytes
  pub email : Option Bytes
  pub phone : Option Bytes
  pub connection : Option Connection
  pub timing : Option Timing
  pub attributes : List (Option Attribute)
  pub media : List MediaSection

-- `sipster_sdp_create`: zeros.
abbrev pub empty_session : Session
empty_session = record {
  version = none;
  origin = none;
  session_name = none;
  session_info = none;
  uri = none;
  email = none;
  phone = none;
  connection = none;
  timing = none;
  attributes = [];
  media = [];
}
