-- ===== src/Sip/Message.antt =====
-- The message structures of src/sipster/sip.h.
pub mod Line
pub mod Parse
pub mod Print
pub mod Respond
use sipster.Base.{ℕ, Option, none, some, Exec, ok, fault, null_deref, use_after_free, Bytes, codes}
use sipster.Sip.Enums.{Method, invite}
use sipster.Sip.Chain.{Chain, empty_chain}
use sipster.Sip.Inet.{InetAddress}

-- `struct _SipsterSipContentBody`: `char contentType[150]`, `size_t length`, `char data[1500]`.
pub record ContentBody : Type 0 where
  pub content_type : Bytes
  pub length : ℕ
  pub body : Bytes

pub record RequestLine : Type 0 where
  pub method : Option Bytes
  pub method_id : Method
  pub request_uri : Option Bytes
  pub version : Option Bytes

pub record Request : Type 0 where
  pub request_line : RequestLine
  pub headers : Chain
  pub content : Option ContentBody
  pub remote_addr : Option InetAddress

-- `status_code` is `none` for `SIP_STATUS_NONE`; `status` is the index into the tables.
pub record ResponseLine : Type 0 where
  pub version : Option Bytes
  pub status_code : Option ℕ
  pub status : ℕ
  pub reason : Option Bytes
  pub method : Method

pub record Response : Type 0 where
  pub response_line : ResponseLine
  pub headers : Chain
  pub content : Option ContentBody
  pub remote_addr : Option InetAddress

-- `sipster_sip_request_create` and `sipster_sip_response_create`: zeros.
abbrev pub request_create : Request
request_create = record {
  request_line = record { method = none; method_id = invite; request_uri = none; version = none };
  headers = empty_chain;
  content = none;
  remote_addr = none;
}

abbrev pub response_create : Response
response_create = record {
  response_line = record {
    version = none;
    status_code = some 0;
    status = 0;
    reason = none;
    method = invite;
  };
  headers = empty_chain;
  content = none;
  remote_addr = none;
}

-- A pointer that a function returns: NULL, to an object that was freed, or to a live one.
pub data Pointer {ℓ} (A : Type ℓ) : Type ℓ where
  null dangling : Pointer A
  live : A → Pointer A

abbrev pub access {ℓ} : {A : Type ℓ} → Pointer A → Exec A
access null = fault null_deref
access dangling = fault use_after_free
access (live a) = ok a

-- `SIP_PROTOCOL`.
abbrev pub sip_protocol : Bytes
sip_protocol = codes "SIP/2.0"
