-- ===== src/Sip/Inet.antt =====
-- src/base.cpp: network addresses. The system's name resolution is a parameter.
pub mod RoundTrip
use sipster.Base.{
  Exec, deref, ℕ, ◌+◌, ◌*◌, ◌/◌, ◌%◌, List, [], ◌∷◌, ◌++◌, Option, none, some, Bytes, ◌==◌,
  if◌then◌else◌, take, replicate,
}
use sipster.Text.{strncpy_full}

pub data InetAddressType : Type 0 where
  ipv4 ipv6 : InetAddressType

-- `struct _SipsterInetAddress`: `address` holds sixteen bytes, `fqdn` at most 256.
pub record InetAddress : Type 0 where
  pub address_type : InetAddressType
  pub port : ℕ
  pub address : Bytes
  pub fqdn : Bytes

-- `sa_family`: AF_INET, AF_INET6, or another number.
pub data AddressFamily : Type 0 where
  inet inet6 : AddressFamily
  other_family : ℕ → AddressFamily

-- `struct sockaddr_in` and `struct sockaddr_in6`: the family, the port in network byte order, the bytes
-- of the address, and `sin6_flowinfo` and `sin6_scope_id`, which are 0 where the family is AF_INET.
pub record SockAddr : Type 0 where
  pub family : AddressFamily
  pub port : ℕ
  pub address : Bytes
  pub flow_info : ℕ
  pub scope_id : ℕ

-- A family other than AF_INET is read as AF_INET6.
abbrev pub type_of_family : AddressFamily → InetAddressType
type_of_family inet = ipv4
type_of_family inet6 = ipv6
type_of_family (other_family n) = ipv6

abbrev pub family_of_type : InetAddressType → AddressFamily
family_of_type ipv4 = inet
family_of_type ipv6 = inet6

-- `ntohs` and `htons` on a little-endian machine.
abbrev pub swap_bytes : ℕ → ℕ
swap_bytes n = n % 256 * 256 + n / 256

abbrev pub pad_address : Bytes → Bytes
pad_address a = take 16 (a ++ replicate 16 0)

abbrev pub address_size : InetAddressType → ℕ
address_size ipv4 = 4
address_size ipv6 = 16

-- `sipster_base_sockaddr_to_sipster`; the rest of the sixteen bytes and the name stay zero, and the flow
-- information and the scope are not read.
unfoldable pub sockaddr_to_sipster : SockAddr → InetAddress
sockaddr_to_sipster a = record {
  address_type = type_of_family a.family;
  port = swap_bytes a.port;
  address = pad_address (take (address_size (type_of_family a.family)) a.address);
  fqdn = [];
}

-- `sipster_base_sipster_to_sockaddr`; what is not written is zero.
unfoldable pub sipster_to_sockaddr : InetAddress → SockAddr
sipster_to_sockaddr a = record {
  family = family_of_type a.address_type;
  port = swap_bytes a.port;
  address = take (address_size a.address_type) a.address;
  flow_info = 0;
  scope_id = 0;
}

-- `getaddrinfo`: a node and a service, if given, to the first result's address. `none` is an error.
abbrev pub Resolver : Type 0
Resolver = Bytes → Option Bytes → Option SockAddr

-- `getline(ss, item, ':')` until the stream ends: a last empty item is not produced.
push_byte : ℕ → List Bytes → List Bytes
push_byte c [] = (c ∷ []) ∷ []
push_byte c (s ∷ rest) = (c ∷ s) ∷ rest

unfoldable pub getline_items : Bytes → List Bytes
unfolding push_byte
getline_items [] = []
getline_items (c ∷ cs) = if c == b':' then [] ∷ getline_items cs else push_byte c (getline_items cs)

-- With the host as `fqdn`, or the error of the resolver.
named : Bytes → Option SockAddr → Option InetAddress
unfolding sockaddr_to_sipster
named host none = none
named host (some a) = some (record (sockaddr_to_sipster a) { fqdn = strncpy_full 256 host })

resolve_items : Resolver → List Bytes → Option InetAddress
unfolding named
resolve_items getaddrinfo (host ∷ []) = named host (getaddrinfo host none)
resolve_items getaddrinfo (host ∷ port ∷ []) = named host (getaddrinfo host (some port))
resolve_items getaddrinfo _ = none

-- `sipster_base_inet_address_parse`.
unfoldable pub inet_address_parse : Resolver → Bytes → Option InetAddress
unfolding getline_items resolve_items
inet_address_parse getaddrinfo address = resolve_items getaddrinfo (getline_items address)

-- `sipster_base_inet_addres_clone`: a `memcpy` that reads through the pointer, NULL or not.
unfoldable pub inet_address_clone : Option InetAddress → Exec InetAddress
inet_address_clone a = deref a

-- `inet_pton`: the bytes of an address in its text form, or none for another text.
abbrev pub Pton : Type 0
Pton = InetAddressType → Bytes → Option Bytes

pton_bytes : Option Bytes → Bytes
pton_bytes none = replicate 16 0
pton_bytes (some a) = pad_address a

-- `sipster_base_inet_address_create`: the result of `inet_pton` is not looked at, and a text that it
-- refuses leaves the zeros.
unfoldable pub inet_address_create : Pton → InetAddressType → Bytes → ℕ → InetAddress
unfolding pton_bytes
inet_address_create inet_pton t address port = record {
  address_type = t;
  port = port;
  address = pton_bytes (inet_pton t address);
  fqdn = [];
}
