-- ===== src/Dialog.antt =====
-- Call legs of src/sipster.cpp: the table of legs by Call-ID and tag, their creation and lookup.
pub mod Lookup
pub mod Template
pub mod Runtime
pub mod Process
pub mod Reach
pub mod Table
pub mod Library
use sipster.Base.{
  ℕ, zero, suc, ◌+◌, ◌%◌, List, [], ◌∷◌, ◌++◌, Option, none, some, Exec, ok, ◌>>=◌, deref,
  if◌then◌else◌, Bytes, codes, equal, length, get_elem?,
}
use sipster.Text.{strncpy_bounded, strncpy_full}
use sipster.Sip.Address.{Address, zeroed, address_parse_in_place}
use sipster.Sip.Inet.{InetAddress}

pub data Direction : Type 0 where
  inbound outbound : Direction

-- `struct _SipsterSipCallLeg`: `char callId[150]`, `fromTag[15]`, `toTag[15]`. The handlers are
-- callbacks of the application, known here by a number; `peer_address` is `none` where the code
-- copies the bytes of a pointer instead of an address.
pub record CallLeg : Type 0 where
  pub direction : Direction
  pub call_id : Bytes
  pub from : Address
  pub from_tag : Bytes
  pub to : Address
  pub to_tag : Bytes
  pub local_address : InetAddress
  pub peer_address : Option InetAddress
  pub request_handler : Option ℕ
  pub response_handler : Option ℕ

-- `tagged_legs_t` and `call_id_t`: maps from texts, the inner one to the address of a leg.
abbrev pub TaggedLegs : Type 0
TaggedLegs = List (Bytes × ℕ)

abbrev pub CallIds : Type 0
CallIds = List (Bytes × TaggedLegs)

-- `struct _Sipster`: the legs by address, the maps, the socket's address, the default handlers, and
-- the values that `rand` is yet to give.
pub record Sipster : Type 0 where
  pub store : List CallLeg
  pub legs : CallIds
  pub server_socket : InetAddress
  pub default_request_handler : Option ℕ
  pub default_response_handler : Option ℕ
  pub randoms : List ℕ

-- `std::map::find`.
unfoldable pub find_key {ℓ} : {V : Type ℓ} → Bytes → List (Bytes × V) → Option V
find_key k [] = none
find_key k ((j, v) ∷ m) = if equal j k then some v else find_key k m

-- `std::map::insert` changes nothing where the key is there.
unfoldable pub insert_tag : Bytes → ℕ → TaggedLegs → TaggedLegs
insert_tag tag leg [] = (tag, leg) ∷ []
insert_tag tag leg ((t, l) ∷ ts) =
    if equal t tag then (t, l) ∷ ts else (t, l) ∷ insert_tag tag leg ts

-- The tags of the Call-ID, or a fresh map, with the leg inserted; then the map under the Call-ID.
unfoldable pub insert_leg : Bytes → Bytes → ℕ → CallIds → CallIds
insert_leg call_id tag leg [] = (call_id, insert_tag tag leg []) ∷ []
insert_leg call_id tag leg ((c, ts) ∷ rest) =
    if equal c call_id
    then (c, insert_tag tag leg ts) ∷ rest
    else (c, ts) ∷ insert_leg call_id tag leg rest

-- The field of an optional tag argument.
abbrev tag_field : Option Bytes → Bytes
tag_field none = []
tag_field (some tag) = strncpy_bounded 15 tag

abbrev pub key_tag : Direction → Option Bytes → Option Bytes → Option Bytes
key_tag inbound from_tag to_tag = to_tag
key_tag outbound from_tag to_tag = from_tag

-- Storing a new leg and entering it in the maps; a NULL tag as the key is a fault.
unfoldable pub register_leg : Sipster → Bytes → Option Bytes → CallLeg → Exec (ℕ × Sipster)
register_leg s call_id key leg = do
  tag ← deref key
  let place = length s.store
  ok (place, record s { store = s.store ++ leg ∷ []; legs = insert_leg call_id tag place s.legs })

-- `sipster_sip_call_leg_create`.
unfoldable pub call_leg_create :
    Sipster
    → Direction
    → Bytes
    → Address
    → Option Bytes
    → Address
    → Option Bytes
    → InetAddress
    → InetAddress
    → Option ℕ
    → Option ℕ
    → Exec (ℕ × Sipster)
call_leg_create s d call_id from from_tag to to_tag local peer on_request on_response =
    register_leg s call_id (key_tag d from_tag to_tag) (record {
      direction = d;
      call_id = strncpy_full 150 call_id;
      from = from;
      from_tag = tag_field from_tag;
      to = to;
      to_tag = tag_field to_tag;
      local_address = local;
      peer_address = some peer;
      request_handler = on_request;
      response_handler = on_response;
    })

-- The status of the parse is not looked at: a refused address leaves the zeros.
abbrev or_zeroed : Option Address → Address
or_zeroed none = zeroed
or_zeroed (some a) = a

-- `sipster_sip_call_leg_create_from_str_address`.
unfoldable pub call_leg_create_from_str_address :
    Sipster
    → Direction
    → Bytes
    → Bytes
    → Option Bytes
    → Bytes
    → Option Bytes
    → InetAddress
    → Option ℕ
    → Option ℕ
    → Exec (ℕ × Sipster)
call_leg_create_from_str_address s d call_id from_uri from_tag to_uri to_tag local on_request
      on_response =
    do
      from ← address_parse_in_place from_uri zeroed
      to ← address_parse_in_place to_uri zeroed
      register_leg s call_id (key_tag d from_tag to_tag) (record {
        direction = d;
        call_id = strncpy_full 150 call_id;
        from = or_zeroed from;
        from_tag = tag_field from_tag;
        to = or_zeroed to;
        to_tag = tag_field to_tag;
        local_address = local;
        peer_address = none;
        request_handler = on_request;
        response_handler = on_response;
      })

-- `alphanum` of src/utils.cpp.
abbrev pub alphanum : Bytes
alphanum = codes "0123456789ABCDEFGHIJKLMNOPQRSTUVWXYZabcdefghijklmnopqrstuvwxyz"

abbrev letter_of : Option ℕ → ℕ
letter_of none = 0
letter_of (some c) = c

-- The values of `rand` still to come; a list that has run out goes on with zeros.
abbrev next_random : List ℕ → ℕ
next_random [] = 0
next_random (r ∷ rs) = r

abbrev rest_random : List ℕ → List ℕ
rest_random [] = []
rest_random (r ∷ rs) = rs

-- `sipster_generate_random_string`.
unfoldable pub generate_random_string : ℕ → List ℕ → Bytes × List ℕ
generate_random_string zero rs = ([], rs)
generate_random_string (suc n) rs =
    let (s, rest) = generate_random_string n (rest_random rs) in
    (letter_of (get_elem? alphanum (next_random rs % 62)) ∷ s, rest)
