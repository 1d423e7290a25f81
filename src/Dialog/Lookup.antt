-- ===== src/Dialog/Lookup.antt =====
-- `sipster_get_call_leg_for_request` and `sipster_get_call_leg_for_response` of src/sipster.cpp.
pub mod Laws
pub mod Created
use sipster.Base.{
  ℕ, ◌==◌, Bool, true, false, [], ◌∷◌, Option, none, some, Exec, ok, ◌>>=◌, deref, if◌then◌else◌,
  Bytes, codes,
}
use sipster.Text.{c_str}
use sipster.Sip.Enums.{ReturnCode, call_not_found, message_error, return_ok, HeaderId}
use sipster.Sip.Parameter.{Parameter, parameter_get}
use sipster.Sip.Header.{Content, address_content, string_content, Header}
use sipster.Sip.Chain.{Chain, Found, get_header}
use sipster.Sip.Message.Respond.{params_of}
use sipster.Dialog.{
  Sipster, TaggedLegs, CallIds, inbound, find_key, call_leg_create_from_str_address,
  generate_random_string,
}

-- `!leaf || leaf->metadata->count != 1` fails; else the header of the leaf.
single : Found → Option Header
single f = elim f.headers [ [] ↦ none | h ∷ _ ↦ if f.count == 1 then h else none ]

unfoldable pub only_header : HeaderId → Chain → Option Header
unfolding single
only_header i c = single (get_header i c)

abbrev pub text_of : Content → Bytes
text_of (string_content t) = t
text_of _ = []

abbrev pub address_of : Content → Bytes
address_of (address_content a p ps) = a
address_of _ = []

-- `sipster_sip_parameter_get("tag", …)`.
abbrev pub tag_of : Header → Option Parameter
tag_of h = parameter_get (codes "tag") (params_of h.content)

-- The leg under a Call-ID and a tag, if there is a tag.
unfoldable pub leg_by_tag : Option TaggedLegs → Option Parameter → Option ℕ
leg_by_tag none tag = none
leg_by_tag (some legs) none = none
leg_by_tag (some legs) (some tag) = find_key tag.value legs

unfoldable pub find_leg : Bytes → Option Parameter → CallIds → Option ℕ
unfolding leg_by_tag
find_leg call_id tag legs = leg_by_tag (find_key call_id legs) tag

-- A new inbound leg under a fresh tag, with the handlers of the default leg.
unfoldable pub new_leg : Sipster → Bytes → Bytes → Option Parameter → Bytes → Exec (ℕ × Sipster)
new_leg s call_id from_address from_tag to_address =
    let (to_tag, randoms) = generate_random_string 13 s.randoms in
    do
      tag ← deref from_tag
      call_leg_create_from_str_address (record s { randoms = randoms }) inbound call_id from_address
          (some tag.value) to_address (some to_tag) s.server_socket s.default_request_handler
          s.default_response_handler

abbrev Outcome : Type 0
Outcome = Exec (ReturnCode × Option ℕ × Sipster)

-- `!callLeg` and no tag: create a leg if that is asked for, and there is one From.
unfoldable pub create_or_refuse : Sipster → Bool → Bytes → Header → Option Header → Outcome
unfolding new_leg
create_or_refuse s false call_id to_header from_header = ok (call_not_found, none, s)
create_or_refuse s true call_id to_header none = ok (message_error, none, s)
create_or_refuse s true call_id to_header (some h) = do
  from_address ← c_str 100 (address_of h.content)
  to_address ← c_str 100 (address_of to_header.content)
  (leg, s') ← new_leg s call_id from_address (tag_of h) to_address
  ok (return_ok, some leg, s')

unfoldable pub decide_request :
    Sipster → Bool → Bytes → Header → Chain → Option Parameter → Option ℕ → Outcome
unfolding create_or_refuse
decide_request s create call_id to_header c tag (some leg) = ok (return_ok, some leg, s)
decide_request s create call_id to_header c (some tag) none = ok (call_not_found, none, s)
decide_request s create call_id to_header c none none =
    create_or_refuse s create call_id to_header (only_header HeaderId.from c)

unfoldable pub request_with_to : Sipster → Bool → Bytes → Chain → Option Header → Outcome
unfolding decide_request
request_with_to s create call_id c none = ok (message_error, none, s)
request_with_to s create call_id c (some h) =
    decide_request s create call_id h c (tag_of h) (find_leg call_id (tag_of h) s.legs)

unfoldable pub request_with_call_id : Sipster → Bool → Chain → Option Header → Outcome
unfolding request_with_to
request_with_call_id s create c none = ok (message_error, none, s)
request_with_call_id s create c (some h) = do
  call_id ← c_str 300 (text_of h.content)
  request_with_to s create call_id c (only_header HeaderId.to c)

-- `sipster_get_call_leg_for_request`: the code, the leg and the state.
unfoldable pub get_call_leg_for_request : Sipster → Chain → Bool → Outcome
unfolding request_with_call_id
get_call_leg_for_request s c create =
    request_with_call_id s create c (only_header HeaderId.call_id c)

-- A leg that is not found is an error only where the response has a From tag.
decide_response : Option Parameter → Option ℕ → ReturnCode × Option ℕ
decide_response tag (some leg) = (return_ok, some leg)
decide_response (some tag) none = (call_not_found, none)
decide_response none none = (return_ok, none)

response_with_from : Sipster → Bytes → Option Header → ReturnCode × Option ℕ
unfolding decide_response
response_with_from s call_id none = (message_error, none)
response_with_from s call_id (some h) =
    decide_response (tag_of h) (find_leg call_id (tag_of h) s.legs)

response_with_call_id : Sipster → Chain → Option Header → Exec (ReturnCode × Option ℕ)
unfolding response_with_from
response_with_call_id s c none = ok (message_error, none)
response_with_call_id s c (some h) = do
  call_id ← c_str 300 (text_of h.content)
  ok (response_with_from s call_id (only_header HeaderId.from c))

-- `sipster_get_call_leg_for_response`: the code and the leg, which may be NULL with `return_ok`.
unfoldable pub get_call_leg_for_response : Sipster → Chain → Exec (ReturnCode × Option ℕ)
unfolding response_with_call_id
get_call_leg_for_response s c = response_with_call_id s c (only_header HeaderId.call_id c)
