-- ===== src/Tests/Legs.antt =====
-- Applications of the theorems on call legs and on responses.
use sipster.Sip.Address.{zeroed, address_parse_in_place, split_address, fill_address, port_number}
use sipster.Text.Regex.{regex_match}
use sipster.Sip.Message.Respond.{answer_header, describe_content}
use sipster.Sip.Header.Clone.{header_clone, clone_content}
use sipster.Base.{
  replicate, ℕ, true, false, List, [], ◌∷◌, none, some, Option, Exec, fault, get_elem?, ◌≡◌, refl,
  ok, codes, if◌then◌else◌,
}
use sipster.Text.{strncpy_bare, strncpy_full, strncpy_bounded, c_str}
use sipster.Sip.Enums.{return_ok, ReturnCode, Method, HeaderId, same_header}
use sipster.Sip.Inet.{ipv4, InetAddress}
use sipster.Sip.Parameter.{parameter_get, Parameter}
use sipster.Sip.Header.{Header, integer_content, address_content}
use sipster.Sip.Chain.{collect, Chain, Leaf, append_new_header, link_header, get_header}
use sipster.Sip.Message.{Response}
use sipster.Sip.Message.Respond.{response_tag, answer_leaves, create_response}
use sipster.Sip.Message.Respond.Count.{create_response-count}
use sipster.Dialog.{
  generate_random_string, call_leg_create_from_str_address, insert_tag, insert_leg, register_leg,
  find_key, Sipster, CallLeg, outbound, call_leg_create,
}
use sipster.Dialog.Lookup.{tag_of, only_header, new_leg, find_leg, get_call_leg_for_request}
use sipster.Dialog.Lookup.Created.{get_call_leg_for_request-created}
use sipster.Dialog.Lookup.Laws.{IsLookup, get_call_leg_for_request-IsLookup}
use sipster.Tests.{text_header, bye_request}

abbrev pub nowhere : InetAddress
nowhere = record { address_type = ipv4; port = 0; address = replicate 16 0; fqdn = [] }

abbrev pub fresh : Sipster
fresh = record {
  store = [];
  legs = [];
  server_socket = nowhere;
  default_request_handler = none;
  default_response_handler = none;
  randoms = [];
}

abbrev pub tag_parameter : Parameter
tag_parameter = record { name = codes "tag"; value = codes "x1" }

abbrev pub first_leg : CallLeg
first_leg = record {
  direction = outbound;
  call_id = codes "7";
  from = zeroed;
  from_tag = codes "x1";
  to = zeroed;
  to_tag = [];
  local_address = nowhere;
  peer_address = some nowhere;
  request_handler = none;
  response_handler = none;
}

abbrev pub one_leg : Sipster
one_leg = record fresh { store = first_leg ∷ []; legs = (codes "7", (codes "x1", 0) ∷ []) ∷ [] }

pub creates :
    call_leg_create fresh outbound
      (codes "7")
      zeroed
      (some (codes "x1"))
      zeroed
      none
      nowhere
      nowhere
      none
      none
    ≡ ok (0, one_leg)
unfolding call_leg_create register_leg insert_leg insert_tag strncpy_full strncpy_bounded
creates = refl

pub found_before : find_leg (codes "7") (some tag_parameter) one_leg.legs ≡ some 0
unfolding find_leg find_key
found_before = refl

abbrev pub party : HeaderId → List Parameter → Header
party i ps = record { header_id = i; content = address_content (codes "<sip:a@b>") none ps }

abbrev pub held : ℕ → Header → Leaf
held n h = record { index = n; header = some h }

-- A Call-ID, a From without a tag, and a To with one.
abbrev pub dialog_headers : Chain
dialog_headers = record {
  leaves =
      held 0 (text_header HeaderId.call_id (codes "7"))
      ∷ held 1 (party HeaderId.from [])
      ∷ held 2 (party HeaderId.to (tag_parameter ∷ []))
      ∷ [];
  count = 3;
  first_header = some 0;
}

finds : get_call_leg_for_request one_leg dialog_headers false ≡ ok (return_ok, some 0, one_leg)
unfolding get_call_leg_for_request only_header get_header collect find_leg find_key parameter_get
    c_str
finds = refl

get_call_leg_for_request-IsLookup_example : IsLookup one_leg (return_ok, some 0, one_leg)
get_call_leg_for_request-IsLookup_example =
    get_call_leg_for_request-IsLookup one_leg dialog_headers finds

reads : c_str 300 (codes "7") ≡ ok (codes "7")
unfolding c_str
reads = refl

-- A first request, of a caller with a tag, and the next one in the dialog.
abbrev party_headers : List Parameter → List Parameter → Chain
party_headers from to = record {
  leaves =
      held 0 (text_header HeaderId.call_id (codes "7"))
      ∷ held 1 (party HeaderId.from from)
      ∷ held 2 (party HeaderId.to to)
      ∷ [];
  count = 3;
  first_header = some 0;
}

abbrev made_tag : Parameter
made_tag = record { name = codes "tag"; value = codes "0000000000000" }

abbrev first_request : Chain
first_request = party_headers (tag_parameter ∷ []) []

abbrev second_request : Chain
second_request = party_headers (tag_parameter ∷ []) (made_tag ∷ [])

abbrev state_of : Exec (ReturnCode × Option ℕ × Sipster) → Sipster
state_of (ok r) = r.2
state_of (fault e) = fresh

abbrev after_first : Sipster
after_first = state_of (get_call_leg_for_request fresh first_request true)

abbrev leg_in : List CallLeg → CallLeg
leg_in [] = first_leg
leg_in (l ∷ ls) = l

creates_first :
    get_call_leg_for_request fresh first_request true ≡ ok (return_ok, some 0, after_first)
unfolding get_call_leg_for_request only_header get_header collect find_leg find_key parameter_get
    c_str new_leg generate_random_string call_leg_create_from_str_address register_leg insert_leg
    insert_tag strncpy_full strncpy_bounded address_parse_in_place split_address regex_match
    fill_address strncpy_bare port_number
creates_first = refl

made_there : get_elem? after_first.store 0 ≡ some (leg_in after_first.store)
unfolding get_call_leg_for_request only_header get_header collect find_leg find_key parameter_get
    c_str new_leg generate_random_string call_leg_create_from_str_address register_leg insert_leg
    insert_tag strncpy_full strncpy_bounded address_parse_in_place split_address regex_match
    fill_address strncpy_bare port_number
made_there = refl

made_tagged : made_tag.value ≡ (leg_in after_first.store).to_tag
unfolding get_call_leg_for_request only_header get_header collect find_leg find_key parameter_get
    c_str new_leg generate_random_string call_leg_create_from_str_address register_leg insert_leg
    insert_tag strncpy_full strncpy_bounded address_parse_in_place split_address regex_match
    fill_address strncpy_bare port_number
made_tagged = refl

second_call_id :
    only_header HeaderId.call_id second_request ≡ some (text_header HeaderId.call_id (codes "7"))
unfolding only_header get_header collect
second_call_id = refl

second_to : only_header HeaderId.to second_request ≡ some (party HeaderId.to (made_tag ∷ []))
unfolding only_header get_header collect
second_to = refl

second_tag : tag_of (party HeaderId.to (made_tag ∷ [])) ≡ some made_tag
unfolding parameter_get
second_tag = refl

first_call_id :
    only_header HeaderId.call_id first_request ≡ some (text_header HeaderId.call_id (codes "7"))
unfolding only_header get_header collect
first_call_id = refl

first_to : only_header HeaderId.to first_request ≡ some (party HeaderId.to [])
unfolding only_header get_header collect
first_to = refl

to_untagged : tag_of (party HeaderId.to []) ≡ none
unfolding parameter_get
to_untagged = refl

none_before : find_leg (codes "7") (some made_tag) fresh.legs ≡ none
unfolding find_leg find_key
none_before = refl

get_call_leg_for_request-created_example :
    (get_elem? fresh.store 0 ≡ none)
    × (get_call_leg_for_request after_first second_request false
        ≡ ok (return_ok, some 0, after_first))
get_call_leg_for_request-created_example =
    get_call_leg_for_request-created fresh after_first first_request second_request false
      (text_header HeaderId.call_id (codes "7")) (text_header HeaderId.call_id (codes "7"))
      (party HeaderId.to []) (party HeaderId.to (made_tag ∷ [])) (codes "7") 0
      (leg_in after_first.store) made_tag first_call_id reads first_to to_untagged creates_first
      made_there none_before second_call_id reads second_to second_tag made_tagged

abbrev pub busy : Response
busy = record {
  response_line = record {
    version = some (codes "SIP/2.0");
    status_code = some 486;
    status = 52;
    reason = some (codes "Busy Here");
    method = Method.invite;
  };
  headers =
      append_new_header bye_request.headers
        (record { header_id = HeaderId.content_length; content = integer_content 0 });
  content = none;
  remote_addr = none;
}

answers : create_response 5060 bye_request none 52 none ≡ ok busy
unfolding create_response answer_leaves response_tag header_clone clone_content answer_header
    describe_content link_header append_new_header get_header collect
answers = refl

create_response-count_example : (get_header HeaderId.call_id busy.headers).count ≡ (
    if same_header HeaderId.call_id HeaderId.contact
    then 0
    else (get_header HeaderId.call_id bye_request.headers).count)
create_response-count_example =
    create_response-count HeaderId.call_id 5060 bye_request none 52 none refl refl answers
