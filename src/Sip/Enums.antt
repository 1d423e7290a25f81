-- ===== src/Sip/Enums.antt =====
-- src/sipster/sip_enums.h: return codes, methods, statuses and the headers that the stack handles.
use mathlib.Core.Bool.{Bool}
use sipster.Base.{ℕ, List, [], ◌∷◌, Option, none, some, Bytes, codes, equal, if◌then◌else◌, ◌==◌}

pub data ReturnCode : Type 0 where
  call_not_found message_parse_error message_error return_ok : ReturnCode

-- `SIP_METHOD_NONE` and the fourteen methods.
pub data Method : Type 0 where
  method_none invite ack bye cancel options register prack : Method
  subscribe notify publish info refer message update : Method

-- `method_names` and `method_ids`, entry by entry.
abbrev pub methods : List (Bytes × Method)
methods =
    (codes "INVITE", invite)
    ∷ (codes "ACK", ack)
    ∷ (codes "BYE", bye)
    ∷ (codes "CANCEL", cancel)
    ∷ (codes "OPTIONS", options)
    ∷ (codes "REGISTER", register)
    ∷ (codes "PRACK", prack)
    ∷ (codes "SUBSCRIBE", subscribe)
    ∷ (codes "NOTIFY", notify)
    ∷ (codes "PUBLISH", publish)
    ∷ (codes "INFO", info)
    ∷ (codes "REFER", refer)
    ∷ (codes "MESSAGE", message)
    ∷ (codes "UPDATE", update)
    ∷ []

-- `method_names[method]`.
abbrev pub method_name : Method → Bytes
method_name method_none = []
method_name invite = codes "INVITE"
method_name ack = codes "ACK"
method_name bye = codes "BYE"
method_name cancel = codes "CANCEL"
method_name options = codes "OPTIONS"
method_name register = codes "REGISTER"
method_name prack = codes "PRACK"
method_name subscribe = codes "SUBSCRIBE"
method_name notify = codes "NOTIFY"
method_name publish = codes "PUBLISH"
method_name info = codes "INFO"
method_name refer = codes "REFER"
method_name message = codes "MESSAGE"
method_name update = codes "UPDATE"

-- The loop over `method_names`: the first entry with that name.
unfoldable pub find_method : Bytes → List (Bytes × Method) → Option (Bytes × Method)
find_method name [] = none
find_method name ((n, id) ∷ rest) = if equal name n then some (n, id) else find_method name rest

-- The headers of the table `header_prototypes`; the rest of the enumeration is never parsed.
pub data HeaderId : Type 0 where
  to from via cseq accept content_length content_type contact : HeaderId
  call_id call_info user_agent session_id max_forwards allow supported : HeaderId
  content_disposition : HeaderId

-- The value of the enumerator.
abbrev pub header_index : HeaderId → ℕ
header_index to = 0
header_index from = 1
header_index via = 2
header_index cseq = 3
header_index accept = 4
header_index content_length = 5
header_index content_type = 6
header_index contact = 7
header_index call_id = 8
header_index call_info = 9
header_index user_agent = 10
header_index session_id = 11
header_index max_forwards = 12
header_index allow = 13
header_index supported = 14
header_index content_disposition = 15

-- `a == b` of two enumerators.
abbrev pub same_header : HeaderId → HeaderId → Bool
same_header a b = header_index a == header_index b
