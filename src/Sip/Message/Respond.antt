-- ===== src/Sip/Message/Respond.antt =====
-- `sipster_sip_request_create_response` of src/sip.cpp, and the call leg of src/sipster/sip.h that it
-- and the dialog layer share.
pub mod Laws
pub mod Count
use sipster.Base.{
  ℕ, ◌&&◌, Bool, true, false, List, [], ◌∷◌, ◌++◌, Option, none, some, Exec, ok, ◌>>=◌, deref,
  element, leb, if◌then◌else◌, Bytes, codes, take, drop, get_elem?,
}
use sipster.Text.{c_str, snprintf, decimal, strncpy_full}
use sipster.Sip.Enums.{invite, HeaderId, content_length, content_type}
use sipster.Sip.Status.{statuses, status_phrases, status_200_ok, status_204_no_notification}
use sipster.Sip.Parameter.{Parameter, parameter_create, parameter_get, append_parameter}
use sipster.Sip.Header.{
  Content, address_content, via_content, type_content, integer_content, Header,
}
use sipster.Sip.Header.Clone.{header_clone}
use sipster.Sip.Chain.{
  Chain, Leaf, empty_chain, holds, link_header, append_new_header, get_header, walk,
}
use sipster.Sip.Message.{ContentBody, Request, Response, sip_protocol}
use sipster.Sip.Message.Print.{is_missing, body_length}

-- `SIP_HEADER_WITH_PARAMS_FIRST` of the structures that have parameters, and storing them back.
abbrev pub params_of : Content → List Parameter
params_of (address_content a p ps) = ps
params_of (via_content a p ps) = ps
params_of (type_content t ps) = ps
params_of _ = []

abbrev pub set_params : List Parameter → Content → Content
set_params ps (address_content a p _) = address_content a p ps
set_params ps (via_content a p _) = via_content a p ps
set_params ps (type_content t _) = type_content t ps
set_params ps c = c

-- `sipster_sip_header_append_parameter` on a header.
abbrev pub header_append_parameter : Header → Parameter → Header
header_append_parameter h p = record h {
  content = set_params (append_parameter (params_of h.content) p) h.content;
}

-- The RFC 3581 answer: a Via with an `rport` gets this stack's port there.
add_rport : ℕ → Header → Option Parameter → Header
add_rport rport h none = h
add_rport rport h (some p) =
    header_append_parameter h (parameter_create (codes "rport") (snprintf 6 (decimal rport)))

add_tag : Option Parameter → Header → Header
add_tag none h = h
add_tag (some p) h = header_append_parameter h p

-- The `switch` over the copied header: `none` is the jump to `skip_header`.
unfoldable pub answer_header : ℕ → Option Parameter → HeaderId → Header → Option Header
unfolding add_rport add_tag
answer_header rport tag HeaderId.contact h = none
answer_header rport tag HeaderId.via h =
    some (add_rport rport h (parameter_get (codes "rport") (params_of h.content)))
answer_header rport tag HeaderId.to h = some (add_tag tag h)
answer_header rport tag _ h = some h

link_answer : Chain → Option Header → Chain
link_answer c none = c
link_answer c (some h) = link_header c h

-- The loop over the headers of the request.
unfoldable pub answer_leaves : ℕ → Option Parameter → List Leaf → Chain → Exec Chain
unfolding link_answer
answer_leaves rport tag [] c = ok c
answer_leaves rport tag (l ∷ ls) c = do
  h ← deref l.header
  copy ← header_clone h
  answer_leaves rport tag ls (link_answer c (answer_header rport tag copy.header_id copy))

-- Only a 2xx response gets the leg's tag; the leg is not looked at otherwise.
abbrev pub is_success : ℕ → Bool
is_success status = leb status status_204_no_notification && leb status_200_ok status

tag_if : Bool → Option Bytes → Exec (Option Parameter)
tag_if false to_tag = ok none
tag_if true to_tag = do
  field ← deref to_tag
  tag ← c_str 15 field
  ok (some (parameter_create (codes "tag") tag))

unfoldable pub response_tag : ℕ → Option Bytes → Exec (Option Parameter)
unfolding tag_if
response_tag status to_tag = tag_if (is_success status) to_tag

-- A write to the first header of that id.
update_leaves : HeaderId → (Content → Content) → List Leaf → List Leaf
update_leaves i f [] = []
update_leaves i f (l ∷ ls) =
    if holds i l.header
    then record l {
      header = elim l.header [ none ↦ none | some h ↦ some (record h { content = f h.content }) ];
    }
      ∷ ls
    else l ∷ update_leaves i f ls

update_from : Option ℕ → HeaderId → (Content → Content) → Chain → Chain
unfolding update_leaves
update_from none i f c = c
update_from (some first) i f c = record c {
  leaves = take first c.leaves ++ update_leaves i f (drop first c.leaves);
}

update_first : HeaderId → (Content → Content) → Chain → Chain
unfolding update_from
update_first i f c = update_from c.first_header i f c

-- Writes the header of that id, or appends one; an append leaves `firstHeader` alone.
put_content : HeaderId → (Content → Content) → Content → Chain → Chain
unfolding update_first
put_content i f new c =
    if is_missing (get_header i c)
    then append_new_header c (record { header_id = i; content = new })
    else update_first i f c

put_type : Bytes → Content → Content
put_type t (type_content _ ps) = type_content t ps
put_type t c = c

put_number : ℕ → Content → Content
put_number n (integer_content _) = integer_content n
put_number n c = c

describe_type : Option ContentBody → Chain → Chain
unfolding put_content put_type
describe_type none c = c
describe_type (some b) c =
    let t = strncpy_full 150 b.content_type in
    put_content content_type (put_type t) (type_content t []) c

unfoldable pub describe_content : Option ContentBody → Chain → Chain
unfolding describe_type put_number
describe_content b c =
    put_content content_length (put_number (body_length b)) (integer_content (body_length b))
      (describe_type b c)

-- `sipster_sip_request_create_response`: `to_tag` is the leg's field, or `none` for a NULL leg.
unfoldable pub create_response : ℕ → Request → Option Bytes → ℕ → Option ContentBody → Exec Response
create_response rport request to_tag status body = do
  code ← element (get_elem? statuses status)
  phrase ← element (get_elem? status_phrases status)
  tag ← response_tag status to_tag
  c ← answer_leaves rport tag (walk request.headers) empty_chain
  ok (record {
    response_line = record {
      version = some sip_protocol;
      status_code = some code;
      status = status;
      reason = some phrase;
      method = invite;
    };
    headers = describe_content body c;
    content = body;
    remote_addr = request.remote_addr;
  })
