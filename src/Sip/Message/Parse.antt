-- ===== src/Sip/Message/Parse.antt =====
-- `sipster_sip_request_parse` and `sipster_sip_response_parse` of src/sip.cpp.
pub mod Fuel
pub mod Outcome
pub mod Lines
pub mod Unknown
pub mod Body
pub mod Requests
pub mod Responses
use sipster.Base.{
  ℕ, zero, suc, ◌+◌, Bool, true, false, ◌&&◌, [], ◌∷◌, Option, none, some, Exec, ok, fault,
  overflow, out_of_fuel, ◌>>=◌, ltb, leb, if◌then◌else◌, Bytes, equal, length, take,
}
use sipster.Text.{Position, at, npos, next_token, get_rest, ltrim, strncpy_bare}
use sipster.Sip.Enums.{ReturnCode, message_parse_error, return_ok, Method, invite, HeaderId}
use sipster.Sip.Inet.{Resolver}
use sipster.Sip.Header.{Content, cseq_content, type_content, integer_content, Header}
use sipster.Sip.Header.Parse.{parse_header}
use sipster.Sip.Chain.{link_header}
use sipster.Sip.Message.{
  RequestLine, ResponseLine, ContentBody, Request, Response, request_create, response_create,
  Pointer, null, dangling, live,
}
use sipster.Sip.Message.Line.{parse_request_line, parse_response_line}

-- `"\r\n"`.
abbrev pub crlf : Bytes
crlf = b'\r' ∷ b'\n' ∷ []

abbrev pub number_of : Content → ℕ
number_of (integer_content n) = n
number_of _ = 0

abbrev pub type_of : Content → Bytes
type_of (type_content ct ps) = ct
type_of _ = []

abbrev pub method_of : Content → Method
method_of (cseq_content seq name id) = id
method_of _ = invite

-- The local pointers of the parse functions: the last Content-Length and Content-Type read.
pub record Seen : Type 0 where
  pub content_length : Option ℕ
  pub content_type : Option Bytes

abbrev pub nothing_seen : Seen
nothing_seen = record { content_length = none; content_type = none }

see : HeaderId → Content → Seen → Seen
see HeaderId.content_length c s = record s { content_length = some (number_of c) }
see HeaderId.content_type c s = record s { content_type = some (type_of c) }
see _ c s = s

request_take : Request → Seen → Option Header → Request × Seen
unfolding see
request_take r s none = (r, s)
request_take r s (some h) =
    (record r { headers = link_header r.headers h }, see h.header_id h.content s)

-- The `while` of `sipster_sip_request_parse`, on the line read last and the cursor behind it. A
-- header that is not understood is skipped.
unfoldable pub request_loop :
    ℕ → Resolver → Bytes → Bytes → Position → Request → Seen → Exec (Request × Seen × Position)
unfolding request_take
request_loop zero g input line pos r s = fault out_of_fuel
request_loop (suc fuel) g input line pos r s =
    let (line', pos') = next_token input crlf pos in
    let again = parse_header g line >>= λ (h : Option Header).
    let (r', s') = request_take r s h in request_loop fuel g input line' pos' r' s' in
    if equal line [] then ok (r, s, pos) else again

-- Whether the body is there: a positive length that fits in the datagram behind the cursor.
abbrev has_body : ℕ → Position → ℕ → Bool
has_body n npos size = false
has_body n (at pos) size = ltb 0 n && leb (pos + n) size

-- `strncpy(body->contentType, …, strlen(…))`, if there is a Content-Type.
body_type : Option Bytes → Exec Bytes
body_type none = ok []
body_type (some ct) = strncpy_bare 150 ct

-- The body of a request: all of the rest, whatever Content-Length says.
request_body : Bytes → Position → Option Bytes → Exec ContentBody
unfolding body_type
request_body input pos ct = do
  t ← body_type ct
  let (rest, pos') = get_rest input pos
  let d = ltrim rest
  copy ← strncpy_bare 1500 d
  ok (record { content_type = t; length = length d; body = copy })

request_content_if : Bool → Bytes → Position → Option Bytes → Request → Exec Request
unfolding request_body
request_content_if false input pos ct r = ok r
request_content_if true input pos ct r = do
  b ← request_body input pos ct
  ok (record r { content = some b })

unfoldable pub request_content : Bytes → ℕ → Position → Seen → Option ℕ → Request → Exec Request
unfolding request_content_if
request_content input size pos s none r = ok r
request_content input size pos s (some n) r =
    request_content_if (has_body n pos size) input pos s.content_type r

-- Behind the request line.
request_rest : Resolver → Bytes → ℕ → Position → Request → Exec Request
request_rest g input size pos r = do
  let (line, pos') = next_token input crlf pos
  (r', s, pos'') ← request_loop (suc (length input)) g input line pos' r nothing_seen
  request_content input size pos'' s s.content_length r'

-- Behind the check of the request line. A request whose first line is refused is destroyed, and
-- the pointer to it is returned all the same.
request_after_line :
    Resolver → Bytes → ℕ → Position → ReturnCode → RequestLine → Exec (ReturnCode × Pointer Request)
unfolding request_rest
request_after_line g input size pos return_ok l = do
  r ← request_rest g input size pos (record request_create { request_line = l })
  ok (return_ok, live r)
request_after_line g input size pos res l = ok (res, dangling)

-- `sipster_sip_request_parse`: the status in `*result`, and the pointer returned.
unfoldable pub request_parse : Resolver → Bytes → ℕ → Exec (ReturnCode × Pointer Request)
unfolding request_after_line
request_parse g input size =
    let (line, pos) = next_token input crlf (at 0) in
    let (res, l) = parse_request_line line request_create.request_line in
    request_after_line g input size pos res l

-- `response->responseLine.method` follows the CSeq headers.
note_method : HeaderId → Content → Response → Response
note_method HeaderId.cseq c r = record r {
  response_line = record (r.response_line) { method = method_of c };
}
note_method _ c r = r

response_take : Header → Response → Response
unfolding note_method
response_take h r =
    let r' = note_method h.header_id h.content r in record r' { headers = link_header r'.headers h }

-- The early return on a header that is NULL.
on_header {ℓ} : {A : Type ℓ} → Option Header → (Header → Exec (Option A)) → Exec (Option A)
on_header none go_on = ok none
on_header (some h) go_on = go_on h

-- The loop of `sipster_sip_response_parse`: `none` when a header is not understood.
unfoldable pub response_loop :
    ℕ
    → Resolver
    → Bytes
    → Bytes
    → Position
    → Response
    → Seen
    → Exec (Option (Response × Seen × Position))
unfolding response_take see on_header
response_loop zero g input line pos r s = fault out_of_fuel
response_loop (suc fuel) g input line pos r s =
    let (line', pos') = next_token input crlf pos in
    let go_on = λ (h : Header).
      response_loop fuel g input line' pos' (response_take h r) (see h.header_id h.content s) in
    let again = parse_header g line >>= λ (o : Option Header). on_header o go_on in
    if equal line [] then ok (some (r, s, pos)) else again

-- `strncpy(body->data, d, body->length)` writes `length` bytes, padding with NULs.
response_data : ℕ → Bytes → Exec Bytes
response_data n d = if leb n 1500 then ok (take n d) else fault overflow

response_body : Bytes → Position → ℕ → Option Bytes → Exec ContentBody
unfolding body_type response_data
response_body input pos n ct = do
  t ← body_type ct
  let (rest, pos') = get_rest input pos
  copy ← response_data n (ltrim rest)
  ok (record { content_type = t; length = n; body = copy })

response_content_if : Bool → Bytes → Position → ℕ → Option Bytes → Response → Exec Response
unfolding response_body
response_content_if false input pos n ct r = ok r
response_content_if true input pos n ct r = do
  b ← response_body input pos n ct
  ok (record r { content = some b })

unfoldable pub response_content : Bytes → ℕ → Position → Seen → Option ℕ → Response → Exec Response
unfolding response_content_if
response_content input size pos s none r = ok r
response_content input size pos s (some n) r =
    response_content_if (has_body n pos size) input pos n s.content_type r

response_end :
    Bytes → ℕ → Option (Response × Seen × Position) → Exec (ReturnCode × Pointer Response)
response_end input size none = ok (message_parse_error, null)
response_end input size (some (r, s, pos)) = do
  r' ← response_content input size pos s s.content_length r
  ok (return_ok, live r')

response_rest : Resolver → Bytes → ℕ → Position → Response → Exec (ReturnCode × Pointer Response)
unfolding response_end
response_rest g input size pos r = do
  let (line, pos') = next_token input crlf pos
  o ← response_loop (suc (length input)) g input line pos' r nothing_seen
  response_end input size o

response_after_line :
    Resolver
    → Bytes
    → ℕ
    → Position
    → ReturnCode
    → ResponseLine
    → Exec (ReturnCode × Pointer Response)
unfolding response_rest
response_after_line g input size pos return_ok l =
    response_rest g input size pos (record response_create { response_line = l })
response_after_line g input size pos res l = ok (res, dangling)

-- `sipster_sip_response_parse`: NULL after a header that is not understood.
unfoldable pub response_parse : Resolver → Bytes → ℕ → Exec (ReturnCode × Pointer Response)
unfolding response_after_line
response_parse g input size =
    let (line, pos) = next_token input crlf (at 0) in
    let (res, l) = parse_response_line line response_create.response_line in
    response_after_line g input size pos res l
