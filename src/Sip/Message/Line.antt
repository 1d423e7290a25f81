-- ===== src/Sip/Message/Line.antt =====
-- First lines of messages, src/sip.cpp: `sipster_sip_request_parse_line`,
-- `sipster_sip_response_parse_line` and their prints.
pub mod RoundTrip
use sipster.Base.{ℕ, [], ◌∷◌, ◌++◌, Option, none, some, Bytes, codes, get_elem?}
use sipster.Text.{Position, at, next_token, get_rest, atoi, decimal, snprintf}
use sipster.Sip.Enums.{
  ReturnCode, message_parse_error, message_error, return_ok, Method, method_none, find_method,
  methods,
}
use sipster.Sip.Status.{statuses, status_phrases, find_status}
use sipster.Sip.Message.{Request, RequestLine, Response, ResponseLine}

-- Behind the loop over the methods.
request_line_parts :
    Bytes → Position → Option (Bytes × Method) → RequestLine → ReturnCode × RequestLine
request_line_parts input pos none line =
    (message_parse_error, record line { method_id = method_none })
request_line_parts input pos (some (name, id)) line =
    let (uri, pos') = next_token input (b' ' ∷ []) pos in
    let (version, pos'') = get_rest input pos' in
    (
      return_ok,
      record line {
        method = some name;
        method_id = id;
        request_uri = some uri;
        version = some version;
      },
    )

unfoldable pub parse_request_line : Bytes → RequestLine → ReturnCode × RequestLine
unfolding request_line_parts
parse_request_line input line =
    let (method, pos) = next_token input (b' ' ∷ []) (at 0) in
    request_line_parts input pos (find_method method methods) line

-- `sipster_sip_request_parse_line`; the arguments are pointers that may be NULL.
unfoldable pub request_parse_line : Option Bytes → Option Request → ReturnCode × Option Request
request_parse_line (some input) (some r) =
    let (res, line) = parse_request_line input r.request_line in
    (res, some (record r { request_line = line }))
request_parse_line _ r = (message_error, r)

status_parts : Option ℕ → ResponseLine → ReturnCode × ResponseLine
status_parts none line = (message_parse_error, record line { status_code = none })
status_parts (some i) line = (
  return_ok,
  record line {
    status_code = get_elem? statuses i;
    status = i;
    reason = get_elem? status_phrases i;
  },
)

-- The phrase of the text is read and dropped: `reason` is the table's.
unfoldable pub parse_response_line : Bytes → ResponseLine → ReturnCode × ResponseLine
unfolding status_parts
parse_response_line input line =
    let (version, pos) = next_token input (b' ' ∷ []) (at 0) in
    let (code, pos') = next_token input (b' ' ∷ []) pos in
    status_parts (find_status (atoi 32 code) 0 statuses) (record line { version = some version })

-- `sipster_sip_response_parse_line`.
unfoldable pub response_parse_line : Option Bytes → Option Response → ReturnCode × Option Response
response_parse_line (some input) (some r) =
    let (res, line) = parse_response_line input r.response_line in
    (res, some (record r { response_line = line }))
response_parse_line _ r = (message_error, r)

-- `%s` of a pointer that may be NULL.
abbrev pub text_or_null : Option Bytes → Bytes
text_or_null none = codes "(null)"
text_or_null (some s) = s

-- `%d` of the status code, which is -1 for `SIP_STATUS_NONE`.
abbrev code_text : Option ℕ → Bytes
code_text none = codes "-1"
code_text (some n) = decimal n

abbrev pub spaced : Bytes → Bytes → Bytes → Bytes
spaced a b c = a ++ (b' ' ∷ (b ++ (b' ' ∷ c)))

-- `sipster_sip_request_print_line` and `sipster_sip_response_print_line`: at most 149 bytes.
unfoldable pub request_print_line : RequestLine → Bytes
request_print_line line =
    snprintf 150 (
      spaced (text_or_null line.method) (text_or_null line.request_uri) (text_or_null line.version))

unfoldable pub response_print_line : ResponseLine → Bytes
response_print_line line =
    snprintf 150
      (spaced (text_or_null line.version) (code_text line.status_code) (text_or_null line.reason))
