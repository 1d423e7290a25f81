-- ===== src/Tests/Messages.antt =====
-- Applications of the theorems on whole messages that are printed and parsed again.
use sipster.Base.{[], ◌∷◌, some, none, ◌≡◌, refl, arith, ok, All, Bytes, codes, length}
use sipster.Sip.Status.{find_status}
use sipster.Text.{
  atoi, strtol, scan_digits, decimal, digits, ltrim, strncpy_full, next_token, get_rest,
}
use sipster.Sip.Enums.{return_ok, message_parse_error, Method, HeaderId}
use sipster.Sip.Inet.{inet_address_parse}
use sipster.Sip.Parameter.{print_params, Parameter}
use sipster.Sip.Header.{
  find_prototype, Header, via_content, cseq_content, integer_content, type_content,
}
use sipster.Sip.Header.Parse.Printable.{IsPrinted, print_header-HasLine}
use sipster.Sip.Header.Parse.Lines.{HasLine}
use sipster.Sip.Chain.Linked.{chain_of}
use sipster.Sip.Message.{ContentBody, live, null, ResponseLine, response_create}
use sipster.Sip.Message.Line.{parse_response_line}
use sipster.Sip.Message.Parse.Unknown.{text_with_bad, response_parse-text_with_bad}
use sipster.Sip.Header.Parse.{parse_header}
use sipster.Sip.Message.Parse.{request_parse, response_parse, nothing_seen}
use sipster.Sip.Message.Parse.Lines.{see_all, noted}
use sipster.Sip.Message.Parse.Body.{IsContent}
use sipster.Sip.Message.Parse.Requests.{request_with, line_of, request_parse-request_print}
use sipster.Sip.Message.Parse.Responses.{response_with, status_line, response_parse-response_print}
use sipster.Sip.Message.Print.{request_print, response_print, consume}
use sipster.Sip.Message.Print.Lines.{completed}
use sipster.Tests.{resolver}

abbrev pub branch : Parameter
branch = record { name = codes "branch"; value = codes "z9" }

abbrev pub via_header : Header
via_header = record {
  header_id = HeaderId.via;
  content = via_content (codes "a.example:5060") none (branch ∷ []);
}

via_header-IsPrinted : IsPrinted resolver via_header
unfolding inet_address_parse print_params ltrim next_token get_rest
via_header-IsPrinted = record {
  entry = _;
  there = refl;
  fields = (
    ground arith,
    (
      record {
        name_free = ground arith;
        value_free = ground arith;
        name_fits = omega arith;
        value_fits = omega arith;
      },
      tt,
    ),
    omega arith,
    refl,
  );
  trimmed = refl;
  free = ground arith;
  fits = omega arith;
  short = omega arith;
}

print_header-HasLine_example : HasLine resolver via_header
print_header-HasLine_example = print_header-HasLine resolver via_header via_header-IsPrinted

pub via_header-HasLine : All (HasLine resolver) (via_header ∷ [])
via_header-HasLine = (print_header-HasLine resolver via_header via_header-IsPrinted, tt)

-- A header that the table does not have.
abbrev pub event_line : Bytes
event_line = codes "Event: dialog"

pub event_line-unknown : parse_header resolver event_line ≡ ok none
unfolding parse_header find_prototype next_token get_rest
event_line-unknown = refl

abbrev pub ok_line : Bytes
ok_line = codes "SIP/2.0 200 OK"

abbrev pub ok_parsed : ResponseLine
ok_parsed = (parse_response_line ok_line response_create.response_line).1

pub ok_line-accepted :
    parse_response_line ok_line response_create.response_line ≡ (return_ok, ok_parsed)
unfolding parse_response_line next_token get_rest find_status atoi strtol ltrim scan_digits
ok_line-accepted = refl

response_parse-text_with_bad_example :
    response_parse resolver
      (text_with_bad resolver ok_line (via_header ∷ []) via_header-HasLine event_line [])
      70
    ≡ ok (message_parse_error, null)
response_parse-text_with_bad_example =
    response_parse-text_with_bad resolver ok_line ok_parsed (via_header ∷ []) via_header-HasLine
      event_line [] 70 (ground arith) ok_line-accepted (ground arith) refl event_line-unknown

abbrev cseq_header : Header
cseq_header = record {
  header_id = HeaderId.cseq;
  content = cseq_content 7 (some (codes "INFO")) Method.info;
}

cseq_header-IsPrinted : IsPrinted resolver cseq_header
unfolding decimal digits ltrim
cseq_header-IsPrinted = record {
  entry = _;
  there = refl;
  fields = (omega arith, λ e. cc, refl);
  trimmed = refl;
  free = ground arith;
  fits = omega arith;
  short = omega arith;
}

abbrev signal : ContentBody
signal = record { content_type = codes "text/dtmf"; length = 8; body = codes "Signal=5" }

abbrev type_of_signal : Header
type_of_signal = record {
  header_id = HeaderId.content_type;
  content = type_content (codes "text/dtmf") [];
}

type_of_signal-IsPrinted : IsPrinted resolver type_of_signal
unfolding print_params ltrim
type_of_signal-IsPrinted = record {
  entry = _;
  there = refl;
  fields = (ground arith, tt, omega arith);
  trimmed = refl;
  free = ground arith;
  fits = omega arith;
  short = omega arith;
}

abbrev length_of_signal : Header
length_of_signal = record { header_id = HeaderId.content_length; content = integer_content 8 }

length_of_signal-IsPrinted : IsPrinted resolver length_of_signal
unfolding decimal digits ltrim
length_of_signal-IsPrinted = record {
  entry = _;
  there = refl;
  fields = omega arith;
  trimmed = refl;
  free = ground arith;
  fits = omega arith;
  short = omega arith;
}

completed-signal :
    completed (some signal) (via_header ∷ cseq_header ∷ [])
    ≡ via_header ∷ cseq_header ∷ type_of_signal ∷ length_of_signal ∷ []
unfolding strncpy_full
completed-signal = refl

signal_headers-IsPrinted :
    All (IsPrinted resolver) (via_header ∷ cseq_header ∷ type_of_signal ∷ length_of_signal ∷ [])
signal_headers-IsPrinted = (
  via_header-IsPrinted,
  (cseq_header-IsPrinted, (type_of_signal-IsPrinted, (length_of_signal-IsPrinted, tt))),
)

described :
    IsContent
      (some signal)
      (see_all (via_header ∷ cseq_header ∷ type_of_signal ∷ length_of_signal ∷ []) nothing_seen)
unfolding ltrim see_all
described = record {
  seen_length = refl;
  seen_type = refl;
  exact = refl;
  not_empty = omega arith;
  trimmed = refl;
  fits = omega arith;
  type_fits = omega arith;
}

request_parse-request_print_example :
    let l = line_of Method.info (codes "sip:b") (codes "SIP/2.0") in
    let hs = via_header ∷ cseq_header ∷ [] in
    let all = completed (some signal) hs in
    (out : Bytes) × (request_print (request_with l (chain_of hs) (some signal))
      ≡ ok (out, request_with l (consume (chain_of all)) (some signal)))
    × (request_parse resolver out (length out)
        ≡ ok (return_ok, live (request_with l (chain_of all) (some signal))))
unfolding strncpy_full
request_parse-request_print_example =
    request_parse-request_print resolver Method.info (codes "sip:b") (codes "SIP/2.0") via_header
      (cseq_header ∷ []) (some signal) (λ e. cc) (ground arith) (ground arith) (ground arith)
      (omega arith) signal_headers-IsPrinted (omega arith) described

response_parse-response_print_example :
    let l = status_line 6 200 (codes "OK") (codes "SIP/2.0") in
    let hs = via_header ∷ cseq_header ∷ [] in
    let all = completed (some signal) hs in
    (out : Bytes) × (response_print (response_with l Method.info (chain_of hs) (some signal))
      ≡ ok (out, response_with l Method.info (consume (chain_of all)) (some signal)))
    × (response_parse resolver out (length out)
        ≡ ok (
          return_ok,
          live (response_with l (noted all Method.invite) (chain_of all) (some signal)),
        ))
unfolding strncpy_full decimal digits
response_parse-response_print_example =
    response_parse-response_print resolver 6 200 (codes "OK") (codes "SIP/2.0") Method.info
      via_header (cseq_header ∷ []) (some signal) refl refl (ground arith) (ground arith)
      (omega arith) signal_headers-IsPrinted (omega arith) described
