-- ===== src/Tests.antt =====
-- Runs of the model on concrete datagrams and headers, and applications of the theorems at them.
pub mod Headers
pub mod Descriptions
pub mod Legs
pub mod Prints
pub mod Templates
pub mod Processing
pub mod Messages
pub mod Objects
use sipster.Text.Number.{digits}
use sipster.Base.{◌≤◌, [], ◌∷◌, none, some, ◌≡◌, refl, ok, Bytes, codes, length, InFuel, arith}
use sipster.Text.{strncpy_all, get_rest, ltrim, next_token, decimal}
use sipster.Sip.Enums.{find_method, methods, return_ok, Method, HeaderId}
use sipster.Sip.Inet.{Resolver}
use sipster.Sip.Header.{find_prototype, Header, string_content}
use sipster.Sip.Header.Parse.{parse_header, parse_content, ci_parse}
use sipster.Sip.Chain.{append_new_header, link_header}
use sipster.Sip.Message.{RequestLine, ResponseLine, Request, response_create, live}
use sipster.Sip.Message.Line.{spaced, parse_request_line}
use sipster.Sip.Message.Parse.{request_loop, request_content, request_parse, response_parse}
use sipster.Sip.Message.Parse.Fuel.{request_parse-InFuel, response_parse-InFuel}
use sipster.Sip.Message.Parse.Outcome.{first_word, request_parse_accepted}

abbrev pub resolver : Resolver
resolver node service = none

abbrev bye_text : Bytes
bye_text = codes "BYE b SIP/2.0\r\nCall-ID: 7\r\nX: 1\r\n\r\n"

abbrev pub unknown_text : Bytes
unknown_text = codes "HELLO b SIP/2.0\r\n\r\n"

abbrev pub text_header : HeaderId → Bytes → Header
text_header i t = record { header_id = i; content = string_content t }

abbrev pub bye_request : Request
bye_request = record {
  request_line = record {
    method = some (codes "BYE");
    method_id = Method.bye;
    request_uri = some (codes "b");
    version = some (codes "SIP/2.0");
  };
  headers = record {
    leaves = record { index = 0; header = some (text_header HeaderId.call_id (codes "7")) } ∷ [];
    count = 1;
    first_header = some 0;
  };
  content = none;
  remote_addr = none;
}

bye_known : find_method (first_word bye_text) methods ≡ some (codes "BYE", Method.bye)
unfolding find_method next_token
bye_known = refl

pub hello_unknown : find_method (first_word unknown_text) methods ≡ none
unfolding find_method next_token
hello_unknown = refl

request_parse-bye :
    request_parse resolver bye_text (length bye_text) ≡ ok (return_ok, live bye_request)
unfolding request_parse parse_request_line find_method next_token request_loop parse_header
    find_prototype parse_content ci_parse strncpy_all get_rest ltrim request_content link_header
    append_new_header
request_parse-bye = refl

request_parse-InFuel_example : InFuel (request_parse resolver bye_text (length bye_text))
request_parse-InFuel_example = request_parse-InFuel resolver bye_text (length bye_text)

request_parse_accepted_example :
    (return_ok ≡ return_ok)
    × ((r : Request) × (live bye_request ≡ live r)
        × (r.request_line.method ≡ some (codes "BYE"))
        × (r.request_line.method_id ≡ Method.bye))
request_parse_accepted_example =
    request_parse_accepted resolver bye_text (length bye_text) (codes "BYE") Method.bye bye_known
      request_parse-bye

abbrev reply_text : Bytes
reply_text = codes "SIP/2.0 200 OK\r\nX: 1\r\n\r\n"

response_parse-InFuel_example : InFuel (response_parse resolver reply_text 26)
response_parse-InFuel_example = response_parse-InFuel resolver reply_text 26

abbrev invite_line : RequestLine
invite_line = record {
  method = some (codes "INVITE");
  method_id = Method.invite;
  request_uri = some (codes "sip:bob@example.org");
  version = some (codes "SIP/2.0");
}

abbrev ringing_line : ResponseLine
ringing_line = record response_create.response_line {
  version = some (codes "SIP/2.0");
  status_code = some 180;
  status = 1;
  reason = some (codes "Ringing");
}

ringing_fits : length (spaced (codes "SIP/2.0") (decimal 180) (codes "Ringing")) ≤ 149
unfolding decimal digits
ringing_fits = omega arith
