-- ===== src/Tests/Prints.antt =====
-- Applications of the theorems on printed headers and messages, and on searches and addresses.
use sipster.Base.{
  some, none, ◌≡◌, refl, arith, inr, ok, fault, null_deref, Bytes, codes, take, replicate,
}
use sipster.Text.{decimal, digits, ltrim, snprintf, c_str}
use sipster.Sip.Enums.{HeaderId}
use sipster.Sip.Inet.{inet6, other_family, SockAddr, sockaddr_to_sipster, sipster_to_sockaddr}
use sipster.Sip.Inet.RoundTrip.{sipster_to_sockaddr-sockaddr_to_sipster}
use sipster.Sip.Parameter.{Parameter}
use sipster.Sip.Header.Parse.{parse_header}
use sipster.Sip.Header.Parse.Cut.{print_header_string-take}
use sipster.Sip.Header.Print.{print_header, print_content}
use sipster.Sip.Chain.{append_new_header, get_header, collect}
use sipster.Sip.Message.Line.{request_print_line, response_print_line}
use sipster.Sip.Message.Print.{
  complete_headers, consume, print_message, print_leaves, body_bytes, allocation_size,
  request_print, response_print,
}
use sipster.Sip.Message.Print.Twice.{request_print-request_print}
use sipster.Tests.{resolver, text_header, bye_request}
use sipster.Tests.Legs.{busy}

short_id_trimmed : ltrim (codes "7@a") ≡ codes "7@a"
unfolding ltrim
short_id_trimmed = refl

abbrev long_id : Bytes
long_id = replicate 60 b'7'

long_id_trimmed : ltrim long_id ≡ long_id
unfolding ltrim
long_id_trimmed = refl

print_header_string-take_example :
    (line : Bytes) × (print_header (text_header HeaderId.call_id long_id) ≡ ok (some line))
    × (parse_header resolver line ≡ ok (some (text_header HeaderId.call_id (take 50 long_id))))
print_header_string-take_example =
    print_header_string-take resolver HeaderId.call_id _ long_id refl (inr refl) long_id_trimmed
      (omega arith)

abbrev tag_one : Parameter
tag_one = record { name = codes "tag"; value = codes "1" }

abbrev tag_two : Parameter
tag_two = record { name = codes "tag"; value = codes "2" }

-- A link-local address with its scope, under another family.
abbrev link_local : SockAddr
link_local = record {
  family = other_family 7;
  port = 50195;
  address = replicate 16 1;
  flow_info = 3;
  scope_id = 2;
}

sipster_to_sockaddr-sockaddr_to_sipster_example :
    sipster_to_sockaddr (sockaddr_to_sipster link_local)
    ≡ record link_local { family = inet6; flow_info = 0; scope_id = 0 }
sipster_to_sockaddr-sockaddr_to_sipster_example =
    sipster_to_sockaddr-sockaddr_to_sipster link_local (omega arith) refl

abbrev printed_bye : Bytes
printed_bye = codes "BYE b SIP/2.0\r\nCall-ID: 7\r\nContent-Length: 0\r\n\r\n"

prints_bye :
    request_print bye_request
    ≡ ok (
      printed_bye,
      record bye_request { headers = consume (complete_headers none bye_request.headers) },
    )
unfolding request_print print_message print_leaves complete_headers get_header collect
    append_new_header print_header print_content c_str body_bytes request_print_line snprintf
    decimal allocation_size
prints_bye = refl

request_print-request_print_example :
    request_print
      (record bye_request { headers = consume (complete_headers none bye_request.headers) })
    ≡ fault null_deref
request_print-request_print_example = request_print-request_print bye_request _ _ refl prints_bye

abbrev printed_busy : Bytes
printed_busy = codes "SIP/2.0 486 Busy Here\r\nCall-ID: 7\r\nContent-Length: 0\r\n\r\n"

prints_busy :
    response_print busy
    ≡ ok (printed_busy, record busy { headers = consume (complete_headers none busy.headers) })
unfolding response_print print_message print_leaves complete_headers get_header collect
    append_new_header print_header print_content c_str body_bytes response_print_line snprintf
    decimal digits allocation_size
prints_busy = refl
