-- ===== src/Sip/Message/Parse/Requests.antt =====
-- Requests that are printed and parsed again.
use sipster.Base.{
  suc, ◌≤◌, ◌^◌, List, [], ◌∷◌, ◌++◌, Option, none, some, ◌≡◌, ◌≢◌, refl, arith, ok, length, All,
  Bytes, take_all,
}
use sipster.Text.{at, next_token, snprintf, Position}
use sipster.Text.Token.Split.{IsFree, remaining, next_token-line}
use sipster.Sip.Enums.{return_ok, Method, method_none, method_name, invite}
use sipster.Sip.Inet.{Resolver}
use sipster.Sip.Header.{Header}
use sipster.Sip.Header.Parse.Printable.{IsPrinted, All-IsPrinted}
use sipster.Sip.Header.Parse.Lines.{HasLine, lines_text, length-le-lines_text}
use sipster.Sip.Parameter.RoundTrip.{IsFree-append}
use sipster.Sip.Chain.{Chain}
use sipster.Sip.Chain.Linked.{chain_of}
use sipster.Sip.Message.{ContentBody, RequestLine, Request, request_create, live}
use sipster.Sip.Message.Line.{parse_request_line, request_print_line, spaced}
use sipster.Sip.Message.Line.RoundTrip.{parse_request_line-request_print_line}
use sipster.Sip.Message.Parse.{crlf, nothing_seen, request_rest, request_after_line, request_parse}
use sipster.Sip.Message.Parse.Lines.{see_all, request_loop-lines_text}
use sipster.Sip.Message.Parse.Body.{sent, IsContent, request_content-sent}
use sipster.Sip.Message.Print.{request_print, consume}
use sipster.Sip.Message.Print.Lines.{
  completed, completed-Begins, complete_headers-chain_of, IsSent, message_text,
  print_message-message_text, length-message_text,
}

abbrev pub request_with : RequestLine → Chain → Option ContentBody → Request
request_with l headers c = record request_create {
  request_line = l;
  headers = headers;
  content = c;
}

request_rest-lines_text :
    (g : Resolver) (input : Bytes) (p : Position) (l : RequestLine) (hs : List Header)
    (w : All (HasLine g) hs) (c : Option ContentBody)
    → remaining input p ≡ lines_text g hs w ++ (crlf ++ sent c)
    → length hs ≤ length input
    → IsContent c (see_all hs nothing_seen)
    → request_rest g input (length input) p (record request_create { request_line = l })
      ≡ ok (request_with l (chain_of hs) c)
unfolding request_rest
request_rest-lines_text g input p l hs w c e f v =
    let (q, looped, left) =
      request_loop-lines_text (suc (length input)) g hs w input (sent c) p
        (record request_create { request_line = l }) nothing_seen (omega (arith, f)) e in
    rw looped (
      request_content-sent input q (see_all hs nothing_seen) c (request_with l (chain_of hs) none)
        left v)

request_parse-message_text :
    (g : Resolver) (l : RequestLine) (hs : List Header) (w : All (HasLine g) hs)
    (c : Option ContentBody)
    → IsFree crlf (request_print_line l)
    → parse_request_line (request_print_line l) request_create.request_line ≡ (return_ok, l)
    → IsContent c (see_all hs nothing_seen)
    → IsSent c
    → let out = message_text g (request_print_line l) hs w c in
      request_parse g out (length out) ≡ ok (return_ok, live (request_with l (chain_of hs) c))
unfolding request_parse request_after_line
request_parse-message_text g l hs w c free parsed v u =
    let line = request_print_line l in
    let out = message_text g line hs w c in
    let first = next_token-line out line (lines_text g hs w ++ (crlf ++ sent c)) (at 0) refl free in
    let short : length hs ≤ length out =
      omega (arith, length-le-lines_text g hs w, length-message_text g line c hs w u) in
    let rest =
      request_rest-lines_text g out (next_token out crlf (at 0)).1 l hs w c first.1 short v in
    rw (first.0, parsed, rest) refl

pub IsContent-IsSent :
    (c : Option ContentBody) (hs : List Header) → IsContent c (see_all hs nothing_seen) → IsSent c
IsContent-IsSent none hs v = tt
IsContent-IsSent (some b) hs v = (v.exact, v.fits)

method_name-IsFree-crlf : (m : Method) → IsFree crlf (method_name m)
method_name-IsFree-crlf method_none = tt
method_name-IsFree-crlf invite = ground arith
method_name-IsFree-crlf _ = ground arith

pub spaced-IsFree :
    (a b c : Bytes) → IsFree crlf a → IsFree crlf b → IsFree crlf c → IsFree crlf (spaced a b c)
spaced-IsFree a b c u v w =
    IsFree-append crlf a (b' ' ∷ (b ++ (b' ' ∷ c))) u
      (refl, IsFree-append crlf b (b' ' ∷ c) v (refl, w))

abbrev pub line_of : Method → Bytes → Bytes → RequestLine
line_of m uri version = record {
  method = some (method_name m);
  method_id = m;
  request_uri = some uri;
  version = some version;
}

request_print_line_whole :
    (m : Method) (uri version : Bytes)
    → length (spaced (method_name m) uri version) ≤ 149
    → request_print_line (line_of m uri version) ≡ spaced (method_name m) uri version
unfolding request_print_line snprintf
request_print_line_whole m uri version fits = take_all 149 _ fits

-- A request without a remote address comes back from its text: `sipster_sip_request_print` writes it,
-- and `sipster_sip_request_parse` reads from what was written the same request, with the Content-Type and
-- Content-Length that the print adds. Its method is one of the table, its URI and version hold no end
-- of line and the URI no blank, its first line has at most 149 bytes, it has a header, its headers and
-- the added ones are such that their lines can hold their fields, there are at most 2 ^ 16 of them, and
-- its body, if it has one, is not empty, begins with no blank, fits in its array and is the one that
-- the headers describe.
pub request_parse-request_print :
    (g : Resolver) (m : Method) (uri version : Bytes) (h : Header) (hs : List Header)
    (c : Option ContentBody)
    → m ≢ method_none
    → IsFree (b' ' ∷ []) uri
    → IsFree crlf uri
    → IsFree crlf version
    → length (spaced (method_name m) uri version) ≤ 149
    → All (IsPrinted g) (completed c (h ∷ hs))
    → length (completed c (h ∷ hs)) ≤ 2 ^ 16
    → IsContent c (see_all (completed c (h ∷ hs)) nothing_seen)
    → let headers = chain_of (completed c (h ∷ hs)) in
      (out : Bytes) × (request_print (request_with (line_of m uri version) (chain_of (h ∷ hs)) c)
        ≡ ok (out, request_with (line_of m uri version) (consume headers) c))
      × (request_parse g out (length out)
          ≡ ok (return_ok, live (request_with (line_of m uri version) headers c)))
unfolding request_print
request_parse-request_print g m uri version h hs c known blank free free' fits printable few v =
    let l = line_of m uri version in
    let all = completed c (h ∷ hs) in
    let w = All-IsPrinted g all printable in
    let whole = request_print_line_whole m uri version fits in
    let u = IsContent-IsSent c all v in
    (
      message_text g (request_print_line l) all w c,
      rw
          (
            complete_headers-chain_of c h hs,
            print_message-message_text g (request_print_line l) c all h w (rw whole fits)
                (completed-Begins c h hs) few u,
          )
          refl,
      request_parse-message_text g l all w c
          (rw whole
            (spaced-IsFree (method_name m) uri version (method_name-IsFree-crlf m) free free'))
          (parse_request_line-request_print_line m uri version request_create.request_line known
            blank fits)
          v u,
    )
