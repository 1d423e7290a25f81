-- ===== src/Sip/Message/Parse/Responses.antt =====
-- Responses that are printed and parsed again.
use sipster.Base.{
  ℕ, suc, ◌≤◌, ◌^◌, Bool, true, ◌&&◌, List, [], ◌∷◌, ◌++◌, Option, none, some, ◌≡◌, refl, arith, ok,
  length, All, Bytes, take_all, get_elem?, zero, contains, not,
}
use sipster.Text.{at, next_token, decimal, snprintf, Position}
use sipster.Text.Token.Split.{IsFree, remaining, next_token-line}
use sipster.Text.Number.RoundTrip.{decimal-IsFree}
use sipster.Sip.Enums.{return_ok, Method, invite}
use sipster.Sip.Status.{statuses, status_phrases}
use sipster.Sip.Inet.{Resolver}
use sipster.Sip.Header.{Header}
use sipster.Sip.Header.Parse.Printable.{IsPrinted, All-IsPrinted}
use sipster.Sip.Header.Parse.Lines.{HasLine, lines_text, length-le-lines_text}
use sipster.Sip.Chain.{Chain}
use sipster.Sip.Chain.Linked.{chain_of}
use sipster.Sip.Message.{ContentBody, Response, ResponseLine, response_create, live}
use sipster.Sip.Message.Line.{parse_response_line, response_print_line, spaced}
use sipster.Sip.Message.Line.RoundTrip.{parse_response_line-response_print_line}
use sipster.Sip.Message.Parse.{
  crlf, nothing_seen, response_rest, response_after_line, response_end, response_parse,
}
use sipster.Sip.Message.Parse.Lines.{see_all, noted, response_loop-lines_text}
use sipster.Sip.Message.Parse.Body.{sent, IsContent, response_content-sent}
use sipster.Sip.Message.Parse.Requests.{IsContent-IsSent, spaced-IsFree}
use sipster.Sip.Message.Print.{response_print, consume}
use sipster.Sip.Message.Print.Lines.{
  completed, completed-Begins, complete_headers-chain_of, IsSent, message_text,
  print_message-message_text, length-message_text,
}

abbrev pub response_with : ResponseLine → Method → Chain → Option ContentBody → Response
response_with l m headers c = record response_create {
  response_line = record l { method = m };
  headers = headers;
  content = c;
}

response_rest-lines_text :
    (g : Resolver) (input : Bytes) (p : Position) (l : ResponseLine) (hs : List Header)
    (w : All (HasLine g) hs) (c : Option ContentBody)
    → remaining input p ≡ lines_text g hs w ++ (crlf ++ sent c)
    → length hs ≤ length input
    → IsContent c (see_all hs nothing_seen)
    → response_rest g input (length input) p (record response_create { response_line = l })
      ≡ ok (return_ok, live (response_with l (noted hs l.method) (chain_of hs) c))
unfolding response_rest response_end
response_rest-lines_text g input p l hs w c e f v =
    let (q, looped, left) =
      response_loop-lines_text (suc (length input)) g hs w input (sent c) p
        (record response_create { response_line = l }) nothing_seen (omega (arith, f)) e in
    rw
      (
        looped,
        response_content-sent input q (see_all hs nothing_seen) c
            (response_with l (noted hs l.method) (chain_of hs) none) left v,
      )
      refl

response_parse-message_text :
    (g : Resolver) (line : Bytes) (l : ResponseLine) (hs : List Header) (w : All (HasLine g) hs)
    (c : Option ContentBody)
    → IsFree crlf line
    → parse_response_line line response_create.response_line ≡ (return_ok, l)
    → IsContent c (see_all hs nothing_seen)
    → IsSent c
    → let out = message_text g line hs w c in
      response_parse g out (length out)
      ≡ ok (return_ok, live (response_with l (noted hs l.method) (chain_of hs) c))
unfolding response_parse response_after_line
response_parse-message_text g line l hs w c free parsed v u =
    let out = message_text g line hs w c in
    let first = next_token-line out line (lines_text g hs w ++ (crlf ++ sent c)) (at 0) refl free in
    let short : length hs ≤ length out =
      omega (arith, length-le-lines_text g hs w, length-message_text g line c hs w u) in
    let rest =
      response_rest-lines_text g out (next_token out crlf (at 0)).1 l hs w c first.1 short v in
    rw (first.0, parsed, rest) refl

-- No phrase of the table holds an end of line.
abbrev is_free : Bytes → Bool
is_free [] = true
is_free (c ∷ s) = not (contains crlf c) && is_free s

abbrev all_free : List Bytes → Bool
all_free [] = true
all_free (s ∷ ss) = is_free s && all_free ss

is_free-IsFree : (s : Bytes) → is_free s ≡ true → IsFree crlf s
is_free-IsFree [] e = tt
is_free-IsFree (c ∷ s) e = (ground arith, is_free-IsFree s (ground arith))

all_free-IsFree :
    (ss : List Bytes) (i : ℕ) (s : Bytes)
    → all_free ss ≡ true
    → get_elem? ss i ≡ some s
    → IsFree crlf s
all_free-IsFree [] i s e there = cc
all_free-IsFree (t ∷ ss) zero s e there =
    let here : t ≡ s = cc in rw here at (is_free-IsFree t (ground arith))
all_free-IsFree (t ∷ ss) (suc i) s e there = all_free-IsFree ss i s (ground arith) there

decimal-IsFree-crlf : (n : ℕ) → IsFree crlf (decimal n)
decimal-IsFree-crlf n = both (decimal n) (decimal-IsFree n b'\r' refl) (decimal-IsFree n b'\n' refl)
  where
    both : (s : Bytes) → IsFree (b'\r' ∷ []) s → IsFree (b'\n' ∷ []) s → IsFree crlf s
    both [] u v = tt
    both (c ∷ s) u v = (ground arith, both s u.1 v.1)

abbrev pub status_line : ℕ → ℕ → Bytes → Bytes → ResponseLine
status_line i code phrase version = record {
  version = some version;
  status_code = some code;
  status = i;
  reason = some phrase;
  method = invite;
}

response_print_line_whole :
    (i code : ℕ) (phrase version : Bytes) (m : Method)
    → length (spaced version (decimal code) phrase) ≤ 149
    → response_print_line (record (status_line i code phrase version) { method = m })
      ≡ spaced version (decimal code) phrase
unfolding response_print_line snprintf
response_print_line_whole i code phrase version m fits = take_all 149 _ fits

-- A response without a remote address comes back from its text: `sipster_sip_response_print` writes it,
-- and `sipster_sip_response_parse` reads from what was written the same response, with the Content-Type
-- and Content-Length that the print adds, and with the method of its last CSeq header, INVITE without
-- one. Its status is one of the tables, its version holds no blank and no end of line, its first line
-- has at most 149 bytes, it has a header, its headers and the added ones are such that their lines can
-- hold their fields, there are at most 2 ^ 16 of them, and its body, if it has one, is not empty,
-- begins with no blank, fits in its array and is the one that the headers describe.
pub response_parse-response_print :
    (g : Resolver) (i code : ℕ) (phrase version : Bytes) (m : Method) (h : Header)
    (hs : List Header) (c : Option ContentBody)
    → get_elem? statuses i ≡ some code
    → get_elem? status_phrases i ≡ some phrase
    → IsFree (b' ' ∷ []) version
    → IsFree crlf version
    → length (spaced version (decimal code) phrase) ≤ 149
    → All (IsPrinted g) (completed c (h ∷ hs))
    → length (completed c (h ∷ hs)) ≤ 2 ^ 16
    → IsContent c (see_all (completed c (h ∷ hs)) nothing_seen)
    → let l = status_line i code phrase version in
      let all = completed c (h ∷ hs) in
      (out : Bytes) × (response_print (response_with l m (chain_of (h ∷ hs)) c)
        ≡ ok (out, response_with l m (consume (chain_of all)) c))
      × (response_parse g out (length out)
          ≡ ok (return_ok, live (response_with l (noted all invite) (chain_of all) c)))
unfolding response_print
response_parse-response_print g i code phrase version m h hs c there named blank free fits printable
      few v =
    let l = status_line i code phrase version in
    let all = completed c (h ∷ hs) in
    let w = All-IsPrinted g all printable in
    let whole = response_print_line_whole i code phrase version m fits in
    let u = IsContent-IsSent c all v in
    let phrase_free = all_free-IsFree status_phrases i phrase refl named in
    let line = spaced version (decimal code) phrase in
    let parsed =
      parse_response_line-response_print_line i code phrase version response_create.response_line
        there named blank fits in
    let printed = response_print_line_whole i code phrase version invite fits in
    (
      message_text g line all w c,
      rw
          (
            complete_headers-chain_of c h hs,
            whole,
            print_message-message_text g line c all h w fits (completed-Begins c h hs) few u,
          )
          refl,
      response_parse-message_text g line l all w c
          (spaced-IsFree version (decimal code) phrase free (decimal-IsFree-crlf code) phrase_free)
          (rw printed at parsed) v u,
    )
