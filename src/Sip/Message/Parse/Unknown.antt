-- ===== src/Sip/Message/Parse/Unknown.antt =====
-- Responses with a header line that is not understood.
use sipster.Base.{
  ℕ, zero, suc, ◌<◌, false, List, [], ◌∷◌, ◌++◌, none, ◌≡◌, refl, ◌∙◌, arith, ok, length,
  length-append, All, Bytes, append_assoc, equal,
}
use sipster.Text.{Position, at, next_token}
use sipster.Text.Token.Split.{IsFree, remaining, next_token-line}
use sipster.Sip.Enums.{return_ok, message_parse_error}
use sipster.Sip.Inet.{Resolver}
use sipster.Sip.Header.{Header}
use sipster.Sip.Header.Parse.{parse_header}
use sipster.Sip.Header.Parse.Lines.{HasLine, lines_text, length-le-lines_text}
use sipster.Sip.Message.{Response, ResponseLine, response_create, null}
use sipster.Sip.Message.Line.{parse_response_line}
use sipster.Sip.Message.Parse.{
  crlf, Seen, see, nothing_seen, response_loop, response_take, on_header, response_rest,
  response_after_line, response_end, response_parse,
}

-- The loop comes through the lines of headers, and stops at the one that is not understood.
response_loop-unknown :
    (fuel : ℕ) (g : Resolver) (hs : List Header) (w : All (HasLine g) hs) (input bad rest : Bytes)
    (p : Position) (r : Response) (s : Seen)
    → length hs < fuel
    → remaining input p ≡ lines_text g hs w ++ (bad ++ (crlf ++ rest))
    → IsFree crlf bad
    → equal bad [] ≡ false
    → parse_header g bad ≡ ok none
    → response_loop fuel g input (next_token input crlf p).0 (next_token input crlf p).1 r s
      ≡ ok none
unfolding response_loop on_header
response_loop-unknown zero g hs w input bad rest p r s f e free more unknown =
    absurd (omega (arith, f))
response_loop-unknown (suc fuel) g [] w input bad rest p r s f e free more unknown =
    let token = next_token-line input bad rest p e free in rw (token.0, more, unknown) refl
response_loop-unknown (suc fuel) g (h ∷ hs) w input bad rest p r s f e free more unknown =
    let back = w.0 in
    let e' = e ∙ append_assoc back.0 (crlf ++ lines_text g hs w.1) (bad ++ (crlf ++ rest)) in
    let token =
      next_token-line input back.0 (lines_text g hs w.1 ++ (bad ++ (crlf ++ rest))) p e' back.3 in
    let looped =
      response_loop-unknown fuel g hs w.1 input bad rest (next_token input crlf p).1
        (response_take h r) (see h.header_id h.content s) (omega (arith, f)) token.1 free more
        unknown in
    rw (token.0, back.4, back.2) looped

-- A first line, the lines of headers, a line, and what is behind it.
abbrev pub text_with_bad :
    (g : Resolver) → Bytes → (hs : List Header) → All (HasLine g) hs → Bytes → Bytes → Bytes
text_with_bad g line hs w bad rest =
    line ++ (crlf ++ (lines_text g hs w ++ (bad ++ (crlf ++ rest))))

-- A response whose status line is accepted, with any headers that are parsed from their lines and then a
-- line, not empty, that is not understood, gives the parse error and NULL, whatever is behind that line.
pub response_parse-text_with_bad :
    (g : Resolver) (line : Bytes) (l : ResponseLine) (hs : List Header) (w : All (HasLine g) hs)
    (bad rest : Bytes) (size : ℕ)
    → IsFree crlf line
    → parse_response_line line response_create.response_line ≡ (return_ok, l)
    → IsFree crlf bad
    → equal bad [] ≡ false
    → parse_header g bad ≡ ok none
    → response_parse g (text_with_bad g line hs w bad rest) size ≡ ok (message_parse_error, null)
unfolding response_parse response_after_line response_rest response_end
response_parse-text_with_bad g line l hs w bad rest size free parsed whole more unknown =
    let text = text_with_bad g line hs w bad rest in
    let behind = lines_text g hs w ++ (bad ++ (crlf ++ rest)) in
    let first = next_token-line text line behind (at 0) refl free in
    let short : length hs < suc (length text) = omega (
      arith,
      length-le-lines_text g hs w,
      length-append line (crlf ++ behind),
      length-append (lines_text g hs w) (bad ++ (crlf ++ rest)),
    ) in
    let looped =
      response_loop-unknown (suc (length text)) g hs w text bad rest (next_token text crlf (at 0)).1
        (record response_create { response_line = l }) nothing_seen short first.1 whole more
        unknown in
    rw (first.0, parsed, looped) refl
