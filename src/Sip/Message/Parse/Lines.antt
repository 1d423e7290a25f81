-- ===== src/Sip/Message/Parse/Lines.antt =====
-- The loops of the message parsers over the lines of headers that are parsed back.
use sipster.Base.{
  ap, some, ℕ, zero, suc, ◌<◌, List, [], ◌∷◌, ◌++◌, ◌≡◌, refl, ◌∙◌, arith, ok, length, All, Bytes,
  append_assoc,
}
use sipster.Text.{Position, next_token}
use sipster.Text.Token.Split.{remaining, next_token-line}
use sipster.Sip.Inet.{Resolver}
use sipster.Sip.Header.{Header, Content}
use sipster.Sip.Enums.{Method, HeaderId}
use sipster.Sip.Header.Parse.Lines.{HasLine, lines_text}
use sipster.Sip.Chain.{link_header}
use sipster.Sip.Chain.Linked.{link_all}
use sipster.Sip.Message.{Response, Request}
use sipster.Sip.Message.Parse.{
  method_of, note_method, response_loop, response_take, on_header, note_method, crlf, Seen, see,
  request_loop, request_take,
}

-- The Content-Length and the Content-Type that the loop has seen behind these headers.
unfoldable pub see_all : List Header → Seen → Seen
unfolding see
see_all [] s = s
see_all (h ∷ hs) s = see_all hs (see h.header_id h.content s)

-- The request's loop on the lines of headers links them all, and stops behind the empty line.
pub request_loop-lines_text :
    (fuel : ℕ) (g : Resolver) (hs : List Header) (w : All (HasLine g) hs) (input rest : Bytes)
    (p : Position) (r : Request) (s : Seen)
    → length hs < fuel
    → remaining input p ≡ lines_text g hs w ++ (crlf ++ rest)
    → (q : Position) × (request_loop fuel g input
          (next_token input crlf p).0
          (next_token input crlf p).1
          r
          s
        ≡ ok (record r { headers = link_all hs r.headers }, see_all hs s, q))
      × (remaining input q ≡ rest)
unfolding request_loop request_take see_all
request_loop-lines_text zero g hs w input rest p r s f e = absurd (omega (arith, f))
request_loop-lines_text (suc fuel) g [] w input rest p r s f e =
    let over = next_token-line input [] rest p e tt in
    ((next_token input crlf p).1, rw over.0 refl, over.1)
request_loop-lines_text (suc fuel) g (h ∷ hs) w input rest p r s f e =
    let back = w.0 in
    let e' = e ∙ append_assoc back.0 (crlf ++ lines_text g hs w.1) (crlf ++ rest) in
    let token = next_token-line input back.0 (lines_text g hs w.1 ++ (crlf ++ rest)) p e' back.3 in
    let (q, looped, left) =
      request_loop-lines_text fuel g hs w.1 input rest (next_token input crlf p).1
        (record r { headers = link_header r.headers h }) (see h.header_id h.content s)
        (omega (arith, f)) token.1 in
    (q, rw (token.0, back.4, back.2) looped, left)

-- The method of the last CSeq header, or the method before.
abbrev pub method_noted : HeaderId → Content → Method → Method
method_noted HeaderId.cseq c m = method_of c
method_noted _ c m = m

abbrev pub noted : List Header → Method → Method
noted [] m = m
noted (h ∷ hs) m = noted hs (method_noted h.header_id h.content m)

abbrev of_method : Response → Method → Response
of_method r m = record r { response_line = record (r.response_line) { method = m } }

note_method-noted :
    (i : HeaderId) (c : Content) (r : Response)
    → note_method i c r ≡ of_method r (method_noted i c r.response_line.method)
unfolding note_method
note_method-noted HeaderId.cseq c r = refl
note_method-noted _ c r = refl

response_take-noted :
    (h : Header) (r : Response)
    → response_take h r
      ≡ record (of_method r (method_noted h.header_id h.content r.response_line.method)) {
        headers = link_header r.headers h;
      }
unfolding response_take
response_take-noted h r =
    ap (λ (t : Response). record t { headers = link_header t.headers h })
      (note_method-noted h.header_id h.content r)

-- The response's loop on the lines of headers links them all, and notes the method of the CSeq.
pub response_loop-lines_text :
    (fuel : ℕ) (g : Resolver) (hs : List Header) (w : All (HasLine g) hs) (input rest : Bytes)
    (p : Position) (r : Response) (s : Seen)
    → length hs < fuel
    → remaining input p ≡ lines_text g hs w ++ (crlf ++ rest)
    → (q : Position) × (response_loop fuel g input
          (next_token input crlf p).0
          (next_token input crlf p).1
          r
          s
        ≡ ok (
            some (
              record (of_method r (noted hs r.response_line.method)) {
                headers = link_all hs r.headers;
              },
              see_all hs s,
              q,
            )))
      × (remaining input q ≡ rest)
unfolding response_loop on_header see_all
response_loop-lines_text zero g hs w input rest p r s f e = absurd (omega (arith, f))
response_loop-lines_text (suc fuel) g [] w input rest p r s f e =
    let over = next_token-line input [] rest p e tt in
    ((next_token input crlf p).1, rw over.0 refl, over.1)
response_loop-lines_text (suc fuel) g (h ∷ hs) w input rest p r s f e =
    let back = w.0 in
    let e' = e ∙ append_assoc back.0 (crlf ++ lines_text g hs w.1) (crlf ++ rest) in
    let token = next_token-line input back.0 (lines_text g hs w.1 ++ (crlf ++ rest)) p e' back.3 in
    let (q, looped, left) =
      response_loop-lines_text fuel g hs w.1 input rest (next_token input crlf p).1
        (record (of_method r (method_noted h.header_id h.content r.response_line.method)) {
          headers = link_header r.headers h;
        })
        (see h.header_id h.content s) (omega (arith, f)) token.1 in
    (q, rw (token.0, back.4, back.2, response_take-noted h r) looped, left)
