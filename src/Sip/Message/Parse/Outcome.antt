-- ===== src/Sip/Message/Parse/Outcome.antt =====
-- What the request parser returns for a first line that it refuses, and for one that it accepts.
use sipster.Sip.Header.{Header}
use sipster.Base.{
  ap, length, Bool-cases, ℕ, zero, suc, Bool, true, false, [], ◌∷◌, Option, none, some, ◌≡◌, refl,
  ◌∙◌, arith, ok, Bytes, equal, bind-eq-ok, inl, inr,
}
use sipster.Text.{Position, at, next_token}
use sipster.Sip.Enums.{return_ok, ReturnCode, Method, message_parse_error, find_method, methods}
use sipster.Sip.Inet.{Resolver}
use sipster.Sip.Header.Parse.{parse_header}
use sipster.Sip.Message.{RequestLine, Pointer, Request, dangling}
use sipster.Sip.Message.Line.{parse_request_line}
use sipster.Sip.Message.Parse.{
  live, nothing_seen, request_rest, has_body, request_body, request_content_if, crlf, Seen,
  request_loop, request_content, request_after_line, request_parse, request_take,
}

-- The first line of a datagram, and its first word.
abbrev pub first_line : Bytes → Bytes
first_line input = (next_token input crlf (at 0)).0

abbrev pub first_word : Bytes → Bytes
first_word input = (next_token (first_line input) (b' ' ∷ []) (at 0)).0

-- A datagram whose first word is no method of the table: the status is the parse error, and the
-- pointer returned is to the request that was destroyed.
pub request_parse_refused :
    (g : Resolver) (input : Bytes) (size : ℕ)
    → find_method (first_word input) methods ≡ none
    → request_parse g input size ≡ ok (message_parse_error, dangling)
unfolding request_parse request_after_line parse_request_line
request_parse_refused g input size e = rw e

request_loop-line :
    (fuel : ℕ) (g : Resolver) (input line : Bytes) (pos : Position) (r : Request) (s : Seen)
    {r' : Request} {s' : Seen} {pos' : Position}
    → request_loop fuel g input line pos r s ≡ ok (r', s', pos')
    → r'.request_line ≡ r.request_line
unfolding request_loop
request_loop-line zero g input line pos r s e = cc
request_loop-line (suc fuel) g input line pos r s e = elim (Bool-cases (equal line [])) [
  | inl over ↦ ground arith
  | inr more ↦
      let (o, parsed, rest) = bind-eq-ok (parse_header g line) _ (rw more at e) in
      request_loop-line fuel g input _ _ (request_take r s o).0 (request_take r s o).1 rest ∙ kept o
]
  where
    kept : (o : Option Header) → (request_take r s o).0.request_line ≡ r.request_line
    kept none = refl
    kept (some h) = refl

request_content-line :
    (input : Bytes) (size : ℕ) (pos : Position) (s : Seen) (n : Option ℕ) (r : Request)
    {r' : Request}
    → request_content input size pos s n r ≡ ok r'
    → r'.request_line ≡ r.request_line
unfolding request_content
request_content-line input size pos s none r e = ground arith
request_content-line input size pos s (some n) r e = go (has_body n pos size) e
  where
    go :
        (b : Bool) {r' : Request}
        → request_content_if b input pos s.content_type r ≡ ok r'
        → r'.request_line ≡ r.request_line
    go false e = ground arith
    go true e =
        let (b, made, rest) = bind-eq-ok (request_body input pos s.content_type) _ e in ground arith

request_rest-line :
    (g : Resolver) (input : Bytes) (size : ℕ) (pos : Position) (r : Request) {r' : Request}
    → request_rest g input size pos r ≡ ok r'
    → r'.request_line ≡ r.request_line
unfolding request_rest
request_rest-line g input size pos r e =
    let ((r1, s, pos'), looped, rest) =
      bind-eq-ok (request_loop (suc (length input)) g input _ _ r nothing_seen) _ e in
    request_content-line input size pos' s s.content_length r1 rest
    ∙ request_loop-line _ g input _ _ r nothing_seen looped

-- A datagram whose first word is the method `name`, of id `id`: where the parse ends without a memory
-- fault, the status is OK, and the pointer returned is to a request of that method.
pub request_parse_accepted :
    (g : Resolver) (input : Bytes) (size : ℕ) (name : Bytes) (id : Method) {res : ReturnCode}
    {p : Pointer Request}
    → find_method (first_word input) methods ≡ some (name, id)
    → request_parse g input size ≡ ok (res, p)
    → (res ≡ return_ok)
      × ((r : Request) × (p ≡ live r)
          × (r.request_line.method ≡ some name)
          × (r.request_line.method_id ≡ id))
unfolding request_parse request_after_line parse_request_line
request_parse_accepted g input size name id found e =
    let (r, parsed, rest) = bind-eq-ok (request_rest g input size _ _) _ (rw found at e) in
    let line = request_rest-line g input size _ _ parsed in
    (
      ground arith,
      (
        r,
        ground arith,
        ap (λ (l : RequestLine). l.method) line,
        ap (λ (l : RequestLine). l.method_id) line,
      ),
    )
