-- ===== src/Sip/Message/Parse/Fuel.antt =====
-- The loops of the parse functions end: a round that goes on has taken a byte of the input.
use sipster.Sip.Header.{Header}
use sipster.Base.{
  Exec, ℕ, zero, suc, ◌+◌, ◌<◌, Bool, true, false, [], Option, none, some, inl, inr, arith, InFuel,
  >>=-InFuel, Bytes, equal, equal_iff, length, if◌then◌else◌, Bool-cases,
}
use sipster.Text.{Position, next_token}
use sipster.Text.Token.Split.{remaining, next_token-decreases, next_token-le, length-remaining-le}
use sipster.Sip.Enums.{ReturnCode, return_ok}
use sipster.Sip.Inet.{Resolver}
use sipster.Sip.Header.Parse.Fuel.{parse_header-InFuel}
use sipster.Sip.Address.Fuel.{strncpy_bare-InFuel}
use sipster.Sip.Message.{ResponseLine, RequestLine, Request, Response}
use sipster.Sip.Message.Parse.{
  see, response_take, response_parse, response_end, response_after_line, on_header, response_loop,
  response_content_if, request_content_if, crlf, Seen, request_loop, request_content, body_type,
  request_after_line, request_parse, response_content, response_data, request_take,
}

body_type-InFuel : (ct : Option Bytes) → InFuel (body_type ct)
unfolding body_type
body_type-InFuel none = tt
body_type-InFuel (some t) = strncpy_bare-InFuel 150 t

request_content_if-InFuel :
    (b : Bool) (input : Bytes) (pos : Position) (ct : Option Bytes) (r : Request)
    → InFuel (request_content_if b input pos ct r)
unfolding request_content_if
request_content_if-InFuel false input pos ct r = tt
request_content_if-InFuel true input pos ct r =
    >>=-InFuel _ _
      (>>=-InFuel _ _ (body_type-InFuel ct)
        λ t. >>=-InFuel _ _ (strncpy_bare-InFuel 1500 _) λ c. tt)
      λ b. tt

request_content-InFuel :
    (input : Bytes) (size : ℕ) (pos : Position) (s : Seen) (n : Option ℕ) (r : Request)
    → InFuel (request_content input size pos s n r)
unfolding request_content
request_content-InFuel input size pos s none r = tt
request_content-InFuel input size pos s (some n) r = request_content_if-InFuel _ input pos _ r

response_data-InFuel : (n : ℕ) (d : Bytes) → InFuel (response_data n d)
unfolding response_data
response_data-InFuel n d = ground arith

response_content_if-InFuel :
    (b : Bool) (input : Bytes) (pos : Position) (n : ℕ) (ct : Option Bytes) (r : Response)
    → InFuel (response_content_if b input pos n ct r)
unfolding response_content_if
response_content_if-InFuel false input pos n ct r = tt
response_content_if-InFuel true input pos n ct r =
    >>=-InFuel _ _
      (>>=-InFuel _ _ (body_type-InFuel ct) λ t. >>=-InFuel _ _ (response_data-InFuel n _) λ c. tt)
      λ b. tt

response_content-InFuel :
    (input : Bytes) (size : ℕ) (pos : Position) (s : Seen) (n : Option ℕ) (r : Response)
    → InFuel (response_content input size pos s n r)
unfolding response_content
response_content-InFuel input size pos s none r = tt
response_content-InFuel input size pos s (some n) r = response_content_if-InFuel _ input pos n _ r

-- The fuel that the loop needs: a round for the line at hand, and one for each byte that is left.
abbrev pub Enough : ℕ → Bytes → Bytes → Position → Type 0
Enough fuel input line pos = length (remaining input pos) + (if equal line [] then 0 else 1) < fuel

pub Enough-next :
    (fuel : ℕ) (input : Bytes) (pos : Position)
    → length (remaining input pos) < fuel
    → Enough fuel input (next_token input crlf pos).0 (next_token input crlf pos).1
Enough-next fuel input pos h = elim (Bool-cases (equal (next_token input crlf pos).0 [])) [
  | inl over ↦ rw over (omega (arith, next_token-le input crlf pos))
  | inr more ↦
      rw more
        (omega (arith, next_token-decreases input crlf pos λ e. cc (more, (equal_iff _ []).1 e)))
]

request_loop-InFuel :
    (fuel : ℕ) (g : Resolver) (input line : Bytes) (pos : Position) (r : Request) (s : Seen)
    → Enough fuel input line pos
    → InFuel (request_loop fuel g input line pos r s)
unfolding request_loop
request_loop-InFuel zero g input line pos r s h = absurd (omega arith)
request_loop-InFuel (suc fuel) g input line pos r s h = elim (Bool-cases (equal line [])) [
  | inl over ↦ rw over tt
  | inr more ↦
      let left : length (remaining input pos) < fuel = omega (arith, rw more at h) in
      rw more (
        >>=-InFuel _ _ (parse_header-InFuel g line) λ o.
          request_loop-InFuel fuel g input (next_token input crlf pos).0
            (next_token input crlf pos).1 (request_take r s o).0 (request_take r s o).1
            (Enough-next fuel input pos left))
]

pub Enough-start :
    (input : Bytes) (pos : Position)
    → Enough (suc (length input)) input (next_token input crlf pos).0 (next_token input crlf pos).1
Enough-start input pos =
    Enough-next (suc (length input)) input pos (omega (arith, length-remaining-le input pos))

request_after_line-InFuel :
    (g : Resolver) (input : Bytes) (size : ℕ) (pos : Position) (res : ReturnCode) (l : RequestLine)
    → InFuel (request_after_line g input size pos res l)
unfolding request_after_line
request_after_line-InFuel g input size pos return_ok l =
    >>=-InFuel _ _
      (>>=-InFuel _ _ (request_loop-InFuel _ g input _ _ _ _ (Enough-start input pos))
        λ (r, s, pos'). request_content-InFuel input size pos' s s.content_length r)
      λ r. tt
request_after_line-InFuel g input size pos _ l = tt

-- `sipster_sip_request_parse` ends on every datagram: the loop over the header lines and the loops
-- over their parameters never stop for lack of fuel.
pub request_parse-InFuel :
    (g : Resolver) (input : Bytes) (size : ℕ) → InFuel (request_parse g input size)
unfolding request_parse
request_parse-InFuel g input size = request_after_line-InFuel g input size _ _ _

on_header-InFuel {ℓ} :
    {A : Type ℓ} (o : Option Header) (f : Header → Exec (Option A))
    → ((h : Header) → InFuel (f h))
    → InFuel (on_header o f)
unfolding on_header
on_header-InFuel none f k = tt
on_header-InFuel (some h) f k = k h

response_loop-InFuel :
    (fuel : ℕ) (g : Resolver) (input line : Bytes) (pos : Position) (r : Response) (s : Seen)
    → Enough fuel input line pos
    → InFuel (response_loop fuel g input line pos r s)
unfolding response_loop
response_loop-InFuel zero g input line pos r s h = absurd (omega arith)
response_loop-InFuel (suc fuel) g input line pos r s h = elim (Bool-cases (equal line [])) [
  | inl over ↦ rw over tt
  | inr more ↦
      let left : length (remaining input pos) < fuel = omega (arith, rw more at h) in
      rw more (
        >>=-InFuel _ _ (parse_header-InFuel g line) λ o. on_header-InFuel o _ λ h.
          response_loop-InFuel fuel g input (next_token input crlf pos).0
            (next_token input crlf pos).1 (response_take h r) (see h.header_id h.content s)
            (Enough-next fuel input pos left))
]

response_end-InFuel :
    (input : Bytes) (size : ℕ) (o : Option (Response × Seen × Position))
    → InFuel (response_end input size o)
unfolding response_end
response_end-InFuel input size none = tt
response_end-InFuel input size (some (r, s, pos)) =
    >>=-InFuel _ _ (response_content-InFuel input size pos s s.content_length r) λ r'. tt

response_after_line-InFuel :
    (g : Resolver) (input : Bytes) (size : ℕ) (pos : Position) (res : ReturnCode) (l : ResponseLine)
    → InFuel (response_after_line g input size pos res l)
unfolding response_after_line
response_after_line-InFuel g input size pos return_ok l =
    >>=-InFuel _ _ (response_loop-InFuel _ g input _ _ _ _ (Enough-start input pos))
      λ o. response_end-InFuel input size o
response_after_line-InFuel g input size pos _ l = tt

-- `sipster_sip_response_parse` ends on every datagram.
pub response_parse-InFuel :
    (g : Resolver) (input : Bytes) (size : ℕ) → InFuel (response_parse g input size)
unfolding response_parse
response_parse-InFuel g input size = response_after_line-InFuel g input size _ _ _
