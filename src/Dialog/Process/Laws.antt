-- ===== src/Dialog/Process/Laws.antt =====
-- What the handling of messages does with refused requests and with legs that were freed.
use sipster.Sip.Message.Print.{response_print, print_message}
use sipster.Sip.Message.Respond.{create_response, response_tag, answer_leaves}
use sipster.Base.{
  List, All, equal, null_deref, ap, sym, ◌∙◌, element, get_elem?, ◌>>=◌, [], ◌++◌, deref, ◌≢◌,
  Option, ℕ, ◌∷◌, none, some, ◌≡◌, refl, ok, fault, use_after_free, bind-eq-ok, Bytes, true, false,
  contains, starts_with, take, arith,
}
use sipster.Text.{ℤ}
use sipster.Sip.Header.Print.{protocol_and_transport}
use sipster.Sip.Enums.{
  call_not_found, message_error, message_parse_error, ReturnCode, return_ok, find_method, methods,
}
use sipster.Sip.Inet.{sipster_to_sockaddr, InetAddress, Resolver}
use sipster.Sip.Message.{Request, Response, ResponseLine, response_create}
use sipster.Sip.Message.Line.{parse_response_line}
use sipster.Sip.Message.Parse.{crlf}
use sipster.Sip.Message.Parse.Unknown.{text_with_bad, response_parse-text_with_bad}
use sipster.Sip.Header.{Header}
use sipster.Sip.Header.Parse.{parse_header}
use sipster.Sip.Header.Parse.Lines.{HasLine}
use sipster.Text.Token.Split.{IsFree}
use sipster.Sip.Status.{statuses, status_phrases}
use sipster.Sip.Chain.{walk, empty_chain}
use sipster.Sip.Message.Parse.Outcome.{first_word, request_parse_refused}
use sipster.Dialog.{Sipster, CallLeg}
use sipster.Dialog.Lookup.{get_call_leg_for_request}
use sipster.Dialog.Lookup.Laws.{get_call_leg_for_request_refused}
use sipster.Dialog.Runtime.{
  code_value, send_response, request_reply, Application, Runtime, read_leg, answer,
  take_description,
}
use sipster.Dialog.Process.{
  handle_request, process_found, process_looked_up, process_request, receive_request,
  message_handler, receive_response,
}

-- A datagram that is no response and whose first word is no method makes the message handler write
-- through the pointer to the request that the parser has destroyed.
pub message_handler-request_parse_refused :
    (app : Application) (g : Resolver) (w : Runtime) (addr : InetAddress) (datagram : Bytes)
    (size : ℕ)
    → starts_with (take 4 protocol_and_transport) datagram ≡ false
    → find_method (first_word datagram) methods ≡ none
    → message_handler app g w addr datagram size ≡ fault use_after_free
unfolding message_handler receive_request
message_handler-request_parse_refused app g w addr datagram size request unknown =
    rw (request, request_parse_refused g datagram size unknown) refl

-- A datagram that begins like a response, whose status line is accepted, with any headers that are parsed
-- from their lines and then a line, not empty, that is not understood, makes the message handler read
-- through NULL.
pub message_handler-text_with_bad :
    (app : Application) (g : Resolver) (w : Runtime) (addr : InetAddress) (line : Bytes)
    (l : ResponseLine) (hs : List Header) (lines : All (HasLine g) hs) (bad rest : Bytes) (size : ℕ)
    → starts_with (take 4 protocol_and_transport) (text_with_bad g line hs lines bad rest) ≡ true
    → IsFree crlf line
    → parse_response_line line response_create.response_line ≡ (return_ok, l)
    → IsFree crlf bad
    → equal bad [] ≡ false
    → parse_header g bad ≡ ok none
    → message_handler app g w addr (text_with_bad g line hs lines bad rest) size ≡ fault null_deref
unfolding message_handler receive_response
message_handler-text_with_bad app g w addr line l hs lines bad rest size response free parsed whole
      more unknown =
    rw
      (
        response,
        response_parse-text_with_bad g line l hs lines bad rest size free parsed whole more unknown,
      )
      refl

-- If a request without a body whose leg has no handler is processed without a fault, then the next
-- request without a body that gets this leg makes the library read the leg after it was freed.
pub process_request-process_request_freed :
    (app : Application) (w : Runtime) (r again : Request) (l : ℕ) (s s' : Sipster) {leg : CallLeg}
    {code : ℤ} {w' : Runtime}
    → get_call_leg_for_request w.sipster r.headers true ≡ ok (return_ok, some l, s)
    → r.content ≡ none
    → read_leg (record w { sipster = s }) l ≡ ok leg
    → leg.request_handler ≡ none
    → process_request app w r ≡ ok (code, w')
    → get_call_leg_for_request w'.sipster again.headers true ≡ ok (return_ok, some l, s')
    → again.content ≡ none
    → process_request app w' again ≡ fault use_after_free
unfolding process_request process_looked_up process_found take_description handle_request read_leg
process_request-process_request_freed app w r again l s s' {leg} {code} {w'} found empty there bare
      done found' empty' =
    let served = rw (found, empty, there, bare) at done in
    let (w1, sent, last) = bind-eq-ok (answer _ _ _ _) _ served in
    let listed : w'.freed ≡ l ∷ w1.freed = cc in
    let gone : contains w'.freed l ≡ true = rw listed (ground arith) in
    rw (found', empty', gone) refl

-- The status code of a refusal.
abbrev pub refusal_code : ReturnCode → ℕ
refusal_code call_not_found = 481
refusal_code _ = 400

-- The request was answered with that status code: a response made from it, without a leg's tag and without
-- a body, is printed, and what is printed is queued for the address the request came from; but for
-- this the state is as it was.
abbrev pub IsAnswered : Runtime → Request → ℕ → ℕ → Runtime → Type 0
IsAnswered w r status code w' =
    (response : Response) × (printed : Response) × (out : Bytes) × (addr : InetAddress)
    × (create_response w.rport r none status none ≡ ok response)
    × (response.response_line.status_code ≡ some code)
    × (response_print response ≡ ok (out, printed))
    × (r.remote_addr ≡ some addr)
    × (w' ≡ record w {
      sent = w.sent ++ record { dest = sipster_to_sockaddr addr; message = out } ∷ [];
    })

create_response-fields :
    (rport : ℕ) (r : Request) (tag : Option Bytes) (status code : ℕ) (response : Response)
    → get_elem? statuses status ≡ some code
    → create_response rport r tag status none ≡ ok response
    → (response.response_line.status_code ≡ some code) × (response.remote_addr ≡ r.remote_addr)
unfolding create_response
create_response-fields rport r tag status code response there e =
    let (found, is, e1) = bind-eq-ok (element (get_elem? statuses status)) _ e in
    let (phrase, named, e2) = bind-eq-ok (element (get_elem? status_phrases status)) _ e1 in
    let (own, tagged, e3) = bind-eq-ok (response_tag status tag) _ e2 in
    let (c, filled, last) =
      bind-eq-ok (answer_leaves rport own (walk r.headers) empty_chain) _ e3 in
    let same : found ≡ code = there' is in (ground (arith, same), ground arith)
  where
    there' : {found : ℕ} → element (get_elem? statuses status) ≡ ok found → found ≡ code
    there' is = let is' = rw there at is in cc

deref-ok {ℓ} : {A : Type ℓ} (o : Option A) (a : A) → deref o ≡ ok a → o ≡ some a
deref-ok none a e = cc
deref-ok (some b) a e = ap some (ground arith)

response_print-remote_addr :
    (response printed : Response) (out : Bytes)
    → response_print response ≡ ok (out, printed)
    → printed.remote_addr ≡ response.remote_addr
unfolding response_print
response_print-remote_addr response printed out e =
    let (text, there, last) = bind-eq-ok (print_message _ response.content _) _ e in ground arith

answer-IsAnswered :
    (w w' : Runtime) (r : Request) (status code : ℕ)
    → get_elem? statuses status ≡ some code
    → answer w r none status ≡ ok w'
    → IsAnswered w r status code w'
unfolding answer request_reply send_response
answer-IsAnswered w w' r status code there e =
    let (response, made, e1) = bind-eq-ok (create_response w.rport r none status none) _ e in
    let ((response', v), replied, e2) = bind-eq-ok (request_reply w response) _ e1 in
    let ((out, printed), shown, e3) = bind-eq-ok (response_print response) _ replied in
    let (u, queued, e4) = bind-eq-ok (send_response w printed out) _ e3 in
    let (addr, known, last) = bind-eq-ok (deref printed.remote_addr) _ queued in
    let (status_code, origin) =
      create_response-fields w.rport r none status code response there made in
    let same : w' ≡ record w {
      sent = w.sent ++ record { dest = sipster_to_sockaddr addr; message = out } ∷ [];
    } =
      cc in
    (
      response,
      printed,
      out,
      addr,
      made,
      status_code,
      shown,
      sym origin
          ∙ (sym (response_print-remote_addr response printed out shown) ∙ deref-ok _ addr known),
      same,
    )

-- A request that gets no leg is answered, where it is processed without a fault, by exactly one message:
-- 481 where the lookup finds no call, 400 where it is an error. The result is OK; the maps of legs, the
-- legs, and what was freed and described before are as they were.
pub process_request-IsAnswered :
    (app : Application) (w w' : Runtime) (r : Request) (code : ReturnCode) (leg : Option ℕ)
    (s : Sipster) (result : ℤ)
    → get_call_leg_for_request w.sipster r.headers true ≡ ok (code, leg, s)
    → code ≢ return_ok
    → process_request app w r ≡ ok (result, w')
    → (result ≡ code_value return_ok)
      × ((status : ℕ) × IsAnswered w r status (refusal_code code) w')
unfolding process_request process_looked_up
process_request-IsAnswered app w w' r code leg s result looked other e =
    let kept : s ≡ w.sipster =
      get_call_leg_for_request_refused w.sipster r.headers true looked other in
    let run : process_looked_up app code w leg r ≡ ok (result, w') =
      rw (sym kept) (rw looked at e) in
    go code other run
  where
    with_status :
        (status code : ℕ)
        → get_elem? statuses status ≡ some code
        → ◌>>=◌ {B = ℤ × Runtime} (answer w r none status) (λ v. ok (code_value return_ok, v))
          ≡ ok (result, w')
        → (result ≡ code_value return_ok) × ((n : ℕ) × IsAnswered w r n code w')
    with_status status code there e =
        let (v, replied, last) = bind-eq-ok (answer w r none status) _ e in
        let same : v ≡ w' = cc in
        (cc, (status, answer-IsAnswered w w' r status code there (rw same at replied)))

    go :
        (code : ReturnCode)
        → code ≢ return_ok
        → process_looked_up app code w leg r ≡ ok (result, w')
        → (result ≡ code_value return_ok)
          × ((status : ℕ) × IsAnswered w r status (refusal_code code) w')
    go return_ok other e = absurd (other refl)
    go call_not_found other e = with_status _ 481 refl e
    go message_error other e = with_status _ 400 refl e
    go message_parse_error other e = with_status _ 400 refl e
