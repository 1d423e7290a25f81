-- ===== src/Dialog/Process.antt =====
-- What is done with a message: `sipster_process_request`, `sipster_process_response`,
-- `sipster_sip_message_handler` and `udp_receive` of src/sipster.cpp.
pub mod Laws
pub mod Bodies
use sipster.Sip.Header.Print.{protocol_and_transport}
use sipster.Base.{
  zero, suc, ◌==◌, take, true, ℕ, [], ◌∷◌, Option, none, some, Exec, ok, ◌>>=◌, deref,
  if◌then◌else◌, Bytes, starts_with,
}
use sipster.Text.{ℤ, pos, negsuc, c_str}
use sipster.Sip.Enums.{ReturnCode, return_ok, HeaderId}
use sipster.Sip.Status.{status_200_ok}
use sipster.Sip.Inet.{sockaddr_to_sipster, InetAddress, Resolver, SockAddr}
use sipster.Sip.Chain.{get_header}
use sipster.Sip.Message.{Request, Response, access}
use sipster.Sip.Message.Parse.{request_parse, response_parse}
use sipster.Dialog.{CallLeg}
use sipster.Dialog.Lookup.{tag_of, get_call_leg_for_request, get_call_leg_for_response}
use sipster.Dialog.Runtime.{
  Application, Runtime, answer, code_value, first_of, overwrite_type, read_leg, refusal_status,
  take_description, take_tag,
}

-- The text of a buffer.
abbrev up_to_nul : Bytes → Bytes
up_to_nul [] = []
up_to_nul (c ∷ cs) = if c == 0 then [] else c ∷ up_to_nul cs

module _ (app : Application) where
  -- The handler of the leg, or 200 and the leg is freed.
  unfoldable pub handle_request : Runtime → ℕ → CallLeg → Request → Option ℕ → Exec (ℤ × Runtime)
  handle_request w l leg r (some h) = app.on_request h l r w
  handle_request w l leg r none = do
    w' ← answer w r (some leg.to_tag) status_200_ok
    ok (code_value return_ok, record w' { freed = l ∷ w'.freed })

  unfoldable pub process_found : Runtime → Option ℕ → Request → Exec (ℤ × Runtime)
  process_found w leg r = do
    w' ← take_description w leg r.content
    l ← deref leg
    there ← read_leg w' l
    handle_request w' l there (record r { content = overwrite_type r.content })
        there.request_handler

  -- After the lookup: a code other than OK is answered, and the status of the reply, OK, returned.
  unfoldable pub process_looked_up : ReturnCode → Runtime → Option ℕ → Request → Exec (ℤ × Runtime)
  process_looked_up return_ok w leg r = process_found w leg r
  process_looked_up code w leg r = do
    status ← deref (refusal_status code)
    w' ← answer w r none status
    ok (code_value return_ok, w')

  -- `sipster_process_request`.
  unfoldable pub process_request : Runtime → Request → Exec (ℤ × Runtime)
  process_request w r = do
    (code, leg, s) ← get_call_leg_for_request w.sipster r.headers true
    process_looked_up code (record w { sipster = s }) leg r

  unfoldable pub handle_response : Runtime → ℕ → Response → Option ℕ → Exec (ℤ × Runtime)
  handle_response w l r (some h) = app.on_response h l r w
  handle_response w l r none = ok (code_value return_ok, w)

  unfoldable pub process_answered : ReturnCode → Runtime → Option ℕ → Response → Exec (ℤ × Runtime)
  process_answered return_ok w leg r = do
    to ← deref (first_of (get_header HeaderId.to r.headers).headers)
    w1 ← take_tag w leg (tag_of to)
    w2 ← take_description w1 leg r.content
    l ← deref leg
    there ← read_leg w2 l
    handle_response w2 l (record r { content = overwrite_type r.content }) there.response_handler
  process_answered code w leg r = ok (code_value code, w)

  -- `sipster_process_response`.
  unfoldable pub process_response : Runtime → Response → Exec (ℤ × Runtime)
  process_response w r = do
    (code, leg) ← get_call_leg_for_response w.sipster r.headers
    process_answered code w leg r

  unfoldable pub handle_parsed_request :
      Runtime → InetAddress → ReturnCode → Request → Exec (ℤ × Runtime)
  handle_parsed_request w addr return_ok r =
      process_request w (record r { remote_addr = some addr })
  handle_parsed_request w addr code r = ok (code_value code, w)

  unfoldable pub handle_parsed_response :
      Runtime → InetAddress → ReturnCode → Response → Exec (ℤ × Runtime)
  handle_parsed_response w addr return_ok r =
      process_response w (record r { remote_addr = some addr })
  handle_parsed_response w addr code r = ok (code_value code, w)

  -- The two branches of the message handler: the remote address is written through the pointer before
  -- the status of the parse is looked at.
  unfoldable pub receive_response :
      Resolver → Runtime → InetAddress → Bytes → ℕ → Exec (ℤ × Runtime)
  receive_response g w addr datagram size = do
    (code, p) ← response_parse g datagram size
    r ← access p
    handle_parsed_response w addr code r

  unfoldable pub receive_request : Resolver → Runtime → InetAddress → Bytes → ℕ → Exec (ℤ × Runtime)
  receive_request g w addr datagram size = do
    (code, p) ← request_parse g datagram size
    r ← access p
    handle_parsed_request w addr code r

  -- `sipster_sip_message_handler`, by the first four bytes of `SIP_PROTOCOL_AND_TRANSPORT`.
  unfoldable pub message_handler : Resolver → Runtime → InetAddress → Bytes → ℕ → Exec (ℤ × Runtime)
  message_handler g w addr datagram size =
      if starts_with (take 4 protocol_and_transport) datagram
      then receive_response g w addr datagram size
      else receive_request g w addr datagram size

  -- `udp_receive` of `nread` bytes, a number that may be negative, in a buffer of `len` bytes: it ends
  -- the datagram by a NUL where there is room. Without room there is none to read up to.
  unfoldable pub udp_receive : Resolver → Runtime → SockAddr → ℤ → ℕ → Bytes → Exec Runtime
  udp_receive g w addr (negsuc n) len buf = ok w
  udp_receive g w addr (pos zero) len buf = ok w
  udp_receive g w addr (pos (suc n)) len buf = do
    datagram ← c_str len (up_to_nul (take (suc n) buf))
    (status, w') ← message_handler g w (sockaddr_to_sipster addr) datagram (suc n)
    ok w'
