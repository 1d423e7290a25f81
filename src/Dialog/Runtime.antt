-- ===== src/Dialog/Runtime.antt =====
-- The state that the handling of messages works on, and its steps: `send_request` and `send_response` of
-- src/sipster.cpp, `sipster_sip_request_reply` and `sipster_sip_request_send` of src/sip.cpp, and what a
-- message writes into its leg.
use sipster.Base.{
  ℕ, List, [], ◌∷◌, ◌++◌, Option, none, some, Exec, ok, fault, use_after_free, ◌>>=◌, deref,
  element, if◌then◌else◌, Bytes, codes, contains, get_elem?, set,
}
use sipster.Text.{ℤ, pos, negsuc, c_str, strncpy_full}
use sipster.Sip.Enums.{ReturnCode, call_not_found, message_parse_error, message_error, return_ok}
use sipster.Sip.Inet.{SockAddr, sipster_to_sockaddr}
use sipster.Sip.Parameter.{Parameter}
use sipster.Sip.Header.{Header}
use sipster.Sip.Message.{ContentBody, Request, Response}
use sipster.Sip.Message.Print.{request_print, response_print}
use sipster.Sip.Message.Respond.{create_response}
use sipster.Sdp.Types.{Session}
use sipster.Sdp.Session.{sdp_parse}
use sipster.Dialog.{Sipster, CallLeg}

-- `SipsterUdpJob` as it is handed to the event loop: the destination, and the bytes.
pub record Job : Type 0 where
  pub dest : SockAddr
  pub message : Bytes

-- The state of `Sipster`, the legs that were freed, the `remoteData` of the legs, `rport` of the
-- handle, and the jobs that were queued.
pub record Runtime : Type 0 where
  pub sipster : Sipster
  pub freed : List ℕ
  pub remote_data : List (ℕ × Session)
  pub rport : ℕ
  pub sent : List Job

-- The values of the return codes.
abbrev pub code_value : ReturnCode → ℤ
code_value call_not_found = negsuc 2
code_value message_parse_error = negsuc 1
code_value message_error = negsuc 0
code_value return_ok = pos 0

abbrev pub status_400_bad_request : ℕ
status_400_bad_request = 14

abbrev pub status_481_call_transaction_does_not_exist : ℕ
status_481_call_transaction_does_not_exist = 47

-- `sipster_set_rport`.
abbrev pub set_rport : Runtime → ℕ → Runtime
set_rport w rport = record w { rport = rport }

-- The callbacks of the application, by their numbers: the handler, the leg, the message.
pub record Application : Type 0 where
  pub on_request : ℕ → ℕ → Request → Runtime → Exec (ℤ × Runtime)
  pub on_response : ℕ → ℕ → Response → Runtime → Exec (ℤ × Runtime)

-- Reading through a pointer to a leg.
unfoldable pub read_leg : Runtime → ℕ → Exec CallLeg
read_leg w l =
    if contains w.freed l then fault use_after_free else element (get_elem? w.sipster.store l)

-- `send_response` and `send_request` queue a job to the remote address, and return OK.
unfoldable pub send_response : Runtime → Response → Bytes → Exec Runtime
send_response w r message = do
  addr ← deref r.remote_addr
  ok (record w {
    sent = w.sent ++ record { dest = sipster_to_sockaddr addr; message = message } ∷ [];
  })

unfoldable pub send_request : Runtime → Request → Bytes → Exec Runtime
send_request w r message = do
  addr ← deref r.remote_addr
  ok (record w {
    sent = w.sent ++ record { dest = sipster_to_sockaddr addr; message = message } ∷ [];
  })

-- `sipster_sip_request_reply` and `sipster_sip_request_send`, with the message as the print leaves it.
unfoldable pub request_reply : Runtime → Response → Exec (Response × Runtime)
request_reply w r = do (out, r') ← response_print r; w' ← send_response w r' out; ok (r', w')

unfoldable pub request_send : Runtime → Request → Exec (Request × Runtime)
request_send w r = do (out, r') ← request_print r; w' ← send_request w r' out; ok (r', w')

-- A response without a body is made and sent; the tag is the leg's, or `none` for a NULL leg.
unfoldable pub answer : Runtime → Request → Option Bytes → ℕ → Exec Runtime
answer w r to_tag status = do
  response ← create_response w.rport r to_tag status none
  (response', w') ← request_reply w response
  ok w'

-- The status that a code is answered with; without one the response stays NULL.
abbrev pub refusal_status : ReturnCode → Option ℕ
refusal_status message_error = some status_400_bad_request
refusal_status message_parse_error = some status_400_bad_request
refusal_status call_not_found = some status_481_call_transaction_does_not_exist
refusal_status return_ok = none

-- `strcpy(contentType, "application/sdp")`, whose result is never NULL.
abbrev pub overwrite_type : Option ContentBody → Option ContentBody
overwrite_type none = none
overwrite_type (some b) = some (record b { content_type = codes "application/sdp" })

-- Any body is parsed as a session description, which becomes the leg's `remoteData`. The pointer to
-- the leg may be NULL.
unfoldable pub take_description : Runtime → Option ℕ → Option ContentBody → Exec Runtime
take_description w leg none = ok w
take_description w leg (some b) = do
  text ← c_str 1500 b.body
  session ← sdp_parse text
  l ← deref leg
  there ← read_leg w l
  ok (record w { remote_data = (l, session) ∷ w.remote_data })

-- The To tag of a response goes into the leg's field.
unfoldable pub take_tag : Runtime → Option ℕ → Option Parameter → Exec Runtime
take_tag w leg none = ok w
take_tag w leg (some tag) = do
  l ← deref leg
  there ← read_leg w l
  ok (record w {
    sipster = record w.sipster {
      store = set w.sipster.store l (record there { to_tag = strncpy_full 15 tag.value });
    };
  })

abbrev pub first_of : List (Option Header) → Option Header
first_of [] = none
first_of (h ∷ hs) = h
