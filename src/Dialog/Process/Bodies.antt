-- ===== src/Dialog/Process/Bodies.antt =====
-- The body of a message, from its print on one side to the call leg of the other.
use sipster.Base.{refl, ℕ, ◌<◌, ◌∷◌, some, ◌≡◌, ok, length, All}
use sipster.Sip.Header.Parse.Fields.{c_str_fits}
use sipster.Sip.Message.{ContentBody}
use sipster.Sdp.Types.{Session}
use sipster.Sdp.Header.RoundTrip.{IsPrintable}
use sipster.Sdp.Session.{session_headers, sdp_print, sdp_parse}
use sipster.Sdp.Session.Printed.{printed_size}
use sipster.Sdp.Session.RoundTrip.{IsSession, sdp_parse-sdp_print}
use sipster.Dialog.{CallLeg}
use sipster.Dialog.Runtime.{Runtime, read_leg, take_description}

-- A message whose body is what a session description prints, and fits in the array of the body with its
-- NUL, leaves this session with a leg that is there, whatever content type the message names. The
-- session is one that the print and the parse of session descriptions bring back.
pub take_description-sdp_print :
    (w : Runtime) (l : ℕ) (leg : CallLeg) (b : ContentBody) (s : Session)
    → All (λ h. IsPrintable h.header_type h.content) (session_headers s)
    → IsSession s
    → printed_size (session_headers s) < 1998
    → sdp_print s ≡ ok b.body
    → length b.body < 1500
    → read_leg w l ≡ ok leg
    → take_description w (some l) (some b) ≡ ok (record w { remote_data = (l, s) ∷ w.remote_data })
unfolding take_description
take_description-sdp_print w l leg b s printable session small printed fits there =
    let (out, shown, parsed) = sdp_parse-sdp_print s printable session small in
    let same : out ≡ b.body = cc in
    let read : sdp_parse b.body ≡ ok s = rw same at parsed in
    rw (c_str_fits 1500 b.body fits, read, there) refl
