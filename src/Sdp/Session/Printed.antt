-- ===== src/Sdp/Session/Printed.antt =====
-- The text that `sipster_sdp_print` writes, line by line, and the loop of `sipster_sdp_parse` over it.
use sipster.Base.{
  bind-eq-ok, ℕ, zero, suc, ◌+◌, ◌<◌, ◌≤◌, List, [], ◌∷◌, ◌++◌, Option, some, ◌≡◌, refl, sym, ap,
  ◌∙◌, arith, ok, Exec, length, length-append, All, Bytes, append-nil, append_assoc,
}
use sipster.Text.{Position, at, next_token}
use sipster.Text.Token.Split.{remaining, next_token-line}
use sipster.Sip.Message.Parse.{crlf}
use sipster.Sip.Header.Parse.Fields.{strncpy_all_fits}
use sipster.Sdp.Types.{SdpHeader, Session, empty_session}
use sipster.Sdp.Header.Print.{print_sdp_header}
use sipster.Sdp.Header.Lines.{HasLine}
use sipster.Sdp.Header.Payloads.{equal_apart}
use sipster.Sdp.Session.{store, session_loop, sdp_parse, print_headers, session_headers, sdp_print}
use sipster.Sdp.Session.Stored.{store_all}

-- How many bytes a header takes, with the end of its line.
abbrev line_size : Exec (Option Bytes) → ℕ
line_size (ok (some line)) = length line + 2
line_size _ = 0

abbrev pub printed_size : List SdpHeader → ℕ
printed_size [] = 0
printed_size (h ∷ hs) = line_size (print_sdp_header h) + printed_size hs

abbrev pub lines_text : (hs : List SdpHeader) → All HasLine hs → Bytes
lines_text [] w = []
lines_text (h ∷ hs) w = w.0.0 ++ (crlf ++ lines_text hs w.1)

pub length-lines_text :
    (hs : List SdpHeader) (w : All HasLine hs) → length (lines_text hs w) ≡ printed_size hs
length-lines_text [] w = refl
length-lines_text (h ∷ hs) w =
    rw (w.0.1.0)
      (omega (arith, length-append w.0.0 (crlf ++ lines_text hs w.1), length-lines_text hs w.1))

pub print_headers-lines_text :
    (hs : List SdpHeader) (w : All HasLine hs) (out : Bytes)
    → length out + length (lines_text hs w) < 2000
    → print_headers hs out ≡ ok (out ++ lines_text hs w)
unfolding print_headers
print_headers-lines_text [] w out h = ap ok (sym (append-nil out))
print_headers-lines_text (h ∷ hs) w out small =
    let line = w.0.0 in
    let rest = lines_text hs w.1 in
    let whole = length-append line (crlf ++ rest) in
    let e1 = length-append out line in
    let e2 = length-append (out ++ line) crlf in
    rw
      (
        w.0.1.0,
        strncpy_all_fits 2000 (out ++ line) (omega (arith, small, whole, e1)),
        strncpy_all_fits 2000 ((out ++ line) ++ crlf) (omega (arith, small, whole, e1, e2)),
      )
      (print_headers-lines_text hs w.1 ((out ++ line) ++ crlf) (omega (arith, small, whole, e1, e2))
        ∙ ap ok (append_assoc (out ++ line) crlf rest ∙ append_assoc out line (crlf ++ rest)))

-- The loop on the lines of headers stores these headers, and stops at the empty line.
pub session_loop-lines_text :
    (fuel : ℕ) (hs : List SdpHeader) (w : All HasLine hs) (input : Bytes) (p : Position)
    (s s' : Session)
    → length hs < fuel
    → remaining input p ≡ lines_text hs w ++ crlf
    → store_all hs s ≡ ok s'
    → session_loop fuel input (next_token input crlf p).0 (next_token input crlf p).1 s ≡ ok s'
unfolding session_loop store_all
session_loop-lines_text zero hs w input p s s' f e stored = absurd (omega (arith, f))
session_loop-lines_text (suc fuel) [] w input p s s' f e stored =
    let over = next_token-line input [] [] p e tt in rw over.0 stored
session_loop-lines_text (suc fuel) (h ∷ hs) w input p s s' f e stored =
    let line = w.0.0 in
    let back = w.0.1 in
    let e' = e ∙ append_assoc line (crlf ++ lines_text hs w.1) crlf in
    let token = next_token-line input line (lines_text hs w.1 ++ crlf) p e' back.3 in
    let (t, first, last) = bind-eq-ok (store (some h) s) _ stored in
    rw (token.0, equal_apart line [] back.2, back.1, first)
      (session_loop-lines_text fuel hs w.1 input (next_token input crlf p).1 t s' (omega (arith, f))
        token.1 last)

length-le-lines_text :
    (hs : List SdpHeader) (w : All HasLine hs) → length hs ≤ length (lines_text hs w)
length-le-lines_text [] w = omega arith
length-le-lines_text (h ∷ hs) w =
    omega (arith, length-append w.0.0 (crlf ++ lines_text hs w.1), length-le-lines_text hs w.1)

-- Headers that are stored into a session that prints them.
pub sdp_parse-sdp_print_of :
    (s : Session)
    → All HasLine (session_headers s)
    → printed_size (session_headers s) < 1998
    → store_all (session_headers s) empty_session ≡ ok s
    → (out : Bytes) × (sdp_print s ≡ ok out) × (sdp_parse out ≡ ok s)
unfolding sdp_print sdp_parse
sdp_parse-sdp_print_of s w small stored =
    let hs = session_headers s in
    let text = lines_text hs w in
    let size = length-lines_text hs w in
    let ends = length-append text crlf in
    (
      text ++ crlf,
      rw (print_headers-lines_text hs w [] (omega (arith, size, small)))
          (strncpy_all_fits 2000 (text ++ crlf) (omega (arith, size, small, ends))),
      session_loop-lines_text _ hs w (text ++ crlf) (at 0) empty_session s
          (omega (arith, ends, length-le-lines_text hs w)) refl stored,
    )
